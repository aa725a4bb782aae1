-- ===== src/Pilot/Servlets.antt =====
-- circe-pilot/circe-pilot/src/servlets.cpp: the four handlers of the pilot server, on the
-- repository. Each opens the compass of its request's key and works on it in place.
--
-- `hash` is `Compass_key::from_hash_of`, of `Pilot.Key`.
use poseidon_circe.Prelude.{ℕ, List, if◌then◌else◌, is_some}
use poseidon_circe.Prelude.Bytes.{Bytes}
use poseidon_circe.Prelude.State.{M, ok, ◌>>=◌, ◌>>◌, return}
use poseidon_circe.Pilot.Messages.{
  CompareExchangeRequest, CompareExchangeResponse, ExchangeRequest, ExchangeResponse,
  AddWatchRequest, AddWatchResponse, RemoveWatchNotification,
}
use poseidon_circe.Pilot.Lock.{Connection}
use poseidon_circe.Pilot.Watchers.{WatcherMap, add_watcher, remove_watcher}
use poseidon_circe.Pilot.Compass.{Env, Event, Site}
use poseidon_circe.Pilot.Repository.{Repository, open_compass, update_compass_indices, update_heap}
use poseidon_circe.Pilot.Exchange.{compare_exchange, exchange}

pub record PilotServer : Type 0 where
  pub repository : Repository
  pub sent : List Event

abbrev pub open_in_server : Bytes → M PilotServer ℕ
open_in_server key v =
    let (r, result) = open_compass key v.repository in (record v { repository = r }, result)

-- a part of a handler that works on the compass at an address
abbrev pub on_compass : {A : Type 0} → ℕ → M Site A → M PilotServer A
on_compass ptr m v =
    let (s, result) = m (record { compass = v.repository.heap ptr; sent = v.sent }) in
    (
      record {
        repository = record v.repository { heap = update_heap v.repository.heap ptr s.compass };
        sent = s.sent;
      },
      result,
    )

-- the end of `Compass::update_last_access_time`, for a compass that has a row
update_indices : ℕ → M PilotServer (Unit {0})
update_indices ptr v = (
  record v {
    repository =
        if is_some (v.repository.heap ptr).dao
        then (update_compass_indices ptr v.repository).0
        else v.repository;
  },
  ok tt,
)

on_watchers : {A : Type 0} → M WatcherMap A → M Site A
on_watchers m s =
    let (w, result) = m s.compass.watcher_map in
    (record s { compass = record s.compass { watcher_map = w } }, result)

module _ (hash : Bytes → Bytes) (env : Env) where
  unfoldable pub serve_compare_exchange :
      Connection → CompareExchangeRequest → M PilotServer CompareExchangeResponse
  unfolding update_indices
  serve_compare_exchange connection req = do
    ptr ← open_in_server (hash req.key)
    resp ← on_compass ptr (compare_exchange env connection req)
    update_indices ptr
    return resp

  unfoldable pub serve_exchange : Connection → ExchangeRequest → M PilotServer ExchangeResponse
  unfolding update_indices
  serve_exchange connection req = do
    ptr ← open_in_server (hash req.key)
    resp ← on_compass ptr (exchange env connection req)
    update_indices ptr
    return resp

  -- `random` is the new watcher's UUID
  unfoldable pub serve_add_watch : ℕ → Connection → AddWatchRequest → M PilotServer AddWatchResponse
  unfolding on_watchers
  serve_add_watch random connection req = do
    ptr ← open_in_server (hash req.key)
    uuid ← on_compass ptr (on_watchers (add_watcher env.expired random connection.ptr))
    return (record { watcher_uuid = uuid })

  unfoldable pub serve_remove_watch : RemoveWatchNotification → M PilotServer (Unit {0})
  unfolding on_watchers
  serve_remove_watch ntfy = do
    ptr ← open_in_server (hash ntfy.key)
    on_compass ptr
        (on_watchers (λ w. let (w', _) = remove_watcher w ntfy.watcher_uuid in (w', ok tt)))
