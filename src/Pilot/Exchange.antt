-- ===== src/Pilot/Exchange.antt =====
-- circe-pilot/circe-pilot/src/servlets.cpp: the two handlers that exchange the value of a compass,
-- from the opened compass on. `Pilot.Repository` opens the compass and keeps the indices.
--
-- A handler runs with one `Env`: a connection that is destroyed meanwhile counts as destroyed before
-- or after.
pub mod Stages
pub mod Finish
pub mod Ending
pub mod Total
use poseidon_circe.Prelude.{
  ℕ, suc, ◌^◌, List, [], ◌∷◌, Bool, false, not, ◌&&◌, if◌then◌else◌, ltb, length, is_empty,
  get_elem?, Option, none, some,
}
use poseidon_circe.Prelude.Bytes.{Bytes, str_eq}
use poseidon_circe.Prelude.Int.{ℤ, sub_bool, is_positive}
use poseidon_circe.Prelude.State.{M, exception, ◌>>=◌, ◌>>◌, call, return, fail}
use poseidon_circe.Pilot.Messages.{
  Criterion, CompareExchangeRequest, CompareExchangeResponse, ExchangeRequest, ExchangeResponse,
}
use poseidon_circe.Pilot.Lock.{CompassLock, Connection, try_lock_shared, try_lock_exclusive}
use poseidon_circe.Pilot.Compass.{
  Env, Site, with_lock, get_value, get_version, set_value, update_last_access_time,
}
use poseidon_circe.Pilot.Disposition.{
  parse_lock_disposition, commit_lock_disposition, get_compass_lock_state,
}

-- a part of a handler that works on the lock alone
abbrev pub on_lock : {A : Type 0} → M CompassLock A → M Site A
on_lock m s =
    let (l, r) = m s.compass.lock in (record s { compass = record s.compass { lock = l } }, r)

-- `boost::numeric_cast<unsigned>`
unfoldable pub numeric_cast_unsigned : ℕ → M CompassLock ℕ
numeric_cast_unsigned n = if ltb n (2 ^ 32) then return n else fail exception

-- the loop that searches for the first match
unfoldable pub search_criteria : Bytes → List Criterion → ℕ
search_criteria value_old [] = 0
search_criteria value_old (c ∷ criteria) =
    let rest = search_criteria value_old criteria in
    if not (str_eq c.value_cmp value_old) then suc rest else 0

module _ (env : Env) (connection : Connection) where
  -- an attempt to lock the compass exclusively, and the dispositions that are left
  unfoldable pub lock_for_writing : ℤ × ℤ → M CompassLock (Bool × (ℤ × ℤ))
  lock_for_writing (shared, exclusive) = do
    locked ← call (λ l. try_lock_exclusive env.expired l connection)
    return (locked, (shared, sub_bool exclusive locked))

  -- an attempt to lock it shared
  unfoldable pub lock_for_reading : ℤ × ℤ → M CompassLock (Bool × (ℤ × ℤ))
  lock_for_reading (shared, exclusive) = do
    locked ← call (λ l. try_lock_shared env.expired l connection)
    return (locked, (sub_bool shared locked, exclusive))

  -- which lock is tried: whether it was obtained, and the dispositions that are left
  unfoldable pub choose_lock : List Criterion → ℕ → ℤ × ℤ → M CompassLock (Bool × (ℤ × ℤ))
  choose_lock criteria index (shared, exclusive) =
      if not (is_empty criteria) && not (ltb index (length criteria))
      then return (false, (shared, exclusive))
      else if is_empty criteria && not (is_positive exclusive)
      then lock_for_reading (shared, exclusive)
      else lock_for_writing (shared, exclusive)

  -- `compass->set_value(req.criteria.at(criterion_index).value_new)`, if there was a match
  unfoldable pub set_matched : Option Criterion → M Site (Unit {0})
  set_matched none = return tt
  set_matched (some c) = set_value env c.value_new

  -- the update of the value and of the locks, made only if the compass has been locked
  unfoldable pub update_if : Bool → M Site (Unit {0}) → ℤ → ℤ → M Site (Unit {0})
  update_if locked set shared exclusive =
      if locked
      then (do set; on_lock (commit_lock_disposition env.expired connection shared exclusive))
      else return tt

  -- the end of both handlers: the state of the lock, and the time of the access
  unfoldable pub conclude : M Site ℕ
  conclude = do
    lock_state ← with_lock (get_compass_lock_state env.expired connection)
    λ s. return lock_state (record s { compass = update_last_access_time env s.compass })

  -- the rest of both handlers, from the lock that has been obtained or not
  unfoldable pub finish : M Site (Unit {0}) → Bool × (ℤ × ℤ) → M Site (Bool × ℕ)
  finish set (locked, (shared, exclusive)) = do
    update_if locked set shared exclusive
    lock_state ← conclude
    return (locked, lock_state)

  -- the handler of a `Compare_exchange_request`
  unfoldable pub compare_exchange : CompareExchangeRequest → M Site CompareExchangeResponse
  compare_exchange req = do
    disposition ← on_lock (numeric_cast_unsigned req.lock_disposition)
    parsed ← on_lock (parse_lock_disposition env.expired connection disposition)
    value_old ← call (λ s. (s, get_value s.compass))
    version_old ← call (λ s. (s, get_version s.compass))
    let index = search_criteria value_old req.criteria
    chosen ← on_lock (choose_lock req.criteria index parsed)
    (locked, lock_state) ← finish (set_matched (get_elem? req.criteria index)) chosen
    return (record {
      value_old = value_old;
      version_old = version_old;
      succeeded = locked;
      criterion_index = index;
      lock_state = lock_state;
    })

  -- the handler of an `Exchange_request`
  unfoldable pub exchange : ExchangeRequest → M Site ExchangeResponse
  exchange req = do
    disposition ← on_lock (numeric_cast_unsigned req.lock_disposition)
    parsed ← on_lock (parse_lock_disposition env.expired connection disposition)
    value_old ← call (λ s. (s, get_value s.compass))
    version_old ← call (λ s. (s, get_version s.compass))
    chosen ← on_lock (lock_for_writing parsed)
    (locked, lock_state) ← finish (set_value env req.value_new) chosen
    return (record {
      value_old = value_old;
      version_old = version_old;
      succeeded = locked;
      lock_state = lock_state;
    })
