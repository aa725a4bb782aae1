-- ===== src/Interserver/Acceptor.antt =====
-- circe-common/circe-common/src/interserver_acceptor.cpp: the sessions of a server by UUID.
--
-- `expired` says which sessions have been destroyed, and `acceptor_alive` whether the acceptor is
-- still there when one of its sessions asks for it. Sockets belong to the framework: `bound` says
-- whether the listening socket could be made. A UUID is a number, and not nil.
pub mod Registered
pub mod Lookup
use poseidon_circe.Prelude.{
  ℕ, suc, List, [], ◌∷◌, ◌++◌, Bool, true, false, not, if◌then◌else◌, Option, none, some, is_some,
  is_empty, ◌==◌,
}
use poseidon_circe.Prelude.Bytes.{Bytes}
use poseidon_circe.Prelude.State.{
  M, Error, Result, ok, throw, exception, assertion, protocol, ◌>>=◌, ◌>>◌, return, fail, require,
}
use poseidon_circe.FlatMap.Weak.{find_live, insert_live, collect_live}
use poseidon_circe.Interserver.Sessions.{
  Session, new_session, Heap, store, error_gone_away, get_connection_uuid, notify_safely, shut_down,
  for_each_live,
}

-- `m_server` is the listening socket; `sessions` is the heap.
pub record Acceptor : Type 0 where
  pub is_active : Bool
  pub weak_sessions : List (ℕ × ℕ)
  pub sessions : Heap
  pub next_session : ℕ

abbrev pub new_acceptor : Acceptor
new_acceptor = record {
  is_active = false;
  weak_sessions = [];
  sessions = λ p. new_session;
  next_session = 0;
}

unfoldable pub create : Bytes → ℕ → Result Acceptor
create bind port =
    if is_empty bind
    then throw exception
    else if port == 0
    then throw exception
    else ok new_acceptor

unfoldable pub activate : Bool → M Acceptor (Unit {0})
activate bound a =
    if a.is_active
    then (a, throw exception)
    else if bound
    then (record a { is_active = true }, ok tt)
    else (a, throw exception)

-- `on_client_connect`: the address of the new session
unfoldable pub on_client_connect : Bool → M Acceptor ℕ
on_client_connect acceptor_alive a =
    if acceptor_alive
    then (
      record a {
        sessions = store a.next_session new_session a.sessions;
        next_session = suc a.next_session;
      },
      ok a.next_session,
    )
    else (a, throw exception)

-- the state that an insertion has left, and its result
unfoldable pub with_sessions : List (ℕ × ℕ) × Result (Unit {0}) → M Acceptor (Unit {0})
with_sessions (m, r) a = (record a { weak_sessions = m }, r)

-- the assertion on the UUID of the session that was found
unfoldable pub check_uuid : ℕ → ℕ → Result ℕ → Result (Option ℕ)
check_uuid connection_uuid p (throw e) = throw e
check_uuid connection_uuid p (ok uuid) =
    if uuid == connection_uuid then ok (some p) else throw assertion

unfoldable pub found_session : ℕ → Option ℕ → Acceptor → Result (Option ℕ)
unfolding check_uuid get_connection_uuid
found_session connection_uuid none a = ok none
found_session connection_uuid (some p) a =
    check_uuid connection_uuid p (get_connection_uuid (a.sessions p))

module _ (expired : ℕ → Bool) where
  -- `get_connection_uuid()`, and the entry under it
  unfoldable pub register_under : ℕ → Result ℕ → M Acceptor (Unit {0})
  unfolding with_sessions insert_live
  register_under p (throw e) a = (a, throw e)
  register_under p (ok uuid) a =
      with_sessions (insert_live expired exception uuid p a.weak_sessions) a

  -- `layer7_post_set_connection_uuid` of the session at `p`
  unfoldable pub post_set_connection_uuid : Bool → ℕ → M Acceptor (Unit {0})
  unfolding register_under get_connection_uuid error_gone_away
  post_set_connection_uuid acceptor_alive p a =
      if acceptor_alive
      then register_under p (get_connection_uuid (a.sessions p)) a
      else (a, throw (protocol error_gone_away))

  -- what `server_accept_hello` does to the UUID of its session
  unfoldable pub accept_uuid : Bool → ℕ → ℕ → M Acceptor (Unit {0})
  unfolding post_set_connection_uuid
  accept_uuid acceptor_alive p uuid a =
      if is_some (a.sessions p).connection_uuid
      then (a, throw exception)
      else post_set_connection_uuid acceptor_alive p (record a {
        sessions = store p (record (a.sessions p) { connection_uuid = some uuid }) a.sessions;
      })

  unfoldable pub get_session : ℕ → Acceptor → Result (Option ℕ)
  unfolding found_session find_live
  get_session connection_uuid a =
      found_session connection_uuid (find_live expired connection_uuid a.weak_sessions) a

  unfoldable pub get_all_sessions : List ℕ → Acceptor → List ℕ × ℕ
  unfolding collect_live
  get_all_sessions sessions_ret a = collect_live expired a.weak_sessions sessions_ret

  unfoldable pub safe_broadcast_notification : Bool → ℕ → Bytes → Acceptor → Acceptor × ℕ
  unfolding for_each_live notify_safely
  safe_broadcast_notification launched message_id payload a =
      let (sessions, count_notified) =
        for_each_live expired (notify_safely launched message_id payload) a.weak_sessions
          a.sessions in
      (record a { sessions = sessions }, count_notified)

  -- Each entry is erased after its session has been shut down.
  unfoldable pub clear : Acceptor → Acceptor × ℕ
  unfolding for_each_live shut_down
  clear a =
      let (sessions, count_shutdown) = for_each_live expired shut_down a.weak_sessions a.sessions in
      (record a { weak_sessions = []; sessions = sessions }, count_shutdown)
