-- ===== src/Tests/AcceptorTests.antt =====
-- Acceptors, connectors and the messages they read, on small maps.
use poseidon_circe.Prelude.{
  ℕ, ◌+◌, ◌≤◌, ◌≡◌, ◌⊎◌, refl, List, [], ◌∷◌, Bool, true, false, if◌then◌else◌, not, ◌&&◌, none,
  some, ◌==◌, arith,
}
use poseidon_circe.Prelude.Bytes.{Bytes}
use poseidon_circe.Prelude.State.{ok}
use poseidon_circe.FlatMap.{count}
use poseidon_circe.Interserver.Sessions.{new_session, notify_safely}
use poseidon_circe.Interserver.Sessions.Each.{points_to}
use poseidon_circe.Interserver.Sessions.Parts.{receive_message, receive_message_lem}
use poseidon_circe.Interserver.Acceptor.{
  Acceptor, new_acceptor, create, accept_uuid, get_session, get_all_sessions,
  safe_broadcast_notification,
}
use poseidon_circe.Interserver.Acceptor.Registered.{
  IsRegistered, Event, activates, connects, accepts, notifies, clears, run, ArePossible,
}
use poseidon_circe.Interserver.Acceptor.Lookup.{
  get_session-run, safe_broadcast_notification_lem, get_session-accept_uuid,
}
use poseidon_circe.Interserver.Connector.{Connector, Lookup, get_all_clients}
use poseidon_circe.Interserver.Connector
use poseidon_circe.Interserver.Connector.Reconnect.{quiet, AllConnected, timer_proc-AllConnected}
use poseidon_circe.Interserver.Connector.Blocked.{ticks, blocked_by_first}

abbrev is_null : ℕ → Bool
is_null p = p == 0

abbrev part : Bytes
part = 1 ∷ 2 ∷ []

-- a message in two parts, after another one has left its bytes
receive_message_lem_example :
    (receive_message 100 1901 4
      (part ∷ part ∷ [])
      (record { magic_number = 1; deflated_payload = part })).1
    ≡ ok (1901, 1 ∷ 2 ∷ 1 ∷ 2 ∷ [])
receive_message_lem_example =
    receive_message_lem 100 1901 4 (part ∷ part ∷ [])
      (record { magic_number = 1; deflated_payload = part })

abbrev no_one : ℕ → Bool
no_one p = false

-- a session connects, takes the UUID 7 and is notified
abbrev events : List ((ℕ → Bool) × Event)
events =
    (no_one, activates true)
    ∷ (no_one, connects true)
    ∷ (no_one, accepts true 0 7)
    ∷ (no_one, notifies true 1901 part)
    ∷ []

created : create part 80 ≡ ok new_acceptor
unfolding create
created = refl

events-ArePossible : ArePossible new_acceptor events
unfolding poseidon_circe.Interserver.Acceptor.Registered.step
    poseidon_circe.Interserver.Acceptor.on_client_connect
events-ArePossible = (tt, (tt, (omega arith, (tt, tt))))

get_session-run_example :
    (get_session no_one 7 (run new_acceptor events) ≡ ok none)
    ⊎ ((p : ℕ) × (get_session no_one 7 (run new_acceptor events) ≡ ok (some p))
        × (((run new_acceptor events).sessions p).connection_uuid ≡ some 7)
        × (no_one p ≡ false))
get_session-run_example =
    get_session-run part 80 new_acceptor events no_one 7 created events-ArePossible

-- one session, at address 0, with the UUID 7
abbrev registered : Acceptor
registered = record {
  is_active = true;
  weak_sessions = (7, 0) ∷ [];
  sessions = λ p. record new_session { connection_uuid = some 7 };
  next_session = 1;
}

registered-IsRegistered : IsRegistered registered
registered-IsRegistered = record {
  unique = λ k. unfold count in ground arith;
  own = (refl, tt);
  fresh = (omega arith, tt);
}

safe_broadcast_notification_lem_example :
    ((safe_broadcast_notification no_one true 1901 part registered).0.sessions 0 ≡ (
      if points_to 0 registered.weak_sessions && not (no_one 0)
      then notify_safely true 1901 part (registered.sessions 0)
      else registered.sessions 0))
    × ((safe_broadcast_notification no_one true 1901 part registered).1
        ≡ (get_all_sessions no_one [] registered).1)
safe_broadcast_notification_lem_example =
    safe_broadcast_notification_lem no_one registered registered-IsRegistered true 1901 part 0

-- a session that has just connected
abbrev connected : Acceptor
connected = record {
  is_active = true;
  weak_sessions = [];
  sessions = λ p. new_session;
  next_session = 1;
}

connected-IsRegistered : IsRegistered connected
connected-IsRegistered = record { unique = λ k. unfold count in omega arith; own = tt; fresh = tt }

get_session-accept_uuid_example :
    get_session no_one 7 (accept_uuid no_one true 0 7 connected).0 ≡ ok (some 0)
unfolding accept_uuid poseidon_circe.FlatMap.has poseidon_circe.FlatMap.erase_if
get_session-accept_uuid_example =
    get_session-accept_uuid no_one true 0 7 7 connected (accept_uuid no_one true 0 7 connected).0
      connected-IsRegistered (omega arith) refl refl

-- two hosts without clients
abbrev hosts : List ℕ
hosts = 5 ∷ 6 ∷ []

abbrev connector : Connector
connector = record {
  hosts = hosts;
  is_active = false;
  weak_clients = [];
  clients = λ p. new_session;
  next_client = 1;
  authenticated = λ p. false;
  killed = [];
  pinged = [];
}

later_not_null : (p : ℕ) → 1 ≤ p → is_null p ≡ false
later_not_null p h = ground arith

timer_proc-AllConnected_example :
    AllConnected is_null hosts connector
      (Connector.timer_proc true (λ i. quiet is_null (10 + i)) connector)
timer_proc-AllConnected_example =
    timer_proc-AllConnected is_null (λ i. 10 + i) connector refl later_not_null

-- The first host has no address, the second would have one.
abbrev look : ℕ → Lookup
look i = record (quiet is_null 10) { resolved = not (i == 0) }

connector_created : Connector.create hosts 80 ≡ ok connector
unfolding Connector.create
connector_created = refl

blocked_by_first_example : get_all_clients is_null [] (ticks (look ∷ look ∷ []) connector) ≡ ([], 0)
blocked_by_first_example =
    blocked_by_first 5 (6 ∷ []) 80 connector (look ∷ look ∷ []) is_null connector_created
      ((refl, λ c. refl, refl), ((refl, λ c. refl, refl), tt)) refl
