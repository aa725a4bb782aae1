-- ===== src/Interserver/Acceptor/Registered.antt =====
-- interserver_acceptor.cpp: the invariant of the map of sessions, over everything that an acceptor
-- meets.
use poseidon_circe.Prelude.{
  ℕ, suc, ◌<◌, ◌≡◌, refl, List, [], ◌∷◌, if_lem, if_cases, Bool, true, false, none, some, All,
  is_some, arith,
}
use poseidon_circe.Prelude.Bytes.{Bytes}
use poseidon_circe.Prelude.State.{Result, exception}
use poseidon_circe.FlatMap.{count}
use poseidon_circe.FlatMap.Weak.{IsUnique, insert_live, insert_live-IsUnique, All-insert_live}
use poseidon_circe.Interserver.Sessions.{
  Session, new_session, Heap, store, get_connection_uuid, notify_safely, for_each_live,
}
use poseidon_circe.Interserver.Sessions.Each.{IsTrue}
use poseidon_circe.Interserver.Acceptor.{
  Acceptor, activate, on_client_connect, with_sessions, register_under, post_set_connection_uuid,
  accept_uuid, safe_broadcast_notification, clear,
}

-- No UUID has two entries, every session in the map has its key for its UUID, and the address of
-- the next session is not in use.
pub record IsRegistered (a : Acceptor) : Type 0 where
  pub unique : IsUnique a.weak_sessions
  pub own : IsTrue a.sessions a.weak_sessions
  pub fresh : All (λ e. e.1 < a.next_session) a.weak_sessions

IsTrue-store :
    (heap : Heap) (m : List (ℕ × ℕ)) (p : ℕ) (s : Session)
    → (heap p).connection_uuid ≡ none
    → IsTrue heap m
    → IsTrue (store p s heap) m
IsTrue-store heap [] p s e t = tt
IsTrue-store heap ((k, q) ∷ m) p s e t = ground (arith, IsTrue-store heap m p s e t.1)

IsTrue-store_fresh :
    (heap : Heap) (m : List (ℕ × ℕ)) (p : ℕ) (s : Session)
    → All (λ e. e.1 < p) m
    → IsTrue heap m
    → IsTrue (store p s heap) m
IsTrue-store_fresh heap [] p s f t = tt
IsTrue-store_fresh heap ((k, q) ∷ m) p s f t = ground (arith, IsTrue-store_fresh heap m p s f.1 t.1)

IsTrue-same :
    (heap heap' : Heap) (m : List (ℕ × ℕ))
    → ((p : ℕ) → (heap' p).connection_uuid ≡ (heap p).connection_uuid)
    → IsTrue heap m
    → IsTrue heap' m
IsTrue-same heap heap' [] e t = tt
IsTrue-same heap heap' ((k, q) ∷ m) e t = ground (arith, e q, IsTrue-same heap heap' m e t.1)

All-weaken : (m : List (ℕ × ℕ)) (n : ℕ) → All (λ e. e.1 < n) m → All (λ e. e.1 < suc n) m
All-weaken [] n a = tt
All-weaken ((k, q) ∷ m) n a = (omega arith, All-weaken m n a.1)

-- what changes a session without touching its UUID
for_each_live-uuid :
    (expired : ℕ → Bool) (change : Session → Session) (m : List (ℕ × ℕ)) (heap : Heap)
    → ((s : Session) → (change s).connection_uuid ≡ s.connection_uuid)
    → (p : ℕ)
    → ((for_each_live expired change m heap).0 p).connection_uuid ≡ (heap p).connection_uuid
unfolding for_each_live
for_each_live-uuid expired change [] heap e p = refl
for_each_live-uuid expired change ((k, q) ∷ m) heap e p = ground (
  arith,
  e (heap q),
  for_each_live-uuid expired change m heap e p,
  for_each_live-uuid expired change m (store q (change (heap q)) heap) e p,
)

for_each_live-IsTrue :
    (expired : ℕ → Bool) (change : Session → Session) (m : List (ℕ × ℕ)) (heap : Heap)
    → ((s : Session) → (change s).connection_uuid ≡ s.connection_uuid)
    → IsTrue heap m
    → IsTrue (for_each_live expired change m heap).0 m
for_each_live-IsTrue expired change m heap e =
    IsTrue-same heap (for_each_live expired change m heap).0 m
      (for_each_live-uuid expired change m heap e)

-- What an acceptor meets; each call comes with the sessions that have been destroyed by then.
pub data Event : Type 0 where
  activates connects : Bool → Event
  accepts : Bool → ℕ → ℕ → Event
  notifies : Bool → ℕ → Bytes → Event
  clears : Event

unfoldable pub step : Acceptor → (ℕ → Bool) × Event → Acceptor
step a (expired, activates bound) = (activate bound a).0
step a (expired, connects acceptor_alive) = (on_client_connect acceptor_alive a).0
step a (expired, accepts acceptor_alive p uuid) = (accept_uuid expired acceptor_alive p uuid a).0
step a (expired, notifies launched message_id payload) =
    (safe_broadcast_notification expired launched message_id payload a).0
step a (expired, clears) = (clear expired a).0

unfoldable pub run : Acceptor → List ((ℕ → Bool) × Event) → Acceptor
unfolding step
run a [] = a
run a (e ∷ es) = run (step a e) es

-- `accepts` is for a session that has been made.
abbrev pub IsPossible : Acceptor → Event → Type 0
IsPossible a (activates bound) = Unit {0}
IsPossible a (connects acceptor_alive) = Unit {0}
IsPossible a (accepts acceptor_alive p uuid) = p < a.next_session
IsPossible a (notifies launched message_id payload) = Unit {0}
IsPossible a clears = Unit {0}

with_sessions-IsRegistered :
    (expired : ℕ → Bool) (uuid p : ℕ) (a : Acceptor)
    → (a.sessions p).connection_uuid ≡ some uuid
    → p < a.next_session
    → IsRegistered a
    → IsRegistered (with_sessions (insert_live expired exception uuid p a.weak_sessions) a).0
unfolding with_sessions
with_sessions-IsRegistered expired uuid p a e f v = record {
  unique = insert_live-IsUnique expired exception uuid p a.weak_sessions v.unique;
  own =
      All-insert_live expired (λ e. (a.sessions e.1).connection_uuid ≡ some e.0) exception uuid p
        a.weak_sessions e v.own;
  fresh =
      All-insert_live expired (λ e. e.1 < a.next_session) exception uuid p a.weak_sessions f
        v.fresh;
}

abbrev Kept : Acceptor × Result (Unit {0}) → Type 0
Kept r = IsRegistered r.0

abbrev pub named : ℕ → ℕ → Acceptor → Acceptor
named p uuid a = record a {
  sessions = store p (record (a.sessions p) { connection_uuid = some uuid }) a.sessions;
}

pub named-uuid :
    (p uuid : ℕ) (a : Acceptor) → ((named p uuid a).sessions p).connection_uuid ≡ some uuid
named-uuid p uuid a = ground arith

pub named-IsRegistered :
    (p uuid : ℕ) (a : Acceptor)
    → (a.sessions p).connection_uuid ≡ none
    → IsRegistered a
    → IsRegistered (named p uuid a)
named-IsRegistered p uuid a e v = record {
  unique = v.unique;
  own = IsTrue-store a.sessions a.weak_sessions p _ e v.own;
  fresh = v.fresh;
}

-- What the session's acceptor does, once the session has its UUID.
pub post_set_connection_uuid_lem :
    (expired : ℕ → Bool) (p uuid : ℕ) (a : Acceptor)
    → (a.sessions p).connection_uuid ≡ some uuid
    → post_set_connection_uuid expired true p a
      ≡ with_sessions (insert_live expired exception uuid p a.weak_sessions) a
unfolding post_set_connection_uuid register_under get_connection_uuid
post_set_connection_uuid_lem expired p uuid a e = ground arith

post_set_connection_uuid-IsRegistered :
    (expired : ℕ → Bool) (acceptor_alive : Bool) (p uuid : ℕ) (a : Acceptor)
    → (a.sessions p).connection_uuid ≡ some uuid
    → p < a.next_session
    → IsRegistered a
    → Kept (post_set_connection_uuid expired acceptor_alive p a)
post_set_connection_uuid-IsRegistered expired false p uuid a e f v =
    unfold post_set_connection_uuid in v
post_set_connection_uuid-IsRegistered expired true p uuid a e f v =
    rw (post_set_connection_uuid_lem expired p uuid a e)
      (with_sessions-IsRegistered expired uuid p a e f v)

pub accept_uuid-IsRegistered :
    (expired : ℕ → Bool) (acceptor_alive : Bool) (p uuid : ℕ) (a : Acceptor)
    → p < a.next_session
    → IsRegistered a
    → Kept (accept_uuid expired acceptor_alive p uuid a)
unfolding accept_uuid
accept_uuid-IsRegistered expired acceptor_alive p uuid a f v =
    if_cases Kept (is_some (a.sessions p).connection_uuid) _ _ (λ h. v)
      (λ h.
        post_set_connection_uuid-IsRegistered expired acceptor_alive p uuid (named p uuid a)
          (named-uuid p uuid a) f (named-IsRegistered p uuid a (ground arith) v))

pub step-IsRegistered :
    (a : Acceptor) (e : (ℕ → Bool) × Event)
    → IsPossible a e.1
    → IsRegistered a
    → IsRegistered (step a e)
unfolding step activate on_client_connect clear safe_broadcast_notification
step-IsRegistered a (expired, activates bound) h v =
    if_lem Kept a.is_active _ _ v
      (if_lem Kept bound _ _ (record { unique = v.unique; own = v.own; fresh = v.fresh }) v)
step-IsRegistered a (expired, connects false) h v = v
step-IsRegistered a (expired, connects true) h v = record {
  unique = v.unique;
  own = IsTrue-store_fresh a.sessions a.weak_sessions a.next_session new_session v.fresh v.own;
  fresh = All-weaken a.weak_sessions a.next_session v.fresh;
}
step-IsRegistered a (expired, accepts acceptor_alive p uuid) h v =
    accept_uuid-IsRegistered expired acceptor_alive p uuid a h v
step-IsRegistered a (expired, notifies launched message_id payload) h v = record {
  unique = v.unique;
  own =
      for_each_live-IsTrue expired (notify_safely launched message_id payload) a.weak_sessions
        a.sessions (λ s. unfold notify_safely in refl) v.own;
  fresh = v.fresh;
}
step-IsRegistered a (expired, clears) h v = record {
  unique = λ k. unfold count in omega arith;
  own = tt;
  fresh = tt;
}

-- A sequence of events each of which is possible where it comes.
abbrev pub ArePossible : Acceptor → List ((ℕ → Bool) × Event) → Type 0
ArePossible a [] = Unit {0}
ArePossible a (e ∷ es) = IsPossible a e.1 × ArePossible (step a e) es

pub run-IsRegistered :
    (a : Acceptor) (es : List ((ℕ → Bool) × Event))
    → ArePossible a es
    → IsRegistered a
    → IsRegistered (run a es)
unfolding run
run-IsRegistered a [] h v = v
run-IsRegistered a (e ∷ es) h v = run-IsRegistered (step a e) es h.1 (step-IsRegistered a e h.0 v)
