-- ===== src/Interserver/Acceptor/Lookup.antt =====
-- interserver_acceptor.cpp: which session is found under a UUID, and who gets a notification.
use poseidon_circe.Prelude.{
  ℕ, ◌<◌, ◌≡◌, ◌⊎◌, ◌∙◌, sym, ap, subst, refl, List, [], ◌&&◌, not, Bool, true, false,
  if◌then◌else◌, Option, none, some, ◌==◌, Option-cases, inl, inr, arith,
}
use poseidon_circe.Prelude.Bytes.{Bytes}
use poseidon_circe.Prelude.State.{Result, ok, exception}
use poseidon_circe.FlatMap.{count, find}
use poseidon_circe.FlatMap.Weak.{
  find_live, insert_live, collect_live_lem, find_live-insert_live, All-find_live,
}
use poseidon_circe.Interserver.Promises.{is_message_id_valid, push, shutdown, send_notification}
use poseidon_circe.Interserver.Sessions.{
  Session, get_connection_uuid, notify_safely, shut_down, or_shut_down,
}
use poseidon_circe.Interserver.Sessions.Each.{points_to, IsDistinct-IsTrue, for_each_live_lem}
use poseidon_circe.Interserver.Acceptor.{
  Acceptor, new_acceptor, create, with_sessions, accept_uuid, post_set_connection_uuid, get_session,
  found_session, check_uuid, get_all_sessions, safe_broadcast_notification, clear,
}
use poseidon_circe.Interserver.Acceptor.Registered.{
  IsRegistered, Event, run, ArePossible, run-IsRegistered, post_set_connection_uuid_lem, named,
  named-uuid, named-IsRegistered, accept_uuid-IsRegistered,
}

created : (bind : Bytes) (port : ℕ) (a : Acceptor) → create bind port ≡ ok a → new_acceptor ≡ a
unfolding create
created bind port a e = ground arith

new_acceptor-IsRegistered : IsRegistered new_acceptor
new_acceptor-IsRegistered = record {
  unique = λ k. unfold count in omega arith;
  own = tt;
  fresh = tt;
}

found_session_lem :
    (uuid : ℕ) (o : Option ℕ) (a : Acceptor)
    → ((p : ℕ) → o ≡ some p → (a.sessions p).connection_uuid ≡ some uuid)
    → found_session uuid o a ≡ ok o
unfolding found_session check_uuid get_connection_uuid
found_session_lem uuid none a h = refl
found_session_lem uuid (some p) a h = ground (arith, h p refl)

module _ (expired : ℕ → Bool) (a : Acceptor) (v : IsRegistered a) where
  found-uuid :
      (uuid p : ℕ)
      → find_live expired uuid a.weak_sessions ≡ some p
      → ((a.sessions p).connection_uuid ≡ some uuid) × (expired p ≡ false)
  found-uuid uuid p e =
      All-find_live expired (λ e. (a.sessions e.1).connection_uuid ≡ some e.0) uuid p
        a.weak_sessions v.own e

  -- The assertion on the UUID does not fail.
  pub get_session_lem :
      (uuid : ℕ) → get_session expired uuid a ≡ ok (find_live expired uuid a.weak_sessions)
  unfolding get_session
  get_session_lem uuid =
      found_session_lem uuid (find_live expired uuid a.weak_sessions) a
        (λ p e. (found-uuid uuid p e).0)

  found_or_not :
      (uuid : ℕ)
      → (get_session expired uuid a ≡ ok none)
        ⊎ ((p : ℕ) × (get_session expired uuid a ≡ ok (some p))
            × ((a.sessions p).connection_uuid ≡ some uuid)
            × (expired p ≡ false))
  found_or_not uuid = elim (Option-cases (find_live expired uuid a.weak_sessions)) [
    | inl e ↦ inl (get_session_lem uuid ∙ ap ok e)
    | inr (p, e) ↦
        inr (p, get_session_lem uuid ∙ ap ok e, (found-uuid uuid p e).0, (found-uuid uuid p e).1)
  ]

  -- Each session that is registered and there still is notified once, no other session is
  -- changed, and the number returned is that of the sessions that get_all_sessions returns.
  pub safe_broadcast_notification_lem :
      (launched : Bool) (message_id : ℕ) (payload : Bytes) (p : ℕ)
      → ((safe_broadcast_notification expired launched message_id payload a).0.sessions p ≡ (
          if points_to p a.weak_sessions && not (expired p)
          then notify_safely launched message_id payload (a.sessions p)
          else a.sessions p))
        × ((safe_broadcast_notification expired launched message_id payload a).1
            ≡ (get_all_sessions expired [] a).1)
  unfolding safe_broadcast_notification get_all_sessions
  safe_broadcast_notification_lem launched message_id payload p =
      let d = IsDistinct-IsTrue a.sessions a.weak_sessions v.own v.unique in
      let each =
        for_each_live_lem expired (notify_safely launched message_id payload) a.weak_sessions
          a.sessions p d in
      (
        each.0,
        each.1 ∙ sym (ap (λ (r : List ℕ × ℕ). r.1) (collect_live_lem expired a.weak_sessions [])),
      )

  pub clear_lem :
      (p : ℕ)
      → ((clear expired a).0.sessions p ≡ (
          if points_to p a.weak_sessions && not (expired p)
          then shut_down (a.sessions p)
          else a.sessions p))
        × ((clear expired a).1 ≡ (get_all_sessions expired [] a).1)
        × ((uuid : ℕ) → get_session expired uuid (clear expired a).0 ≡ ok none)
  unfolding clear get_all_sessions
  clear_lem p =
      let d = IsDistinct-IsTrue a.sessions a.weak_sessions v.own v.unique in
      let each = for_each_live_lem expired shut_down a.weak_sessions a.sessions p d in
      (
        each.0,
        each.1 ∙ sym (ap (λ (r : List ℕ × ℕ). r.1) (collect_live_lem expired a.weak_sessions [])),
        λ uuid. unfold get_session found_session find in refl,
      )

-- Whatever an acceptor has met since it was made, the assertion in get_session does not fail: it
-- returns nothing, or a session that is there still and has the UUID asked for.
pub get_session-run :
    (bind : Bytes) (port : ℕ) (a : Acceptor) (es : List ((ℕ → Bool) × Event)) (expired : ℕ → Bool)
    (uuid : ℕ)
    → create bind port ≡ ok a
    → ArePossible a es
    → (get_session expired uuid (run a es) ≡ ok none)
      ⊎ ((p : ℕ) × (get_session expired uuid (run a es) ≡ ok (some p))
          × (((run a es).sessions p).connection_uuid ≡ some uuid)
          × (expired p ≡ false))
get_session-run bind port a es expired uuid e h =
    found_or_not expired (run a es)
      (run-IsRegistered a es h
        (subst IsRegistered (created bind port a e) new_acceptor-IsRegistered))
      uuid

get_session-with_sessions :
    (expired : ℕ → Bool) (p uuid k : ℕ) (a a' : Acceptor)
    → IsRegistered a
    → IsRegistered a'
    → expired p ≡ false
    → with_sessions (insert_live expired exception uuid p a.weak_sessions) a ≡ (a', ok tt)
    → get_session expired k a' ≡ (if uuid == k then ok (some p) else get_session expired k a)
unfolding with_sessions
get_session-with_sessions expired p uuid k a a' v v' x e = ground (
  arith,
  find_live-insert_live expired exception uuid p k a.weak_sessions a'.weak_sessions v.unique x
      (ap (λ (r : Acceptor × Result (Unit {0})). (r.0.weak_sessions, r.1)) e),
  get_session_lem expired a v k,
  get_session_lem expired a' v' k,
)

-- What has been done where a session took its UUID and was registered.
accepted :
    (expired : ℕ → Bool) (acceptor_alive : Bool) (p uuid : ℕ) (a a' : Acceptor)
    → accept_uuid expired acceptor_alive p uuid a ≡ (a', ok tt)
    → ((a.sessions p).connection_uuid ≡ none)
      × (with_sessions (insert_live expired exception uuid p a.weak_sessions) (named p uuid a)
          ≡ (a', ok tt))
unfolding accept_uuid
accepted expired false p uuid a a' e = unfold post_set_connection_uuid in ground arith
accepted expired true p uuid a a' e =
    ground
      (arith, post_set_connection_uuid_lem expired p uuid (named p uuid a) (named-uuid p uuid a))

-- A session that takes its UUID and is registered is what get_session finds under that UUID,
-- and under every other UUID it finds what it found before.
pub get_session-accept_uuid :
    (expired : ℕ → Bool) (acceptor_alive : Bool) (p uuid k : ℕ) (a a' : Acceptor)
    → IsRegistered a
    → p < a.next_session
    → expired p ≡ false
    → accept_uuid expired acceptor_alive p uuid a ≡ (a', ok tt)
    → get_session expired k a' ≡ (if uuid == k then ok (some p) else get_session expired k a)
get_session-accept_uuid expired acceptor_alive p uuid k a a' v f x e =
    let (free, done) = accepted expired acceptor_alive p uuid a a' e in
    let w = named-IsRegistered p uuid a free v in
    let v' = ap (λ (r : Acceptor × Result (Unit {0})). r.0) e in
    ground (
      arith,
      get_session-with_sessions expired p uuid k (named p uuid a) a' w
          (subst IsRegistered v' (accept_uuid-IsRegistered expired acceptor_alive p uuid a f v)) x
          done,
      get_session_lem expired a v k,
      get_session_lem expired (named p uuid a) w k,
    )

-- A message with a valid ID that is launched is sent once over a session that is open; over one
-- that has been shut down, and if not launched, the session is shut down and nothing sent.
pub notify_safely_lem :
    (launched : Bool) (message_id : ℕ) (payload : Bytes) (s : Session)
    → is_message_id_valid message_id ≡ true
    → (notify_safely launched message_id payload s).connection ≡ (
        if not s.connection.is_shutdown && launched
        then push (message_id, payload) s.connection
        else shutdown s.connection)
unfolding notify_safely or_shut_down send_notification
notify_safely_lem launched message_id payload s v = ground arith
