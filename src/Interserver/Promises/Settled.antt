-- ===== src/Interserver/Promises/Settled.antt =====
-- interserver_connection.cpp: when the promises of requests are settled.
use poseidon_circe.Prelude.{
  if_lem, ℕ, ◌+◌, ◌/◌, ◌%◌, ◌^◌, not, ◌&&◌, ◌<◌, ◌≡◌, ◌≢◌, ◌∙◌, refl, sym, List, [], ◌∷◌, Bool,
  true, Option, none, some, ◌==◌, arith, All,
}
use poseidon_circe.Prelude.Int.{ℤ}
use poseidon_circe.Prelude.Bytes.{Bytes}
use poseidon_circe.Prelude.State.{Result}
use poseidon_circe.Interserver.Promises.{
  push, enqueue_job, Response, pending, InterserverConnection, init, on_close, shutdown, has_flag,
  magic_flag_is_response, magic_flag_wants_response, is_message_id_valid, send_request,
  send_notification, send_response, receive_response, receive_request, dispatch,
}
use poseidon_circe.Interserver.Promises.Tracks.{
  registered, IsPromised, Tracks, here_Tracks, idle_Tracks, register-Tracks, satisfy-Tracks,
  on_close-Tracks, on_close_lem, no_entry,
}

-- What a connection meets: calls from above, data from below, and its end.
pub data Event : Type 0 where
  requests notifies : Bool → ℕ → Bytes → Event
  responds : Bool → ℕ → Response → Event
  receives : ℕ → Bytes → Event
  shuts_down closes : Event

module _ (write_request : ℕ → Bytes) (write_response : ℕ → ℤ → Bytes)
    (read_request : Bytes → Option (ℕ × Bytes))
    (read_response : Bytes → Option (ℕ × ℤ × Bytes)) where
  unfoldable pub step : InterserverConnection → (ℕ → Bool) × Event → InterserverConnection
  step c (alive, requests launched message_id payload) =
      (send_request write_request write_response launched message_id payload c).0
  step c (alive, notifies launched message_id payload) =
      (send_notification launched message_id payload c).0
  step c (alive, responds launched serial resp) =
      (send_response write_request write_response launched serial resp c).0
  step c (alive, receives magic_number payload) =
      dispatch read_request read_response alive magic_number payload c
  step c (alive, shuts_down) = shutdown c
  step c (alive, closes) = (on_close alive c).0

  unfoldable pub run : InterserverConnection → List ((ℕ → Bool) × Event) → InterserverConnection
  unfolding step
  run c [] = c
  run c (e ∷ es) = run (step c e) es

  receive_response-Tracks :
      (alive : ℕ → Bool) (p message_id : ℕ) (packet : Option (ℕ × ℤ × Bytes))
      (c : InterserverConnection)
      → IsPromised c
      → Tracks alive p c (receive_response read_request read_response alive message_id packet c)
  unfolding receive_response shutdown
  receive_response-Tracks alive p message_id none c v =
      idle_Tracks alive p c true c.next_serial c.sent c.jobs v
  receive_response-Tracks alive p message_id (some (serial, err_code, rest)) c v =
      satisfy-Tracks alive p serial _ c v

  receive_request-Tracks :
      (alive : ℕ → Bool) (p message_id : ℕ) (packet : Option (ℕ × Bytes))
      (c : InterserverConnection)
      → IsPromised c
      → Tracks alive p c (receive_request read_request read_response message_id packet c)
  unfolding receive_request shutdown enqueue_job
  receive_request-Tracks alive p message_id none c v =
      idle_Tracks alive p c true c.next_serial c.sent c.jobs v
  receive_request-Tracks alive p message_id (some (serial, rest)) c v =
      idle_Tracks alive p c c.is_shutdown c.next_serial c.sent _ v

  dispatch-Tracks :
      (alive : ℕ → Bool) (p magic_number : ℕ) (payload : Bytes) (c : InterserverConnection)
      → IsPromised c
      → Tracks alive p c (dispatch read_request read_response alive magic_number payload c)
  unfolding dispatch shutdown enqueue_job
  dispatch-Tracks alive p magic_number payload c v =
      let P = Tracks alive p c in
      let idle = idle_Tracks alive p c in
      if_lem P c.is_shutdown _ _ (here_Tracks alive p c v) (
        if_lem P (not ((magic_number / 4096) % 4 == 0)) _ _
          (idle true c.next_serial c.sent c.jobs v)
          (if_lem P (has_flag magic_flag_is_response magic_number) _ _
            (receive_response-Tracks alive p (magic_number % 4096) (read_response payload) c v)
            (if_lem P (has_flag magic_flag_wants_response magic_number) _ _
              (receive_request-Tracks alive p (magic_number % 4096) (read_request payload) c v)
              (idle c.is_shutdown c.next_serial c.sent _ v))))

  step-Tracks :
      (p : ℕ) (c : InterserverConnection) (e : (ℕ → Bool) × Event)
      → IsPromised c
      → Tracks e.0 p c (step c e)
  unfolding step send_request send_notification send_response push shutdown
  step-Tracks p c (alive, requests launched message_id payload) v =
      let P : InterserverConnection × Result ℕ → Type 0 = λ out. Tracks alive p c out.0 in
      let here = here_Tracks alive p c v in
      if_lem P (not (is_message_id_valid message_id)) _ _ here (
        if_lem P c.is_shutdown _ _ here (
          if_lem P launched _ _ (register-Tracks alive p ((c.next_serial + 1) % 2 ^ 64) _ c v)
            (idle_Tracks alive p c c.is_shutdown _ c.sent c.jobs v)))
  step-Tracks p c (alive, notifies launched message_id payload) v =
      let P : InterserverConnection × Result (Unit {0}) → Type 0 = λ out. Tracks alive p c out.0 in
      let here = here_Tracks alive p c v in
      if_lem P (not (is_message_id_valid message_id)) _ _ here (
        if_lem P c.is_shutdown _ _ here (
          if_lem P launched _ _ (idle_Tracks alive p c c.is_shutdown c.next_serial _ c.jobs v)
            here))
  step-Tracks p c (alive, responds launched serial resp) v =
      let P : InterserverConnection × Result (Unit {0}) → Type 0 = λ out. Tracks alive p c out.0 in
      let here = here_Tracks alive p c v in
      if_lem P (not (resp.message_id == 0) && not (is_message_id_valid resp.message_id)) _ _ here
        (if_lem P launched _ _ (idle_Tracks alive p c c.is_shutdown c.next_serial _ c.jobs v) here)
  step-Tracks p c (alive, receives magic_number payload) v =
      dispatch-Tracks alive p magic_number payload c v
  step-Tracks p c (alive, shuts_down) v = idle_Tracks alive p c true c.next_serial c.sent c.jobs v
  step-Tracks p c (alive, closes) v = on_close-Tracks alive p c v

  run-Tracks :
      (p : ℕ) (c : InterserverConnection) (es : List ((ℕ → Bool) × Event))
      → IsPromised c
      → IsPromised (run c es)
        × (c.promises p ≢ pending → (run c es).promises p ≡ c.promises p)
        × (All (λ e. e.0 p ≡ true) es
            → (p < c.next_promise → c.promises p ≡ pending → 0 < registered p c.weak_promises)
            → p < (run c es).next_promise
            → (run c es).promises p ≡ pending
            → 0 < registered p (run c es).weak_promises)
  unfolding run
  run-Tracks p c [] v = (v, (λ h. refl), (λ a h. h))
  run-Tracks p c (e ∷ es) v =
      let t = step-Tracks p c e v in
      let (v', same, held) = run-Tracks p (step c e) es t.promised in
      (v', (λ h. same (λ q. h (sym (t.same h) ∙ q)) ∙ t.same h), (λ a h. held a.1 (t.held a.0 h)))

  init-IsPromised : IsPromised init
  unfolding registered
  init-IsPromised = record {
    once = λ q. omega arith;
    made = λ q h. refl;
    waiting = λ q h. refl;
    fresh = λ q h. refl;
  }

  -- Once a promise of a connection is settled, nothing that happens to the connection later changes
  -- it.
  pub settled_once :
      (p : ℕ) (es more : List ((ℕ → Bool) × Event))
      → (run init es).promises p ≢ pending
      → (run (run init es) more).promises p ≡ (run init es).promises p
  settled_once p es more h =
      (run-Tracks p (run init es) more (run-Tracks p init es init-IsPromised).0).1 h

  -- When a connection that has been shut down is closed, no promise that its caller has held all
  -- the while is left pending, whatever happened before: nobody waits for ever.
  pub on_close-settles :
      (p : ℕ) (alive : ℕ → Bool) (es : List ((ℕ → Bool) × Event))
      → All (λ e. e.0 p ≡ true) es
      → alive p ≡ true
      → p < (run init es).next_promise
      → (run init es).is_shutdown ≡ true
      → (on_close alive (run init es)).0.promises p ≢ pending
  on_close-settles p alive es a b n s h =
      let c = run init es in
      let (v, same, held) = run-Tracks p init es init-IsPromised in
      let t = on_close-Tracks alive p c v in
      let (empty, next) = on_close_lem alive c s in
      let left = t.held b (held a (λ q r. absurd (omega (arith, q)))) (omega (arith, next, n)) h in
      no_entry p _ empty left
