-- ===== src/Gate/WebsocketSession/Closure.antt =====
-- circe-gate/circe-gate/src/client_websocket_session.cpp: what the box is told when a client leaves.
use poseidon_circe.Prelude.{
  ℕ, if◌then◌else◌, zero, suc, All, if_lem, ap, subst, ◌∙◌, ◌/◌, ◌%◌, ◌≤◌, ◌≡◌, refl, List, [], ◌∷◌,
  ◌++◌, Bool, true, false, Option, none, some, length, take, arith,
}
use poseidon_circe.Prelude.Int.{pos}
use poseidon_circe.Prelude.Bytes.{Bytes}
use poseidon_circe.Prelude.State.{Result}
use poseidon_circe.Protocol.Common.{WebsocketFrame}
use poseidon_circe.Protocol.Foyer
use poseidon_circe.Gate.WebsocketSession.{
  DeliveryJob, idle, queued, waiting, failed, require_job, wake_job, fail_job, send_round,
  next_round, perform_with, controls, StatusCodes, WebsocketSession, shutdown, lock_foyer,
  closure_of, on_sync_control_message, reason_or, notify_over, notify_foyer_about_closure, Event,
  starts, responds, receives, shuts_down, run, step, start, respond, on_sync_data_message,
}

take-length : (n : ℕ) (xs : Bytes) → length xs ≤ n → take n xs ≡ xs
take-length zero [] h = refl
take-length (suc n) [] h = refl
take-length zero (x ∷ xs) h = absurd (omega arith)
take-length (suc n) (x ∷ xs) h = ap (λ (l : Bytes). x ∷ l) (take-length n xs (omega arith))

-- What the notification is made of, is left alone.
record Same (s s' : WebsocketSession) : Type 0 where
  client : s'.client_uuid ≡ s.client_uuid
  foyer : s'.weak_foyer_conn ≡ s.weak_foyer_conn
  box : s'.box_uuid ≡ s.box_uuid
  reason : s'.closure_reason ≡ s.closure_reason
  told : s'.notified ≡ s.notified

Same-trans : (s t u : WebsocketSession) → Same s t → Same t u → Same s u
Same-trans s t u h k = record {
  client = k.client ∙ h.client;
  foyer = k.foyer ∙ h.foyer;
  box = k.box ∙ h.box;
  reason = k.reason ∙ h.reason;
  told = k.told ∙ h.told;
}

abbrev alike : (s : WebsocketSession) → Same s s
alike s = record { client = refl; foyer = refl; box = refl; reason = refl; told = refl }

module _ (status : StatusCodes) where
  send_round-Same :
      (accepts : Bool) (foyer_conn : ℕ) (ms : List WebsocketFrame) (box_uuid : Option ℕ)
      (s : WebsocketSession)
      → Same s (send_round status accepts foyer_conn ms box_uuid s)
  unfolding send_round fail_job shutdown
  send_round-Same accepts foyer_conn [] box_uuid s = record {
    client = refl;
    foyer = refl;
    box = refl;
    reason = refl;
    told = refl;
  }
  send_round-Same accepts foyer_conn (m ∷ ms) none s = record {
    client = refl;
    foyer = refl;
    box = refl;
    reason = refl;
    told = refl;
  }
  send_round-Same accepts foyer_conn (m ∷ ms) (some box_uuid) s =
      if_lem (Same s) accepts _ _
        (record { client = refl; foyer = refl; box = refl; reason = refl; told = refl })
        (record { client = refl; foyer = refl; box = refl; reason = refl; told = refl })

  next_round-Same :
      (accepts : Bool) (foyer_conn : ℕ) (s t : WebsocketSession)
      → Same s (record t { messages_pending = [] })
      → Same s (next_round status accepts foyer_conn t)
  unfolding next_round
  next_round-Same accepts foyer_conn s t h =
      Same-trans s (record t { messages_pending = [] }) _ h
        (send_round-Same accepts foyer_conn t.messages_pending t.box_uuid _)

  perform_with-Same :
      (accepts : Bool) (foyer : Option ℕ) (active : Bool) (s : WebsocketSession)
      → Same s (perform_with status accepts foyer active s)
  unfolding perform_with fail_job shutdown
  perform_with-Same accepts none active s = record {
    client = refl;
    foyer = refl;
    box = refl;
    reason = refl;
    told = refl;
  }
  perform_with-Same accepts (some p) false s = record {
    client = refl;
    foyer = refl;
    box = refl;
    reason = refl;
    told = refl;
  }
  perform_with-Same accepts (some p) true s =
      next_round-Same accepts p s s
        (record { client = refl; foyer = refl; box = refl; reason = refl; told = refl })

  start-Same :
      (expired : ℕ → Bool) (accepts : Bool) (job : DeliveryJob) (s : WebsocketSession)
      → Same s (start status expired accepts job s)
  unfolding start
  start-Same expired accepts idle s = alike s
  start-Same expired accepts (waiting batch) s = alike s
  start-Same expired accepts (failed lost) s = alike s
  start-Same expired accepts queued s =
      perform_with-Same accepts (lock_foyer expired s.weak_foyer_conn) s.delivery_job_active s

  respond-Same :
      (accepts : Bool) (foyer_conn : ℕ) (answered : Bool) (job : DeliveryJob) (s : WebsocketSession)
      → Same s (respond status accepts foyer_conn answered job s)
  unfolding respond fail_job shutdown
  respond-Same accepts foyer_conn true idle s = alike s
  respond-Same accepts foyer_conn false idle s = alike s
  respond-Same accepts foyer_conn true queued s = alike s
  respond-Same accepts foyer_conn false queued s = alike s
  respond-Same accepts foyer_conn true (failed lost) s = alike s
  respond-Same accepts foyer_conn false (failed lost) s = alike s
  respond-Same accepts foyer_conn true (waiting batch) s =
      next_round-Same accepts foyer_conn s (record s { delivered = s.delivered ++ batch })
        (record { client = refl; foyer = refl; box = refl; reason = refl; told = refl })
  respond-Same accepts foyer_conn false (waiting batch) s = record {
    client = refl;
    foyer = refl;
    box = refl;
    reason = refl;
    told = refl;
  }

  require_job-Same : (s : WebsocketSession) → Same s (require_job s)
  unfolding require_job
  require_job-Same s =
      if_lem (Same s) s.delivery_job_spare _ _ (alike s)
        (record { client = refl; foyer = refl; box = refl; reason = refl; told = refl })

  wake_job-Same : (s : WebsocketSession) → Same s (wake_job s)
  unfolding wake_job
  wake_job-Same s =
      if_lem (Same s) s.delivery_job_active _ _ (alike s)
        (record { client = refl; foyer = refl; box = refl; reason = refl; told = refl })

  data_message-Same :
      (max_requests_pending : ℕ) (frame : WebsocketFrame) (s : WebsocketSession)
      → Same s (on_sync_data_message status max_requests_pending frame s).0
  unfolding on_sync_data_message
  data_message-Same max_requests_pending frame s =
      let h =
        Same-trans s (require_job s) (wake_job (require_job s)) (require_job-Same s)
          (wake_job-Same (require_job s)) in
      if_lem (λ (r : WebsocketSession × Result (Unit {0})). Same s r.0) _ _ _
        (record {
          client = h.client;
          foyer = h.foyer;
          box = h.box;
          reason = h.reason;
          told = h.told;
        })
        h

  -- every event but a closing frame
  abbrev pub IsOpen : Event → Type 0
  IsOpen (receives max_requests_pending frame) = Unit {0}
  IsOpen (starts expired accepts) = Unit {0}
  IsOpen (responds accepts foyer_conn answered) = Unit {0}
  IsOpen (controls is_close payload) = is_close ≡ false
  IsOpen (shuts_down status_code) = Unit {0}

  step-Same : (s : WebsocketSession) (e : Event) → IsOpen e → Same s (step status s e)
  unfolding step on_sync_control_message shutdown
  step-Same s (receives max_requests_pending frame) h =
      data_message-Same max_requests_pending frame s
  step-Same s (starts expired accepts) h = start-Same expired accepts s.job s
  step-Same s (responds accepts foyer_conn answered) h =
      respond-Same accepts foyer_conn answered s.job s
  step-Same s (controls is_close payload) h = rw h (alike s)
  step-Same s (shuts_down status_code) h = record {
    client = refl;
    foyer = refl;
    box = refl;
    reason = refl;
    told = refl;
  }

  run-Same : (s : WebsocketSession) (es : List Event) → All IsOpen es → Same s (run status s es)
  unfolding run
  run-Same s [] h = alike s
  run-Same s (e ∷ es) h =
      Same-trans s (step status s e) _ (step-Same s e h.0) (run-Same (step status s e) es h.1)

  abbrev notification : ℕ → ℕ → Bytes → WebsocketSession → Foyer.WebsocketClosureNotificationToBox
  notification box_uuid code reason s = record {
    box_uuid = box_uuid;
    client_uuid = s.client_uuid;
    status_code = pos code;
    reason = reason;
  }

  notify_lem :
      (expired accepts : ℕ → Bool) (foyer_conn box_uuid : ℕ) (s : WebsocketSession)
      → s.weak_foyer_conn ≡ some foyer_conn
      → s.box_uuid ≡ some box_uuid
      → expired foyer_conn ≡ false
      → (notify_foyer_about_closure status expired accepts s).notified ≡ (
          if accepts foyer_conn
          then s.notified
            ++ (
              foyer_conn,
              notification box_uuid
                  (reason_or status s.closure_reason).0
                  (reason_or status s.closure_reason).1
                  s,
            )
              ∷ []
          else s.notified)
  unfolding notify_foyer_about_closure lock_foyer notify_over
  notify_lem expired accepts foyer_conn box_uuid s f b x = ground arith

  -- the session after a closing frame with a code, big-endian, and a reason, and then other events
  abbrev pub left : ℕ → Bytes → WebsocketSession → List Event → WebsocketSession
  left code reason s es =
      run status (on_sync_control_message status true ((code / 256) ∷ (code % 256) ∷ reason) s) es

  left-Same :
      (code : ℕ) (reason : Bytes) (s : WebsocketSession) (es : List Event)
      → length reason ≤ 123
      → All IsOpen es
      → Same (record s { closure_reason = some (code, reason) }) (left code reason s es)
  unfolding on_sync_control_message closure_of
  left-Same code reason s es n opens =
      let frame = (code / 256) ∷ (code % 256) ∷ reason in
      let e : closure_of status (take 125 frame) ≡ (code, reason) =
        ground (arith, take-length 125 frame (omega arith)) in
      subst (λ c. Same (record s { closure_reason = some c }) (left code reason s es)) e
        (run-Same (on_sync_control_message status true frame s) es opens)

  -- A session whose foyer's connection is still there gets a closing frame with a code,
  -- big-endian, and a reason; then anything but another closing frame. When it is destroyed, the
  -- box is told the code and the reason, for this client, once, where that connection accepts the
  -- notification, and nothing where it does not.
  pub closure_reported :
      (code : ℕ) (reason : Bytes) (s : WebsocketSession) (es : List Event)
      (expired accepts : ℕ → Bool) (foyer_conn box_uuid : ℕ)
      → length reason ≤ 123
      → s.weak_foyer_conn ≡ some foyer_conn
      → s.box_uuid ≡ some box_uuid
      → expired foyer_conn ≡ false
      → All IsOpen es
      → (notify_foyer_about_closure status expired accepts (left code reason s es)).notified ≡ (
          if accepts foyer_conn
          then s.notified
            ++ (
              foyer_conn,
              record {
                box_uuid = box_uuid;
                client_uuid = s.client_uuid;
                status_code = pos code;
                reason = reason;
              },
            )
              ∷ []
          else s.notified)
  unfolding reason_or
  closure_reported code reason s es expired accepts foyer_conn box_uuid n f b x opens =
      let h = left-Same code reason s es n opens in
      notify_lem expired accepts foyer_conn box_uuid (left code reason s es) (h.foyer ∙ f)
        (h.box ∙ b) x
      ∙ ground (arith, h.told, h.client, h.reason)
