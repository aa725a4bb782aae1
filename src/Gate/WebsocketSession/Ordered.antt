-- ===== src/Gate/WebsocketSession/Ordered.antt =====
-- circe-gate/circe-gate/src/client_websocket_session.cpp: the order of the client's messages, and the
-- work of the job that delivers them.
use poseidon_circe.Prelude.{
  ℕ, ◌≡◌, ◌∙◌, refl, sym, ap, List, [], ◌∷◌, ◌++◌, Bool, true, false, Option, none, some, is_some,
  length, ltb, Bool-cases, if_lem, inl, inr, arith,
}
use poseidon_circe.Prelude.State.{Result}
use poseidon_circe.Protocol.Common.{WebsocketFrame}
use poseidon_circe.Gate.WebsocketSession.{
  StatusCodes, DeliveryJob, idle, queued, waiting, failed, WebsocketSession, new_websocket_session,
  shutdown, require_job, wake_job, lock_foyer, on_sync_data_message, fail_job, send_round,
  next_round, perform_with, start, respond, on_sync_control_message, Event, receives, starts,
  responds, controls, shuts_down, step, run,
}
use mathlib.Core.List.{append-nil, append_assoc}

-- The messages that the job has in hand, or has lost.
abbrev pub in_hand : DeliveryJob → List WebsocketFrame
in_hand idle = []
in_hand queued = []
in_hand (waiting batch) = batch
in_hand (failed lost) = lost

abbrev pub works : DeliveryJob → Bool
works idle = false
works queued = true
works (waiting batch) = true
works (failed lost) = true

abbrev pub failing : DeliveryJob → Bool
failing idle = false
failing queued = false
failing (waiting batch) = false
failing (failed lost) = true

-- The messages that were accepted are those delivered, those in hand or lost, and those pending, in
-- their order; none is pending unless the job is at work or has failed; and where it has failed the
-- session is shut down.
pub record IsOrdered (s : WebsocketSession) : Type 0 where
  pub in_order : s.accepted ≡ s.delivered ++ (in_hand s.job ++ s.messages_pending)
  pub activity : works s.job ≡ s.delivery_job_active
  pub spare : s.delivery_job_spare ≡ false → s.delivery_job_active ≡ false
  pub wakeful : works s.job ≡ false → s.messages_pending ≡ []
  pub closed : failing s.job ≡ true → is_some s.shutdown_code ≡ true

fail_job-IsOrdered :
    (status : StatusCodes) (code : ℕ) (lost : List WebsocketFrame) (s : WebsocketSession)
    → s.accepted ≡ s.delivered ++ (lost ++ s.messages_pending)
    → s.delivery_job_active ≡ true
    → s.delivery_job_spare ≡ true
    → IsOrdered (fail_job status code lost s)
unfolding fail_job shutdown
fail_job-IsOrdered status code lost s e a b = record {
  in_order = e;
  activity = sym a;
  spare = λ h. cc;
  wakeful = λ h. cc;
  closed = λ h. ground arith;
}

send_round-IsOrdered :
    (status : StatusCodes) (accepts : Bool) (foyer_conn : ℕ) (ms : List WebsocketFrame)
    (box_uuid : Option ℕ) (s : WebsocketSession)
    → s.accepted ≡ s.delivered ++ ms
    → s.delivery_job_active ≡ true
    → s.delivery_job_spare ≡ true
    → IsOrdered
        (send_round status accepts foyer_conn ms box_uuid (record s { messages_pending = [] }))
unfolding send_round
send_round-IsOrdered status accepts foyer_conn [] box_uuid s e a b = record {
  in_order = e;
  activity = refl;
  spare = λ h. refl;
  wakeful = λ h. refl;
  closed = λ h. cc;
}
send_round-IsOrdered status accepts foyer_conn (m ∷ ms) none s e a b =
    fail_job-IsOrdered status status.internal_error (m ∷ ms) (record s { messages_pending = [] })
      (e ∙ ap (λ (l : List WebsocketFrame). s.delivered ++ l) (sym (append-nil (m ∷ ms)))) a b
send_round-IsOrdered status accepts foyer_conn (m ∷ ms) (some box_uuid) s e a b =
    let e' = e ∙ ap (λ (l : List WebsocketFrame). s.delivered ++ l) (sym (append-nil (m ∷ ms))) in
    if_lem IsOrdered accepts _ _
      (record {
        in_order = e';
        activity = sym a;
        spare = λ h. cc;
        wakeful = λ h. cc;
        closed = λ h. cc;
      })
      (fail_job-IsOrdered status status.internal_error (m ∷ ms) (record s { messages_pending = [] })
        e' a b)

perform_with-IsOrdered :
    (status : StatusCodes) (accepts : Bool) (foyer : Option ℕ) (active : Bool)
    (s : WebsocketSession)
    → s.accepted ≡ s.delivered ++ s.messages_pending
    → s.delivery_job_active ≡ true
    → s.delivery_job_spare ≡ true
    → s.delivery_job_active ≡ active
    → IsOrdered (perform_with status accepts foyer active s)
unfolding perform_with next_round
perform_with-IsOrdered status accepts none active s e a b c =
    fail_job-IsOrdered status status.going_away [] s e a b
perform_with-IsOrdered status accepts (some foyer_conn) false s e a b c = cc
perform_with-IsOrdered status accepts (some foyer_conn) true s e a b c =
    send_round-IsOrdered status accepts foyer_conn s.messages_pending s.box_uuid s e a b

-- what the invariant says of a job at work
spare_of_active :
    (s : WebsocketSession)
    → IsOrdered s
    → s.delivery_job_active ≡ true
    → s.delivery_job_spare ≡ true
spare_of_active s v a = elim (Bool-cases s.delivery_job_spare) [
  | inl e ↦ e
  | inr e ↦ cc (v.spare e)
]

start-IsOrdered :
    (status : StatusCodes) (expired : ℕ → Bool) (accepts : Bool) (job : DeliveryJob)
    (s : WebsocketSession)
    → s.job ≡ job
    → IsOrdered s
    → IsOrdered (start status expired accepts job s)
unfolding start
start-IsOrdered status expired accepts idle s e v = v
start-IsOrdered status expired accepts (waiting batch) s e v = v
start-IsOrdered status expired accepts (failed lost) s e v = v
start-IsOrdered status expired accepts queued s e v =
    perform_with-IsOrdered status accepts (lock_foyer expired s.weak_foyer_conn)
      s.delivery_job_active s (ground (arith, v.in_order)) (ground (arith, v.activity))
      (spare_of_active s v (ground (arith, v.activity))) refl

respond-IsOrdered :
    (status : StatusCodes) (accepts : Bool) (foyer_conn : ℕ) (answered : Bool) (job : DeliveryJob)
    (s : WebsocketSession)
    → s.job ≡ job
    → IsOrdered s
    → IsOrdered (respond status accepts foyer_conn answered job s)
unfolding respond
respond-IsOrdered status accepts foyer_conn true idle s e v = v
respond-IsOrdered status accepts foyer_conn false idle s e v = v
respond-IsOrdered status accepts foyer_conn true queued s e v = v
respond-IsOrdered status accepts foyer_conn false queued s e v = v
respond-IsOrdered status accepts foyer_conn true (failed lost) s e v = v
respond-IsOrdered status accepts foyer_conn false (failed lost) s e v = v
respond-IsOrdered status accepts foyer_conn true (waiting batch) s e v =
    unfold next_round in
    send_round-IsOrdered status accepts foyer_conn s.messages_pending s.box_uuid
      (record s { delivered = s.delivered ++ batch })
      (ground (arith, v.in_order, append_assoc s.delivered batch s.messages_pending))
      (ground (arith, v.activity)) (spare_of_active s v (ground (arith, v.activity)))
respond-IsOrdered status accepts foyer_conn false (waiting batch) s e v =
    fail_job-IsOrdered status status.internal_error batch s (ground (arith, v.in_order))
      (ground (arith, v.activity)) (spare_of_active s v (ground (arith, v.activity)))

in_hand_of_idle : (job : DeliveryJob) → works job ≡ false → in_hand job ≡ []
in_hand_of_idle idle e = refl
in_hand_of_idle queued e = refl
in_hand_of_idle (waiting batch) e = cc
in_hand_of_idle (failed lost) e = cc

-- The job is at work once a message has come, or has failed.
record IsAwake (s : WebsocketSession) : Type 0 where
  ordered : IsOrdered s
  awake : s.delivery_job_active ≡ true
  kept : s.delivery_job_spare ≡ true

require_job-IsOrdered :
    (s : WebsocketSession)
    → IsOrdered s
    → IsOrdered (require_job s) × ((require_job s).delivery_job_spare ≡ true)
unfolding require_job
require_job-IsOrdered s v = elim (Bool-cases s.delivery_job_spare) [
  | inl e ↦ simp e (v, refl)
  | inr e ↦ simp e (
    record {
      in_order = v.in_order;
      activity = v.activity ∙ v.spare e;
      spare = λ h. refl;
      wakeful = v.wakeful;
      closed = v.closed;
    },
    refl,
  )
]

wake_job-IsAwake :
    (s : WebsocketSession) → IsOrdered s → s.delivery_job_spare ≡ true → IsAwake (wake_job s)
unfolding wake_job
wake_job-IsAwake s v k = elim (Bool-cases s.delivery_job_active) [
  | inl e ↦ simp e (record { ordered = v; awake = e; kept = k })
  | inr e ↦ simp e (record {
    ordered = record {
      in_order = ground (arith, v.in_order, in_hand_of_idle s.job, v.activity);
      activity = refl;
      spare = λ h. cc;
      wakeful = λ h. cc;
      closed = λ h. cc;
    };
    awake = refl;
    kept = k;
  })
]

snoc_IsOrdered :
    (frame : WebsocketFrame) (s : WebsocketSession)
    → IsAwake s
    → IsOrdered (record s {
      messages_pending = s.messages_pending ++ frame ∷ [];
      accepted = s.accepted ++ frame ∷ [];
    })
snoc_IsOrdered frame s v = record {
  in_order = ground (
    arith,
    v.ordered.in_order,
    append_assoc s.delivered (in_hand s.job ++ s.messages_pending) (frame ∷ []),
    append_assoc (in_hand s.job) s.messages_pending (frame ∷ []),
  );
  activity = v.ordered.activity;
  spare = v.ordered.spare;
  wakeful = λ h. cc (v.ordered.activity, v.awake);
  closed = v.ordered.closed;
}

data_message-IsOrdered :
    (status : StatusCodes) (max_requests_pending : ℕ) (frame : WebsocketFrame)
    (s : WebsocketSession)
    → IsOrdered s
    → IsOrdered (on_sync_data_message status max_requests_pending frame s).0
unfolding on_sync_data_message
data_message-IsOrdered status max_requests_pending frame s v =
    let (w, k) = require_job-IsOrdered s v in
    let awake = wake_job-IsAwake (require_job s) w k in
    if_lem (λ (r : WebsocketSession × Result (Unit {0})). IsOrdered r.0)
      (ltb (length (wake_job (require_job s)).messages_pending) max_requests_pending) _ _
      (snoc_IsOrdered frame (wake_job (require_job s)) awake) awake.ordered

step-IsOrdered :
    (status : StatusCodes) (s : WebsocketSession) (e : Event)
    → IsOrdered s
    → IsOrdered (step status s e)
unfolding step on_sync_control_message shutdown
step-IsOrdered status s (receives max_requests_pending frame) v =
    data_message-IsOrdered status max_requests_pending frame s v
step-IsOrdered status s (starts expired accepts) v =
    start-IsOrdered status expired accepts s.job s refl v
step-IsOrdered status s (responds accepts foyer_conn answered) v =
    respond-IsOrdered status accepts foyer_conn answered s.job s refl v
step-IsOrdered status s (controls is_close payload) v =
    if_lem IsOrdered is_close _ _
      (record {
        in_order = v.in_order;
        activity = v.activity;
        spare = v.spare;
        wakeful = v.wakeful;
        closed = v.closed;
      })
      v
step-IsOrdered status s (shuts_down status_code) v = record {
  in_order = v.in_order;
  activity = v.activity;
  spare = v.spare;
  wakeful = v.wakeful;
  closed = λ h. ground arith;
}

run-keeps :
    (status : StatusCodes) (s : WebsocketSession) (es : List Event)
    → IsOrdered s
    → IsOrdered (run status s es)
unfolding run
run-keeps status s [] v = v
run-keeps status s (e ∷ es) v = run-keeps status (step status s e) es (step-IsOrdered status s e v)

-- Whatever a session meets, with any foyer and box: its messages are delivered, lost or pending in
-- the order in which they were accepted, the job is at work while any is pending, unless it has
-- failed, and then the session is shut down.
pub run-IsOrdered :
    (status : StatusCodes) (client_uuid : ℕ) (foyer_conn box_uuid : Option ℕ) (es : List Event)
    → IsOrdered (
        run status
          (record (new_websocket_session client_uuid) {
            weak_foyer_conn = foyer_conn;
            box_uuid = box_uuid;
          })
          es)
run-IsOrdered status client_uuid foyer_conn box_uuid es = run-keeps status _ es (record {
  in_order = refl;
  activity = refl;
  spare = λ h. refl;
  wakeful = λ h. refl;
  closed = λ h. cc;
})
