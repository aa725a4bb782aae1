-- ===== src/Gate/WebsocketSession.antt =====
-- circe-gate/circe-gate/src/client_websocket_session.cpp: a client's WebSocket, whose messages a job
-- delivers to a box by way of a foyer.
--
-- The job waits for a response between its rounds, and the client sends meanwhile: the session is a
-- state machine whose events are the client's messages, the start of the job and the response. The
-- mutex makes each event one step. `accepted` and `delivered` record what happened, for the proofs.
-- A status code is a number; those that the framework names are in `StatusCodes`. An opcode is a
-- byte. `m_box_uuid.get()` is undefined where there is no UUID: the session has one since it has a
-- connection to the foyer.
pub mod Ordered
pub mod Closure
pub mod Login
use poseidon_circe.Prelude.{
  ℕ, ◌*◌, ◌+◌, List, [], ◌∷◌, ◌++◌, Bool, true, false, not, ◌&&◌, if◌then◌else◌, Option, none, some,
  is_empty, ltb, length, take,
}
use poseidon_circe.Prelude.Int.{pos}
use poseidon_circe.Prelude.Bytes.{Bytes, codes}
use poseidon_circe.Prelude.State.{
  M, Error, Result, ok, throw, exception, assertion, websocket_exception,
}
use poseidon_circe.Protocol.Common.{WebsocketFrame}
use poseidon_circe.Protocol.Foyer

pub record StatusCodes : Type 0 where
  pub normal_closure : ℕ
  pub going_away : ℕ
  pub inacceptable : ℕ
  pub reserved_abnormal : ℕ
  pub internal_error : ℕ

-- Where the delivery job is: not enqueued, in the queue, waiting for the response to a request with
-- these messages, or ended by an exception that lost them.
pub data DeliveryJob : Type 0 where
  idle queued : DeliveryJob
  waiting failed : List WebsocketFrame → DeliveryJob

-- `shutdown_code` is that of the first `shutdown`; `requests` are those sent over the foyer's
-- connection, `notified` the closure notifications.
pub record WebsocketSession : Type 0 where
  pub client_uuid : ℕ
  pub weak_foyer_conn : Option ℕ
  pub box_uuid : Option ℕ
  pub closure_reason : Option (ℕ × Bytes)
  pub auth_token : Option Bytes
  pub shutdown_code : Option ℕ
  pub delivery_job_spare : Bool
  pub delivery_job_active : Bool
  pub messages_pending : List WebsocketFrame
  pub job : DeliveryJob
  pub requests : List (ℕ × Foyer.WebsocketPackedMessageRequestToBox)
  pub notified : List (ℕ × Foyer.WebsocketClosureNotificationToBox)
  pub foyers_shut_down : List ℕ
  pub accepted : List WebsocketFrame
  pub delivered : List WebsocketFrame

abbrev pub new_websocket_session : ℕ → WebsocketSession
new_websocket_session client_uuid = record {
  client_uuid = client_uuid;
  weak_foyer_conn = none;
  box_uuid = none;
  closure_reason = none;
  auth_token = none;
  shutdown_code = none;
  delivery_job_spare = false;
  delivery_job_active = false;
  messages_pending = [];
  job = idle;
  requests = [];
  notified = [];
  foyers_shut_down = [];
  accepted = [];
  delivered = [];
}

unfoldable pub shutdown : ℕ → WebsocketSession → WebsocketSession
shutdown status_code s = record s {
  shutdown_code = elim s.shutdown_code [ none ↦ some status_code | some c ↦ some c ];
}

-- the creation of the spare job, and its enqueuing unless it is active
unfoldable pub require_job : WebsocketSession → WebsocketSession
require_job s =
    if s.delivery_job_spare
    then s
    else record s { delivery_job_spare = true; delivery_job_active = false }

unfoldable pub wake_job : WebsocketSession → WebsocketSession
wake_job s =
    if s.delivery_job_active then s else record s { job = queued; delivery_job_active = true }

-- `weak_ptr::lock` of the foyer's connection
unfoldable pub lock_foyer : (ℕ → Bool) → Option ℕ → Option ℕ
lock_foyer expired none = none
lock_foyer expired (some p) = if expired p then none else some p

module _ (status : StatusCodes) where
  unfoldable pub on_sync_data_message : ℕ → WebsocketFrame → M WebsocketSession (Unit {0})
  unfolding require_job wake_job
  on_sync_data_message max_requests_pending frame s =
      let s' = wake_job (require_job s) in
      if ltb (length s'.messages_pending) max_requests_pending
      then (
        record s' {
          messages_pending = s'.messages_pending ++ frame ∷ [];
          accepted = s'.accepted ++ frame ∷ [];
        },
        ok tt,
      )
      else (s', throw (websocket_exception status.going_away))

  -- the handlers of `perform`: the messages in hand are lost, and the session is shut down
  unfoldable pub fail_job : ℕ → List WebsocketFrame → WebsocketSession → WebsocketSession
  unfolding shutdown
  fail_job status_code lost s = shutdown status_code (record s { job = failed lost })

  -- a round of the loop, with the messages that have been swapped out and `m_box_uuid.get()`;
  -- `accepts` says whether `send_request` does not throw
  unfoldable pub send_round :
      Bool → ℕ → List WebsocketFrame → Option ℕ → WebsocketSession → WebsocketSession
  unfolding fail_job
  send_round accepts foyer_conn [] box_uuid s = record s { job = idle; delivery_job_active = false }
  send_round accepts foyer_conn (m ∷ ms) none s = fail_job status.internal_error (m ∷ ms) s
  send_round accepts foyer_conn (m ∷ ms) (some box_uuid) s =
      if accepts
      then record s {
        job = waiting (m ∷ ms);
        requests =
            s.requests
            ++ (
              foyer_conn,
              record { box_uuid = box_uuid; client_uuid = s.client_uuid; messages = m ∷ ms },
            )
              ∷ [];
      }
      else fail_job status.internal_error (m ∷ ms) s

  unfoldable pub next_round : Bool → ℕ → WebsocketSession → WebsocketSession
  unfolding send_round
  next_round accepts foyer_conn s =
      send_round accepts foyer_conn s.messages_pending s.box_uuid
        (record s { messages_pending = [] })

  -- `perform` to its first wait, with the foyer's connection, and the assertion that it is active
  unfoldable pub perform_with : Bool → Option ℕ → Bool → WebsocketSession → WebsocketSession
  unfolding next_round fail_job
  perform_with accepts none active s = fail_job status.going_away [] s
  perform_with accepts (some foyer_conn) false s = fail_job status.internal_error [] s
  perform_with accepts (some foyer_conn) true s = next_round accepts foyer_conn s

  unfoldable pub start : (ℕ → Bool) → Bool → DeliveryJob → WebsocketSession → WebsocketSession
  unfolding perform_with lock_foyer
  start expired accepts queued s =
      perform_with accepts (lock_foyer expired s.weak_foyer_conn) s.delivery_job_active s
  start expired accepts idle s = s
  start expired accepts (waiting batch) s = s
  start expired accepts (failed lost) s = s

  -- the response to the request that the job waits for: `answered`, or an exception
  unfoldable pub respond : Bool → ℕ → Bool → DeliveryJob → WebsocketSession → WebsocketSession
  unfolding next_round fail_job
  respond accepts foyer_conn true (waiting batch) s =
      next_round accepts foyer_conn (record s { delivered = s.delivered ++ batch })
  respond accepts foyer_conn false (waiting batch) s = fail_job status.internal_error batch s
  respond accepts foyer_conn answered idle s = s
  respond accepts foyer_conn answered queued s = s
  respond accepts foyer_conn answered (failed lost) s = s

  -- what `m_closure_reason` is set to, from the first 125 bytes of the payload
  unfoldable pub closure_of : Bytes → ℕ × Bytes
  unfolding codes
  closure_of [] = (status.normal_closure, [])
  closure_of (b ∷ []) = (status.inacceptable, codes "No enough bytes in WebSocket closure frame")
  closure_of (b ∷ c ∷ reason) = (b * 256 + c, reason)

  -- `opcode == opcode_close`
  unfoldable pub on_sync_control_message : Bool → Bytes → WebsocketSession → WebsocketSession
  unfolding closure_of
  on_sync_control_message is_close payload s =
      if is_close then record s { closure_reason = some (closure_of (take 125 payload)) } else s

  unfoldable pub reason_or : Option (ℕ × Bytes) → ℕ × Bytes
  unfolding codes
  reason_or none = (status.reserved_abnormal, codes "No closure frame received")
  reason_or (some reason) = reason

  -- `send_notification` in its `try` block: over a connection that does not accept the message it
  -- throws, which is caught, and the connection is shut down.
  unfoldable pub notify_over :
      (ℕ → Bool) → Option ℕ → Option ℕ → WebsocketSession → WebsocketSession
  unfolding reason_or
  notify_over accepts none box_uuid s = s
  notify_over accepts (some foyer_conn) none s = s
  notify_over accepts (some foyer_conn) (some box_uuid) s =
      let (status_code, reason) = reason_or s.closure_reason in
      if accepts foyer_conn
      then record s {
        notified =
            s.notified
            ++ (
              foyer_conn,
              record {
                box_uuid = box_uuid;
                client_uuid = s.client_uuid;
                status_code = pos status_code;
                reason = reason;
              },
            )
              ∷ [];
      }
      else record s { foyers_shut_down = s.foyers_shut_down ++ foyer_conn ∷ [] }

  -- The destructor calls this. `accepts` says which connections `send_notification` does not throw
  -- over: those that have not been shut down.
  unfoldable pub notify_foyer_about_closure :
      (ℕ → Bool) → (ℕ → Bool) → WebsocketSession → WebsocketSession
  unfolding notify_over lock_foyer
  notify_foyer_about_closure expired accepts s =
      notify_over accepts (lock_foyer expired s.weak_foyer_conn) s.box_uuid s

-- What a session meets once it is established.
pub data Event : Type 0 where
  receives : ℕ → WebsocketFrame → Event
  starts : (ℕ → Bool) → Bool → Event
  responds : Bool → ℕ → Bool → Event
  controls : Bool → Bytes → Event
  shuts_down : ℕ → Event

unfoldable pub step : StatusCodes → WebsocketSession → Event → WebsocketSession
step status s (receives max_requests_pending frame) =
    (on_sync_data_message status max_requests_pending frame s).0
step status s (starts expired accepts) = start status expired accepts s.job s
step status s (responds accepts foyer_conn answered) =
    respond status accepts foyer_conn answered s.job s
step status s (controls is_close payload) = on_sync_control_message status is_close payload s
step status s (shuts_down status_code) = shutdown status_code s

unfoldable pub run : StatusCodes → WebsocketSession → List Event → WebsocketSession
unfolding step
run status s [] = s
run status s (e ∷ es) = run status (step status s e) es
