-- ===== src/Box/Session.antt =====
-- circe-box/circe-box/src/websocket_shadow_session.hpp and websocket_shadow_session.cpp: one shadow
-- session, its queue of messages to the client and the job that delivers them.
--
-- The job waits for a response between its rounds, and others send meanwhile: it is a state machine
-- whose events are the calls of `send` and `shutdown`, the start of the job and the response. The
-- mutexes make each event one step. `accepted` and `delivered` record what happened, for the proofs.
pub mod Delivery
use poseidon_circe.Prelude.{
  ℕ, List, [], ◌∷◌, ◌++◌, Bool, true, false, not, ◌&&◌, if◌then◌else◌, Option, none, some, is_empty,
}
use poseidon_circe.Prelude.Bytes.{Bytes}

-- an opcode and a payload
abbrev pub Message : Type 0
Message = ℕ × Bytes

-- Where the job is: not enqueued, in the queue, waiting for the response to a request with these
-- messages, or ended by an exception that lost them.
pub data JobState : Type 0 where
  idle queued : JobState
  waiting failed : List Message → JobState

pub record ShadowSession : Type 0 where
  pub is_shutdown : Bool
  pub delivery_job_spare : Bool
  pub delivery_job_active : Bool
  pub messages_pending : List Message
  pub job : JobState
  pub shutdown_jobs : List ℕ
  pub accepted : List Message
  pub delivered : List Message

unfoldable pub init : ShadowSession
init = record {
  is_shutdown = false;
  delivery_job_spare = false;
  delivery_job_active = false;
  messages_pending = [];
  job = idle;
  shutdown_jobs = [];
  accepted = [];
  delivered = [];
}

unfoldable pub mark_shutdown : ShadowSession → ShadowSession
mark_shutdown s = record s { is_shutdown = true }

-- With no connection to the foyer no job is enqueued to tell the gate; `foyer` says whether there
-- is one.
unfoldable pub shutdown : ℕ → Bool → ShadowSession → ShadowSession × Bool
shutdown status_code foyer s = if s.is_shutdown then (s, false) else (
  record s {
    is_shutdown = true;
    shutdown_jobs = if foyer then s.shutdown_jobs ++ status_code ∷ [] else s.shutdown_jobs;
  },
  true,
)

-- the creation of the spare job
require_job : ShadowSession → ShadowSession
require_job s =
    if not s.delivery_job_spare
    then record s { delivery_job_spare = true; delivery_job_active = false }
    else s

-- its enqueueing
activate_job : ShadowSession → ShadowSession
activate_job s =
    if not s.delivery_job_active then record s { job = queued; delivery_job_active = true } else s

unfoldable pub send : Message → ShadowSession → ShadowSession × Bool
unfolding require_job activate_job
send m s =
    if s.is_shutdown
    then (s, false)
    else (let s' = activate_job (require_job s) in
        (
          record s' {
            messages_pending = s'.messages_pending ++ m ∷ [];
            accepted = s'.accepted ++ m ∷ [];
          },
          true,
        ))

status_going_away : ℕ
status_going_away = 1001

status_internal_error : ℕ
status_internal_error = 1011

-- one round of the loop of `Delivery_job::perform`: it ends if nothing is pending
unfoldable pub next_round : ShadowSession → ShadowSession
next_round s =
    if is_empty s.messages_pending
    then record s { job = idle; delivery_job_active = false }
    else record s { job = waiting s.messages_pending; messages_pending = [] }

-- the handlers of the exceptions
unfoldable pub fail_job : ℕ → Bool → List Message → ShadowSession → ShadowSession
fail_job status_code foyer lost s = (shutdown status_code foyer (record s { job = failed lost })).0

-- The start of `perform`: the foyer's connection is looked up, and the job must be active.
start : Bool → JobState → ShadowSession → ShadowSession
unfolding status_going_away status_internal_error
start foyer queued s =
    if not foyer
    then fail_job status_going_away foyer [] s
    else if not s.delivery_job_active
    then fail_job status_internal_error foyer [] s
    else next_round s
start foyer _ s = s

-- The end of `wait_for_response`: the response, or an exception. Where `send_request` throws, that is
-- an exception that comes at once.
respond : Bool → Bool → JobState → ShadowSession → ShadowSession
unfolding status_internal_error
respond answered foyer (waiting batch) s =
    if answered
    then next_round (record s { delivered = s.delivered ++ batch })
    else fail_job status_internal_error foyer batch s
respond answered foyer _ s = s

pub data Event : Type 0 where
  sends : Message → Event
  shuts_down : ℕ → Bool → Event
  marks_shutdown : Event
  starts : Bool → Event
  responds : Bool → Bool → Event

unfoldable pub step : ShadowSession → Event → ShadowSession
unfolding start respond
step s (sends m) = (send m s).0
step s (shuts_down status_code foyer) = (shutdown status_code foyer s).0
step s marks_shutdown = mark_shutdown s
step s (starts foyer) = start foyer s.job s
step s (responds answered foyer) = respond answered foyer s.job s

unfoldable pub run : ShadowSession → List Event → ShadowSession
run s [] = s
run s (e ∷ es) = run (step s e) es
