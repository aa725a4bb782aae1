-- ===== src/Interserver/Jobs.antt =====
-- circe-common/circe-common/src/interserver_connection.cpp and interserver_response.hpp: the job that
-- performs a request that has been received, and control frames.
pub mod Reply
use poseidon_circe.Prelude.{ℕ, List, [], ◌∷◌, ◌++◌, Bool, true, false, not, if◌then◌else◌}
use poseidon_circe.Prelude.Int.{ℤ, negsuc, is_negative}
use poseidon_circe.Prelude.Bytes.{Bytes}
use poseidon_circe.Prelude.State.{
  M, Error, Result, ok, throw, assertion, exception, protocol, http_exception, websocket_exception,
}
use poseidon_circe.Interserver.Promises.{
  Response, Job, InterserverConnection, shutdown, send_response,
}

unfoldable pub error_internal_error : ℤ
error_internal_error = negsuc 0

-- `Interserver_response(err_code, err_msg)`
unfoldable pub response_of_code : ℤ → Response
response_of_code err_code = record { err_code = err_code; message_id = 0; payload = [] }

-- the status code of an exception, as the handlers of `perform` have it
unfoldable pub code_of : Error → ℤ
unfolding error_internal_error
code_of (protocol status_code) = status_code
code_of assertion = error_internal_error
code_of exception = error_internal_error
code_of (http_exception status_code headers) = error_internal_error
code_of (websocket_exception status_code) = error_internal_error

-- the response, which is that of `layer7_on_sync_message`, or made of its exception
unfoldable pub reply_of : Result Response → Response
unfolding response_of_code code_of
reply_of (ok resp) = resp
reply_of (throw e) = response_of_code (code_of e)

module _ (write_request : ℕ → Bytes) (write_response : ℕ → ℤ → Bytes) where
  -- after the response has been sent: a fatal error, or an exception, shuts the connection down
  unfoldable pub after_reply : ℤ → InterserverConnection × Result (Unit {0}) → InterserverConnection
  after_reply status_code (c, throw e) = shutdown c
  after_reply status_code (c, ok u) = if is_negative status_code then shutdown c else c

  unfoldable pub reply : Bool → Job → Response → M InterserverConnection (Unit {0})
  unfolding send_response
  reply launched job resp c =
      if job.send_response
      then send_response write_request write_response launched job.serial resp c
      else (c, ok tt)

  -- `Request_message_job::perform`, with the outcome of `layer7_on_sync_message`
  unfoldable pub perform :
      Bool → Job → Result Response → InterserverConnection → InterserverConnection
  unfolding after_reply reply reply_of
  perform launched job answer c =
      let resp = reply_of answer in after_reply resp.err_code (reply launched job resp c)

-- `Poseidon::Cbpp`'s control codes that the program names
pub data ControlCode : Type 0 where
  status_shutdown status_ping status_pong : ControlCode
  other_status : ℤ → ControlCode

-- the end of a connection that control frames reach: `pongs` are those sent back
pub record ControlState : Type 0 where
  pub authenticated : Bool
  pub is_shutdown : Bool
  pub pongs : List Bytes

unfoldable pub on_control : ControlCode → Bytes → ControlState → ControlState
on_control status_shutdown param c = record c { is_shutdown = true }
on_control status_ping param c = record c { pongs = c.pongs ++ param ∷ [] }
on_control status_pong param c = c
on_control (other_status status_code) param c = c

unfoldable pub layer5_on_receive_control : ControlCode → Bytes → M ControlState (Unit {0})
unfolding on_control
layer5_on_receive_control code param c =
    if not c.authenticated then (c, throw assertion) else (on_control code param c, ok tt)
