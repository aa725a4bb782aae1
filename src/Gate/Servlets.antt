-- ===== src/Gate/Servlets.antt =====
-- circe-gate/circe-gate/src/servlets.cpp: what foyers tell a gate.
--
-- `Websocket::Session::send` belongs to the framework: `send` says what it does with a frame, given
-- the session's address, the session, and the frames that it has taken before. `frames` are those that
-- each session has taken.
pub mod Isolation
use poseidon_circe.Prelude.{ℕ, ◌==◌, List, [], ◌∷◌, ◌++◌, Bool, if◌then◌else◌, Option, none, some}
use poseidon_circe.Prelude.Int.{ℤ}
use poseidon_circe.Prelude.Bytes.{Bytes}
use poseidon_circe.Prelude.State.{M, Result, ok, throw, exception, ◌>>=◌, ◌>>◌, return}
use poseidon_circe.Protocol.Common.{error_success, WebsocketFrame}
use poseidon_circe.Protocol.Gate
use poseidon_circe.Gate.BanList.{IpContainer, remove_ban}
use poseidon_circe.Gate.HttpSession.{status_of}
use poseidon_circe.Gate.WebsocketSession.{StatusCodes, WebsocketSession}
use poseidon_circe.Gate.ClientAcceptor.{ClientHttpAcceptor, shutdown_socket, find_websocket_session}

-- The frame is taken; `send` returns false, as for a session that has been shut down; or it throws.
pub data Sending : Type 0 where
  taken dropped throws : Sending

pub record GateServer : Type 0 where
  pub acceptor : ClientHttpAcceptor
  pub frames : ℕ → List WebsocketFrame
  pub banned : IpContainer

abbrev pub take_frame : ℕ → WebsocketFrame → GateServer → GateServer
take_frame w frame s = record s {
  frames = λ v. if w == v then s.frames w ++ frame ∷ [] else s.frames v;
}

unfoldable pub shutdown_session : ℕ → ℕ → GateServer → GateServer
unfolding shutdown_socket
shutdown_session w status_code s = record s { acceptor = shutdown_socket w status_code s.acceptor }

module _ (status : StatusCodes) (acceptor_alive : Bool) (expired : ℕ → Bool)
    (send : ℕ → WebsocketSession → List WebsocketFrame → WebsocketFrame → Sending) where
  -- the shutdown of a session that was found, with the status code as a number of the framework
  unfoldable pub kill : Option ℕ → Result ℕ → M GateServer ℤ
  unfolding shutdown_session error_success
  kill none r s = (s, ok error_success)
  kill (some w) (ok status_code) s = (shutdown_session w status_code s, ok error_success)
  kill (some w) (throw e) s = (s, throw e)

  unfoldable pub websocket_kill_notification : Gate.WebsocketKillNotification → M GateServer ℤ
  unfolding kill status_of find_websocket_session
  websocket_kill_notification ntfy s =
      kill (find_websocket_session acceptor_alive expired ntfy.client_uuid s.acceptor)
        (status_of ntfy.status_code) s

  -- `ws_session->send(...)`, whose result is not looked at
  unfoldable pub send_frame : ℕ → WebsocketFrame → M GateServer (Unit {0})
  send_frame w frame s = elim (send w (s.acceptor.sockets w) (s.frames w) frame) [
    | taken ↦ (take_frame w frame s, ok tt)
    | dropped ↦ (s, ok tt)
    | throws ↦ (s, throw exception)
  ]

  unfoldable pub send_frames : ℕ → List WebsocketFrame → M GateServer (Unit {0})
  unfolding send_frame
  send_frames w [] = return tt
  send_frames w (frame ∷ frames) = send_frame w frame >> send_frames w frames

  -- the handler of the exceptions
  unfoldable pub or_shut_down : ℕ → GateServer × Result (Unit {0}) → GateServer
  unfolding shutdown_session
  or_shut_down w (s, ok u) = s
  or_shut_down w (s, throw e) = shutdown_session w status.internal_error s

  unfoldable pub send_to : Option ℕ → List WebsocketFrame → GateServer → GateServer
  unfolding send_frames or_shut_down
  send_to none messages s = s
  send_to (some w) messages s = or_shut_down w (send_frames w messages s)

  unfoldable pub websocket_packed_message_request :
      Gate.WebsocketPackedMessageRequest → M GateServer (Unit {0})
  unfolding send_to find_websocket_session
  websocket_packed_message_request req s = (
    send_to (find_websocket_session acceptor_alive expired req.client_uuid s.acceptor) req.messages
        s,
    ok tt,
  )

  unfoldable pub broadcast : List ℕ → List WebsocketFrame → GateServer → GateServer
  unfolding send_to find_websocket_session
  broadcast [] messages s = s
  broadcast (client_uuid ∷ clients) messages s =
      broadcast clients messages
        (send_to (find_websocket_session acceptor_alive expired client_uuid s.acceptor) messages s)

  unfoldable pub websocket_packed_broadcast_notification :
      Gate.WebsocketPackedBroadcastNotification → M GateServer ℤ
  unfolding broadcast error_success
  websocket_packed_broadcast_notification req s =
      (broadcast req.clients req.messages s, ok error_success)

-- `key_of` is the parsing of an address.
unfoldable pub unban_ip_request :
    (Bytes → Option ℕ) → Gate.UnbanIpRequest → M GateServer Gate.UnbanIpResponse
unfolding remove_ban
unban_ip_request key_of req s =
    let (banned, found) = remove_ban (key_of req.client_ip) s.banned in
    (record s { banned = banned }, ok (record { found = if found then 1 else 0 }))
