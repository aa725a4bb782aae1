-- ===== src/Tests/BroadcastTests.antt =====
-- A gate with two clients, one of whom takes nothing.
use poseidon_circe.Prelude.{
  ℕ, List, is_some, if◌then◌else◌, ◌*◌, ◌≡◌, [], ◌∷◌, Bool, true, false, some, none, ◌==◌,
}
use poseidon_circe.Prelude.State.{ok}
use poseidon_circe.Protocol.Common.{error_success, WebsocketFrame}
use poseidon_circe.Protocol.Gate
use poseidon_circe.Gate.WebsocketSession.{StatusCodes, WebsocketSession, new_websocket_session}
use poseidon_circe.Gate.Servlets.{
  Sending, taken, dropped, throws, GateServer, websocket_packed_broadcast_notification,
}
use poseidon_circe.Gate.Servlets.Isolation.{own, write_each, broadcast_isolated}

abbrev status : StatusCodes
status = record {
  normal_closure = 1000;
  going_away = 1001;
  inacceptable = 1003;
  reserved_abnormal = 1006;
  internal_error = 1011;
}

abbrev no_one : ℕ → Bool
no_one p = false

-- The session at 20 throws, and one that has been shut down takes nothing.
abbrev send : ℕ → WebsocketSession → List WebsocketFrame → WebsocketFrame → Sending
send w session frames frame =
    if is_some session.shutdown_code then dropped else if w == 20 then throws else taken

abbrev gate : GateServer
gate = record {
  acceptor = record {
    weak_sessions = (100, 1) ∷ (101, 2) ∷ [];
    clients = λ p. record { upgraded_session = some (p * 10); is_shutdown = false };
    next_client = 3;
    sockets = new_websocket_session;
  };
  frames = λ w. [];
  banned = none;
}

abbrev notification : Gate.WebsocketPackedBroadcastNotification
notification = record {
  clients = 101 ∷ 100 ∷ 101 ∷ [];
  messages = record { opcode = 1; payload = 2 ∷ [] } ∷ record { opcode = 1; payload = 3 ∷ [] } ∷ [];
}

broadcast_isolated_example :
    ((websocket_packed_broadcast_notification status true no_one send notification gate).1
      ≡ ok error_success)
    × (own 10 (websocket_packed_broadcast_notification status true no_one send notification gate).0
        ≡ write_each status true no_one send 10 gate.acceptor notification.messages
            notification.clients
            (own 10 gate))
broadcast_isolated_example = broadcast_isolated status true no_one send 10 notification gate
