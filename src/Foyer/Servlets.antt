-- ===== src/Foyer/Servlets.antt =====
-- circe-foyer/circe-foyer/src/servlets.cpp: the handlers, except that of the broadcast.
--
-- A handler is called with the connection of the gate that the message came from, an address in the
-- heap of the acceptor. What is sent to boxes and gates is listed with the connection it is sent
-- over. What comes back is a parameter: `accepts` says over which connections a message can be sent,
-- and the answers are what `wait_for_response` returns or throws.
use poseidon_circe.Prelude.{ℕ, List, [], ◌∷◌, ◌++◌, Bool, if◌then◌else◌, Option, none, some}
use poseidon_circe.Prelude.Int.{ℤ}
use poseidon_circe.Prelude.State.{M, Result, ok, throw, exception, protocol, ◌>>=◌, ◌>>◌, return}
use poseidon_circe.Protocol.Common.{
  error_success, error_box_connection_lost, error_gate_connection_lost,
}
use poseidon_circe.Protocol.Box
use poseidon_circe.Protocol.Foyer
use poseidon_circe.Protocol.Gate
use poseidon_circe.Interserver.Sessions.{pick, get_connection_uuid}
use poseidon_circe.Interserver.Acceptor.{Acceptor, get_session}
use poseidon_circe.Interserver.Connector.{Connector, get_all_clients, get_client}

pub data BoxMessage : Type 0 where
  http_request : Box.HttpRequest → BoxMessage
  establishment : Box.WebsocketEstablishmentRequest → BoxMessage
  closure : Box.WebsocketClosureNotification → BoxMessage
  packed_message : Box.WebsocketPackedMessageRequest → BoxMessage

pub data GateMessage : Type 0 where
  kill : Gate.WebsocketKillNotification → GateMessage
  packed_message : Gate.WebsocketPackedMessageRequest → GateMessage
  packed_broadcast : Gate.WebsocketPackedBroadcastNotification → GateMessage

-- `Box_connector` and `Foyer_acceptor`, and the messages sent
pub record FoyerServer : Type 0 where
  pub box_connector : Connector
  pub foyer_acceptor : Acceptor
  pub to_boxes : List (ℕ × BoxMessage)
  pub to_gates : List (ℕ × GateMessage)

-- a call that reads the server only
abbrev pub ask : {A : Type 0} → (FoyerServer → Result A) → M FoyerServer A
ask f s = (s, f s)

unfoldable pub gate_uuid_of : ℕ → M FoyerServer ℕ
unfolding get_connection_uuid
gate_uuid_of connection = ask (λ s. get_connection_uuid (s.foyer_acceptor.sessions connection))

unfoldable pub box_uuid_of : ℕ → M FoyerServer ℕ
unfolding get_connection_uuid
box_uuid_of connection = ask (λ s. get_connection_uuid (s.box_connector.clients connection))

-- `CIRCE_PROTOCOL_THROW_UNLESS(conn, ...)`
unfoldable pub or_lost : ℤ → Result (Option ℕ) → Result ℕ
or_lost status_code (throw e) = throw e
or_lost status_code (ok none) = throw (protocol status_code)
or_lost status_code (ok (some p)) = ok p

module _ (expired : ℕ → Bool) (accepts : ℕ → Bool) where
  unfoldable pub choose_box : ℕ → M FoyerServer ℕ
  unfolding pick get_all_clients error_box_connection_lost
  choose_box random = ask (λ s.
      pick (protocol error_box_connection_lost) random
        (get_all_clients expired [] s.box_connector).0)

  unfoldable pub box_connection : ℕ → M FoyerServer ℕ
  unfolding or_lost get_client error_box_connection_lost
  box_connection box_uuid =
      ask (λ s. or_lost error_box_connection_lost (get_client expired box_uuid s.box_connector))

  unfoldable pub gate_connection : ℕ → M FoyerServer ℕ
  unfolding or_lost get_session error_gate_connection_lost
  gate_connection gate_uuid =
      ask (λ s. or_lost error_gate_connection_lost (get_session expired gate_uuid s.foyer_acceptor))

  -- `send_request` and `wait_for_response`, or `send_notification`, over a connection
  unfoldable pub send_to_box : {A : Type 0} → ℕ → BoxMessage → Result A → M FoyerServer A
  send_to_box p msg answer s =
      if accepts p
      then (record s { to_boxes = s.to_boxes ++ (p, msg) ∷ [] }, answer)
      else (s, throw exception)

  unfoldable pub send_to_gate : {A : Type 0} → ℕ → GateMessage → Result A → M FoyerServer A
  send_to_gate p msg answer s =
      if accepts p
      then (record s { to_gates = s.to_gates ++ (p, msg) ∷ [] }, answer)
      else (s, throw exception)

  module _ (http_answer : ℕ → Box.HttpRequest → Result Box.HttpResponse)
      (box_answer : ℕ → BoxMessage → Result (Unit {0}))
      (gate_answer : ℕ → GateMessage → Result (Unit {0})) where
    unfoldable pub http_request_to_box :
        ℕ → ℕ → Foyer.HttpRequestToBox → M FoyerServer Foyer.HttpResponseFromBox
    unfolding choose_box gate_uuid_of send_to_box box_uuid_of
    http_request_to_box random connection req = do
      box_conn ← choose_box random
      gate_uuid ← gate_uuid_of connection
      let box_req : Box.HttpRequest = record {
        gate_uuid = gate_uuid;
        client_uuid = req.client_uuid;
        client_ip = req.client_ip;
        auth_token = req.auth_token;
        verb = req.verb;
        decoded_uri = req.decoded_uri;
        params = req.params;
        headers = req.headers;
        entity = req.entity;
      }
      box_resp ← send_to_box box_conn (http_request box_req) (http_answer box_conn box_req)
      box_uuid ← box_uuid_of box_conn
      return (record {
        box_uuid = box_uuid;
        status_code = box_resp.status_code;
        headers = box_resp.headers;
        entity = box_resp.entity;
      })

    unfoldable pub websocket_establishment_request_to_box :
        ℕ
        → ℕ
        → Foyer.WebsocketEstablishmentRequestToBox
        → M FoyerServer Foyer.WebsocketEstablishmentResponseFromBox
    unfolding choose_box gate_uuid_of send_to_box box_uuid_of
    websocket_establishment_request_to_box random connection req = do
      box_conn ← choose_box random
      gate_uuid ← gate_uuid_of connection
      let box_req : BoxMessage = establishment (record {
        gate_uuid = gate_uuid;
        client_uuid = req.client_uuid;
        client_ip = req.client_ip;
        auth_token = req.auth_token;
        decoded_uri = req.decoded_uri;
        params = req.params;
      })
      send_to_box box_conn box_req (box_answer box_conn box_req)
      box_uuid ← box_uuid_of box_conn
      return (record { box_uuid = box_uuid })

    unfoldable pub websocket_closure_notification_to_box :
        ℕ → Foyer.WebsocketClosureNotificationToBox → M FoyerServer ℤ
    unfolding box_connection gate_uuid_of send_to_box error_success
    websocket_closure_notification_to_box connection ntfy = do
      box_conn ← box_connection ntfy.box_uuid
      gate_uuid ← gate_uuid_of connection
      send_to_box {A = Unit {0}} box_conn
          (closure (record {
            gate_uuid = gate_uuid;
            client_uuid = ntfy.client_uuid;
            status_code = ntfy.status_code;
            reason = ntfy.reason;
          }))
          (ok tt)
      return error_success

    unfoldable pub websocket_kill_notification_to_gate :
        Foyer.WebsocketKillNotificationToGate → M FoyerServer ℤ
    unfolding gate_connection send_to_gate error_success
    websocket_kill_notification_to_gate ntfy = do
      gate_conn ← gate_connection ntfy.gate_uuid
      send_to_gate {A = Unit {0}} gate_conn
          (kill (record {
            client_uuid = ntfy.client_uuid;
            status_code = ntfy.status_code;
            reason = ntfy.reason;
          }))
          (ok tt)
      return error_success

    unfoldable pub websocket_packed_message_request_to_box :
        ℕ → Foyer.WebsocketPackedMessageRequestToBox → M FoyerServer (Unit {0})
    unfolding box_connection gate_uuid_of send_to_box
    websocket_packed_message_request_to_box connection req = do
      box_conn ← box_connection req.box_uuid
      gate_uuid ← gate_uuid_of connection
      let box_req : BoxMessage =
          BoxMessage.packed_message (record {
            gate_uuid = gate_uuid;
            client_uuid = req.client_uuid;
            messages = req.messages;
          })
      send_to_box box_conn box_req (box_answer box_conn box_req)

    unfoldable pub websocket_packed_message_request_to_gate :
        Foyer.WebsocketPackedMessageRequestToGate → M FoyerServer (Unit {0})
    unfolding gate_connection send_to_gate
    websocket_packed_message_request_to_gate req = do
      gate_conn ← gate_connection req.gate_uuid
      let gate_req : GateMessage =
          GateMessage.packed_message
            (record { client_uuid = req.client_uuid; messages = req.messages })
      send_to_gate gate_conn gate_req (gate_answer gate_conn gate_req)

    unfoldable pub check_gate_request : Foyer.CheckGateRequest → M FoyerServer (Unit {0})
    unfolding gate_connection
    check_gate_request req = gate_connection req.gate_uuid >>= λ gate_conn. return tt
