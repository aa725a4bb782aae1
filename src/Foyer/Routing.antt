-- ===== src/Foyer/Routing.antt =====
-- circe-foyer/circe-foyer/src/servlets.cpp: what the handlers send, and to whom.
use poseidon_circe.Prelude.{ℕ, ◌≡◌, Bool, some}
use poseidon_circe.Prelude.State.{Result}
use poseidon_circe.Protocol.Box
use poseidon_circe.Protocol.Foyer
use poseidon_circe.Foyer.Servlets.{
  BoxMessage, FoyerServer, GateMessage, http_request_to_box, websocket_establishment_request_to_box,
  websocket_closure_notification_to_box, websocket_kill_notification_to_gate,
  websocket_packed_message_request_to_box, websocket_packed_message_request_to_gate,
  check_gate_request,
}
use poseidon_circe.Foyer.Sends.{gate_of, NamesOnly, Names, names}

-- A message from a gate, or about one.
pub data Request : Type 0 where
  http : ℕ → Foyer.HttpRequestToBox → Request
  establishes : ℕ → Foyer.WebsocketEstablishmentRequestToBox → Request
  closes : Foyer.WebsocketClosureNotificationToBox → Request
  kills : Foyer.WebsocketKillNotificationToGate → Request
  packed_to_box : Foyer.WebsocketPackedMessageRequestToBox → Request
  packed_to_gate : Foyer.WebsocketPackedMessageRequestToGate → Request
  checks : Foyer.CheckGateRequest → Request

module _ (expired accepts : ℕ → Bool) (http_answer : ℕ → Box.HttpRequest → Result Box.HttpResponse)
    (box_answer : ℕ → BoxMessage → Result (Unit {0}))
    (gate_answer : ℕ → GateMessage → Result (Unit {0})) (connection : ℕ) where
  unfoldable pub serve : Request → FoyerServer → FoyerServer
  serve (http random req) s =
      (http_request_to_box expired accepts http_answer box_answer gate_answer random connection req
        s).0
  serve (establishes random req) s =
      (websocket_establishment_request_to_box expired accepts http_answer box_answer gate_answer
        random connection req s).0
  serve (closes ntfy) s =
      (websocket_closure_notification_to_box expired accepts http_answer box_answer gate_answer
        connection ntfy s).0
  serve (kills ntfy) s =
      (websocket_kill_notification_to_gate expired accepts http_answer box_answer gate_answer ntfy
        s).0
  serve (packed_to_box req) s =
      (websocket_packed_message_request_to_box expired accepts http_answer box_answer gate_answer
        connection req s).0
  serve (packed_to_gate req) s =
      (websocket_packed_message_request_to_gate expired accepts http_answer box_answer gate_answer
        req s).0
  serve (checks req) s =
      (check_gate_request expired accepts http_answer box_answer gate_answer req s).0

  Names-http_request_to_box :
      (uuid : ℕ) (random : ℕ) (req : Foyer.HttpRequestToBox)
      → Names connection uuid (
          http_request_to_box expired accepts http_answer box_answer gate_answer random connection
            req)
  unfolding http_request_to_box gate_of
  Names-http_request_to_box uuid random req = search names

  Names-websocket_establishment_request_to_box :
      (uuid : ℕ) (random : ℕ) (req : Foyer.WebsocketEstablishmentRequestToBox)
      → Names connection uuid (
          websocket_establishment_request_to_box expired accepts http_answer box_answer gate_answer
            random connection req)
  unfolding websocket_establishment_request_to_box gate_of
  Names-websocket_establishment_request_to_box uuid random req = search names

  Names-websocket_closure_notification_to_box :
      (uuid : ℕ) (ntfy : Foyer.WebsocketClosureNotificationToBox)
      → Names connection uuid (
          websocket_closure_notification_to_box expired accepts http_answer box_answer gate_answer
            connection ntfy)
  unfolding websocket_closure_notification_to_box gate_of
  Names-websocket_closure_notification_to_box uuid ntfy = search names

  Names-websocket_kill_notification_to_gate :
      (uuid : ℕ) (ntfy : Foyer.WebsocketKillNotificationToGate)
      → Names connection uuid (
          websocket_kill_notification_to_gate expired accepts http_answer box_answer gate_answer
            ntfy)
  unfolding websocket_kill_notification_to_gate gate_of
  Names-websocket_kill_notification_to_gate uuid ntfy = search names

  Names-websocket_packed_message_request_to_box :
      (uuid : ℕ) (req : Foyer.WebsocketPackedMessageRequestToBox)
      → Names connection uuid (
          websocket_packed_message_request_to_box expired accepts http_answer box_answer gate_answer
            connection req)
  unfolding websocket_packed_message_request_to_box gate_of
  Names-websocket_packed_message_request_to_box uuid req = search names

  Names-websocket_packed_message_request_to_gate :
      (uuid : ℕ) (req : Foyer.WebsocketPackedMessageRequestToGate)
      → Names connection uuid (
          websocket_packed_message_request_to_gate expired accepts http_answer box_answer
            gate_answer req)
  unfolding websocket_packed_message_request_to_gate gate_of
  Names-websocket_packed_message_request_to_gate uuid req = search names

  Names-check_gate_request :
      (uuid : ℕ) (req : Foyer.CheckGateRequest)
      → Names connection uuid
          (check_gate_request expired accepts http_answer box_answer gate_answer req)
  unfolding check_gate_request gate_of
  Names-check_gate_request uuid req = search names

  -- Whatever message comes over a gate's connection, the messages that the foyer sends to boxes for
  -- it name that gate, by the UUID of its connection.
  pub serve-NamesOnly :
      (request : Request) (uuid : ℕ) (s : FoyerServer)
      → (s.foyer_acceptor.sessions connection).connection_uuid ≡ some uuid
      → NamesOnly uuid s (serve request s)
  unfolding serve
  serve-NamesOnly (http random req) uuid s e = (Names-http_request_to_box uuid random req).holds s e
  serve-NamesOnly (establishes random req) uuid s e =
      (Names-websocket_establishment_request_to_box uuid random req).holds s e
  serve-NamesOnly (closes ntfy) uuid s e =
      (Names-websocket_closure_notification_to_box uuid ntfy).holds s e
  serve-NamesOnly (kills ntfy) uuid s e =
      (Names-websocket_kill_notification_to_gate uuid ntfy).holds s e
  serve-NamesOnly (packed_to_box req) uuid s e =
      (Names-websocket_packed_message_request_to_box uuid req).holds s e
  serve-NamesOnly (packed_to_gate req) uuid s e =
      (Names-websocket_packed_message_request_to_gate uuid req).holds s e
  serve-NamesOnly (checks req) uuid s e = (Names-check_gate_request uuid req).holds s e
