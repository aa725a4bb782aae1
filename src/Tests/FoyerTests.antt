-- ===== src/Tests/FoyerTests.antt =====
-- A foyer with one gate and one box.
use poseidon_circe.Prelude.{ℕ, ◌≡◌, refl, List, [], ◌∷◌, Bool, true, false, some, arith}
use poseidon_circe.Prelude.Int.{pos}
use poseidon_circe.Prelude.State.{Result, ok}
use poseidon_circe.Protocol.Common.{error_success, verb_get}
use poseidon_circe.Protocol.Box
use poseidon_circe.Protocol.Foyer
use poseidon_circe.FlatMap.{count}
use poseidon_circe.Interserver.Sessions.{new_session}
use poseidon_circe.Interserver.Acceptor.Registered.{IsRegistered}
use poseidon_circe.Foyer.Servlets.{BoxMessage, GateMessage, FoyerServer}
use poseidon_circe.Foyer.Sends.{NamesOnly}
use poseidon_circe.Foyer.Routing.{Request, http, serve, serve-NamesOnly}
use poseidon_circe.Foyer.Broadcast.{Group, websocket_packed_broadcast_notification_to_gate}
use poseidon_circe.Foyer.Broadcast.Delivery.{AreGroups, deliver, broadcast_lem}

abbrev no_one : ℕ → Bool
no_one p = false

abbrev all : ℕ → Bool
all p = true

abbrev foyer : FoyerServer
foyer = record {
  box_connector = record {
    hosts = 5 ∷ [];
    is_active = true;
    weak_clients = (5, 1) ∷ [];
    clients = λ p. record new_session { connection_uuid = some 8 };
    next_client = 2;
    authenticated = λ p. true;
    killed = [];
    pinged = [];
  };
  foyer_acceptor = record {
    is_active = true;
    weak_sessions = (7, 0) ∷ [];
    sessions = λ p. record new_session { connection_uuid = some 7 };
    next_session = 1;
  };
  to_boxes = [];
  to_gates = [];
}

foyer-IsRegistered : IsRegistered foyer.foyer_acceptor
foyer-IsRegistered = record {
  unique = λ k. unfold count in ground arith;
  own = (refl, tt);
  fresh = (omega arith, tt);
}

-- two clients of the gate, and one of a gate that is not there
abbrev broadcast : Foyer.WebsocketPackedBroadcastNotificationToGate
broadcast = record {
  clients = (7, 100) ∷ (9, 101) ∷ (7, 102) ∷ [];
  messages = record { opcode = 1; payload = 2 ∷ [] } ∷ [];
}

broadcast_lem_example :
    (groups : List (ℕ × Group)) × AreGroups no_one foyer.foyer_acceptor broadcast.clients groups
    × (websocket_packed_broadcast_notification_to_gate no_one all broadcast foyer
        ≡ (deliver no_one all broadcast.messages groups foyer, ok error_success))
broadcast_lem_example = broadcast_lem no_one all broadcast foyer foyer-IsRegistered

abbrev request : Request
request = http 3 (record {
  client_uuid = 100;
  client_ip = 1 ∷ [];
  auth_token = 2 ∷ [];
  verb = verb_get;
  decoded_uri = 47 ∷ [];
  params = [];
  headers = [];
  entity = [];
})

abbrev http_answer : ℕ → Box.HttpRequest → Result Box.HttpResponse
http_answer p req = ok (record { status_code = pos 200; headers = []; entity = [] })

abbrev box_answer : ℕ → BoxMessage → Result (Unit {0})
box_answer p msg = ok tt

abbrev gate_answer : ℕ → GateMessage → Result (Unit {0})
gate_answer p msg = ok tt

serve-NamesOnly_example :
    NamesOnly 7 foyer (serve no_one all http_answer box_answer gate_answer 0 request foyer)
serve-NamesOnly_example =
    serve-NamesOnly no_one all http_answer box_answer gate_answer 0 request 7 foyer refl
