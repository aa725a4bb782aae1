-- ===== src/Tests/LoginTests.antt =====
-- A client of a gate who logs in over a WebSocket.
use poseidon_circe.Prelude.{◌≡◌, ◌≢◌, ◌⊎◌, refl, [], ◌∷◌, true, false, some}
use poseidon_circe.Prelude.Int.{pos}
use poseidon_circe.Prelude.Bytes.{Bytes}
use poseidon_circe.Prelude.State.{ok}
use poseidon_circe.Poseidon.{documented}
use poseidon_circe.Interserver.Sessions.{new_session}
use poseidon_circe.Interserver.Connector.{Connector}
use poseidon_circe.Gate.WebsocketSession.{new_websocket_session}
use poseidon_circe.Gate.WebsocketSession.Login.{Login, LoginEnv, sync_authenticate}
use poseidon_circe.Gate.WebsocketSession.Login.Admitted.{
  IsAdmitted, IsStranger, sync_authenticate_lem,
}

abbrev connector : Connector
connector = record {
  hosts = 5 ∷ [];
  is_active = true;
  weak_clients = (5, 1) ∷ [];
  clients = λ p. new_session;
  next_client = 2;
  authenticated = λ p. true;
  killed = [];
  pinged = [];
}

abbrev env : LoginEnv
env = record {
  status = record {
    normal_closure = 1000;
    going_away = 1001;
    inacceptable = 1003;
    reserved_abnormal = 1006;
    internal_error = 1011;
  };
  arith64 = documented;
  now = 1;
  ban_duration = 60;
  max_auth_failures = 5;
  remote_ip = 1 ∷ [];
  key = some 4;
  websocket_enabled = true;
  expired = λ p. false;
  auth_connector = connector;
  foyer_connector = connector;
  random_auth = 0;
  random_foyer = 0;
  auth_answer =
      λ p req. ok (record { messages = []; auth_token = 9 ∷ []; status_code = pos 0; reason = [] });
  foyer_answer = λ p req. ok (record { box_uuid = 8 });
  shutdown_meanwhile = false;
}

abbrev login : Login
login = record {
  session = new_websocket_session 100;
  banned = some [];
  sent = [];
  establishments = [];
}

abbrev uri : Bytes
uri = 47 ∷ []

sync_authenticate_lem_example :
    (((sync_authenticate env uri [] login).1 ≡ ok tt)
      × IsAdmitted (sync_authenticate env uri [] login).0)
    ⊎ (((sync_authenticate env uri [] login).1 ≢ ok tt)
        × IsStranger (sync_authenticate env uri [] login).0)
sync_authenticate_lem_example = sync_authenticate_lem env uri [] login refl
