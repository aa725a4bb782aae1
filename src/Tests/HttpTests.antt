-- ===== src/Tests/HttpTests.antt =====
-- An HTTP session of a gate: a request whose headers come first.
use poseidon_circe.Prelude.{◌≡◌, refl, List, [], ◌∷◌, true, false, some, map}
use poseidon_circe.Prelude.Int.{pos}
use poseidon_circe.Prelude.State.{ok}
use poseidon_circe.Poseidon.{documented}
use poseidon_circe.Protocol.Common.{verb_get}
use poseidon_circe.Interserver.Sessions.{new_session}
use poseidon_circe.Interserver.Connector.{Connector}
use poseidon_circe.Gate.HttpSession.{
  ContentEncoding, identity, Env, HttpLibrary, RequestHeaders, new_http_session,
}
use poseidon_circe.Gate.HttpSession.Authorized.{IsAuthorized}
use poseidon_circe.Gate.HttpSession.Forwarding.{
  Callback, request_end, requests, run, run-IsAuthorized,
}

abbrev library : HttpLibrary
library = record {
  url_decode = λ uri. some uri;
  get_header = λ headers name. [];
  set_header = λ headers name value. (name, value) ∷ headers;
  has_header = λ headers name. false;
  pick_content_encoding = λ headers. identity;
  is_keep_alive_enabled = λ headers. true;
  guess_mime_type = λ uri. [];
  compress = λ is_gzip entity. entity;
  make_default_response = λ status_code headers. (headers, []);
  to_decimal = λ n. n ∷ [];
}

abbrev connector : Connector
connector = record {
  hosts = 5 ∷ [];
  is_active = true;
  weak_clients = (5, 1) ∷ [];
  clients = λ p. new_session;
  next_client = 2;
  authenticated = λ p. true;
  killed = [];
  pinged = [];
}

abbrev env : Env
env = record {
  lib = library;
  arith64 = documented;
  now = 1;
  ban_duration = 60;
  max_auth_failures = 5;
  max_http_requests = 300;
  http_enabled = true;
  exempt_private = false;
  is_private = false;
  expired = λ p. false;
  auth_connector = connector;
  foyer_connector = connector;
  random_auth = 0;
  random_foyer = 0;
  auth_answer = λ p req. ok (record { auth_token = 9 ∷ []; status_code = pos 0; headers = [] });
  foyer_accepts = λ p. true;
  foyer_answer =
      λ p req. ok (record { box_uuid = 8; status_code = pos 200; headers = []; entity = 1 ∷ [] });
  shutdown_meanwhile = false;
}

abbrev req : RequestHeaders
req = record { verb = verb_get; uri = 47 ∷ []; get_params = []; headers = [] }

abbrev callbacks : List (Env × Callback)
callbacks = (env, request_end req) ∷ (env, requests req []) ∷ []

run-IsAuthorized_example :
    IsAuthorized 100 (run (new_http_session 100 (1 ∷ []) (some 4) (some [])) callbacks)
run-IsAuthorized_example = run-IsAuthorized 100 (1 ∷ []) (some 4) (some []) callbacks

-- One request has been forwarded, with the token of the auth server.
forwarded_tokens :
    map
      (λ e. e.1.auth_token)
      (run (new_http_session 100 (1 ∷ []) (some 4) (some [])) callbacks).forwarded
    ≡ (9 ∷ []) ∷ []
unfolding run poseidon_circe.Gate.HttpSession.Requests.on_sync_request
    poseidon_circe.Gate.BanList.get_ban_time_remaining
    poseidon_circe.Gate.HttpSession.Requests.on_low_level_request_end
    poseidon_circe.Gate.BanList.find poseidon_circe.Gate.BanList.accumulate_http_request
    poseidon_circe.Gate.BanList.accumulate_and_check_ban poseidon_circe.Gate.BanList.accumulate
    poseidon_circe.Gate.BanList.count_request poseidon_circe.Gate.BanList.require
    poseidon_circe.Gate.BanList.erase_expired poseidon_circe.Gate.BanList.new_element
    poseidon_circe.Gate.BanList.put poseidon_circe.Interserver.Sessions.pick
    poseidon_circe.Interserver.Connector.get_all_clients
forwarded_tokens = refl
