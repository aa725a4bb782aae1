-- ===== src/Gate/HttpSession.antt =====
-- circe-gate/circe-gate/src/client_http_session.cpp: a client's HTTP requests, which are
-- authenticated by an auth server and forwarded to a foyer.
--
-- The parsing of HTTP, the maps of headers and compression belong to the framework: `HttpLibrary`
-- is what the code calls. An `Env` holds what a call meets: the library, the configuration, the
-- clock, random numbers, and what comes back from other servers. A status code is a number.
pub mod Response
pub mod Requests
pub mod Authorized
pub mod Forwarding
use poseidon_circe.Prelude.{
  ℕ, ◌/◌, ◌%◌, ◌^◌, List, [], ◌∷◌, ◌++◌, Bool, true, false, not, ◌&&◌, ◌||◌, if◌then◌else◌, Option,
  none, some, is_some, is_empty, ◌==◌, ltb, leb,
}
use poseidon_circe.Prelude.Int.{ℤ, pos, negsuc}
use poseidon_circe.Prelude.Bytes.{Bytes, codes, str_eq}
use poseidon_circe.Prelude.State.{
  M, Error, Result, ok, throw, exception, assertion, http_exception, ◌>>=◌, ◌>>◌, return, fail,
  require,
}
use poseidon_circe.Poseidon.{Arith64}
use poseidon_circe.Protocol.Common.{
  OptionMap, Verb, verb_options, verb_get, verb_put, verb_delete, verb_head, verb_post, verb_other,
}
use poseidon_circe.Protocol.Auth
use poseidon_circe.Protocol.Foyer
use poseidon_circe.Interserver.Sessions.{pick}
use poseidon_circe.Interserver.Connector.{Connector, get_all_clients}
use poseidon_circe.Gate.BanList.{
  IpContainer, get_ban_time_remaining, accumulate_auth_failure, accumulate_http_request,
}

pub data ContentEncoding : Type 0 where
  identity gzip deflate not_acceptable : ContentEncoding

-- what the session calls of the framework
pub record HttpLibrary : Type 0 where
  pub url_decode : Bytes → Option Bytes
  pub get_header : OptionMap → Bytes → Bytes
  pub set_header : OptionMap → Bytes → Bytes → OptionMap
  pub has_header : OptionMap → Bytes → Bool
  pub pick_content_encoding : OptionMap → ContentEncoding
  pub is_keep_alive_enabled : OptionMap → Bool
  pub guess_mime_type : Bytes → Bytes
  pub compress : Bool → Bytes → Bytes
  pub make_default_response : ℕ → OptionMap → OptionMap × Bytes
  pub to_decimal : ℕ → Bytes

pub record RequestHeaders : Type 0 where
  pub verb : Verb
  pub uri : Bytes
  pub get_params : OptionMap
  pub headers : OptionMap

pub record ResponseHeaders : Type 0 where
  pub status_code : ℕ
  pub headers : OptionMap

-- `Session::send`, and `Session::send_default_and_shutdown`
pub data Sent : Type 0 where
  response : ResponseHeaders → Bytes → Sent
  default_and_shutdown : ℕ → OptionMap → Sent

-- `remote_ip` is the client's address, `key` its `Ip_port` in the ban list. `banned` is the ban
-- list; `asked` are the requests that the auth servers have answered, the last first, `forwarded`
-- those sent to foyers.
pub record HttpSession : Type 0 where
  pub client_uuid : ℕ
  pub remote_ip : Bytes
  pub key : Option ℕ
  pub first_request : Bool
  pub decoded_uri : Option Bytes
  pub auth_token : Option Bytes
  pub is_shutdown : Bool
  pub sent : List Sent
  pub banned : IpContainer
  pub asked : List (Auth.HttpAuthenticationRequest × Auth.HttpAuthenticationResponse)
  pub forwarded : List (ℕ × Foyer.HttpRequestToBox)

abbrev pub new_http_session : ℕ → Bytes → Option ℕ → IpContainer → HttpSession
new_http_session client_uuid remote_ip key addresses = record {
  client_uuid = client_uuid;
  remote_ip = remote_ip;
  key = key;
  first_request = true;
  decoded_uri = none;
  auth_token = none;
  is_shutdown = false;
  sent = [];
  banned = addresses;
  asked = [];
  forwarded = [];
}

pub record Env : Type 0 where
  pub lib : HttpLibrary
  pub arith64 : Arith64
  pub now : ℕ
  pub ban_duration : ℕ
  pub max_auth_failures : ℕ
  pub max_http_requests : ℕ
  pub http_enabled : Bool
  pub exempt_private : Bool
  pub is_private : Bool
  pub expired : ℕ → Bool
  pub auth_connector : Connector
  pub foyer_connector : Connector
  pub random_auth : ℕ
  pub random_foyer : ℕ
  pub auth_answer : ℕ → Auth.HttpAuthenticationRequest → Result Auth.HttpAuthenticationResponse
  pub foyer_accepts : ℕ → Bool
  pub foyer_answer : ℕ → Foyer.HttpRequestToBox → Result Foyer.HttpResponseFromBox
  pub shutdown_meanwhile : Bool

-- a call that reads the session only
abbrev pub ask : {A : Type 0} → (HttpSession → Result A) → M HttpSession A
ask f s = (s, f s)

-- a call that changes one part of it
abbrev pub modify : (HttpSession → HttpSession) → M HttpSession (Unit {0})
modify f s = (f s, ok tt)

-- `numeric_cast` to a status code
unfoldable pub status_of : ℤ → Result ℕ
status_of (pos n) = if ltb n (2 ^ 32) then ok n else throw exception
status_of (negsuc n) = throw exception

module _ (env : Env) where
  -- what `url_decode` leaves
  unfoldable pub decoded : Option Bytes → Result Bytes
  decoded none = throw (http_exception 400 [])
  decoded (some uri) = if is_empty uri then throw (http_exception 400 []) else ok uri

  unfoldable pub sync_decode_uri : Bytes → M HttpSession (Unit {0})
  unfolding decoded
  sync_decode_uri uri = do
    decoded_uri ← ask (λ s. decoded (env.lib.url_decode uri))
    modify (λ s. record s { decoded_uri = some decoded_uri })

  unfoldable pub set_all : OptionMap → OptionMap → OptionMap
  set_all headers [] = headers
  set_all headers ((key, value) ∷ more) = set_all (env.lib.set_header headers key value) more

  -- the answer is noted where there is one, and whether the session has been shut down meanwhile
  unfoldable pub receive_auth :
      Auth.HttpAuthenticationRequest
      → Result Auth.HttpAuthenticationResponse
      → M HttpSession Auth.HttpAuthenticationResponse
  receive_auth auth_req (ok auth_resp) s = (
    record s {
      asked = (auth_req, auth_resp) ∷ s.asked;
      is_shutdown = s.is_shutdown || env.shutdown_meanwhile;
    },
    ok auth_resp,
  )
  receive_auth auth_req (throw e) s =
      (record s { is_shutdown = s.is_shutdown || env.shutdown_meanwhile }, throw e)

  unfoldable pub ask_auth :
      ℕ → Verb → Bytes → OptionMap → OptionMap → M HttpSession Auth.HttpAuthenticationResponse
  unfolding receive_auth
  ask_auth auth_conn verb decoded_uri params headers s =
      let auth_req : Auth.HttpAuthenticationRequest = record {
        client_uuid = s.client_uuid;
        client_ip = s.remote_ip;
        verb = verb;
        decoded_uri = decoded_uri;
        params = params;
        headers = headers;
      } in
      receive_auth auth_req (env.auth_answer auth_conn auth_req) s

  -- the exception where the auth server has given no token
  unfoldable pub refused : Result ℕ → OptionMap → Error
  refused (ok status_code) headers = http_exception status_code headers
  refused (throw e) headers = e

  -- from the answer on
  unfoldable pub take_token : Auth.HttpAuthenticationResponse → M HttpSession (Unit {0})
  unfolding refused status_of set_all
  take_token auth_resp s =
      if is_empty auth_resp.auth_token
      then (s, throw (refused (status_of auth_resp.status_code) (set_all [] auth_resp.headers)))
      else if s.is_shutdown
      then (s, throw exception)
      else (record s { auth_token = some auth_resp.auth_token }, ok tt)

  unfoldable pub try_authenticate : Verb → Bytes → OptionMap → OptionMap → M HttpSession (Unit {0})
  unfolding ask_auth take_token
  try_authenticate verb decoded_uri params headers = do
    require env.http_enabled (http_exception 503 [])
    auth_conn ← ask (λ s.
        pick (http_exception 502 []) env.random_auth
          (get_all_clients env.expired [] env.auth_connector).0)
    auth_resp ← ask_auth auth_conn verb decoded_uri params headers
    take_token auth_resp

  -- `catch(...)`: the failure is counted, which may throw another exception
  unfoldable pub count_failure : Error → HttpSession → HttpSession × Result (Unit {0})
  count_failure e s =
      let (banned, r) =
        accumulate_auth_failure env.arith64 env.now env.ban_duration env.max_auth_failures s.key
          s.banned in
      (record s { banned = banned }, elim r [ ok u ↦ throw e | throw e' ↦ throw e' ])

  unfoldable pub or_count : HttpSession × Result (Unit {0}) → HttpSession × Result (Unit {0})
  unfolding count_failure
  or_count (s, ok u) = (s, ok u)
  or_count (s, throw e) = count_failure e s

  unfoldable pub sync_authenticate : Verb → Bytes → OptionMap → OptionMap → M HttpSession (Unit {0})
  unfolding or_count try_authenticate
  sync_authenticate verb decoded_uri params headers s =
      or_count (try_authenticate verb decoded_uri params headers s)

  unfoldable pub make_retry_after_headers : ℕ → OptionMap
  unfolding codes
  make_retry_after_headers time_remaining =
      env.lib.set_header [] (codes "Retry-After") (env.lib.to_decimal (time_remaining / 1000))
