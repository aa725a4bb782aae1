-- ===== src/Auth.antt =====
-- circe-auth/circe-auth/src: the server that admits clients.
--
-- A user replaces singletons/user_defined_functions.cpp: its functions are a `UserDefinedFunctions`.
-- They may throw, and so do the handlers then.
use poseidon_circe.Prelude.{ℕ, List, []}
use poseidon_circe.Prelude.Int.{pos}
use poseidon_circe.Prelude.Bytes.{Bytes, codes}
use poseidon_circe.Prelude.State.{Result, ok, throw}
use poseidon_circe.Protocol.Common.{OptionMap, WebsocketFrame}
use poseidon_circe.Protocol.Auth

-- the outputs of `check_http_authentication`, as it finds and leaves them
pub record HttpOutcome : Type 0 where
  pub status_code : ℕ
  pub headers : OptionMap

pub record WebsocketOutcome : Type 0 where
  pub messages : List WebsocketFrame
  pub status_code : ℕ
  pub reason : Bytes

pub record UserDefinedFunctions : Type 0 where
  pub check_http_authentication :
      HttpOutcome → Auth.HttpAuthenticationRequest → Result (HttpOutcome × Bytes)
  pub check_websocket_authentication :
      WebsocketOutcome → Auth.WebsocketAuthenticationRequest → Result (WebsocketOutcome × Bytes)

unfoldable pub http_response : HttpOutcome × Bytes → Auth.HttpAuthenticationResponse
http_response (outcome, auth_token) = record {
  auth_token = auth_token;
  status_code = pos outcome.status_code;
  headers = outcome.headers;
}

unfoldable pub websocket_response : WebsocketOutcome × Bytes → Auth.WebsocketAuthenticationResponse
websocket_response (outcome, auth_token) = record {
  messages = outcome.messages;
  auth_token = auth_token;
  status_code = pos outcome.status_code;
  reason = outcome.reason;
}

module _ (user : UserDefinedFunctions) where
  unfoldable pub http_authentication_request :
      Auth.HttpAuthenticationRequest → Result Auth.HttpAuthenticationResponse
  unfolding http_response
  http_authentication_request req =
      elim (user.check_http_authentication (record { status_code = 503; headers = [] }) req) [
        | ok r ↦ ok (http_response r)
        | throw e ↦ throw e
      ]

  unfoldable pub websocket_authentication_request :
      Auth.WebsocketAuthenticationRequest → Result Auth.WebsocketAuthenticationResponse
  unfolding websocket_response
  websocket_authentication_request req =
      elim (user.check_websocket_authentication
        (record { messages = []; status_code = 1011; reason = [] }) req) [
          | ok r ↦ ok (websocket_response r)
          | throw e ↦ throw e
        ]

-- The functions that come with the source, for the user to replace.
unfoldable pub check_http_authentication :
    HttpOutcome → Auth.HttpAuthenticationRequest → Result (HttpOutcome × Bytes)
unfolding codes
check_http_authentication outcome req = ok (outcome, codes "HTTP_AUTH_TOKEN")

unfoldable pub check_websocket_authentication :
    WebsocketOutcome → Auth.WebsocketAuthenticationRequest → Result (WebsocketOutcome × Bytes)
unfolding codes
check_websocket_authentication outcome req = ok (outcome, codes "WEBSOCKET_AUTH_TOKEN")
