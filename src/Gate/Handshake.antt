-- ===== src/Gate/Handshake.antt =====
-- circe-gate/circe-gate/src/client_http_session.cpp, `Websocket_handshake_job`: the upgrade of an
-- HTTP session to a WebSocket session; and `on_low_level_message_end` of
-- client_websocket_session.cpp.
--
-- `handshake_response` is the framework's `make_handshake_response`. The ban list is that of the
-- login: the HTTP session does not touch its own here.
use poseidon_circe.Prelude.{
  ℕ, [], Bool, true, not, ◌||◌, ◌&&◌, ◌∷◌, ◌++◌, if◌then◌else◌, Option, none, some, is_some, ◌==◌,
}
use poseidon_circe.Prelude.Bytes.{Bytes}
use poseidon_circe.Prelude.State.{
  M, Error, assertion, exception, protocol, http_exception, websocket_exception, Result, ok, throw,
  ◌>>=◌, ◌>>◌, return, require,
}
use poseidon_circe.Poseidon.{Arith64}
use poseidon_circe.Protocol.Common.{OptionMap}
use poseidon_circe.Gate.BanList.{IpContainer, accumulate_websocket_request}
use poseidon_circe.Gate.HttpSession.{
  Env, HttpSession, RequestHeaders, ResponseHeaders, response, default_and_shutdown, ask, modify,
  sync_decode_uri,
}
use poseidon_circe.Gate.WebsocketSession.{shutdown}
use poseidon_circe.Gate.WebsocketSession.Login.{Login, LoginEnv, sync_authenticate}

pub record Upgrade : Type 0 where
  pub http : HttpSession
  pub login : Login

-- `send_default_and_shutdown`
unfoldable pub send_default : ℕ → OptionMap → HttpSession → HttpSession
send_default status_code headers s = record s {
  sent = s.sent ++ default_and_shutdown status_code headers ∷ [];
  is_shutdown = true;
}

-- the handlers of the exceptions of the first `try` block
unfoldable pub refuse : Error → HttpSession → HttpSession
unfolding send_default
refuse (http_exception status_code headers) s = send_default status_code headers s
refuse assertion s = send_default 500 [] s
refuse exception s = send_default 500 [] s
refuse (protocol status_code) s = send_default 500 [] s
refuse (websocket_exception status_code) s = send_default 500 [] s

module _ (env : Env) (login_env : LoginEnv)
    (handshake_response : RequestHeaders → ResponseHeaders) where
  -- `POSEIDON_THROW_ASSERT(http_session->m_decoded_uri)`
  unfoldable pub decoded_uri_of : Option Bytes → Result Bytes
  decoded_uri_of none = throw assertion
  decoded_uri_of (some uri) = ok uri

  -- the first `try` block
  unfoldable pub shake_hands : RequestHeaders → M HttpSession Bytes
  unfolding sync_decode_uri decoded_uri_of
  shake_hands req = do
    sync_decode_uri env req.uri
    uri ← ask (λ s. decoded_uri_of s.decoded_uri)
    let ws_resp = handshake_response req
    require (ws_resp.status_code == 101) (http_exception ws_resp.status_code ws_resp.headers)
    modify (λ s. record s { sent = s.sent ++ response ws_resp [] ∷ [] })
    return uri

  -- the handlers of the exceptions of the second
  unfoldable pub dismiss : Error → Login → Login
  unfolding shutdown
  dismiss (websocket_exception status_code) l = record l {
    session = shutdown status_code l.session;
  }
  dismiss assertion l = record l { session = shutdown login_env.status.internal_error l.session }
  dismiss exception l = record l { session = shutdown login_env.status.internal_error l.session }
  dismiss (protocol status_code) l = record l {
    session = shutdown login_env.status.internal_error l.session;
  }
  dismiss (http_exception status_code headers) l = record l {
    session = shutdown login_env.status.internal_error l.session;
  }

  -- its result, with `POSEIDON_THROW_ASSERT(ws_session->m_auth_token)`
  unfoldable pub after_login : Login × Result (Unit {0}) → Login
  unfolding dismiss
  after_login (l, ok u) = if is_some l.session.auth_token then l else dismiss assertion l
  after_login (l, throw e) = dismiss e l

  unfoldable pub after_hands : RequestHeaders → HttpSession × Result Bytes → Login → Upgrade
  unfolding after_login refuse sync_authenticate
  after_hands req (s, ok uri) l = record {
    http = s;
    login = after_login (sync_authenticate login_env uri req.get_params l);
  }
  after_hands req (s, throw e) l = record { http = refuse e s; login = l }

  -- `perform`; `http_alive` and `ws_alive` say whether the sessions are still there.
  unfoldable pub perform : Bool → Bool → RequestHeaders → Upgrade → Upgrade
  unfolding shake_hands after_hands send_default
  perform http_alive ws_alive req u =
      if not http_alive || u.http.is_shutdown
      then u
      else if not ws_alive
      then record u { http = send_default 400 [] u.http }
      else after_hands req (shake_hands req u.http) u.login

-- a message of a client is counted, except that of a private address where these are exempt
unfoldable pub on_low_level_message_end :
    Arith64 → ℕ → ℕ → ℕ → Bool → Bool → Option ℕ → M IpContainer (Unit {0})
unfolding accumulate_websocket_request
on_low_level_message_end lib now duration max exempt_private is_private key =
    if exempt_private && is_private
    then return tt
    else accumulate_websocket_request lib now duration max key
