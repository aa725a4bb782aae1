-- ===== src/Box/Servlets.antt =====
-- circe-box/circe-box/src/servlets.cpp: what foyers ask of a box.
--
-- A user replaces singletons/user_defined_functions.cpp: its functions are a `UserDefinedFunctions`
-- and may do anything to the box. `foyer` says which sessions have a connection to their foyer.
use poseidon_circe.Prelude.{
  ℕ, suc, ◌^◌, ltb, List, [], ◌∷◌, Bool, if◌then◌else◌, Option, none, some, ◌==◌,
}
use poseidon_circe.Prelude.Int.{ℤ, pos, negsuc}
use poseidon_circe.Prelude.Bytes.{Bytes, codes, str_eq}
use poseidon_circe.Prelude.State.{
  M, Error, assertion, exception, protocol, http_exception, websocket_exception, Result, ok, throw,
  ◌>>◌, return, fail,
}
use poseidon_circe.Protocol.Common.{OptionMap, error_success, WebsocketFrame}
use poseidon_circe.Protocol.Box
use poseidon_circe.Interserver.Sessions.{Session, get_connection_uuid}
use poseidon_circe.Box.Session.{ShadowSession, init, mark_shutdown, shutdown}
use poseidon_circe.Box.Supervisor.{SessionContainer, attach_session, detach_session, get_session}

-- a `Websocket_shadow_session`, with its queue
pub record BoxSession : Type 0 where
  pub foyer_uuid : ℕ
  pub gate_uuid : ℕ
  pub client_uuid : ℕ
  pub client_ip : Bytes
  pub auth_token : Bytes
  pub queue : ShadowSession

-- `supervisor` is the container of the sessions that are attached, `sessions` the heap.
pub record BoxServer : Type 0 where
  pub supervisor : SessionContainer
  pub sessions : ℕ → BoxSession
  pub next_session : ℕ

-- The outputs of `handle_http_request` are kept where it throws.
pub record UserDefinedFunctions : Type 0 where
  pub handle_http_request : Box.HttpRequest → BoxServer → BoxServer × (OptionMap × Bytes) × Result ℕ
  pub handle_websocket_establishment : ℕ → Bytes → OptionMap → M BoxServer (Unit {0})
  pub handle_websocket_message : ℕ → WebsocketFrame → M BoxServer (Unit {0})
  pub handle_websocket_closure : ℕ → ℕ → Bytes → M BoxServer (Unit {0})

abbrev pub set_queue : ℕ → ShadowSession → BoxServer → BoxServer
set_queue p queue s = record s {
  sessions = λ q. if p == q then record (s.sessions p) { queue = queue } else s.sessions q;
}

-- the status code that a handler of exceptions gives to the client
unfoldable pub http_status_of : Error → ℕ
http_status_of assertion = 500
http_status_of exception = 500
http_status_of (protocol status_code) = 500
http_status_of (http_exception status_code headers) = status_code
http_status_of (websocket_exception status_code) = 500

unfoldable pub websocket_status_of : Error → ℕ
websocket_status_of assertion = 1011
websocket_status_of exception = 1011
websocket_status_of (protocol status_code) = 1011
websocket_status_of (http_exception status_code headers) = 1011
websocket_status_of (websocket_exception status_code) = status_code

-- `numeric_cast` to a status code
unfoldable pub cast_status : ℤ → Result ℕ
cast_status (pos n) = if ltb n (2 ^ 32) then ok n else throw exception
cast_status (negsuc n) = throw exception

module _ (user : UserDefinedFunctions) (set_header : OptionMap → Bytes → Bytes → OptionMap)
    (foyer : ℕ → Bool) where
  unfoldable pub http_response_of : (OptionMap × Bytes) × Result ℕ → Box.HttpResponse
  unfolding codes http_status_of
  http_response_of ((headers, entity), ok status_code) = record {
    status_code = pos status_code;
    headers = headers;
    entity = entity;
  }
  http_response_of ((headers, entity), throw e) = record {
    status_code = pos (http_status_of e);
    headers = set_header headers (codes "Connection") (codes "Close");
    entity = entity;
  }

  unfoldable pub http_request : Box.HttpRequest → M BoxServer Box.HttpResponse
  unfolding http_response_of
  http_request req s =
      let (s', output, r) = user.handle_http_request req s in
      (s', ok (http_response_of (output, r)))

  -- the new session, at the next address
  unfoldable pub make_session : ℕ → Box.WebsocketEstablishmentRequest → BoxServer → BoxServer
  unfolding init
  make_session foyer_uuid req s = record s {
    sessions = λ q.
        if s.next_session == q
        then record {
          foyer_uuid = foyer_uuid;
          gate_uuid = req.gate_uuid;
          client_uuid = req.client_uuid;
          client_ip = req.client_ip;
          auth_token = req.auth_token;
          queue = init;
        }
        else s.sessions q;
    next_session = suc s.next_session;
  }

  unfoldable pub attach : ℕ → M BoxServer (Unit {0})
  unfolding attach_session
  attach p s =
      let session = s.sessions p in
      let (supervisor, r) =
        attach_session
          (record {
            session = p;
            client_uuid = session.client_uuid;
            foyer_gate_uuid_pair = (session.foyer_uuid, session.gate_uuid);
          })
          s.supervisor in
      (record s { supervisor = supervisor }, r)

  -- `shadow_session->shutdown`
  unfoldable pub shut_down : ℕ → ℕ → BoxServer → BoxServer
  unfolding shutdown
  shut_down p status_code s = set_queue p (shutdown status_code (foyer p) (s.sessions p).queue).0 s

  -- the handlers of the exceptions
  unfoldable pub or_shut_down : ℕ → BoxServer × Result (Unit {0}) → BoxServer
  unfolding shut_down websocket_status_of
  or_shut_down p (s, ok u) = s
  or_shut_down p (s, throw e) = shut_down p (websocket_status_of e) s

  unfoldable pub admit : ℕ → Box.WebsocketEstablishmentRequest → M BoxServer (Unit {0})
  unfolding attach
  admit p req = do user.handle_websocket_establishment p req.decoded_uri req.params; attach p

  -- from the UUID of the connection on, which `get_connection_uuid` gives or throws
  unfoldable pub establish : Result ℕ → Box.WebsocketEstablishmentRequest → M BoxServer (Unit {0})
  unfolding admit or_shut_down make_session
  establish (throw e) req s = (s, throw e)
  establish (ok foyer_uuid) req s = (
    or_shut_down s.next_session (admit s.next_session req (make_session foyer_uuid req s)),
    ok tt,
  )

  unfoldable pub websocket_establishment_request :
      Session → Box.WebsocketEstablishmentRequest → M BoxServer (Unit {0})
  unfolding establish get_connection_uuid
  websocket_establishment_request connection req = establish (get_connection_uuid connection) req

  unfoldable pub tell_closure : ℕ → Result ℕ → Bytes → M BoxServer (Unit {0})
  tell_closure p (ok status_code) reason = user.handle_websocket_closure p status_code reason
  tell_closure p (throw e) reason = fail e

  -- The session that has been detached is told; what is thrown is caught.
  unfoldable pub closed : Option ℕ → Box.WebsocketClosureNotification → BoxServer → BoxServer
  unfolding mark_shutdown tell_closure cast_status
  closed none ntfy s = s
  closed (some p) ntfy s =
      (tell_closure p (cast_status ntfy.status_code) ntfy.reason
        (set_queue p (mark_shutdown (s.sessions p).queue) s)).0

  unfoldable pub websocket_closure_notification : Box.WebsocketClosureNotification → M BoxServer ℤ
  unfolding closed detach_session error_success
  websocket_closure_notification ntfy s =
      let (supervisor, session) = detach_session ntfy.client_uuid s.supervisor in
      (closed session ntfy (record s { supervisor = supervisor }), ok error_success)

  unfoldable pub handle_each : ℕ → List WebsocketFrame → M BoxServer (Unit {0})
  handle_each p [] = return tt
  handle_each p (frame ∷ frames) = do user.handle_websocket_message p frame; handle_each p frames

  unfoldable pub receive : Option ℕ → List WebsocketFrame → BoxServer → BoxServer
  unfolding handle_each or_shut_down
  receive none messages s = s
  receive (some p) messages s = or_shut_down p (handle_each p messages s)

  unfoldable pub websocket_packed_message_request :
      Box.WebsocketPackedMessageRequest → M BoxServer (Unit {0})
  unfolding receive get_session
  websocket_packed_message_request req s =
      (receive (get_session req.client_uuid s.supervisor) req.messages s, ok tt)

-- The functions that come with the source, for the user to replace; that for messages, which is for
-- testing, is an argument.
unfoldable pub handle_http_request :
    (OptionMap → Bytes → Bytes → OptionMap)
    → Box.HttpRequest
    → BoxServer
    → BoxServer × (OptionMap × Bytes) × Result ℕ
unfolding codes str_eq
handle_http_request set_header req s =
    if str_eq req.decoded_uri (codes "/favicon.ico") then (s, ([], []), ok 404) else (
      s,
      (
        set_header [] (codes "Content-Type") (codes "text/html"),
        codes
            "<html>  <head>    <title>Hello World!</title>  </head>  <body>    <h1>Hello World!</h1>  </body></html>",
      ),
      ok 200,
    )

abbrev pub supplied :
    (OptionMap → Bytes → Bytes → OptionMap)
    → (ℕ → WebsocketFrame → M BoxServer (Unit {0}))
    → UserDefinedFunctions
supplied set_header handle_websocket_message = record {
  handle_http_request = handle_http_request set_header;
  handle_websocket_establishment = λ p decoded_uri params. return tt;
  handle_websocket_message = handle_websocket_message;
  handle_websocket_closure = λ p status_code reason. return tt;
}
