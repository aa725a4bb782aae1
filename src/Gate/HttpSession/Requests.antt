-- ===== src/Gate/HttpSession/Requests.antt =====
-- circe-gate/circe-gate/src/client_http_session.cpp: the callbacks for a request, from its headers
-- to its response. What the framework's own `on_low_level_request_end` and `on_sync_expect` do after
-- them is left out.
use poseidon_circe.Prelude.{
  ℕ, [], ◌∷◌, ◌++◌, Bool, true, false, not, ◌&&◌, if◌then◌else◌, Option, none, some, ◌==◌, is_empty,
  leb, ◌+◌,
}
use poseidon_circe.Prelude.Bytes.{Bytes, codes}
use poseidon_circe.Prelude.State.{
  M, Result, ok, throw, exception, assertion, http_exception, ◌>>=◌, ◌>>◌, return, fail, require,
}
use poseidon_circe.Protocol.Common.{
  Verb, verb_options, verb_get, verb_put, verb_delete, verb_head, verb_post, verb_other,
}
use poseidon_circe.Protocol.Foyer
use poseidon_circe.Interserver.Sessions.{pick}
use poseidon_circe.Interserver.Connector.{get_all_clients}
use poseidon_circe.Gate.BanList.{get_ban_time_remaining, accumulate_http_request}
use poseidon_circe.Gate.HttpSession.{
  Env, HttpSession, RequestHeaders, ResponseHeaders, ContentEncoding, not_acceptable, response,
  default_and_shutdown, ask, modify, status_of, sync_decode_uri, set_all, sync_authenticate,
  make_retry_after_headers,
}
use poseidon_circe.Gate.HttpSession.Response.{complete}

-- `strcasecmp(s, t) == 0`, where `t` is in lower case
unfoldable pub lower : ℕ → ℕ
lower c = if leb 65 c && leb c 90 then c + 32 else c

unfoldable pub strcasecmp_eq : Bytes → Bytes → Bool
unfolding lower
strcasecmp_eq [] [] = true
strcasecmp_eq [] (d ∷ t) = false
strcasecmp_eq (c ∷ s) [] = false
strcasecmp_eq (c ∷ s) (d ∷ t) = lower c == d && strcasecmp_eq s t

-- how `on_low_level_request_end` ends
pub data RequestEnd : Type 0 where
  answered upgraded passed : RequestEnd

-- the verbs that are authenticated and forwarded
unfoldable pub is_forwarded : Verb → Bool
is_forwarded verb_options = false
is_forwarded verb_get = true
is_forwarded verb_put = true
is_forwarded verb_delete = true
is_forwarded verb_head = true
is_forwarded verb_post = true
is_forwarded (verb_other n) = false

unfoldable pub has_entity : Verb → Bool
has_entity verb_put = true
has_entity verb_post = true
has_entity verb_options = false
has_entity verb_get = false
has_entity verb_delete = false
has_entity verb_head = false
has_entity (verb_other n) = false

unfoldable pub is_head : Verb → Bool
is_head verb_head = true
is_head verb_put = false
is_head verb_post = false
is_head verb_options = false
is_head verb_get = false
is_head verb_delete = false
is_head (verb_other n) = false

unfoldable pub is_options : Verb → Bool
is_options verb_options = true
is_options verb_head = false
is_options verb_put = false
is_options verb_post = false
is_options verb_get = false
is_options verb_delete = false
is_options (verb_other n) = false

module _ (env : Env) where
  unfoldable pub ban_time : HttpSession → Result ℕ
  ban_time s = get_ban_time_remaining env.arith64 env.now s.key s.banned

  unfoldable pub count_request : M HttpSession (Unit {0})
  count_request s =
      if env.exempt_private && env.is_private
      then (s, ok tt)
      else (let (banned, r) =
            accumulate_http_request env.arith64 env.now env.ban_duration env.max_http_requests s.key
              s.banned in
          (record s { banned = banned }, r))

  -- after the check of the ban
  unfoldable pub end_request : RequestHeaders → M HttpSession RequestEnd
  unfolding strcasecmp_eq count_request codes
  end_request req =
      let upgrade_str = env.lib.get_header req.headers (codes "Upgrade") in
      if strcasecmp_eq upgrade_str (codes "websocket")
      then return upgraded
      else if not (is_empty upgrade_str)
      then fail (http_exception 501 [])
      else (do count_request; return passed)

  unfoldable pub turn_away : ℕ → HttpSession → HttpSession
  unfolding make_retry_after_headers
  turn_away time_remaining s = record s {
    sent = s.sent ++ default_and_shutdown 503 (make_retry_after_headers env time_remaining) ∷ [];
    is_shutdown = true;
  }

  unfoldable pub check_ban : RequestHeaders → ℕ → M HttpSession RequestEnd
  unfolding end_request turn_away
  check_ban req time_remaining =
      if not (time_remaining == 0)
      then (do modify (turn_away time_remaining); return answered)
      else (do modify (λ s. record s { first_request = false }); end_request req)

  unfoldable pub on_low_level_request_end : RequestHeaders → M HttpSession RequestEnd
  unfolding check_ban ban_time
  on_low_level_request_end req s =
      if s.first_request then (ask ban_time >>= check_ban req) s else end_request req s

  -- `m_decoded_uri.get()`
  abbrev get_uri : M HttpSession Bytes
  get_uri = ask (λ s. elim s.decoded_uri [ none ↦ throw assertion | some uri ↦ ok uri ])

  unfoldable pub on_sync_expect : RequestHeaders → M HttpSession (Unit {0})
  unfolding is_options is_forwarded sync_decode_uri sync_authenticate
  on_sync_expect req =
      if is_options req.verb
      then return tt
      else if is_forwarded req.verb
      then (do
        sync_decode_uri env req.uri
        decoded_uri ← get_uri
        sync_authenticate env req.verb decoded_uri req.get_params req.headers)
      else fail (http_exception 501 [])

  unfoldable pub or_decode : Bytes → Option Bytes → M HttpSession (Unit {0})
  unfolding sync_decode_uri
  or_decode uri none = sync_decode_uri env uri
  or_decode uri (some decoded_uri) = return tt

  -- `if(!m_decoded_uri)`
  unfoldable pub require_uri : Bytes → M HttpSession (Unit {0})
  unfolding or_decode
  require_uri uri s = or_decode uri s.decoded_uri s

  unfoldable pub or_authenticate : RequestHeaders → Option Bytes → M HttpSession (Unit {0})
  unfolding sync_authenticate
  or_authenticate req none = do
    decoded_uri ← get_uri
    sync_authenticate env req.verb decoded_uri req.get_params req.headers
  or_authenticate req (some auth_token) = return tt

  -- `if(!m_auth_token)`
  unfoldable pub require_token : RequestHeaders → M HttpSession (Unit {0})
  unfolding or_authenticate
  require_token req s = or_authenticate req s.auth_token s

  -- the request to the foyer, with `m_auth_token.get()` and `m_decoded_uri.get()`
  unfoldable pub send_to_foyer :
      ℕ
      → RequestHeaders
      → Bytes
      → Option Bytes
      → Option Bytes
      → M HttpSession Foyer.HttpResponseFromBox
  unfolding has_entity
  send_to_foyer foyer_conn req entity none uri s = (s, throw assertion)
  send_to_foyer foyer_conn req entity (some auth_token) none s = (s, throw assertion)
  send_to_foyer foyer_conn req entity (some auth_token) (some decoded_uri) s =
      let foyer_req : Foyer.HttpRequestToBox = record {
        client_uuid = s.client_uuid;
        client_ip = s.remote_ip;
        auth_token = auth_token;
        verb = req.verb;
        decoded_uri = decoded_uri;
        params = req.get_params;
        headers = req.headers;
        entity = if has_entity req.verb then entity else [];
      } in
      if env.foyer_accepts foyer_conn
      then (
        record s { forwarded = s.forwarded ++ (foyer_conn, foyer_req) ∷ [] },
        env.foyer_answer foyer_conn foyer_req,
      )
      else (s, throw exception)

  -- the response of the box, without its entity for a HEAD
  unfoldable pub take_response :
      RequestHeaders → Foyer.HttpResponseFromBox → Result (ResponseHeaders × Bytes)
  unfolding status_of set_all is_head
  take_response req foyer_resp = elim (status_of foyer_resp.status_code) [
    | throw e ↦ throw e
    | ok status_code ↦ ok (
      record { status_code = status_code; headers = set_all env [] foyer_resp.headers },
      if is_head req.verb then [] else foyer_resp.entity,
    )
  ]

  unfoldable pub forward : RequestHeaders → Bytes → M HttpSession (ResponseHeaders × Bytes)
  unfolding require_uri require_token send_to_foyer take_response
  forward req entity = do
    require_uri req.uri
    require_token req
    foyer_conn ← ask (λ s.
        pick (http_exception 502 []) env.random_foyer
          (get_all_clients env.expired [] env.foyer_connector).0)
    foyer_resp ← λ s. send_to_foyer foyer_conn req entity s.auth_token s.decoded_uri s
    ask (λ s. take_response req foyer_resp)

  unfoldable pub handle : RequestHeaders → Bytes → M HttpSession (ResponseHeaders × Bytes)
  unfolding is_options is_forwarded forward
  handle req entity =
      if is_options req.verb
      then return (record { status_code = 200; headers = [] }, [])
      else if is_forwarded req.verb
      then forward req entity
      else fail (http_exception 501 [])

  -- the response is sent, and the session forgets the request
  unfoldable pub send_and_reset : ResponseHeaders × Bytes → M HttpSession (Unit {0})
  send_and_reset (resp, entity) s = (
    record s { sent = s.sent ++ response resp entity ∷ []; decoded_uri = none; auth_token = none },
    ok tt,
  )

  unfoldable pub is_acceptable : ContentEncoding → Bool
  is_acceptable not_acceptable = false
  is_acceptable ContentEncoding.identity = true
  is_acceptable ContentEncoding.gzip = true
  is_acceptable ContentEncoding.deflate = true

  unfoldable pub on_sync_request : RequestHeaders → Bytes → M HttpSession (Unit {0})
  unfolding ban_time handle complete send_and_reset is_acceptable make_retry_after_headers
  on_sync_request req entity = do
    time_remaining ← ask ban_time
    require (time_remaining == 0) (http_exception 503 (make_retry_after_headers env time_remaining))
    let preferred = env.lib.pick_content_encoding req.headers
    require (is_acceptable preferred) (http_exception 406 [])
    (resp, resp_entity) ← handle req entity
    send_and_reset (complete env.lib preferred req.headers resp resp_entity)
