-- ===== src/Gate/WebsocketSession/Login.antt =====
-- circe-gate/circe-gate/src/client_websocket_session.cpp: `sync_authenticate`, by which an auth server
-- admits a client and a box takes its session.
pub mod Admitted
use poseidon_circe.Prelude.{
  ℕ, List, [], ◌∷◌, ◌++◌, Bool, ◌||◌, not, if◌then◌else◌, Option, some, is_some, is_empty,
}
use poseidon_circe.Prelude.Bytes.{Bytes}
use poseidon_circe.Prelude.State.{
  M, Error, Result, ok, throw, exception, websocket_exception, ◌>>=◌, ◌>>◌, return, fail, require,
}
use poseidon_circe.Poseidon.{Arith64}
use poseidon_circe.Protocol.Common.{OptionMap, WebsocketFrame}
use poseidon_circe.Protocol.Auth
use poseidon_circe.Protocol.Foyer
use poseidon_circe.Interserver.Sessions.{pick}
use poseidon_circe.Interserver.Connector.{Connector, get_all_clients}
use poseidon_circe.Gate.BanList.{IpContainer, accumulate_auth_failure}
use poseidon_circe.Gate.HttpSession.{status_of}
use poseidon_circe.Gate.WebsocketSession.{StatusCodes, WebsocketSession}

-- `banned` is the ban list, `sent` the messages to the client; `establishments` are the requests
-- to a foyer that have been answered, with the connection and the answer.
pub record Login : Type 0 where
  pub session : WebsocketSession
  pub banned : IpContainer
  pub sent : List WebsocketFrame
  pub establishments :
      List
        (ℕ × Foyer.WebsocketEstablishmentRequestToBox × Foyer.WebsocketEstablishmentResponseFromBox)

-- what a call meets, as in `Gate.HttpSession`
pub record LoginEnv : Type 0 where
  pub status : StatusCodes
  pub arith64 : Arith64
  pub now : ℕ
  pub ban_duration : ℕ
  pub max_auth_failures : ℕ
  pub remote_ip : Bytes
  pub key : Option ℕ
  pub websocket_enabled : Bool
  pub expired : ℕ → Bool
  pub auth_connector : Connector
  pub foyer_connector : Connector
  pub random_auth : ℕ
  pub random_foyer : ℕ
  pub auth_answer :
      ℕ → Auth.WebsocketAuthenticationRequest → Result Auth.WebsocketAuthenticationResponse
  pub foyer_answer :
      ℕ
      → Foyer.WebsocketEstablishmentRequestToBox
      → Result Foyer.WebsocketEstablishmentResponseFromBox
  pub shutdown_meanwhile : Bool

module _ (env : LoginEnv) (decoded_uri : Bytes) (params : OptionMap) where
  abbrev gone : Error
  gone = websocket_exception env.status.going_away

  unfoldable pub ask_auth : ℕ → M Login Auth.WebsocketAuthenticationResponse
  ask_auth auth_conn l = (
    l,
    env.auth_answer auth_conn (record {
      client_uuid = l.session.client_uuid;
      client_ip = env.remote_ip;
      decoded_uri = decoded_uri;
      params = params;
    }),
  )

  unfoldable pub send_messages : List WebsocketFrame → M Login (Unit {0})
  send_messages messages l = (record l { sent = l.sent ++ messages }, ok tt)

  -- the check of the token
  unfoldable pub admit : Auth.WebsocketAuthenticationResponse → M Login (Unit {0})
  unfolding status_of
  admit auth_resp =
      if not (is_empty auth_resp.auth_token)
      then return tt
      else elim (status_of auth_resp.status_code) [
        | ok status_code ↦ fail (websocket_exception status_code)
        | throw e ↦ fail e
      ]

  -- from the answer of the foyer on, with `m_weak_foyer_conn` and `m_box_uuid`
  unfoldable pub attach :
      ℕ
      → Foyer.WebsocketEstablishmentRequestToBox
      → Result Foyer.WebsocketEstablishmentResponseFromBox
      → M Login (Unit {0})
  attach foyer_conn foyer_req (throw e) l = (l, throw e)
  attach foyer_conn foyer_req (ok foyer_resp) l = (
    record l {
      session = record (l.session) {
        weak_foyer_conn = some foyer_conn;
        box_uuid = some foyer_resp.box_uuid;
      };
      establishments = (foyer_conn, foyer_req, foyer_resp) ∷ l.establishments;
    },
    ok tt,
  )

  unfoldable pub establish : ℕ → Bytes → M Login (Unit {0})
  unfolding attach
  establish foyer_conn auth_token l =
      let foyer_req : Foyer.WebsocketEstablishmentRequestToBox = record {
        client_uuid = l.session.client_uuid;
        client_ip = env.remote_ip;
        auth_token = auth_token;
        decoded_uri = decoded_uri;
        params = params;
      } in
      attach foyer_conn foyer_req (env.foyer_answer foyer_conn foyer_req) l

  unfoldable pub take_token : Bytes → M Login (Unit {0})
  take_token auth_token l =
      if is_some l.session.shutdown_code || env.shutdown_meanwhile
      then (l, throw exception)
      else (record l { session = record (l.session) { auth_token = some auth_token } }, ok tt)

  unfoldable pub try_authenticate : M Login (Unit {0})
  unfolding ask_auth send_messages admit establish take_token
  try_authenticate = do
    require env.websocket_enabled gone
    auth_conn ←
        λ l. (l, pick gone env.random_auth (get_all_clients env.expired [] env.auth_connector).0)
    auth_resp ← ask_auth auth_conn
    send_messages auth_resp.messages
    admit auth_resp
    foyer_conn ←
        λ l. (l, pick gone env.random_foyer (get_all_clients env.expired [] env.foyer_connector).0)
    establish foyer_conn auth_resp.auth_token
    take_token auth_resp.auth_token

  -- `catch(...)`: the failure is counted, which may throw another exception
  unfoldable pub or_count : Login × Result (Unit {0}) → Login × Result (Unit {0})
  or_count (l, ok u) = (l, ok u)
  or_count (l, throw e) =
      let (banned, r) =
        accumulate_auth_failure env.arith64 env.now env.ban_duration env.max_auth_failures env.key
          l.banned in
      (record l { banned = banned }, elim r [ ok u ↦ throw e | throw e' ↦ throw e' ])

  unfoldable pub sync_authenticate : M Login (Unit {0})
  unfolding try_authenticate or_count
  sync_authenticate l = or_count (try_authenticate l)
