-- ===== src/Gate/HttpSession/Forwarding.antt =====
-- circe-gate/circe-gate/src/client_http_session.cpp: what reaches a foyer.
use poseidon_circe.Prelude.{ℕ, refl, List, [], ◌∷◌, Option}
use poseidon_circe.Prelude.Bytes.{Bytes}
use poseidon_circe.Gate.BanList.{IpContainer}
use poseidon_circe.Gate.HttpSession.{Env, HttpSession, new_http_session, RequestHeaders}
use poseidon_circe.Gate.HttpSession.Authorized.{
  IsAuthorized, Keeps-on_low_level_request_end, Keeps-on_sync_expect, Keeps-on_sync_request,
}
use poseidon_circe.Gate.HttpSession.Requests.{
  on_low_level_request_end, on_sync_expect, on_sync_request,
}

-- A callback of the framework, with what it meets.
pub data Callback : Type 0 where
  request_end expects : RequestHeaders → Callback
  requests : RequestHeaders → Bytes → Callback

unfoldable pub step : HttpSession → Env × Callback → HttpSession
step s (env, request_end req) = (on_low_level_request_end env req s).0
step s (env, expects req) = (on_sync_expect env req s).0
step s (env, requests req entity) = (on_sync_request env req entity s).0

unfoldable pub run : HttpSession → List (Env × Callback) → HttpSession
unfolding step
run s [] = s
run s (c ∷ cs) = run (step s c) cs

step-IsAuthorized :
    (client : ℕ) (s : HttpSession) (c : Env × Callback)
    → IsAuthorized client s
    → IsAuthorized client (step s c)
unfolding step
step-IsAuthorized client s (env, request_end req) =
    (Keeps-on_low_level_request_end client env req).holds s
step-IsAuthorized client s (env, expects req) = (Keeps-on_sync_expect client env req).holds s
step-IsAuthorized client s (env, requests req entity) =
    (Keeps-on_sync_request client env req entity).holds s

run-keeps :
    (client : ℕ) (s : HttpSession) (cs : List (Env × Callback))
    → IsAuthorized client s
    → IsAuthorized client (run s cs)
unfolding run
run-keeps client s [] v = v
run-keeps client s (c ∷ cs) v = run-keeps client (step s c) cs (step-IsAuthorized client s c v)

-- Whatever callbacks a session has met since it was new: its token and those of the requests that it
-- has forwarded to a foyer are not empty, and an auth server has given each in answer to a request
-- about this client, whose UUID the session keeps.
pub run-IsAuthorized :
    (client_uuid : ℕ) (remote_ip : Bytes) (key : Option ℕ) (addresses : IpContainer)
    (cs : List (Env × Callback))
    → IsAuthorized client_uuid (run (new_http_session client_uuid remote_ip key addresses) cs)
run-IsAuthorized client_uuid remote_ip key addresses cs =
    run-keeps client_uuid (new_http_session client_uuid remote_ip key addresses) cs
      (record { is_client = refl; held = λ token e. cc; used = tt })
