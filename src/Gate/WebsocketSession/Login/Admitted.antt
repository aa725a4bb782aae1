-- ===== src/Gate/WebsocketSession/Login/Admitted.antt =====
-- circe-gate/circe-gate/src/client_websocket_session.cpp: what a client that is admitted has been
-- through.
use poseidon_circe.Prelude.{
  ℕ, ◌≡◌, ◌≢◌, ◌⊎◌, refl, inl, inr, if_cases, if_lem, List, [], ◌∷◌, Bool, true, false, none, some,
  is_empty, is_some, not, ◌||◌, arith,
}
use poseidon_circe.Prelude.Bytes.{Bytes}
use poseidon_circe.Prelude.State.{
  M, Error, Result, ok, throw, fail, ◌>>=◌, proceed, require, websocket_exception,
}
use poseidon_circe.Protocol.Common.{OptionMap, WebsocketFrame}
use poseidon_circe.Protocol.Auth
use poseidon_circe.Protocol.Foyer
use poseidon_circe.Interserver.Sessions.{pick}
use poseidon_circe.Interserver.Connector.{Connector, get_all_clients}
use poseidon_circe.Gate.HttpSession.{status_of}
use poseidon_circe.Gate.WebsocketSession.Login.{
  Login, LoginEnv, ask_auth, send_messages, admit, attach, establish, take_token, try_authenticate,
  or_count, sync_authenticate,
}

-- The last request to a foyer has been answered: it was for the client, with the token, and the
-- session keeps the connection and the box.
pub record IsEstablished (token : Bytes) (l : Login) : Type 0 where
  pub foyer_conn : ℕ
  pub req : Foyer.WebsocketEstablishmentRequestToBox
  pub resp : Foyer.WebsocketEstablishmentResponseFromBox
  pub earlier :
      List
        (ℕ × Foyer.WebsocketEstablishmentRequestToBox × Foyer.WebsocketEstablishmentResponseFromBox)
  pub answered : l.establishments ≡ (foyer_conn, req, resp) ∷ earlier
  pub with_token : req.auth_token ≡ token
  pub for_client : req.client_uuid ≡ l.session.client_uuid
  pub kept : l.session.weak_foyer_conn ≡ some foyer_conn
  pub boxed : l.session.box_uuid ≡ some resp.box_uuid

abbrev pub IsStranger : Login → Type 0
IsStranger l = l.session.auth_token ≡ none

pub record IsAdmitted (l : Login) : Type 0 where
  pub token : Bytes
  pub held : l.session.auth_token ≡ some token
  pub present : is_empty token ≡ false
  pub established : IsEstablished token l

-- what a call that returns makes true; one that throws leaves the client a stranger
abbrev Outcome : {A : Type 0} → (A → Login → Type 0) → Login × Result A → Type 0
Outcome Q (l, ok a) = Q a l
Outcome Q (l, throw e) = IsStranger l

record Runs {A : Type 0} (P : Login → Type 0) (m : M Login A) (Q : A → Login → Type 0)
    : Type 0 where
  holds : (l : Login) → P l → Outcome Q (m l)

proceed-Outcome :
    {A B : Type 0} (Q : A → Login → Type 0) (R : B → Login → Type 0) (k : A → M Login B)
    (r : Login × Result A)
    → Outcome Q r
    → ((a : A) → Runs (Q a) (k a) R)
    → Outcome R (proceed k r)
proceed-Outcome Q R k (l, ok a) q h = (h a).holds l q
proceed-Outcome Q R k (l, throw e) q h = q

Runs-bind :
    {A B : Type 0} (P : Login → Type 0) (Q : A → Login → Type 0) (R : B → Login → Type 0)
    (m : M Login A) (k : A → M Login B)
    → Runs P m Q
    → ((a : A) → Runs (Q a) (k a) R)
    → Runs P (m >>= k) R
Runs-bind P Q R m k h g = record { holds = λ l p. proceed-Outcome Q R k (m l) (h.holds l p) g }

-- a call that leaves the session alone, under what holds of it
reads :
    {A : Type 0} (P : Login → Type 0) (f : Login → Result A)
    → ((l : Login) → P l → IsStranger l)
    → Runs P (λ l. (l, f l)) (λ a. P)
reads P f h = record { holds = λ l p. read P (f l) l p (h l p) }
  where
    read :
        {A : Type 0} (P : Login → Type 0) (r : Result A) (l : Login)
        → P l
        → IsStranger l
        → Outcome (λ a. P) (l, r)
    read P (ok a) l p s = p
    read P (throw e) l p s = s

module _ (env : LoginEnv) (decoded_uri : Bytes) (params : OptionMap) where
  abbrev HasToken : Bytes → Login → Type 0
  HasToken token l = IsStranger l × (is_empty token ≡ false)

  abbrev HasBox : Bytes → Login → Type 0
  HasBox token l = HasToken token l × IsEstablished token l

  require-Runs : (b : Bool) (e : Error) → Runs IsStranger (require b e) (λ u. IsStranger)
  require-Runs true e = record { holds = λ l p. p }
  require-Runs false e = record { holds = λ l p. p }

  send_messages-Runs :
      (messages : List WebsocketFrame)
      → Runs IsStranger (send_messages env decoded_uri params messages) (λ u. IsStranger)
  unfolding send_messages
  send_messages-Runs messages = record { holds = λ l p. p }

  refused :
      (token : Bytes) (r : Result ℕ) (l : Login)
      → IsStranger l
      → Outcome
          (λ (u : Unit {0}). HasToken token)
          ((elim r as (λ x. M Login (Unit {0})) [
            | ok status_code ↦ fail (websocket_exception status_code)
            | throw e ↦ fail e
          ])
            l)
  refused token (ok status_code) l p = p
  refused token (throw e) l p = p

  admit-Runs :
      (resp : Auth.WebsocketAuthenticationResponse)
      → Runs IsStranger (admit env decoded_uri params resp) (λ u. HasToken resp.auth_token)
  unfolding admit
  admit-Runs resp = record {
    holds = λ l p.
        if_cases
          (λ (m : M Login (Unit {0})). Outcome (λ (u : Unit {0}). HasToken resp.auth_token) (m l))
          (not (is_empty resp.auth_token)) _ _ (λ e. (p, ground arith))
          (λ e. refused resp.auth_token (status_of resp.status_code) l p);
  }

  attach-Runs :
      (foyer_conn : ℕ) (token : Bytes) (req : Foyer.WebsocketEstablishmentRequestToBox)
      (r : Result Foyer.WebsocketEstablishmentResponseFromBox) (l : Login)
      → req.auth_token ≡ token
      → req.client_uuid ≡ l.session.client_uuid
      → HasToken token l
      → Outcome (λ (u : Unit {0}). HasBox token) (attach env decoded_uri params foyer_conn req r l)
  unfolding attach
  attach-Runs foyer_conn token req (throw e) l t c p = p.0
  attach-Runs foyer_conn token req (ok resp) l t c p = (
    p,
    record {
      foyer_conn = foyer_conn;
      req = req;
      resp = resp;
      earlier = l.establishments;
      answered = refl;
      with_token = t;
      for_client = c;
      kept = refl;
      boxed = refl;
    },
  )

  establish-Runs :
      (foyer_conn : ℕ) (token : Bytes)
      → Runs
          (HasToken token)
          (establish env decoded_uri params foyer_conn token)
          (λ u. HasBox token)
  unfolding establish
  establish-Runs foyer_conn token = record {
    holds = λ l p. attach-Runs foyer_conn token _ _ l refl refl p;
  }

  take_token-Runs :
      (token : Bytes)
      → Runs (HasBox token) (take_token env decoded_uri params token) (λ u. IsAdmitted)
  unfolding take_token
  take_token-Runs token = record {
    holds = λ l p.
        if_lem (Outcome (λ (u : Unit {0}). IsAdmitted))
          (is_some l.session.shutdown_code || env.shutdown_meanwhile) _ _ p.0.0
          (record {
            token = token;
            held = refl;
            present = p.0.1;
            established = record {
              foyer_conn = p.1.foyer_conn;
              req = p.1.req;
              resp = p.1.resp;
              earlier = p.1.earlier;
              answered = p.1.answered;
              with_token = p.1.with_token;
              for_client = p.1.for_client;
              kept = p.1.kept;
              boxed = p.1.boxed;
            };
          });
  }

  ask_auth-Runs :
      (auth_conn : ℕ)
      → Runs IsStranger (ask_auth env decoded_uri params auth_conn) (λ resp. IsStranger)
  unfolding ask_auth
  ask_auth-Runs auth_conn =
      reads IsStranger
        (λ l. env.auth_answer auth_conn (record {
          client_uuid = l.session.client_uuid;
          client_ip = env.remote_ip;
          decoded_uri = decoded_uri;
          params = params;
        }))
        (λ l p. p)

  abbrev chosen : ℕ → Connector → Result ℕ
  chosen random connector =
      pick (websocket_exception env.status.going_away) random
        (get_all_clients env.expired [] connector).0

  try_authenticate-Runs :
      Runs IsStranger (try_authenticate env decoded_uri params) (λ u. IsAdmitted)
  unfolding try_authenticate
  try_authenticate-Runs =
      Runs-bind _ _ _ _ _
        (require-Runs env.websocket_enabled (websocket_exception env.status.going_away))
        (λ u.
          Runs-bind _ _ _ _ _
            (reads IsStranger (λ l. chosen env.random_auth env.auth_connector) (λ l p. p))
            (λ auth_conn. Runs-bind _ _ _ _ _ (ask_auth-Runs auth_conn) (λ resp.
              Runs-bind _ _ _ _ _ (send_messages-Runs resp.messages) (λ u.
                Runs-bind _ _ _ _ _ (admit-Runs resp) (λ u.
                  Runs-bind _ _ _ _ _
                    (reads (HasToken resp.auth_token)
                      (λ l. chosen env.random_foyer env.foyer_connector) (λ l p. p.0))
                    (λ foyer_conn.
                      Runs-bind _ _ _ _ _ (establish-Runs foyer_conn resp.auth_token)
                        (λ u. take_token-Runs resp.auth_token)))))))

  not_ok :
      (e : Error) (r : Result (Unit {0}))
      → (elim r as (λ x. Result (Unit {0})) [ ok u ↦ throw e | throw e' ↦ throw e' ]) ≢ ok tt
  not_ok e (ok u) h = cc
  not_ok e (throw e') h = cc

  counted :
      (r : Login × Result (Unit {0}))
      → Outcome (λ u. IsAdmitted) r
      → let r' = or_count env decoded_uri params r in
        ((r'.1 ≡ ok tt) × IsAdmitted r'.0) ⊎ ((r'.1 ≢ ok tt) × IsStranger r'.0)
  unfolding or_count
  counted (l, ok u) q = inl (refl, q)
  counted (l, throw e) q = inr (not_ok e _, q)

  -- A client without a token is let in, and then has one that is not empty, with which a foyer has
  -- taken its session to the box that the session keeps; or the call throws and it has none.
  pub sync_authenticate_lem :
      (l : Login)
      → IsStranger l
      → let r = sync_authenticate env decoded_uri params l in
        ((r.1 ≡ ok tt) × IsAdmitted r.0) ⊎ ((r.1 ≢ ok tt) × IsStranger r.0)
  unfolding sync_authenticate
  sync_authenticate_lem l p =
      counted (try_authenticate env decoded_uri params l) (try_authenticate-Runs.holds l p)
