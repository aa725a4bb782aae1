-- ===== src/Gate/HttpSession/Authorized.antt =====
-- circe-gate/circe-gate/src/client_http_session.cpp: what its calls do to the tokens of a session.
use poseidon_circe.Prelude.{
  ℕ, ◌≡◌, ◌∙◌, ◌⊎◌, refl, subst, List, [], ◌∷◌, Bool, true, false, if◌then◌else◌, Option, none,
  some, All, All-snoc, All-map, ◌||◌, ◌&&◌, is_empty, if_lem, if_cases, inl, inr,
}
use poseidon_circe.Prelude.Bytes.{Bytes}
use poseidon_circe.Prelude.State.{
  M, Error, Result, ok, throw, ◌>>=◌, return, fail, require, proceed,
}
use poseidon_circe.Protocol.Common.{OptionMap, Verb}
use poseidon_circe.Protocol.Auth
use poseidon_circe.Protocol.Foyer
use poseidon_circe.Gate.HttpSession.{
  Env, HttpSession, RequestHeaders, ResponseHeaders, ask, modify, sync_decode_uri, receive_auth,
  ask_auth, take_token, try_authenticate, count_failure, or_count, sync_authenticate,
}
use poseidon_circe.Gate.HttpSession.Requests.{
  RequestEnd, ban_time, or_decode, or_authenticate, on_low_level_request_end, turn_away, check_ban,
  end_request, count_request, on_sync_expect, require_uri, require_token, send_to_foyer, forward,
  handle, send_and_reset, on_sync_request,
}

-- An auth server has answered a request about the client with the token.
abbrev pub Issued :
    ℕ → Bytes → List (Auth.HttpAuthenticationRequest × Auth.HttpAuthenticationResponse) → Type 0
Issued client token [] = ⊥
Issued client token ((req, resp) ∷ asked) =
    ((req.client_uuid ≡ client) × (resp.auth_token ≡ token)) ⊎ Issued client token asked

-- The token of the session and those of the requests that have been forwarded are not empty, and
-- were issued for the client.
pub record IsAuthorized (client : ℕ) (s : HttpSession) : Type 0 where
  pub is_client : s.client_uuid ≡ client
  pub held :
      (token : Bytes)
      → s.auth_token ≡ some token
      → Issued client token s.asked × (is_empty token ≡ false)
  pub used :
      All
        (λ e. Issued client e.1.auth_token s.asked × (is_empty e.1.auth_token ≡ false))
        s.forwarded

module _ (client : ℕ) where
  pub record Keeps {A : Type 0} (m : M HttpSession A) : Type 0 where
    pub holds : (s : HttpSession) → IsAuthorized client s → IsAuthorized client (m s).0

  abbrev After : {A : Type 0} → HttpSession × Result A → Type 0
  After r = IsAuthorized client r.0

  Keeps-ask : {A : Type 0} (f : HttpSession → Result A) → Keeps (ask f)
  Keeps-ask f = record { holds = λ s v. v }

  Keeps-return : {A : Type 0} (a : A) → Keeps (return {S = HttpSession} a)
  Keeps-return a = record { holds = λ s v. v }

  Keeps-fail : {A : Type 0} (e : Error) → Keeps (fail {S = HttpSession} {A = A} e)
  Keeps-fail e = record { holds = λ s v. v }

  proceed-Keeps :
      {A B : Type 0} (k : A → M HttpSession B) (r : HttpSession × Result A)
      → IsAuthorized client r.0
      → ((a : A) → Keeps (k a))
      → After (proceed k r)
  proceed-Keeps k (s, ok a) v h = (h a).holds s v
  proceed-Keeps k (s, throw e) v h = v

  Keeps-bind :
      {A B : Type 0} (m : M HttpSession A) (k : A → M HttpSession B)
      → Keeps m
      → ((a : A) → Keeps (k a))
      → Keeps (m >>= k)
  Keeps-bind m k h n = record { holds = λ s v. proceed-Keeps k (m s) (h.holds s v) n }

  Keeps-require : (b : Bool) (e : Error) → Keeps (require {S = HttpSession} b e)
  Keeps-require true e = record { holds = λ s v. v }
  Keeps-require false e = record { holds = λ s v. v }

  Keeps-if :
      {A : Type 0} (b : Bool) (m n : M HttpSession A)
      → Keeps m
      → Keeps n
      → Keeps (if b then m else n)
  Keeps-if b m n h k = if_lem Keeps b m n h k

  -- One more answer takes nothing back.
  grown :
      (s : HttpSession) (e : Auth.HttpAuthenticationRequest × Auth.HttpAuthenticationResponse)
      (is_shutdown : Bool)
      → IsAuthorized client s
      → IsAuthorized client (record s { asked = e ∷ s.asked; is_shutdown = is_shutdown })
  grown s e is_shutdown v = record {
    is_client = v.is_client;
    held = λ token h. (inr (v.held token h).0, (v.held token h).1);
    used =
        All-map
          (λ (x : ℕ × Foyer.HttpRequestToBox).
            Issued client x.1.auth_token s.asked × (is_empty x.1.auth_token ≡ false))
          (λ (x : ℕ × Foyer.HttpRequestToBox).
            Issued client x.1.auth_token (e ∷ s.asked) × (is_empty x.1.auth_token ≡ false))
          (λ x h. (inr h.0, h.1)) s.forwarded v.used;
  }

  module _ (env : Env) where
    pub Keeps-sync_decode_uri : (uri : Bytes) → Keeps (sync_decode_uri env uri)
    unfolding sync_decode_uri
    Keeps-sync_decode_uri uri = Keeps-bind _ _ (Keeps-ask _) (λ decoded_uri. record {
      holds = λ s v. record { is_client = v.is_client; held = v.held; used = v.used };
    })

    -- The token that is taken is the one that has just been issued.
    take_token-keeps :
        (s : HttpSession) (req : Auth.HttpAuthenticationRequest)
        (r : Result Auth.HttpAuthenticationResponse)
        → req.client_uuid ≡ s.client_uuid
        → IsAuthorized client s
        → After ((receive_auth env req r >>= take_token env) s)
    unfolding receive_auth take_token
    take_token-keeps s req (throw e) h v = record {
      is_client = v.is_client;
      held = v.held;
      used = v.used;
    }
    take_token-keeps s req (ok resp) h v =
        let s' = record s {
          asked = (req, resp) ∷ s.asked;
          is_shutdown = s.is_shutdown || env.shutdown_meanwhile;
        } in
        let v' = grown s (req, resp) s'.is_shutdown v in
        if_cases After (is_empty resp.auth_token) _ _ (λ e. v')
          (λ e. if_lem After s'.is_shutdown _ _ v' (record {
            is_client = v.is_client;
            held = λ token g.
                let i : resp.auth_token ≡ token = cc in
                (inl (h ∙ v.is_client, i), subst (λ t. is_empty t ≡ false) i e);
            used = v'.used;
          }))

    pub Keeps-answered :
        (auth_conn : ℕ) (verb : Verb) (decoded_uri : Bytes) (params headers : OptionMap)
        → Keeps (ask_auth env auth_conn verb decoded_uri params headers >>= take_token env)
    unfolding ask_auth
    Keeps-answered auth_conn verb decoded_uri params headers = record {
      holds = λ s v. take_token-keeps s _ _ refl v;
    }

    pub Keeps-try_authenticate :
        (verb : Verb) (decoded_uri : Bytes) (params headers : OptionMap)
        → Keeps (try_authenticate env verb decoded_uri params headers)
    unfolding try_authenticate
    Keeps-try_authenticate verb decoded_uri params headers =
        search (Keeps-require, Keeps-ask, Keeps-bind, Keeps-answered)

    or_count-keeps : (r : HttpSession × Result (Unit {0})) → After r → After (or_count env r)
    unfolding or_count count_failure
    or_count-keeps (s, ok u) v = v
    or_count-keeps (s, throw e) v = record { is_client = v.is_client; held = v.held; used = v.used }

    pub Keeps-sync_authenticate :
        (verb : Verb) (decoded_uri : Bytes) (params headers : OptionMap)
        → Keeps (sync_authenticate env verb decoded_uri params headers)
    unfolding sync_authenticate
    Keeps-sync_authenticate verb decoded_uri params headers = record {
      holds = λ s v.
          or_count-keeps (try_authenticate env verb decoded_uri params headers s)
            ((Keeps-try_authenticate verb decoded_uri params headers).holds s v);
    }

    pub Keeps-count_request : Keeps (count_request env)
    unfolding count_request
    Keeps-count_request = record {
      holds = λ s v.
          if_lem After (env.exempt_private && env.is_private) _ _ v
            (record { is_client = v.is_client; held = v.held; used = v.used });
    }

    send_to_foyer-keeps :
        (foyer_conn : ℕ) (req : RequestHeaders) (entity : Bytes) (token uri : Option Bytes)
        (s : HttpSession)
        → s.auth_token ≡ token
        → IsAuthorized client s
        → After (send_to_foyer env foyer_conn req entity token uri s)
    unfolding send_to_foyer
    send_to_foyer-keeps foyer_conn req entity none uri s e v = v
    send_to_foyer-keeps foyer_conn req entity (some token) none s e v = v
    send_to_foyer-keeps foyer_conn req entity (some token) (some uri) s e v =
        if_lem After (env.foyer_accepts foyer_conn) _ _
          (record {
            is_client = v.is_client;
            held = v.held;
            used = All-snoc _ s.forwarded _ v.used (v.held token e);
          })
          v

    pub Keeps-send_to_foyer :
        (foyer_conn : ℕ) (req : RequestHeaders) (entity : Bytes)
        → Keeps (λ s. send_to_foyer env foyer_conn req entity s.auth_token s.decoded_uri s)
    Keeps-send_to_foyer foyer_conn req entity = record {
      holds = λ s v. send_to_foyer-keeps foyer_conn req entity s.auth_token s.decoded_uri s refl v;
    }

    pub Keeps-turn_away : (time_remaining : ℕ) → Keeps (modify (turn_away env time_remaining))
    unfolding turn_away
    Keeps-turn_away time_remaining = record {
      holds = λ s v. record { is_client = v.is_client; held = v.held; used = v.used };
    }

    pub Keeps-not_first : Keeps (modify (λ s. record s { first_request = false }))
    Keeps-not_first = record {
      holds = λ s v. record { is_client = v.is_client; held = v.held; used = v.used };
    }

    pub Keeps-send_and_reset : (r : ResponseHeaders × Bytes) → Keeps (send_and_reset env r)
    unfolding send_and_reset
    Keeps-send_and_reset (resp, entity) = record {
      holds = λ s v. record { is_client = v.is_client; held = λ token e. cc; used = v.used };
    }

    ruleset keeps = (
      Keeps-if, Keeps-require, Keeps-ask, Keeps-return, Keeps-fail, Keeps-bind,
      Keeps-sync_decode_uri, Keeps-sync_authenticate, Keeps-count_request, Keeps-send_to_foyer,
      Keeps-turn_away, Keeps-not_first, Keeps-send_and_reset,
    )

    pub Keeps-end_request : (req : RequestHeaders) → Keeps (end_request env req)
    unfolding end_request
    Keeps-end_request req = search keeps

    pub Keeps-check_ban :
        (req : RequestHeaders) (time_remaining : ℕ) → Keeps (check_ban env req time_remaining)
    unfolding check_ban
    Keeps-check_ban req time_remaining = search (keeps, Keeps-end_request)

    pub Keeps-on_low_level_request_end :
        (req : RequestHeaders) → Keeps (on_low_level_request_end env req)
    unfolding on_low_level_request_end
    Keeps-on_low_level_request_end req = record {
      holds = λ s v.
          if_lem (After {A = RequestEnd}) s.first_request _ _
            ((Keeps-bind (ask (ban_time env)) (check_ban env req) (Keeps-ask (ban_time env))
                (Keeps-check_ban req)).holds
              s v)
            ((Keeps-end_request req).holds s v);
    }

    pub Keeps-or_decode : (uri : Bytes) (o : Option Bytes) → Keeps (or_decode env uri o)
    unfolding or_decode
    Keeps-or_decode uri none = Keeps-sync_decode_uri uri
    Keeps-or_decode uri (some d) = Keeps-return tt

    pub Keeps-require_uri : (uri : Bytes) → Keeps (require_uri env uri)
    unfolding require_uri
    Keeps-require_uri uri = record { holds = λ s. (Keeps-or_decode uri s.decoded_uri).holds s }

    pub Keeps-or_authenticate :
        (req : RequestHeaders) (o : Option Bytes) → Keeps (or_authenticate env req o)
    unfolding or_authenticate
    Keeps-or_authenticate req none = search keeps
    Keeps-or_authenticate req (some t) = Keeps-return tt

    pub Keeps-require_token : (req : RequestHeaders) → Keeps (require_token env req)
    unfolding require_token
    Keeps-require_token req = record {
      holds = λ s. (Keeps-or_authenticate req s.auth_token).holds s;
    }

    pub Keeps-forward : (req : RequestHeaders) (entity : Bytes) → Keeps (forward env req entity)
    unfolding forward
    Keeps-forward req entity = search (keeps, Keeps-require_uri, Keeps-require_token)

    pub Keeps-handle : (req : RequestHeaders) (entity : Bytes) → Keeps (handle env req entity)
    unfolding handle
    Keeps-handle req entity = search (keeps, Keeps-forward)

    pub Keeps-on_sync_expect : (req : RequestHeaders) → Keeps (on_sync_expect env req)
    unfolding on_sync_expect
    Keeps-on_sync_expect req = search keeps

    pub Keeps-on_sync_request :
        (req : RequestHeaders) (entity : Bytes) → Keeps (on_sync_request env req entity)
    unfolding on_sync_request
    Keeps-on_sync_request req entity = search (keeps, Keeps-handle)
