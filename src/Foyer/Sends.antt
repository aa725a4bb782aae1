-- ===== src/Foyer/Sends.antt =====
-- circe-foyer/circe-foyer/src/servlets.cpp: rules for what a handler sends.
use poseidon_circe.Prelude.{
  ℕ, ◌≡◌, ◌∙◌, refl, sym, ap, List, [], ◌∷◌, ◌++◌, Bool, some, All, if_lem,
}
use poseidon_circe.Prelude.State.{M, Result, ok, throw, ◌>>=◌, return, proceed}
use poseidon_circe.Interserver.Acceptor.{Acceptor}
use poseidon_circe.Interserver.Sessions.{get_connection_uuid}
use poseidon_circe.Foyer.Servlets.{
  BoxMessage, http_request, establishment, closure, FoyerServer, GateMessage, ask, gate_uuid_of,
  box_uuid_of, choose_box, box_connection, gate_connection, send_to_box, send_to_gate,
}
use mathlib.Core.List.{append-nil, append_assoc}

-- the gate that a message to a box names
unfoldable pub gate_of : BoxMessage → ℕ
gate_of (http_request req) = req.gate_uuid
gate_of (establishment req) = req.gate_uuid
gate_of (closure ntfy) = ntfy.gate_uuid
gate_of (BoxMessage.packed_message req) = req.gate_uuid

-- What has been sent to boxes in between names one gate, and no connection has another UUID.
pub record NamesOnly (uuid : ℕ) (s s' : FoyerServer) : Type 0 where
  pub extra : List (ℕ × BoxMessage)
  pub appended : s'.to_boxes ≡ s.to_boxes ++ extra
  pub named : All (λ e. gate_of e.1 ≡ uuid) extra
  pub unmoved : s'.foyer_acceptor ≡ s.foyer_acceptor

All-append :
    (uuid : ℕ) (xs ys : List (ℕ × BoxMessage))
    → All (λ e. gate_of e.1 ≡ uuid) xs
    → All (λ e. gate_of e.1 ≡ uuid) ys
    → All (λ e. gate_of e.1 ≡ uuid) (xs ++ ys)
All-append uuid [] ys a b = b
All-append uuid (x ∷ xs) ys a b = (a.0, All-append uuid xs ys a.1 b)

pub NamesOnly-refl : (uuid : ℕ) (s : FoyerServer) → NamesOnly uuid s s
NamesOnly-refl uuid s = record {
  extra = [];
  appended = sym (append-nil s.to_boxes);
  named = tt;
  unmoved = refl;
}

pub NamesOnly-trans :
    (uuid : ℕ) (s t u : FoyerServer) → NamesOnly uuid s t → NamesOnly uuid t u → NamesOnly uuid s u
NamesOnly-trans uuid s t u h k = record {
  extra = h.extra ++ k.extra;
  appended =
      k.appended
      ∙ ap (λ (l : List (ℕ × BoxMessage)). l ++ k.extra) h.appended
      ∙ append_assoc s.to_boxes h.extra k.extra;
  named = All-append uuid h.extra k.extra h.named k.named;
  unmoved = k.unmoved ∙ h.unmoved;
}

-- A call made for the connection that has the UUID: the messages to boxes name it.
pub record Names {A : Type 0} (connection uuid : ℕ) (m : M FoyerServer A) : Type 0 where
  pub holds :
      (s : FoyerServer)
      → (s.foyer_acceptor.sessions connection).connection_uuid ≡ some uuid
      → NamesOnly uuid s (m s).0

module _ (connection uuid : ℕ) where
  pub Names-return : {A : Type 0} (a : A) → Names connection uuid (return {S = FoyerServer} a)
  Names-return a = record { holds = λ s e. NamesOnly-refl uuid s }

  pub Names-ask : {A : Type 0} (f : FoyerServer → Result A) → Names connection uuid (ask f)
  Names-ask f = record { holds = λ s e. NamesOnly-refl uuid s }

  proceed-NamesOnly :
      {A B : Type 0} (s : FoyerServer) (k : A → M FoyerServer B) (r : FoyerServer × Result A)
      → (s.foyer_acceptor.sessions connection).connection_uuid ≡ some uuid
      → NamesOnly uuid s r.0
      → ((a : A) → Names connection uuid (k a))
      → NamesOnly uuid s (proceed k r).0
  proceed-NamesOnly s k (t, ok a) e h n =
      NamesOnly-trans uuid s t (k a t).0 h (
        (n a).holds t
          (ap (λ (b : Acceptor). (b.sessions connection).connection_uuid) h.unmoved ∙ e))
  proceed-NamesOnly s k (t, throw x) e h n = h

  pub Names-bind :
      {A B : Type 0} (m : M FoyerServer A) (k : A → M FoyerServer B)
      → Names connection uuid m
      → ((a : A) → Names connection uuid (k a))
      → Names connection uuid (m >>= k)
  Names-bind m k h n = record { holds = λ s e. proceed-NamesOnly s k (m s) e (h.holds s e) n }

  -- The UUID that is read is that of the connection.
  pub Names-gate_uuid_of :
      {B : Type 0} (k : ℕ → M FoyerServer B)
      → Names connection uuid (k uuid)
      → Names connection uuid (gate_uuid_of connection >>= k)
  unfolding gate_uuid_of get_connection_uuid
  Names-gate_uuid_of k n = record { holds = λ s e. rw e (n.holds s e) }

  pub Names-box_uuid_of : (p : ℕ) → Names connection uuid (box_uuid_of p)
  unfolding box_uuid_of
  Names-box_uuid_of p = record { holds = λ s e. NamesOnly-refl uuid s }

  module _ (expired accepts : ℕ → Bool) where
    pub Names-choose_box : (random : ℕ) → Names connection uuid (choose_box expired accepts random)
    unfolding choose_box
    Names-choose_box random = record { holds = λ s e. NamesOnly-refl uuid s }

    pub Names-box_connection :
        (box_uuid : ℕ) → Names connection uuid (box_connection expired accepts box_uuid)
    unfolding box_connection
    Names-box_connection box_uuid = record { holds = λ s e. NamesOnly-refl uuid s }

    pub Names-gate_connection :
        (gate_uuid : ℕ) → Names connection uuid (gate_connection expired accepts gate_uuid)
    unfolding gate_connection
    Names-gate_connection gate_uuid = record { holds = λ s e. NamesOnly-refl uuid s }

    pub Names-send_to_box :
        {A : Type 0} (p : ℕ) (msg : BoxMessage) (answer : Result A)
        → gate_of msg ≡ uuid
        → Names connection uuid (send_to_box expired accepts p msg answer)
    unfolding send_to_box
    Names-send_to_box {A} p msg answer e = record {
      holds = λ s h.
          if_lem (λ (r : FoyerServer × Result A). NamesOnly uuid s r.0) (accepts p) _ _
            (record { extra = (p, msg) ∷ []; appended = refl; named = (e, tt); unmoved = refl })
            (NamesOnly-refl uuid s);
    }

    pub Names-send_to_gate :
        {A : Type 0} (p : ℕ) (msg : GateMessage) (answer : Result A)
        → Names connection uuid (send_to_gate expired accepts p msg answer)
    unfolding send_to_gate
    Names-send_to_gate {A} p msg answer = record {
      holds = λ s h.
          if_lem (λ (r : FoyerServer × Result A). NamesOnly uuid s r.0) (accepts p) _ _
            (record {
              extra = [];
              appended = sym (append-nil s.to_boxes);
              named = tt;
              unmoved = refl;
            })
            (NamesOnly-refl uuid s);
    }

pub ruleset names = (
  Names-return, Names-bind, Names-gate_uuid_of, Names-box_uuid_of, Names-choose_box,
  Names-box_connection, Names-gate_connection, Names-send_to_box, Names-send_to_gate,
)
