-- ===== src/Interserver/Connector/Blocked.antt =====
-- interserver_connector.cpp: the ticks of a timer whose first host has no address.
use poseidon_circe.Prelude.{
  ℕ, ◌≡◌, ◌⊎◌, ◌∙◌, refl, sym, ap, subst, List, [], ◌∷◌, Bool, true, false, Option, none, All, inl,
  inr, arith,
}
use poseidon_circe.Prelude.State.{Result, ok, throw, exception, proceed-throw, ◌>>◌}
use poseidon_circe.FlatMap.{has, find, emplace}
use poseidon_circe.FlatMap.Weak.{lock, find_live, collect_live}
use poseidon_circe.Interserver.Connector.{
  Connector, Lookup, create, touch, reconnect, client_or, client_of, ping, deal_with, timer_proc,
  get_all_clients,
}

-- one tick after the other
unfoldable pub ticks : List (ℕ → Lookup) → Connector → Connector
ticks [] c = c
ticks (look ∷ looks) c = ticks looks (timer_proc true look c).0

-- The look-up of the first host fails, and meanwhile no other job changes the connector.
abbrev pub Fails : (ℕ → Lookup) → Type 0
Fails look =
    ((look 0).resolved ≡ false)
    × ((c : Connector) → (look 0).meanwhile c ≡ c)
    × ((look 0).expired 0 ≡ true)

-- The first host, and that no host has ever had a client.
record IsIdle (host : ℕ) (c : Connector) : Type 0 where
  others : List ℕ
  first : c.hosts ≡ host ∷ others
  clientless : (c.weak_clients ≡ []) ⊎ (c.weak_clients ≡ (host, 0) ∷ [])

touch-IsIdle :
    (host : ℕ) (m : List (ℕ × ℕ)) → (m ≡ []) ⊎ (m ≡ (host, 0) ∷ []) → touch host m ≡ (host, 0) ∷ []
unfolding touch has emplace
touch-IsIdle host m (inl e) = rw e refl
touch-IsIdle host m (inr e) = rw e (ground arith)

reconnect-Fails :
    (host : ℕ) (look : Lookup) (c : Connector)
    → look.resolved ≡ false
    → look.meanwhile c ≡ c
    → reconnect host look c ≡ (c, throw exception)
unfolding reconnect
reconnect-Fails host look c f e = ground arith

null_find_live :
    (expired : ℕ → Bool) (host : ℕ)
    → expired 0 ≡ true
    → find_live expired host ((host, 0) ∷ []) ≡ none
unfolding find_live lock find
null_find_live expired host z = ground arith

abbrev noted : ℕ → Connector → Connector
noted host c = record c { weak_clients = (host, 0) ∷ [] }

client_of-Fails :
    (host : ℕ) (look : Lookup) (c : Connector)
    → look.resolved ≡ false
    → ((c' : Connector) → look.meanwhile c' ≡ c')
    → look.expired 0 ≡ true
    → IsIdle host c
    → client_of host look c ≡ (noted host c, throw exception)
unfolding client_of client_or
client_of-Fails host look c f alone z v =
    let with_map = λ (m : List (ℕ × ℕ)). record c { weak_clients = m } in
    ap (λ (m : List (ℕ × ℕ)). client_or host look (find_live look.expired host m) (with_map m))
      (touch-IsIdle host c.weak_clients v.clientless)
    ∙ ap (λ (o : Option ℕ). client_or host look o (noted host c))
        (null_find_live look.expired host z)
    ∙ reconnect-Fails host look (noted host c) f (alone (noted host c))

timer_proc-Fails :
    (host : ℕ) (look : ℕ → Lookup) (c : Connector)
    → Fails look
    → IsIdle host c
    → timer_proc true look c ≡ (noted host c, throw exception)
unfolding timer_proc deal_with
timer_proc-Fails host look c f v =
    let e = client_of-Fails host (look 0) c f.0 f.1 f.2 v in
    ap (λ (hosts : List ℕ). deal_with look 0 hosts c) v.first
    ∙ proceed-throw (λ p. ping p >> deal_with look 1 v.others) (client_of host (look 0) c) exception
        (ap (λ (r : Connector × Result ℕ). r.1) e)
    ∙ ap (λ (r : Connector × Result ℕ). (r.0, throw exception)) e

ticks-IsIdle :
    (host : ℕ) (looks : List (ℕ → Lookup)) (c : Connector)
    → All Fails looks
    → IsIdle host c
    → IsIdle host (ticks looks c)
unfolding ticks
ticks-IsIdle host [] c f v = v
ticks-IsIdle host (look ∷ looks) c f v =
    let e = ap (λ (r : Connector × Result (Unit {0})). r.0) (timer_proc-Fails host look c f.0 v) in
    ticks-IsIdle host looks (timer_proc true look c).0 f.1 (
      subst (IsIdle host) (sym e)
        (record { others = v.others; first = v.first; clientless = inr refl }))

all_null :
    (expired : ℕ → Bool) (host : ℕ) (m : List (ℕ × ℕ))
    → expired 0 ≡ true
    → (m ≡ []) ⊎ (m ≡ (host, 0) ∷ [])
    → collect_live expired m [] ≡ ([], 0)
unfolding collect_live
all_null expired host m z (inl e) = rw e refl
all_null expired host m z (inr e) = rw e (ground arith)

-- As long as the look-up of the first host fails, no host has a client, however many ticks there
-- are and whatever the look-ups of the other hosts would be.
pub blocked_by_first :
    (host : ℕ) (others : List ℕ) (port : ℕ) (c : Connector) (looks : List (ℕ → Lookup))
    (expired : ℕ → Bool)
    → create (host ∷ others) port ≡ ok c
    → All Fails looks
    → expired 0 ≡ true
    → get_all_clients expired [] (ticks looks c) ≡ ([], 0)
unfolding get_all_clients
blocked_by_first host others port c looks expired e f z =
    let made : IsIdle host c = record {
      others = others;
      first = unfold create in ground arith;
      clientless = inl (unfold create in ground arith);
    } in
    all_null expired host (ticks looks c).weak_clients z
      (ticks-IsIdle host looks c f made).clientless
