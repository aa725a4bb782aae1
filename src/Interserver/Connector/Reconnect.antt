-- ===== src/Interserver/Connector/Reconnect.antt =====
-- interserver_connector.cpp: what a tick of the timer achieves.
use poseidon_circe.Prelude.{
  ℕ, suc, ◌≤◌, ◌≡◌, ◌∙◌, refl, sym, ap, subst, if_lem, List, [], ◌∷◌, Bool, true, false,
  if◌then◌else◌, Option, none, some, is_some, ◌==◌, All, arith,
}
use poseidon_circe.Prelude.State.{Result, ok, ◌>>◌, proceed-ok}
use poseidon_circe.FlatMap.{find}
use poseidon_circe.FlatMap.Weak.{lock, find_live, find-emplace, find-has}
use poseidon_circe.Interserver.Connector.{
  Connector, Lookup, touch, assign, kill, make_client, reconnect, client_or, client_of, ping,
  deal_with, timer_proc,
}

find-assign :
    (host j p : ℕ) (m : List (ℕ × ℕ))
    → find j (assign host p m) ≡ (if host == j then some p else find j m)
unfolding find assign
find-assign host j p [] = refl
find-assign host j p ((k, q) ∷ m) = ground (arith, find-assign host j p m)

-- An entry with a null pointer is as good as none.
find_live-touch :
    (expired : ℕ → Bool) (host j : ℕ) (m : List (ℕ × ℕ))
    → expired 0 ≡ true
    → find_live expired j (touch host m) ≡ find_live expired j m
unfolding find_live touch lock
find_live-touch expired host j m z = ground (arith, find-emplace host j 0 m, find-has j m)

find_live-assign :
    (expired : ℕ → Bool) (host j p : ℕ) (m : List (ℕ × ℕ))
    → expired p ≡ false
    → find_live expired j (assign host p m) ≡ (if host == j then some p else find_live expired j m)
unfolding find_live lock
find_live-assign expired host j p m x = ground (arith, find-assign host j p m)

-- A look-up during which no client is destroyed and no other job interferes, of a host that has an
-- address and can be connected.
abbrev pub quiet : (ℕ → Bool) → ℕ → Lookup
quiet expired connection_uuid = record {
  expired = expired;
  meanwhile = λ c. c;
  resolved = true;
  expired_then = expired;
  connected = true;
  connection_uuid = connection_uuid;
}

-- From one state to a later one: a client that is there stays the client of its host, and none is
-- killed.
pub record Spares (expired : ℕ → Bool) (c c' : Connector) : Type 0 where
  pub kept :
      (host p : ℕ)
      → find_live expired host c.weak_clients ≡ some p
      → find_live expired host c'.weak_clients ≡ some p
  pub unhurt : c'.killed ≡ c.killed
  pub later : c.next_client ≤ c'.next_client

Spares-trans :
    (expired : ℕ → Bool) (c c' c'' : Connector)
    → Spares expired c c'
    → Spares expired c' c''
    → Spares expired c c''
Spares-trans expired c c' c'' s t = record {
  kept = λ host p e. t.kept host p (s.kept host p e);
  unhurt = t.unhurt ∙ s.unhurt;
  later = omega (arith, s.later, t.later);
}

-- A host has a client, and what was there before is spared.
pub record Connects (expired : ℕ → Bool) (host : ℕ) (c : Connector) (r : Connector × Result ℕ)
    : Type 0 where
  pub client : ℕ
  pub succeeded : r.1 ≡ ok client
  pub there : find_live expired host r.0.weak_clients ≡ some client
  pub spares : Spares expired c r.0

module _ (expired : ℕ → Bool) (null : expired 0 ≡ true) (uuid host : ℕ) (c : Connector)
    (new : expired c.next_client ≡ false) where
  abbrev touched : Connector
  touched = record c { weak_clients = touch host c.weak_clients }

  abbrev touched_twice : Connector
  touched_twice = record c { weak_clients = touch host (touch host c.weak_clients) }

  same :
      (j : ℕ)
      → find_live expired j (touch host (touch host c.weak_clients))
        ≡ find_live expired j c.weak_clients
  same j =
      find_live-touch expired host j (touch host c.weak_clients) null
      ∙ find_live-touch expired host j c.weak_clients null

  make_client-Connects :
      find_live expired host c.weak_clients ≡ none
      → Connects expired host c (make_client host uuid touched_twice)
  unfolding make_client
  make_client-Connects e = record {
    client = c.next_client;
    succeeded = refl;
    there =
        ground
          (arith, find_live-assign expired host host c.next_client touched_twice.weak_clients new);
    spares = record {
      kept = λ j p h. ground (
        arith,
        find_live-assign expired host j c.next_client touched_twice.weak_clients new,
        same j,
      );
      unhurt = refl;
      later = omega arith;
    };
  }

  reconnect-Connects :
      find_live expired host c.weak_clients ≡ none
      → Connects expired host c (reconnect host (quiet expired uuid) touched)
  unfolding reconnect
  reconnect-Connects e =
      subst (λ o. Connects expired host c (make_client host uuid (kill o touched_twice)))
        (sym (same host ∙ e)) (unfold kill in make_client-Connects e)

  client_or-Connects :
      (o : Option ℕ)
      → find_live expired host c.weak_clients ≡ o
      → Connects expired host c (client_or host (quiet expired uuid) o touched)
  unfolding client_or
  client_or-Connects none e = reconnect-Connects e
  client_or-Connects (some p) e = record {
    client = p;
    succeeded = refl;
    there = find_live-touch expired host host c.weak_clients null ∙ e;
    spares = record {
      kept = λ j q h. find_live-touch expired host j c.weak_clients null ∙ h;
      unhurt = refl;
      later = omega arith;
    };
  }

  client_of-Connects : Connects expired host c (client_of host (quiet expired uuid) c)
  unfolding client_of
  client_of-Connects =
      client_or-Connects (find_live expired host (touch host c.weak_clients))
        (sym (find_live-touch expired host host c.weak_clients null))

-- After the loop over some hosts.
pub record AllConnected (expired : ℕ → Bool) (hosts : List ℕ) (c : Connector)
    (r : Connector × Result (Unit {0})) : Type 0 where
  pub succeeded : r.1 ≡ ok tt
  pub there : All (λ host. is_some (find_live expired host r.0.weak_clients) ≡ true) hosts
  pub spares : Spares expired c r.0

ping-Spares :
    (expired : ℕ → Bool) (p : ℕ) (c : Connector)
    → (Spares expired c (ping p c).0) × ((ping p c).1 ≡ ok tt)
unfolding ping
ping-Spares expired p c =
    if_lem (λ (r : Connector × Result (Unit {0})). Spares expired c r.0 × (r.1 ≡ ok tt))
      (c.authenticated p) _ _
      (record { kept = λ j q h. h; unhurt = refl; later = omega arith }, refl)
      (record { kept = λ j q h. h; unhurt = refl; later = omega arith }, refl)

deal_with_some :
    (expired : ℕ → Bool) (uuids : ℕ → ℕ) (i host : ℕ) (hosts : List ℕ) (c : Connector)
    → Connects expired host c (client_of host (quiet expired (uuids i)) c)
    → ((c' : Connector)
        → c.next_client ≤ c'.next_client
        → AllConnected expired hosts c' (deal_with (λ j. quiet expired (uuids j)) (suc i) hosts c'))
    → AllConnected expired
        (host ∷ hosts)
        c
        (deal_with (λ j. quiet expired (uuids j)) i (host ∷ hosts) c)
unfolding deal_with
deal_with_some expired uuids i host hosts c k rest =
    let look = λ (j : ℕ). quiet expired (uuids j) in
    let r = client_of host (look i) c in
    let pinged = ping k.client r.0 in
    let (s, e) = ping-Spares expired k.client r.0 in
    let t = Spares-trans expired c r.0 pinged.0 k.spares s in
    let after = rest pinged.0 t.later in
    subst (AllConnected expired (host ∷ hosts) c)
      (sym (
        proceed-ok (λ p. ping p >> deal_with look (suc i) hosts) r k.client k.succeeded
        ∙ proceed-ok (λ u. deal_with look (suc i) hosts) pinged tt e))
      (record {
        succeeded = after.succeeded;
        there = (
          ap (λ (o : Option ℕ). is_some o)
              (after.spares.kept host k.client (s.kept host k.client k.there)),
          after.there,
        );
        spares = Spares-trans expired c pinged.0 _ t after.spares;
      })

pub deal_with-AllConnected :
    (expired : ℕ → Bool) (uuids : ℕ → ℕ) (i : ℕ) (hosts : List ℕ) (c : Connector)
    → expired 0 ≡ true
    → ((p : ℕ) → c.next_client ≤ p → expired p ≡ false)
    → AllConnected expired hosts c (deal_with (λ j. quiet expired (uuids j)) i hosts c)
unfolding deal_with
deal_with-AllConnected expired uuids i [] c z f = record {
  succeeded = refl;
  there = tt;
  spares = record { kept = λ j q h. h; unhurt = refl; later = omega arith };
}
deal_with-AllConnected expired uuids i (host ∷ hosts) c z f =
    deal_with_some expired uuids i host hosts c
      (client_of-Connects expired z (uuids i) host c (f c.next_client (omega arith)))
      (λ c' h. deal_with-AllConnected expired uuids (suc i) hosts c' z (λ p g. f p (omega arith)))

-- A tick, during which no client is destroyed, no other job interferes and every host has an
-- address and can be connected, returns; afterwards every host has a client, a client that was
-- there before is still that of its host, and none has been killed.
pub timer_proc-AllConnected :
    (expired : ℕ → Bool) (uuids : ℕ → ℕ) (c : Connector)
    → expired 0 ≡ true
    → ((p : ℕ) → c.next_client ≤ p → expired p ≡ false)
    → AllConnected expired c.hosts c (timer_proc true (λ i. quiet expired (uuids i)) c)
unfolding timer_proc
timer_proc-AllConnected expired uuids c z f = deal_with-AllConnected expired uuids 0 c.hosts c z f
