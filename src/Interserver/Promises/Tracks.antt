-- ===== src/Interserver/Promises/Tracks.antt =====
-- interserver_connection.cpp: what one step does to the promise of a request.
use poseidon_circe.Prelude.{
  ℕ, suc, ◌⊎◌, ◌≤◌, ◌<◌, ◌≡◌, ◌≢◌, refl, ap, List, [], ◌∷◌, Bool, true, if◌then◌else◌, some, ◌==◌,
  arith, Bool-cases, Option-cases, inl, inr,
}
use poseidon_circe.Prelude.Bytes.{Bytes}
use poseidon_circe.FlatMap.{find, emplace, erase}
use poseidon_circe.Interserver.Promises.{
  Job, Response, Promised, pending, lost, InterserverConnection, settle, settle_all, on_close,
  register, satisfy,
}

-- how often a promise is registered
unfoldable pub registered : ℕ → List (ℕ × ℕ) → ℕ
registered p [] = 0
registered p ((serial, q) ∷ m) = let rest = registered p m in if p == q then suc rest else rest

registered-emplace :
    (p serial q : ℕ) (m : List (ℕ × ℕ))
    → registered p (emplace serial q m) ≡ (if p == q then suc (registered p m) else registered p m)
unfolding registered emplace
registered-emplace p serial q [] = refl
registered-emplace p serial q ((s, r) ∷ m) = ground (arith, registered-emplace p serial q m)

registered-erase :
    (p serial q : ℕ) (m : List (ℕ × ℕ))
    → find serial m ≡ some q
    → registered p m
      ≡ (if p == q then suc (registered p (erase serial m)) else registered p (erase serial m))
unfolding registered find erase
registered-erase p serial q [] f = cc
registered-erase p serial q ((s, r) ∷ m) f = ground (arith, registered-erase p serial q m)

-- The state of the promises: each is registered once at most, and only while it is pending.
pub record IsPromised (c : InterserverConnection) : Type 0 where
  pub once : (p : ℕ) → registered p c.weak_promises ≤ 1
  pub made : (p : ℕ) → c.next_promise ≤ p → registered p c.weak_promises ≡ 0
  pub waiting : (p : ℕ) → 0 < registered p c.weak_promises → c.promises p ≡ pending
  pub fresh : (p : ℕ) → c.next_promise ≤ p → c.promises p ≡ pending

-- What a step does to a promise: it does not settle it again, and leaves it registered while it is
-- pending and held.
pub record Tracks (alive : ℕ → Bool) (p : ℕ) (c c' : InterserverConnection) : Type 0 where
  pub promised : IsPromised c'
  pub same : c.promises p ≢ pending → c'.promises p ≡ c.promises p
  pub held :
      alive p ≡ true
      → (p < c.next_promise → c.promises p ≡ pending → 0 < registered p c.weak_promises)
      → p < c'.next_promise
      → c'.promises p ≡ pending
      → 0 < registered p c'.weak_promises

-- a step that leaves the promises alone
pub idle_Tracks :
    (alive : ℕ → Bool) (p : ℕ) (c : InterserverConnection) (is_shutdown : Bool) (serial : ℕ)
    (sent : List (ℕ × Bytes)) (jobs : List Job)
    → IsPromised c
    → Tracks alive p c
        (record c { is_shutdown = is_shutdown; next_serial = serial; sent = sent; jobs = jobs })
idle_Tracks alive p c is_shutdown serial sent jobs v = record {
  promised = record { once = v.once; made = v.made; waiting = v.waiting; fresh = v.fresh };
  same = λ h. refl;
  held = λ a h. h;
}

pub here_Tracks :
    (alive : ℕ → Bool) (p : ℕ) (c : InterserverConnection) → IsPromised c → Tracks alive p c c
here_Tracks alive p c v = record { promised = v; same = λ h. refl; held = λ a h. h }

pub register-Tracks :
    (alive : ℕ → Bool) (p serial : ℕ) (sent : List (ℕ × Bytes)) (c : InterserverConnection)
    → IsPromised c
    → Tracks alive p c
        (record (register serial (record c { next_serial = serial })) { sent = sent })
unfolding register
register-Tracks alive p serial sent c v =
    let put = λ (q : ℕ). registered-emplace q serial c.next_promise c.weak_promises in
    record {
      promised = record {
        once = λ q. ground (arith, put q, v.once q, v.made q);
        made = λ q h. ground (arith, put q, v.made q);
        waiting = λ q h. ground (arith, put q, v.waiting q);
        fresh = λ q h. ground (arith, v.fresh q);
      };
      same = λ h. ground (arith, v.fresh p);
      held = λ a h b q. ground (arith, put p);
    }

pub satisfy-Tracks :
    (alive : ℕ → Bool) (p serial : ℕ) (resp : Response) (c : InterserverConnection)
    → IsPromised c
    → Tracks alive p c (satisfy alive serial resp (find serial c.weak_promises) c)
unfolding satisfy settle
satisfy-Tracks alive p serial resp c v = elim (Option-cases (find serial c.weak_promises)) [
  | inl f ↦ simp f (record { promised = v; same = λ h. refl; held = λ a h. h })
  | inr (q, f) ↦
      let taken = λ (n : ℕ). registered-erase n serial q c.weak_promises f in
      simp f (record {
        promised = record {
          once = λ n. ground (arith, taken n, v.once n);
          made = λ n h. ground (arith, taken n, v.made n);
          waiting = λ n h. ground (arith, taken n, v.once n, v.waiting n);
          fresh = λ n h. ground (arith, taken n, v.made n, v.fresh n);
        };
        same = λ h. ground (arith, taken p, v.waiting p);
        held = λ a h b n. ground (arith, taken p);
      })
]

settle_all_lem :
    (alive : ℕ → Bool) (m : List (ℕ × ℕ)) (promises : ℕ → Promised) (p : ℕ)
    → (settle_all alive m promises p ≡ promises p)
      ⊎ ((0 < registered p m) × (settle_all alive m promises p ≡ lost))
unfolding settle_all settle registered
settle_all_lem alive [] promises p = inl refl
settle_all_lem alive ((serial, q) ∷ m) promises p =
    ground (arith, settle_all_lem alive m (settle alive lost q promises) p)

-- A promise that is held is lost if it is registered, or has been lost before.
settle_all-held :
    (alive : ℕ → Bool) (m : List (ℕ × ℕ)) (promises : ℕ → Promised) (p : ℕ)
    → alive p ≡ true
    → (0 < registered p m) ⊎ (promises p ≡ lost)
    → settle_all alive m promises p ≡ lost
unfolding settle_all settle registered
settle_all-held alive [] promises p a r = ground arith
settle_all-held alive ((serial, q) ∷ m) promises p a r =
    settle_all-held alive m (settle alive lost q promises) p a (ground arith)

pub on_close-Tracks :
    (alive : ℕ → Bool) (p : ℕ) (c : InterserverConnection)
    → IsPromised c
    → Tracks alive p c (on_close alive c).0
unfolding on_close registered
on_close-Tracks alive p c v = elim (Bool-cases c.is_shutdown) [
  | inl e ↦
      let after = settle_all_lem alive c.weak_promises c.promises in
      simp e (record {
        promised = record {
          once = λ q. omega arith;
          made = λ q h. refl;
          waiting = λ q h. absurd (omega arith);
          fresh = λ q h. ground (arith, after q, v.made q, v.fresh q);
        };
        same = λ h. ground (arith, after p, v.waiting p);
        held = λ a h b q.
            ground (arith, after p, settle_all-held alive c.weak_promises c.promises p a);
      })
  | inr e ↦ simp e (record { promised = v; same = λ h. refl; held = λ a h. h })
]

pub on_close_lem :
    (alive : ℕ → Bool) (c : InterserverConnection)
    → c.is_shutdown ≡ true
    → ((on_close alive c).0.weak_promises ≡ [])
      × ((on_close alive c).0.next_promise ≡ c.next_promise)
unfolding on_close
on_close_lem alive c s = ground arith

pub no_entry : (p : ℕ) (m : List (ℕ × ℕ)) → m ≡ [] → 0 < registered p m → ⊥
unfolding registered
no_entry p m e h = ground (arith, ap (registered p) e)
