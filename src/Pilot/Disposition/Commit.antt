-- ===== src/Pilot/Disposition/Commit.antt =====
-- servlets.cpp: the assertions in `commit_lock_disposition`.
use poseidon_circe.Prelude.{ℕ, zero, suc, ◌+◌, ◌<◌, ◌≡◌, refl, Bool, false, arith}
use poseidon_circe.Prelude.Int.{ℤ, pos_part, neg_part}
use poseidon_circe.Prelude.State.{Result, ok}
use poseidon_circe.Pilot.Lock.{CompassLock, Connection}
use poseidon_circe.Pilot.Disposition.{
  lock_exclusive_times, lock_shared_times, release_exclusive_times, release_shared_times,
  commit_lock_disposition,
}
use poseidon_circe.Pilot.Disposition.Rules.{
  Holding, Holding-cast, shared_rule, exclusive_rule, release_shared_rule, release_exclusive_rule,
  may_lock_shared_of_Holding, may_lock_exclusive_of_Holding,
}

module _ (expired : ℕ → Bool) (c : Connection) (base : CompassLock) where
  -- A run that throws nothing and ends with these locks.
  abbrev pub Ends : ℕ → ℕ → CompassLock × Result (Unit {0}) → Type 0
  Ends r w out = (l : CompassLock) × (out ≡ (l, ok tt)) × Holding expired c base r w l

  Ends-cast :
      {r w r' w' : ℕ} {out : CompassLock × Result (Unit {0})}
      → r ≡ r'
      → w ≡ w'
      → Ends r w out
      → Ends r' w' out
  Ends-cast p q (l, e, h) = (l, e, Holding-cast expired c base p q h)

  lock_exclusive_times-Ends :
      (n : ℕ) {r w : ℕ} (l : CompassLock)
      → expired c.ptr ≡ false
      → (0 < n → 0 < w)
      → Holding expired c base r w l
      → Ends r (w + n) (lock_exclusive_times expired c n l)
  unfolding lock_exclusive_times
  lock_exclusive_times-Ends zero l live p h = Ends-cast refl (omega arith) (l, refl, h)
  lock_exclusive_times-Ends (suc n) l live p h =
      let m = may_lock_exclusive_of_Holding expired c base l h (p (omega arith)) in
      let (l', e, h') = exclusive_rule expired c base l live h m in
      rw e
        (Ends-cast refl (omega arith) (lock_exclusive_times-Ends n l' live (λ _. omega arith) h'))

  lock_shared_times-Ends :
      (n : ℕ) {r w : ℕ} (l : CompassLock)
      → expired c.ptr ≡ false
      → (0 < n → 0 < r + w)
      → Holding expired c base r w l
      → Ends (r + n) w (lock_shared_times expired c n l)
  unfolding lock_shared_times
  lock_shared_times-Ends zero l live p h = Ends-cast (omega arith) refl (l, refl, h)
  lock_shared_times-Ends (suc n) l live p h =
      let m = may_lock_shared_of_Holding expired c base l h (p (omega arith)) in
      let (l', e, h') = shared_rule expired c base l live h m in
      rw e (Ends-cast (omega arith) refl (lock_shared_times-Ends n l' live (λ _. omega arith) h'))

  release_exclusive_times-Ends :
      (n : ℕ) {r w : ℕ} (l : CompassLock)
      → Holding expired c base r (w + n) l
      → Ends r w (release_exclusive_times expired c n l)
  unfolding release_exclusive_times
  release_exclusive_times-Ends zero l h = Ends-cast refl (omega arith) (l, refl, h)
  release_exclusive_times-Ends (suc n) {r} {w} l h =
      let (l', e, h') =
        release_exclusive_rule expired c base {w = w + n} l
          (Holding-cast expired c base refl (omega arith) h) in
      rw e (release_exclusive_times-Ends n l' h')

  release_shared_times-Ends :
      (n : ℕ) {r w : ℕ} (l : CompassLock)
      → Holding expired c base (r + n) w l
      → Ends r w (release_shared_times expired c n l)
  unfolding release_shared_times
  release_shared_times-Ends zero l h = Ends-cast (omega arith) refl (l, refl, h)
  release_shared_times-Ends (suc n) {r} {w} l h =
      let (l', e, h') =
        release_shared_rule expired c base {r = r + n} l
          (Holding-cast expired c base (omega arith) refl h) in
      rw e (release_shared_times-Ends n l' h')

  -- A connection that holds `r` shared and `w` exclusive locks, one at least where it asks for
  -- more, and as many as it gives up: no assertion fails, and it holds what it asked for.
  pub commit-Ends :
      (shared exclusive : ℤ) (r w : ℕ) (l : CompassLock)
      → expired c.ptr ≡ false
      → (0 < pos_part exclusive → 0 < w)
      → (0 < pos_part shared → 0 < r + w + neg_part exclusive)
      → Holding expired c base (r + neg_part shared) (w + neg_part exclusive) l
      → Ends
          (r + pos_part shared)
          (w + pos_part exclusive)
          (commit_lock_disposition expired c shared exclusive l)
  unfolding commit_lock_disposition
  commit-Ends shared exclusive r w l live p q h =
      let (l₁, e₁, h₁) =
        lock_exclusive_times-Ends (pos_part exclusive) l live (λ g. omega (arith, p g)) h in
      let (l₂, e₂, h₂) =
        lock_shared_times-Ends (pos_part shared) l₁ live (λ g. omega (arith, q g)) h₁ in
      let (l₃, e₃, h₃) =
        release_exclusive_times-Ends (neg_part exclusive) {w = w + pos_part exclusive} l₂
          (Holding-cast expired c base refl (omega arith) h₂) in
      let (l₄, e₄, h₄) =
        release_shared_times-Ends (neg_part shared) {r = r + pos_part shared} l₃
          (Holding-cast expired c base (omega arith) refl h₃) in
      (l₄, rw (e₁, e₂, e₃, e₄), h₄)
