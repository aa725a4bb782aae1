-- ===== src/Pilot/Exchange/Stages.antt =====
-- servlets.cpp: what each part of a handler does to the locks of a compass.
use poseidon_circe.Prelude.{
  ℕ, suc, ◌≤◌, ◌≡◌, refl, Bool, true, false, List, [], ◌∷◌, length, ltb, inl, inr, Bool-cases,
  arith,
}
use poseidon_circe.Prelude.Int.{ℤ, pos, negsuc, neg_part, pred_ℤ, is_positive}
use poseidon_circe.Prelude.State.{Result, ok}
use poseidon_circe.FlatMap.{has, count, has-count}
use poseidon_circe.Pilot.Messages.{Criterion}
use poseidon_circe.Pilot.Lock.{
  CompassLock, Connection, collect_expired_connections, is_locked_shared_by, try_lock_shared,
  is_locked_exclusive_by, try_lock_exclusive, may_lock_shared, may_lock_exclusive,
}
use poseidon_circe.Pilot.Compass.{Env}
use poseidon_circe.Pilot.Disposition.{check_releases}
use poseidon_circe.Pilot.Disposition.Rules.{Holding, collect_idle, shared_rule, exclusive_rule}
use poseidon_circe.Pilot.Exchange.{choose_lock, lock_for_reading, lock_for_writing}

module _ (env : Env) (c : Connection) (base : CompassLock) where
  -- The lock `base`, perhaps with expired connections in it.
  abbrev pub Uncollected : CompassLock → Type 0
  Uncollected l = collect_expired_connections env.expired l ≡ base

  held_shared :
      (l : CompassLock)
      → Uncollected l
      → is_locked_shared_by env.expired l c.uuid ≡ (base, has c.uuid base.readers)
  unfolding is_locked_shared_by
  held_shared l e = rw e

  held_exclusive :
      (l : CompassLock)
      → Uncollected l
      → is_locked_exclusive_by env.expired l c.uuid ≡ (base, has c.uuid base.writers)
  unfolding is_locked_exclusive_by
  held_exclusive l e = rw e

  -- What a request may ask to release is held: the checks pass.
  pub check_releases_lem :
      (shared exclusive : ℤ) (l : CompassLock)
      → Uncollected l
      → Uncollected base
      → neg_part shared ≤ count c.uuid base.readers
      → neg_part exclusive ≤ count c.uuid base.writers
      → (l' : CompassLock) × (check_releases env.expired c (shared, exclusive) l
          ≡ (l', ok (shared, exclusive)))
        × Uncollected l'
  unfolding check_releases
  check_releases_lem (pos a) (pos b) l e e' p q = (l, refl, e)
  check_releases_lem (negsuc a) (pos b) l e e' p q =
      let held : has c.uuid base.readers ≡ true = ground (arith, has-count c.uuid base.readers) in
      (base, rw (held_shared l e, held), e')
  check_releases_lem (pos a) (negsuc b) l e e' p q =
      let held : has c.uuid base.writers ≡ true = ground (arith, has-count c.uuid base.writers) in
      (base, rw (held_exclusive l e, held), e')
  check_releases_lem (negsuc a) (negsuc b) l e e' p q =
      let held : has c.uuid base.readers ≡ true = ground (arith, has-count c.uuid base.readers) in
      let held' : has c.uuid base.writers ≡ true = ground (arith, has-count c.uuid base.writers) in
      (base, rw (held_shared l e, held, held_exclusive base e', held'), e')

  try_lock_shared_collected :
      (l : CompassLock)
      → Uncollected l
      → Uncollected base
      → try_lock_shared env.expired l c ≡ try_lock_shared env.expired base c
  unfolding try_lock_shared
  try_lock_shared_collected l e e' = rw (e, e')

  try_lock_exclusive_collected :
      (l : CompassLock)
      → Uncollected l
      → Uncollected base
      → try_lock_exclusive env.expired l c ≡ try_lock_exclusive env.expired base c
  unfolding try_lock_exclusive
  try_lock_exclusive_collected l e e' = rw (e, e')

  -- How the attempt to lock may end: with none, or with one lock more and one more to release. The
  -- shared lock is tried only on a condition, `reading`.
  pub data Chosen (reading : Type 0) (r w : ℕ) (shared exclusive : ℤ)
      : CompassLock × Result (Bool × (ℤ × ℤ)) → Type 0 where
    refused :
        (l : CompassLock)
        → Uncollected l
        → Chosen reading r w shared exclusive (l, ok (false, (shared, exclusive)))
    shared_for_reading :
        (l : CompassLock)
        → Holding env.expired c base (suc r) w l
        → reading
        → is_positive exclusive ≡ false
        → Chosen reading r w shared exclusive (l, ok (true, (pred_ℤ shared, exclusive)))
    exclusive_for_writing :
        (l : CompassLock)
        → Holding env.expired c base r (suc w) l
        → Chosen reading r w shared exclusive (l, ok (true, (shared, pred_ℤ exclusive)))

  lock_for_reading-Chosen :
      (reading : Type 0) {r w : ℕ} (shared exclusive : ℤ) (l : CompassLock)
      → env.expired c.ptr ≡ false
      → Uncollected l
      → Holding env.expired c base r w base
      → reading
      → is_positive exclusive ≡ false
      → Chosen reading r w shared exclusive (lock_for_reading env c (shared, exclusive) l)
  unfolding lock_for_reading
  lock_for_reading-Chosen reading shared exclusive l live e h asks ne =
      let idle = collect_idle env.expired c base base h in
      rw (try_lock_shared_collected l e idle) (elim (Bool-cases (may_lock_shared base c.uuid)) [
        | inl m ↦
            let (l', e', h') = shared_rule env.expired c base base live h m in
            rw e' (shared_for_reading l' h' asks ne)
        | inr m ↦ unfold try_lock_shared in rw (idle, m) (refused base idle)
      ])

  pub lock_for_writing-Chosen :
      (reading : Type 0) {r w : ℕ} (shared exclusive : ℤ) (l : CompassLock)
      → env.expired c.ptr ≡ false
      → Uncollected l
      → Holding env.expired c base r w base
      → Chosen reading r w shared exclusive (lock_for_writing env c (shared, exclusive) l)
  unfolding lock_for_writing
  lock_for_writing-Chosen reading shared exclusive l live e h =
      let idle = collect_idle env.expired c base base h in
      rw (try_lock_exclusive_collected l e idle)
        (elim (Bool-cases (may_lock_exclusive base c.uuid)) [
          | inl m ↦
              let (l', e', h') = exclusive_rule env.expired c base base live h m in
              rw e' (exclusive_for_writing l' h')
          | inr m ↦ unfold try_lock_exclusive in rw (idle, m) (refused base idle)
        ])

  pub choose_lock-Chosen :
      (criteria : List Criterion) (index : ℕ) {r w : ℕ} (shared exclusive : ℤ) (l : CompassLock)
      → env.expired c.ptr ≡ false
      → Uncollected l
      → Holding env.expired c base r w base
      → Chosen
          (criteria ≡ [])
          r
          w
          shared
          exclusive
          (choose_lock env c criteria index (shared, exclusive) l)
  unfolding choose_lock
  choose_lock-Chosen [] index shared exclusive l live e h =
      elim (Bool-cases (is_positive exclusive)) [
        | inl p ↦
            rw p
              (lock_for_writing-Chosen (◌≡◌ {A = List Criterion} [] []) shared exclusive l live e h)
        | inr p ↦ rw p (
            lock_for_reading-Chosen (◌≡◌ {A = List Criterion} [] []) shared exclusive l live e h
              refl p)
      ]
  choose_lock-Chosen (x ∷ xs) index shared exclusive l live e h =
      elim (Bool-cases (ltb index (length (x ∷ xs)))) [
        | inl p ↦ rw p (lock_for_writing-Chosen (x ∷ xs ≡ []) shared exclusive l live e h)
        | inr p ↦ rw p (refused l e)
      ]
