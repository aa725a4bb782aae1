-- ===== src/Pilot/Lock/Refinement.antt =====
-- compass_lock.cpp against its abstract specification: a lock is how often each UUID holds it shared
-- and how often exclusively.
use poseidon_circe.Prelude.{
  ℕ, suc, ◌-◌, ◌<◌, ◌≡◌, ◌⊎◌, refl, inl, inr, List, [], ◌∷◌, Bool, true, false, if◌then◌else◌,
  is_empty, ◌==◌, Bool-cases, if_cases, ap, ◌∙◌, subst, arith,
}
use mathlib.Core.Path.{fun_ext}
use poseidon_circe.FlatMap.{
  has, count, emplace, erase, has-count, count-emplace, count-erase, erase_if, covers_of_has,
}
use poseidon_circe.Pilot.Lock.{
  CompassLock, Connection, Call, init, run, collect_expired_connections, try_lock_shared,
  release_lock_shared, try_lock_exclusive, release_lock_exclusive, may_lock_shared,
  may_lock_exclusive,
}
use poseidon_circe.Pilot.Lock.Laws.{
  IsExclusive, init-IsExclusive, run-IsExclusive, collect-IsExclusive, may_lock_shared-sole,
  may_lock_exclusive-sole,
}

pub record Holders : Type 0 where
  pub shared : ℕ → ℕ
  pub exclusive : ℕ → ℕ

abbrev pub view : CompassLock → Holders
view l = record { shared = λ k. count k l.readers; exclusive = λ k. count k l.writers }

-- nobody but the UUID holds the lock exclusively, or at all
abbrev pub NoOtherWriter : ℕ → Holders → Type 0
NoOtherWriter k a = (w : ℕ) → 0 < a.exclusive w → w ≡ k

abbrev pub NoOtherHolder : ℕ → Holders → Type 0
NoOtherHolder k a = NoOtherWriter k a × ((r : ℕ) → 0 < a.shared r → r ≡ k)

-- One UUID's count after one more lock, or one less.
abbrev pub Raised : ℕ → (ℕ → ℕ) → (ℕ → ℕ) → Type 0
Raised k f g = (j : ℕ) → g j ≡ (if k == j then suc (f j) else f j)

abbrev pub Lowered : ℕ → (ℕ → ℕ) → (ℕ → ℕ) → Type 0
Lowered k f g = (j : ℕ) → g j ≡ (if k == j then f j - 1 else f j)

abbrev pub Unchanged : Holders → Holders → Type 0
Unchanged a a' = ((j : ℕ) → a'.shared j ≡ a.shared j) × ((j : ℕ) → a'.exclusive j ≡ a.exclusive j)

pub data Action : Type 0 where
  locks_shared releases_shared locks_exclusive releases_exclusive : Connection → Action

-- The specification: what an action returns, and what it makes of the holders.
abbrev pub Spec : Action → Holders → Bool → Holders → Type 0
Spec (locks_shared c) a b a' =
    (NoOtherWriter c.uuid a
      × (b ≡ true)
      × Raised c.uuid a.shared a'.shared
      × ((j : ℕ) → a'.exclusive j ≡ a.exclusive j))
    ⊎ (¬ NoOtherWriter c.uuid a × (b ≡ false) × Unchanged a a')
Spec (locks_exclusive c) a b a' =
    (NoOtherHolder c.uuid a
      × (b ≡ true)
      × Raised c.uuid a.exclusive a'.exclusive
      × ((j : ℕ) → a'.shared j ≡ a.shared j))
    ⊎ (¬ NoOtherHolder c.uuid a × (b ≡ false) × Unchanged a a')
Spec (releases_shared c) a b a' =
    ((0 < a.shared c.uuid)
      × (b ≡ true)
      × Lowered c.uuid a.shared a'.shared
      × ((j : ℕ) → a'.exclusive j ≡ a.exclusive j))
    ⊎ ((a.shared c.uuid ≡ 0) × (b ≡ false) × Unchanged a a')
Spec (releases_exclusive c) a b a' =
    ((0 < a.exclusive c.uuid)
      × (b ≡ true)
      × Lowered c.uuid a.exclusive a'.exclusive
      × ((j : ℕ) → a'.shared j ≡ a.shared j))
    ⊎ ((a.exclusive c.uuid ≡ 0) × (b ≡ false) × Unchanged a a')

unfoldable pub outcome : (ℕ → Bool) → CompassLock → Action → CompassLock × Bool
outcome expired l (locks_shared c) = try_lock_shared expired l c
outcome expired l (releases_shared c) = release_lock_shared expired l c
outcome expired l (locks_exclusive c) = try_lock_exclusive expired l c
outcome expired l (releases_exclusive c) = release_lock_exclusive expired l c

has_of_count : (k : ℕ) (m : List (ℕ × ℕ)) → 0 < count k m → has k m ≡ true
has_of_count k m h = ground (arith, has-count k m)

count_of_has : (k : ℕ) (m : List (ℕ × ℕ)) → has k m ≡ true → 0 < count k m
count_of_has k m h = ground (arith, has-count k m)

empty_of_has : (m : List (ℕ × ℕ)) → ((j : ℕ) → has j m ≡ true → ⊥) → is_empty m ≡ true
unfolding has
empty_of_has [] h = refl
empty_of_has ((k, p) ∷ m) h = absurd (h k (ground arith))

unchanged : (a : Holders) → Unchanged a a
unchanged a = (λ j. refl, λ j. refl)

module _ (c : Connection) (m : CompassLock) (i : IsExclusive m) where
  shared_granted :
      may_lock_shared m c.uuid ≡ true
      → Spec
          (locks_shared c)
          (view m)
          true
          (view (record m { readers = emplace c.uuid c.ptr m.readers }))
  shared_granted e = inl (
    λ w p. may_lock_shared-sole m c.uuid w i e (has_of_count w m.writers p),
    refl,
    λ j. count-emplace c.uuid c.ptr m.readers j,
    λ j. refl,
  )

  shared_denied : may_lock_shared m c.uuid ≡ false → Spec (locks_shared c) (view m) false (view m)
  unfolding may_lock_shared
  shared_denied e = inr (
    λ n. ground (arith, covers_of_has c.uuid m.writers (λ j h. n j (count_of_has j m.writers h))),
    refl,
    unchanged (view m),
  )

  exclusive_granted :
      may_lock_exclusive m c.uuid ≡ true
      → Spec
          (locks_exclusive c)
          (view m)
          true
          (view (record m { writers = emplace c.uuid c.ptr m.writers }))
  exclusive_granted e =
      let sole = may_lock_exclusive-sole m c.uuid i e in
      inl (
        (
          λ w p. sole.0 w (has_of_count w m.writers p),
          λ r p. sole.1 r (has_of_count r m.readers p),
        ),
        refl,
        λ j. count-emplace c.uuid c.ptr m.writers j,
        λ j. refl,
      )

  exclusive_denied :
      may_lock_exclusive m c.uuid ≡ false → Spec (locks_exclusive c) (view m) false (view m)
  unfolding may_lock_exclusive
  exclusive_denied e = inr (
    λ n. elim (Bool-cases (has c.uuid m.writers)) [
      | inl h ↦ ground arith
      | inr h ↦ ground (
        arith,
        covers_of_has c.uuid m.readers (λ j g. n.1 j (count_of_has j m.readers g)),
        empty_of_has m.writers (λ j g.
            cc (h, g, ap (λ (w : ℕ). has w m.writers) (n.0 j (count_of_has j m.writers g)))),
      )
    ],
    refl,
    unchanged (view m),
  )

  shared_released :
      has c.uuid m.readers ≡ true
      → Spec
          (releases_shared c)
          (view m)
          true
          (view (record m { readers = erase c.uuid m.readers }))
  shared_released e =
      inl (count_of_has c.uuid m.readers e, refl, λ j. count-erase c.uuid m.readers j, λ j. refl)

  exclusive_released :
      has c.uuid m.writers ≡ true
      → Spec
          (releases_exclusive c)
          (view m)
          true
          (view (record m { writers = erase c.uuid m.writers }))
  exclusive_released e =
      inl (count_of_has c.uuid m.writers e, refl, λ j. count-erase c.uuid m.writers j, λ j. refl)

outcome-Spec :
    (expired : ℕ → Bool) (l : CompassLock) (action : Action)
    → IsExclusive (collect_expired_connections expired l)
    → Spec action
        (view (collect_expired_connections expired l))
        (outcome expired l action).1
        (view (outcome expired l action).0)
unfolding outcome try_lock_shared try_lock_exclusive release_lock_shared release_lock_exclusive
outcome-Spec expired l (locks_shared c) i =
    let m = collect_expired_connections expired l in
    if_cases (λ (r : CompassLock × Bool). Spec (locks_shared c) (view m) r.1 (view r.0))
      (may_lock_shared m c.uuid) _ _ (shared_granted c m i) (shared_denied c m i)
outcome-Spec expired l (locks_exclusive c) i =
    let m = collect_expired_connections expired l in
    if_cases (λ (r : CompassLock × Bool). Spec (locks_exclusive c) (view m) r.1 (view r.0))
      (may_lock_exclusive m c.uuid) _ _ (exclusive_granted c m i) (exclusive_denied c m i)
outcome-Spec expired l (releases_shared c) i =
    let m = collect_expired_connections expired l in
    if_cases (λ (r : CompassLock × Bool). Spec (releases_shared c) (view m) r.1 (view r.0))
      (has c.uuid m.readers) _ _ (shared_released c m i)
      (λ e. inr (ground (arith, has-count c.uuid m.readers), refl, unchanged (view m)))
outcome-Spec expired l (releases_exclusive c) i =
    let m = collect_expired_connections expired l in
    if_cases (λ (r : CompassLock × Bool). Spec (releases_exclusive c) (view m) r.1 (view r.0))
      (has c.uuid m.writers) _ _ (exclusive_released c m i)
      (λ e. inr (ground (arith, has-count c.uuid m.writers), refl, unchanged (view m)))

-- The specification's view of a lock before an action: the locks whose connections are still there,
-- counted entry by entry.
abbrev pub live_count : (ℕ → Bool) → ℕ → List (ℕ × ℕ) → ℕ
live_count expired k [] = 0
live_count expired k ((j, ptr) ∷ m) =
    if expired ptr
    then live_count expired k m
    else if j == k
    then suc (live_count expired k m)
    else live_count expired k m

abbrev pub living : (ℕ → Bool) → CompassLock → Holders
living expired l = record {
  shared = λ k. live_count expired k l.readers;
  exclusive = λ k. live_count expired k l.writers;
}

count-live_count :
    (expired : ℕ → Bool) (k : ℕ) (m : List (ℕ × ℕ))
    → count k (erase_if expired m) ≡ live_count expired k m
unfolding count erase_if
count-live_count expired k [] = refl
count-live_count expired k ((j, ptr) ∷ m) = ground (arith, count-live_count expired k m)

view-living :
    (expired : ℕ → Bool) (l : CompassLock)
    → view (collect_expired_connections expired l) ≡ living expired l
unfolding collect_expired_connections
view-living expired l =
    ap (λ (f : ℕ → ℕ). record { shared = f; exclusive = λ k. count k (erase_if expired l.writers) })
      (fun_ext λ k. count-live_count expired k l.readers)
    ∙ ap (λ (g : ℕ → ℕ). record { shared = (living expired l).shared; exclusive = g })
        (fun_ext λ k. count-live_count expired k l.writers)

-- From a lock that any calls have made, an action returns and does what the specification says of
-- the locks whose connections have not been destroyed: the others are dropped.
pub refines :
    (calls : List ((ℕ → Bool) × Call)) (expired : ℕ → Bool) (action : Action)
    → let l = run init calls in
      Spec action
        (living expired l)
        (outcome expired l action).1
        (view (outcome expired l action).0)
refines calls expired action =
    let l = run init calls in
    subst
      (λ (a : Holders).
        Spec action a (outcome expired l action).1 (view (outcome expired l action).0))
      (view-living expired l)
      (outcome-Spec expired l action
        (collect-IsExclusive expired l (run-IsExclusive init calls init-IsExclusive)))
