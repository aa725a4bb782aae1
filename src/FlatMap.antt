-- ===== src/FlatMap.antt =====
-- The containers `boost::container::flat_map` and `flat_multimap` as the program uses them: lists
-- of entries in the order of their keys, which a loop walks from `begin()` to `end()`. An iterator
-- is the number of entries in front of it. A key (a `Poseidon::Uuid`, a serial) is a number.
pub mod Weak
use poseidon_circe.Prelude.{
  ℕ, suc, ◌-◌, ◌≤◌, ◌≡◌, refl, List, [], ◌∷◌, Option, none, some, Bool, true, false, ◌&&◌, ltb, leb,
  ◌==◌, if◌then◌else◌, length, is_empty, All, arith,
}

module _ {ℓ} {A : Type ℓ} where
  unfoldable pub lower_bound : ℕ → List (ℕ × A) → ℕ
  lower_bound k [] = 0
  lower_bound k ((j, b) ∷ m) = if ltb j k then suc (lower_bound k m) else 0

  unfoldable pub upper_bound : ℕ → List (ℕ × A) → ℕ
  upper_bound k [] = 0
  upper_bound k ((j, b) ∷ m) = if leb j k then suc (upper_bound k m) else 0

  -- `m.equal_range(k) == std::make_pair(m.begin(), m.end())`
  unfoldable pub covers : ℕ → List (ℕ × A) → Bool
  unfolding lower_bound upper_bound
  covers k m = lower_bound k m == 0 && upper_bound k m == length m

  -- `m.find(k) != m.end()`
  unfoldable pub has : ℕ → List (ℕ × A) → Bool
  has k [] = false
  has k ((j, b) ∷ m) = if j == k then true else has k m

  -- what `m.find(k)` points to
  unfoldable pub find : ℕ → List (ℕ × A) → Option A
  find k [] = none
  find k ((j, b) ∷ m) = if j == k then some b else find k m

  -- `flat_multimap::emplace`: behind the entries of the same key
  unfoldable pub emplace : ℕ → A → List (ℕ × A) → List (ℕ × A)
  emplace k a [] = (k, a) ∷ []
  emplace k a ((j, b) ∷ m) = if leb j k then (j, b) ∷ emplace k a m else (k, a) ∷ (j, b) ∷ m

  -- `m.erase(m.find(k))`: the first entry of that key
  unfoldable pub erase : ℕ → List (ℕ × A) → List (ℕ × A)
  erase k [] = []
  erase k ((j, b) ∷ m) = if j == k then m else (j, b) ∷ erase k m

  -- the loop that erases the entries whose value passes a test
  unfoldable pub erase_if : (A → Bool) → List (ℕ × A) → List (ℕ × A)
  erase_if p [] = []
  erase_if p ((j, b) ∷ m) = if p b then erase_if p m else (j, b) ∷ erase_if p m

  abbrev pub Sorted : List (ℕ × A) → Type 0
  Sorted [] = Unit {0}
  Sorted ((j, b) ∷ m) = All (λ e. j ≤ e.0) m × Sorted m

  All-mono : {i j : ℕ} (m : List (ℕ × A)) → i ≤ j → All (λ e. j ≤ e.0) m → All (λ e. i ≤ e.0) m
  All-mono [] h a = tt
  All-mono (e ∷ m) h a = (omega arith, All-mono m h a.1)

  All-emplace :
      (i : ℕ) (k : ℕ) (a : A) (m : List (ℕ × A))
      → i ≤ k
      → All (λ e. i ≤ e.0) m
      → All (λ e. i ≤ e.0) (emplace k a m)
  unfolding emplace
  All-emplace i k a [] h s = (h, tt)
  All-emplace i k a ((j, b) ∷ m) h s = ground (arith, All-emplace i k a m h s.1)

  pub emplace-Sorted : (k : ℕ) (a : A) (m : List (ℕ × A)) → Sorted m → Sorted (emplace k a m)
  unfolding emplace
  emplace-Sorted k a [] s = (tt, tt)
  emplace-Sorted k a ((j, b) ∷ m) s =
      ground (arith, emplace-Sorted k a m s.1, All-emplace j k a m, All-mono {i = k} {j = j} m)

  All-erase :
      (i : ℕ) (k : ℕ) (m : List (ℕ × A)) → All (λ e. i ≤ e.0) m → All (λ e. i ≤ e.0) (erase k m)
  unfolding erase
  All-erase i k [] s = tt
  All-erase i k ((j, b) ∷ m) s = ground (arith, All-erase i k m s.1)

  pub erase-Sorted : (k : ℕ) (m : List (ℕ × A)) → Sorted m → Sorted (erase k m)
  unfolding erase
  erase-Sorted k [] s = tt
  erase-Sorted k ((j, b) ∷ m) s = ground (arith, erase-Sorted k m s.1, All-erase j k m s.0)

  All-erase_if :
      (i : ℕ) (p : A → Bool) (m : List (ℕ × A))
      → All (λ e. i ≤ e.0) m
      → All (λ e. i ≤ e.0) (erase_if p m)
  unfolding erase_if
  All-erase_if i p [] s = tt
  All-erase_if i p ((j, b) ∷ m) s = ground (arith, All-erase_if i p m s.1)

  pub erase_if-Sorted : (p : A → Bool) (m : List (ℕ × A)) → Sorted m → Sorted (erase_if p m)
  unfolding erase_if
  erase_if-Sorted p [] s = tt
  erase_if-Sorted p ((j, b) ∷ m) s = ground (arith, erase_if-Sorted p m s.1, All-erase_if j p m s.0)

  pub has-emplace :
      (k : ℕ) (a : A) (m : List (ℕ × A)) (j : ℕ)
      → has j (emplace k a m) ≡ (if k == j then true else has j m)
  unfolding has emplace
  has-emplace k a [] j = refl
  has-emplace k a ((i, b) ∷ m) j = ground (arith, has-emplace k a m j)

  -- What an erasure leaves was there.
  pub has-erase : (k : ℕ) (m : List (ℕ × A)) (j : ℕ) → has j (erase k m) ≡ true → has j m ≡ true
  unfolding has erase
  has-erase k [] j h = h
  has-erase k ((i, b) ∷ m) j h = ground (arith, has-erase k m j)

  pub has-erase_if :
      (p : A → Bool) (m : List (ℕ × A)) (j : ℕ) → has j (erase_if p m) ≡ true → has j m ≡ true
  unfolding has erase_if
  has-erase_if p [] j h = h
  has-erase_if p ((i, b) ∷ m) j h = ground (arith, has-erase_if p m j)

  has_above : (i j : ℕ) (m : List (ℕ × A)) → All (λ e. i ≤ e.0) m → has j m ≡ true → i ≤ j
  unfolding has
  has_above i j [] s h = cc
  has_above i j ((l, b) ∷ m) s h = ground (arith, has_above i j m s.1)

  upper_bound-has :
      (k j : ℕ) (m : List (ℕ × A)) → upper_bound k m ≡ length m → has j m ≡ true → j ≤ k
  unfolding upper_bound has
  upper_bound-has k j [] u h = cc
  upper_bound-has k j ((i, b) ∷ m) u h = ground (arith, upper_bound-has k j m)

  -- The range of a key is the whole map only if no other key has an entry.
  pub has-covers :
      (k j : ℕ) (m : List (ℕ × A)) → Sorted m → covers k m ≡ true → has j m ≡ true → j ≡ k
  unfolding covers
  has-covers k j [] s c h = unfold has in cc
  has-covers k j ((i, b) ∷ m) s c h =
      unfold has lower_bound upper_bound in
      ground (arith, upper_bound-has k j m, has_above i j m s.0)

  has-upper_bound :
      (k : ℕ) (m : List (ℕ × A))
      → ((j : ℕ) → has j m ≡ true → j ≡ k)
      → (lower_bound k m ≡ 0) × (upper_bound k m ≡ length m)
  unfolding has lower_bound upper_bound
  has-upper_bound k [] h = (refl, refl)
  has-upper_bound k ((i, b) ∷ m) h =
      let e : i ≡ k = h i (ground arith) in
      ground (arith, has-upper_bound k m (λ j g. h j (ground arith)))

  -- And if no other key has an entry, it is.
  pub covers_of_has :
      (k : ℕ) (m : List (ℕ × A)) → ((j : ℕ) → has j m ≡ true → j ≡ k) → covers k m ≡ true
  unfolding covers
  covers_of_has k m h = ground (arith, has-upper_bound k m h)

  pub has-is_empty : (j : ℕ) (m : List (ℕ × A)) → is_empty m ≡ true → has j m ≡ false
  unfolding has
  has-is_empty j [] h = refl
  has-is_empty j (e ∷ m) h = cc

  -- The number of entries of a key.
  unfoldable pub count : ℕ → List (ℕ × A) → ℕ
  count k [] = 0
  count k ((j, b) ∷ m) = if j == k then suc (count k m) else count k m

  pub has-count : (k : ℕ) (m : List (ℕ × A)) → has k m ≡ ltb 0 (count k m)
  unfolding has count
  has-count k [] = refl
  has-count k ((j, b) ∷ m) = ground (arith, has-count k m)

  pub count-emplace :
      (k : ℕ) (a : A) (m : List (ℕ × A)) (j : ℕ)
      → count j (emplace k a m) ≡ (if k == j then suc (count j m) else count j m)
  unfolding count emplace
  count-emplace k a [] j = refl
  count-emplace k a ((i, b) ∷ m) j = ground (arith, count-emplace k a m j)

  pub count-erase :
      (k : ℕ) (m : List (ℕ × A)) (j : ℕ)
      → count j (erase k m) ≡ (if k == j then count j m - 1 else count j m)
  unfolding count erase
  count-erase k [] j = ground arith
  count-erase k ((i, b) ∷ m) j = ground (arith, count-erase k m j)

  -- What is left by the loop that erases the expired entries: none of them passes the test.
  abbrev pub NoneOf : (A → Bool) → List (ℕ × A) → Type 0
  NoneOf p m = All (λ e. p e.1 ≡ false) m

  pub erase_if-NoneOf : (p : A → Bool) (m : List (ℕ × A)) → NoneOf p (erase_if p m)
  unfolding erase_if
  erase_if-NoneOf p [] = tt
  erase_if-NoneOf p ((j, b) ∷ m) = ground (arith, erase_if-NoneOf p m)

  pub erase_if_of_NoneOf : (p : A → Bool) (m : List (ℕ × A)) → NoneOf p m → erase_if p m ≡ m
  unfolding erase_if
  erase_if_of_NoneOf p [] n = refl
  erase_if_of_NoneOf p ((j, b) ∷ m) n = rw n.0 (rw (erase_if_of_NoneOf p m n.1))

  pub emplace-NoneOf :
      (p : A → Bool) (k : ℕ) (a : A) (m : List (ℕ × A))
      → p a ≡ false
      → NoneOf p m
      → NoneOf p (emplace k a m)
  unfolding emplace
  emplace-NoneOf p k a [] h n = (h, tt)
  emplace-NoneOf p k a ((j, b) ∷ m) h n = ground (arith, emplace-NoneOf p k a m h n.1)

  pub erase-NoneOf : (p : A → Bool) (k : ℕ) (m : List (ℕ × A)) → NoneOf p m → NoneOf p (erase k m)
  unfolding erase
  erase-NoneOf p k [] n = tt
  erase-NoneOf p k ((j, b) ∷ m) n = ground (arith, erase-NoneOf p k m n.1)

  pub count-erase_if :
      (p : A → Bool) (m : List (ℕ × A)) (j : ℕ) → count j (erase_if p m) ≤ count j m
  unfolding count erase_if
  count-erase_if p [] j = omega arith
  count-erase_if p ((i, b) ∷ m) j = ground (arith, count-erase_if p m j)
