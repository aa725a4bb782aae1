-- ===== src/FlatMap/Weak.antt =====
-- The maps whose values are `weak_ptr`s: a value is the address of an object, and `expired` says
-- which objects have been destroyed.
use poseidon_circe.Prelude.{
  ℕ, ◌+◌, ◌≤◌, ◌≡◌, refl, List, [], ◌∷◌, ◌++◌, Bool, true, false, if◌then◌else◌, Option, none, some,
  ◌==◌, arith, length, is_some, All, Bool-cases, inl, inr,
}
use poseidon_circe.Prelude.State.{M, Error, ok, throw}
use poseidon_circe.FlatMap.{
  find, has, count, emplace, erase_if, has-count, count-emplace, count-erase_if,
}
use mathlib.Core.List.{append-nil, append_assoc}

-- No key has two entries, as in every `flat_map`.
abbrev pub IsUnique : List (ℕ × ℕ) → Type 0
IsUnique m = (k : ℕ) → count k m ≤ 1

pub find-emplace {ℓ} :
    {A : Type ℓ} (k j : ℕ) (ptr : A) (m : List (ℕ × A))
    → has k m ≡ false
    → find j (emplace k ptr m) ≡ (if k == j then some ptr else find j m)
unfolding find emplace has
find-emplace k j ptr [] h = refl
find-emplace k j ptr ((i, b) ∷ m) h = ground (arith, find-emplace k j ptr m)

pub find-has {ℓ} : {A : Type ℓ} (k : ℕ) (m : List (ℕ × A)) → has k m ≡ false → find k m ≡ none
unfolding find has
find-has k [] h = refl
find-has k ((i, b) ∷ m) h = ground (arith, find-has k m)

pub has_iff_find {ℓ} : {A : Type ℓ} (k : ℕ) (m : List (ℕ × A)) → has k m ≡ is_some (find k m)
unfolding find has
has_iff_find k [] = refl
has_iff_find k ((i, b) ∷ m) = ground (arith, has_iff_find k m)

-- What holds of every entry is kept by an erasure, and by an emplacement of such an entry.
pub All-erase_if :
    (P : ℕ × ℕ → Type 0) (p : ℕ → Bool) (m : List (ℕ × ℕ)) → All P m → All P (erase_if p m)
unfolding erase_if
All-erase_if P p [] a = tt
All-erase_if P p ((i, b) ∷ m) a = ground (arith, All-erase_if P p m a.1)

pub All-emplace :
    (P : ℕ × ℕ → Type 0) (k ptr : ℕ) (m : List (ℕ × ℕ))
    → P (k, ptr)
    → All P m
    → All P (emplace k ptr m)
unfolding emplace
All-emplace P k ptr [] p a = (p, tt)
All-emplace P k ptr ((i, b) ∷ m) p a = ground (arith, All-emplace P k ptr m p a.1)

module _ (expired : ℕ → Bool) where
  -- `it->second.lock()`, where the entry was found
  unfoldable pub lock : Option ℕ → Option ℕ
  lock none = none
  lock (some ptr) = if expired ptr then none else some ptr

  unfoldable pub find_live : ℕ → List (ℕ × ℕ) → Option ℕ
  unfolding lock
  find_live k m = lock (find k m)

  -- the loop that erases the expired entries, and the emplacement, which fails where the key is taken
  unfoldable pub insert_live : Error → ℕ → ℕ → M (List (ℕ × ℕ)) (Unit {0})
  insert_live e k ptr m =
      let m' = erase_if expired m in if has k m' then (m', throw e) else (emplace k ptr m', ok tt)

  -- the loop that collects the objects that are still there, and counts them
  unfoldable pub collect_live : List (ℕ × ℕ) → List ℕ → List ℕ × ℕ
  collect_live [] ret = (ret, 0)
  collect_live ((k, ptr) ∷ m) ret = elim (expired ptr) [
    | true ↦ collect_live m ret
    | false ↦ let (ret', n) = collect_live m (ret ++ ptr ∷ []) in (ret', n + 1)
  ]

  -- the addresses of the objects that are still there
  unfoldable pub live : List (ℕ × ℕ) → List ℕ
  live [] = []
  live ((k, ptr) ∷ m) = let rest = live m in if expired ptr then rest else ptr ∷ rest

  pub collect_live_lem :
      (m : List (ℕ × ℕ)) (ret : List ℕ) → collect_live m ret ≡ (ret ++ live m, length (live m))
  unfolding collect_live live
  collect_live_lem [] ret = ground (arith, append-nil ret)
  collect_live_lem ((k, ptr) ∷ m) ret = ground (
    arith,
    collect_live_lem m ret,
    collect_live_lem m (ret ++ ptr ∷ []),
    append_assoc ret (ptr ∷ []) (live m),
  )

  find-absent : (k : ℕ) (m : List (ℕ × ℕ)) → count k m ≡ 0 → find k (erase_if expired m) ≡ none
  unfolding find count erase_if
  find-absent k [] c = refl
  find-absent k ((i, b) ∷ m) c = ground (arith, find-absent k m)

  -- Erasing the expired entries takes nothing away that is still there.
  pub find_live-erase_if :
      (k : ℕ) (m : List (ℕ × ℕ)) → count k m ≤ 1 → find_live k (erase_if expired m) ≡ find_live k m
  unfolding find_live lock find count erase_if
  find_live-erase_if k [] c = refl
  find_live-erase_if k ((i, b) ∷ m) c = ground (arith, find_live-erase_if k m, find-absent k m)

  pub find_live-emplace :
      (k j ptr : ℕ) (m : List (ℕ × ℕ))
      → count j m ≤ 1
      → expired ptr ≡ false
      → has k (erase_if expired m) ≡ false
      → find_live j (emplace k ptr (erase_if expired m))
        ≡ (if k == j then some ptr else find_live j m)
  unfolding find_live lock
  find_live-emplace k j ptr m u x h =
      ground (arith, find-emplace k j ptr (erase_if expired m) h, find_live-erase_if j m u)

  pub insert_live-IsUnique :
      (e : Error) (k ptr : ℕ) (m : List (ℕ × ℕ)) → IsUnique m → IsUnique (insert_live e k ptr m).0
  unfolding insert_live
  insert_live-IsUnique e k ptr m u j = ground (
    arith,
    u j,
    count-erase_if expired m j,
    has-count k (erase_if expired m),
    count-emplace k ptr (erase_if expired m) j,
  )

  -- After an insertion that succeeds, of an object that is there still, it is found under its key,
  -- and under every other key is found what was found before.
  pub find_live-insert_live :
      (e : Error) (k ptr j : ℕ) (m m' : List (ℕ × ℕ))
      → IsUnique m
      → expired ptr ≡ false
      → insert_live e k ptr m ≡ (m', ok tt)
      → find_live j m' ≡ (if k == j then some ptr else find_live j m)
  unfolding insert_live
  find_live-insert_live e k ptr j m m' u x h = elim (Bool-cases (has k (erase_if expired m))) [
    | inl taken ↦ ground arith
    | inr free ↦
        let same : emplace k ptr (erase_if expired m) ≡ m' = ground arith in
        rw (← same) (find_live-emplace k j ptr m (u j) x free)
  ]

  pub All-insert_live :
      (P : ℕ × ℕ → Type 0) (e : Error) (k ptr : ℕ) (m : List (ℕ × ℕ))
      → P (k, ptr)
      → All P m
      → All P (insert_live e k ptr m).0
  unfolding insert_live
  All-insert_live P e k ptr m p a = elim (Bool-cases (has k (erase_if expired m))) [
    | inl taken ↦ rw taken (All-erase_if P expired m a)
    | inr free ↦ rw free (All-emplace P k ptr (erase_if expired m) p (All-erase_if P expired m a))
  ]

  -- What is found and is there still has an entry.
  pub All-find_live :
      (P : ℕ × ℕ → Type 0) (k ptr : ℕ) (m : List (ℕ × ℕ))
      → All P m
      → find_live k m ≡ some ptr
      → P (k, ptr) × (expired ptr ≡ false)
  unfolding find_live lock find
  All-find_live P k ptr [] a h = cc
  All-find_live P k ptr ((i, b) ∷ m) a h = ground (arith, All-find_live P k ptr m a.1)
