-- ===== src/Pilot/Key/Strings.antt =====
-- compass_key.cpp: which strings are keys.
use poseidon_circe.Prelude.{
  ℕ, zero, suc, ◌≤◌, ◌<◌, ◌≡◌, ◌⊎◌, refl, ap, [], ◌∷◌, ◌++◌, true, leb, length, take, arith, All,
  Bool-cases, inl, inr,
}
use poseidon_circe.Prelude.Bytes.{Bytes}
use poseidon_circe.Prelude.State.{ok, throw, exception}
use poseidon_circe.Pilot.Key.{s_table, contains, is_character_invalid, none_invalid, from_string}

abbrev pub Occurs : ℕ → Bytes → Type 0
Occurs ch [] = ⊥
Occurs ch (x ∷ xs) = (x ≡ ch) ⊎ Occurs ch xs

-- the characters of the table, and NUL
abbrev pub Accepted : ℕ → Type 0
Accepted ch = Occurs ch (s_table ++ 0 ∷ [])

Occurs-contains : (ch : ℕ) (xs : Bytes) → contains ch xs ≡ true → Occurs ch xs
unfolding contains
Occurs-contains ch [] h = cc
Occurs-contains ch (x ∷ xs) h = ground (arith, Occurs-contains ch xs)

contains-Occurs : (ch : ℕ) (xs : Bytes) → Occurs ch xs → contains ch xs ≡ true
unfolding contains
contains-Occurs ch [] h = absurd h
contains-Occurs ch (x ∷ xs) (inl e) = ground (arith, e)
contains-Occurs ch (x ∷ xs) (inr h) = ground (arith, contains-Occurs ch xs h)

none_invalid-All : (xs : Bytes) → none_invalid xs ≡ true → All Accepted xs
unfolding none_invalid is_character_invalid
none_invalid-All [] h = tt
none_invalid-All (x ∷ xs) h =
    (Occurs-contains x (s_table ++ 0 ∷ []) (ground arith), none_invalid-All xs (ground arith))

All-none_invalid : (xs : Bytes) → All Accepted xs → none_invalid xs ≡ true
unfolding none_invalid is_character_invalid
All-none_invalid [] h = refl
All-none_invalid (x ∷ xs) h =
    ground (arith, contains-Occurs x (s_table ++ 0 ∷ []) h.0, All-none_invalid xs h.1)

length-take : (n : ℕ) (xs : Bytes) → n ≤ length xs → length (take n xs) ≡ n
length-take zero xs h = refl
length-take (suc n) [] h = absurd (omega arith)
length-take (suc n) (x ∷ xs) h = ap (λ (l : ℕ). suc l) (length-take n xs (omega arith))

length-take_short : (n : ℕ) (xs : Bytes) → length xs < n → length (take n xs) < n
length-take_short zero xs h = absurd (omega arith)
length-take_short (suc n) [] h = omega arith
length-take_short (suc n) (x ∷ xs) h = let r = length-take_short n xs (omega arith) in omega arith

-- A string of 40 characters or more whose first 40 are in the table, or NUL, is accepted as these
-- 40, whatever follows them; every other string is refused.
pub from_string_lem :
    (str : Bytes)
    → ((40 ≤ length str) × All Accepted (take 40 str) × (from_string str ≡ ok (take 40 str)))
      ⊎ (((length str < 40) ⊎ ¬ All Accepted (take 40 str)) × (from_string str ≡ throw exception))
unfolding from_string
from_string_lem str = elim (Bool-cases (leb 40 (length str))) [
  | inr l ↦
      let h : length str < 40 = ground (arith, l) in
      inr (inl h, ground (arith, length-take_short 40 str h))
  | inl l ↦
      let h : 40 ≤ length str = ground (arith, l) in
      elim (Bool-cases (none_invalid (take 40 str))) [
        | inl e ↦ inl (h, none_invalid-All (take 40 str) e, ground (arith, length-take 40 str h))
        | inr e ↦ inr (
          inr (λ a. ground (arith, All-none_invalid (take 40 str) a)),
          ground (arith, length-take 40 str h),
        )
      ]
]
