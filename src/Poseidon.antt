-- ===== src/Poseidon.antt =====
-- What the program takes from the Poseidon framework, which is a submodule and not in the
-- repository: arithmetic of `uint64_t` that saturates or is checked, as its documentation has it.
use poseidon_circe.Prelude.{
  ℕ, ◌+◌, ◌-◌, ◌<◌, ◌^◌, ◌≡◌, refl, Option, none, some, ltb, min, if◌then◌else◌,
}

pub record Arith64 : Type 0 where
  pub saturated_add : ℕ → ℕ → ℕ
  pub saturated_sub : ℕ → ℕ → ℕ
  pub checked_add : ℕ → ℕ → Option ℕ
  pub saturated_add_lem :
      (a b : ℕ) → a < 2 ^ 64 → b < 2 ^ 64 → saturated_add a b ≡ min (a + b) (2 ^ 64 - 1)
  pub saturated_sub_lem : (a b : ℕ) → a < 2 ^ 64 → b < 2 ^ 64 → saturated_sub a b ≡ a - b
  pub checked_add_lem :
      (a b : ℕ)
      → a < 2 ^ 64
      → b < 2 ^ 64
      → checked_add a b ≡ (if ltb (a + b) (2 ^ 64) then some (a + b) else none)

-- An arithmetic as documented, for tests.
abbrev pub documented : Arith64
documented = record {
  saturated_add = λ a b. min (a + b) (2 ^ 64 - 1);
  saturated_sub = λ a b. a - b;
  checked_add = λ a b. if ltb (a + b) (2 ^ 64) then some (a + b) else none;
  saturated_add_lem = λ a b p q. refl;
  saturated_sub_lem = λ a b p q. refl;
  checked_add_lem = λ a b p q. refl;
}
