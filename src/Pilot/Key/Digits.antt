-- ===== src/Pilot/Key/Digits.antt =====
-- compass_key.cpp: the base 85 digits of a digest.
use poseidon_circe.Prelude.{
  ℕ, zero, suc, ◌+◌, ◌*◌, ◌/◌, ◌%◌, ◌^◌, ◌≤◌, ◌<◌, ◌≡◌, ◌∙◌, refl, sym, ap, List, [], ◌∷◌, Bool,
  true, false, not, ◌&&◌, if◌then◌else◌, ◌==◌, ==_iff, length, take, get_or, arith, Bool-cases, inl,
  inr,
}
use poseidon_circe.Prelude.Bytes.{Bytes}
use poseidon_circe.Prelude.State.{ok}
use poseidon_circe.Pilot.Key.{
  s_table, contains, is_character_invalid, none_invalid, from_string, word_of, digits_of, encode,
  from_hash_of,
}

-- The place of a character in the table.
index_of : ℕ → Bytes → ℕ
index_of ch [] = 0
index_of ch (x ∷ xs) = if x == ch then 0 else suc (index_of ch xs)

-- whether a test passes on the digits from one on, as many as there are left
passes_from : (ℕ → Bool) → ℕ → ℕ → Bool
passes_from test digit zero = true
passes_from test digit (suc left) =
    let rest = passes_from test (suc digit) left in if test digit then rest else false

test_of_passes_from :
    (test : ℕ → Bool) (digit left i : ℕ)
    → digit ≤ i
    → i < digit + left
    → passes_from test digit left ≡ true
    → test i ≡ true
unfolding passes_from
test_of_passes_from test digit zero i q r e = absurd (omega arith)
test_of_passes_from test digit (suc left) i q r e = elim (Bool-cases (digit == i)) [
  | inl h ↦ ground arith
  | inr h ↦ ground (arith, test_of_passes_from test (suc digit) left i)
]

table_check :
    passes_from
      (λ i.
        (index_of (get_or s_table i 0) s_table == i)
        && not (is_character_invalid (get_or s_table i 0)))
      0
      85
    ≡ true
unfolding passes_from index_of s_table is_character_invalid contains
table_check = refl

table_lem :
    (i : ℕ)
    → i < 85
    → (index_of (get_or s_table i 0) s_table ≡ i)
      × (is_character_invalid (get_or s_table i 0) ≡ false)
table_lem i h =
    let e =
      test_of_passes_from
        (λ j.
          (index_of (get_or s_table j 0) s_table == j)
          && not (is_character_invalid (get_or s_table j 0)))
        0 85 i (omega arith) (omega (arith, h)) table_check in
    ground (arith, ==_iff (index_of (get_or s_table i 0) s_table) i)

-- The number that the first five characters of a key stand for.
value_of : Bytes → ℕ
value_of (a ∷ b ∷ c ∷ d ∷ e ∷ chars) =
    (((index_of a s_table * 85 + index_of b s_table) * 85 + index_of c s_table) * 85
        + index_of d s_table)
      * 85
    + index_of e s_table
value_of _ = 0

value_of-digits_of :
    (word : ℕ) (chars : Bytes) → word < 2 ^ 32 → value_of (digits_of 5 word chars) ≡ word
unfolding value_of digits_of
value_of-digits_of word chars h = omega (
  arith,
  (table_lem (word % 85) (omega arith)).0,
  (table_lem (word / 85 % 85) (omega arith)).0,
  (table_lem (word / 85 / 85 % 85) (omega arith)).0,
  (table_lem (word / 85 / 85 / 85 % 85) (omega arith)).0,
  (table_lem (word / 85 / 85 / 85 / 85 % 85) (omega arith)).0,
)

drop_digits : Bytes → Bytes
drop_digits (a ∷ b ∷ c ∷ d ∷ e ∷ chars) = chars
drop_digits _ = []

-- Bytes in whole groups of four, `n` of them.
abbrev pub IsDigest : ℕ → List ℕ → Type 0
IsDigest zero [] = Unit {0}
IsDigest zero (x ∷ xs) = ⊥
IsDigest (suc n) (a ∷ b ∷ c ∷ d ∷ xs) =
    (a < 256) × (b < 256) × (c < 256) × (d < 256) × IsDigest n xs
IsDigest (suc n) _ = ⊥

word_of-bound : (a b c d : ℕ) → word_of a b c d < 2 ^ 32
unfolding word_of
word_of-bound a b c d = omega arith

word_of-injective :
    (a b c d a' b' c' d' : ℕ)
    → (a < 256) × (b < 256) × (c < 256) × (d < 256)
    → (a' < 256) × (b' < 256) × (c' < 256) × (d' < 256)
    → word_of a b c d ≡ word_of a' b' c' d'
    → (a ≡ a') × (b ≡ b') × (c ≡ c') × (d ≡ d')
unfolding word_of
word_of-injective a b c d a' b' c' d' p q e = omega arith

-- Two digests with the same key are the same: no two of them share one by the encoding.
pub encode-injective :
    (n : ℕ) (xs ys : List ℕ) → IsDigest n xs → IsDigest n ys → encode xs ≡ encode ys → xs ≡ ys
unfolding encode
encode-injective zero [] [] p q e = refl
encode-injective zero [] (y ∷ ys) p q e = elim q [ ]
encode-injective zero (x ∷ xs) ys p q e = elim p [ ]
encode-injective (suc n) [] ys p q e = elim p [ ]
encode-injective (suc n) (a ∷ []) ys p q e = elim p [ ]
encode-injective (suc n) (a ∷ b ∷ []) ys p q e = elim p [ ]
encode-injective (suc n) (a ∷ b ∷ c ∷ []) ys p q e = elim p [ ]
encode-injective (suc n) (a ∷ b ∷ c ∷ d ∷ xs) [] p q e = elim q [ ]
encode-injective (suc n) (a ∷ b ∷ c ∷ d ∷ xs) (a' ∷ []) p q e = elim q [ ]
encode-injective (suc n) (a ∷ b ∷ c ∷ d ∷ xs) (a' ∷ b' ∷ []) p q e = elim q [ ]
encode-injective (suc n) (a ∷ b ∷ c ∷ d ∷ xs) (a' ∷ b' ∷ c' ∷ []) p q e = elim q [ ]
encode-injective (suc n) (a ∷ b ∷ c ∷ d ∷ xs) (a' ∷ b' ∷ c' ∷ d' ∷ ys) p q e =
    let words : word_of a b c d ≡ word_of a' b' c' d' =
      sym (value_of-digits_of (word_of a b c d) (encode xs) (word_of-bound a b c d))
      ∙ ap value_of e
      ∙ value_of-digits_of (word_of a' b' c' d') (encode ys) (word_of-bound a' b' c' d') in
    let rest : encode xs ≡ encode ys = unfold drop_digits digits_of in ap drop_digits e in
    let same =
      word_of-injective a b c d a' b' c' d' (p.0, p.1, p.2, p.3) (q.0, q.1, q.2, q.3) words in
    let tails : xs ≡ ys = encode-injective n xs ys p.4 q.4 rest in cc

none_invalid-digits_of :
    (n word : ℕ) (chars : Bytes)
    → none_invalid chars ≡ true
    → none_invalid (digits_of n word chars) ≡ true
unfolding digits_of none_invalid
none_invalid-digits_of zero word chars h = h
none_invalid-digits_of (suc n) word chars h =
    none_invalid-digits_of n (word / 85) (get_or s_table (word % 85) 0 ∷ chars)
      (rw (table_lem (word % 85) (omega arith)).1 h)

length-digits_of : (n word : ℕ) (chars : Bytes) → length (digits_of n word chars) ≡ n + length chars
unfolding digits_of
length-digits_of zero word chars = omega arith
length-digits_of (suc n) word chars =
    omega (arith, length-digits_of n (word / 85) (get_or s_table (word % 85) 0 ∷ chars))

length-encode : (n : ℕ) (xs : List ℕ) → IsDigest n xs → length (encode xs) ≡ 5 * n
unfolding encode
length-encode zero [] p = refl
length-encode zero (x ∷ xs) p = elim p [ ]
length-encode (suc n) [] p = elim p [ ]
length-encode (suc n) (a ∷ []) p = elim p [ ]
length-encode (suc n) (a ∷ b ∷ []) p = elim p [ ]
length-encode (suc n) (a ∷ b ∷ c ∷ []) p = elim p [ ]
length-encode (suc n) (a ∷ b ∷ c ∷ d ∷ xs) p =
    omega (arith, length-digits_of 5 (word_of a b c d) (encode xs), length-encode n xs p.4)

none_invalid-encode : (n : ℕ) (xs : List ℕ) → IsDigest n xs → none_invalid (encode xs) ≡ true
unfolding encode
none_invalid-encode zero [] p = unfold none_invalid in refl
none_invalid-encode zero (x ∷ xs) p = elim p [ ]
none_invalid-encode (suc n) [] p = elim p [ ]
none_invalid-encode (suc n) (a ∷ []) p = elim p [ ]
none_invalid-encode (suc n) (a ∷ b ∷ []) p = elim p [ ]
none_invalid-encode (suc n) (a ∷ b ∷ c ∷ []) p = elim p [ ]
none_invalid-encode (suc n) (a ∷ b ∷ c ∷ d ∷ xs) p =
    none_invalid-digits_of 5 (word_of a b c d) (encode xs) (none_invalid-encode n xs p.4)

take_all : (n : ℕ) (xs : Bytes) → length xs ≡ n → take n xs ≡ xs
take_all zero [] h = refl
take_all zero (x ∷ xs) h = absurd (omega arith)
take_all (suc n) [] h = refl
take_all (suc n) (x ∷ xs) h = ap (◌∷◌ x) (take_all n xs (omega arith))

-- The key made of a digest of 32 bytes is accepted where a key is read from a string, unchanged.
pub from_string-from_hash_of :
    (sha256 : Bytes → List ℕ) (str : Bytes)
    → IsDigest 8 (sha256 str)
    → from_string (from_hash_of sha256 str) ≡ ok (from_hash_of sha256 str)
unfolding from_string from_hash_of
from_string-from_hash_of sha256 str h =
    let l : length (encode (sha256 str)) ≡ 40 = length-encode 8 (sha256 str) h in
    rw (take_all 40 (encode (sha256 str)) l, l, none_invalid-encode 8 (sha256 str) h)
