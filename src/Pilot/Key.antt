-- ===== src/Pilot/Key.antt =====
-- circe-pilot/circe-pilot/src/compass_key.hpp and compass_key.cpp: the key of a compass, 40
-- characters in base 85 by the table of RFC 1924. SHA-256 is a parameter: a digest is 32 bytes.
pub mod Digits
pub mod Strings
use poseidon_circe.Prelude.{
  ℕ, zero, suc, ◌+◌, ◌*◌, ◌/◌, ◌%◌, ◌^◌, List, [], ◌∷◌, ◌++◌, Bool, true, false, not, if◌then◌else◌,
  ◌==◌, length, take, get_or,
}
use poseidon_circe.Prelude.Bytes.{Bytes, codes}
use poseidon_circe.Prelude.State.{Result, ok, throw, exception}

-- `s_table`, without the NUL behind it
unfoldable pub s_table : Bytes
unfolding codes
s_table =
    codes "0123456789ABCDEFGHIJKLMNOPQRSTUVWXYZabcdefghijklmnopqrstuvwxyz!#$%&()*+-;<=>?@^_`{|}~"

unfoldable pub contains : ℕ → Bytes → Bool
contains ch [] = false
contains ch (x ∷ xs) = if x == ch then true else contains ch xs

-- `strchr(s_table, ch) == NULLPTR`; `strchr` looks at the terminating NUL too
unfoldable pub is_character_invalid : ℕ → Bool
is_character_invalid ch = not (contains ch (s_table ++ 0 ∷ []))

-- `std::find_if(chars.begin(), chars.end(), &is_character_invalid) == chars.end()`
unfoldable pub none_invalid : Bytes → Bool
none_invalid [] = true
none_invalid (ch ∷ chars) = if is_character_invalid ch then false else none_invalid chars

-- `str.copy(chars.data(), 40)` copies what is there, up to 40 characters, and returns their number.
unfoldable pub from_string : Bytes → Result Bytes
from_string str =
    let chars = take 40 str in
    if not (length chars == 40)
    then throw exception
    else if not (none_invalid chars)
    then throw exception
    else ok chars

-- the first inner loop, from four bytes on
unfoldable pub word_of : ℕ → ℕ → ℕ → ℕ → ℕ
word_of a b c d = (((((0 * 256 + a) * 256 + b) * 256 + c) * 256) + d) % 2 ^ 32

-- the second inner loop: the last character comes first
unfoldable pub digits_of : ℕ → ℕ → Bytes → Bytes
digits_of zero word chars = chars
digits_of (suc n) word chars = digits_of n (word / 85) (get_or s_table (word % 85) 0 ∷ chars)

-- the outer loop over the groups of four bytes
unfoldable pub encode : List ℕ → Bytes
unfolding word_of digits_of
encode (a ∷ b ∷ c ∷ d ∷ sha256) = digits_of 5 (word_of a b c d) (encode sha256)
encode _ = []

unfoldable pub from_hash_of : (Bytes → List ℕ) → Bytes → Bytes
from_hash_of sha256 str = encode (sha256 str)
