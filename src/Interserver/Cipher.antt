-- ===== src/Interserver/Cipher.antt =====
-- circe-common/circe-common/src/interserver_connection.cpp: `Stream_cipher`, AES in the mode of
-- cipher feedback over blocks of 16 bytes.
--
-- `aes` stands for `AES_encrypt` with the key that `AES_set_encrypt_key` makes of a seed of 32
-- bytes. A byte is a number below 256.
pub mod RoundTrip
use poseidon_circe.Prelude.{
  ℕ, zero, suc, ◌+◌, ◌*◌, ◌/◌, ◌%◌, ◌^◌, ◌<◌, ◌≤◌, ◌≡◌, ◌∙◌, refl, ap, List, [], ◌∷◌, Bool, true,
  false, if◌then◌else◌, ◌==◌, get_or, length, arith, Bool-cases, inl, inr,
}
use poseidon_circe.Prelude.Bytes.{Bytes}

pub record StreamCipher : Type 0 where
  pub key : Bytes
  pub chunk : Bytes
  pub count : ℕ

-- `^` on numbers of so many bits
unfoldable pub bit_xor : ℕ → ℕ → ℕ → ℕ
bit_xor zero a b = 0
bit_xor (suc bits) a b = (a % 2 + b % 2) % 2 + 2 * bit_xor bits (a / 2) (b / 2)

-- an assignment to an element of an array
unfoldable pub set_at : ℕ → ℕ → Bytes → Bytes
set_at i x [] = []
set_at zero x (y ∷ ys) = x ∷ ys
set_at (suc i) x (y ∷ ys) = y ∷ set_at i x ys

-- `n` bytes of the same value
unfoldable pub filled : ℕ → ℕ → Bytes
filled zero x = []
filled (suc n) x = x ∷ filled n x

unfoldable pub reset : Bytes → StreamCipher
unfolding filled
reset seed = record { key = seed; chunk = filled 16 42; count = 16 }

module _ (aes : Bytes → Bytes → Bytes) where
  -- the encryption of the chunk, once it is used up
  unfoldable pub refill : StreamCipher → StreamCipher
  refill c = if c.count == 16 then record c { chunk = aes c.key c.chunk; count = 0 } else c

  -- One byte in, one byte out.
  unfoldable pub filter : StreamCipher → ℕ → Bool → StreamCipher × ℕ
  unfolding refill
  filter c input to_encrypt =
      let c' = refill c in
      let output = bit_xor 8 (get_or c'.chunk c'.count 0) input in
      (
        record c' {
          chunk = set_at c'.count (if to_encrypt then output else input) c'.chunk;
          count = suc c'.count;
        },
        output,
      )

  -- the loops over a block in `Message_filter`
  unfoldable pub filter_all : StreamCipher → Bool → Bytes → StreamCipher × Bytes
  filter_all c to_encrypt [] = (c, [])
  filter_all c to_encrypt (input ∷ inputs) =
      let (c', output) = filter c input to_encrypt in
      let (c'', outputs) = filter_all c' to_encrypt inputs in (c'', output ∷ outputs)
