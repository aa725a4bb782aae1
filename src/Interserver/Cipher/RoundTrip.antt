-- ===== src/Interserver/Cipher/RoundTrip.antt =====
-- interserver_connection.cpp: the `Stream_cipher` at both ends of a connection.
use poseidon_circe.Prelude.{
  ℕ, zero, suc, ◌+◌, ◌*◌, ◌/◌, ◌%◌, ◌^◌, ◌<◌, ◌≤◌, ◌≡◌, ◌∙◌, refl, ap, [], ◌∷◌, Bool, true, false,
  get_or, length, arith, All,
}
use poseidon_circe.Prelude.Bytes.{Bytes}
use poseidon_circe.Interserver.Cipher.{
  StreamCipher, bit_xor, set_at, filled, reset, refill, filter, filter_all,
}

bit_xor-cancel : (bits a b : ℕ) → b < 2 ^ bits → bit_xor bits a (bit_xor bits a b) ≡ b
unfolding bit_xor
bit_xor-cancel zero a b p = omega arith
bit_xor-cancel (suc bits) a b p =
    let x = bit_xor bits (a / 2) (b / 2) in
    let low : ((a % 2 + b % 2) % 2 + 2 * x) / 2 ≡ x = omega arith in
    rw low (omega (arith, bit_xor-cancel bits (a / 2) (b / 2) (omega arith)))

-- Encrypting a byte and decrypting what comes of it with the same state gives the byte, and the
-- same state.
filter-cancel :
    (aes : Bytes → Bytes → Bytes) (c : StreamCipher) (input : ℕ)
    → input < 256
    → filter aes c (filter aes c input true).1 false ≡ ((filter aes c input true).0, input)
unfolding filter
filter-cancel aes c input p =
    rw (bit_xor-cancel 8 (get_or (refill aes c).chunk (refill aes c).count 0) input p) refl

-- Whatever state both ciphers are in: the block that one encrypts the other decrypts to the same
-- bytes, and they are in the same state again.
pub filter_all-cancel :
    (aes : Bytes → Bytes → Bytes) (c : StreamCipher) (block : Bytes)
    → All (λ input. input < 256) block
    → filter_all aes c false (filter_all aes c true block).1
      ≡ ((filter_all aes c true block).0, block)
unfolding filter_all
filter_all-cancel aes c [] a = refl
filter_all-cancel aes c (input ∷ inputs) a =
    let c' = (filter aes c input true).0 in
    rw (filter-cancel aes c input a.0)
      (ap (λ r. (r.0, input ∷ r.1)) (filter_all-cancel aes c' inputs a.1))

length-set_at : (i x : ℕ) (xs : Bytes) → length (set_at i x xs) ≡ length xs
unfolding set_at
length-set_at i x [] = refl
length-set_at zero x (y ∷ ys) = refl
length-set_at (suc i) x (y ∷ ys) = ap suc (length-set_at i x ys)

-- The chunk has 16 bytes, of which at most all are used up.
abbrev pub IsInRange : StreamCipher → Type 0
IsInRange c = (length c.chunk ≡ 16) × (c.count ≤ 16)

module _ (aes : Bytes → Bytes → Bytes)
    (block_size : (key chunk : Bytes) → length chunk ≡ 16 → length (aes key chunk) ≡ 16) where
  refill-IsInRange :
      (c : StreamCipher)
      → IsInRange c
      → (length (refill aes c).chunk ≡ 16) × ((refill aes c).count < 16)
  unfolding refill
  refill-IsInRange c v = ground (arith, block_size c.key c.chunk)

  filter-IsInRange :
      (c : StreamCipher) (input : ℕ) (to_encrypt : Bool)
      → IsInRange c
      → IsInRange (filter aes c input to_encrypt).0
  unfolding filter
  filter-IsInRange c input to_encrypt v =
      let r = refill-IsInRange c v in (length-set_at _ _ _ ∙ r.0, omega (arith, r.1))

  filter_all-IsInRange :
      (c : StreamCipher) (to_encrypt : Bool) (block : Bytes)
      → IsInRange c
      → IsInRange (filter_all aes c to_encrypt block).0
  unfolding filter_all
  filter_all-IsInRange c to_encrypt [] v = v
  filter_all-IsInRange c to_encrypt (input ∷ inputs) v =
      filter_all-IsInRange (filter aes c input to_encrypt).0 to_encrypt inputs
        (filter-IsInRange c input to_encrypt v)

  -- From a reset on, whatever has been filtered: the byte that `filter` reads and writes next lies
  -- inside the chunk, so `m_chunk.at` never throws.
  pub filter-in_range :
      (seed : Bytes) (to_encrypt : Bool) (block : Bytes)
      → let c = refill aes (filter_all aes (reset seed) to_encrypt block).0 in
        c.count < length c.chunk
  unfolding reset filled
  filter-in_range seed to_encrypt block =
      let v = filter_all-IsInRange (reset seed) to_encrypt block (refl, omega arith) in
      let r = refill-IsInRange (filter_all aes (reset seed) to_encrypt block).0 v in
      omega (arith, r.0, r.1)
