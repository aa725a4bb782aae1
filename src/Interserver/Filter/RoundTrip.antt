-- ===== src/Interserver/Filter/RoundTrip.antt =====
-- interserver_connection.cpp: the `Message_filter` at both ends of a connection.
use poseidon_circe.Prelude.{
  ℕ, ◌<◌, ◌≡◌, ◌∙◌, refl, ap, sym, List, [], ◌∷◌, ◌++◌, true, false, Option, some, All, arith,
  length, length-append, Bool-cases, inl, inr,
}
use poseidon_circe.Prelude.Bytes.{Bytes, str_eq, str_eq→eq}
use poseidon_circe.Interserver.Cipher.{StreamCipher, reset, filter_all}
use poseidon_circe.Interserver.Cipher.RoundTrip.{filter_all-cancel}
use poseidon_circe.Interserver.Filter.{
  terminator, drop_terminator, encrypt_block, encode, inflated, decode,
}

longer_ne : (x : ℕ) (xs t : Bytes) → str_eq ((x ∷ xs) ++ t) t ≡ false
longer_ne x xs t = elim (Bool-cases (str_eq ((x ∷ xs) ++ t) t)) [
  | inl e ↦ absurd (omega (arith, ap length (str_eq→eq ((x ∷ xs) ++ t) t e), length-append xs t))
  | inr e ↦ e
]

-- What is dropped is the terminator at the end, and nothing else.
pub drop_terminator-append : (xs : Bytes) → drop_terminator (xs ++ terminator) ≡ some xs
unfolding drop_terminator str_eq
drop_terminator-append [] = refl
drop_terminator-append (x ∷ xs) = rw (longer_ne x xs terminator, drop_terminator-append xs) refl

module _ {D I : Type 0} (deflate : D → Bytes → D × Bytes) (inflate : I → Bytes → Option (I × Bytes))
    (aes : Bytes → Bytes → Bytes) (Paired : D → I → Type 0) where
  -- What zlib documents of a deflator that is flushed after each block, and an inflator that has
  -- been given the same blocks: the output is bytes that end with the terminator, and inflated it
  -- is the input.
  pub record IsStream : Type 0 where
    pub flushed :
        (d : D) (i : I) (xs : Bytes)
        → All (λ x. x < 256) xs
        → Paired d i
        → (block : Bytes) × ((deflate d xs).1 ≡ block ++ terminator) × All (λ x. x < 256) block
    pub restored :
        (d : D) (i : I) (xs : Bytes)
        → All (λ x. x < 256) xs
        → Paired d i
        → (i' : I) × (inflate i (deflate d xs).1 ≡ some (i', xs)) × Paired (deflate d xs).0 i'

  encode_lem :
      (c : StreamCipher) (d : D) (xs block : Bytes)
      → (deflate d xs).1 ≡ block ++ terminator
      → encode deflate inflate aes (c, d) xs ≡ (
        ((filter_all aes c true block).0, (deflate d xs).0),
        some (filter_all aes c true block).1,
      )
  unfolding encode encrypt_block
  encode_lem c d xs block e =
      ap (encrypt_block deflate inflate aes c (deflate d xs).0)
        (ap drop_terminator e ∙ drop_terminator-append block)

  decode_lem :
      (c : StreamCipher) (d : D) (i i' : I) (xs block : Bytes)
      → (deflate d xs).1 ≡ block ++ terminator
      → inflate i (deflate d xs).1 ≡ some (i', xs)
      → All (λ x. x < 256) block
      → decode deflate inflate aes (c, i) (filter_all aes c true block).1
        ≡ some (((filter_all aes c true block).0, i'), xs)
  unfolding decode inflated
  decode_lem c d i i' xs block e f bytes =
      ap (λ r. inflated deflate inflate aes r.0 (inflate i (r.1 ++ terminator)))
        (filter_all-cancel aes c block bytes)
      ∙ ap (inflated deflate inflate aes (filter_all aes c true block).0)
          (ap (inflate i) (sym e) ∙ f)

  -- The messages of a connection, as the sender is given them and as the receiver returns them.
  pub data Transfers : StreamCipher × D → StreamCipher × I → List Bytes → List Bytes → Type 0 where
    finished :
        (sender : StreamCipher × D) (receiver : StreamCipher × I) → Transfers sender receiver [] []
    sends :
        (sender sender' : StreamCipher × D) (receiver receiver' : StreamCipher × I)
        (encoded xs ys : Bytes) (more rest : List Bytes)
        → encode deflate inflate aes sender xs ≡ (sender', some encoded)
        → decode deflate inflate aes receiver encoded ≡ some (receiver', ys)
        → Transfers sender' receiver' more rest
        → Transfers sender receiver (xs ∷ more) (ys ∷ rest)

  Transfers-of_Paired :
      (c : StreamCipher) (d : D) (i : I) (messages : List Bytes)
      → All (All (λ x. x < 256)) messages
      → IsStream
      → Paired d i
      → Transfers (c, d) (c, i) messages messages
  Transfers-of_Paired c d i [] a z p = finished _ _
  Transfers-of_Paired c d i (xs ∷ more) a z p =
      let (block, e, bytes) = z.flushed d i xs a.0 p in
      let (i', f, p') = z.restored d i xs a.0 p in
      let c' = (filter_all aes c true block).0 in
      sends _ _ _ _ _ xs xs more more (encode_lem c d xs block e)
        (decode_lem c d i i' xs block e f bytes)
        (Transfers-of_Paired c' (deflate d xs).0 i' more a.1 z p')

  -- With one seed at both ends and streams that are paired, every message of a connection is
  -- encoded, no assertion failing, and decoded, nothing being thrown, to what it was.
  pub reset-Transfers :
      (seed : Bytes) (d : D) (i : I) (messages : List Bytes)
      → All (All (λ x. x < 256)) messages
      → IsStream
      → Paired d i
      → Transfers (reset seed, d) (reset seed, i) messages messages
  reset-Transfers seed d i messages a z p = Transfers-of_Paired (reset seed) d i messages a z p
