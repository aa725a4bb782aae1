-- ===== src/Interserver/Filter.antt =====
-- circe-common/circe-common/src/interserver_connection.cpp: `Message_filter`, which deflates and
-- encrypts what is sent, and decrypts and inflates what is received.
--
-- The deflator and the inflator of the Poseidon framework are parameters: `put`, `flush` and the
-- emptying of the buffer are one call.
pub mod RoundTrip
use poseidon_circe.Prelude.{
  ℕ, ◌≡◌, ◌∙◌, refl, ap, List, [], ◌∷◌, ◌++◌, Bool, true, false, if◌then◌else◌, Option, none, some,
  ◌<◌, All, arith, length,
}
use poseidon_circe.Prelude.Bytes.{Bytes, str_eq}
use poseidon_circe.Prelude.State.{M, Result, ok, throw, assertion, exception}
use poseidon_circe.Interserver.Cipher.{StreamCipher, reset, filter_all}

-- what a block ends with that a deflator has flushed
unfoldable pub terminator : Bytes
terminator = 0 ∷ 0 ∷ 255 ∷ 255 ∷ []

-- the four calls of `unput`: the last four bytes are dropped, and asserted to be the terminator
unfoldable pub drop_terminator : Bytes → Option Bytes
unfolding terminator
drop_terminator [] = none
drop_terminator (x ∷ xs) =
    let rest = drop_terminator xs in
    if str_eq (x ∷ xs) terminator
    then some []
    else elim rest [ none ↦ none | some ys ↦ some (x ∷ ys) ]

module _ {D I : Type 0} (deflate : D → Bytes → D × Bytes) (inflate : I → Bytes → Option (I × Bytes))
    (aes : Bytes → Bytes → Bytes) where
  -- Step 3 of `encode`, after the assertions.
  unfoldable pub encrypt_block : StreamCipher → D → Option Bytes → (StreamCipher × D) × Option Bytes
  encrypt_block encryptor deflator none = ((encryptor, deflator), none)
  encrypt_block encryptor deflator (some temp) =
      let (encryptor', encoded_payload) = filter_all aes encryptor true temp in
      ((encryptor', deflator), some encoded_payload)

  -- one direction of a filter, at the end that sends; `none` where an assertion fails
  unfoldable pub encode : StreamCipher × D → Bytes → (StreamCipher × D) × Option Bytes
  unfolding drop_terminator encrypt_block
  encode (encryptor, deflator) magic_payload =
      let (deflator', temp) = deflate deflator magic_payload in
      encrypt_block encryptor deflator' (drop_terminator temp)

  -- Step 4 of `decode`.
  unfoldable pub inflated : StreamCipher → Option (I × Bytes) → Option ((StreamCipher × I) × Bytes)
  inflated decryptor none = none
  inflated decryptor (some (inflator, magic_payload)) = some ((decryptor, inflator), magic_payload)

  -- and at the end that receives; `none` where the inflator throws
  unfoldable pub decode : StreamCipher × I → Bytes → Option ((StreamCipher × I) × Bytes)
  unfolding terminator inflated
  decode (decryptor, inflator) encoded_payload =
      let (decryptor', block) = filter_all aes decryptor false encoded_payload in
      inflated decryptor' (inflate inflator (block ++ terminator))
