-- ===== src/Tests/HelloTests.antt =====
-- The theorems on the hello messages, with the identity in place of SHA-256.
use poseidon_circe.Prelude.{List, [], ◌∷◌}
use poseidon_circe.Prelude.Bytes.{Bytes}
use poseidon_circe.Interserver.Hello.{Hello, client_hello, client_checksum}

abbrev same : Bytes → Bytes
same xs = xs

abbrev key : Bytes
key = 1 ∷ 2 ∷ []

abbrev greeting : List Hello
greeting = client_hello (7 ∷ []) 99 (client_checksum same key (7 ∷ []) 99) [] ∷ []
