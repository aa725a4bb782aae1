-- ===== src/Tests/JobTests.antt =====
-- A request between two connections, with headers of a few bytes.
use poseidon_circe.Prelude.{ℕ, [], ◌∷◌, Bool, true, if◌then◌else◌, Option, none, some, ◌==◌}
use poseidon_circe.Prelude.Int.{ℤ, pos, negsuc}
use poseidon_circe.Prelude.Bytes.{Bytes}
use poseidon_circe.Prelude.State.{Result, ok}
use poseidon_circe.Interserver.Promises.{Response}

abbrev write_request : ℕ → Bytes
write_request serial = serial ∷ []

abbrev write_response : ℕ → ℤ → Bytes
write_response serial (pos n) = serial ∷ 0 ∷ n ∷ []
write_response serial (negsuc n) = serial ∷ 1 ∷ n ∷ []

abbrev read_request : Bytes → Option (ℕ × Bytes)
read_request [] = none
read_request (serial ∷ payload) = some (serial, payload)

abbrev read_response : Bytes → Option (ℕ × ℤ × Bytes)
read_response (serial ∷ sign ∷ n ∷ payload) =
    some (serial, if sign == 0 then pos n else negsuc n, payload)
read_response [] = none
read_response (serial ∷ []) = none
read_response (serial ∷ sign ∷ []) = none

abbrev held : ℕ → Bool
held p = true

abbrev answer : Result Response
answer = ok (record { err_code = pos 0; message_id = 1902; payload = 4 ∷ 5 ∷ [] })
