-- ===== src/Tests/InterserverTests.antt =====
-- The theorems on the connections between servers, with concrete stand-ins for what is a parameter.
use poseidon_circe.Prelude.{
  ℕ, suc, ◌<◌, ◌≡◌, ◌≢◌, refl, ap, List, [], ◌∷◌, ◌++◌, Bool, true, Option, none, some, All, length,
  arith,
}
use poseidon_circe.Prelude.Int.{ℤ, pos}
use poseidon_circe.Prelude.Bytes.{Bytes}
use poseidon_circe.FlatMap.{find, emplace}
use poseidon_circe.Interserver.Cipher.{reset, refill, filter_all}
use poseidon_circe.Interserver.Cipher.RoundTrip.{filter-in_range}
use poseidon_circe.Interserver.Filter.{terminator, drop_terminator}
use poseidon_circe.Interserver.Filter.RoundTrip.{
  drop_terminator-append, IsStream, Transfers, reset-Transfers,
}
use poseidon_circe.Interserver.Promises.{
  pending, init, settle, on_close, shutdown, register, push, satisfy, send_request, dispatch,
  has_flag, magic_flag_is_response, magic_flag_wants_response, receive_response,
  is_message_id_valid, InterserverConnection,
}
use poseidon_circe.Interserver.Promises.Settled.{
  Event, requests, receives, shuts_down, run, step, settled_once, on_close-settles,
}

-- a block cipher that changes each byte
abbrev increase : Bytes → Bytes
increase [] = []
increase (x ∷ xs) = suc x ∷ increase xs

abbrev aes : Bytes → Bytes → Bytes
aes key chunk = increase chunk

length-increase : (xs : Bytes) → length (increase xs) ≡ length xs
length-increase [] = refl
length-increase (x ∷ xs) = omega (arith, length-increase xs)

aes_block_size : (key chunk : Bytes) → length chunk ≡ 16 → length (aes key chunk) ≡ 16
aes_block_size key chunk e = omega (arith, length-increase chunk)

abbrev block : Bytes
block = 1 ∷ 2 ∷ 255 ∷ []

block-bytes : All (λ input. input < 256) block
block-bytes = (omega arith, (omega arith, (omega arith, tt)))

filter-in_range_example :
    let c = refill aes (filter_all aes (reset []) true block).0 in c.count < length c.chunk
filter-in_range_example = filter-in_range aes aes_block_size [] true block

-- a stream that compresses nothing
abbrev store : Unit {0} → Bytes → Unit {0} × Bytes
store d xs = (d, xs ++ terminator)

abbrev with_state : Unit {0} → Option Bytes → Option (Unit {0} × Bytes)
with_state i none = none
with_state i (some xs) = some (i, xs)

abbrev restore : Unit {0} → Bytes → Option (Unit {0} × Bytes)
restore i xs = with_state i (drop_terminator xs)

abbrev Paired : Unit {0} → Unit {0} → Type 0
Paired d i = Unit {0}

store-IsStream : IsStream store restore aes Paired
store-IsStream = record {
  flushed = λ d i xs a p. (xs, refl, a);
  restored = λ d i xs a p. (i, ap (with_state i) (drop_terminator-append xs), p);
}

abbrev messages : List Bytes
messages = block ∷ (7 ∷ []) ∷ []

messages-bytes : All (All (λ x. x < 256)) messages
messages-bytes = (block-bytes, ((omega arith, tt), tt))

reset-Transfers_example :
    Transfers store restore aes Paired (reset block, tt) (reset block, tt) messages messages
reset-Transfers_example =
    reset-Transfers store restore aes Paired block tt tt messages messages-bytes store-IsStream tt

-- headers of one byte, a serial
abbrev write_request : ℕ → Bytes
write_request serial = serial ∷ []

abbrev write_response : ℕ → ℤ → Bytes
write_response serial err_code = serial ∷ []

abbrev read_request : Bytes → Option (ℕ × Bytes)
read_request [] = none
read_request (serial ∷ payload) = some (serial, payload)

abbrev read_response : Bytes → Option (ℕ × ℤ × Bytes)
read_response [] = none
read_response (serial ∷ payload) = some (serial, pos 0, payload)

abbrev held : ℕ → Bool
held p = true

-- Two requests, and a response to the second.
abbrev two_requests : List ((ℕ → Bool) × Event)
two_requests = (held, requests true 5 []) ∷ (held, requests true 6 []) ∷ []

abbrev answered : List ((ℕ → Bool) × Event)
answered =
    (held, requests true 5 [])
    ∷ (held, requests true 6 [])
    ∷ (held, receives 32774 (2 ∷ 9 ∷ []))
    ∷ []

abbrev cut_off : List ((ℕ → Bool) × Event)
cut_off = (held, requests true 5 []) ∷ (held, requests true 6 []) ∷ (held, shuts_down) ∷ []

abbrev run_here : InterserverConnection → List ((ℕ → Bool) × Event) → InterserverConnection
run_here = run write_request write_response read_request read_response

second_settled : (run_here init answered).promises 1 ≢ pending
unfolding run step send_request is_message_id_valid register push dispatch has_flag
    magic_flag_is_response magic_flag_wants_response receive_response satisfy settle find emplace
second_settled e = cc

settled_once_example :
    (run_here (run_here init answered) two_requests).promises 1
    ≡ (run_here init answered).promises 1
settled_once_example =
    settled_once write_request write_response read_request read_response 1 answered two_requests
      second_settled

first_made : 0 < (run_here init cut_off).next_promise
unfolding run step send_request is_message_id_valid register push shutdown
first_made = omega arith

has_shut_down : (run_here init cut_off).is_shutdown ≡ true
unfolding run step send_request is_message_id_valid register push shutdown
has_shut_down = refl

on_close-settles_example : (on_close held (run_here init cut_off)).0.promises 0 ≢ pending
on_close-settles_example =
    on_close-settles write_request write_response read_request read_response 0 held cut_off
      (refl, (refl, (refl, tt))) refl first_made has_shut_down
