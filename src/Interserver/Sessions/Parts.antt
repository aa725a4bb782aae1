-- ===== src/Interserver/Sessions/Parts.antt =====
-- interserver_acceptor.cpp and interserver_connector.cpp: a message that is read in parts.
use poseidon_circe.Prelude.{ℕ, ◌≡◌, List, [], ◌∷◌, ◌++◌, leb, if◌then◌else◌, arith}
use poseidon_circe.Prelude.Bytes.{Bytes}
use poseidon_circe.Prelude.State.{Result, ok, throw, protocol, call, ◌>>◌}
use poseidon_circe.Interserver.Sessions.{
  Receiving, error_request_too_large, on_low_level_data_message_header,
  on_low_level_data_message_payload, on_low_level_data_message_end, receive_parts,
}
use mathlib.Core.List.{append_assoc, append-nil}

abbrev joined : List Bytes → Bytes
joined [] = []
joined (part ∷ parts) = part ++ joined parts

receive_parts_lem :
    (parts : List Bytes) (r : Receiving)
    → receive_parts parts r ≡ record r { deflated_payload = r.deflated_payload ++ joined parts }
unfolding receive_parts on_low_level_data_message_payload
receive_parts_lem [] r = ground (arith, append-nil r.deflated_payload)
receive_parts_lem (part ∷ parts) r = ground (
  arith,
  receive_parts_lem parts (on_low_level_data_message_payload part r),
  append_assoc r.deflated_payload part (joined parts),
)

-- The calls that the framework makes for one message: its header, its parts and its end.
abbrev pub receive_message : ℕ → ℕ → ℕ → List Bytes → Receiving → Receiving × Result (ℕ × Bytes)
receive_message max_message_size message_id payload_size parts =
    on_low_level_data_message_header max_message_size message_id payload_size
    >> (λ r. (receive_parts parts r, ok tt))
    >> call on_low_level_data_message_end

-- A message is read as the bytes of its parts in their order, whatever the parts and whatever was
-- read before, unless it is announced as larger than the maximum.
pub receive_message_lem :
    (max_message_size message_id payload_size : ℕ) (parts : List Bytes) (r : Receiving)
    → (receive_message max_message_size message_id payload_size parts r).1 ≡ (
        if leb payload_size max_message_size
        then ok (message_id, joined parts)
        else throw (protocol error_request_too_large))
unfolding on_low_level_data_message_header on_low_level_data_message_end
receive_message_lem max_message_size message_id payload_size parts r =
    ground
      (arith, receive_parts_lem parts (record { magic_number = message_id; deflated_payload = [] }))
