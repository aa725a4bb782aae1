-- ===== src/Protocol/Common.antt =====
-- protocol/messages_common.hpp, error_codes.hpp: what the messages share, and the error codes.
use poseidon_circe.Prelude.{ℕ, List}
use poseidon_circe.Prelude.Int.{ℤ, pos}
use poseidon_circe.Prelude.Bytes.{Bytes}

-- `Common_websocket_frame`
pub record WebsocketFrame : Type 0 where
  pub opcode : ℕ
  pub payload : Bytes

-- `Poseidon::Http::Verb`: the verbs that the program names, and others by their numbers
pub data Verb : Type 0 where
  verb_options verb_get verb_put verb_delete verb_head verb_post : Verb
  verb_other : ℕ → Verb

-- a list of `Common_key_value`, or a `Poseidon::Option_map` that is made of it
abbrev pub OptionMap : Type 0
OptionMap = List (Bytes × Bytes)

unfoldable pub error_success : ℤ
error_success = pos 0

unfoldable pub error_gate_connection_lost : ℤ
error_gate_connection_lost = pos 50001

unfoldable pub error_auth_connection_lost : ℤ
error_auth_connection_lost = pos 50002

unfoldable pub error_foyer_connection_lost : ℤ
error_foyer_connection_lost = pos 50003

unfoldable pub error_box_connection_lost : ℤ
error_box_connection_lost = pos 50004

unfoldable pub error_websocket_shadow_session_not_found : ℤ
error_websocket_shadow_session_not_found = pos 50005
