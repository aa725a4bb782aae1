-- ===== src/Interserver/Sessions.antt =====
-- circe-common/circe-common/src/interserver_acceptor.cpp and interserver_connector.cpp: what the
-- sessions of an acceptor and the clients of a connector have in common, the loops over the map of
-- them, and the reassembly of a message from the parts in which it is read.
--
-- A session is an object that has an address; an address names one object for good, as a
-- `weak_ptr` does. A UUID is a number. The limits of the configuration are arguments.
pub mod Each
pub mod Parts
use poseidon_circe.Prelude.{
  ℕ, ◌+◌, List, [], ◌∷◌, ◌++◌, Bool, true, false, if◌then◌else◌, Option, none, some, ◌==◌, leb,
  length, get_elem?, ◌%◌,
}
use poseidon_circe.Prelude.Int.{ℤ, negsuc}
use poseidon_circe.Prelude.Bytes.{Bytes}
use poseidon_circe.Prelude.State.{M, Error, Result, ok, throw, exception, assertion, protocol}
use poseidon_circe.Interserver.Promises.{
  InterserverConnection, init, shutdown, send_notification, push, is_message_id_valid,
}

unfoldable pub error_request_too_large : ℤ
error_request_too_large = negsuc 3

unfoldable pub error_not_found : ℤ
error_not_found = negsuc 2

unfoldable pub error_gone_away : ℤ
error_gone_away = negsuc 11

-- `connection_uuid` is `none` while the UUID is nil.
pub record Session : Type 0 where
  pub connection_uuid : Option ℕ
  pub connection : InterserverConnection

abbrev pub new_session : Session
new_session = record { connection_uuid = none; connection = init }

abbrev pub Heap : Type 0
Heap = ℕ → Session

abbrev pub store : ℕ → Session → Heap → Heap
store p s heap q = if p == q then s else heap q

-- `get_connection_uuid`, which throws while the UUID is not set
unfoldable pub get_connection_uuid : Session → Result ℕ
get_connection_uuid s = elim s.connection_uuid [ none ↦ throw exception | some uuid ↦ ok uuid ]

-- `catch(std::exception &e){ session->layer5_shutdown(...) }`
unfoldable pub or_shut_down : InterserverConnection × Result (Unit {0}) → InterserverConnection
or_shut_down (c, ok u) = c
or_shut_down (c, throw e) = shutdown c

-- the `try` block of the loops that broadcast; `launched` is an argument of `send_notification`
unfoldable pub notify_safely : Bool → ℕ → Bytes → Session → Session
unfolding or_shut_down
notify_safely launched message_id payload s = record s {
  connection = or_shut_down (send_notification launched message_id payload s.connection);
}

unfoldable pub shut_down : Session → Session
shut_down s = record s { connection = shutdown s.connection }

-- the loops over the map: each object that is there still is changed, and they are counted
unfoldable pub for_each_live : (ℕ → Bool) → (Session → Session) → List (ℕ × ℕ) → Heap → Heap × ℕ
for_each_live expired change [] heap = (heap, 0)
for_each_live expired change ((k, p) ∷ m) heap = elim (expired p) [
  | true ↦ for_each_live expired change m heap
  | false ↦
      let (heap', n) = for_each_live expired change m (store p (change (heap p)) heap) in
      (heap', n + 1)
]

-- `servers_avail.at(random_uint32() % servers_avail.size())`, and the error where there is none
unfoldable pub pick : Error → ℕ → List ℕ → Result ℕ
pick e random servers_avail =
    if length servers_avail == 0
    then throw e
    else elim (get_elem? servers_avail (random % length servers_avail)) [
      | none ↦ throw exception
      | some p ↦ ok p
    ]

-- the servlet that `sync_get_servlet` returned, called on the message, or an error
unfoldable pub serve {ℓ} : {R : Type ℓ} → Bool → Option (Result R) → Result R
unfolding error_gone_away error_not_found
serve false servlet = throw (protocol error_gone_away)
serve true none = throw (protocol error_not_found)
serve true (some answer) = answer

-- `m_magic_number` and `m_deflated_payload`
pub record Receiving : Type 0 where
  pub magic_number : ℕ
  pub deflated_payload : Bytes

unfoldable pub on_low_level_data_message_header : ℕ → ℕ → ℕ → M Receiving (Unit {0})
unfolding error_request_too_large
on_low_level_data_message_header max_message_size message_id payload_size r =
    if leb payload_size max_message_size
    then (record { magic_number = message_id; deflated_payload = [] }, ok tt)
    else (r, throw (protocol error_request_too_large))

unfoldable pub on_low_level_data_message_payload : Bytes → Receiving → Receiving
on_low_level_data_message_payload payload r = record r {
  deflated_payload = r.deflated_payload ++ payload;
}

-- what is given to `layer5_on_receive_data`
unfoldable pub on_low_level_data_message_end : Receiving → Receiving × (ℕ × Bytes)
on_low_level_data_message_end r =
    (record r { deflated_payload = [] }, (r.magic_number, r.deflated_payload))

-- the calls for one message that arrives in parts
unfoldable pub receive_parts : List Bytes → Receiving → Receiving
receive_parts [] r = r
receive_parts (part ∷ parts) r = receive_parts parts (on_low_level_data_message_payload part r)
