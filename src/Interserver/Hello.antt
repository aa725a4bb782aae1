-- ===== src/Interserver/Hello.antt =====
-- circe-common/circe-common/src/interserver_connection.cpp: the two hello messages, by which the
-- ends of a connection prove to each other that they know the application key, agree on a UUID and
-- seed the ciphers.
--
-- SHA-256 is a parameter. An option map is a list. A message that is launched is handled by
-- `deflate_and_send` when the call that launches it is over: a worker takes the jobs of one
-- connection in their order, and the mutex is held till then. What a subclass does in
-- `layer7_post_set_connection_uuid` is left out. An exception in `inflate_and_dispatch` or
-- `deflate_and_send` shuts the connection down.
pub mod Handshake
use poseidon_circe.Prelude.{
  ℕ, zero, suc, ◌*◌, ◌/◌, ◌%◌, ◌^◌, List, [], ◌∷◌, ◌++◌, Bool, true, false, not, if◌then◌else◌,
  Option, none, some, is_some, get_or,
}
use poseidon_circe.Prelude.Bytes.{Bytes, str_eq, codes}
use poseidon_circe.Prelude.State.{M, Result, ok, throw, exception, assertion}

abbrev pub OptionMap : Type 0
OptionMap = List (Bytes × Bytes)

-- `Client_hello` and `Server_hello`
pub data Hello : Type 0 where
  client_hello : Bytes → ℕ → Bytes → OptionMap → Hello
  server_hello : Bytes → OptionMap → Hello

-- `connection_uuid` is `none` while the UUID is nil. `message_filter` has the seeds that
-- its decryptor and its encryptor were last reset with, once it is created.
pub record Peer : Type 0 where
  pub application_key : Bytes
  pub is_shutdown : Bool
  pub authenticated : Bool
  pub connection_uuid : Option Bytes
  pub timestamp : ℕ
  pub options : OptionMap
  pub message_filter : Option (Bytes × Bytes)
  pub sent : List Hello

abbrev pub new_peer : Bytes → Peer
new_peer application_key = record {
  application_key = application_key;
  is_shutdown = false;
  authenticated = false;
  connection_uuid = none;
  timestamp = 0;
  options = [];
  message_filter = none;
  sent = [];
}

-- the `n` low bytes of a number, the most significant first
unfoldable pub store_be : ℕ → ℕ → Bytes
store_be zero x = []
store_be (suc n) x = store_be n (x / 256) ++ x % 256 ∷ []

abbrev pub nil_uuid : Bytes
nil_uuid = 0 ∷ 0 ∷ 0 ∷ 0 ∷ 0 ∷ 0 ∷ 0 ∷ 0 ∷ 0 ∷ 0 ∷ 0 ∷ 0 ∷ 0 ∷ 0 ∷ 0 ∷ 0 ∷ []

-- `!connection_uuid`
unfoldable pub is_nil : Bytes → Bool
unfolding str_eq
is_nil connection_uuid = str_eq connection_uuid nil_uuid

-- `m_connection_uuid` once it is set to a UUID
unfoldable pub uuid_of : Bytes → Option Bytes
unfolding is_nil
uuid_of connection_uuid = if is_nil connection_uuid then none else some connection_uuid

module _ (sha256 : Bytes → Bytes) where
  unfoldable pub calculate_checksum : Bytes → Bytes → Bytes → ℕ → Bytes
  unfolding store_be
  calculate_checksum application_key salt connection_uuid timestamp =
      sha256 (application_key ++ 0 ∷ (salt ++ 0 ∷ (connection_uuid ++ 0 ∷ store_be 8 timestamp)))

  -- `SALT_NORMAL_DATA` and the others
  unfoldable pub data_checksum : Bytes → Bytes → ℕ → Bytes
  unfolding codes
  data_checksum application_key = calculate_checksum application_key (codes "G_DATA")

  unfoldable pub client_checksum : Bytes → Bytes → ℕ → Bytes
  unfolding codes
  client_checksum application_key = calculate_checksum application_key (codes "C_HELLO")

  unfoldable pub server_checksum : Bytes → Bytes → ℕ → Bytes
  unfolding codes
  server_checksum application_key = calculate_checksum application_key (codes "S_HELLO")

  -- the seed that `require_message_filter` creates the filter with
  unfoldable pub filter_seed : Bytes → Bytes
  unfolding codes
  filter_seed application_key = calculate_checksum application_key (codes "G_AUTH") nil_uuid 0

  unfoldable pub require_message_filter : Bytes → Option (Bytes × Bytes) → Bytes × Bytes
  require_message_filter application_key none =
      (filter_seed application_key, filter_seed application_key)
  require_message_filter application_key (some seeds) = seeds

  unfoldable pub reseed_decoder : Bytes → Peer → Peer
  reseed_decoder seed p = record p {
    message_filter = some (seed, (require_message_filter p.application_key p.message_filter).1);
  }

  unfoldable pub reseed_encoder : Bytes → Peer → Peer
  reseed_encoder seed p = record p {
    message_filter = some ((require_message_filter p.application_key p.message_filter).0, seed);
  }

  unfoldable pub shut_down : Peer → Peer
  shut_down p = record p { is_shutdown = true }

  -- the two cases of `deflate_and_send`, with the UUID that is asserted to be set
  unfoldable pub send_hello : Hello → Option Bytes → Peer → Peer
  unfolding shut_down reseed_encoder data_checksum
  send_hello (client_hello connection_uuid timestamp checksum_req options_req) none p = shut_down p
  send_hello (client_hello connection_uuid timestamp checksum_req options_req) (some uuid) p =
      reseed_encoder (data_checksum p.application_key uuid p.timestamp) (record p {
        sent = p.sent ++ client_hello connection_uuid timestamp checksum_req options_req ∷ [];
      })
  send_hello (server_hello checksum_resp options_resp) none p = shut_down p
  send_hello (server_hello checksum_resp options_resp) (some uuid) p = record p {
    sent = p.sent ++ server_hello checksum_resp options_resp ∷ [];
  }

  unfoldable pub deflate_and_send : Hello → Peer → Peer
  unfolding send_hello
  deflate_and_send m p = if p.is_shutdown then p else send_hello m p.connection_uuid p

  -- `layer7_client_say_hello`, with the random UUID and the time, and then the job that it launches
  unfoldable pub client_say_hello : Bytes → ℕ → OptionMap → M Peer (Unit {0})
  unfolding deflate_and_send uuid_of client_checksum
  client_say_hello connection_uuid timestamp options_req p =
      if is_some p.connection_uuid
      then (p, throw exception)
      else (let checksum_req = client_checksum p.application_key connection_uuid timestamp in
          (
            deflate_and_send (client_hello connection_uuid timestamp checksum_req options_req)
                (record p { connection_uuid = uuid_of connection_uuid; timestamp = timestamp }),
            ok tt,
          ))

  -- The result is the message that is launched.
  unfoldable pub server_accept_hello : Bytes → ℕ → OptionMap → M Peer Hello
  unfolding uuid_of server_checksum
  server_accept_hello connection_uuid timestamp options_resp p =
      if is_some p.connection_uuid then (p, throw exception) else (
        record p {
          connection_uuid = uuid_of connection_uuid;
          timestamp = timestamp;
          options = options_resp;
        },
        ok (
            server_hello (server_checksum p.application_key connection_uuid timestamp)
              options_resp),
      )

  -- the rest of the case `Client_hello::id`, with the UUID that is asserted to be set
  unfoldable pub authenticate_client : Option Bytes → Peer → Peer
  unfolding reseed_decoder data_checksum shut_down
  authenticate_client none p = shut_down p
  authenticate_client (some uuid) p =
      record (reseed_decoder (data_checksum p.application_key uuid p.timestamp) p) {
        authenticated = true;
      }

  -- that case after `server_accept_hello`, and then the job that this has launched
  unfoldable pub after_accept : Peer × Result Hello → Peer
  unfolding authenticate_client deflate_and_send shut_down
  after_accept (p, throw e) = shut_down p
  after_accept (p, ok m) = deflate_and_send m (authenticate_client p.connection_uuid p)

  -- the case `Server_hello::id`, with the UUID that is asserted to be set
  unfoldable pub authenticate_server : Bytes → OptionMap → Option Bytes → Peer → Peer
  authenticate_server checksum_resp options_resp none p = shut_down p
  authenticate_server checksum_resp options_resp (some connection_uuid) p =
      if str_eq checksum_resp (server_checksum p.application_key connection_uuid p.timestamp)
      then record p { options = options_resp; authenticated = true }
      else shut_down p

  -- the two cases of `inflate_and_dispatch`
  unfoldable pub receive_hello : Hello → Peer → Peer
  receive_hello (client_hello connection_uuid timestamp checksum_req options_req) p =
      if p.is_shutdown
      then p
      else if str_eq checksum_req (client_checksum p.application_key connection_uuid timestamp)
      then after_accept (server_accept_hello connection_uuid timestamp options_req p)
      else shut_down p
  receive_hello (server_hello checksum_resp options_resp) p =
      if p.is_shutdown
      then p
      else authenticate_server checksum_resp options_resp p.connection_uuid p

  unfoldable pub receive_all : List Hello → Peer → Peer
  receive_all [] p = p
  receive_all (m ∷ ms) p = receive_all ms (receive_hello m p)
