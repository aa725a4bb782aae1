-- ===== src/Interserver/Hello/Handshake.antt =====
-- interserver_connection.cpp: what the hello messages establish, and for whom.
use poseidon_circe.Prelude.{ℕ, List, [], ◌∷◌, Bool, true, false, if◌then◌else◌, some}
use poseidon_circe.Prelude.Bytes.{Bytes, str_eq}
use poseidon_circe.Interserver.Hello.{
  OptionMap, Hello, client_hello, server_hello, Peer, new_peer, client_checksum, server_checksum,
  data_checksum, filter_seed,
}

module _ (sha256 : Bytes → Bytes) where
  -- the client after its hello, the server after it has got that, and the client after the answer
  abbrev client_of : Bytes → Bytes → ℕ → OptionMap → Peer
  client_of key uuid timestamp options = record (new_peer key) {
    connection_uuid = some uuid;
    timestamp = timestamp;
    message_filter = some (filter_seed sha256 key, data_checksum sha256 key uuid timestamp);
    sent = client_hello uuid timestamp (client_checksum sha256 key uuid timestamp) options ∷ [];
  }

  abbrev server_of : Bytes → Bytes → ℕ → OptionMap → Peer
  server_of key uuid timestamp options = record (new_peer key) {
    authenticated = true;
    connection_uuid = some uuid;
    timestamp = timestamp;
    options = options;
    message_filter = some (data_checksum sha256 key uuid timestamp, filter_seed sha256 key);
    sent = server_hello (server_checksum sha256 key uuid timestamp) options ∷ [];
  }

  -- A client's hello whose checksum is made with the application key.
  abbrev pub is_genuine : Bytes → Hello → Bool
  is_genuine key (client_hello uuid timestamp checksum_req options) =
      str_eq checksum_req (client_checksum sha256 key uuid timestamp)
  is_genuine key (server_hello checksum_resp options) = false

  abbrev pub any_genuine : Bytes → List Hello → Bool
  any_genuine key [] = false
  any_genuine key (m ∷ ms) = if is_genuine key m then true else any_genuine key ms
