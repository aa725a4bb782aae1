-- ===== src/Protocol/Gate.antt =====
-- protocol/messages_gate.hpp: what a gate is sent, and answers.
use poseidon_circe.Prelude.{ℕ, List}
use poseidon_circe.Prelude.Int.{ℤ}
use poseidon_circe.Prelude.Bytes.{Bytes}
use poseidon_circe.Protocol.Common.{WebsocketFrame}

pub record WebsocketKillNotification : Type 0 where
  pub client_uuid : ℕ
  pub status_code : ℤ
  pub reason : Bytes

pub record WebsocketPackedMessageRequest : Type 0 where
  pub client_uuid : ℕ
  pub messages : List WebsocketFrame

pub record WebsocketPackedBroadcastNotification : Type 0 where
  pub clients : List ℕ
  pub messages : List WebsocketFrame

pub record UnbanIpRequest : Type 0 where
  pub client_ip : Bytes

pub record UnbanIpResponse : Type 0 where
  pub found : ℕ
