-- ===== src/Protocol/Foyer.antt =====
-- protocol/messages_foyer.hpp: what a foyer is sent, and answers.
use poseidon_circe.Prelude.{ℕ, List}
use poseidon_circe.Prelude.Int.{ℤ}
use poseidon_circe.Prelude.Bytes.{Bytes}
use poseidon_circe.Protocol.Common.{OptionMap, Verb, WebsocketFrame}

pub record HttpRequestToBox : Type 0 where
  pub client_uuid : ℕ
  pub client_ip : Bytes
  pub auth_token : Bytes
  pub verb : Verb
  pub decoded_uri : Bytes
  pub params : OptionMap
  pub headers : OptionMap
  pub entity : Bytes

pub record HttpResponseFromBox : Type 0 where
  pub box_uuid : ℕ
  pub status_code : ℤ
  pub headers : OptionMap
  pub entity : Bytes

pub record WebsocketEstablishmentRequestToBox : Type 0 where
  pub client_uuid : ℕ
  pub client_ip : Bytes
  pub auth_token : Bytes
  pub decoded_uri : Bytes
  pub params : OptionMap

pub record WebsocketEstablishmentResponseFromBox : Type 0 where
  pub box_uuid : ℕ

pub record WebsocketClosureNotificationToBox : Type 0 where
  pub box_uuid : ℕ
  pub client_uuid : ℕ
  pub status_code : ℤ
  pub reason : Bytes

pub record WebsocketKillNotificationToGate : Type 0 where
  pub gate_uuid : ℕ
  pub client_uuid : ℕ
  pub status_code : ℤ
  pub reason : Bytes

pub record WebsocketPackedMessageRequestToBox : Type 0 where
  pub box_uuid : ℕ
  pub client_uuid : ℕ
  pub messages : List WebsocketFrame

pub record WebsocketPackedMessageRequestToGate : Type 0 where
  pub gate_uuid : ℕ
  pub client_uuid : ℕ
  pub messages : List WebsocketFrame

pub record CheckGateRequest : Type 0 where
  pub gate_uuid : ℕ

-- `clients` are pairs of a gate and a client.
pub record WebsocketPackedBroadcastNotificationToGate : Type 0 where
  pub clients : List (ℕ × ℕ)
  pub messages : List WebsocketFrame
