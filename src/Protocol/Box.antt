-- ===== src/Protocol/Box.antt =====
-- protocol/messages_box.hpp: what a box is sent, and answers.
use poseidon_circe.Prelude.{ℕ, List}
use poseidon_circe.Prelude.Int.{ℤ}
use poseidon_circe.Prelude.Bytes.{Bytes}
use poseidon_circe.Protocol.Common.{OptionMap, Verb, WebsocketFrame}

pub record HttpRequest : Type 0 where
  pub gate_uuid : ℕ
  pub client_uuid : ℕ
  pub client_ip : Bytes
  pub auth_token : Bytes
  pub verb : Verb
  pub decoded_uri : Bytes
  pub params : OptionMap
  pub headers : OptionMap
  pub entity : Bytes

pub record HttpResponse : Type 0 where
  pub status_code : ℤ
  pub headers : OptionMap
  pub entity : Bytes

pub record WebsocketEstablishmentRequest : Type 0 where
  pub gate_uuid : ℕ
  pub client_uuid : ℕ
  pub client_ip : Bytes
  pub auth_token : Bytes
  pub decoded_uri : Bytes
  pub params : OptionMap

pub record WebsocketClosureNotification : Type 0 where
  pub gate_uuid : ℕ
  pub client_uuid : ℕ
  pub status_code : ℤ
  pub reason : Bytes

pub record WebsocketPackedMessageRequest : Type 0 where
  pub gate_uuid : ℕ
  pub client_uuid : ℕ
  pub messages : List WebsocketFrame
