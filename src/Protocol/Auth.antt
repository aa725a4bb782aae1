-- ===== src/Protocol/Auth.antt =====
-- protocol/messages_auth.hpp: what an auth server is sent, and answers.
use poseidon_circe.Prelude.{ℕ, List}
use poseidon_circe.Prelude.Int.{ℤ}
use poseidon_circe.Prelude.Bytes.{Bytes}
use poseidon_circe.Protocol.Common.{OptionMap, Verb, WebsocketFrame}

pub record HttpAuthenticationRequest : Type 0 where
  pub client_uuid : ℕ
  pub client_ip : Bytes
  pub verb : Verb
  pub decoded_uri : Bytes
  pub params : OptionMap
  pub headers : OptionMap

pub record HttpAuthenticationResponse : Type 0 where
  pub auth_token : Bytes
  pub status_code : ℤ
  pub headers : OptionMap

pub record WebsocketAuthenticationRequest : Type 0 where
  pub client_uuid : ℕ
  pub client_ip : Bytes
  pub decoded_uri : Bytes
  pub params : OptionMap

pub record WebsocketAuthenticationResponse : Type 0 where
  pub messages : List WebsocketFrame
  pub auth_token : Bytes
  pub status_code : ℤ
  pub reason : Bytes
