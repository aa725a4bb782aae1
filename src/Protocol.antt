-- ===== src/Protocol.antt =====
-- protocol: the messages that the servers send each other, as the message generator makes them. A
-- UUID is a number, an opcode a number of its enumeration. A message without fields is `Unit`.
pub mod Common
pub mod Box
pub mod Foyer
pub mod Gate
pub mod Auth
