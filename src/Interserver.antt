-- ===== src/Interserver.antt =====
-- circe-common/circe-common/src: the connections between the servers.
pub mod Cipher
pub mod Filter
pub mod Promises
pub mod Jobs
pub mod Hello
pub mod Servlets
pub mod Sessions
pub mod Acceptor
pub mod Connector
