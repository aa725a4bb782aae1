-- ===== src/Gate.antt =====
-- circe-gate: the server that clients connect to.
pub mod BanList
pub mod HttpSession
pub mod WebsocketSession
pub mod ClientAcceptor
pub mod Servlets
pub mod Handshake
