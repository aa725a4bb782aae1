-- ===== src/Box.antt =====
-- circe-box: the server that runs the users' code.
pub mod Session
pub mod Supervisor
pub mod Servlets
