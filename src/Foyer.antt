-- ===== src/Foyer.antt =====
-- circe-foyer/circe-foyer/src: the foyer, which forwards between the boxes, to which it connects,
-- and the gates, which connect to it.
pub mod Servlets
pub mod Broadcast
pub mod Sends
pub mod Routing
