-- ===== src/Pilot.antt =====
-- circe-pilot: the server that keeps the compasses.
pub mod Lock
pub mod Watchers
pub mod Messages
pub mod Compass
pub mod Disposition
pub mod Exchange
pub mod Repository
pub mod Key
pub mod Servlets
