-- ===== src/Tests.antt =====
-- Runs of the program's functions on concrete values, and each theorem at values for which its
-- hypotheses hold.
pub mod PilotTests
pub mod GateTests
pub mod BoxTests
pub mod InterserverTests
pub mod HelloTests
pub mod ServletTests
pub mod JobTests
pub mod AcceptorTests
pub mod LockTests
pub mod FoyerTests
pub mod SessionTests
pub mod HttpTests
pub mod BroadcastTests
pub mod LoginTests
