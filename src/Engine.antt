-- ===== src/Engine.antt =====
-- The router of engine/*.go.
pub mod Route
pub mod NatKey
pub mod Nat
pub mod Receive
pub mod Router
pub mod Switch
