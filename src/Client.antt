-- ===== src/Client.antt =====
-- The client half of the crate: src/client.
pub mod Options
pub mod Race
pub mod Head
pub mod Network
pub mod State
pub mod Opening
pub mod Driving
pub mod Lifecycle
pub mod Delivery
pub mod Typed
pub mod Request
pub mod Accepted
