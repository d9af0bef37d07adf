-- ===== src/Examples.antt =====
-- Concrete crates and headers, and the theorems applied to them.
pub mod Setup
pub mod Network
pub mod Races
mod Wire
mod Frames
mod Calls
mod Client
mod Dispatch
mod Macros
mod Codegen
