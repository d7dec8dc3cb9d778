-- ===== src/Tests.antt =====
-- Concrete runs, and the theorems at concrete inputs.
pub mod Display
mod Terminal
mod Signals
mod Files
mod Paths
mod Waiting
mod Ioctls
mod Polling
mod Timers
mod Typing
mod Access
mod Tasks
