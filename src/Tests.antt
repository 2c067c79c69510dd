-- ===== src/Tests.antt =====
-- Concrete instances of what lies outside the library, and each property at a concrete input.
pub mod Fixtures
mod Scheduling
mod Timers
mod Transfers
mod Reading
mod Writing
mod TimedLoops
mod Interleavings
mod Single
mod Owning
mod Sockets
mod Coroutines
