-- ===== src/Sync.antt =====
-- mt-safety/mt-safety.c and mt-safety/stop-the-world.c: the threads of the program and the service
-- thread, which stops them for a collection.
pub mod Family
pub mod World
pub mod Kept
pub mod Invariant
pub mod Calls
pub mod Leaving
pub mod Stuck
mod Examples
