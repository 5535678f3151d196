-- ===== src/Sync/World.antt =====
-- A step of mt-safety/mt-safety.c and mt-safety/stop-the-world.c: one thread goes on to its next use
-- of a lock, a barrier, a condition or a signal. What a thread does while it holds a mutex that others
-- only hold for the same few lines is one step. A lock is held by the threads that stand behind it,
-- and a thread in `handler` does not go on with what the signal interrupted.
mod State
mod Steps
unfoldable pub use State.*
unfoldable pub use Steps.*
