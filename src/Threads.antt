-- ===== src/Threads.antt =====
-- mt-safety/threads-storage.c: the list of the program's threads.
pub mod Storage
pub mod Chain
pub mod Removal
pub mod Destroy
pub mod Teardown
mod Examples
