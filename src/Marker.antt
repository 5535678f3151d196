-- ===== src/Marker.antt =====
-- marker/: the marking of the objects that are in use.
pub mod Stack
pub mod StackProof
pub mod Marking
pub mod Work
pub mod State
pub mod Visit
pub mod Closure
pub mod Reach
pub mod Whole
pub mod Stale
mod Examples
