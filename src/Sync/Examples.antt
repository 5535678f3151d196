-- ===== src/Sync/Examples.antt =====
-- The theorems on mt-safety/ at states that two threads reach.
mod Pair
mod Once
mod Again
use garbage_collector.Prelude.{◌≡◌, true, false, arith, inl, refl}
use garbage_collector.Sync.World.{
  running, passed, stopping, is_allocating, is_creating, holds_allocation,
}
use garbage_collector.Sync.Kept.{is_stopped}
use garbage_collector.Sync.Invariant.{Reach-stopped}
use garbage_collector.Sync.Calls.{in_cycle}
use garbage_collector.Sync.Leaving.{Reach-leaving}
use garbage_collector.Sync.Examples.Pair.{th}
use garbage_collector.Sync.Examples.Once.{call8, stopped}

Reach-stopped_example :
    (is_stopped (th running passed false true).handler ≡ true)
    × (is_allocating running ≡ false)
    × (is_creating running ≡ false)
Reach-stopped_example = Reach-stopped stopped (inl refl) 1 (omega arith) refl

Reach-leaving_example : (holds_allocation stopping ≡ true) × (in_cycle stopping ≡ true)
Reach-leaving_example = Reach-leaving 0 call8 refl
