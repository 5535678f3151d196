-- ===== src/Sync/Stuck.antt =====
-- Where `stop_the_world` of mt-safety/stop-the-world.c never returns.
use garbage_collector.Prelude.{ℕ, ◌<◌, ◌≡◌, ◌⊎◌, true, false}
use garbage_collector.Sync.Family.{count}
use garbage_collector.Sync.World.{sleeping, World, is_registered, is_due, Step}
use garbage_collector.Sync.Kept.{in_window}

-- The service thread sends signals or waits at the barrier, and a thread with a cell still sleeps in
-- `handler` since the last collection, or those with a cell and those that lost theirs after they had
-- been sent the signal are fewer than the threads that were counted.
pub record IsStuck (n : ℕ) (w : World) : Type 0 where
  pub waiting : in_window w.service ≡ true
  pub missing :
      ((t : ℕ) × (t < n)
        × ((w.threads t).handler ≡ sleeping)
        × (is_registered (w.threads t) ≡ true))
      ⊎ (count is_due n w.threads < w.threads_stopped)

-- Some steps.
pub data Run (n : ℕ) (w : World) : World → Type 0 where
  done : Run n w w
  next : {v u : World} → Run n w v → Step n false v u → Run n w u
