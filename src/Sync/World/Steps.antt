-- ===== src/Sync/World/Steps.antt =====
-- The steps of the service thread of mt-safety/, and of all threads together.
use garbage_collector.Prelude.{ℕ, ◌<◌, ◌≡◌, ◌≢◌, Bool, true, false, ◌==◌, if◌then◌else◌}
use garbage_collector.Sync.Family.{update, count}
use garbage_collector.Sync.World.State.{
  Pc, Thread, Service, World, is_registered, is_arrived, in_call, is_allocating, is_creating, Move,
  absent, ending, running, creating, locked, at_signal, released, delivered, outside, entered,
  arrived, passed, sleeping, idle, ready, triggered, alloc_locked, stopping, counting, clearing,
  signalling, at_barrier, marking, sweeping, starting, waking, unlocking, resetting, finishing,
}

-- A step of `service_thread_routine` that changes no other thread's place: from where, to where, and
-- the variables afterwards.
pub data Serve (n : ℕ) (w : World) : Service → World → Type 0 where
  spin_lock :
      ((u : ℕ) → (w.threads u).pc ≢ delivered) → Serve n w idle (record w { service = ready })
  lock_allocation :
      ((u : ℕ) → is_allocating (w.threads u).pc ≡ false)
      → Serve n w triggered (record w { service = alloc_locked })
  spin_unlock : Serve n w alloc_locked (record w { service = stopping })
  creation_wrlock :
      ((u : ℕ) → is_creating (w.threads u).pc ≡ false)
      → Serve n w stopping (record w { service = counting })
  clear_started : Serve n w clearing (record w { service = signalling; is_world_started = false })
  end_signals :
      ((u : ℕ) → u < n → is_registered (w.threads u) ≡ true → (w.threads u).signalled ≡ true)
      → Serve n w signalling (record w { service = at_barrier })
  mark : Serve n w marking (record w { service = sweeping })
  sweep : Serve n w sweeping (record w { service = starting })
  set_started : Serve n w starting (record w { service = waking; is_world_started = true })
  creation_unlock : Serve n w unlocking (record w { service = resetting })
  reset_called :
      ((u : ℕ) → in_call (w.threads u).pc ≡ false)
      → Serve n w resetting (record w { service = finishing; is_gc_called = false })
  unlock_allocation : Serve n w finishing (record w { service = idle })

-- Threads after `get_threads_storage_size`, when the loop has not been at any thread; behind the
-- barrier; and after the broadcast.
abbrev pub unsignalled : Thread → Thread
unsignalled th = record th { signalled = false }

abbrev pub let_pass : Thread → Thread
let_pass th = if is_arrived th then record th { handler = passed } else th

abbrev pub wake : Thread → Thread
wake th = elim th.handler [ sleeping ↦ record th { handler = outside } | _ ↦ th ]

abbrev pub set_thread : World → ℕ → Thread → World
set_thread w t th = record w { threads = update w.threads t th }

abbrev pub new_thread : Thread
new_thread = record { pc = running; handler = outside; pending = false; signalled = false }

-- Where threads are numbered below `n`. If `early` is true, `pthread_cond_wait` may return before
-- the broadcast, as POSIX allows it to.
pub data Step (n : ℕ) (early : Bool) (w : World) : World → Type 0 where
  go :
      (t : ℕ) {p q : Pc}
      → t < n
      → (w.threads t).handler ≡ outside
      → (w.threads t).pc ≡ p
      → Move w p q
      → Step n early w (set_thread w t (record (w.threads t) { pc = q }))
  -- The caller sets `is_gc_called` and waits at `signal_barrier`.
  trigger :
      (t : ℕ)
      → t < n
      → (w.threads t).handler ≡ outside
      → (w.threads t).pc ≡ locked
      → w.is_gc_called ≡ false
      → Step n early w (record w {
        threads = update w.threads t (record (w.threads t) { pc = at_signal });
        is_gc_called = true;
      })
  -- The caller and the service thread pass `signal_barrier`.
  meet :
      (t : ℕ)
      → t < n
      → (w.threads t).handler ≡ outside
      → (w.threads t).pc ≡ at_signal
      → w.service ≡ ready
      → Step n early w (record w {
        threads = update w.threads t (record (w.threads t) { pc = released });
        service = triggered;
      })
  -- A thread creates the thread `u`, which gets its cell first.
  create :
      (t u : ℕ)
      → t < n
      → u < n
      → (w.threads t).handler ≡ outside
      → (w.threads t).pc ≡ creating
      → (w.threads u).pc ≡ absent
      → Step n early w (set_thread w u new_thread)
  -- `destroy_cell` when the routine of a thread has returned. The thread runs on, and a signal that it
  -- was sent can still be delivered.
  exit :
      (t : ℕ)
      → t < n
      → (w.threads t).handler ≡ outside
      → (w.threads t).pc ≡ running
      → Step n early w (set_thread w t (record (w.threads t) { pc = ending }))
  -- `wrap_user_routine` returns; a signal that was not delivered is lost.
  end_thread :
      (t : ℕ)
      → t < n
      → (w.threads t).handler ≡ outside
      → (w.threads t).pc ≡ ending
      → Step n early w (set_thread w t (record (w.threads t) { pc = absent; pending = false }))
  -- The signal is delivered.
  interrupt :
      (t : ℕ)
      → t < n
      → (w.threads t).handler ≡ outside
      → (w.threads t).pending ≡ true
      → Step n early w
          (set_thread w t (record (w.threads t) { handler = entered; pending = false }))
  -- `clear_cache`, `push_registers_to_stack`, and the wait at the barrier.
  arrive :
      (t : ℕ)
      → t < n
      → (w.threads t).handler ≡ entered
      → Step n early w (set_thread w t (record (w.threads t) { handler = arrived }))
  -- The test of `is_world_started` under its lock.
  started :
      (t : ℕ)
      → t < n
      → (w.threads t).handler ≡ passed
      → w.is_world_started ≡ true
      → Step n early w (set_thread w t (record (w.threads t) { handler = outside }))
  sleep :
      (t : ℕ)
      → t < n
      → (w.threads t).handler ≡ passed
      → w.is_world_started ≡ false
      → Step n early w (set_thread w t (record (w.threads t) { handler = sleeping }))
  wake_early :
      (t : ℕ)
      → t < n
      → (w.threads t).handler ≡ sleeping
      → early ≡ true
      → Step n early w (set_thread w t (record (w.threads t) { handler = outside }))
  serve : {v : Service} {w' : World} → w.service ≡ v → Serve n w v w' → Step n early w w'
  -- `get_threads_storage_size`, and the barrier for as many threads and the service thread.
  count_threads :
      w.service ≡ counting
      → Step n early w (record w {
        threads = λ u. unsignalled (w.threads u);
        service = clearing;
        threads_stopped = count is_registered n w.threads;
      })
  -- One round of the loop of `stop_the_world`.
  signal :
      (t : ℕ)
      → t < n
      → w.service ≡ signalling
      → is_registered (w.threads t) ≡ true
      → (w.threads t).signalled ≡ false
      → Step n early w (set_thread w t (record (w.threads t) { pending = true; signalled = true }))
  -- The barrier opens when all the threads counted have arrived.
  open_barrier :
      w.service ≡ at_barrier
      → count is_arrived n w.threads ≡ w.threads_stopped
      → Step n early w (record w { threads = λ u. let_pass (w.threads u); service = marking })
  broadcast :
      w.service ≡ waking
      → Step n early w (record w { threads = λ u. wake (w.threads u); service = unlocking })

-- The main thread, which `__add_main_thread_to_storage` has given a cell.
abbrev pub init : World
init = record {
  threads = λ u.
      if u == 0
      then new_thread
      else record { pc = absent; handler = outside; pending = false; signalled = false };
  service = idle;
  threads_stopped = 0;
  is_world_started = false;
  is_gc_called = false;
}

pub data Reach (n : ℕ) (early : Bool) : World → Type 0 where
  start : Reach n early init
  later : {v w : World} → Reach n early v → Step n early v w → Reach n early w
