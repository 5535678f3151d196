-- ===== src/Sync/Kept.antt =====
-- What holds of one thread in each reachable state of mt-safety/, by the place of the service thread.
use garbage_collector.Prelude.{
  ℕ, ◌≤◌, ◌≡◌, Bool, true, false, ◌&&◌, ◌||◌, not, arith, Bool-cases, inl, inr,
}
use garbage_collector.Sync.Family.{bit}
use garbage_collector.Sync.World.{
  Pc, absent, ending, is_due, running, locked, at_signal, released, Handler, outside, entered,
  arrived, passed, sleeping, Thread, Service, ready, triggered, counting, clearing, signalling,
  at_barrier, marking, sweeping, starting, waking, unlocking, World, is_registered, is_arrived,
  is_allocating, is_creating, holds_allocation, holds_creation, Serve, Move, rdlock, unlock,
  create_rdlock, create_unlock, call_lock, already_called, spin_lock, spin_unlock, call_unlock,
  unsignalled, let_pass, wake, new_thread, lock_allocation, creation_wrlock, clear_started,
  end_signals, mark, sweep, set_started, creation_unlock, reset_called, unlock_allocation,
}

-- The signals are under way.
abbrev pub in_window : Service → Bool
in_window signalling = true
in_window at_barrier = true
in_window _ = false

-- The world is stopped.
abbrev pub in_stop : Service → Bool
in_stop marking = true
in_stop sweeping = true
in_stop starting = true
in_stop _ = false

-- On the way to the barrier, and behind it.
abbrev pub is_busy : Handler → Bool
is_busy entered = true
is_busy arrived = true
is_busy _ = false

abbrev pub is_stopped : Handler → Bool
is_stopped passed = true
is_stopped sleeping = true
is_stopped _ = false

abbrev pub in_handler : Handler → Bool
in_handler outside = false
in_handler _ = true

abbrev pub is_absent : Pc → Bool
is_absent absent = true
is_absent _ = false

pub record IsKept (v : Service) (th : Thread) : Type 0 where
  pub alloc : (holds_allocation v && is_allocating th.pc) ≡ false
  pub create : (holds_creation v && is_creating th.pc) ≡ false
  pub calm : (not (in_window v) && (th.pending || is_busy th.handler)) ≡ false
  pub once : (is_busy th.handler && (th.pending || not th.signalled)) ≡ false
  pub sent : (th.pending && not th.signalled) ≡ false
  pub gone : (is_absent th.pc && (th.pending || in_handler th.handler)) ≡ false
  pub still : (in_stop v && (is_registered th && not (is_stopped th.handler))) ≡ false

-- A step of `Move` outside the handler.
pub Move-IsKept :
    {w : World} {p q : Pc} (th : Thread)
    → Move w p q
    → th.pc ≡ p
    → th.handler ≡ outside
    → IsKept w.service th
    → IsKept w.service (record th { pc = q })
Move-IsKept th (rdlock h) e o k = ground arith
Move-IsKept th unlock e o k = ground arith
Move-IsKept th (create_rdlock h) e o k = ground arith
Move-IsKept th create_unlock e o k = ground arith
Move-IsKept th (call_lock h) e o k = ground arith
Move-IsKept th (already_called h) e o k = ground arith
Move-IsKept th (spin_lock h) e o k = ground arith
Move-IsKept th spin_unlock e o k = ground arith
Move-IsKept th call_unlock e o k = ground arith

module _ (v : Service) (th : Thread) (k : IsKept v th) where
  pub trigger-IsKept :
      th.pc ≡ locked → th.handler ≡ outside → IsKept v (record th { pc = at_signal })
  trigger-IsKept e o = ground arith

  pub exit-IsKept : th.pc ≡ running → th.handler ≡ outside → IsKept v (record th { pc = ending })
  exit-IsKept e o = ground arith

  pub end_thread-IsKept :
      th.pc ≡ ending → th.handler ≡ outside → IsKept v (record th { pc = absent; pending = false })
  end_thread-IsKept e o = ground arith

  pub interrupt-IsKept :
      th.handler ≡ outside
      → th.pending ≡ true
      → IsKept v (record th { handler = entered; pending = false })
  interrupt-IsKept o e = ground arith

  pub arrive-IsKept : th.handler ≡ entered → IsKept v (record th { handler = arrived })
  arrive-IsKept e = ground arith

  pub started-IsKept :
      th.handler ≡ passed → in_stop v ≡ false → IsKept v (record th { handler = outside })
  started-IsKept e h = ground arith

  pub sleep-IsKept : th.handler ≡ passed → IsKept v (record th { handler = sleeping })
  sleep-IsKept e = ground arith

pub signal-IsKept :
    (th : Thread)
    → IsKept signalling th
    → is_registered th ≡ true
    → th.signalled ≡ false
    → IsKept signalling (record th { pending = true; signalled = true })
signal-IsKept th k r s = ground arith

pub create-IsKept : (v : Service) → holds_creation v ≡ false → IsKept v new_thread
create-IsKept v h = ground arith

pub unsignalled-IsKept : (th : Thread) → IsKept counting th → IsKept clearing (unsignalled th)
unsignalled-IsKept th k = ground arith

pub let_pass-IsKept :
    (th : Thread)
    → IsKept at_barrier th
    → (is_due th ≡ true → is_arrived th ≡ true)
    → IsKept marking (let_pass th)
let_pass-IsKept th k h = elim (Bool-cases (is_due th)) [
  | inl r ↦ let a = h r in ground (arith, a, r)
  | inr r ↦ ground (arith, r)
]

pub wake-IsKept : (th : Thread) → IsKept waking th → IsKept unlocking (wake th)
wake-IsKept th k = ground arith

-- The steps of the service thread, at a thread that is not where it waits for it.
pub Serve-IsKept :
    {n : ℕ} {w w' : World} {v : Service} (t : ℕ) (th : Thread)
    → Serve n w v w'
    → w.threads t ≡ th
    → IsKept v th
    → IsKept w'.service th
Serve-IsKept t th (Serve.spin_lock h) e k = ground arith
Serve-IsKept t th (lock_allocation h) e k = let free = h t in ground (arith, free)
Serve-IsKept t th Serve.spin_unlock e k = ground arith
Serve-IsKept t th (creation_wrlock h) e k = let free = h t in ground (arith, free)
Serve-IsKept t th clear_started e k = ground arith
Serve-IsKept t th (end_signals h) e k = ground arith
Serve-IsKept t th mark e k = ground arith
Serve-IsKept t th sweep e k = ground arith
Serve-IsKept t th set_started e k = ground arith
Serve-IsKept t th creation_unlock e k = ground arith
Serve-IsKept t th (reset_called h) e k = ground arith
Serve-IsKept t th unlock_allocation e k = ground arith

pub meet-IsKept : (th : Thread) → IsKept ready th → IsKept triggered th
meet-IsKept th k = ground arith

pub released-IsKept :
    (th : Thread)
    → IsKept ready th
    → th.pc ≡ at_signal
    → th.handler ≡ outside
    → IsKept triggered (record th { pc = released })
released-IsKept th k e o = ground arith

pub arrived-le : (v : Service) (th : Thread) → IsKept v th → bit (is_arrived th) ≤ bit (is_due th)
arrived-le v th k = ground arith
