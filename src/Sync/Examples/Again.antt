-- ===== src/Sync/Examples/Again.antt =====
-- The second collection of two threads of mt-safety/, of which one has not left `handler` yet.
use garbage_collector.Prelude.{◌≡◌, ◌≢◌, true, false, arith, refl}
use garbage_collector.Sync.World.{
  running, locked, at_signal, released, delivered, leaving, outside, passed, sleeping, idle, ready,
  triggered, alloc_locked, stopping, counting, clearing, signalling, is_allocating, is_creating,
  in_call, Move, call_lock, call_unlock, Serve, lock_allocation, creation_wrlock, clear_started, go,
  trigger, meet, sleep, serve, count_threads, later,
}
use garbage_collector.Sync.Examples.Pair.{state, th, all, Reachable, zeroth, first, counts}
use garbage_collector.Sync.Examples.Once.{over}

pub again1 :
    Reachable
      (state (th locked outside false true) (th running passed false true) idle 2 true false)
again1 =
    zeroth (th running outside false true) (th running passed false true)
      (th locked outside false true)
      (later over (
        go 0 (omega arith) refl refl (
          call_lock (
            all (λ t. in_call t.pc ≡ false) (th running outside false true)
              (th running passed false true) refl refl refl))))

pub again2 :
    Reachable
      (state (th locked outside false true) (th running passed false true) ready 2 true false)
again2 = later again1 (
    serve refl (
      Serve.spin_lock (
        all (λ t. t.pc ≢ delivered) (th locked outside false true) (th running passed false true)
          (λ e. cc) (λ e. cc) (λ e. cc))))

pub again3 :
    Reachable
      (state (th at_signal outside false true) (th running passed false true) ready 2 true true)
again3 =
    zeroth (th locked outside false true) (th running passed false true)
      (th at_signal outside false true) (later again2 (trigger 0 (omega arith) refl refl refl))

pub again4 :
    Reachable
      (state (th released outside false true) (th running passed false true) triggered 2 true true)
again4 =
    zeroth (th at_signal outside false true) (th running passed false true)
      (th released outside false true) (later again3 (meet 0 (omega arith) refl refl refl))

pub again5 :
    Reachable (
      state
        (th released outside false true)
        (th running passed false true)
        alloc_locked
        2
        true
        true)
again5 = later again4 (
    serve refl (
      lock_allocation (
        all (λ t. is_allocating t.pc ≡ false) (th released outside false true)
          (th running passed false true) refl refl refl)))

pub again6 :
    Reachable
      (state (th released outside false true) (th running passed false true) stopping 2 true true)
again6 = later again5 (serve refl Serve.spin_unlock)

pub again7 :
    Reachable
      (state (th delivered outside false true) (th running passed false true) stopping 2 true true)
again7 =
    zeroth (th released outside false true) (th running passed false true)
      (th delivered outside false true)
      (later again6 (go 0 (omega arith) refl refl (Move.spin_lock refl)))

pub again8 :
    Reachable
      (state (th leaving outside false true) (th running passed false true) stopping 2 true true)
again8 =
    zeroth (th delivered outside false true) (th running passed false true)
      (th leaving outside false true) (later again7 (go 0 (omega arith) refl refl Move.spin_unlock))

pub again9 :
    Reachable
      (state (th running outside false true) (th running passed false true) stopping 2 true true)
again9 =
    zeroth (th leaving outside false true) (th running passed false true)
      (th running outside false true) (later again8 (go 0 (omega arith) refl refl call_unlock))

pub again10 :
    Reachable
      (state (th running outside false true) (th running passed false true) counting 2 true true)
again10 = later again9 (
    serve refl (
      creation_wrlock (
        all (λ t. is_creating t.pc ≡ false) (th running outside false true)
          (th running passed false true) refl refl refl)))

pub counted_again :
    Reachable
      (state (th running outside false false) (th running passed false false) clearing 2 true true)
counted_again =
    counts (th running outside false true) (th running passed false true) refl refl
      (later again10 (count_threads refl))

pub left_asleep : Reachable (
    state
      (th running outside false false)
      (th running sleeping false false)
      signalling
      2
      false
      true)
left_asleep =
    first (th running outside false false) (th running passed false false)
      (th running sleeping false false)
      (later (later counted_again (serve refl clear_started)) (sleep 1 (omega arith) refl refl))
