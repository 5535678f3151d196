-- ===== src/Sync/Examples/Once.antt =====
-- The first collection of two threads of mt-safety/, from the start of the program.
use mathlib.Core.Path.{subst, fun_ext}
use garbage_collector.Prelude.{◌≡◌, ◌≢◌, true, false, arith, refl}
use garbage_collector.Sync.World.{
  absent, running, creating, locked, at_signal, released, delivered, leaving, outside, entered,
  arrived, passed, sleeping, idle, ready, triggered, alloc_locked, stopping, counting, clearing,
  signalling, at_barrier, marking, starting, waking, unlocking, is_registered, is_allocating,
  is_creating, in_call, Move, create_rdlock, create_unlock, call_lock, call_unlock, Serve,
  lock_allocation, creation_wrlock, end_signals, clear_started, mark, sweep, set_started,
  creation_unlock, reset_called, unlock_allocation, let_pass, wake, go, trigger, meet, create,
  interrupt, arrive, sleep, serve, count_threads, signal, open_barrier, broadcast, start, later,
}
use garbage_collector.Sync.Examples.Pair.{
  state, th, world_of, all, Reachable, zeroth, first, maps, two_arrived, counts, start_threads,
}

pub s0 :
    Reachable
      (state (th running outside false false) (th absent outside false false) idle 0 false false)
s0 = subst (λ f. Reachable (world_of f idle 0 false false)) (fun_ext start_threads) start

pub s1 :
    Reachable
      (state (th creating outside false false) (th absent outside false false) idle 0 false false)
s1 =
    zeroth (th running outside false false) (th absent outside false false)
      (th creating outside false false)
      (later s0 (go 0 (omega arith) refl refl (create_rdlock refl)))

pub s2 :
    Reachable
      (state (th creating outside false false) (th running outside false false) idle 0 false false)
s2 =
    first (th creating outside false false) (th absent outside false false)
      (th running outside false false)
      (later s1 (create 0 1 (omega arith) (omega arith) refl refl refl))

pub s3 :
    Reachable
      (state (th running outside false false) (th running outside false false) idle 0 false false)
s3 =
    zeroth (th creating outside false false) (th running outside false false)
      (th running outside false false) (later s2 (go 0 (omega arith) refl refl create_unlock))

pub call1 :
    Reachable
      (state (th locked outside false false) (th running outside false false) idle 0 false false)
call1 =
    zeroth (th running outside false false) (th running outside false false)
      (th locked outside false false)
      (later s3 (
        go 0 (omega arith) refl refl (
          call_lock (
            all (λ t. in_call t.pc ≡ false) (th running outside false false)
              (th running outside false false) refl refl refl))))

pub call2 :
    Reachable
      (state (th locked outside false false) (th running outside false false) ready 0 false false)
call2 = later call1 (
    serve refl (
      Serve.spin_lock (
        all (λ t. t.pc ≢ delivered) (th locked outside false false) (th running outside false false)
          (λ e. cc) (λ e. cc) (λ e. cc))))

pub call3 :
    Reachable
      (state (th at_signal outside false false) (th running outside false false) ready 0 false true)
call3 =
    zeroth (th locked outside false false) (th running outside false false)
      (th at_signal outside false false) (later call2 (trigger 0 (omega arith) refl refl refl))

pub call4 : Reachable (
    state (th released outside false false) (th running outside false false) triggered 0 false true)
call4 =
    zeroth (th at_signal outside false false) (th running outside false false)
      (th released outside false false) (later call3 (meet 0 (omega arith) refl refl refl))

pub call5 : Reachable (
    state
      (th released outside false false)
      (th running outside false false)
      alloc_locked
      0
      false
      true)
call5 = later call4 (
    serve refl (
      lock_allocation (
        all (λ t. is_allocating t.pc ≡ false) (th released outside false false)
          (th running outside false false) refl refl refl)))

pub call6 :
    Reachable (
      state
        (th released outside false false)
        (th running outside false false)
        stopping
        0
        false
        true)
call6 = later call5 (serve refl Serve.spin_unlock)

pub call7 : Reachable (
    state (th delivered outside false false) (th running outside false false) stopping 0 false true)
call7 =
    zeroth (th released outside false false) (th running outside false false)
      (th delivered outside false false)
      (later call6 (go 0 (omega arith) refl refl (Move.spin_lock refl)))

pub call8 :
    Reachable (
      state (th leaving outside false false) (th running outside false false) stopping 0 false true)
call8 =
    zeroth (th delivered outside false false) (th running outside false false)
      (th leaving outside false false) (later call7 (go 0 (omega arith) refl refl Move.spin_unlock))

pub call9 :
    Reachable (
      state (th running outside false false) (th running outside false false) stopping 0 false true)
call9 =
    zeroth (th leaving outside false false) (th running outside false false)
      (th running outside false false) (later call8 (go 0 (omega arith) refl refl call_unlock))

pub call10 :
    Reachable (
      state (th running outside false false) (th running outside false false) counting 0 false true)
call10 = later call9 (
    serve refl (
      creation_wrlock (
        all (λ t. is_creating t.pc ≡ false) (th running outside false false)
          (th running outside false false) refl refl refl)))

pub counted :
    Reachable (
      state (th running outside false false) (th running outside false false) clearing 2 false true)
counted =
    counts (th running outside false false) (th running outside false false) refl refl
      (later call10 (count_threads refl))

pub cleared : Reachable (
    state (th running outside false false) (th running outside false false) signalling 2 false true)
cleared = later counted (serve refl clear_started)

pub signal0 :
    Reachable (
      state (th running outside true true) (th running outside false false) signalling 2 false true)
signal0 =
    zeroth (th running outside false false) (th running outside false false)
      (th running outside true true) (later cleared (signal 0 (omega arith) refl refl refl))

pub signal1 :
    Reachable
      (state (th running outside true true) (th running outside true true) signalling 2 false true)
signal1 =
    first (th running outside true true) (th running outside false false)
      (th running outside true true) (later signal0 (signal 1 (omega arith) refl refl refl))

pub signals :
    Reachable
      (state (th running outside true true) (th running outside true true) at_barrier 2 false true)
signals = later signal1 (
    serve refl (
      end_signals (λ u lt.
        all (λ t. is_registered t ≡ true → t.signalled ≡ true) (th running outside true true)
          (th running outside true true) (λ e. refl) (λ e. refl) (λ e. cc) u)))

pub enter0 :
    Reachable
      (state (th running entered false true) (th running outside true true) at_barrier 2 false true)
enter0 =
    zeroth (th running outside true true) (th running outside true true)
      (th running entered false true) (later signals (interrupt 0 (omega arith) refl refl))

pub arrive0 :
    Reachable
      (state (th running arrived false true) (th running outside true true) at_barrier 2 false true)
arrive0 =
    zeroth (th running entered false true) (th running outside true true)
      (th running arrived false true) (later enter0 (arrive 0 (omega arith) refl))

pub enter1 :
    Reachable (
      state (th running arrived false true) (th running entered false true) at_barrier 2 false true)
enter1 =
    first (th running arrived false true) (th running outside true true)
      (th running entered false true) (later arrive0 (interrupt 1 (omega arith) refl refl))

pub arrive1 :
    Reachable (
      state (th running arrived false true) (th running arrived false true) at_barrier 2 false true)
arrive1 =
    first (th running arrived false true) (th running entered false true)
      (th running arrived false true) (later enter1 (arrive 1 (omega arith) refl))

pub stopped :
    Reachable
      (state (th running passed false true) (th running passed false true) marking 2 false true)
stopped = maps let_pass (th running arrived false true) (th running arrived false true) refl (
    later arrive1 (
      open_barrier refl
        (two_arrived (th running arrived false true) (th running arrived false true) refl refl)))

pub swept :
    Reachable
      (state (th running passed false true) (th running passed false true) starting 2 false true)
swept = later (later stopped (serve refl mark)) (serve refl sweep)

pub asleep0 :
    Reachable
      (state (th running sleeping false true) (th running passed false true) starting 2 false true)
asleep0 =
    zeroth (th running passed false true) (th running passed false true)
      (th running sleeping false true) (later swept (sleep 0 (omega arith) refl refl))

pub restarted :
    Reachable
      (state (th running sleeping false true) (th running passed false true) waking 2 true true)
restarted = later asleep0 (serve refl set_started)

pub woken :
    Reachable
      (state (th running outside false true) (th running passed false true) unlocking 2 true true)
woken =
    maps wake (th running sleeping false true) (th running passed false true) refl
      (later restarted (broadcast refl))

pub over :
    Reachable
      (state (th running outside false true) (th running passed false true) idle 2 true false)
over =
    later
      (later (later woken (serve refl creation_unlock)) (
        serve refl (
          reset_called (
            all (λ t. in_call t.pc ≡ false) (th running outside false true)
              (th running passed false true) refl refl refl))))
      (serve refl unlock_allocation)
