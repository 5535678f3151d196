-- ===== src/Sync/Invariant.antt =====
-- What holds in each reachable state of mt-safety/, if `pthread_cond_wait` returns only after the
-- broadcast.
use mathlib.Core.Path.{subst}
use garbage_collector.Prelude.{
  ℕ, ◌≤◌, ◌<◌, ◌≡◌, ◌⊎◌, Bool, true, false, ◌&&◌, ◌||◌, arith, Bool-cases, inl, inr, refl, sym,
  ◌==◌,
}
use garbage_collector.Sync.Family.{update, bit, count, count-le, count-eq}
use garbage_collector.Sync.World.{
  Pc, Thread, Service, triggered, clearing, signalling, at_barrier, marking, sweeping, World,
  is_registered, is_due, is_arrived, is_allocating, is_creating, holds_creation, Move, rdlock,
  unlock, create_rdlock, create_unlock, call_lock, already_called, spin_lock, spin_unlock,
  call_unlock, Serve, new_thread, set_thread, lock_allocation, creation_wrlock, clear_started,
  end_signals, mark, unsignalled, sweep, set_started, creation_unlock, reset_called,
  unlock_allocation, Step, go, trigger, meet, create, exit, end_thread, interrupt, arrive, started,
  sleep, wake_early, serve, count_threads, signal, open_barrier, broadcast, Reach, start, later,
  init,
}
use garbage_collector.Sync.Kept.{
  IsKept, in_window, in_stop, is_stopped, Move-IsKept, trigger-IsKept, exit-IsKept,
  end_thread-IsKept, interrupt-IsKept, arrive-IsKept, started-IsKept, sleep-IsKept, signal-IsKept,
  create-IsKept, unsignalled-IsKept, let_pass-IsKept, wake-IsKept, Serve-IsKept, meet-IsKept,
  released-IsKept, arrived-le,
}

-- The number of threads was taken, and the barrier is not open yet.
abbrev pub in_count : Service → Bool
in_count clearing = true
in_count signalling = true
in_count at_barrier = true
in_count _ = false

pub record Inv (n : ℕ) (w : World) : Type 0 where
  pub kept : (t : ℕ) → t < n → IsKept w.service (w.threads t)
  pub halted : ((in_window w.service || in_stop w.service) && w.is_world_started) ≡ false
  pub counted : in_count w.service ≡ true → count is_due n w.threads ≤ w.threads_stopped

pub update_self {ℓ} : {A : Type ℓ} (f : ℕ → A) (t : ℕ) (a : A) → update f t a t ≡ a
unfolding update
update_self f t a = let e : (t == t) ≡ true = ground arith in rw e refl

update_all :
    (P : Thread → Type 0) (n : ℕ) (f : ℕ → Thread) (t : ℕ) (th : Thread)
    → ((u : ℕ) → u < n → P (f u))
    → P th
    → (u : ℕ) → u < n
    → P (update f t th u)
unfolding update
update_all P n f t th h p u lt = elim (Bool-cases (u == t)) [
  | inl e ↦ rw e p
  | inr e ↦ rw e (h u lt)
]

pub count-update_le :
    (p : Thread → Bool) (n : ℕ) (f : ℕ → Thread) (t : ℕ) (th : Thread)
    → bit (p th) ≤ bit (p (f t))
    → count p n (update f t th) ≤ count p n f
unfolding update
count-update_le p n f t th h = count-le p p n (update f t th) f (λ i lt. below i)
  where
    below : (i : ℕ) → bit (p (update f t th i)) ≤ bit (p (f i))
    below i = elim (Bool-cases (i == t)) [
      | inl e ↦ let same : i ≡ t = ground (arith, e) in rw (e, same) h
      | inr e ↦ rw e (omega arith)
    ]

pub Move-registered :
    {w : World} {p q : Pc} (th : Thread) → Move w p q → th.pc ≡ p → is_registered th ≡ true
Move-registered th (rdlock h) e = ground arith
Move-registered th unlock e = ground arith
Move-registered th (create_rdlock h) e = ground arith
Move-registered th create_unlock e = ground arith
Move-registered th (call_lock h) e = ground arith
Move-registered th (already_called h) e = ground arith
Move-registered th (spin_lock h) e = ground arith
Move-registered th spin_unlock e = ground arith
Move-registered th call_unlock e = ground arith

-- A step that changes one thread, and not into one that is due if it was not.
Inv-set_thread :
    (n : ℕ) (w : World) (t : ℕ) (th : Thread)
    → Inv n w
    → IsKept w.service th
    → bit (is_due th) ≤ bit (is_due (w.threads t))
    → Inv n (set_thread w t th)
Inv-set_thread n w t th i k le = record {
  kept = update_all (IsKept w.service) n w.threads t th i.kept k;
  halted = i.halted;
  counted = λ c. omega (arith, i.counted c, count-update_le is_due n w.threads t th le);
}

due-unsignalled : (th : Thread) → bit (is_due (unsignalled th)) ≤ bit (is_registered th)
due-unsignalled th = elim (Bool-cases (is_registered th)) [
  | inl e ↦ rw e (omega arith)
  | inr e ↦ rw e (omega arith)
]

pub bit-le : (b : Bool) → bit b ≤ 1
bit-le true = omega arith
bit-le false = omega arith

bits-le : {a b : Bool} → bit a ≡ bit b → b ≡ true → a ≡ true
bits-le {a = true} e h = refl
bits-le {a = false} {b = true} e h = absurd (omega (arith, e))
bits-le {a = false} {b = false} e h = h

-- What a step of the service thread leaves of the threads, and the other fields.
abbrev Rest : ℕ → World → World → Type 0
Rest n w w' =
    (w'.threads ≡ w.threads)
    × (((in_window w'.service || in_stop w'.service) && w'.is_world_started) ≡ false)
    × (in_count w'.service ≡ true → count is_due n w.threads ≤ w'.threads_stopped)

Serve-Rest :
    {n : ℕ} {w w' : World} {v : Service} → Serve n w v w' → w.service ≡ v → Inv n w → Rest n w w'
Serve-Rest (Serve.spin_lock h) v i = (refl, refl, λ c. cc)
Serve-Rest (lock_allocation h) v i = (refl, refl, λ c. cc)
Serve-Rest Serve.spin_unlock v i = (refl, refl, λ c. cc)
Serve-Rest (creation_wrlock h) v i = (refl, refl, λ c. cc)
Serve-Rest clear_started v i = (refl, refl, λ c. i.counted (rw v refl))
Serve-Rest (end_signals h) v i = (refl, ground (arith, i.halted, v), λ c. i.counted (rw v refl))
Serve-Rest mark v i = (refl, ground (arith, i.halted, v), λ c. cc)
Serve-Rest sweep v i = (refl, ground (arith, i.halted, v), λ c. cc)
Serve-Rest set_started v i = (refl, refl, λ c. cc)
Serve-Rest creation_unlock v i = (refl, refl, λ c. cc)
Serve-Rest (reset_called h) v i = (refl, refl, λ c. cc)
Serve-Rest unlock_allocation v i = (refl, refl, λ c. cc)

Serve-Inv :
    {n : ℕ} {w w' : World} {v : Service} → Serve n w v w' → w.service ≡ v → Inv n w → Inv n w'
Serve-Inv {n} {w} {w'} mv v i =
    let (same, halts, counts) = Serve-Rest mv v i in
    record {
      kept = λ u b.
          let k =
            Serve-IsKept u (w.threads u) mv refl
              (subst (λ z. IsKept z (w.threads u)) v (i.kept u b)) in
          subst (λ f. IsKept w'.service (f u)) (sym same) k;
      halted = halts;
      counted = λ c. subst (λ f. count is_due n f ≤ w'.threads_stopped) (sym same) (counts c);
    }

pub Step-Inv : {n : ℕ} {w w' : World} → Step n false w w' → Inv n w → Inv n w'
Step-Inv {n} {w} (go t lt o e mv) i =
    Inv-set_thread n w t _ i (Move-IsKept (w.threads t) mv e o (i.kept t lt))
      (rw (Move-registered (w.threads t) mv e) (bit-le _))
Step-Inv {n} {w} (trigger t lt o e c) i =
    let j =
      Inv-set_thread n w t _ i (trigger-IsKept w.service (w.threads t) (i.kept t lt) e o)
        (ground arith) in
    record { kept = j.kept; halted = j.halted; counted = j.counted }
Step-Inv {n} {w} (meet t lt o e v) i =
    let at = λ (u : ℕ) (b : u < n). subst (λ z. IsKept z (w.threads u)) v (i.kept u b) in
    record {
      kept =
          update_all (IsKept triggered) n w.threads t _ (λ u b. meet-IsKept (w.threads u) (at u b))
            (released-IsKept (w.threads t) (at t lt) e o);
      halted = refl;
      counted = λ c. cc;
    }
Step-Inv {n} {w} (create t u lt lt' o e a) i =
    let free : holds_creation w.service ≡ false = ground (arith, (i.kept t lt).create) in
    record {
      kept =
          update_all (IsKept w.service) n w.threads u new_thread i.kept
            (create-IsKept w.service free);
      halted = i.halted;
      counted = λ c. ground arith;
    }
Step-Inv {n} {w} (exit t lt o e) i =
    Inv-set_thread n w t _ i (exit-IsKept w.service (w.threads t) (i.kept t lt) e o) (ground arith)
Step-Inv {n} {w} (end_thread t lt o e) i =
    Inv-set_thread n w t _ i (end_thread-IsKept w.service (w.threads t) (i.kept t lt) e o)
      (ground arith)
Step-Inv {n} {w} (interrupt t lt o e) i =
    Inv-set_thread n w t _ i (interrupt-IsKept w.service (w.threads t) (i.kept t lt) o e)
      (omega arith)
Step-Inv {n} {w} (arrive t lt e) i =
    Inv-set_thread n w t _ i (arrive-IsKept w.service (w.threads t) (i.kept t lt) e) (omega arith)
Step-Inv {n} {w} (started t lt e s) i =
    let h : in_stop w.service ≡ false = ground (arith, i.halted) in
    Inv-set_thread n w t _ i (started-IsKept w.service (w.threads t) (i.kept t lt) e h)
      (omega arith)
Step-Inv {n} {w} (sleep t lt e s) i =
    Inv-set_thread n w t _ i (sleep-IsKept w.service (w.threads t) (i.kept t lt) e) (omega arith)
Step-Inv {n} {w} (wake_early t lt e s) i = cc
Step-Inv {n} {w} (serve v mv) i = Serve-Inv mv v i
Step-Inv {n} {w} (count_threads v) i = record {
  kept =
      λ u b. unsignalled-IsKept (w.threads u) (subst (λ z. IsKept z (w.threads u)) v (i.kept u b));
  halted = refl;
  counted = λ c. count-le is_due is_registered n _ w.threads (λ j b. due-unsignalled (w.threads j));
}
Step-Inv {n} {w} (signal t lt v r s) i =
    let k = subst (λ z. IsKept z (w.threads t)) v (i.kept t lt) in
    Inv-set_thread n w t _ i
      (subst (λ z. IsKept z (record (w.threads t) { pending = true; signalled = true })) (sym v)
        (signal-IsKept (w.threads t) k r s))
      (ground (arith, r))
Step-Inv {n} {w} (open_barrier v c) i =
    let le = i.counted (rw v refl) in
    let same =
      count-eq is_arrived is_due n w.threads w.threads
        (λ u b. arrived-le w.service (w.threads u) (i.kept u b)) (omega (arith, c, le)) in
    record {
      kept = λ u b.
          let eq = same u b in
          let all : is_due (w.threads u) ≡ true → is_arrived (w.threads u) ≡ true = bits-le eq in
          let_pass-IsKept (w.threads u) (subst (λ z. IsKept z (w.threads u)) v (i.kept u b)) all;
      halted = ground (arith, i.halted, v);
      counted = λ c. cc;
    }
Step-Inv {n} {w} (broadcast v) i = record {
  kept = λ u b. wake-IsKept (w.threads u) (subst (λ z. IsKept z (w.threads u)) v (i.kept u b));
  halted = refl;
  counted = λ c. cc;
}

Inv-init : (n : ℕ) → Inv n init
Inv-init n = record {
  kept = λ t b. elim (Bool-cases (t == 0)) [
    | inl e ↦ rw e (ground arith)
    | inr e ↦ rw e (ground arith)
  ];
  halted = refl;
  counted = λ c. cc;
}

pub Reach-Inv : {n : ℕ} {w : World} → Reach n false w → Inv n w
Reach-Inv {n} start = Inv-init n
Reach-Inv (later r st) = Step-Inv st (Reach-Inv r)

-- In each reachable state of `n` threads in which the service thread marks or sweeps, if
-- `pthread_cond_wait` never returns before the broadcast: every thread with a cell in the storage is in
-- `handler` behind the barrier, so that it does not run, and none is inside `allocate_new_object` or
-- creates a thread.
pub Reach-stopped :
    {n : ℕ} {w : World}
    → Reach n false w
    → (w.service ≡ marking) ⊎ (w.service ≡ sweeping)
    → (t : ℕ) → t < n
    → is_registered (w.threads t) ≡ true
    → (is_stopped (w.threads t).handler ≡ true)
      × (is_allocating (w.threads t).pc ≡ false)
      × (is_creating (w.threads t).pc ≡ false)
Reach-stopped {n} {w} r (inl v) t lt reg =
    let k = subst (λ z. IsKept z (w.threads t)) v ((Reach-Inv r).kept t lt) in
    (ground arith, k.alloc, k.create)
Reach-stopped {n} {w} r (inr v) t lt reg =
    let k = subst (λ z. IsKept z (w.threads t)) v ((Reach-Inv r).kept t lt) in
    (ground arith, k.alloc, k.create)
