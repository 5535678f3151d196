-- ===== src/Sync/Leaving.antt =====
-- `call_service_thread` of mt-safety/mt-safety.c against the collection that it asks for.
use garbage_collector.Prelude.{
  ℕ, ◌≡◌, ◌⊎◌, Bool, true, false, arith, Bool-cases, inl, inr, refl, sym, ap, ◌∙◌, ◌==◌,
}
use garbage_collector.Sync.Family.{update}
use garbage_collector.Sync.World.{
  Pc, at_signal, released, leaving, Thread, Service, World, in_call, holds_allocation, Move, rdlock,
  unlock, create_rdlock, create_unlock, call_lock, already_called, call_unlock, Serve, new_thread,
  let_pass, wake, lock_allocation, creation_wrlock, clear_started, end_signals, mark, sweep,
  set_started, creation_unlock, reset_called, unlock_allocation, Step, go, trigger, meet, create,
  exit, end_thread, interrupt, arrive, started, sleep, wake_early, serve, count_threads, signal,
  open_barrier, broadcast, Reach, start, later, init,
}
use garbage_collector.Sync.Calls.{
  in_cycle, is_early, is_behind, At, IsCalled, IsCalled-same, AreExclusive-update, update-pc_self,
  At-update, IsCalled-update, IsCalled-aside, IsCalled-outside, IsCalled-stays,
}

-- The state of a world.
abbrev IsCalledIn : World → Type 0
IsCalledIn w = IsCalled w.threads w.service w.is_gc_called

stays_out :
    (w : World) (t : ℕ) (th : Thread)
    → in_call th.pc ≡ false
    → in_call (w.threads t).pc ≡ false
    → IsCalledIn w
    → IsCalled (update w.threads t th) w.service w.is_gc_called
stays_out w = IsCalled-outside w.threads w.service w.is_gc_called

stays :
    (w : World) (t : ℕ) (th : Thread)
    → th.pc ≡ (w.threads t).pc
    → IsCalledIn w
    → IsCalled (update w.threads t th) w.service w.is_gc_called
stays w = IsCalled-stays w.threads w.service w.is_gc_called

serves :
    (w : World) {v v' : Service}
    → w.service ≡ v
    → in_cycle v' ≡ in_cycle v
    → (is_early v' ≡ true → is_early v ≡ true)
    → IsCalledIn w
    → IsCalled w.threads v' w.is_gc_called
serves w {v} {v'} at cycle early k =
    IsCalled-same w.threads w.threads w.service v' w.is_gc_called (λ t. refl)
      (cycle ∙ ap in_cycle (sym at)) (λ a. ap is_early at ∙ early a) k

Move-IsCalled :
    {w : World} {p q : Pc} (t : ℕ)
    → Move w p q
    → (w.threads t).pc ≡ p
    → IsCalledIn w
    → IsCalled (update w.threads t (record (w.threads t) { pc = q })) w.service w.is_gc_called
Move-IsCalled {w} t (rdlock h) e k = stays_out w t _ refl (ap in_call e) k
Move-IsCalled {w} t unlock e k = stays_out w t _ refl (ap in_call e) k
Move-IsCalled {w} t (create_rdlock h) e k = stays_out w t _ refl (ap in_call e) k
Move-IsCalled {w} t create_unlock e k = stays_out w t _ refl (ap in_call e) k
Move-IsCalled {w} t (call_lock h) e k =
    IsCalled-aside w.threads w.service w.is_gc_called t _ (λ a. inr h) (λ a. cc) (λ m. cc (e, m))
      (inl (λ m. cc (e, m))) k
Move-IsCalled {w} t (already_called h) e k =
    IsCalled-aside w.threads w.service w.is_gc_called t _ (λ a. inl (ap in_call e))
      (λ a. by_cause (k.cause h)) (λ m. cc (e, m)) (inl (λ m. cc (e, m))) k
  where
    by_cause : At w.threads at_signal ⊎ (in_cycle w.service ≡ true) → in_cycle w.service ≡ true
    by_cause (inl (u, m)) =
        let same = k.one u t (ap in_call m) (ap in_call e) in
        let two = sym m ∙ ap (λ z. (w.threads z).pc) same ∙ e in cc
    by_cause (inr c) = c
Move-IsCalled {w} t (Move.spin_lock h) e k =
    IsCalled-aside w.threads w.service w.is_gc_called t _ (λ a. inl (ap in_call e))
      (λ a. k.during t (ap is_behind e)) (λ m. cc (e, m)) (inr (ground (arith, h))) k
Move-IsCalled {w} t Move.spin_unlock e k =
    IsCalled-aside w.threads w.service w.is_gc_called t _ (λ a. inl (ap in_call e))
      (λ a. k.during t (ap is_behind e)) (λ m. cc (e, m)) (inl (λ m. cc (e, m))) k
Move-IsCalled {w} t call_unlock e k =
    IsCalled-aside w.threads w.service w.is_gc_called t _ (λ a. cc) (λ a. cc) (λ m. cc (e, m))
      (inl (λ m. cc (e, m))) k

Serve-IsCalled :
    {n : ℕ} {w w' : World} {v : Service}
    → Serve n w v w'
    → w.service ≡ v
    → IsCalledIn w
    → IsCalledIn w'
Serve-IsCalled {w = w} (Serve.spin_lock h) v k = serves w v refl (λ a. cc) k
Serve-IsCalled {w = w} (lock_allocation h) v k = serves w v refl (λ a. refl) k
Serve-IsCalled {w = w} Serve.spin_unlock v k = serves w v refl (λ a. cc) k
Serve-IsCalled {w = w} (creation_wrlock h) v k = serves w v refl (λ a. cc) k
Serve-IsCalled {w = w} clear_started v k = serves w v refl (λ a. cc) k
Serve-IsCalled {w = w} (end_signals h) v k = serves w v refl (λ a. cc) k
Serve-IsCalled {w = w} mark v k = serves w v refl (λ a. cc) k
Serve-IsCalled {w = w} sweep v k = serves w v refl (λ a. cc) k
Serve-IsCalled {w = w} set_started v k = serves w v refl (λ a. cc) k
Serve-IsCalled {w = w} creation_unlock v k = serves w v refl (λ a. cc) k
Serve-IsCalled {w = w} (reset_called h) v k = record {
  one = k.one;
  cause = λ c. cc;
  during = λ t a. let off = h t in absurd (quiet (w.threads t).pc off a);
  held = λ a. cc;
}
  where
    quiet : (p : Pc) → in_call p ≡ false → is_behind p ≡ true → ⊥
    quiet p a b = ground arith
Serve-IsCalled {w = w} unlock_allocation v k = serves w v refl (λ a. cc) k

let_pass-pc : (th : Thread) → (let_pass th).pc ≡ th.pc
let_pass-pc th = ground arith

wake-pc : (th : Thread) → (wake th).pc ≡ th.pc
wake-pc th = ground arith

pub Step-IsCalled :
    {n : ℕ} {early : Bool} {w w' : World} → Step n early w w' → IsCalledIn w → IsCalledIn w'
Step-IsCalled (go t lt o e mv) k = Move-IsCalled t mv e k
Step-IsCalled {w = w} (trigger t lt o e c) k =
    IsCalled-update w.threads w.service w.is_gc_called true t _ (λ a. inl (ap in_call e)) (λ a. cc)
      (λ a. inl (t, update-pc_self w.threads t _))
      (λ a. At-update w.threads t _ released (λ m. cc (e, m)) (k.held a)) k
Step-IsCalled {w = w} (meet t lt o e v) k = record {
  one = AreExclusive-update w.threads t _ (λ a. inl (ap in_call e)) k.one;
  cause = λ c. inr refl;
  during = λ u a. refl;
  held = λ a. (t, update-pc_self w.threads t _);
}
Step-IsCalled {w = w} (create t u lt lt' o e a) k = stays_out w u new_thread refl (ap in_call a) k
Step-IsCalled {w = w} (exit t lt o e) k = stays_out w t _ refl (ap in_call e) k
Step-IsCalled {w = w} (end_thread t lt o e) k = stays_out w t _ refl (ap in_call e) k
Step-IsCalled {w = w} (interrupt t lt o e) k = stays w t _ refl k
Step-IsCalled {w = w} (arrive t lt e) k = stays w t _ refl k
Step-IsCalled {w = w} (started t lt e s) k = stays w t _ refl k
Step-IsCalled {w = w} (sleep t lt e s) k = stays w t _ refl k
Step-IsCalled {w = w} (wake_early t lt e s) k = stays w t _ refl k
Step-IsCalled (serve v mv) k = Serve-IsCalled mv v k
Step-IsCalled {w = w} (count_threads v) k =
    IsCalled-same w.threads _ w.service _ w.is_gc_called (λ t. refl) (ground (arith, v)) (λ a. cc) k
Step-IsCalled {w = w} (signal t lt v r s) k = stays w t _ refl k
Step-IsCalled {w = w} (open_barrier v c) k =
    IsCalled-same w.threads _ w.service _ w.is_gc_called (λ t. let_pass-pc (w.threads t))
      (ground (arith, v)) (λ a. cc) k
Step-IsCalled {w = w} (broadcast v) k =
    IsCalled-same w.threads _ w.service _ w.is_gc_called (λ t. wake-pc (w.threads t))
      (ground (arith, v)) (λ a. cc) k

pub Reach-IsCalled : {n : ℕ} {early : Bool} {w : World} → Reach n early w → IsCalledIn w
Reach-IsCalled start = record {
  one = λ t u a b. absurd (nobody t a);
  cause = λ c. cc;
  during = λ t a. absurd (nobody_behind t a);
  held = λ a. cc;
}
  where
    nobody : (t : ℕ) → in_call (init.threads t).pc ≡ true → ⊥
    nobody t a = elim (Bool-cases (t == 0)) [ inl e ↦ cc (rw e at a) | inr e ↦ cc (rw e at a) ]

    nobody_behind : (t : ℕ) → is_behind (init.threads t).pc ≡ true → ⊥
    nobody_behind t a = elim (Bool-cases (t == 0)) [
      | inl e ↦ cc (rw e at a)
      | inr e ↦ cc (rw e at a)
    ]
Reach-IsCalled (later r st) = Step-IsCalled st (Reach-IsCalled r)

-- When `call_service_thread` is about to return, in any reachable state: the collection that was asked
-- for, by this thread or another, is not over: the service thread has taken `allocation_lock` for
-- writing and not released it, and has not reset `is_gc_called`. So the allocation that the caller
-- tries next waits for the end of the collection.
pub Reach-leaving :
    {n : ℕ} {early : Bool} {w : World} (t : ℕ)
    → Reach n early w
    → (w.threads t).pc ≡ leaving
    → (holds_allocation w.service ≡ true) × (in_cycle w.service ≡ true)
Reach-leaving {w = w} t r e =
    let k = Reach-IsCalled r in
    let cycle = k.during t (ap is_behind e) in
    elim (Bool-cases (is_early w.service)) [
      | inl early ↦
          let (u, m) = k.held early in
          let same = k.one u t (ap in_call m) (ap in_call e) in
          let two = sym m ∙ ap (λ z. (w.threads z).pc) same ∙ e in cc
      | inr late ↦ (ground (arith, cycle, late), cycle)
    ]
