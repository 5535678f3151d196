-- ===== src/Sync/Calls.antt =====
-- Who is inside `call_service_thread` of mt-safety/mt-safety.c, and where the service thread is then.
use garbage_collector.Prelude.{
  ℕ, ◌≡◌, ◌≢◌, ◌⊎◌, Bool, true, false, arith, Bool-cases, inl, inr, refl, sym, ap, ◌∙◌, ◌==◌,
  if◌then◌else◌,
}
use garbage_collector.Sync.Family.{update}
use garbage_collector.Sync.World.{
  Pc, at_signal, released, delivered, leaving, Thread, Service, idle, ready, triggered,
  alloc_locked, finishing, in_call,
}

-- From the call to the reset of `is_gc_called`.
abbrev pub in_cycle : Service → Bool
in_cycle idle = false
in_cycle ready = false
in_cycle finishing = false
in_cycle _ = true

-- `signal_delivery_lock` is still held in the cycle.
abbrev pub is_early : Service → Bool
is_early triggered = true
is_early alloc_locked = true
is_early _ = false

-- Behind `signal_barrier`, or at the end of a call.
abbrev pub is_behind : Pc → Bool
is_behind released = true
is_behind delivered = true
is_behind leaving = true
is_behind _ = false

abbrev pub At : (ℕ → Thread) → Pc → Type 0
At f p = (t : ℕ) × ((f t).pc ≡ p)

pub record IsCalled (f : ℕ → Thread) (v : Service) (called : Bool) : Type 0 where
  pub one : (t u : ℕ) → in_call (f t).pc ≡ true → in_call (f u).pc ≡ true → t ≡ u
  pub cause : called ≡ true → At f at_signal ⊎ (in_cycle v ≡ true)
  pub during : (t : ℕ) → is_behind (f t).pc ≡ true → in_cycle v ≡ true
  pub held : is_early v ≡ true → At f released

-- Threads that stand where others did.
pub IsCalled-same :
    (f g : ℕ → Thread) (v v' : Service) (called : Bool)
    → ((t : ℕ) → (g t).pc ≡ (f t).pc)
    → in_cycle v' ≡ in_cycle v
    → (is_early v' ≡ true → is_early v ≡ true)
    → IsCalled f v called
    → IsCalled g v' called
IsCalled-same f g v v' called same cycle early i = record {
  one = λ t u a b. i.one t u (ap in_call (sym (same t)) ∙ a) (ap in_call (sym (same u)) ∙ b);
  cause = λ c. elim (i.cause c) [ inl (t, e) ↦ inl (t, same t ∙ e) | inr e ↦ inr (cycle ∙ e) ];
  during = λ t a. cycle ∙ i.during t (ap is_behind (sym (same t)) ∙ a);
  held = λ a. let (t, e) = i.held (early a) in (t, same t ∙ e);
}

pub update-pc :
    (f : ℕ → Thread) (i : ℕ) (th : Thread) (t : ℕ)
    → (update f i th t).pc ≡ (if t == i then th.pc else (f t).pc)
unfolding update
update-pc f i th t = elim (Bool-cases (t == i)) [ inl e ↦ rw e refl | inr e ↦ rw e refl ]

pub update-pc_self : (f : ℕ → Thread) (i : ℕ) (th : Thread) → (update f i th i).pc ≡ th.pc
update-pc_self f i th = update-pc f i th i ∙ (let e : (i == i) ≡ true = ground arith in rw e refl)

pub At-update :
    (f : ℕ → Thread) (i : ℕ) (th : Thread) (p : Pc) → (f i).pc ≢ p → At f p → At (update f i th) p
At-update f i th p ne (t, e) = elim (Bool-cases (t == i)) [
  | inl same ↦ let s : t ≡ i = ground (arith, same) in absurd (ne (ap (λ z. (f z).pc) (sym s) ∙ e))
  | inr other ↦ (t, update-pc f i th t ∙ rw other e)
]

abbrev pub AreExclusive : (ℕ → Thread) → Type 0
AreExclusive f = (t u : ℕ) → in_call (f t).pc ≡ true → in_call (f u).pc ≡ true → t ≡ u

pub AreExclusive-update :
    (f : ℕ → Thread) (i : ℕ) (th : Thread)
    → (in_call th.pc ≡ true → (in_call (f i).pc ≡ true) ⊎ ((u : ℕ) → in_call (f u).pc ≡ false))
    → AreExclusive f
    → AreExclusive (update f i th)
AreExclusive-update f i th h one t u a b =
    pair (sym (ap in_call (update-pc f i th t)) ∙ a) (sym (ap in_call (update-pc f i th u)) ∙ b)
  where
    other : (u : ℕ) → in_call th.pc ≡ true → in_call (f u).pc ≡ true → i ≡ u
    other u a b = elim (h a) [ inl mine ↦ one i u mine b | inr free ↦ let off = free u in cc ]

    pair :
        in_call (if t == i then th.pc else (f t).pc) ≡ true
        → in_call (if u == i then th.pc else (f u).pc) ≡ true
        → t ≡ u
    pair a b = elim (Bool-cases (t == i)) [
      | inl e ↦
          let s : t ≡ i = ground (arith, e) in
          elim (Bool-cases (u == i)) [
            | inl d ↦ ground (arith, d, s)
            | inr d ↦ s ∙ other u (rw e at a) (rw d at b)
          ]
      | inr e ↦ elim (Bool-cases (u == i)) [
        | inl d ↦ let s : u ≡ i = ground (arith, d) in sym (s ∙ other t (rw d at b) (rw e at a))
        | inr d ↦ one t u (rw e at a) (rw d at b)
      ]
    ]

-- One thread goes elsewhere.
pub IsCalled-update :
    (f : ℕ → Thread) (v : Service) (called called' : Bool) (i : ℕ) (th : Thread)
    → (in_call th.pc ≡ true → (in_call (f i).pc ≡ true) ⊎ ((u : ℕ) → in_call (f u).pc ≡ false))
    → (is_behind th.pc ≡ true → in_cycle v ≡ true)
    → (called' ≡ true → At (update f i th) at_signal ⊎ (in_cycle v ≡ true))
    → (is_early v ≡ true → At (update f i th) released)
    → IsCalled f v called
    → IsCalled (update f i th) v called'
IsCalled-update f v called called' i th h1 h2 h3 h4 k = record {
  one = AreExclusive-update f i th h1 k.one;
  cause = h3;
  during = λ t a. elim (Bool-cases (t == i)) [
    | inl e ↦ h2 (sym (ap is_behind (update-pc f i th t ∙ rw e refl)) ∙ a)
    | inr e ↦ k.during t (sym (ap is_behind (update-pc f i th t ∙ rw e refl)) ∙ a)
  ];
  held = h4;
}

-- One thread goes on outside of the call, or in it but not at the two barriers.
pub IsCalled-aside :
    (f : ℕ → Thread) (v : Service) (called : Bool) (i : ℕ) (th : Thread)
    → (in_call th.pc ≡ true → (in_call (f i).pc ≡ true) ⊎ ((u : ℕ) → in_call (f u).pc ≡ false))
    → (is_behind th.pc ≡ true → in_cycle v ≡ true)
    → (f i).pc ≢ at_signal
    → ((f i).pc ≢ released) ⊎ (is_early v ≡ false)
    → IsCalled f v called
    → IsCalled (update f i th) v called
IsCalled-aside f v called i th h1 h2 n3 n4 k =
    IsCalled-update f v called called i th h1 h2
      (λ c. elim (k.cause c) [ inl at ↦ inl (At-update f i th at_signal n3 at) | inr e ↦ inr e ])
      (λ a. elim n4 [ inl n ↦ At-update f i th released n (k.held a) | inr off ↦ cc ]) k

-- A thread that stays out of the call.
pub IsCalled-outside :
    (f : ℕ → Thread) (v : Service) (called : Bool) (i : ℕ) (th : Thread)
    → in_call th.pc ≡ false
    → in_call (f i).pc ≡ false
    → IsCalled f v called
    → IsCalled (update f i th) v called
IsCalled-outside f v called i th new old k =
    IsCalled-aside f v called i th (λ a. cc) (λ a. absurd (behind th.pc new a))
      (λ e. cc (ap in_call e, old)) (inl (λ e. cc (ap in_call e, old))) k
  where
    behind : (p : Pc) → in_call p ≡ false → is_behind p ≡ true → ⊥
    behind p a b = ground arith

-- The same place, whatever else changes.
pub IsCalled-stays :
    (f : ℕ → Thread) (v : Service) (called : Bool) (i : ℕ) (th : Thread)
    → th.pc ≡ (f i).pc
    → IsCalled f v called
    → IsCalled (update f i th) v called
IsCalled-stays f v called i th e k = IsCalled-same f (update f i th) v v called at refl (λ a. a) k
  where
    at : (t : ℕ) → (update f i th t).pc ≡ (f t).pc
    at t = update-pc f i th t ∙ elim (Bool-cases (t == i)) [
      | inl s ↦ let same : t ≡ i = ground (arith, s) in rw (s, same) e
      | inr s ↦ rw s refl
    ]
