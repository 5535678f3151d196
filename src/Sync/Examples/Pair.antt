-- ===== src/Sync/Examples/Pair.antt =====
-- Two threads of mt-safety/ and the service thread, as one value.
use mathlib.Core.Path.{subst, fun_ext}
use garbage_collector.Prelude.{
  ℕ, ◌≡◌, Bool, true, false, arith, Bool-cases, inl, inr, refl, ◌==◌, if◌then◌else◌,
}
use garbage_collector.Sync.Family.{update, count}
use garbage_collector.Sync.World.{
  Pc, absent, running, Handler, outside, Thread, Service, World, is_registered, is_arrived,
  unsignalled, init, Reach,
}

abbrev pub pair_of : Thread → Thread → ℕ → Thread
pair_of a b u =
    if u == 0
    then a
    else if u == 1
    then b
    else record { pc = absent; handler = outside; pending = false; signalled = false }

abbrev pub state : Thread → Thread → Service → ℕ → Bool → Bool → World
state a b v k s g = record {
  threads = pair_of a b;
  service = v;
  threads_stopped = k;
  is_world_started = s;
  is_gc_called = g;
}

abbrev pub th : Pc → Handler → Bool → Bool → Thread
th p h a s = record { pc = p; handler = h; pending = a; signalled = s }

abbrev pub world_of : (ℕ → Thread) → Service → ℕ → Bool → Bool → World
world_of f v k s g = record {
  threads = f;
  service = v;
  threads_stopped = k;
  is_world_started = s;
  is_gc_called = g;
}

pub update-zero : (a b c : Thread) → update (pair_of a b) 0 c ≡ pair_of c b
unfolding update
update-zero a b c = fun_ext (λ u. at u)
  where
    at : (u : ℕ) → update (pair_of a b) 0 c u ≡ pair_of c b u
    at u = elim (Bool-cases (u == 0)) [ inl e ↦ rw e refl | inr e ↦ rw e refl ]

pub update-one : (a b c : Thread) → update (pair_of a b) 1 c ≡ pair_of a c
unfolding update
update-one a b c = fun_ext (λ u. at u)
  where
    at : (u : ℕ) → update (pair_of a b) 1 c u ≡ pair_of a c u
    at u = elim (Bool-cases (u == 1)) [
      | inl e ↦ let s : u ≡ 1 = ground (arith, e) in rw s refl
      | inr e ↦ rw e refl
    ]

-- A function on each thread that leaves those alone that are not there.
pub map_pair :
    (f : Thread → Thread) (a b : Thread)
    → f (th absent outside false false) ≡ th absent outside false false
    → (λ u. f (pair_of a b u)) ≡ pair_of (f a) (f b)
map_pair f a b h = fun_ext (λ u. at u)
  where
    at : (u : ℕ) → f (pair_of a b u) ≡ pair_of (f a) (f b) u
    at u = elim (Bool-cases (u == 0)) [
      | inl e ↦ rw e refl
      | inr e ↦ elim (Bool-cases (u == 1)) [ inl d ↦ rw (e, d) refl | inr d ↦ rw (e, d) h ]
    ]

pub all {ℓ} :
    (P : Thread → Type ℓ) (a b : Thread)
    → P a
    → P b
    → P (th absent outside false false)
    → (u : ℕ) → P (pair_of a b u)
all P a b x y z u = elim (Bool-cases (u == 0)) [
  | inl e ↦ rw e x
  | inr e ↦ elim (Bool-cases (u == 1)) [ inl d ↦ rw (e, d) y | inr d ↦ rw (e, d) z ]
]

abbrev pub Reachable : World → Type 0
Reachable = Reach 2 false

-- After a step of thread 0, and of thread 1.
pub zeroth :
    {v : Service} {k : ℕ} {s g : Bool} (a b c : Thread)
    → Reachable (world_of (update (pair_of a b) 0 c) v k s g)
    → Reachable (state c b v k s g)
zeroth {v} {k} {s} {g} a b c r = subst (λ f. Reachable (world_of f v k s g)) (update-zero a b c) r

pub first :
    {v : Service} {k : ℕ} {s g : Bool} (a b c : Thread)
    → Reachable (world_of (update (pair_of a b) 1 c) v k s g)
    → Reachable (state a c v k s g)
first {v} {k} {s} {g} a b c r = subst (λ f. Reachable (world_of f v k s g)) (update-one a b c) r

-- After a step that changes all threads, or the count.
pub maps :
    {v : Service} {k : ℕ} {s g : Bool} (f : Thread → Thread) (a b : Thread)
    → f (th absent outside false false) ≡ th absent outside false false
    → Reachable (world_of (λ u. f (pair_of a b u)) v k s g)
    → Reachable (state (f a) (f b) v k s g)
maps {v} {k} {s} {g} f a b h r = subst (λ f. Reachable (world_of f v k s g)) (map_pair f a b h) r

pub two_registered :
    (a b : Thread)
    → is_registered a ≡ true
    → is_registered b ≡ true
    → count is_registered 2 (pair_of a b) ≡ 2
unfolding count
two_registered a b p q = rw (p, q) refl

pub two_arrived :
    (a b : Thread)
    → is_arrived a ≡ true
    → is_arrived b ≡ true
    → count is_arrived 2 (pair_of a b) ≡ 2
unfolding count
two_arrived a b p q = rw (p, q) refl

pub counts :
    {v : Service} {s g : Bool} (a b : Thread)
    → is_registered a ≡ true
    → is_registered b ≡ true
    → Reachable
        (world_of (λ u. unsignalled (pair_of a b u)) v (count is_registered 2 (pair_of a b)) s g)
    → Reachable (state (unsignalled a) (unsignalled b) v 2 s g)
counts {v} {s} {g} a b p q r =
    subst (λ k. Reachable (state (unsignalled a) (unsignalled b) v k s g)) (two_registered a b p q)
      (maps unsignalled a b refl r)

pub start_threads :
    (u : ℕ)
    → init.threads u ≡ pair_of (th running outside false false) (th absent outside false false) u
start_threads u = elim (Bool-cases (u == 0)) [
  | inl e ↦ rw e refl
  | inr e ↦ elim (Bool-cases (u == 1)) [ inl d ↦ rw (e, d) refl | inr d ↦ rw (e, d) refl ]
]
