-- ===== src/Small/Core.antt =====
-- The blocks of allocator/small-allocator.c while one of them is taken out for an allocation.
use mathlib.Core.Path.{subst}
use mathlib.Core.Option.{Option, some}
use garbage_collector.Prelude.{
  ℕ, ◌+◌, ◌≤◌, ◌<◌, ◌≡◌, ◌≢◌, ◌⊎◌, ◌∙◌, refl, sym, ap, true, false, List, [], ◌∷◌, arith, inl, inr,
  Bool-cases, ◌==◌,
}
use garbage_collector.Memory.Words.{Memory, read64}
use garbage_collector.Small.Slot.{IsBlock}
use garbage_collector.Small.Alloc.{SmallHeap, set_entry}
use garbage_collector.Small.ScanProof.{AreBytes}
use garbage_collector.Small.Ready.{All, All-imp, SameHeader-of_outside, IsReady-same}
use garbage_collector.Small.Offered.{
  IsSearchable, IsListed, AreListed, IsEmptyBlock, AreListed-after, AreEmpty-after,
}

-- No block is in the list twice.
abbrev pub AreDifferent : List ℕ → Type 0
AreDifferent [] = Unit
AreDifferent (b ∷ bs) = All (λ c. b ≢ c) bs × AreDifferent bs

-- All lists are in order, and the cache but for the size `s`.
pub record IsCore (start : ℕ) (m : Memory) (segreg : ℕ → List ℕ) (empty : List ℕ)
    (cache : ℕ → Option ℕ) (s : ℕ) : Type 0 where
  pub bytes : AreBytes m
  pub listed : (t : ℕ) → 1 ≤ t → t ≤ 2008 → AreListed start m m t empty (segreg t)
  pub cached :
      (t b : ℕ)
      → 1 ≤ t
      → t ≤ 2008
      → t ≢ s
      → cache t ≡ some b
      → IsListed start m m t empty (segreg t) b
  pub empties : All (IsEmptyBlock start m m) empty
  pub different : AreDifferent empty

-- The heap, but for the cache of the size `s`.
abbrev pub IsCoreOf : SmallHeap → ℕ → Type 0
IsCoreOf h s = IsCore h.start h.mem h.segreg h.empty h.cache s

-- A size beyond all sizes: nothing is left out.
abbrev pub IsInOrder : SmallHeap → Type 0
IsInOrder h = IsCoreOf h 2009

-- The block is nowhere else.
pub record IsDetached (start : ℕ) (segreg : ℕ → List ℕ) (empty : List ℕ) (cache : ℕ → Option ℕ)
    (s block : ℕ) : Type 0 where
  pub located : IsBlock start block
  pub lists : (t : ℕ) → 1 ≤ t → t ≤ 2008 → All (λ c. block ≢ c) (segreg t)
  pub caches : (t b : ℕ) → 1 ≤ t → t ≤ 2008 → t ≢ s → cache t ≡ some b → block ≢ b
  pub outside_empty : All (λ c. block ≢ c) empty

-- The memory of a block's header is compared to itself from now on.
AreListed-renew :
    (start s : ℕ) (old m : Memory) (empty bs : List ℕ)
    → AreListed start old m s empty bs
    → AreListed start m m s empty bs
AreListed-renew start s old m empty [] l = tt
AreListed-renew start s old m empty (b ∷ bs) l = (
  record {
    ready = l.0.ready;
    same = λ x p q. refl;
    apart = l.0.apart;
    apart_empty = l.0.apart_empty;
  },
  AreListed-renew start s old m empty bs l.1,
)

-- A change inside the header of a detached block.
pub IsCore-change :
    (start : ℕ) (m n : Memory) (segreg : ℕ → List ℕ) (empty : List ℕ) (cache : ℕ → Option ℕ)
    (s a : ℕ)
    → IsDetached start segreg empty cache s a
    → AreBytes n
    → ((x : ℕ) → (x < a) ⊎ (a + 80 ≤ x) → n x ≡ m x)
    → IsCore start m segreg empty cache s
    → IsCore start n segreg empty cache s
IsCore-change start m n segreg empty cache s a d bytes out c = record {
  bytes = bytes;
  listed = λ t p q. AreListed-renew start t m n empty (segreg t) (
      AreListed-after start t m p q m n empty a (segreg t) d.located out (d.lists t p q)
        (c.listed t p q));
  cached = λ t b p q ne e.
      let l = c.cached t b p q ne e in
      let kept =
        SameHeader-of_outside start a b m n d.located l.ready.located (d.caches t b p q ne e) out in
      record {
        ready = IsReady-same n kept l.ready;
        same = λ x p q. refl;
        apart = l.apart;
        apart_empty = l.apart_empty;
      };
  empties =
      All-imp empty (λ b e. record { unused = e.unused; same = λ x p q. refl })
        (AreEmpty-after start 1 m (omega arith) (omega arith) m n a empty d.located out
          d.outside_empty c.empties);
  different = c.different;
}

-- A block for one size is not among those for another.
apart_by_size :
    (start s t : ℕ) (m : Memory) (empty : List ℕ) (a : ℕ) (bs : List ℕ)
    → read64 m (a + 8) ≡ s
    → t ≢ s
    → AreListed start m m t empty bs
    → All (λ c. a ≢ c) bs
apart_by_size start s t m empty a [] e ne l = tt
apart_by_size start s t m empty a (b ∷ bs) e ne l = (
  (λ same. ne (sym l.0.ready.sized ∙ ap (λ z. read64 m (z + 8)) (sym same) ∙ e)),
  apart_by_size start s t m empty a bs e ne l.1,
)

pub set_entry_self : {V : Type 0} (f : ℕ → V) (s : ℕ) (v : V) → set_entry f s v s ≡ v
set_entry_self f s v = let e : (s == s) ≡ true = ground arith in rw e refl

pub set_entry_other : {V : Type 0} (f : ℕ → V) (s t : ℕ) (v : V) → t ≢ s → set_entry f s v t ≡ f t
set_entry_other f s t v ne = let e : (s == t) ≡ false = ground arith in rw e refl

-- A block for objects of `s` bytes that is apart from the list for `s` is detached.
pub IsDetached-listed :
    (start : ℕ) (m : Memory) (f : ℕ → List ℕ) (empty : List ℕ) (cache : ℕ → Option ℕ) (s b : ℕ)
    → IsCore start m f empty cache s
    → IsListed start m m s empty (f s) b
    → IsDetached start f empty cache s b
IsDetached-listed start m f empty cache s b c l = record {
  located = l.ready.located;
  lists = λ t p q. elim (Bool-cases (t == s)) [
    | inl e ↦ let same : t ≡ s = ground (arith, e) in rw same l.apart
    | inr e ↦
        apart_by_size start s t m empty b (f t) l.ready.sized (ground (arith, e)) (c.listed t p q)
  ];
  caches = λ t a p q ne e same. ne (
      sym (c.cached t a p q ne e).ready.sized
      ∙ ap (λ z. read64 m (z + 8)) (sym same)
      ∙ l.ready.sized);
  outside_empty = l.apart_empty;
}

-- The first block of the list for `s` is taken off.
pub IsCore-pop :
    (start : ℕ) (m : Memory) (f : ℕ → List ℕ) (empty : List ℕ) (cache : ℕ → Option ℕ) (s b : ℕ)
    (bs : List ℕ)
    → 1 ≤ s
    → s ≤ 2008
    → IsCore start m (set_entry f s (b ∷ bs)) empty cache s
    → IsCore start m (set_entry f s bs) empty cache s × IsListed start m m s empty bs b
IsCore-pop start m f empty cache s b bs least most c =
    let own : AreListed start m m s empty (b ∷ bs) =
      subst (λ l. AreListed start m m s empty l) (set_entry_self f s (b ∷ bs))
        (c.listed s least most) in
    (
      record {
        bytes = c.bytes;
        listed = λ t p q. elim (Bool-cases (s == t)) [
          | inl e ↦
              let same : s ≡ t = ground (arith, e) in
              rw e (subst (λ z. AreListed start m m z empty bs) same own.1)
          | inr e ↦ rw e (rw e at (c.listed t p q))
        ];
        cached = λ t a p q ne e.
            let off : (s == t) ≡ false = ground arith in rw off (rw off at (c.cached t a p q ne e));
        empties = c.empties;
        different = c.different;
      },
      own.0,
    )

pub IsSearchable-IsInOrder :
    (h : SmallHeap) (s : ℕ) → 1 ≤ s → s ≤ 2008 → IsInOrder h → IsSearchable h s
IsSearchable-IsInOrder h s p q c = record {
  bytes = c.bytes;
  listed = c.listed s p q;
  empties = c.empties;
  cached = λ b e. c.cached s b p q (omega arith) e;
}
