-- ===== src/Marker/State.antt =====
-- What a marker at work (marker/marking.c) has in hand, and what it keeps of the heaps.
use mathlib.Core.Option.{some}
use garbage_collector.Prelude.{
  ℕ, zero, suc, ◌+◌, ◌≤◌, ◌<◌, ◌^◌, ◌≡◌, ◌⊎◌, inl, inr, refl, ap, ◌∙◌, true, arith, List, [], ◌∷◌,
}
use garbage_collector.Memory.Words.{read64, read64_same}
use garbage_collector.Object.Heaps.{Heaps, get_object, get_object_size, is_marked}
use garbage_collector.Object.Cells.{IsWellFormed}
use garbage_collector.Object.Places.{IsPayload, IsObject, IsObject-get_object}
use garbage_collector.Marker.Stack.{Stack, Realloc}
use garbage_collector.Marker.StackProof.{contents, cells_below, IsValid}
use garbage_collector.Marker.Marking.{Marker}
use garbage_collector.Marker.Work.{unmarked}

abbrev pub Has : ℕ → List ℕ → Type 0
Has x [] = ⊥
Has x (y ∷ ys) = (x ≡ y) ⊎ Has x ys

abbrev pub count : List ℕ → ℕ
count [] = 0
count (x ∷ xs) = suc (count xs)

abbrev pub IsMarked : Marker → ℕ → Type 0
IsMarked m p = is_marked m.heaps p ≡ some true

-- The reallocations of the stack do not fail.
abbrev pub Lasts : (Stack → Realloc) → Type 0
Lasts memory = (s : Stack) → (fresh : ℕ → ℕ) × (memory s ≡ some fresh)

pub count-cells_below : (n : ℕ) (f : ℕ → ℕ) → count (cells_below n f) ≡ n
count-cells_below zero f = refl
count-cells_below (suc n) f = ap suc (count-cells_below n f)

-- The unmarked objects and those on the stack.
abbrev pub work : Heaps → Marker → ℕ
work h m = unmarked (h.small_end + h.large_end) m.heaps + count (contents m.stack)

pub work_idle :
    (h : Heaps) (m : Marker)
    → contents m.stack ≡ []
    → work h m ≡ unmarked (h.small_end + h.large_end) m.heaps
work_idle h m e =
    let none_left : count (contents m.stack) ≡ 0 = ap count e in omega (arith, none_left)

pub work_ends :
    (h k : Heaps) (m : Marker)
    → k.small_end ≡ h.small_end
    → k.large_end ≡ h.large_end
    → work k m ≡ work h m
work_ends h k m a b = rw (a, b) refl

-- A marker at work on the heaps `h`: what it sees in them, but for marks, is as at the start, and the
-- work that is left fits on the stack.
pub record IsState (h : Heaps) (m : Marker) : Type 0 where
  pub well_formed : IsWellFormed m.heaps
  pub small_start : m.heaps.small.start ≡ h.small.start
  pub small_end : m.heaps.small_end ≡ h.small_end
  pub large_end : m.heaps.large_end ≡ h.large_end
  pub objects : (x : ℕ) → get_object m.heaps x ≡ get_object h x
  pub sizes : (p : ℕ) → IsObject h p → get_object_size m.heaps p ≡ get_object_size h p
  pub bytes : (x : ℕ) → IsPayload h x → m.heaps.small.mem x ≡ h.small.mem x
  pub valid : IsValid m.stack
  pub stacked : (p : ℕ) → Has p (contents m.stack) → IsObject h p
  pub room : work h m ≤ 2 ^ 30

-- Marks and entries of the stack stay; what is newly marked is on the stack.
pub record Extends (h : Heaps) (m n : Marker) : Type 0 where
  pub kept : (p : ℕ) → IsObject h p → IsMarked m p → IsMarked n p
  pub pushed : (p : ℕ) → Has p (contents m.stack) → Has p (contents n.stack)
  pub fresh : (p : ℕ) → IsObject h p → IsMarked n p → IsMarked m p ⊎ Has p (contents n.stack)
  pub work : work h n ≡ work h m

pub Extends-refl : (h : Heaps) (m : Marker) → Extends h m m
Extends-refl h m = record {
  kept = λ p o k. k;
  pushed = λ p k. k;
  fresh = λ p o k. inl k;
  work = refl;
}

pub Extends-trans : (h : Heaps) (l m n : Marker) → Extends h l m → Extends h m n → Extends h l n
Extends-trans h l m n e f = record {
  kept = λ p o k. f.kept p o (e.kept p o k);
  pushed = λ p k. f.pushed p (e.pushed p k);
  fresh = λ p o k. at p o (f.fresh p o k);
  work = f.work ∙ e.work;
}
  where
    at :
        (p : ℕ)
        → IsObject h p
        → IsMarked m p ⊎ Has p (contents n.stack)
        → IsMarked l p ⊎ Has p (contents n.stack)
    at p o (inl k) = on_stack (e.fresh p o k)
      where
        on_stack : IsMarked l p ⊎ Has p (contents m.stack) → IsMarked l p ⊎ Has p (contents n.stack)
        on_stack (inl j) = inl j
        on_stack (inr j) = inr (f.pushed p j)
    at p o (inr k) = inr k

module _ (h : Heaps) where
  -- The word at an address holds what it held at the start, if no block header has a byte of it.
  abbrev pub IsPayloadWord : ℕ → Type 0
  IsPayloadWord addr = (x : ℕ) → addr ≤ x → x < addr + 8 → IsPayload h x

  pub word_kept :
      (m : Marker) (addr : ℕ)
      → IsState h m
      → IsPayloadWord addr
      → read64 m.heaps.small.mem addr ≡ read64 h.small.mem addr
  word_kept m addr i payload =
      read64_same m.heaps.small.mem h.small.mem addr (λ x p q. i.bytes x (payload x p q))

  -- A word of which no byte is in a block header, and the object that it points to.
  abbrev pub PointsTo : ℕ → ℕ → Type 0
  PointsTo addr object = IsPayloadWord addr × (get_object h (read64 h.small.mem addr) ≡ some object)

  pub PointsTo-IsObject :
      (addr object : ℕ) → IsWellFormed h → PointsTo addr object → IsObject h object
  PointsTo-IsObject addr object w (_, e) =
      IsObject-get_object h (read64 h.small.mem addr) object w e
