-- ===== src/Marker/Work.antt =====
-- The work that is left to marker/marking.c: the unmarked objects and those on the stack.
use mathlib.Core.Option.{Option, none, some}
use native.Mathlib.Decide.{ℕ_discrete}
use garbage_collector.Prelude.{
  ℕ, zero, suc, ◌+◌, ◌≤◌, ◌<◌, ◌≡◌, ◌≢◌, Bool, true, false, not, ◌==◌, if◌then◌else◌, arith, refl,
  ◌∙◌, Bool-cases, inl, inr,
}
use garbage_collector.Object.Heaps.{Heaps, get_object, is_marked}
use garbage_collector.Object.Cells.{IsWellFormed}
use garbage_collector.Object.Places.{IsObject, IsMarking, Place, small, large, Place-get_object}

-- An object that is not marked.
abbrev is_addr : ℕ → Option ℕ → Bool
is_addr x none = false
is_addr x (some y) = x == y

abbrev is_unmarked : Option Bool → Bool
is_unmarked none = false
is_unmarked (some m) = not m

abbrev weight : ℕ → Option ℕ → Option Bool → ℕ
weight x o m = if is_addr x o then (if is_unmarked m then 1 else 0) else 0

-- The number of the unmarked objects at addresses below a bound.
pub unmarked : ℕ → Heaps → ℕ
unmarked zero h = 0
unmarked (suc n) h = weight n (get_object h n) (is_marked h n) + unmarked n h

is_addr-eq : (x : ℕ) (o : Option ℕ) → is_addr x o ≡ true → o ≡ some x
is_addr-eq x none e = ground arith
is_addr-eq x (some y) e = ground arith

-- A mark changes the weight of its object alone.
weight_other :
    (s t : Heaps) (object x : ℕ)
    → IsMarking s t object
    → x ≢ object
    → weight x (get_object t x) (is_marked t x) ≡ weight x (get_object s x) (is_marked s x)
weight_other s t object x i n = elim (Bool-cases (is_addr x (get_object s x))) [
  | inl e ↦
      let at : IsObject s x = is_addr-eq x (get_object s x) e in
      let apart : (x == object) ≡ false = ground arith in
      let mark : is_marked t x ≡ is_marked s x = i.marks x at ∙ rw apart refl in
      rw (i.objects x, mark) refl
  | inr e ↦ rw (i.objects x, e) refl
]

weight_own :
    (s t : Heaps) (object : ℕ)
    → IsMarking s t object
    → IsObject s object
    → is_marked s object ≡ some false
    → (weight object (get_object t object) (is_marked t object) ≡ 0)
      × (weight object (get_object s object) (is_marked s object) ≡ 1)
weight_own s t object i at white =
    (rw (i.objects object, at, i.marks object at) (ground arith), rw (at, white) (ground arith))

unmarked_above :
    (s t : Heaps) (object n : ℕ) → IsMarking s t object → n ≤ object → unmarked n t ≡ unmarked n s
unfolding unmarked
unmarked_above s t object zero i h = refl
unmarked_above s t object (suc n) i h =
    rw (weight_other s t object n i (omega arith), unmarked_above s t object n i (omega arith)) refl

-- A mark on an unmarked object leaves one less.
pub unmarked-IsMarking :
    (s t : Heaps) (object n : ℕ)
    → IsMarking s t object
    → IsObject s object
    → is_marked s object ≡ some false
    → object < n
    → suc (unmarked n t) ≡ unmarked n s
unfolding unmarked
unmarked-IsMarking s t object zero i at white h = absurd (omega arith)
unmarked-IsMarking s t object (suc n) i at white h = elim (ℕ_discrete n object) [
  | yes e ↦
      let (own_t, own_s) = weight_own s t object i at white in
      rw e (omega (arith, own_t, own_s, unmarked_above s t object object i (omega arith)))
  | no d ↦ omega (
    arith,
    weight_other s t object n i d,
    unmarked-IsMarking s t object n i at white (omega arith),
  )
]

-- All objects lie below the ends of the heaps.
pub IsObject-below :
    (h : Heaps) (object : ℕ)
    → IsWellFormed h
    → IsObject h object
    → object < h.small_end + h.large_end
IsObject-below h object w e = at (Place-get_object h object object w e)
  where
    at : Place h object → object < h.small_end + h.large_end
    at (small s) = omega (arith, s.cell.starts, s.inside)
    at (large inside _ _) = ground (arith, inside)

pub unmarked-le : (n : ℕ) (h : Heaps) → unmarked n h ≤ n
unfolding unmarked
unmarked-le zero h = omega arith
unmarked-le (suc n) h = ground (arith, unmarked-le n h)
