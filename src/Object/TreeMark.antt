-- ===== src/Object/TreeMark.antt =====
-- `mark_object` of allocator/object.c on the large heap.
use mathlib.Core.Option.{some}
use native.Mathlib.Decide.{ℕ_discrete}
use garbage_collector.Prelude.{
  ℕ, ◌≡◌, inl, inr, refl, Bool, true, ◌==◌, if◌then◌else◌, arith, Bool-cases,
}
use garbage_collector.Large.Bst.{search_bst}
use garbage_collector.Object.Heaps.{
  Heaps, in_large, small_object_size, get_small_object, get_object, get_object_size, mark_bst,
  mark_at, set_occupied, is_marked,
}
use garbage_collector.Object.Mark.{mark_at-mark_bst}
use garbage_collector.Object.Cells.{IsWellFormed}
use garbage_collector.Object.Trees.{Laid-mark_bst, addr_at-mark_bst, size_at-mark_bst}
use garbage_collector.Object.Places.{IsMarking}

-- A mark in the tree.
large_marks :
    (h : Heaps) (object p : ℕ) (m : Bool)
    → in_large h object ≡ true
    → mark_at (search_bst h.large.occupied object) ≡ some m
    → is_marked (set_occupied h (mark_bst h.large.occupied object)) p
      ≡ (if p == object then some true else is_marked h p)
unfolding is_marked
large_marks h object p m inside had = elim (ℕ_discrete p object) [
  | yes e ↦ rw (e, inside, mark_at-mark_bst h.large.occupied object object, had) (ground arith)
  | no n ↦ elim (Bool-cases (in_large h p)) [
    | inl q ↦ rw (q, mark_at-mark_bst h.large.occupied object p) (ground arith)
    | inr q ↦ rw q (ground arith)
  ]
]

pub large-IsMarking :
    (h : Heaps) (object : ℕ) (m : Bool)
    → IsWellFormed h
    → in_large h object ≡ true
    → mark_at (search_bst h.large.occupied object) ≡ some m
    → IsMarking h (set_occupied h (mark_bst h.large.occupied object)) object
unfolding get_object get_object_size get_small_object small_object_size
large-IsMarking h object m w inside had = record {
  well_formed = record {
    blocks = w.blocks;
    whole = w.whole;
    small_fits = w.small_fits;
    large_fits = w.large_fits;
    apart = w.apart;
    bytes = w.bytes;
    laid = Laid-mark_bst h.large_start h.large_end object h.large.occupied w.laid;
  };
  small_start = refl;
  small_end = refl;
  large_end = refl;
  objects = λ x. rw (addr_at-mark_bst h.large.occupied object x) refl;
  sizes = λ p _. rw (size_at-mark_bst h.large.occupied object p) refl;
  marks = λ p _. large_marks h object p m inside had;
  bytes = λ x _. refl;
}
