-- ===== src/Object/Effect.antt =====
-- What `mark_object` of allocator/object.c changes, over both heaps.
use mathlib.Core.Option.{some}
use garbage_collector.Prelude.{
  ℕ, ◌≤◌, ◌≡◌, ◌⊎◌, inl, inr, refl, Bool, true, false, ◌==◌, if◌then◌else◌, arith,
}
use garbage_collector.Small.Header.{get_bit_by_address}
use garbage_collector.Small.Bits.{put_bit, set_bit_by_address-put_bit}
use garbage_collector.Large.Bst.{search_bst}
use garbage_collector.Object.Heaps.{
  Heaps, in_small, get_object_size, mark_bst, set_occupied, set_small_mem, mark_object, is_marked,
}
use garbage_collector.Object.Cells.{IsWellFormed, IsSmall-IsFound}
use garbage_collector.Object.Trees.{node_fields}
use garbage_collector.Object.Places.{IsObject, IsMarking, Place, small, large, Place-get_object}
use garbage_collector.Object.TreeMark.{large-IsMarking}
use garbage_collector.Object.BitmapMark.{small-IsMarking}

-- On well-formed heaps an object has a mark and a size,
pub is_marked-IsObject :
    (h : Heaps) (object : ℕ)
    → IsWellFormed h
    → IsObject h object
    → ((m : Bool) × (is_marked h object ≡ some m)) × ((n : ℕ) × (get_object_size h object ≡ some n))
unfolding is_marked get_object_size
is_marked-IsObject h object w e = at (Place-get_object h object object w e)
  where
    at :
        Place h object
        → ((m : Bool) × (is_marked h object ≡ some m))
          × ((n : ℕ) × (get_object_size h object ≡ some n))
    at (small s) =
        let f = IsSmall-IsFound h object w s in
        (
          (
            if get_bit_by_address h.small.start h.small.mem object == 0 then false else true,
            rw (f.not_large, f.in_small) refl,
          ),
          (s.size, f.sized),
        )
    at (large inside _ own) =
        let ((m, mark), (n, size)) = node_fields (search_bst h.large.occupied object) object own in
        let not_small : in_small h object ≡ false = beside w.apart in
        ((m, rw inside mark), (n, rw (not_small, inside) size))
      where
        beside :
            (h.small_end ≤ h.large_start) ⊎ (h.large_end ≤ h.small.start)
            → in_small h object ≡ false
        beside (inl k) = ground (arith, inside)
        beside (inr k) = ground (arith, inside)

-- On well-formed heaps the object is marked, and nothing else: the heaps stay well-formed, the same
-- addresses give the same objects, with their sizes and, but for the one, their marks, and no byte
-- outside the headers of the small heap changes.
pub mark_object-IsMarking :
    (h : Heaps) (object : ℕ)
    → IsWellFormed h
    → IsObject h object
    → (t : Heaps) × (mark_object h object ≡ some t) × IsMarking h t object
unfolding mark_object
mark_object-IsMarking h object w e = at (Place-get_object h object object w e)
  where
    at : Place h object → (t : Heaps) × (mark_object h object ≡ some t) × IsMarking h t object
    at (small s) =
        let f = IsSmall-IsFound h object w s in
        (
          set_small_mem h (put_bit h.small.mem s.base s.index 1),
          rw (f.not_large, f.in_small, set_bit_by_address-put_bit 1 s.cell) refl,
          small-IsMarking h object w s,
        )
    at (large inside _ own) =
        let ((m, mark), _) = node_fields (search_bst h.large.occupied object) object own in
        (
          set_occupied h (mark_bst h.large.occupied object),
          rw inside refl,
          large-IsMarking h object m w inside mark,
        )
