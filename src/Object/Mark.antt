-- ===== src/Object/Mark.antt =====
-- `mark_object` and `is_marked` of allocator/object.c.
use mathlib.Core.Option.{Option, none, some}
use garbage_collector.Prelude.{ℕ, ◌+◌, ◌/◌, ◌<◌, ◌≡◌, Bool, true, false, ◌==◌, if◌then◌else◌, arith}
use garbage_collector.Large.Tree.{TreeNode, null, node}
use garbage_collector.Large.Bst.{search_bst}
use garbage_collector.Small.Header.{set_bit_by_address}
use garbage_collector.Small.Slot.{IsCell}
use garbage_collector.Small.Marks.{get_bit_by_address-set_bit_by_address}
use garbage_collector.Object.Heaps.{
  Heaps, in_small, in_large, mark_at, mark_bst, set_occupied, set_small_mem, mark_object, is_marked,
}

abbrev pub marked : Option Bool → Option Bool
marked none = none
marked (some m) = some true

-- After the write the node that a search for the address finds is marked; a search for another
-- address finds a mark as it was.
pub mark_at-mark_bst :
    (t : TreeNode) (a b : ℕ)
    → mark_at (search_bst (mark_bst t a) b)
      ≡ (if a == b then marked (mark_at (search_bst t b)) else mark_at (search_bst t b))
unfolding search_bst mark_bst
mark_at-mark_bst null a b = ground arith
mark_at-mark_bst (node n l r) a b = ground (arith, mark_at-mark_bst l a b, mark_at-mark_bst r a b)

-- Marking an address of the large heap succeeds; afterwards an object found there is marked, and
-- at every other address of that heap the mark is what it was.
pub is_marked-mark_object_large :
    (h : Heaps) (a b : ℕ)
    → in_large h a ≡ true
    → in_large h b ≡ true
    → (h' : Heaps) × (mark_object h a ≡ some h')
      × (is_marked h' b ≡ (if a == b then marked (is_marked h b) else is_marked h b))
unfolding mark_object is_marked
is_marked-mark_object_large h a b p q = (
  set_occupied h (mark_bst h.large.occupied a),
  rw p,
  rw q (mark_at-mark_bst h.large.occupied a b),
)

-- Marking an object of a block of the small heap succeeds; afterwards that object is marked, and
-- every other object of the block as it was.
pub is_marked-mark_object_small :
    (h : Heaps) (base size i j a b : ℕ)
    → in_large h a ≡ false
    → in_large h b ≡ false
    → in_small h a ≡ true
    → in_small h b ≡ true
    → IsCell h.small.start h.small.mem base size i a
    → IsCell h.small.start h.small.mem base size j b
    → h.small.mem (base + 16 + i / 8) < 256
    → (h' : Heaps) × (mark_object h a ≡ some h')
      × (is_marked h' b ≡ (if i == j then some true else is_marked h b))
unfolding mark_object is_marked
is_marked-mark_object_small h base size i j a b la lb sa sb s t byte = (
  set_small_mem h (set_bit_by_address h.small.start h.small.mem a 1),
  rw (la, sa),
  rw (lb, sb, get_bit_by_address-set_bit_by_address 1 s t byte (omega arith)) (ground arith),
)
