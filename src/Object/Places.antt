-- ===== src/Object/Places.antt =====
-- The objects of both heaps, as allocator/object.c finds them, and what it is to mark one.
use mathlib.Core.Option.{none, some}
use garbage_collector.Prelude.{
  ℕ, ◌-◌, ◌%◌, ◌≤◌, ◌≡◌, inl, inr, true, ◌==◌, if◌then◌else◌, arith, Bool-cases,
}
use garbage_collector.Large.Bst.{search_bst, ext_search_bst}
use garbage_collector.Object.Heaps.{
  Heaps, in_small, in_large, get_object, get_object_size, addr_at, is_marked,
}
use garbage_collector.Object.Cells.{
  IsWellFormed, IsSmall, IsSmall-IsFound, get_small_object-IsSmall,
}
use garbage_collector.Object.Trees.{found_window, search_bst-ext_search_bst, ext_search_bst-again}

-- An address of the small heap behind the header of its block, or one outside that heap.
abbrev pub IsPayload : Heaps → ℕ → Type 0
IsPayload h x = in_small h x ≡ true → 80 ≤ (x - h.small.start) % 4096

-- An object as `get_object` gives them.
abbrev pub IsObject : Heaps → ℕ → Type 0
IsObject h object = get_object h object ≡ some object

-- `t` is `s` with one more object marked.
pub record IsMarking (s t : Heaps) (object : ℕ) : Type 0 where
  pub well_formed : IsWellFormed t
  pub small_start : t.small.start ≡ s.small.start
  pub small_end : t.small_end ≡ s.small_end
  pub large_end : t.large_end ≡ s.large_end
  pub objects : (x : ℕ) → get_object t x ≡ get_object s x
  pub sizes : (p : ℕ) → IsObject s p → get_object_size t p ≡ get_object_size s p
  pub marks :
      (p : ℕ) → IsObject s p → is_marked t p ≡ (if p == object then some true else is_marked s p)
  pub bytes : (x : ℕ) → IsPayload s x → t.small.mem x ≡ s.small.mem x

-- What `get_object` gives lies in one of the heaps.
pub data Place (h : Heaps) (object : ℕ) : Type 0 where
  small : IsSmall h object → Place h object
  large :
      in_large h object ≡ true
      → addr_at (ext_search_bst h.large.occupied object) ≡ some object
      → addr_at (search_bst h.large.occupied object) ≡ some object
      → Place h object

pub Place-get_object :
    (h : Heaps) (x object : ℕ) → IsWellFormed h → get_object h x ≡ some object → Place h object
unfolding get_object
Place-get_object h x object w e = elim (Bool-cases (in_large h x)) [
  | inl is_large ↦
      let found : addr_at (ext_search_bst h.large.occupied x) ≡ some object = rw is_large at e in
      let window = found_window x object h.large_start h.large_end h.large.occupied w.laid found in
      large (ground (arith, window))
        (ext_search_bst-again x object h.large_start h.large_end h.large.occupied w.laid
          w.large_fits found)
        (rw
          (search_bst-ext_search_bst x object h.large_start h.large_end h.large.occupied w.laid
            found)
          found)
  | inr not_large ↦ elim (Bool-cases (in_small h x)) [
    | inl is_small ↦
        small (get_small_object-IsSmall h x object w is_small (rw (not_large, is_small) at e))
    | inr outside ↦ absurd (none_some object (rw (not_large, outside) at e))
  ]
]
  where
    none_some : (o : ℕ) → none ≡ some o → ⊥
    none_some o e = cc

-- An object found is an object.
pub IsObject-get_object :
    (h : Heaps) (x object : ℕ) → IsWellFormed h → get_object h x ≡ some object → IsObject h object
unfolding get_object
IsObject-get_object h x object w e = at (Place-get_object h x object w e)
  where
    at : Place h object → IsObject h object
    at (small s) = (IsSmall-IsFound h object w s).found
    at (large inside again _) = rw inside again
