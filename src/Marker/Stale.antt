-- ===== src/Marker/Stale.antt =====
-- Marks that are left from an earlier collection hide what lies behind them from marker/marking.c.
use mathlib.Core.Option.{some}
use mathlib.Core.Path.{subst}
use garbage_collector.Prelude.{
  ℕ, zero, suc, ◌+◌, ◌*◌, ◌<◌, ◌≡◌, inl, inr, refl, true, false, ◌==◌, ltb, arith, Option-cases,
}
use garbage_collector.Memory.Words.{read64}
use garbage_collector.Object.Heaps.{get_object, is_marked}
use garbage_collector.Marker.Stack.{Stack, Realloc, is_empty}
use garbage_collector.Marker.Marking.{
  Marker, mark_and_push, visit_word, traverse_words, rounds, closure, segment_traverse,
}

module _ (memory : Stack → Realloc) (m : Marker) where
  -- The object that a word points to, if any, is marked.
  abbrev pub IsMarkedBehind : ℕ → Type 0
  IsMarkedBehind addr =
      (p : ℕ)
      → get_object m.heaps (read64 m.heaps.small.mem addr) ≡ some p
      → is_marked m.heaps p ≡ some true

  visit_word-marked : (addr : ℕ) → IsMarkedBehind addr → visit_word memory addr m ≡ some m
  unfolding visit_word mark_and_push
  visit_word-marked addr black =
      elim (Option-cases (get_object m.heaps (read64 m.heaps.small.mem addr))) [
        | inl e ↦ rw e refl
        | inr (p, e) ↦ rw (e, black p e) refl
      ]

  traverse_words-marked :
      (k addr : ℕ)
      → ((j : ℕ) → j < k → IsMarkedBehind (addr + 8 * j))
      → traverse_words memory k addr m ≡ some m
  unfolding traverse_words
  traverse_words-marked zero addr black = refl
  traverse_words-marked (suc k) addr black =
      let first : addr + 8 * 0 ≡ addr = omega arith in
      rw (visit_word-marked addr (subst IsMarkedBehind first (black 0 (omega arith)))) (
        traverse_words-marked k (addr + 8) (λ j h.
          let next : addr + 8 * suc j ≡ addr + 8 + 8 * j = omega arith in
          subst IsMarkedBehind next (black (suc j) (omega arith))))

  -- If the stack is empty and every object that a word of a segment points to is marked already,
  -- the traversal of the segment ends and changes nothing: an object that only these objects
  -- point to stays unmarked, if it is so.
  pub segment_traverse-marked :
      (fuel start end : ℕ)
      → 0 < start
      → start < end
      → is_empty m.stack ≡ true
      → ((j : ℕ) → j < rounds start end → IsMarkedBehind (start + 8 * j))
      → segment_traverse memory (suc fuel) start end m ≡ some m
  unfolding segment_traverse
  segment_traverse-marked fuel start end positive less empty black =
      let nz : (start == 0) ≡ false = ground arith in
      let nz' : (end == 0) ≡ false = ground arith in
      let lt : ltb start end ≡ true = ground arith in
      rw (nz, nz', lt, traverse_words-marked (rounds start end) start black, closure, empty) refl
