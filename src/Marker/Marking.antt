-- ===== src/Marker/Marking.antt =====
-- The functions of marker/marking.c. `none` is a failed assertion, the end of the program for want
-- of memory, or fuel that has run out. The calls of log are left out.
use garbage_collector.Prelude.{
  ℕ, zero, suc, ◌+◌, ◌-◌, ◌/◌, true, false, ◌&&◌, not, ◌==◌, ltb, if◌then◌else◌, Option, none, some,
  ◌>>=◌,
}
use garbage_collector.Memory.Words.{read64}
use garbage_collector.Object.Heaps.{Heaps, get_object, get_object_size, mark_object, is_marked}
use garbage_collector.Marker.Stack.{Stack, Realloc, is_empty, push, pop}
use garbage_collector.Threads.Storage.{
  Storage, start_threads_storage_traverse, get_next_thread, is_storage_empty,
}

-- The heaps, in whose memory the program's words lie too, and the stack of marked objects.
pub record Marker : Type 0 where
  pub heaps : Heaps
  pub stack : Stack

-- The rounds of a loop from one address to another in steps of 8.
abbrev pub rounds : ℕ → ℕ → ℕ
rounds start end = (end - start + 7) / 8

-- What `realloc` answers when a stack has to grow.
module _ (memory : Stack → Realloc) where
  unfoldable pub push_object : ℕ → Marker → Option Marker
  push_object object m = do
    h ← mark_object m.heaps object
    s ← push (memory m.stack) m.stack object
    some (record { heaps = h; stack = s })

  unfoldable pub mark_and_push : ℕ → Marker → Option Marker
  unfolding push_object
  mark_and_push object m = do
    done ← is_marked m.heaps object
    if done then some m else push_object object m

  abbrev pub mark_found : Marker → Option ℕ → Option Marker
  mark_found m none = some m
  mark_found m (some object) = mark_and_push object m

  -- The body of the loops of `scan` and `segment_traverse`, at the word at an address.
  unfoldable pub visit_word : ℕ → Marker → Option Marker
  visit_word addr m = mark_found m (get_object m.heaps (read64 m.heaps.small.mem addr))

  -- These loops, over the rounds that are left.
  unfoldable pub traverse_words : ℕ → ℕ → Marker → Option Marker
  traverse_words zero addr m = some m
  traverse_words (suc n) addr m = visit_word addr m >>= λ m'. traverse_words n (addr + 8) m'

  abbrev pub scan_object : Marker → Option ℕ → Option Marker
  scan_object m none = some m
  scan_object m (some object) = do
    size ← get_object_size m.heaps object
    traverse_words (rounds object (object + size)) object m

  unfoldable pub scan : ℕ → Marker → Option Marker
  scan object_addr m = scan_object m (get_object m.heaps object_addr)

  -- On fuel.
  unfoldable pub closure : ℕ → Marker → Option Marker
  unfolding scan
  closure zero m = none
  closure (suc fuel) m = elim (is_empty m.stack) [
    | true ↦ some m
    | false ↦ pop m.stack >>= λ (cur_elem, s).
        scan cur_elem (record m { stack = s }) >>= λ m'. closure fuel m'
  ]

  unfoldable pub segment_traverse : ℕ → ℕ → ℕ → Marker → Option Marker
  unfolding traverse_words closure
  segment_traverse fuel segment_start segment_end m =
      if not (segment_start == 0) && (not (segment_end == 0) && ltb segment_start segment_end)
      then traverse_words (rounds segment_start segment_end) segment_start m >>= closure fuel
      else none

  -- What `pthread_getattr_np` and `pthread_attr_getstack` tell of a thread's stack.
  module _ (stack_addr stack_size : ℕ → ℕ) where
    -- The loop of `threads_stacks_marking`, on fuel for the threads.
    unfoldable pub mark_stacks : ℕ → ℕ → Storage → Marker → Option Marker
    mark_stacks fuel zero s m = none
    mark_stacks fuel (suc n) s m = elim (is_storage_empty s) [
      | true ↦ some m
      | false ↦ get_next_thread s >>= λ (now_thread, s').
          segment_traverse fuel (stack_addr now_thread)
            (stack_addr now_thread + stack_size now_thread) m
          >>= λ m'. mark_stacks fuel n s' m'
    ]

    unfoldable pub threads_stacks_marking : ℕ → ℕ → Storage → Marker → Option Marker
    unfolding mark_stacks
    threads_stacks_marking fuel n s m = mark_stacks fuel n (start_threads_storage_traverse s) m

    -- With the addresses of the linker's symbols.
    unfoldable pub mark :
        (data_start edata bss_start end fuel n : ℕ) → Storage → Marker → Option Marker
    unfolding threads_stacks_marking segment_traverse
    mark data_start edata bss_start end fuel n s m = do
      m1 ← threads_stacks_marking fuel n s m
      m2 ← segment_traverse fuel data_start edata m1
      segment_traverse fuel bss_start end m2
