-- ===== src/Marker/Examples.antt =====
-- Runs of marker/, and its theorems at concrete stacks and heaps.
use mathlib.Core.Option.{Option, none, some}
use garbage_collector.Prelude.{
  ℕ, zero, suc, ◌+◌, ◌*◌, ◌<◌, ◌≡◌, ◌≢◌, arith, refl, inl, Bool, true, false, List, [], ◌∷◌, ◌==◌,
  if◌then◌else◌, add64,
}
use garbage_collector.Memory.Words.{Memory, read64, write64, byte_of}
use garbage_collector.Large.Tree.{null, node}
use garbage_collector.Large.Bst.{search_bst, ext_search_bst}
use garbage_collector.Small.Header.{size_with_alignment}
use garbage_collector.Object.Heaps.{
  Heaps, get_object, get_object_size, get_small_object, small_object_size, mark_object, mark_bst,
  is_marked,
}
use garbage_collector.Object.Places.{IsObject}
use garbage_collector.Threads.Storage.{Storage}
use garbage_collector.Threads.Chain.{Entry, IsChain, IsStorage}
use garbage_collector.Marker.Stack.{Stack, Realloc, create_stack, is_empty, store, push, pop}
use garbage_collector.Marker.StackProof.{contents, IsValid, IsPushed, pop-push, push-IsPushed}
use garbage_collector.Marker.Marking.{
  Marker, push_object, mark_and_push, visit_word, traverse_words, scan, closure, segment_traverse,
  mark,
}
use garbage_collector.Marker.Work.{unmarked-le}
use garbage_collector.Marker.State.{Lasts, IsMarked, IsState}
use garbage_collector.Marker.Reach.{Reach, IsIdle, segment_traverse-Reach}
use garbage_collector.Marker.Stale.{IsMarkedBehind, segment_traverse-marked}
use garbage_collector.Marker.Whole.{Covers, StacksCovered, mark-Reach}

-- A full stack.
abbrev full : Stack
full = record { cells = λ i. i; depth = 2; capacity = 2 }

full-IsValid : IsValid full
full-IsValid = omega arith

pop-push_example :
    (t u : Stack) × (push (some (λ _. 0)) full 7 ≡ some t)
    × (pop t ≡ some (7, u))
    × (contents u ≡ contents full)
    × IsValid t
pop-push_example = pop-push full (λ _. 0) 7 full-IsValid (omega arith)

push-IsPushed_example : (t : Stack) × (push (some (λ _. 0)) full 7 ≡ some t) × IsPushed full t 7
push-IsPushed_example = push-IsPushed full (λ _. 0) 7 full-IsValid (omega arith)

-- One thread, whose stack holds a word that points to the first of two large objects, which points
-- to the second.
abbrev memory : Memory
memory = write64 (write64 (λ _. 0) 5000 1_000_000) 1_000_000 1_000_100

abbrev heaps : Heaps
heaps = record {
  small = record { start = 65536; mem = memory; segreg = λ _. []; empty = []; cache = λ _. none };
  small_end = 65536;
  large_start = 1_000_000;
  large_end = 1_100_000;
  large = record {
    occupied =
        node (record { addr = 1_000_000; size = 16; is_marked = false }) null
          (node (record { addr = 1_000_100; size = 16; is_marked = false }) null null);
    free = null;
    spare = 3;
  };
}

abbrev marker : Marker
marker = record { heaps = heaps; stack = create_stack (λ _. 0) }

unmarked_at : (p : ℕ) → is_marked heaps p ≢ some true
unfolding is_marked search_bst
unmarked_at p e = ground arith

memory_bytes : (x : ℕ) → memory x < 256
unfolding write64 byte_of
memory_bytes x = ground arith

marker-IsIdle : IsIdle marker
unfolding create_stack
marker-IsIdle = record {
  well_formed = record {
    blocks = 0;
    whole = refl;
    small_fits = omega arith;
    large_fits = omega arith;
    apart = inl (omega arith);
    bytes = memory_bytes;
    laid = omega arith;
  };
  valid = omega arith;
  empty = refl;
  few = omega (arith, unmarked-le (65536 + 1_100_000) heaps);
  closed = λ p q o k e. absurd (unmarked_at p k);
}

abbrev thread : Storage
thread = record {
  cells = λ x. if x == 100 then some (record { thread = 7; next = 0; prev = 0 }) else none;
  created_threads_list = 100;
  thread_count = 1;
  current_node_of_traversing = 0;
}

abbrev entries : List Entry
entries = record { addr = 100; thread = 7 } ∷ []

thread-IsStorage : IsStorage thread entries
unfolding IsChain
thread-IsStorage = record {
  chain = (refl, omega arith, 0, refl, refl);
  counted = refl;
  fits = omega arith;
}

abbrev answers : Stack → Realloc
answers s = some (λ _. 0)

answers_last : Lasts answers
answers_last s = (λ _. 0, refl)

segment_traverse-Reach_example :
    (n : Marker) × (segment_traverse answers 1_200_000 5000 5016 marker ≡ some n)
    × IsIdle n
    × ((p : ℕ) → Reach heaps 5000 5016 p → IsMarked n p)
    × ((p : ℕ) → IsObject heaps p → IsMarked marker p → IsMarked n p)
    × IsState heaps n
segment_traverse-Reach_example =
    segment_traverse-Reach answers answers_last 1_200_000 5000 5016 marker marker-IsIdle
      (omega arith) (omega arith) (omega (arith, unmarked-le 1_165_536 heaps))

mark-Reach_example :
    (n : Marker) × (mark answers (λ _. 5000) (λ _. 16) 6000 6008 7000 7008 1_200_000 2 thread marker
      ≡ some n)
    × IsIdle n
    × StacksCovered answers answers_last (λ _. 5000) (λ _. 16) marker n entries
    × Covers marker n 6000 6008
    × Covers marker n 7000 7008
mark-Reach_example =
    mark-Reach answers answers_last (λ _. 5000) (λ _. 16) 6000 6008 7000 7008 1_200_000 2 thread
      entries marker thread-IsStorage (omega arith) (omega arith) (omega arith) (omega arith)
      (omega arith) marker-IsIdle (omega arith) (omega arith)

-- Whether both objects are marked.
abbrev both : Option Marker → Option Bool × Option Bool
both none = (none, none)
both (some n) = (is_marked n.heaps 1_000_000, is_marked n.heaps 1_000_100)

-- The traversal of the thread's stack marks both objects.
both_marked : both (segment_traverse answers 3 5000 5016 marker) ≡ (some true, some true)
unfolding segment_traverse traverse_words visit_word closure scan mark_and_push push_object
    mark_object is_marked get_object get_object_size mark_bst search_bst ext_search_bst create_stack
    push store pop is_empty read64 write64 byte_of add64 size_with_alignment small_object_size
    get_small_object
both_marked = refl

-- The first object has its mark from an earlier collection, the second one has none.
abbrev stale : Marker
stale = record marker {
  heaps = record heaps {
    large = record {
      occupied =
          node (record { addr = 1_000_000; size = 16; is_marked = true }) null
            (node (record { addr = 1_000_100; size = 16; is_marked = false }) null null);
      free = null;
      spare = 3;
    };
  };
}

points : get_object stale.heaps (read64 memory 5000) ≡ some 1_000_000
unfolding get_object ext_search_bst read64 write64 byte_of add64
points = refl

points_nowhere : get_object stale.heaps (read64 memory 5008) ≡ none
unfolding get_object ext_search_bst read64 write64 byte_of add64
points_nowhere = refl

first_marked : is_marked stale.heaps 1_000_000 ≡ some true
unfolding is_marked search_bst
first_marked = refl

all_marked : (j : ℕ) → j < 2 → IsMarkedBehind answers stale (5000 + 8 * j)
all_marked zero h p e = let same : p ≡ 1_000_000 = cc (points, e) in rw same first_marked
all_marked (suc zero) h p e = cc (points_nowhere, e)
all_marked (suc (suc j)) h p e = absurd (omega arith)

segment_traverse-marked_example : segment_traverse answers (suc 0) 5000 5016 stale ≡ some stale
unfolding create_stack is_empty
segment_traverse-marked_example =
    segment_traverse-marked answers stale 0 5000 5016 (omega arith) (omega arith) refl all_marked
