-- ===== src/Marker/Whole.antt =====
-- `mark` of marker/marking.c: the segments of all threads, and the two of the linker.
use mathlib.Core.Option.{some}
use mathlib.Core.Path.{subst}
use garbage_collector.Prelude.{
  ℕ, zero, suc, ◌+◌, ◌*◌, ◌<◌, ◌≡◌, refl, sym, ap, ◌∙◌, false, ◌==◌, arith, List, [], ◌∷◌,
}
use garbage_collector.Memory.Words.{read64}
use garbage_collector.Object.Heaps.{Heaps, get_object}
use garbage_collector.Object.Cells.{IsWellFormed}
use garbage_collector.Object.Places.{IsObject}
use garbage_collector.Marker.Stack.{Stack, Realloc}
use garbage_collector.Marker.Marking.{
  Marker, segment_traverse, mark_stacks, threads_stacks_marking, mark,
}
use garbage_collector.Marker.Work.{unmarked-le}
use garbage_collector.Marker.State.{
  work_idle, work_ends, Has, IsMarked, Lasts, IsState, PointsTo, word_kept,
}
use garbage_collector.Marker.Reach.{
  Reach, root, step, Reach-IsObject, IsIdle, segment_traverse-Reach,
}
use garbage_collector.Threads.Storage.{
  Storage, start_threads_storage_traverse, get_next_thread, is_storage_empty,
}
use garbage_collector.Threads.Chain.{Entry, IsChain, IsStorage, count}

-- One traversal after another.
IsState-trans : (h : Heaps) (l n : Marker) → IsState h l → IsState l.heaps n → IsState h n
IsState-trans h l n i j = record {
  well_formed = j.well_formed;
  small_start = j.small_start ∙ i.small_start;
  small_end = j.small_end ∙ i.small_end;
  large_end = j.large_end ∙ i.large_end;
  objects = λ x. j.objects x ∙ i.objects x;
  sizes = λ p o. j.sizes p (i.objects p ∙ o) ∙ i.sizes p o;
  bytes = λ x o. j.bytes x (rw (i.small_start, i.small_end) o) ∙ i.bytes x o;
  valid = j.valid;
  stacked = λ p o. sym (i.objects p) ∙ j.stacked p o;
  room = omega (arith, j.room, work_ends h l.heaps n i.small_end i.large_end);
}

-- What was reachable in the heaps at the start is so later.
PointsTo-later :
    (h : Heaps) (m : Marker) (addr p : ℕ)
    → IsState h m
    → PointsTo h addr p
    → PointsTo m.heaps addr p
PointsTo-later h m addr p i (word, e) = (
  λ x a b. rw (i.small_start, i.small_end) (word x a b),
  ap (get_object m.heaps) (word_kept h m addr i word) ∙ i.objects (read64 h.small.mem addr) ∙ e,
)

Reach-later :
    (h : Heaps) (m : Marker) (start end : ℕ) {p : ℕ}
    → IsWellFormed h
    → IsState h m
    → Reach h start end p
    → Reach m.heaps start end p
Reach-later h m start end w i (root j p k to) =
    root j p k (PointsTo-later h m (start + 8 * j) p i to)
Reach-later h m start end w i (step {p} {q} r e) = step (Reach-later h m start end w i r) (record {
  size = e.size;
  sized = i.sizes p (Reach-IsObject h start end w r) ∙ e.sized;
  index = e.index;
  within = e.within;
  points = PointsTo-later h m (p + 8 * e.index) q i e.points;
})

-- After traversals from `m` the marker is idle, and has kept the heaps and the marks.
record Keeps (m n : Marker) : Type 0 where
  idle : IsIdle n
  state : IsState m.heaps n
  marks : (p : ℕ) → IsObject m.heaps p → IsMarked m p → IsMarked n p

Keeps-refl : (m : Marker) → IsIdle m → Keeps m m
Keeps-refl m i = record {
  idle = i;
  state = record {
    well_formed = i.well_formed;
    small_start = refl;
    small_end = refl;
    large_end = refl;
    objects = λ x. refl;
    sizes = λ p o. refl;
    bytes = λ x o. refl;
    valid = i.valid;
    stacked = λ p o. absurd (subst (Has p) i.empty o);
    room = omega (arith, i.few, work_idle m.heaps m i.empty);
  };
  marks = λ p o k. k;
}

Keeps-trans : (l m n : Marker) → Keeps l m → Keeps m n → Keeps l n
Keeps-trans l m n a b = record {
  idle = b.idle;
  state = IsState-trans l.heaps m n a.state b.state;
  marks = λ p o k. b.marks p (a.state.objects p ∙ o) (a.marks p o k);
}

abbrev pub Covers : Marker → Marker → ℕ → ℕ → Type 0
Covers m n start end = (p : ℕ) → Reach m.heaps start end p → IsMarked n p

-- What the first of two runs marks stays marked, and the second one sees what the first one saw.
Covers-first :
    (l m n : Marker) (start end : ℕ)
    → IsWellFormed l.heaps
    → Keeps l m
    → Keeps m n
    → Covers l m start end
    → Covers l n start end
Covers-first l m n start end w a b c p r =
    b.marks p (a.state.objects p ∙ Reach-IsObject l.heaps start end w r) (c p r)

Covers-second :
    (l m n : Marker) (start end : ℕ)
    → IsWellFormed l.heaps
    → Keeps l m
    → Covers m n start end
    → Covers l n start end
Covers-second l m n start end w a c p r = c p (Reach-later l.heaps m start end w a.state r)

module _ (memory : Stack → Realloc) (lasts : Lasts memory) where
  segment_Keeps :
      (fuel start end : ℕ) (m : Marker)
      → IsIdle m
      → 0 < start
      → start < end
      → m.heaps.small_end + m.heaps.large_end < fuel
      → (n : Marker) × (segment_traverse memory fuel start end m ≡ some n)
        × Keeps m n
        × Covers m n start end
  segment_Keeps fuel start end m i positive less enough =
      let bound = unmarked-le (m.heaps.small_end + m.heaps.large_end) m.heaps in
      let (n, ends, idle, covers, marks, state) =
        segment_traverse-Reach memory lasts fuel start end m i positive less (omega arith) in
      (n, ends, record { idle = idle; state = state; marks = marks }, covers)

  module _ (stack_addr stack_size : ℕ → ℕ) where
    abbrev pub HasStack : Entry → Type 0
    HasStack e = (0 < stack_addr e.thread) × (0 < stack_size e.thread)

    -- Every thread of a list has a stack of at least one byte that does not begin at 0.
    abbrev pub HaveStacks : List Entry → Type 0
    HaveStacks [] = Unit {0}
    HaveStacks (e ∷ es) = HasStack e × HaveStacks es

    -- From the stack of every thread of the list, what is reachable is marked.
    abbrev pub StacksCovered : Marker → Marker → List Entry → Type 0
    StacksCovered m n [] = Unit {0}
    StacksCovered m n (e ∷ es) =
        Covers m n (stack_addr e.thread) (stack_addr e.thread + stack_size e.thread)
        × StacksCovered m n es

    StacksCovered-second :
        (l m n : Marker) (es : List Entry)
        → IsWellFormed l.heaps
        → Keeps l m
        → StacksCovered m n es
        → StacksCovered l n es
    StacksCovered-second l m n [] w a c = tt
    StacksCovered-second l m n (e ∷ es) w a c = (
      Covers-second l m n (stack_addr e.thread) (stack_addr e.thread + stack_size e.thread) w a c.0,
      StacksCovered-second l m n es w a c.1,
    )

    StacksCovered-first :
        (l m n : Marker) (es : List Entry)
        → IsWellFormed l.heaps
        → Keeps l m
        → Keeps m n
        → StacksCovered l m es
        → StacksCovered l n es
    StacksCovered-first l m n [] w a b c = tt
    StacksCovered-first l m n (e ∷ es) w a b c = (
      Covers-first l m n (stack_addr e.thread) (stack_addr e.thread + stack_size e.thread) w a b
          c.0,
      StacksCovered-first l m n es w a b c.1,
    )

    mark_stacks-Keeps :
        (fuel k : ℕ) (s : Storage) (prev : ℕ) (es : List Entry) (m : Marker)
        → IsChain s.cells prev s.current_node_of_traversing es
        → HaveStacks es
        → count es < k
        → IsIdle m
        → m.heaps.small_end + m.heaps.large_end < fuel
        → (n : Marker) × (mark_stacks memory stack_addr stack_size fuel k s m ≡ some n)
          × Keeps m n
          × StacksCovered m n es
    unfolding mark_stacks IsChain is_storage_empty get_next_thread
    mark_stacks-Keeps fuel zero s prev es m chain stacks less i enough = absurd (omega arith)
    mark_stacks-Keeps fuel (suc k) s prev [] m chain stacks less i enough =
        (m, rw (chain, mark_stacks) refl, Keeps-refl m i, tt)
    mark_stacks-Keeps fuel (suc k) s prev (e ∷ es) m (at, nonzero, next, cell, rest) stacks less i
          enough =
        let nz : (s.current_node_of_traversing == 0) ≡ false = ground arith in
        let s' : Storage = record s { current_node_of_traversing = next } in
        let (l, ends, a, covers) =
          segment_Keeps fuel (stack_addr e.thread) (stack_addr e.thread + stack_size e.thread) m i
            stacks.0.0 (omega (arith, stacks.0.1)) enough in
        let (n, ends', b, rest_covered) =
          mark_stacks-Keeps fuel k s' s.current_node_of_traversing es l rest stacks.1 (omega arith)
            a.idle (omega (arith, a.state.small_end, a.state.large_end)) in
        (
          n,
          rw (nz, mark_stacks, nz, cell, ends) ends',
          Keeps-trans m l n a b,
          (
            Covers-first m l n (stack_addr e.thread) (stack_addr e.thread + stack_size e.thread)
                i.well_formed a b covers,
            StacksCovered-second m l n es i.well_formed a rest_covered,
          ),
        )

    -- Let the marker be idle at the start: the heaps are well formed, the stack is valid and empty, no
    -- more than 2^30 objects are unmarked, and whatever an object that is marked already points to is
    -- marked too, as where no mark is left of the collection before. If the stack's memory lasts, the
    -- fuel is above the addresses of the heaps and the number of threads, the storage of threads is a
    -- list of cells, and the segments and the threads' stacks are not empty and do not begin at 0, then
    -- marking ends. Every object is marked that the stack of a thread of the list, the data segment or
    -- the bss segment led to at the start, in any number of steps; and the marker is idle again.
    pub mark-Reach :
        (data_start edata bss_start end fuel k : ℕ) (s : Storage) (es : List Entry) (m : Marker)
        → IsStorage s es
        → HaveStacks es
        → 0 < data_start
        → data_start < edata
        → 0 < bss_start
        → bss_start < end
        → IsIdle m
        → m.heaps.small_end + m.heaps.large_end < fuel
        → count es < k
        → (n : Marker) × (mark memory stack_addr stack_size data_start edata bss_start end fuel k s
              m
            ≡ some n)
          × IsIdle n
          × StacksCovered m n es
          × Covers m n data_start edata
          × Covers m n bss_start end
    unfolding mark threads_stacks_marking start_threads_storage_traverse
    mark-Reach data_start edata bss_start end fuel k s es m storage stacks d d' b b' i enough
          threads =
        let s' : Storage = record s { current_node_of_traversing = s.created_threads_list } in
        let (m1, ends1, k1, c1) =
          mark_stacks-Keeps fuel k s' 0 es m storage.chain stacks threads i enough in
        let (m2, ends2, k2, c2) =
          segment_Keeps fuel data_start edata m1 k1.idle d d'
            (omega (arith, k1.state.small_end, k1.state.large_end)) in
        let k12 = Keeps-trans m m1 m2 k1 k2 in
        let (n, ends3, k3, c3) =
          segment_Keeps fuel bss_start end m2 k2.idle b b'
            (omega (arith, k12.state.small_end, k12.state.large_end)) in
        (
          n,
          rw (ends1, ends2) ends3,
          k3.idle,
          StacksCovered-first m m1 n es i.well_formed k1 (Keeps-trans m1 m2 n k2 k3) c1,
          Covers-first m m2 n data_start edata i.well_formed k12 k3
              (Covers-second m m1 m2 data_start edata i.well_formed k1 c2),
          Covers-second m m2 n bss_start end i.well_formed k12 c3,
        )
