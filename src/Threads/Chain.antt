-- ===== src/Threads/Chain.antt =====
-- The list of cells of mt-safety/threads-storage.c is a doubly linked list of the threads.
use garbage_collector.Prelude.{
  ℕ, zero, suc, ◌+◌, ◌%◌, ◌^◌, ◌<◌, ◌≡◌, ◌≢◌, refl, sym, ap, ◌∙◌, ◌==◌, List, [], ◌∷◌, map, none,
  some, arith, Bool-cases, inl, inr, true, false,
}
use garbage_collector.Threads.Storage.{
  StorageCell, Cells, Storage, put, create_cell_for_thread, signal_all,
  start_threads_storage_traverse, get_threads_storage_size, get_next_thread, is_storage_empty,
}

-- An address and the thread at it.
pub record Entry : Type 0 where
  pub addr : ℕ
  pub thread : ℕ

-- From `p` on, the cells are those of the list, linked both ways, the first with `prev` before it.
unfoldable pub IsChain : Cells → ℕ → ℕ → List Entry → Type 0
IsChain cells prev p [] = p ≡ 0
IsChain cells prev p (e ∷ es) =
    (p ≡ e.addr)
    × (p ≢ 0)
    × (next : ℕ) × (cells p ≡ some (record { thread = e.thread; next = next; prev = prev }))
    × IsChain cells p next es

abbrev pub count : List Entry → ℕ
count [] = 0
count (e ∷ es) = suc (count es)

pub record IsStorage (s : Storage) (es : List Entry) : Type 0 where
  pub chain : IsChain s.cells 0 s.created_threads_list es
  pub counted : s.thread_count ≡ count es
  pub fits : count es < 2 ^ 32

-- A chain behind a cell is unchanged if the cells with a predecessor are.
IsChain-frame :
    (c d : Cells) (prev p : ℕ) (es : List Entry)
    → prev ≢ 0
    → ((x : ℕ) (cell : StorageCell) → c x ≡ some cell → cell.prev ≢ 0 → d x ≡ c x)
    → IsChain c prev p es
    → IsChain d prev p es
unfolding IsChain
IsChain-frame c d prev p [] h same i = i
IsChain-frame c d prev p (e ∷ es) h same (at, nonzero, next, cell, rest) = (
  at,
  nonzero,
  next,
  same p (record { thread = e.thread; next = next; prev = prev }) cell h ∙ cell,
  IsChain-frame c d p next es nonzero same rest,
)

-- The loop signals the threads of a chain.
signal_all-IsChain :
    (n : ℕ) (s : Storage) (prev : ℕ) (es : List Entry)
    → IsChain s.cells prev s.current_node_of_traversing es
    → count es < n
    → signal_all n s ≡ some (map (λ e. e.thread) es)
unfolding IsChain signal_all get_next_thread is_storage_empty
signal_all-IsChain zero s prev es i h = ground arith
signal_all-IsChain (suc n) s prev [] i h = rw i refl
signal_all-IsChain (suc n) s prev (e ∷ es) (at, nonzero, next, cell, rest) h =
    let nz : (s.current_node_of_traversing == 0) ≡ false = ground arith in
    let later =
      signal_all-IsChain n (record s { current_node_of_traversing = next })
        s.current_node_of_traversing es rest (omega arith) in
    rw (nz, cell, later) refl

-- In a storage of fewer than 2^32 threads the loop of `stop_the_world` ends, as soon as its fuel is
-- above the number of threads, and has signalled the thread of every cell, in the order of the
-- list. `get_threads_storage_size`, from which the barrier is set up, is the number of the signals.
pub signal_all-start_threads_storage_traverse :
    (n : ℕ) (s : Storage) (es : List Entry)
    → IsStorage s es
    → get_threads_storage_size s < n
    → (signal_all n (start_threads_storage_traverse s) ≡ some (map (λ e. e.thread) es))
      × (get_threads_storage_size s ≡ count es)
unfolding start_threads_storage_traverse get_threads_storage_size
signal_all-start_threads_storage_traverse n s es i h = (
  signal_all-IsChain n (record s { current_node_of_traversing = s.created_threads_list }) 0 es
      i.chain (omega (arith, i.counted)),
  i.counted,
)

-- An allocated address is not one that is free.
apart_from_free :
    (c : Cells) (x y : ℕ) (cell : StorageCell) → c x ≡ some cell → c y ≡ none → (x == y) ≡ false
apart_from_free c x y cell h k = elim (Bool-cases (x == y)) [
  | inl e ↦ let same : x ≡ y = ground arith in cc
  | inr e ↦ e
]

-- A cell with a predecessor is not the first one.
prev_differs :
    (c : Cells) (x y : ℕ) (a b : StorageCell)
    → c x ≡ some a
    → c y ≡ some b
    → a.prev ≢ 0
    → b.prev ≡ 0
    → (x == y) ≡ false
prev_differs c x y a b h k p q = elim (Bool-cases (x == y)) [
  | inl e ↦
      let same : x ≡ y = ground arith in
      let one : some a ≡ some b = sym h ∙ ap c same ∙ k in grind (arith, one, p, q)
  | inr e ↦ e
]

-- The storage after a call of `create_cell_for_thread` that has made the cells `d`.
abbrev with_first : Storage → ℕ → Cells → Storage
with_first s new_node d = record s {
  cells = d;
  created_threads_list = new_node;
  thread_count = (s.thread_count + 1) % 2 ^ 32;
}

IsStorage-with_first :
    (s : Storage) (new_node : ℕ) (d : Cells) (es : List Entry)
    → s.thread_count ≡ count es
    → count es + 1 < 2 ^ 32
    → new_node ≢ 0
    → d new_node ≡ some (record { thread = 0; next = s.created_threads_list; prev = 0 })
    → IsChain d new_node s.created_threads_list es
    → IsStorage (with_first s new_node d) (record { addr = new_node; thread = 0 } ∷ es)
unfolding IsChain
IsStorage-with_first s new_node d es counted fits nonnull cell rest = record {
  chain = (refl, nonnull, s.created_threads_list, cell, rest);
  counted = omega arith;
  fits = omega arith;
}

-- A thread's cell is created in front of the list: if `calloc` answers an address that is not
-- allocated and there are fewer than 2^32 threads with the new one, the call succeeds, and the list
-- is the old one behind the new cell, linked both ways, and counted right.
pub create_cell_for_thread-IsStorage :
    (new_node : ℕ) (s : Storage) (es : List Entry)
    → IsStorage s es
    → new_node ≢ 0
    → s.cells new_node ≡ none
    → count es + 1 < 2 ^ 32
    → (t : Storage) × (create_cell_for_thread new_node s ≡ some t)
      × IsStorage t (record { addr = new_node; thread = 0 } ∷ es)
unfolding create_cell_for_thread put IsChain
create_cell_for_thread-IsStorage new_node s [] i nonnull fresh fits =
    let nz : (new_node == 0) ≡ false = ground arith in
    let empty : (s.created_threads_list == 0) ≡ true = ground (arith, i.chain) in
    let here : (new_node == new_node) ≡ true = ground arith in
    let c = put s.cells new_node (some (record { thread = 0; next = 0; prev = 0 })) in
    let d =
      put c new_node (some (record { thread = 0; next = s.created_threads_list; prev = 0 })) in
    (
      with_first s new_node d,
      rw (nz, empty, here) refl,
      IsStorage-with_first s new_node d [] i.counted fits nonnull (rw here refl) i.chain,
    )
create_cell_for_thread-IsStorage new_node s (e ∷ es) i nonnull fresh fits =
    let (at, nonzero, next, cell, rest) = i.chain in
    let head = s.created_threads_list in
    let nz : (new_node == 0) ≡ false = ground arith in
    let hz : (head == 0) ≡ false = ground arith in
    let here : (new_node == new_node) ≡ true = ground arith in
    let there : (head == head) ≡ true = ground arith in
    let old : StorageCell = record { thread = e.thread; next = next; prev = 0 } in
    let apart : (head == new_node) ≡ false = apart_from_free s.cells head new_node old cell fresh in
    let apart' : (new_node == head) ≡ false = ground arith in
    let c = put s.cells new_node (some (record { thread = 0; next = 0; prev = 0 })) in
    let c' = put c head (some (record old { prev = new_node })) in
    let d = put c' new_node (some (record { thread = 0; next = head; prev = 0 })) in
    (
      with_first s new_node d,
      rw (nz, hz, apart, cell, apart', here) refl,
      IsStorage-with_first s new_node d (e ∷ es) i.counted fits nonnull (rw here refl) (
        at,
        nonzero,
        next,
        rw (apart, there) refl,
        IsChain-frame s.cells d head next es nonzero
            (λ x f q p.
              rw
                (
                  apart_from_free s.cells x new_node f q fresh,
                  prev_differs s.cells x head f old q cell p refl,
                )
                refl)
            rest,
      ),
    )
