-- ===== src/Threads/Teardown.antt =====
-- `__destroy_storage` of mt-safety/threads-storage.c.
use mathlib.Core.Path.{subst}
use garbage_collector.Prelude.{
  ℕ, zero, suc, ◌<◌, ◌≡◌, ◌≢◌, ◌⊎◌, refl, sym, ap, ◌∙◌, ◌==◌, List, [], ◌∷◌, none, some, arith, inl,
  inr, true, false,
}
use garbage_collector.Threads.Storage.{
  StorageCell, Cells, Storage, put, free_cell, destroy_cells, destroy_storage,
}
use garbage_collector.Threads.Chain.{Entry, IsChain, IsStorage, count}
use garbage_collector.Threads.Removal.{NotIn, AreDistinct}

-- No entry has a cell any more.
abbrev pub AreFreed : Cells → List Entry → Type 0
AreFreed d [] = Unit {0}
AreFreed d (e ∷ es) = (d e.addr ≡ none) × AreFreed d es

-- Another cell's end leaves a chain as it is.
IsChain-put :
    (c : Cells) (a prev p : ℕ) (es : List Entry)
    → NotIn a es
    → IsChain c prev p es
    → IsChain (put c a none) prev p es
unfolding IsChain put
IsChain-put c a prev p [] n i = i
IsChain-put c a prev p (e ∷ es) n (at, nz, next, cell, rest) =
    let t : (p == a) ≡ false = ground (arith, n.0, at) in
    (at, nz, next, rw t cell, IsChain-put c a p next es n.1 rest)

-- The cell before the first one that is left is `NULL`, or one to be freed.
abbrev Last : Cells → ℕ → List Entry → Type 0
Last c prev es =
    (prev ≡ 0) ⊎ ((prev ≢ 0) × NotIn prev es × (cell : StorageCell) × (c prev ≡ some cell))

free-Last :
    (c : Cells) (prev p : ℕ) (es : List Entry)
    → Last c prev es
    → IsChain c prev p es
    → (d : Cells) × (free_cell c prev ≡ some d)
      × IsChain d prev p es
      × (prev ≢ 0 → d prev ≡ none)
      × ((x : ℕ) → x ≢ prev → d x ≡ c x)
unfolding put
free-Last c prev p es (inl z) i =
    let t : (prev == 0) ≡ true = ground arith in (c, rw t refl, i, (λ n. absurd (n z)), λ x n. refl)
free-Last c prev p es (inr (nz, n, cell, h)) i =
    let t : (prev == 0) ≡ false = ground arith in
    let same : (prev == prev) ≡ true = ground arith in
    (
      put c prev none,
      rw (t, h) refl,
      IsChain-put c prev prev p es n i,
      (λ m. rw same refl),
      λ x m. let other : (x == prev) ≡ false = ground arith in rw other refl,
    )

destroy_cells-round :
    (n : ℕ) (c d f : Cells) (prev p : ℕ) (cell : StorageCell)
    → p ≢ 0
    → free_cell c prev ≡ some d
    → d p ≡ some cell
    → destroy_cells n d p cell.next ≡ some f
    → destroy_cells (suc n) c prev p ≡ some f
unfolding destroy_cells
destroy_cells-round n c d f prev p cell nz freed at rest =
    let t : (p == 0) ≡ false = ground arith in rw (t, destroy_cells, freed, at) rest

destroy_cells-AreFreed :
    (n : ℕ) (c : Cells) (prev p : ℕ) (es : List Entry)
    → count es < n
    → AreDistinct es
    → Last c prev es
    → IsChain c prev p es
    → (d : Cells) × (destroy_cells n c prev p ≡ some d)
      × (prev ≢ 0 → d prev ≡ none)
      × AreFreed d es
      × ((x : ℕ) → x ≢ prev → NotIn x es → d x ≡ c x)
unfolding destroy_cells IsChain
destroy_cells-AreFreed zero c prev p es lt ds l i = absurd (omega arith)
destroy_cells-AreFreed (suc n) c prev p [] lt ds l i =
    let (d, freed, chain, gone, same) = free-Last c prev p [] l i in
    let t : (p == 0) ≡ true = ground arith in
    (d, rw (t, destroy_cells) freed, gone, tt, λ x m k. same x m)
destroy_cells-AreFreed (suc n) c prev p (e ∷ es) lt ds l i =
    let (d, freed, chain, gone, same) = free-Last c prev p (e ∷ es) l i in
    let (at, nz, next, cell, rest) = chain in
    let apart : NotIn p es = subst (λ z. NotIn z es) (sym at) ds.0 in
    let (f, ends, gone', all, same') =
      destroy_cells-AreFreed n d p next es (omega arith) ds.1
        (inr (nz, apart, record { thread = e.thread; next = next; prev = prev }, cell)) rest in
    (
      f,
      destroy_cells-round n c d f prev p (record { thread = e.thread; next = next; prev = prev }) nz
          freed cell ends,
      (λ m. prev_gone l m d f p at gone same'),
      (ap f (sym at) ∙ gone' nz, all),
      λ x m k. same' x (λ q. k.0 (q ∙ at)) k.1 ∙ same x m,
    )
  where
    prev_gone :
        Last c prev (e ∷ es)
        → prev ≢ 0
        → (d f : Cells) (p : ℕ) → p ≡ e.addr
        → (prev ≢ 0 → d prev ≡ none)
        → ((x : ℕ) → x ≢ p → NotIn x es → f x ≡ d x)
        → f prev ≡ none
    prev_gone (inl z) m d f p at gone same = absurd (m z)
    prev_gone (inr (nz, k, _, _)) m d f p at gone same = same prev (λ q. k.0 (q ∙ at)) k.1 ∙ gone m

-- At the end of the program each cell of the list is freed, once: if the cells are at different
-- addresses and the fuel is above their number, `__destroy_storage` ends without a second `free` of a
-- cell or a use of a freed one; no cell of the list is allocated afterwards, all others are as they
-- were, and the list is empty. `thread_count` keeps its value.
pub destroy_storage-AreFreed :
    (n : ℕ) (s : Storage) (es : List Entry)
    → IsStorage s es
    → AreDistinct es
    → count es < n
    → (t : Storage) × (destroy_storage n s ≡ some t)
      × AreFreed t.cells es
      × ((x : ℕ) → x ≢ 0 → NotIn x es → t.cells x ≡ s.cells x)
      × IsChain t.cells 0 t.created_threads_list []
      × (t.thread_count ≡ count es)
unfolding destroy_storage IsChain
destroy_storage-AreFreed n s es i ds lt =
    let (d, ends, gone, all, same) =
      destroy_cells-AreFreed n s.cells 0 s.created_threads_list es lt ds (inl refl) i.chain in
    (record s { cells = d; created_threads_list = 0 }, rw ends refl, all, same, refl, i.counted)
