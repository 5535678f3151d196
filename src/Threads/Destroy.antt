-- ===== src/Threads/Destroy.antt =====
-- `destroy_cell` of mt-safety/threads-storage.c against the list of threads.
use mathlib.Core.Path.{subst}
use garbage_collector.Prelude.{
  ℕ, suc, ◌+◌, ◌-◌, ◌%◌, ◌^◌, ◌<◌, ◌≡◌, ◌≢◌, ◌⊎◌, refl, sym, ap, ◌∙◌, ◌==◌, if◌then◌else◌, List, [],
  ◌∷◌, ◌++◌, none, some, arith, Bool-cases, inl, inr, true, false,
}
use garbage_collector.Threads.Storage.{
  StorageCell, Cells, Storage, put, set_next, unlink_next, destroy_at, destroy_cell,
}
use garbage_collector.Threads.Chain.{Entry, IsChain, IsStorage, count}
use garbage_collector.Threads.Removal.{
  NotIn, AreDistinct, Unlinks, last_addr, link, NotIn-append, IsChain-removed,
}

-- A pointer to nothing, or to a cell.
abbrev Leads : Cells → ℕ → Type 0
Leads c p = (p ≡ 0) ⊎ ((p ≢ 0) × (cell : StorageCell) × (c p ≡ some cell))

first-Leads : (c : Cells) (prev p : ℕ) (es : List Entry) → IsChain c prev p es → Leads c p
unfolding IsChain
first-Leads c prev p [] h = inl h
first-Leads c prev p (e ∷ es) (at, nz, next, cell, rest) =
    inr (nz, record { thread = e.thread; next = next; prev = prev }, cell)

-- The cell of an entry in the middle, and what its pointers lead to.
middle :
    (c : Cells) (prev p : ℕ) (xs : List Entry) (e : Entry) (ys : List Entry)
    → Leads c prev
    → IsChain c prev p (xs ++ e ∷ ys)
    → (after : ℕ) × (c e.addr
        ≡ some (record { thread = e.thread; next = after; prev = last_addr prev xs }))
      × (e.addr ≢ 0)
      × IsChain c e.addr after ys
      × Leads c (last_addr prev xs)
unfolding IsChain
middle c prev p [] e ys l (at, nz, next, cell, rest) =
    (next, ap c (sym at) ∙ cell, (λ m. nz (at ∙ m)), subst (λ z. IsChain c z next ys) at rest, l)
middle c prev p (x ∷ xs) e ys l (at, nz, next, cell, rest) =
    middle c x.addr next xs e ys
      (inr (
        (λ m. nz (at ∙ m)),
        record { thread = x.thread; next = next; prev = prev },
        ap c (sym at) ∙ cell,
      ))
      (subst (λ z. IsChain c z next (xs ++ e ∷ ys)) at rest)

-- The two assignments to the neighbours.
link_before :
    (c : Cells) (before after : ℕ)
    → Leads c before
    → (d : Cells) × ((if before == 0 then some c else set_next c before after) ≡ some d)
      × ((x : ℕ) (cell : StorageCell)
          → x ≢ 0
          → c x ≡ some cell
          → d x ≡ some (record cell { next = if x == before then after else cell.next }))
unfolding put
link_before c before after (inl z) =
    let e : (before == 0) ≡ true = ground arith in
    (c, rw e refl, λ x cell nz h. let n : (x == before) ≡ false = ground arith in h ∙ rw n refl)
link_before c before after (inr (nz, b, h)) =
    let e : (before == 0) ≡ false = ground arith in
    (
      put c before (some (record b { next = after })),
      rw (e, h) refl,
      λ x cell m k. elim (Bool-cases (x == before)) [
        | inl same ↦
            let at : x ≡ before = ground arith in
            let one : some b ≡ some cell = sym h ∙ ap c (sym at) ∙ k in
            rw same (ground (arith, one))
        | inr other ↦ rw other k
      ],
    )

link_after :
    (c : Cells) (before after : ℕ)
    → Leads c after
    → (d : Cells) × (unlink_next after before (some c) ≡ some d)
      × ((x : ℕ) (cell : StorageCell)
          → x ≢ 0
          → c x ≡ some cell
          → d x ≡ some (record cell { prev = if x == after then before else cell.prev }))
unfolding put
link_after c before after (inl z) =
    let e : (after == 0) ≡ true = ground arith in
    (c, rw e refl, λ x cell nz h. let n : (x == after) ≡ false = ground arith in h ∙ rw n refl)
link_after c before after (inr (nz, b, h)) =
    let e : (after == 0) ≡ false = ground arith in
    (
      put c after (some (record b { prev = before })),
      rw (e, h) refl,
      λ x cell m k. elim (Bool-cases (x == after)) [
        | inl same ↦
            let at : x ≡ after = ground arith in
            let one : some b ≡ some cell = sym h ∙ ap c (sym at) ∙ k in
            rw same (ground (arith, one))
        | inr other ↦ rw other k
      ],
    )

-- The neighbours of the cell are linked, and the cell is freed.
links :
    (c : Cells) (before after gone : ℕ)
    → Leads c before
    → Leads c after
    → (d : Cells) × ((if before == 0 then some c else set_next c before after) ≡ some d)
      × (f : Cells) × (unlink_next after before (some d) ≡ some f)
      × Unlinks c (put f gone none) gone before after
unfolding put
links c before after gone lb la =
    let (d, first, keeps) = link_before c before after lb in
    let la1 : Leads d after = moved d keeps la in
    let (f, second, keeps2) = link_after d before after la1 in
    (
      d,
      first,
      f,
      second,
      λ x cell nz apart h.
          let n : (x == gone) ≡ false = ground (arith, apart) in
          rw n (
            keeps2 x (record cell { next = if x == before then after else cell.next }) nz
              (keeps x cell nz h)),
    )
  where
    moved :
        (d : Cells)
        → ((x : ℕ) (cell : StorageCell)
            → x ≢ 0
            → c x ≡ some cell
            → d x ≡ some (record cell { next = if x == before then after else cell.next }))
        → Leads c after
        → Leads d after
    moved d keeps (inl z) = inl z
    moved d keeps (inr (nz, b, h)) =
        inr (nz, record b { next = if after == before then after else b.next }, keeps after b nz h)

NotIn-zero : (c : Cells) (prev p : ℕ) (es : List Entry) → IsChain c prev p es → NotIn 0 es
unfolding IsChain
NotIn-zero c prev p [] h = tt
NotIn-zero c prev p (e ∷ es) (at, nz, next, cell, rest) =
    ((λ m. nz (at ∙ sym m)), NotIn-zero c p next es rest)

new_first :
    (c : Cells) (p : ℕ) (xs : List Entry) (e : Entry) (ys : List Entry) (after : ℕ)
    → AreDistinct (xs ++ e ∷ ys)
    → IsChain c 0 p (xs ++ e ∷ ys)
    → (if p == e.addr then after else p) ≡ link after p xs
unfolding IsChain
new_first c p [] e ys after n i =
    let at = i.0 in let t : (p == e.addr) ≡ true = ground (arith, at) in rw t refl
new_first c p (x ∷ xs) e ys after n i =
    let at = i.0 in
    let ne = (NotIn-append x.addr xs (e ∷ ys) n.0).1 in
    let apart = ne.0 in let t : (p == e.addr) ≡ false = ground (arith, at, apart) in rw t refl

count-remove :
    (xs : List Entry) (e : Entry) (ys : List Entry) → count (xs ++ e ∷ ys) ≡ suc (count (xs ++ ys))
count-remove [] e ys = refl
count-remove (x ∷ xs) e ys = ap suc (count-remove xs e ys)

-- When a thread's cell is destroyed, the call succeeds, and the list is the old one without the cell,
-- in its order, linked both ways, and counted right. The cells of the list are at different
-- addresses.
pub destroy_cell-IsStorage :
    (s : Storage) (xs : List Entry) (e : Entry) (ys : List Entry)
    → IsStorage s (xs ++ e ∷ ys)
    → AreDistinct (xs ++ e ∷ ys)
    → (t : Storage) × (destroy_cell e.addr s ≡ some t) × IsStorage t (xs ++ ys)
unfolding destroy_cell
destroy_cell-IsStorage s xs e ys i n =
    let head = s.created_threads_list in
    let (after, own, nz, behind, lb) = middle s.cells 0 head xs e ys (inl refl) i.chain in
    let before = last_addr 0 xs in
    let la = first-Leads s.cells e.addr after ys behind in
    let (d, first, f, second, u) = links s.cells before after e.addr lb la in
    let g = put f e.addr none in
    let chain =
      IsChain-removed s.cells g e ys before after u own behind xs 0 head n
        (NotIn-zero s.cells 0 head (xs ++ e ∷ ys) i.chain) refl i.chain in
    let k = count-remove xs e ys in
    (
      record s {
        cells = g;
        created_threads_list = if head == e.addr then after else head;
        thread_count = (s.thread_count + (2 ^ 32 - 1)) % 2 ^ 32;
      },
      destroyed s e.addr (record { thread = e.thread; next = after; prev = before }) d f own first
          second,
      record {
        chain =
            subst (λ z. IsChain g 0 z (xs ++ ys))
              (sym (new_first s.cells head xs e ys after n i.chain)) chain;
        counted =
            one_less s.thread_count (count (xs ++ e ∷ ys)) (count (xs ++ ys)) i.counted i.fits k;
        fits = omega (arith, k, i.fits);
      },
    )
  where
    one_less : (t n m : ℕ) → t ≡ n → n < 2 ^ 32 → n ≡ suc m → (t + (2 ^ 32 - 1)) % 2 ^ 32 ≡ m
    one_less t n m h fits k = omega arith

    destroyed :
        (s : Storage) (a : ℕ) (c : StorageCell) (d f : Cells)
        → s.cells a ≡ some c
        → (if c.prev == 0 then some s.cells else set_next s.cells c.prev c.next) ≡ some d
        → unlink_next c.next c.prev (some d) ≡ some f
        → destroy_at s a (s.cells a)
          ≡ some (record s {
            cells = put f a none;
            created_threads_list =
                if s.created_threads_list == a then c.next else s.created_threads_list;
            thread_count = (s.thread_count + (2 ^ 32 - 1)) % 2 ^ 32;
          })
    destroyed s a c d f own first second = rw (own, first, second) refl
