-- ===== src/Threads/Removal.antt =====
-- `destroy_cell` of mt-safety/threads-storage.c takes one cell out of the list.
use mathlib.Core.Path.{subst}
use garbage_collector.Prelude.{
  ℕ, ◌≡◌, ◌≢◌, refl, sym, ap, ◌∙◌, ◌==◌, if◌then◌else◌, List, [], ◌∷◌, ◌++◌, some, arith, true,
  false,
}
use garbage_collector.Threads.Storage.{StorageCell, Cells}
use garbage_collector.Threads.Chain.{Entry, IsChain}

-- No entry of the list has the address.
abbrev pub NotIn : ℕ → List Entry → Type 0
NotIn a [] = Unit {0}
NotIn a (e ∷ es) = (a ≢ e.addr) × NotIn a es

abbrev pub AreDistinct : List Entry → Type 0
AreDistinct [] = Unit {0}
AreDistinct (e ∷ es) = NotIn e.addr es × AreDistinct es

-- The cell at `x` when the neighbours `before` and `after` of a removed cell are linked.
abbrev pub patch : ℕ → ℕ → ℕ → StorageCell → StorageCell
patch before after x c = record {
  thread = c.thread;
  next = if x == before then after else c.next;
  prev = if x == after then before else c.prev;
}

-- `d` is `c` without the cell at `gone`, whose neighbours are linked.
abbrev pub Unlinks : Cells → Cells → ℕ → ℕ → ℕ → Type 0
Unlinks c d gone before after =
    (x : ℕ) (cell : StorageCell)
    → x ≢ 0
    → x ≢ gone
    → c x ≡ some cell
    → d x ≡ some (patch before after x cell)

module _ (c d : Cells) (gone before after : ℕ) (u : Unlinks c d gone before after) where
  -- Cells apart from the three are as they were.
  IsChain-apart :
      (prev p : ℕ) (es : List Entry)
      → NotIn gone es
      → NotIn before es
      → NotIn after es
      → IsChain c prev p es
      → IsChain d prev p es
  unfolding IsChain
  IsChain-apart prev p [] g b a h = h
  IsChain-apart prev p (e ∷ es) g b a (at, nz, next, cell, rest) =
      let pg : p ≢ gone = λ m. g.0 (sym m ∙ at) in
      let pb : (p == before) ≡ false = ground (arith, b.0, at) in
      let pa : (p == after) ≡ false = ground (arith, a.0, at) in
      (
        at,
        nz,
        next,
        u p (record { thread = e.thread; next = next; prev = prev }) nz pg cell ∙ rw (pb, pa) refl,
        IsChain-apart p next es g.1 b.1 a.1 rest,
      )

  -- The cells behind the removed one.
  IsChain-behind :
      (es : List Entry)
      → NotIn gone es
      → NotIn before es
      → AreDistinct es
      → IsChain c gone after es
      → IsChain d before after es
  unfolding IsChain
  IsChain-behind [] g b n h = h
  IsChain-behind (e ∷ es) g b n (at, nz, next, cell, rest) =
      let pg : after ≢ gone = λ m. g.0 (sym m ∙ at) in
      let pb : (after == before) ≡ false = ground (arith, b.0, at) in
      let pa : (after == after) ≡ true = ground arith in
      (
        at,
        nz,
        next,
        u after (record { thread = e.thread; next = next; prev = gone }) nz pg cell
            ∙ rw (pb, pa) refl,
        IsChain-apart after next es g.1 b.1 (subst (λ z. NotIn z es) (sym at) n.0) rest,
      )

pub NotIn-append : (a : ℕ) (xs ys : List Entry) → NotIn a (xs ++ ys) → NotIn a xs × NotIn a ys
NotIn-append a [] ys n = (tt, n)
NotIn-append a (x ∷ xs) ys n = let (p, q) = NotIn-append a xs ys n.1 in ((n.0, p), q)

-- The address of the last entry, if there is one.
abbrev pub last_addr : ℕ → List Entry → ℕ
last_addr prev [] = prev
last_addr prev (e ∷ es) = last_addr e.addr es

ne-last_addr : (a prev : ℕ) (xs : List Entry) → a ≢ prev → NotIn a xs → a ≢ last_addr prev xs
ne-last_addr a prev [] h n = h
ne-last_addr a prev (x ∷ xs) h n = ne-last_addr a x.addr xs n.0 n.1

ne_first :
    (c : Cells) (prev p a : ℕ) (es : List Entry) → IsChain c prev p es → a ≢ 0 → NotIn a es → a ≢ p
unfolding IsChain
ne_first c prev p a [] h nz n m = nz (m ∙ h)
ne_first c prev p a (e ∷ es) (at, _, _, _, _) nz n m = n.0 (m ∙ at)

-- The pointer to the rest when the entry behind the first ones is removed.
abbrev pub link : ℕ → ℕ → List Entry → ℕ
link after p [] = after
link after p (x ∷ xs) = p

module _ (c d : Cells) (e : Entry) (ys : List Entry) (before after : ℕ)
    (u : Unlinks c d e.addr before after)
    (own : c e.addr ≡ some (record { thread = e.thread; next = after; prev = before }))
    (behind : IsChain c e.addr after ys) where
  -- The cell in front of others.
  linked :
      (x : Entry) (xs : List Entry) (next prev : ℕ)
      → x.addr ≢ 0
      → NotIn x.addr (xs ++ e ∷ ys)
      → last_addr x.addr xs ≡ before
      → c x.addr ≡ some (record { thread = x.thread; next = next; prev = prev })
      → d x.addr ≡ some (record { thread = x.thread; next = link after next xs; prev = prev })
  linked x xs next prev nz n last cell = at xs n last
    where
      at :
          (xs : List Entry)
          → NotIn x.addr (xs ++ e ∷ ys)
          → last_addr x.addr xs ≡ before
          → d x.addr ≡ some (record { thread = x.thread; next = link after next xs; prev = prev })
      at [] n last =
          let pb : (x.addr == before) ≡ true = ground (arith, last) in
          let ne = ne_first c e.addr after x.addr ys behind nz n.1 in
          let pa : (x.addr == after) ≡ false = ground arith in
          u x.addr (record { thread = x.thread; next = next; prev = prev }) nz n.0 cell
          ∙ rw (pb, pa) refl
      at (z ∷ zs) n last =
          let (first, rest) = NotIn-append x.addr (z ∷ zs) (e ∷ ys) n in
          let nb = ne-last_addr x.addr z.addr zs first.0 first.1 in
          let pb : (x.addr == before) ≡ false = ground (arith, last) in
          let ne = ne_first c e.addr after x.addr ys behind nz rest.1 in
          let pa : (x.addr == after) ≡ false = ground arith in
          u x.addr (record { thread = x.thread; next = next; prev = prev }) nz rest.0 cell
          ∙ rw (pb, pa) refl

  pub IsChain-removed :
      (xs : List Entry) (prev p : ℕ)
      → AreDistinct (xs ++ e ∷ ys)
      → NotIn prev (xs ++ e ∷ ys)
      → last_addr prev xs ≡ before
      → IsChain c prev p (xs ++ e ∷ ys)
      → IsChain d prev (link after p xs) (xs ++ ys)
  unfolding IsChain
  IsChain-removed [] prev p n ne last (at, nz, next, cell, rest) =
      subst (λ z. IsChain d z after ys) (sym last)
        (IsChain-behind c d e.addr before after u ys n.0 (subst (λ z. NotIn z ys) last ne.1) n.1
          behind)
  IsChain-removed (x ∷ xs) prev p n ne last (at, nz, next, cell, rest) =
      let later =
        IsChain-removed xs p next n.1 (subst (λ z. NotIn z (xs ++ e ∷ ys)) (sym at) n.0)
          (ap (λ z. last_addr z xs) at ∙ last) rest in
      let own_cell = linked x xs next prev (λ m. nz (at ∙ m)) n.0 last (ap c (sym at) ∙ cell) in
      (at, nz, link after next xs, ap d at ∙ own_cell, later)
