-- ===== src/Nodes/Insert.antt =====
-- `insert_bst` of allocator/binary-search-tree.c on nodes in memory implements the one on values.
use mathlib.Core.Path.{subst}
use garbage_collector.Prelude.{
  ℕ, zero, suc, ◌<◌, ◌≡◌, ◌≢◌, ◌⊎◌, inl, inr, refl, sym, ap, ◌∙◌, true, false, ◌==◌, ltb, arith,
  Bool-cases, some,
}
use garbage_collector.Large.Tree.{Header}
use garbage_collector.Large.Bst
use garbage_collector.Nodes.Store.{Cell, Cells, set_left, set_right, addr_of, insert_bst}
use garbage_collector.Nodes.Shape.{
  Shape, leaf, branch, tree, height, In, Apart, IsTree, IsTree-frame, put_self, put_other,
}

-- The shape after an insertion.
pub insert_shape : Shape → ℕ → Header → Shape → Shape → Shape
insert_shape leaf p n nl nr = branch p n nl nr
insert_shape (branch q b l r) p n nl nr = elim (ltb n.addr b.addr) [
  | true ↦ branch q b (insert_shape l p n nl nr) r
  | false ↦ branch q b l (insert_shape r p n nl nr)
]

pub tree-insert_shape :
    (s : Shape) (p : ℕ) (n : Header) (nl nr : Shape)
    → tree (insert_shape s p n nl nr) ≡ Bst.insert_bst (tree s) n (tree nl) (tree nr)
unfolding insert_shape Bst.insert_bst
tree-insert_shape leaf p n nl nr = refl
tree-insert_shape (branch q b l r) p n nl nr =
    ground (arith, tree-insert_shape l p n nl nr, tree-insert_shape r p n nl nr)

-- The nodes are the old ones and the new ones.
pub In-insert_shape :
    (x : ℕ) (s : Shape) (p : ℕ) (n : Header) (nl nr : Shape)
    → In x (insert_shape s p n nl nr)
    → In x s ⊎ In x (branch p n nl nr)
unfolding insert_shape
In-insert_shape x leaf p n nl nr i = inr i
In-insert_shape x (branch q b l r) p n nl nr i =
    ground (arith, In-insert_shape x l p n nl nr, In-insert_shape x r p n nl nr, i)

-- What is known after an insertion below a node.
abbrev pub Inserted : ℕ → Cells → ℕ → ℕ → Shape → Header → Shape → Shape → Type 0
Inserted k c root p s n nl nr =
    (root' : ℕ) × (d : Cells) × (insert_bst k c root p ≡ some (root', d))
    × IsTree d root' (insert_shape s p n nl nr)
    × ((x : ℕ) → (In x s → ⊥) → d x ≡ c x)

module _ (k : ℕ) (c : Cells) (p q left right : ℕ) (b n : Header) (nl nr l r : Shape) (nz : q ≢ 0)
    (cell : c q ≡ record { block = b; left = left; right = right }) (t_left : IsTree c left l)
    (t_right : IsTree c right r) (ql : In q l → ⊥) (qr : In q r → ⊥) (lr : Apart l r)
    (new : addr_of c p ≡ n.addr) (a : Apart (branch q b l r) (branch p n nl nr)) where
  nonzero : (q == 0) ≡ false
  nonzero = ground arith

  addr : addr_of c q ≡ b.addr
  addr = ap (λ v. v.block.addr) cell

  shape_left :
      ltb n.addr b.addr ≡ true
      → insert_shape (branch q b l r) p n nl nr ≡ branch q b (insert_shape l p n nl nr) r
  unfolding insert_shape
  shape_left less = rw (less, insert_shape) refl

  shape_right :
      ltb n.addr b.addr ≡ false
      → insert_shape (branch q b l r) p n nl nr ≡ branch q b l (insert_shape r p n nl nr)
  unfolding insert_shape
  shape_right more = rw (more, insert_shape) refl

  go_left :
      ltb n.addr b.addr ≡ true
      → Inserted k c left p l n nl nr
      → Inserted (suc k) c q p (branch q b l r) n nl nr
  unfolding insert_bst insert_shape
  go_left less (child, d, ends, t, out) =
      let old : d q ≡ record { block = b; left = left; right = right } = out q ql ∙ cell in
      let e = set_left d q child in
      let now : e q ≡ record { block = b; left = child; right = right } =
        put_self d q (record (d q) { left = child })
        ∙ ap {A = Cell} (λ v. record v { left = child }) old in
      let beside : (x : ℕ) → x ≢ q → e x ≡ d x =
        λ x m. put_other d q x (record (d q) { left = child }) m in
      let down : (c q).left ≡ left = ap (λ v. v.left) cell in
      (
        q,
        e,
        rw (nonzero, insert_bst, new, addr, less, down, ends) refl,
        subst (IsTree e q) (sym (shape_left less)) (
          refl,
          nz,
          (
            child,
            right,
            now,
            IsTree-frame d e child (insert_shape l p n nl nr)
                (λ x i.
                  beside x (λ m. not_inside (subst (λ z. In z (insert_shape l p n nl nr)) m i)))
                t,
            IsTree-frame c e right r
                (λ x i. beside x (λ m. qr (subst (λ z. In z r) m i)) ∙ out x (λ j. lr x j i))
                t_right,
          ),
          (not_inside, qr, apart),
        ),
        λ x o. beside x (λ m. o (inl m)) ∙ out x (λ j. o (inr (inl j))),
      )
    where
      not_inside : In q (insert_shape l p n nl nr) → ⊥
      not_inside i = at (In-insert_shape q l p n nl nr i)
        where
          at : In q l ⊎ In q (branch p n nl nr) → ⊥
          at (inl j) = ql j
          at (inr j) = a q (inl refl) j

      apart : Apart (insert_shape l p n nl nr) r
      apart x i j = at (In-insert_shape x l p n nl nr i)
        where
          at : In x l ⊎ In x (branch p n nl nr) → ⊥
          at (inl m) = lr x m j
          at (inr m) = a x (inr (inr j)) m

  go_right :
      ltb n.addr b.addr ≡ false
      → Inserted k c right p r n nl nr
      → Inserted (suc k) c q p (branch q b l r) n nl nr
  unfolding insert_bst insert_shape
  go_right more (child, d, ends, t, out) =
      let old : d q ≡ record { block = b; left = left; right = right } = out q qr ∙ cell in
      let e = set_right d q child in
      let now : e q ≡ record { block = b; left = left; right = child } =
        put_self d q (record (d q) { right = child })
        ∙ ap {A = Cell} (λ v. record v { right = child }) old in
      let beside : (x : ℕ) → x ≢ q → e x ≡ d x =
        λ x m. put_other d q x (record (d q) { right = child }) m in
      let down : (c q).right ≡ right = ap (λ v. v.right) cell in
      (
        q,
        e,
        rw (nonzero, insert_bst, new, addr, more, down, ends) refl,
        subst (IsTree e q) (sym (shape_right more)) (
          refl,
          nz,
          (
            left,
            child,
            now,
            IsTree-frame c e left l
                (λ x i. beside x (λ m. ql (subst (λ z. In z l) m i)) ∙ out x (λ j. lr x i j))
                t_left,
            IsTree-frame d e child (insert_shape r p n nl nr)
                (λ x i.
                  beside x (λ m. not_inside (subst (λ z. In z (insert_shape r p n nl nr)) m i)))
                t,
          ),
          (ql, not_inside, apart),
        ),
        λ x o. beside x (λ m. o (inl m)) ∙ out x (λ j. o (inr (inr j))),
      )
    where
      not_inside : In q (insert_shape r p n nl nr) → ⊥
      not_inside i = at (In-insert_shape q r p n nl nr i)
        where
          at : In q r ⊎ In q (branch p n nl nr) → ⊥
          at (inl j) = qr j
          at (inr j) = a q (inl refl) j

      apart : Apart l (insert_shape r p n nl nr)
      apart x j i = at (In-insert_shape x r p n nl nr i)
        where
          at : In x r ⊎ In x (branch p n nl nr) → ⊥
          at (inl m) = lr x j m
          at (inr m) = a x (inr (inl j)) m

inserted :
    (k : ℕ) (c : Cells) (root p : ℕ) (s : Shape) (n : Header) (nl nr : Shape)
    → height s < k
    → IsTree c root s
    → IsTree c p (branch p n nl nr)
    → Apart s (branch p n nl nr)
    → Inserted k c root p s n nl nr
unfolding insert_bst insert_shape
inserted zero c root p s n nl nr h t u a = absurd (omega arith)
inserted (suc k) c root p leaf n nl nr h t u a = (p, c, rw (t, insert_bst) refl, u, λ x _. refl)
inserted (suc k) c root p (branch q b l r) n nl nr h
      (at, nz, (left, right, cell, t_left, t_right), (ql, qr, lr)) u a =
    let new : addr_of c p ≡ n.addr = fresh_addr u in
    subst (λ z. Inserted (suc k) c z p (branch q b l r) n nl nr) (sym at)
      (elim (Bool-cases (ltb n.addr b.addr)) [
        | inl less ↦
            go_left k c p q left right b n nl nr l r nz cell t_left t_right ql qr lr new a less
              (inserted k c left p l n nl nr (omega arith) t_left u (λ x i. a x (inr (inl i))))
        | inr more ↦
            go_right k c p q left right b n nl nr l r nz cell t_left t_right ql qr lr new a more
              (inserted k c right p r n nl nr (omega arith) t_right u (λ x i. a x (inr (inr i))))
      ])
  where
    fresh_addr : IsTree c p (branch p n nl nr) → addr_of c p ≡ n.addr
    fresh_addr (_, _, (_, _, e, _, _), _) = ap (λ v. v.block.addr) e

-- For a pointer to a tree in memory and a node with trees below it, of which no node is in the first,
-- and with fuel above the number of nodes, `insert_bst` ends. The pointer that it returns leads to
-- the tree with the new node, as it is inserted into the tree as a value; no other node has changed.
pub insert_bst-IsTree :
    (k : ℕ) (c : Cells) (root p : ℕ) (s : Shape) (n : Header) (nl nr : Shape)
    → height s < k
    → IsTree c root s
    → IsTree c p (branch p n nl nr)
    → Apart s (branch p n nl nr)
    → (root' : ℕ) × (d : Cells) × (s' : Shape) × (insert_bst k c root p ≡ some (root', d))
      × IsTree d root' s'
      × (tree s' ≡ Bst.insert_bst (tree s) n (tree nl) (tree nr))
      × ((x : ℕ) → (In x s → ⊥) → d x ≡ c x)
insert_bst-IsTree k c root p s n nl nr h t u a =
    let (root', d, ends, t', out) = inserted k c root p s n nl nr h t u a in
    (root', d, insert_shape s p n nl nr, ends, t', tree-insert_shape s p n nl nr, out)
