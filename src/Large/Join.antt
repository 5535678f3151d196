-- ===== src/Large/Join.antt =====
-- `insert_treap` of allocator/treap.c: the new block is joined with the neighbours that it touches.
use garbage_collector.Prelude.{
  ℕ, ◌+◌, ◌<◌, ◌≡◌, ◌≢◌, refl, Bool, ◌||◌, arith, ◌∙◌, Bool-cases, inl, inr, add64, add64-eq,
  size_mod, ◌==◌, ==→eq, ==→ne,
}
use garbage_collector.Large.Tree.{Header, TreeNode, null, node, in_block, covers, count}
use garbage_collector.Large.Bst.{remove_bst}
use garbage_collector.Large.Treap.{find_rightmost, find_leftmost, Joined, join_left, join_right}
use garbage_collector.Large.Layout.{Laid, Laid-le}
use garbage_collector.Large.Ends.{
  last_block, first_block, find_rightmost-last_block, find_leftmost-first_block,
  last_block-IsCutRight, first_block-IsCutLeft, Laid-tighten_right, Laid-tighten_left,
}

-- Two touching blocks cover what their join covers.
in_block_join :
    (m n j : Header) (x : ℕ)
    → m.addr + m.size ≡ n.addr
    → j.addr ≡ m.addr
    → j.size ≡ m.size + n.size
    → in_block j x ≡ (in_block m x || in_block n x)
unfolding in_block
in_block_join m n j x e f g = ground arith

or_join : (a b c d e : Bool) → (a || b) ≡ c → d ≡ (b || e) → (a || d) ≡ (c || e)
or_join a b c d e p q = ground arith

or_join_flip : (a b c d e : Bool) → (a || b) ≡ c → d ≡ (e || b) → (a || d) ≡ (c || e)
or_join_flip a b c d e p q = ground arith

-- After the first test the block ends where it did, and the tree ends before it with a gap.
pub record IsJoinedLeft (lo : ℕ) (l : TreeNode) (new : Header) (spare : ℕ) (j : Joined)
    : Type 0 where
  pub laid : Laid 1 lo j.block.addr j.side
  pub ends : j.block.addr + j.block.size ≡ new.addr + new.size
  pub nonempty : 0 < j.block.size
  pub counted : j.spare + count j.side ≡ spare + count l
  pub covered : (x : ℕ) → (covers j.side x || in_block j.block x) ≡ (covers l x || in_block new x)

-- After the second test the block begins where it did.
pub record IsJoinedRight (hi : ℕ) (r : TreeNode) (new : Header) (spare : ℕ) (j : Joined)
    : Type 0 where
  pub laid : Laid 1 (j.block.addr + j.block.size) hi j.side
  pub begins : j.block.addr ≡ new.addr
  pub nonempty : 0 < j.block.size
  pub counted : j.spare + count j.side ≡ spare + count r
  pub covered : (x : ℕ) → (covers j.side x || in_block j.block x) ≡ (covers r x || in_block new x)

pub join_left-IsJoinedLeft :
    (lo : ℕ) (l : TreeNode) (new : Header) (spare : ℕ)
    → lo < new.addr
    → 0 < new.size
    → new.addr + new.size < size_mod
    → Laid 1 lo (new.addr + 1) l
    → IsJoinedLeft lo l new spare (join_left (find_rightmost l) l new spare)
unfolding join_left find_rightmost
join_left-IsJoinedLeft lo null new spare p q f h = record {
  laid = omega arith;
  ends = refl;
  nonempty = q;
  counted = refl;
  covered = λ x. refl;
}
join_left-IsJoinedLeft lo (node b l r) new spare p q f h =
    let (nl, e) = find_rightmost-last_block b l r in
    let n = last_block b r in
    let cut = last_block-IsCutRight 1 lo (new.addr + 1) b l r h in
    let sum : add64 n.addr n.size ≡ n.addr + n.size =
      add64-eq n.addr n.size (omega (arith, cut.ends)) in
    elim (Bool-cases (add64 n.addr n.size == new.addr)) [
      | inl touch ↦
          rw (e, join_left, touch, cut.removed)
            (let at : n.addr + n.size ≡ new.addr = omega (arith, sum, ==→eq _ _ touch) in
              let size : add64 new.size n.size ≡ new.size + n.size =
                add64-eq new.size n.size (omega arith) in
              record {
                laid = cut.laid;
                ends = omega (arith, size, at);
                nonempty = omega (arith, size, q);
                counted = omega (arith, cut.counted);
                covered = λ x.
                    or_join (covers (remove_bst (node b l r) n.addr).0 x) (in_block n x)
                      (covers (node b l r) x) _ (in_block new x) (cut.covered x)
                      (in_block_join n new _ x at refl (omega (arith, size)));
              })
      | inr apart ↦
          rw (e, join_left, apart)
            (let off : n.addr + n.size ≢ new.addr = λ t. ==→ne _ _ apart (sum ∙ t) in
              record {
                laid = Laid-tighten_right 1 lo new.addr b l r h (λ t. off (omega arith));
                ends = refl;
                nonempty = q;
                counted = refl;
                covered = λ x. refl;
              })
    ]

pub join_right-IsJoinedRight :
    (end hi : ℕ) (r : TreeNode) (new : Header) (spare : ℕ)
    → new.addr + new.size ≡ end + 1
    → end + 1 < hi
    → hi < size_mod
    → 0 < new.size
    → Laid 1 end hi r
    → IsJoinedRight hi r new spare (join_right (find_leftmost r) r new spare)
unfolding join_right find_leftmost
join_right-IsJoinedRight end hi null new spare e p f q h = record {
  laid = omega arith;
  begins = refl;
  nonempty = q;
  counted = refl;
  covered = λ x. refl;
}
join_right-IsJoinedRight end hi (node b l r) new spare e' p f q h =
    let (nr, e) = find_leftmost-first_block b l r in
    let n = first_block b l in
    let cut = first_block-IsCutLeft 1 end hi b l r h in
    let sum : add64 new.addr new.size ≡ new.addr + new.size =
      add64-eq new.addr new.size (omega arith) in
    elim (Bool-cases (add64 new.addr new.size == n.addr)) [
      | inl touch ↦
          rw (e, join_right, touch, cut.removed)
            (let at : new.addr + new.size ≡ n.addr = omega (arith, sum, ==→eq _ _ touch) in
              let size : add64 new.size n.size ≡ new.size + n.size = add64-eq new.size n.size (
                omega (
                  arith,
                  Laid-le 1 (n.addr + n.size) hi (remove_bst (node b l r) n.addr).0 cut.laid,
                )) in
              let same : new.addr + add64 new.size n.size ≡ n.addr + n.size =
                omega (arith, size, at) in
              record {
                laid = rw same cut.laid;
                begins = refl;
                nonempty = omega (arith, size, q);
                counted = omega (arith, cut.counted);
                covered = λ x.
                    or_join_flip (covers (remove_bst (node b l r) n.addr).0 x) (in_block n x)
                      (covers (node b l r) x) _ (in_block new x) (cut.covered x)
                      (in_block_join new n _ x at refl size);
              })
      | inr apart ↦
          rw (e, join_right, apart)
            (let off : new.addr + new.size ≢ n.addr = λ t. ==→ne _ _ apart (sum ∙ t) in
              record {
                laid = rw e' (Laid-tighten_left 1 end hi b l r h (λ t. off (omega arith)));
                begins = refl;
                nonempty = q;
                counted = refl;
                covered = λ x. refl;
              })
    ]
