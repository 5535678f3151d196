-- ===== src/Large/Merge.antt =====
-- `split_treap` and `merge_treap` of allocator/treap.c.
use garbage_collector.Prelude.{
  ℕ, ◌+◌, ◌≤◌, ◌<◌, ◌≡◌, refl, Bool, ◌||◌, ◌∷◌, ◌++◌, ◌⊎◌, ltb, arith, Bool-cases, inl, inr,
}
use mathlib.Core.List.{append-nil, append_assoc}
use garbage_collector.Large.Tree.{TreeNode, null, node, blocks, in_block, covers, count}
use garbage_collector.Large.Treap.{split_treap, merge_treap}
use garbage_collector.Large.Layout.{Laid, Laid-widen}

pub blocks-merge_treap : (l r : TreeNode) → blocks (merge_treap l r) ≡ blocks l ++ blocks r
unfolding merge_treap
blocks-merge_treap null r = refl
blocks-merge_treap (node lb ll lr) null = simp append-nil
blocks-merge_treap (node lb ll lr) (node rb rl rr) = ground (
  arith,
  blocks-merge_treap lr (node rb rl rr),
  blocks-merge_treap (node lb ll lr) rl,
  append_assoc (blocks ll) (lb ∷ blocks lr) (blocks rl ++ rb ∷ blocks rr),
  append_assoc (blocks ll ++ lb ∷ blocks lr) (blocks rl) (rb ∷ blocks rr),
)

or_left : (a b c d : Bool) → (a || (b || (c || d))) ≡ ((a || (b || c)) || d)
or_left a b c d = ground arith

or_right : (a b c d : Bool) → (b || ((a || c) || d)) ≡ (a || (b || (c || d)))
or_right a b c d = ground arith

pub covers-merge_treap :
    (x : ℕ) (l r : TreeNode) → covers (merge_treap l r) x ≡ (covers l x || covers r x)
unfolding merge_treap
covers-merge_treap x null r = refl
covers-merge_treap x (node lb ll lr) null = ground arith
covers-merge_treap x (node lb ll lr) (node rb rl rr) = elim (Bool-cases (ltb rb.size lb.size)) [
  | inl larger ↦
      rw (larger, merge_treap, covers-merge_treap x lr (node rb rl rr))
        (or_left (in_block lb x) (covers ll x) (covers lr x) (covers (node rb rl rr) x))
  | inr other ↦
      rw (other, merge_treap, covers-merge_treap x (node lb ll lr) rl)
        (or_right (covers (node lb ll lr) x) (in_block rb x) (covers rl x) (covers rr x))
]

pub count-merge_treap : (l r : TreeNode) → count (merge_treap l r) ≡ count l + count r
unfolding merge_treap
count-merge_treap null r = omega arith
count-merge_treap (node lb ll lr) null = omega arith
count-merge_treap (node lb ll lr) (node rb rl rr) =
    ground (arith, count-merge_treap lr (node rb rl rr), count-merge_treap (node lb ll lr) rl)

-- The left tree ends where the right tree's window begins.
pub Laid-merge_treap :
    (gap lo mid end hi : ℕ) (l r : TreeNode)
    → end ≡ mid + gap
    → Laid gap lo end l
    → Laid gap mid hi r
    → Laid gap lo hi (merge_treap l r)
unfolding merge_treap
Laid-merge_treap gap lo mid end hi null r e p q =
    Laid-widen gap mid hi lo hi r (omega arith) (omega arith) q
Laid-merge_treap gap lo mid end hi (node lb ll lr) null e p q =
    Laid-widen gap lo end lo hi (node lb ll lr) (omega arith) (omega arith) p
Laid-merge_treap gap lo mid end hi (node lb ll lr) (node rb rl rr) e p q = ground (
  arith,
  Laid-merge_treap gap (lb.addr + lb.size) mid end hi lr (node rb rl rr) e p.2 q,
  Laid-merge_treap gap lo mid end rb.addr (node lb ll lr) rl e p q.0,
)

-- No block of the tree overlaps the bytes from `from` to `to`.
abbrev pub Clear : ℕ → ℕ → TreeNode → Type 0
Clear from to null = Unit
Clear from to (node b l r) =
    ((b.addr + b.size ≤ from) ⊎ (to ≤ b.addr)) × Clear from to l × Clear from to r

-- The split at the start of a free stretch: `low` ends before it and `high` begins behind it.
pub record IsSplit (t low high : TreeNode) (lo from end hi : ℕ) : Type 0 where
  pub low_laid : Laid 1 lo (from + 1) low
  pub high_laid : Laid 1 end hi high
  pub counted : count low + count high ≡ count t
  pub covered : (x : ℕ) → (covers low x || covers high x) ≡ covers t x

pub split_treap-IsSplit :
    (lo from end hi : ℕ) (t : TreeNode)
    → lo ≤ from
    → from ≤ end
    → end < hi
    → Laid 1 lo hi t
    → Clear from (end + 1) t
    → IsSplit t (split_treap t from).0 (split_treap t from).1 lo from end hi
unfolding split_treap
split_treap-IsSplit lo from end hi null p q s h c = record {
  low_laid = omega arith;
  high_laid = omega arith;
  counted = refl;
  covered = λ x. refl;
}
split_treap-IsSplit lo from end hi (node b l r) p q s h c = elim (Bool-cases (ltb from b.addr)) [
  | inl below ↦
      rw (below, split_treap)
        (let i = split_treap-IsSplit lo from end b.addr l p q (ground arith) h.0 c.1 in
          record {
            low_laid = i.low_laid;
            high_laid = (i.high_laid, h.1, h.2);
            counted = omega (arith, i.counted);
            covered = λ x. ground (arith, i.covered x);
          })
  | inr above ↦
      rw (above, split_treap)
        (let i = split_treap-IsSplit (b.addr + b.size) from end hi r (ground arith) q s h.2 c.2 in
          record {
            low_laid = (h.0, h.1, i.low_laid);
            high_laid = i.high_laid;
            counted = omega (arith, i.counted);
            covered = λ x. ground (arith, i.covered x);
          })
]
