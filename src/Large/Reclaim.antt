-- ===== src/Large/Reclaim.antt =====
-- `cleanup_bst` of allocator/binary-search-tree.c where no unmarked block stands between two that
-- are kept: the free tree gains exactly the bytes of the unmarked blocks.
use garbage_collector.Prelude.{
  ℕ, ◌+◌, ◌≤◌, ◌<◌, ◌≡◌, ◌≢◌, ◌⊎◌, refl, Bool, true, ◌||◌, false, List, [], ◌∷◌, ◌++◌, arith,
  size_mod, ◌∙◌, Bool-cases, inl, inr, if◌then◌else◌,
}
use native.Mathlib.Decide.{dec_le}
use garbage_collector.Large.Tree.{Header, TreeNode, null, node, count, blocks, covers, in_block}
use garbage_collector.Large.Bst.{remove_root}
use garbage_collector.Large.Treap.{Roots, cleanup_root, cleanup_bst}
use garbage_collector.Large.Layout.{Laid, Laid-le, covers_below, covers_above}
use garbage_collector.Large.Merge.{Clear}
use garbage_collector.Large.Insert.{IsFresh, insert_treap-IsInserted}
use garbage_collector.Large.Heap.{IsHeap, root_size, insert_treap-IsHeap}
use garbage_collector.Large.Remove.{count-remove_root}
use garbage_collector.Large.Cleanup.{
  survivors, blocks-cleanup_bst, cleanup_root-marked, cleanup_root-unmarked,
}

-- Some unmarked block of the tree contains the address x.
abbrev pub dead : TreeNode → ℕ → Bool
dead null x = false
dead (node b l r) x = (if b.is_marked then false else in_block b x) || (dead l x || dead r x)

-- No unmarked node has blocks that are kept on both sides.
abbrev pub IsOneSided : TreeNode → Type 0
IsOneSided null = Unit
IsOneSided (node b l r) =
    ((b.is_marked ≡ true) ⊎ ((survivors (blocks l) ≡ []) ⊎ (survivors (blocks r) ≡ [])))
    × IsOneSided l
    × IsOneSided r

-- No byte is in both trees.
abbrev pub Disjoint : TreeNode → TreeNode → Type 0
Disjoint s t = (x : ℕ) → covers s x ≡ true → covers t x ≡ false

in_block-addr : (b : Header) → 0 < b.size → in_block b b.addr ≡ true
unfolding in_block
in_block-addr b h = ground arith

in_block-true : (b : Header) (x : ℕ) → b.addr ≤ x → x < b.addr + b.size → in_block b x ≡ true
unfolding in_block
in_block-true b x p q = ground arith

pub Clear-of_uncovered :
    (gap lo hi from to : ℕ) (t : TreeNode)
    → from < to
    → Laid gap lo hi t
    → ((x : ℕ) → from ≤ x → x < to → covers t x ≡ false)
    → Clear from to t
Clear-of_uncovered gap lo hi from to null p h c = tt
Clear-of_uncovered gap lo hi from to (node b l r) p h c = (
  elim (dec_le (b.addr + b.size) from) [
    | yes before ↦ inl before
    | no n ↦ elim (dec_le to b.addr) [
      | yes behind ↦ inr behind
      | no m ↦ absurd (elim (dec_le from b.addr) [
        | yes q ↦ ground (arith, c b.addr q (omega arith), in_block-addr b h.1)
        | no q ↦
            ground (arith, c from (omega arith) p, in_block-true b from (omega arith) (omega arith))
      ])
    ]
  ],
  Clear-of_uncovered gap lo b.addr from to l p h.0 (λ x q r'. ground (arith, c x q r')),
  Clear-of_uncovered gap (b.addr + b.size) hi from to r p h.2 (λ x q r'. ground (arith, c x q r')),
)

dead-covers : (t : TreeNode) (x : ℕ) → covers t x ≡ false → dead t x ≡ false
dead-covers null x h = refl
dead-covers (node b l r) x h = ground (arith, dead-covers l x, dead-covers r x)

append-cons-ne-nil : (xs : List Header) (b : Header) (ys : List Header) → xs ++ b ∷ ys ≢ []
append-cons-ne-nil [] b ys e = cc
append-cons-ne-nil (x ∷ xs) b ys e = cc

null_of_blocks : (t : TreeNode) → blocks t ≡ [] → t ≡ null
null_of_blocks null e = refl
null_of_blocks (node b l r) e = absurd (append-cons-ne-nil (blocks l) b (blocks r) e)

remove_root_one_sided :
    (b : Header) (l r : TreeNode)
    → (l ≡ null) ⊎ (r ≡ null)
    → (remove_root b l r).1 ≡ node b null null
unfolding remove_root
remove_root_one_sided b null r h = refl
remove_root_one_sided b (node lb ll lr) null h = refl
remove_root_one_sided b (node lb ll lr) (node rb rl rr) (inl e) = cc
remove_root_one_sided b (node lb ll lr) (node rb rl rr) (inr e) = cc

-- What the collection of the occupied tree `occ` into the free tree `free` gives.
pub record IsReclaimed (lo hi : ℕ) (occ free : TreeNode) (spare : ℕ) (out : Roots) : Type 0 where
  pub laid : Laid 1 lo hi out.free
  pub heap : IsHeap out.free
  pub counted : out.spare + count out.occupied + count out.free ≡ spare + count occ + count free
  pub covered : (x : ℕ) → covers out.free x ≡ (covers free x || dead occ x)

or_marked : (f a b : Bool) → ((f || a) || b) ≡ (f || (false || (a || b)))
or_marked f a b = ground arith

or_unmarked : (f a b c : Bool) → (((f || a) || b) || c) ≡ (f || (c || (a || b)))
or_unmarked f a b c = ground arith

-- The last step, when both subtrees are done: the block `b` is kept, or joins the free tree `f`.
cleanup_root-IsReclaimed :
    (lo hi : ℕ) (b : Header) (l r f : TreeNode) (spare : ℕ)
    → hi < size_mod
    → Laid 1 lo hi f
    → IsHeap f
    → IsFresh lo hi f b
    → ((b.is_marked ≡ true) ⊎ ((l ≡ null) ⊎ (r ≡ null)))
    → let out = cleanup_root b l r f spare in
      Laid 1 lo hi out.free
      × IsHeap out.free
      × (out.spare + count out.occupied + count out.free ≡ spare + count (node b l r) + count f)
      × ((x : ℕ)
          → covers out.free x ≡ (covers f x || (if b.is_marked then false else in_block b x)))
cleanup_root-IsReclaimed lo hi b l r f spare fits h k fresh s = elim (Bool-cases b.is_marked) [
  | inl kept ↦ rw (cleanup_root-marked b l r f spare kept) (h, k, omega arith, λ x. ground arith)
  | inr dead_b ↦
      let i = insert_treap-IsInserted lo hi f b spare fits h fresh in
      let heap = insert_treap-IsHeap (root_size f) lo hi f b spare fits h fresh k in
      let one = remove_root_one_sided b l r (one_side s dead_b) in
      rw (cleanup_root-unmarked b l r f spare dead_b, one)
        (
          i.laid,
          heap,
          omega (arith, i.counted, count-remove_root b l r),
          λ x. ground (arith, i.covered x),
        )
]
  where
    one_side : {P : Type 0} → (b.is_marked ≡ true) ⊎ P → b.is_marked ≡ false → P
    one_side (inl e) q = cc
    one_side (inr p) q = p

covers-le :
    (gap lo hi x y : ℕ) (t : TreeNode) → Laid gap lo hi t → y ≤ lo → covers t x ≡ true → y ≤ x
covers-le gap lo hi x y t h p c = elim (dec_le y x) [
  | yes q ↦ q
  | no q ↦ cc (covers_below gap lo hi x t h (omega arith))
]

null_side :
    (t free : TreeNode) (spare : ℕ)
    → survivors (blocks t) ≡ []
    → (cleanup_bst t free spare).occupied ≡ null
null_side t free spare e = null_of_blocks _ (blocks-cleanup_bst t free spare ∙ e)

sides :
    {A B C D : Type 0} (m : Bool) → (m ≡ true) ⊎ (A ⊎ B) → (A → C) → (B → D) → (m ≡ true) ⊎ (C ⊎ D)
sides m (inl e) f g = inl e
sides m (inr (inl a)) f g = inr (inl (f a))
sides m (inr (inr b)) f g = inr (inr (g b))

-- In a window of addresses below 2^64, let the occupied tree lie strictly inside the window of the
-- free tree, the free tree have no two touching blocks and be in heap order, and no byte be in
-- both. If no unmarked occupied block has kept blocks on both sides of it in the tree, then after
-- the collection the free tree still has that layout and heap order, it covers exactly the bytes
-- that it covered and those of the unmarked blocks, and the nodes of both trees and the spare ones
-- are as many as before.
pub cleanup_bst-IsReclaimed :
    (lo hi low high : ℕ) (t free : TreeNode) (spare : ℕ)
    → hi < size_mod
    → lo < low
    → high < hi
    → Laid 0 low high t
    → Laid 1 lo hi free
    → IsHeap free
    → Disjoint t free
    → IsOneSided t
    → IsReclaimed lo hi t free spare (cleanup_bst t free spare)
unfolding cleanup_bst
cleanup_bst-IsReclaimed lo hi low high null free spare fits p q h k o d s = record {
  laid = k;
  heap = o;
  counted = refl;
  covered = λ x. ground arith;
}
cleanup_bst-IsReclaimed lo hi low high (node b l r) free spare fits p q h k o d s =
    let left_le = Laid-le 0 low b.addr l h.0 in
    let right_le = Laid-le 0 (b.addr + b.size) high r h.2 in
    let from_covers = λ (x : ℕ) (c : covers r x ≡ true).
      covers-le 0 (b.addr + b.size) high x b.addr r h.2 (omega arith) c in
    let one = cleanup_bst l free spare in
    let i =
      cleanup_bst-IsReclaimed lo hi low b.addr l free spare fits p (omega arith) h.0 k o
        (λ x c. d x (ground arith)) s.1 in
    let dead_l =
      λ (x : ℕ) (c : b.addr ≤ x). dead-covers l x (covers_above 0 low b.addr x l h.0 c) in
    let dead_r = λ (x : ℕ) (c : x < b.addr + b.size).
      dead-covers r x (covers_below 0 (b.addr + b.size) high x r h.2 c) in
    let j =
      cleanup_bst-IsReclaimed lo hi (b.addr + b.size) high r one.free one.spare fits (omega arith) q
        h.2 i.laid i.heap (λ x c. ground (arith, d x, i.covered x, dead_l x (from_covers x c)))
        s.2 in
    let two = cleanup_bst r one.free one.spare in
    let fresh : IsFresh lo hi two.free b = record {
      nonempty = h.1;
      above = omega arith;
      below = omega arith;
      clear =
          Clear-of_uncovered 1 lo hi b.addr (b.addr + b.size) two.free (omega arith) j.laid
            (λ x m n. ground (
              arith,
              d x,
              in_block-true b x m n,
              i.covered x,
              j.covered x,
              dead_l x m,
              dead_r x n,
            ));
    } in
    let (laid, heap, counted, covered) =
      cleanup_root-IsReclaimed lo hi b one.occupied two.occupied two.free two.spare fits j.laid
        j.heap fresh
        (sides b.is_marked s.0 (null_side l free spare) (null_side r one.free one.spare)) in
    record {
      laid = laid;
      heap = heap;
      counted = omega (arith, counted, i.counted, j.counted);
      covered = λ x. ground (arith, covered x, i.covered x, j.covered x);
    }
