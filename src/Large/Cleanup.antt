-- ===== src/Large/Cleanup.antt =====
-- `cleanup_bst` of allocator/binary-search-tree.c: what it leaves in the occupied tree, and what it
-- hands to the free tree when an unmarked block stands between two that are kept.
use garbage_collector.Prelude.{
  ℕ, ◌≡◌, refl, true, false, List, [], ◌∷◌, ◌++◌, some, arith, Bool-cases, inl, inr, if◌then◌else◌,
}
use garbage_collector.Large.Tree.{Header, TreeNode, null, node, blocks}
use garbage_collector.Large.Bst.{take_min, remove_root, remove_bst}
use garbage_collector.Large.Treap.{insert_treap, cleanup_root, cleanup_bst}
use garbage_collector.Large.Remove.{blocks-remove_root}
use garbage_collector.Large.Ends.{first_block}
use garbage_collector.Large.Search.{root_block}

abbrev pub unmark : Header → Header
unmark b = record b { is_marked = false }

-- The marked blocks of a list, their marks cleared.
abbrev pub survivors : List Header → List Header
survivors [] = []
survivors (b ∷ bs) = if b.is_marked then unmark b ∷ survivors bs else survivors bs

survivors-append : (xs ys : List Header) → survivors (xs ++ ys) ≡ survivors xs ++ survivors ys
survivors-append [] ys = refl
survivors-append (b ∷ xs) ys = ground (arith, survivors-append xs ys)

-- The root is found at once.
pub remove_bst-root :
    (b : Header) (l r : TreeNode) → remove_bst (node b l r) b.addr ≡ remove_root b l r
unfolding remove_bst
remove_bst-root b l r = ground arith

pub cleanup_root-marked :
    (b : Header) (l r free : TreeNode) (spare : ℕ)
    → b.is_marked ≡ true
    → cleanup_root b l r free spare
      ≡ record { occupied = node (unmark b) l r; free = free; spare = spare }
unfolding cleanup_root
cleanup_root-marked b l r free spare m = rw m

pub cleanup_root-unmarked :
    (b : Header) (l r free : TreeNode) (spare : ℕ)
    → b.is_marked ≡ false
    → cleanup_root b l r free spare ≡ record {
      occupied = (remove_root b l r).0;
      free = (insert_treap free (remove_root b l r).1 spare).0;
      spare = (insert_treap free (remove_root b l r).1 spare).1;
    }
unfolding cleanup_root
cleanup_root-unmarked b l r free spare m = simp (m, remove_bst-root b l r)

-- After the collection the occupied tree holds exactly the blocks that were marked, in order, with
-- their marks cleared.
pub blocks-cleanup_bst :
    (t free : TreeNode) (spare : ℕ)
    → blocks (cleanup_bst t free spare).occupied ≡ survivors (blocks t)
unfolding cleanup_bst
blocks-cleanup_bst null free spare = refl
blocks-cleanup_bst (node b l r) free spare =
    let low = cleanup_bst l free spare in
    let high = cleanup_bst r low.free low.spare in
    let left = blocks-cleanup_bst l free spare in
    let right = blocks-cleanup_bst r low.free low.spare in
    elim (Bool-cases b.is_marked) [
      | inl kept ↦ rw (
        cleanup_root-marked b low.occupied high.occupied high.free high.spare kept,
        survivors-append (blocks l) (b ∷ blocks r),
        kept,
        left,
        right,
      )
      | inr dead ↦ rw (
        cleanup_root-unmarked b low.occupied high.occupied high.free high.spare dead,
        blocks-remove_root b low.occupied high.occupied,
        survivors-append (blocks l) (b ∷ blocks r),
        dead,
        left,
        right,
      )
    ]

abbrev pub AllMarked : TreeNode → Type 0
AllMarked null = Unit
AllMarked (node b l r) = (b.is_marked ≡ true) × AllMarked l × AllMarked r

-- A tree with all marks cleared.
abbrev pub unmark_all : TreeNode → TreeNode
unmark_all null = null
unmark_all (node b l r) = node (unmark b) (unmark_all l) (unmark_all r)

pub cleanup_bst-AllMarked :
    (t free : TreeNode) (spare : ℕ)
    → AllMarked t
    → cleanup_bst t free spare ≡ record { occupied = unmark_all t; free = free; spare = spare }
unfolding cleanup_bst
cleanup_bst-AllMarked null free spare m = refl
cleanup_bst-AllMarked (node b l r) free spare m = rw (
  cleanup_bst-AllMarked l free spare m.1,
  cleanup_bst-AllMarked r free spare m.2,
  cleanup_root-marked b (unmark_all l) (unmark_all r) free spare m.0,
)

take_min-unmark_all :
    (b : Header) (l r : TreeNode)
    → (take_min (unmark b) (unmark_all l) (unmark_all r)).0 ≡ unmark (first_block b l)
unfolding take_min
take_min-unmark_all b null r = refl
take_min-unmark_all b (node lb ll lr) r = take_min-unmark_all lb ll lr

-- An unmarked root with two marked subtrees: its block is dropped from the occupied tree, and the
-- block that goes to the free tree is the first one on the right, which becomes the new root.
pub cleanup_bst_between :
    (b lb rb : Header) (ll lr rl rr free : TreeNode) (spare : ℕ)
    → b.is_marked ≡ false
    → AllMarked (node lb ll lr)
    → AllMarked (node rb rl rr)
    → let result = cleanup_bst (node b (node lb ll lr) (node rb rl rr)) free spare in
      let live = unmark (first_block rb rl) in
      (root_block result.occupied ≡ some live)
      × (result.free ≡ (insert_treap free (node live null null) spare).0)
unfolding cleanup_bst remove_root
cleanup_bst_between b lb rb ll lr rl rr free spare dead left right =
    rw
      (
        cleanup_bst-AllMarked (node lb ll lr) free spare left,
        cleanup_bst-AllMarked (node rb rl rr) free spare right,
        cleanup_root-unmarked b (unmark_all (node lb ll lr)) (unmark_all (node rb rl rr)) free spare
            dead,
        take_min-unmark_all rb rl rr,
      )
      (refl, refl)
