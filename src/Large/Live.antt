-- ===== src/Large/Live.antt =====
-- What `cleanup_bst` of allocator/binary-search-tree.c does to a block in use.
use garbage_collector.Prelude.{
  ℕ, ◌<◌, ◌≡◌, ap, ◌∙◌, Bool, true, false, Option, none, some, refl, arith, size_mod,
}
use garbage_collector.Large.Tree.{Header, TreeNode, null, node, in_block, covers}
use garbage_collector.Large.Treap.{cleanup_bst}
use garbage_collector.Large.Search.{root_block}
use garbage_collector.Large.Layout.{Laid}
use garbage_collector.Large.Ends.{first_block}
use garbage_collector.Large.Insert.{IsFresh, insert_treap-IsInserted}
use garbage_collector.Large.Cleanup.{AllMarked, unmark, cleanup_bst_between}

abbrev in_some : Option Header → ℕ → Bool
in_some none x = false
in_some (some b) x = in_block b x

covers_root :
    (t : TreeNode) {b : Header} (x : ℕ)
    → root_block t ≡ some b
    → in_block b x ≡ true
    → covers t x ≡ true
covers_root null x e h = cc
covers_root (node n l r) x e h = ground (arith, ap (λ o. in_some o x) e)

in_block-unmark : (c : Header) (x : ℕ) → in_block (unmark c) x ≡ in_block c x
unfolding in_block
in_block-unmark c x = refl

-- Let the root of the occupied tree be unmarked, both of its subtrees be nonempty and have all
-- their blocks marked, and the first block on the right be clear of the free tree, which lies in a
-- window below 2^64 with no touching blocks. Then after the collection each byte of that marked
-- first block is covered by the occupied tree and by the free tree.
pub cleanup_bst_frees_live :
    (lo hi : ℕ) (b lb rb : Header) (ll lr rl rr free : TreeNode) (spare x : ℕ)
    → hi < size_mod
    → Laid 1 lo hi free
    → IsFresh lo hi free (first_block rb rl)
    → b.is_marked ≡ false
    → AllMarked (node lb ll lr)
    → AllMarked (node rb rl rr)
    → in_block (first_block rb rl) x ≡ true
    → let out = cleanup_bst (node b (node lb ll lr) (node rb rl rr)) free spare in
      (covers out.occupied x ≡ true) × (covers out.free x ≡ true)
cleanup_bst_frees_live lo hi b lb rb ll lr rl rr free spare x fits h fresh dead left right inside =
    let live = unmark (first_block rb rl) in
    let out = cleanup_bst (node b (node lb ll lr) (node rb rl rr)) free spare in
    let (root, freed) = cleanup_bst_between b lb rb ll lr rl rr free spare dead left right in
    let i = insert_treap-IsInserted lo hi free live spare fits h (record {
      nonempty = fresh.nonempty;
      above = fresh.above;
      below = fresh.below;
      clear = fresh.clear;
    }) in
    let in_live : in_block live x ≡ true = in_block-unmark (first_block rb rl) x ∙ inside in
    (covers_root out.occupied x root in_live, rw freed (ground (arith, i.covered x)))
