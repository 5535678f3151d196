-- ===== src/Large/Ends.antt =====
-- The ends of a tree: `find_rightmost` and `find_leftmost` of allocator/treap.c, and the removal of
-- what they return.
use garbage_collector.Prelude.{ℕ, suc, ◌+◌, ◌≤◌, ◌<◌, ◌≡◌, ◌≢◌, refl, Bool, ◌||◌, arith}
use garbage_collector.Large.Tree.{Header, TreeNode, null, node, in_block, covers, count}
use garbage_collector.Large.Bst.{remove_bst}
use garbage_collector.Large.Treap.{find_rightmost, find_leftmost}
use garbage_collector.Large.Layout.{Laid, Laid-le}

-- The last block of a nonempty tree, from its root block and right child.
abbrev pub last_block : Header → TreeNode → Header
last_block b null = b
last_block b (node rb rl rr) = last_block rb rr

-- The first block, from the root block and the left child.
abbrev pub first_block : Header → TreeNode → Header
first_block b null = b
first_block b (node lb ll lr) = first_block lb ll

pub find_rightmost-last_block :
    (b : Header) (l r : TreeNode)
    → (nl : TreeNode) × (find_rightmost (node b l r) ≡ node (last_block b r) nl null)
unfolding find_rightmost
find_rightmost-last_block b l null = (l, refl)
find_rightmost-last_block b l (node rb rl rr) = find_rightmost-last_block rb rl rr

pub find_leftmost-first_block :
    (b : Header) (l r : TreeNode)
    → (nr : TreeNode) × (find_leftmost (node b l r) ≡ node (first_block b l) null nr)
unfolding find_leftmost
find_leftmost-first_block b null r = (r, refl)
find_leftmost-first_block b (node lb ll lr) r = find_leftmost-first_block lb ll lr

-- What removing the block `n` at the right end of `t` gives.
pub record IsCutRight (gap lo hi : ℕ) (t : TreeNode) (n : Header) : Type 0 where
  pub laid : Laid gap lo n.addr (remove_bst t n.addr).0
  pub removed : (remove_bst t n.addr).1 ≡ node n null null
  pub nonempty : 0 < n.size
  pub ends : n.addr + n.size + gap ≤ hi
  pub counted : suc (count (remove_bst t n.addr).0) ≡ count t
  pub covered : (x : ℕ) → (covers (remove_bst t n.addr).0 x || in_block n x) ≡ covers t x

pub record IsCutLeft (gap lo hi : ℕ) (t : TreeNode) (n : Header) : Type 0 where
  pub laid : Laid gap (n.addr + n.size) hi (remove_bst t n.addr).0
  pub removed : (remove_bst t n.addr).1 ≡ node n null null
  pub nonempty : 0 < n.size
  pub begins : lo + gap ≤ n.addr
  pub counted : suc (count (remove_bst t n.addr).0) ≡ count t
  pub covered : (x : ℕ) → (covers (remove_bst t n.addr).0 x || in_block n x) ≡ covers t x

pub remove_bst-rightless :
    (b : Header) (l : TreeNode) → remove_bst (node b l null) b.addr ≡ (l, node b null null)
unfolding remove_bst
remove_bst-rightless b null = ground arith
remove_bst-rightless b (node lb ll lr) = ground arith

pub remove_bst-leftless :
    (b : Header) (r : TreeNode) → remove_bst (node b null r) b.addr ≡ (r, node b null null)
unfolding remove_bst
remove_bst-leftless b r = ground arith

pub remove_bst-right :
    (b : Header) (l r : TreeNode) (addr : ℕ)
    → b.addr < addr
    → remove_bst (node b l r) addr ≡ (node b l (remove_bst r addr).0, (remove_bst r addr).1)
unfolding remove_bst
remove_bst-right b l r addr h = ground arith

pub remove_bst-left :
    (b : Header) (l r : TreeNode) (addr : ℕ)
    → addr < b.addr
    → remove_bst (node b l r) addr ≡ (node b (remove_bst l addr).0 r, (remove_bst l addr).1)
unfolding remove_bst
remove_bst-left b l r addr h = ground arith

or_end : (a b c d : Bool) → (c || d) ≡ b → ((a || c) || d) ≡ (a || b)
or_end a b c d h = ground arith

or_middle : (a b c d l : Bool) → (c || d) ≡ b → ((a || (l || c)) || d) ≡ (a || (l || b))
or_middle a b c d l h = ground arith

or_left : (a b c d r : Bool) → (c || d) ≡ b → ((a || (c || r)) || d) ≡ (a || (b || r))
or_left a b c d r h = ground arith

pub last_block-IsCutRight :
    (gap lo hi : ℕ) (b : Header) (l r : TreeNode)
    → Laid gap lo hi (node b l r)
    → IsCutRight gap lo hi (node b l r) (last_block b r)
last_block-IsCutRight gap lo hi b l null h =
    let e = remove_bst-rightless b l in
    record {
      laid = rw e h.0;
      removed = rw e;
      nonempty = h.1;
      ends = h.2;
      counted = rw e (omega arith);
      covered = λ x. rw e (ground arith);
    }
last_block-IsCutRight gap lo hi b l (node rb rl rr) h =
    let i = last_block-IsCutRight gap (b.addr + b.size) hi rb rl rr h.2 in
    let n = last_block rb rr in
    let after : b.addr < n.addr = omega (
      arith,
      Laid-le gap (b.addr + b.size) n.addr (remove_bst (node rb rl rr) n.addr).0 i.laid,
      h.1,
    ) in
    let e = remove_bst-right b l (node rb rl rr) n.addr after in
    record {
      laid = rw e (h.0, h.1, i.laid);
      removed = rw e i.removed;
      nonempty = i.nonempty;
      ends = i.ends;
      counted = rw e (omega (arith, i.counted));
      covered = λ x. rw e (
          or_middle (in_block b x) (covers (node rb rl rr) x)
            (covers (remove_bst (node rb rl rr) n.addr).0 x) (in_block n x) (covers l x)
            (i.covered x));
    }

pub first_block-IsCutLeft :
    (gap lo hi : ℕ) (b : Header) (l r : TreeNode)
    → Laid gap lo hi (node b l r)
    → IsCutLeft gap lo hi (node b l r) (first_block b l)
first_block-IsCutLeft gap lo hi b null r h =
    let e = remove_bst-leftless b r in
    record {
      laid = rw e h.2;
      removed = rw e;
      nonempty = h.1;
      begins = h.0;
      counted = rw e (omega arith);
      covered = λ x. rw e (ground arith);
    }
first_block-IsCutLeft gap lo hi b (node lb ll lr) r h =
    let i = first_block-IsCutLeft gap lo b.addr lb ll lr h.0 in
    let n = first_block lb ll in
    let before : n.addr < b.addr = omega (
      arith,
      Laid-le gap (n.addr + n.size) b.addr (remove_bst (node lb ll lr) n.addr).0 i.laid,
      i.nonempty,
    ) in
    let e = remove_bst-left b (node lb ll lr) r n.addr before in
    record {
      laid = rw e (i.laid, h.1, h.2);
      removed = rw e i.removed;
      nonempty = i.nonempty;
      begins = i.begins;
      counted = rw e (omega (arith, i.counted));
      covered = λ x. rw e (
          or_left (in_block b x) (covers (node lb ll lr) x)
            (covers (remove_bst (node lb ll lr) n.addr).0 x) (in_block n x) (covers r x)
            (i.covered x));
    }

-- A tree whose last block does not touch the end of the window fits in a window shorter by one.
pub Laid-tighten_right :
    (gap lo hi : ℕ) (b : Header) (l r : TreeNode)
    → Laid gap lo (hi + 1) (node b l r)
    → (last_block b r).addr + (last_block b r).size + gap ≢ hi + 1
    → Laid gap lo hi (node b l r)
Laid-tighten_right gap lo hi b l null h n = (h.0, h.1, omega arith)
Laid-tighten_right gap lo hi b l (node rb rl rr) h n =
    (h.0, h.1, Laid-tighten_right gap (b.addr + b.size) hi rb rl rr h.2 n)

pub Laid-tighten_left :
    (gap lo hi : ℕ) (b : Header) (l r : TreeNode)
    → Laid gap lo hi (node b l r)
    → (first_block b l).addr ≢ lo + gap
    → Laid gap (lo + 1) hi (node b l r)
Laid-tighten_left gap lo hi b null r h n = (omega arith, h.1, h.2)
Laid-tighten_left gap lo hi b (node lb ll lr) r h n =
    (Laid-tighten_left gap lo b.addr lb ll lr h.0 n, h.1, h.2)
