-- ===== src/Marker/Reach.antt =====
-- `segment_traverse` of marker/marking.c against reachability.
use mathlib.Core.Option.{some}
use mathlib.Core.Path.{subst}
use garbage_collector.Prelude.{
  ℕ, ◌+◌, ◌*◌, ◌<◌, ◌≤◌, ◌^◌, ◌≡◌, ◌⊎◌, inl, inr, refl, sym, ap, ◌∙◌, true, false, ◌==◌, arith, [],
  ltb,
}
use garbage_collector.Memory.Words.{read64}
use garbage_collector.Object.Heaps.{Heaps, get_object}
use garbage_collector.Object.Cells.{IsWellFormed}
use garbage_collector.Object.Places.{IsObject}
use garbage_collector.Marker.Stack.{Stack, Realloc}
use garbage_collector.Marker.StackProof.{contents, IsValid}
use garbage_collector.Marker.Marking.{Marker, rounds, segment_traverse}
use garbage_collector.Marker.Work.{unmarked}
use garbage_collector.Marker.State.{
  work_idle, work_ends, Has, count, IsMarked, Lasts, IsState, Extends, PointsTo, IsPayloadWord,
  word_kept, PointsTo-IsObject,
}
use garbage_collector.Marker.Visit.{traverse_words-IsState}
use garbage_collector.Marker.Closure.{IsEdge, IsClosed, closure-IsClosed}

-- The objects that the words of a segment lead to, through words of objects. No byte of these words
-- is in a block header.
pub data Reach (h : Heaps) (start end : ℕ) : ℕ → Type 0 where
  root : (j p : ℕ) → j < rounds start end → PointsTo h (start + 8 * j) p → Reach h start end p
  step : {p q : ℕ} → Reach h start end p → IsEdge h p q → Reach h start end q

pub Reach-IsObject :
    (h : Heaps) (start end : ℕ) {p : ℕ} → IsWellFormed h → Reach h start end p → IsObject h p
Reach-IsObject h start end w (root j p _ to) = PointsTo-IsObject h (start + 8 * j) p w to
Reach-IsObject h start end w (step {p} {q} r e) = PointsTo-IsObject h (p + 8 * e.index) q w e.points

-- Between two traversals: the stack is empty, no more than 2^30 objects are unmarked, and what a
-- marked object points to is marked.
pub record IsIdle (m : Marker) : Type 0 where
  pub well_formed : IsWellFormed m.heaps
  pub valid : IsValid m.stack
  pub empty : contents m.stack ≡ []
  pub few : unmarked (m.heaps.small_end + m.heaps.large_end) m.heaps ≤ 2 ^ 30
  pub closed : (p q : ℕ) → IsObject m.heaps p → IsMarked m p → IsEdge m.heaps p q → IsMarked m q

-- What is seen in the heaps during the traversal was there at its start.
IsEdge-start :
    (h : Heaps) (m : Marker) (p q : ℕ)
    → IsState h m
    → IsObject h p
    → IsEdge m.heaps p q
    → IsEdge h p q
IsEdge-start h m p q i o e =
    let word : IsPayloadWord h (p + 8 * e.index) =
      λ x a b. rw (← i.small_start, ← i.small_end) (e.points.0 x a b) in
    record {
      size = e.size;
      sized = sym (i.sizes p o) ∙ e.sized;
      index = e.index;
      within = e.within;
      points = (
        word,
        ap (get_object h) (sym (word_kept h m (p + 8 * e.index) i word))
            ∙ sym (i.objects (read64 m.heaps.small.mem (p + 8 * e.index)))
            ∙ e.points.1,
      );
    }

module _ (memory : Stack → Realloc) (lasts : Lasts memory) where
  -- From an idle marker, where the heaps are well formed, the stack is valid and empty, no more than
  -- 2^30 objects are unmarked and what a marked object points to is marked: if the stack's memory lasts
  -- and the fuel is above the number of unmarked objects, the traversal of a segment ends, provided the
  -- segment is not empty and does not begin at 0. Then every object is marked that the segment leads to in any number of
  -- steps; the marks that were set stay; the addresses give the same objects as before, and no byte
  -- outside the block headers has changed; the stack is empty, and what a marked object points to is
  -- marked, as before.
  pub segment_traverse-Reach :
      (fuel start end : ℕ) (m : Marker)
      → IsIdle m
      → 0 < start
      → start < end
      → unmarked (m.heaps.small_end + m.heaps.large_end) m.heaps < fuel
      → (n : Marker) × (segment_traverse memory fuel start end m ≡ some n)
        × IsIdle n
        × ((p : ℕ) → Reach m.heaps start end p → IsMarked n p)
        × ((p : ℕ) → IsObject m.heaps p → IsMarked m p → IsMarked n p)
        × IsState m.heaps n
  unfolding segment_traverse
  segment_traverse-Reach fuel start end m i positive less enough =
      let h = m.heaps in
      let state : IsState h m = record {
        well_formed = i.well_formed;
        small_start = refl;
        small_end = refl;
        large_end = refl;
        objects = λ x. refl;
        sizes = λ p o. refl;
        bytes = λ x o. refl;
        valid = i.valid;
        stacked = λ p o. absurd (subst (Has p) i.empty o);
        room = omega (arith, i.few, work_idle h m i.empty);
      } in
      let nz : (start == 0) ≡ false = ground arith in
      let nz' : (end == 0) ≡ false = ground arith in
      let lt : ltb start end ≡ true = ground arith in
      let (l, roots, state', extends, black) =
        traverse_words-IsState memory lasts h (rounds start end) start m i.well_formed state in
      let (n, ends, final, empty, closed, kept) =
        closure-IsClosed memory lasts h i.well_formed fuel l state' (between l extends)
          (omega (arith, extends.work, ap count i.empty)) in
      let none_open : (p q : ℕ) → IsObject h p → IsMarked n p → IsEdge h p q → IsMarked n q =
        λ p q o k e. all n empty p q (closed p q o k e) in
      (
        n,
        rw (nz, nz', lt, roots) ends,
        record {
          well_formed = final.well_formed;
          valid = final.valid;
          empty = empty;
          few = omega (
            arith,
            final.room,
            work_idle n.heaps n empty,
            work_ends h n.heaps n final.small_end final.large_end,
          );
          closed = λ p q o k e.
              let o' : IsObject h p = sym (final.objects p) ∙ o in
              none_open p q o' k (IsEdge-start h n p q final o' e);
        },
        λ p r.
            reached n none_open
              (λ j q lt to.
                kept q (PointsTo-IsObject h (start + 8 * j) q i.well_formed to) (black j q lt to))
              r,
        λ p o k. kept p o (extends.kept p o k),
        final,
      )
    where
      all :
          (n : Marker)
          → contents n.stack ≡ []
          → (p q : ℕ) → IsMarked n q ⊎ Has p (contents n.stack)
          → IsMarked n q
      all n e p q (inl k) = k
      all n e p q (inr k) = absurd (subst (Has p) e k)

      between : (l : Marker) → Extends m.heaps m l → IsClosed memory lasts m.heaps i.well_formed l
      between l x p q o k e = at (x.fresh p o k)
        where
          at : IsMarked m p ⊎ Has p (contents l.stack) → IsMarked l q ⊎ Has p (contents l.stack)
          at (inl j) = inl (
              x.kept q (PointsTo-IsObject m.heaps (p + 8 * e.index) q i.well_formed e.points)
                (i.closed p q o j e))
          at (inr j) = inr j

      reached :
          (n : Marker)
          → ((p q : ℕ) → IsObject m.heaps p → IsMarked n p → IsEdge m.heaps p q → IsMarked n q)
          → ((j q : ℕ) → j < rounds start end → PointsTo m.heaps (start + 8 * j) q → IsMarked n q)
          → {p : ℕ} → Reach m.heaps start end p
          → IsMarked n p
      reached n c b (root j p k to) = b j p k to
      reached n c b (step {p} {q} r e) =
          c p q (Reach-IsObject m.heaps start end i.well_formed r) (reached n c b r) e
