-- ===== src/Marker/Closure.antt =====
-- `scan`, `closure` and `segment_traverse` of marker/marking.c: everything that is reachable is
-- marked.
use mathlib.Core.Option.{some}
use mathlib.Core.Path.{subst}
use garbage_collector.Prelude.{
  ℕ, zero, suc, ◌+◌, ◌*◌, ◌<◌, ◌≡◌, ◌⊎◌, inl, inr, refl, sym, ap, ◌∙◌, true, false, ◌==◌, arith,
  List, [], ◌∷◌,
}
use garbage_collector.Object.Heaps.{Heaps, get_object_size, is_marked}
use garbage_collector.Object.Cells.{IsWellFormed}
use garbage_collector.Object.Places.{IsObject}
use garbage_collector.Object.Effect.{is_marked-IsObject}
use garbage_collector.Marker.Stack.{Stack, Realloc, is_empty, pop}
use garbage_collector.Marker.StackProof.{contents, cells_below, IsValid, contents-pop}
use garbage_collector.Marker.Marking.{Marker, rounds, scan, closure}
use garbage_collector.Marker.State.{
  count-cells_below, Has, count, IsMarked, Lasts, IsState, work, Extends, PointsTo,
  PointsTo-IsObject,
}
use garbage_collector.Marker.Visit.{traverse_words-IsState}

-- The two answers of `is_empty`, by the contents.
pub is_empty-contents :
    (s : Stack)
    → ((is_empty s ≡ true) × (contents s ≡ []))
      ⊎ ((is_empty s ≡ false) × (v : ℕ) × (rest : List ℕ) × (contents s ≡ v ∷ rest))
unfolding is_empty
is_empty-contents s = at s.depth s.cells
  where
    at :
        (n : ℕ) (f : ℕ → ℕ)
        → (((n == 0) ≡ true) × (cells_below n f ≡ []))
          ⊎ (((n == 0) ≡ false) × (v : ℕ) × (rest : List ℕ) × (cells_below n f ≡ v ∷ rest))
    at zero f = inl (refl, refl)
    at (suc n) f = inr (ground arith, f n, cells_below n f, refl)

-- A pop leaves a valid stack with one entry less.
pop_lem :
    (s : Stack) (v : ℕ) (rest : List ℕ)
    → IsValid s
    → contents s ≡ v ∷ rest
    → (t : Stack) × (pop s ≡ some (v, t)) × (contents t ≡ rest) × IsValid t
pop_lem s v rest valid e =
    let (t, pops, left, capacity) = contents-pop s v rest e in
    (
      t,
      pops,
      left,
      record {
        within = omega (
          arith,
          count-cells_below s.depth s.cells,
          count-cells_below t.depth t.cells,
          ap count e,
          ap count left,
          valid.within,
          capacity,
        );
        nonempty = omega (arith, valid.nonempty, capacity);
        fits = omega (arith, valid.fits, capacity);
      },
    )

-- A word of the object, no byte of which is in a block header, points to the other one.
pub record IsEdge (h : Heaps) (from to : ℕ) : Type 0 where
  pub size : ℕ
  pub sized : get_object_size h from ≡ some size
  pub index : ℕ
  pub within : index < rounds from (from + size)
  pub points : PointsTo h (from + 8 * index) to

module _ (memory : Stack → Realloc) (lasts : Lasts memory) (h : Heaps) (w : IsWellFormed h) where
  abbrev pub IsClosed : Marker → Type 0
  IsClosed m =
      (p q : ℕ)
      → IsObject h p
      → IsMarked m p
      → IsEdge h p q
      → IsMarked m q ⊎ Has p (contents m.stack)

  -- A scan of an object ends, and what it points to is marked.
  scan-IsState :
      (m : Marker) (object : ℕ)
      → IsState h m
      → IsObject h object
      → (n : Marker) × (scan memory object m ≡ some n)
        × IsState h n
        × Extends h m n
        × ((q : ℕ) → IsEdge h object q → IsMarked n q)
  unfolding scan
  scan-IsState m object i o =
      let (_, (size, sized)) = is_marked-IsObject h object w o in
      let (n, ends, state, extends, black) =
        traverse_words-IsState memory lasts h (rounds object (object + size)) object m w i in
      (
        n,
        rw (i.objects object, o, i.sizes object o, sized) ends,
        state,
        extends,
        λ q e.
            black e.index q
              (subst (λ s. e.index < rounds object (object + s))
                (same size e.size (sym sized ∙ e.sized)) e.within)
              e.points,
      )
    where
      same : (a b : ℕ) → some a ≡ some b → b ≡ a
      same a b e = ground arith

  -- One round of the loop keeps what is to be shown.
  IsClosed-round :
      (m l n : Marker) (v : ℕ) (rest : List ℕ)
      → contents m.stack ≡ v ∷ rest
      → contents l.stack ≡ rest
      → l.heaps ≡ m.heaps
      → IsClosed m
      → Extends h l n
      → ((q : ℕ) → IsEdge h v q → IsMarked n q)
      → IsClosed n
  IsClosed-round m l n v rest e left same c x edges p q o black edge = at (x.fresh p o black)
    where
      old : IsMarked m q ⊎ Has p (v ∷ rest) → IsMarked n q ⊎ Has p (contents n.stack)
      old (inl k) =
          inl (x.kept q (PointsTo-IsObject h (p + 8 * edge.index) q w edge.points) (rw same k))
      old (inr (inl k)) = inl (edges q (subst (λ z. IsEdge h z q) k edge))
      old (inr (inr k)) = inr (x.pushed p (subst (Has p) (sym left) k))

      split : IsMarked m q ⊎ Has p (contents m.stack) → IsMarked m q ⊎ Has p (v ∷ rest)
      split (inl k) = inl k
      split (inr k) = inr (subst (Has p) e k)

      at : IsMarked l p ⊎ Has p (contents n.stack) → IsMarked n q ⊎ Has p (contents n.stack)
      at (inl k) = old (split (c p q o (subst (λ z. is_marked z p ≡ some true) same k) edge))
      at (inr k) = inr k

  -- The loop of `closure` ends, as soon as its fuel is above the number of objects that are unmarked
  -- or on the stack.
  pub closure-IsClosed :
      (fuel : ℕ) (m : Marker)
      → IsState h m
      → IsClosed m
      → work h m < fuel
      → (n : Marker) × (closure memory fuel m ≡ some n)
        × IsState h n
        × (contents n.stack ≡ [])
        × IsClosed n
        × ((p : ℕ) → IsObject h p → IsMarked m p → IsMarked n p)
  unfolding closure
  closure-IsClosed zero m i c f = absurd (omega arith)
  closure-IsClosed (suc fuel) m i c f = elim (is_empty-contents m.stack) [
    | inl (empty, none_left) ↦ (m, rw (empty, closure) refl, i, none_left, c, λ p o k. k)
    | inr (more, v, rest, e) ↦
        let (s, pops, left, valid) = pop_lem m.stack v rest i.valid e in
        let l : Marker = record m { stack = s } in
        let state : IsState h l = record {
          well_formed = i.well_formed;
          small_start = i.small_start;
          small_end = i.small_end;
          large_end = i.large_end;
          objects = i.objects;
          sizes = i.sizes;
          bytes = i.bytes;
          valid = valid;
          stacked = λ p o. i.stacked p (subst (Has p) (sym e) (inr (subst (Has p) left o)));
          room = omega (arith, ap count e, ap count left, i.room);
        } in
        let (n, scans, state', extends, edges) =
          scan-IsState l v state (i.stacked v (subst (Has v) (sym e) (inl refl))) in
        let closed = IsClosed-round m l n v rest e left refl c extends edges in
        let (z, ends, final, empty, all, kept) =
          closure-IsClosed fuel n state' closed
            (omega (arith, ap count e, ap count left, extends.work)) in
        (
          z,
          rw (more, closure, pops, scans) ends,
          final,
          empty,
          all,
          λ p o k. kept p o (extends.kept p o k),
        )
  ]
