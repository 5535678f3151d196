-- ===== src/Marker/Visit.antt =====
-- `mark_and_push` and the loops over words of marker/marking.c.
use mathlib.Core.Option.{none, some}
use mathlib.Core.Path.{subst}
use native.Mathlib.Decide.{ℕ_discrete}
use garbage_collector.Prelude.{
  ℕ, zero, suc, ◌+◌, ◌*◌, ◌<◌, ◌^◌, ◌≡◌, ◌⊎◌, inl, inr, refl, sym, ap, ◌∙◌, true, false, arith, ◌∷◌,
  Bool-cases, Option-cases,
}
use garbage_collector.Memory.Words.{read64}
use garbage_collector.Object.Heaps.{Heaps, get_object, is_marked}
use garbage_collector.Object.Cells.{IsWellFormed}
use garbage_collector.Object.Places.{IsPayload, IsObject, IsMarking, IsObject-get_object}
use garbage_collector.Object.Effect.{mark_object-IsMarking, is_marked-IsObject}
use garbage_collector.Marker.Stack.{Stack, Realloc}
use garbage_collector.Marker.StackProof.{contents, IsPushed, push-IsPushed}
use garbage_collector.Marker.Marking.{
  Marker, mark_and_push, push_object, visit_word, traverse_words,
}
use garbage_collector.Marker.Work.{unmarked-IsMarking, IsObject-below}
use garbage_collector.Marker.State.{
  Extends, Extends-refl, Extends-trans, Has, IsMarked, IsPayloadWord, IsState, Lasts, PointsTo,
  PointsTo-IsObject, count, count-cells_below, word_kept, work,
}

module _ (memory : Stack → Realloc) (lasts : Lasts memory) (h : Heaps) where
  -- A mark and a push.
  extended :
      (m : Marker) (object : ℕ) (t : Heaps) (s : Stack)
      → IsState h m
      → IsObject h object
      → is_marked m.heaps object ≡ some false
      → IsMarking m.heaps t object
      → IsPushed m.stack s object
      → let n : Marker = record { heaps = t; stack = s } in
        IsState h n × Extends h m n × IsMarked n object
  extended m object t s i is_object white k q = (
    record {
      well_formed = k.well_formed;
      small_start = k.small_start ∙ i.small_start;
      small_end = k.small_end ∙ i.small_end;
      large_end = k.large_end ∙ i.large_end;
      objects = λ x. k.objects x ∙ i.objects x;
      sizes = λ p o. k.sizes p (here p o) ∙ i.sizes p o;
      bytes = λ x o. k.bytes x (payload x o) ∙ i.bytes x o;
      valid = q.valid;
      stacked = λ p o. stacked p (subst (Has p) q.contents o);
      room = omega (arith, same_work, i.room);
    },
    record {
      kept = λ p o black. ground (arith, k.marks p (here p o), black);
      pushed = λ p o. subst (Has p) (sym q.contents) (inr o);
      fresh = λ p o black. fresh p (here p o) black;
      work = same_work;
    },
    ground (arith, k.marks object (here object is_object)),
  )
    where
      here : (p : ℕ) → IsObject h p → IsObject m.heaps p
      here p o = i.objects p ∙ o

      below : object < h.small_end + h.large_end
      below = omega (arith, IsObject-below m.heaps object i.well_formed (here object is_object))

      same_work : work h (record { heaps = t; stack = s }) ≡ work h m
      same_work = omega (
        arith,
        ap count q.contents,
        unmarked-IsMarking m.heaps t object (h.small_end + h.large_end) k (here object is_object)
            white below,
      )

      payload : (x : ℕ) → IsPayload h x → IsPayload m.heaps x
      payload x o = rw (i.small_start, i.small_end) o

      stacked : (p : ℕ) → Has p (object ∷ contents m.stack) → IsObject h p
      stacked p (inl e) = rw e is_object
      stacked p (inr e) = i.stacked p e

      fresh :
          (p : ℕ)
          → IsObject m.heaps p
          → is_marked t p ≡ some true
          → IsMarked m p ⊎ Has p (contents s)
      fresh p o black = elim (ℕ_discrete p object) [
        | yes e ↦ inr (subst (Has p) (sym q.contents) (inl e))
        | no n ↦ inl (ground (arith, k.marks p o, black, n))
      ]

  -- The object is marked afterwards, whether or not it was before.
  pub mark_and_push-IsState :
      (m : Marker) (object : ℕ)
      → IsState h m
      → IsObject h object
      → (n : Marker) × (mark_and_push memory object m ≡ some n)
        × IsState h n
        × Extends h m n
        × IsMarked n object
  unfolding mark_and_push push_object
  mark_and_push-IsState m object i is_object =
      let here : IsObject m.heaps object = i.objects object ∙ is_object in
      let ((done, mark), _) = is_marked-IsObject m.heaps object i.well_formed here in
      elim (Bool-cases done) [
        | inl black ↦ (m, rw (mark, black) refl, i, Extends-refl h m, mark ∙ ap some black)
        | inr white ↦
            let (t, marks, k) = mark_object-IsMarking m.heaps object i.well_formed here in
            let (fresh, answer) = lasts m.stack in
            let below = IsObject-below m.heaps object i.well_formed here in
            let less =
              unmarked-IsMarking m.heaps t object (h.small_end + h.large_end) k here
                (mark ∙ ap some white) (omega (arith, below, i.small_end, i.large_end)) in
            let few : m.stack.depth < 2 ^ 30 =
              omega (arith, i.room, less, count-cells_below m.stack.depth m.stack.cells) in
            let (s, pushes, q) = push-IsPushed m.stack fresh object i.valid few in
            let (state, extends, black) =
              extended m object t s i is_object (mark ∙ ap some white) k q in
            (
              record { heaps = t; stack = s },
              rw (mark, white, marks, answer, pushes) refl,
              state,
              extends,
              black,
            )
      ]

  visit_word-IsState :
      (m : Marker) (addr : ℕ)
      → IsWellFormed h
      → IsState h m
      → (n : Marker) × (visit_word memory addr m ≡ some n)
        × IsState h n
        × Extends h m n
        × ((p : ℕ) → PointsTo h addr p → IsMarked n p)
  unfolding visit_word
  visit_word-IsState m addr w i =
      elim (Option-cases (get_object m.heaps (read64 m.heaps.small.mem addr))) [
        | inl nothing ↦ (
          m,
          rw nothing refl,
          i,
          Extends-refl h m,
          λ p (word, e). absurd (conflict p word e nothing),
        )
        | inr (object, found) ↦
            let is_object =
              IsObject-get_object h (read64 m.heaps.small.mem addr) object w
                (sym (i.objects (read64 m.heaps.small.mem addr)) ∙ found) in
            let (n, ends, state, extends, black) = mark_and_push-IsState m object i is_object in
            (
              n,
              rw found ends,
              state,
              extends,
              λ p (word, e). subst (IsMarked n) (same p object word e found) black,
            )
      ]
    where
      now :
          (p : ℕ)
          → IsPayloadWord h addr
          → get_object h (read64 h.small.mem addr) ≡ some p
          → get_object m.heaps (read64 m.heaps.small.mem addr) ≡ some p
      now p word e = rw (word_kept h m addr i word) (i.objects (read64 h.small.mem addr) ∙ e)

      conflict :
          (p : ℕ)
          → IsPayloadWord h addr
          → get_object h (read64 h.small.mem addr) ≡ some p
          → get_object m.heaps (read64 m.heaps.small.mem addr) ≡ none
          → ⊥
      conflict p word e nothing = cc (now p word e)

      same :
          (p object : ℕ)
          → IsPayloadWord h addr
          → get_object h (read64 h.small.mem addr) ≡ some p
          → get_object m.heaps (read64 m.heaps.small.mem addr) ≡ some object
          → object ≡ p
      same p object word e found = cc (now p word e)

  -- The loop ends, and what its words point to is marked.
  pub traverse_words-IsState :
      (k addr : ℕ) (m : Marker)
      → IsWellFormed h
      → IsState h m
      → (n : Marker) × (traverse_words memory k addr m ≡ some n)
        × IsState h n
        × Extends h m n
        × ((j p : ℕ) → j < k → PointsTo h (addr + 8 * j) p → IsMarked n p)
  unfolding traverse_words
  traverse_words-IsState zero addr m w i =
      (m, refl, i, Extends-refl h m, λ j p q. absurd (omega arith))
  traverse_words-IsState (suc k) addr m w i =
      let (l, first, state, extends, black) = visit_word-IsState m addr w i in
      let (n, later, state', extends', blacks) = traverse_words-IsState k (addr + 8) l w state in
      (
        n,
        rw first later,
        state',
        Extends-trans h m l n extends extends',
        λ j p q to. at j p q to l n black extends' blacks,
      )
    where
      at :
          (j p : ℕ)
          → j < suc k
          → PointsTo h (addr + 8 * j) p
          → (l n : Marker) → ((p : ℕ) → PointsTo h addr p → IsMarked l p)
          → Extends h l n
          → ((j p : ℕ) → j < k → PointsTo h (addr + 8 + 8 * j) p → IsMarked n p)
          → IsMarked n p
      at zero p q to l n black e blacks =
          let a : addr + 8 * 0 ≡ addr = omega arith in
          let to' = subst (λ a. PointsTo h a p) a to in
          e.kept p (PointsTo-IsObject h addr p w to') (black p to')
      at (suc j) p q to l n black e blacks =
          let a : addr + 8 * suc j ≡ addr + 8 + 8 * j = omega arith in
          blacks j p (omega arith) (subst (λ a. PointsTo h a p) a to)
