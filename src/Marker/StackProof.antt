-- ===== src/Marker/StackProof.antt =====
-- marker/stack.c is a stack: the array holds a list, pushed and popped at one end.
use mathlib.Core.Option.{none, some}
use garbage_collector.Prelude.{
  ℕ, zero, suc, ◌+◌, ◌-◌, ◌*◌, ◌≤◌, ◌<◌, ◌≡◌, ◌∙◌, ◌^◌, true, leb, ap, refl, ◌==◌, ltb,
  if◌then◌else◌, List, [], ◌∷◌, arith, Bool-cases, inl, inr,
}
use garbage_collector.Marker.Stack.{Stack, int_max, resize, store, push, pop}

-- The values at the indices below `n`, the last first.
abbrev pub cells_below : ℕ → (ℕ → ℕ) → List ℕ
cells_below zero f = []
cells_below (suc n) f = f n ∷ cells_below n f

abbrev pub contents : Stack → List ℕ
contents s = cells_below s.depth s.cells

-- The values lie in the array, the array is not empty, and its capacity is an int.
pub record IsValid (s : Stack) : Type 0 where
  pub within : s.depth ≤ s.capacity
  pub nonempty : 0 < s.capacity
  pub fits : s.capacity ≤ int_max

cells_below_same :
    (n : ℕ) (f g : ℕ → ℕ) → ((i : ℕ) → i < n → g i ≡ f i) → cells_below n g ≡ cells_below n f
cells_below_same zero f g h = refl
cells_below_same (suc n) f g h =
    rw (h n (omega arith), cells_below_same n f g (λ i p. h i (omega arith)))

contents-store : (s : Stack) (value : ℕ) → contents (store s value) ≡ value ∷ contents s
unfolding store
contents-store s value =
    let e : s.depth + 1 ≡ suc s.depth = omega arith in
    rw
      (
        e,
        cells_below_same s.depth s.cells (λ i. if i == s.depth then value else s.cells i)
            (λ i p. ground arith),
      )
      (at s.depth)
  where
    at : (n : ℕ) → (if n == n then value else s.cells n) ∷ contents s ≡ value ∷ contents s
    at n = ground arith

contents-resize :
    (s : Stack) (fresh : ℕ → ℕ)
    → s.depth ≤ s.capacity
    → cells_below s.depth (λ i. if ltb i s.capacity then s.cells i else fresh i) ≡ contents s
contents-resize s fresh h =
    cells_below_same s.depth s.cells (λ i. if ltb i s.capacity then s.cells i else fresh i)
      (λ i p. ground arith)

-- What a push that did not run out of memory gives.
pub record IsPushed (s t : Stack) (value : ℕ) : Type 0 where
  pub valid : IsValid t
  pub contents : contents t ≡ value ∷ contents s
  pub grown : t.capacity ≡ (if s.depth == s.capacity then s.capacity * 2 else s.capacity)

-- If the memory lasts, a push on less than 2^30 values succeeds, keeps the stack valid and puts the value on top.
pub push-IsPushed :
    (s : Stack) (fresh : ℕ → ℕ) (value : ℕ)
    → IsValid s
    → s.depth < 2 ^ 30
    → (t : Stack) × (push (some fresh) s value ≡ some t) × IsPushed s t value
unfolding push resize store
push-IsPushed s fresh value v few =
    let wider = record s {
      cells = λ i. if ltb i s.capacity then s.cells i else fresh i;
      capacity = s.capacity * 2;
    } in
    elim (Bool-cases (s.depth == s.capacity)) [
      | inl full ↦
          let doubled : leb (s.capacity * 2) int_max ≡ true = ground (arith, full, few) in
          (
            store wider value,
            rw (full, doubled) refl,
            record {
              valid = record {
                within = ground arith;
                nonempty = omega (arith, v.nonempty);
                fits = ground (arith, full, few);
              };
              contents =
                  contents-store wider value
                  ∙ ap (λ c. value ∷ c) (contents-resize s fresh v.within);
              grown = rw full refl;
            },
          )
      | inr room ↦ (
        store s value,
        rw room refl,
        record {
          valid = record {
            within = ground (arith, v.within);
            nonempty = v.nonempty;
            fits = v.fits;
          };
          contents = contents-store s value;
          grown = rw room refl;
        },
      )
    ]

-- On a stack that is not empty a pop gives the value on top and leaves the rest and the capacity.
pub contents-pop :
    (s : Stack) (value : ℕ) (rest : List ℕ)
    → contents s ≡ value ∷ rest
    → (t : Stack) × (pop s ≡ some (value, t)) × (contents t ≡ rest) × (t.capacity ≡ s.capacity)
unfolding pop
contents-pop s value rest e =
    (record s { depth = s.depth - 1 }, popped s.depth s.cells e, left s.depth s.cells e, refl)
  where
    popped :
        (n : ℕ) (f : ℕ → ℕ)
        → cells_below n f ≡ value ∷ rest
        → pop (record s { depth = n; cells = f })
          ≡ some (value, record s { depth = n - 1; cells = f })
    popped zero f q = cc
    popped (suc n) f q = let e : suc n - 1 ≡ n = omega arith in rw e (ground arith)

    left : (n : ℕ) (f : ℕ → ℕ) → cells_below n f ≡ value ∷ rest → cells_below (n - 1) f ≡ rest
    left zero f q = cc
    left (suc n) f q = let e : suc n - 1 ≡ n = omega arith in rw e (cc)

-- On the empty stack a pop ends the program.
pub pop_empty : (s : Stack) → contents s ≡ [] → pop s ≡ none
unfolding pop
pop_empty s e = empty s.depth s.cells e
  where
    empty :
        (n : ℕ) (f : ℕ → ℕ) → cells_below n f ≡ [] → pop (record s { depth = n; cells = f }) ≡ none
    empty zero f q = refl
    empty (suc n) f q = cc

-- On a valid stack of less than 2^30 values, and if the memory lasts, a push succeeds whether or not
-- the array grows for it, where the doubled capacity is still an int; it leaves a valid stack, and the pop after it gives back the value and a stack with the
-- contents from before.
pub pop-push :
    (s : Stack) (fresh : ℕ → ℕ) (value : ℕ)
    → IsValid s
    → s.depth < 2 ^ 30
    → (t u : Stack) × (push (some fresh) s value ≡ some t)
      × (pop t ≡ some (value, u))
      × (contents u ≡ contents s)
      × IsValid t
pop-push s fresh value v few =
    let (t, pushed, i) = push-IsPushed s fresh value v few in
    let (u, popped, same, _) = contents-pop t value (contents s) i.contents in
    (t, u, pushed, popped, same, i.valid)
