-- ===== src/Marker/Stack.antt =====
-- The functions of marker/stack.c. The field `top` is -1 on an empty stack in the source; `depth` is
-- `top + 1`. A call of `exit` is `none`. What `realloc` answers is an argument: whether it
-- succeeds, and what the new part of the array holds. `top` and `capacity` have the type int; where
-- doubling the capacity would overflow it, what the program does is undefined, and `resize` is `none`.
use mathlib.Core.Option.{Option, none, some}
use garbage_collector.Prelude.{ℕ, ◌+◌, ◌-◌, ◌*◌, Bool, ◌==◌, leb, ltb, ◌^◌, if◌then◌else◌}

pub record Stack : Type 0 where
  -- `data`, of which the indices below `capacity` are allocated
  pub cells : ℕ → ℕ
  pub depth : ℕ
  pub capacity : ℕ

-- `STACK_INIT_CAPACITY` of marker/stack.h
abbrev pub stack_init_capacity : ℕ
stack_init_capacity = 16

-- The fresh array of `malloc` holds anything.
unfoldable pub create_stack : (ℕ → ℕ) → Stack
create_stack fresh = record { cells = fresh; depth = 0; capacity = stack_init_capacity }

unfoldable pub is_empty : Stack → Bool
is_empty s = s.depth == 0

-- What `realloc` gives: none if it fails, or the contents of the memory behind the old array.
abbrev pub Realloc : Type 0
Realloc = Option (ℕ → ℕ)

-- The greatest int.
abbrev pub int_max : ℕ
int_max = 2 ^ 31 - 1

unfoldable pub resize : Realloc → Stack → Option Stack
resize none s = none
resize (some fresh) s =
    if leb (s.capacity * 2) int_max
    then some (record s {
      cells = λ i. if ltb i s.capacity then s.cells i else fresh i;
      capacity = s.capacity * 2;
    })
    else none

-- `stack->data[++stack->top] = value`
unfoldable pub store : Stack → ℕ → Stack
store s value = record s {
  cells = λ i. if i == s.depth then value else s.cells i;
  depth = s.depth + 1;
}

abbrev pub store_in : Option Stack → ℕ → Option Stack
store_in none value = none
store_in (some s) value = some (store s value)

-- The test is `top == capacity - 1`.
unfoldable pub push : Realloc → Stack → ℕ → Option Stack
unfolding resize store
push memory s value =
    if s.depth == s.capacity then store_in (resize memory s) value else some (store s value)

unfoldable pub pop : Stack → Option (ℕ × Stack)
unfolding is_empty
pop s = if is_empty s then none else some (s.cells (s.depth - 1), record s { depth = s.depth - 1 })
