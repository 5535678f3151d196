-- ===== src/Threads/Storage.antt =====
-- The functions of mt-safety/threads-storage.c on the memory of their cells, and the loops over all
-- threads in mt-safety/stop-the-world.c. `none` in the memory is an address that is not allocated,
-- `none` as a result a use of such an address, or `exit`. Every function holds `storage_lock`
-- throughout, or is for one thread only, so that a call is one step.
use mathlib.Core.Option.{Option, none, some}
use mathlib.Core.List.{List, [], ◌∷◌}
use garbage_collector.Prelude.{
  ℕ, zero, suc, ◌+◌, ◌-◌, ◌%◌, ◌^◌, ◌==◌, if◌then◌else◌, Bool, true, false, ◌>>=◌,
}

pub record StorageCell : Type 0 where
  pub thread : ℕ
  pub next : ℕ
  pub prev : ℕ

abbrev pub Cells : Type 0
Cells = ℕ → Option StorageCell

-- The global variables of the file, and the memory of the cells.
pub record Storage : Type 0 where
  pub cells : Cells
  pub created_threads_list : ℕ
  pub thread_count : ℕ
  pub current_node_of_traversing : ℕ

unfoldable pub put : Cells → ℕ → Option StorageCell → Cells
put cells p c x = if x == p then c else cells x

-- An assignment to a field of the cell at `p`.
abbrev assign : (StorageCell → StorageCell) → Cells → ℕ → Option StorageCell → Option Cells
assign f cells p none = none
assign f cells p (some c) = some (put cells p (some (f c)))

abbrev pub set_next : Cells → ℕ → ℕ → Option Cells
set_next cells p q = assign (λ c. record c { next = q }) cells p (cells p)

abbrev pub set_prev : Cells → ℕ → ℕ → Option Cells
set_prev cells p q = assign (λ c. record c { prev = q }) cells p (cells p)

abbrev unsigned_mod : ℕ
unsigned_mod = 2 ^ 32

abbrev link_first : Storage → ℕ → Option Cells → Option Storage
link_first s new_node none = none
link_first s new_node (some cells) = finish (set_next cells new_node s.created_threads_list)
  where
    finish : Option Cells → Option Storage
    finish none = none
    finish (some c) = some (record s {
      cells = c;
      created_threads_list = new_node;
      thread_count = (s.thread_count + 1) % unsigned_mod;
    })

-- The argument is what `calloc` answers; the caller stores the thread in the cell.
unfoldable pub create_cell_for_thread : ℕ → Storage → Option Storage
unfolding put
create_cell_for_thread new_node s =
    let cells = put s.cells new_node (some (record { thread = 0; next = 0; prev = 0 })) in
    if new_node == 0
    then none
    else if s.created_threads_list == 0
    then link_first s new_node (some cells)
    else link_first s new_node (set_prev cells s.created_threads_list new_node)

abbrev pub unlink_next : ℕ → ℕ → Option Cells → Option Cells
unlink_next next prev none = none
unlink_next next prev (some cells) = if next == 0 then some cells else set_prev cells next prev

abbrev pub unlinked : Storage → ℕ → ℕ → Option Cells → Option Storage
unlinked s cell next none = none
unlinked s cell next (some cells) = some (record s {
  cells = put cells cell none;
  created_threads_list = if s.created_threads_list == cell then next else s.created_threads_list;
  thread_count = (s.thread_count + (unsigned_mod - 1)) % unsigned_mod;
})

abbrev pub destroy_at : Storage → ℕ → Option StorageCell → Option Storage
destroy_at s cell none = none
destroy_at s cell (some c) =
    let before = if c.prev == 0 then some s.cells else set_next s.cells c.prev c.next in
    unlinked s cell c.next (unlink_next c.next c.prev before)

unfoldable pub destroy_cell : ℕ → Storage → Option Storage
unfolding put
destroy_cell cell s = destroy_at s cell (s.cells cell)

unfoldable pub get_threads_storage_size : Storage → ℕ
get_threads_storage_size s = s.thread_count

unfoldable pub start_threads_storage_traverse : Storage → Storage
start_threads_storage_traverse s = record s { current_node_of_traversing = s.created_threads_list }

abbrev advance : Storage → Option StorageCell → Option (ℕ × Storage)
advance s none = none
advance s (some c) = some (c.thread, record s { current_node_of_traversing = c.next })

unfoldable pub get_next_thread : Storage → Option (ℕ × Storage)
get_next_thread s =
    if s.current_node_of_traversing == 0
    then some (0, s)
    else advance s (s.cells s.current_node_of_traversing)

unfoldable pub is_storage_empty : Storage → Bool
is_storage_empty s = s.current_node_of_traversing == 0

abbrev cons_to : ℕ → Option (List ℕ) → Option (List ℕ)
cons_to t none = none
cons_to t (some ts) = some (t ∷ ts)

abbrev signal_from : (Storage → Option (List ℕ)) → Option (ℕ × Storage) → Option (List ℕ)
signal_from rest none = none
signal_from rest (some (t, s)) = cons_to t (rest s)

-- The loop of `stop_the_world`, on fuel: the threads it signals, in order.
unfoldable pub signal_all : ℕ → Storage → Option (List ℕ)
unfolding is_storage_empty get_next_thread
signal_all zero s = none
signal_all (suc n) s =
    if is_storage_empty s then some [] else signal_from (signal_all n) (get_next_thread s)

-- `free` of a cell or of `NULL`; a second call for one cell is an error.
abbrev freed : Cells → ℕ → Option StorageCell → Option Cells
freed cells p none = none
freed cells p (some c) = some (put cells p none)

abbrev pub free_cell : Cells → ℕ → Option Cells
free_cell cells p = if p == 0 then some cells else freed cells p (cells p)

abbrev pub go_on : (ℕ → Option Cells) → Option StorageCell → Option Cells
go_on rest none = none
go_on rest (some c) = rest c.next

-- The loop of `__destroy_storage` and the call of `free` behind it, on fuel.
unfoldable pub destroy_cells : ℕ → Cells → ℕ → ℕ → Option Cells
unfolding put
destroy_cells zero cells prev node = none
destroy_cells (suc n) cells prev node = elim (node == 0) [
  | true ↦ free_cell cells prev
  | false ↦ free_cell cells prev >>= λ c. go_on (λ next. destroy_cells n c node next) (c node)
]

unfoldable pub destroy_storage : ℕ → Storage → Option Storage
destroy_storage n s = destroy_cells n s.cells 0 s.created_threads_list >>= λ c.
    some (record s { cells = c; created_threads_list = 0 })
