-- ===== src/Threads/Examples.antt =====
-- Runs of mt-safety/threads-storage.c, and its theorems at concrete storages.
use garbage_collector.Prelude.{
  ℕ, ◌≡◌, ◌≢◌, ◌<◌, ◌==◌, if◌then◌else◌, refl, List, [], ◌∷◌, map, Option, some, none, arith,
}
use garbage_collector.Threads.Storage.{
  Cells, Storage, create_cell_for_thread, destroy_cell, destroy_storage, signal_all,
  start_threads_storage_traverse, get_threads_storage_size,
}
use garbage_collector.Threads.Chain.{
  Entry, IsChain, IsStorage, count, create_cell_for_thread-IsStorage,
  signal_all-start_threads_storage_traverse,
}
use garbage_collector.Threads.Destroy.{destroy_cell-IsStorage}
use garbage_collector.Threads.Removal.{NotIn}
use garbage_collector.Threads.Teardown.{AreFreed, destroy_storage-AreFreed}

-- Threads 7 and 8, in the cells at 100 and 200.
abbrev two_cells : Cells
two_cells x =
    if x == 100
    then some (record { thread = 7; next = 200; prev = 0 })
    else if x == 200
    then some (record { thread = 8; next = 0; prev = 100 })
    else none

abbrev two : Storage
two = record {
  cells = two_cells;
  created_threads_list = 100;
  thread_count = 2;
  current_node_of_traversing = 0;
}

abbrev entries : List Entry
entries = record { addr = 100; thread = 7 } ∷ record { addr = 200; thread = 8 } ∷ []

two-IsStorage : IsStorage two entries
unfolding IsChain
two-IsStorage = record {
  chain = (refl, omega arith, 200, refl, (refl, omega arith, 0, refl, refl));
  counted = refl;
  fits = omega arith;
}

create_cell_for_thread-IsStorage_example :
    (t : Storage) × (create_cell_for_thread 300 two ≡ some t)
    × IsStorage t (record { addr = 300; thread = 0 } ∷ entries)
create_cell_for_thread-IsStorage_example =
    create_cell_for_thread-IsStorage 300 two entries two-IsStorage (omega arith) refl (omega arith)

destroy_cell-IsStorage_example :
    (t : Storage) × (destroy_cell 200 two ≡ some t)
    × IsStorage t (record { addr = 100; thread = 7 } ∷ [])
destroy_cell-IsStorage_example =
    destroy_cell-IsStorage two (record { addr = 100; thread = 7 } ∷ [])
      (record { addr = 200; thread = 8 }) [] two-IsStorage ((omega arith, tt), (tt, tt))

destroy_storage-AreFreed_example :
    (t : Storage) × (destroy_storage 3 two ≡ some t)
    × AreFreed t.cells entries
    × ((x : ℕ) → x ≢ 0 → NotIn x entries → t.cells x ≡ two.cells x)
    × IsChain t.cells 0 t.created_threads_list []
    × (t.thread_count ≡ count entries)
destroy_storage-AreFreed_example =
    destroy_storage-AreFreed 3 two entries two-IsStorage ((omega arith, tt), (tt, tt)) (omega arith)

two_below : get_threads_storage_size two < 3
unfolding get_threads_storage_size
two_below = omega arith

signal_all-start_threads_storage_traverse_example :
    (signal_all 3 (start_threads_storage_traverse two) ≡ some (map (λ e. e.thread) entries))
    × (get_threads_storage_size two ≡ count entries)
signal_all-start_threads_storage_traverse_example =
    signal_all-start_threads_storage_traverse 3 two entries two-IsStorage two_below

-- The threads that are left when the cell at `p` is destroyed.
abbrev left_after : Option Storage → Option (List ℕ)
left_after none = none
left_after (some s) = signal_all 3 (start_threads_storage_traverse s)

destroy_first : left_after (destroy_cell 100 two) ≡ some (8 ∷ [])
unfolding destroy_cell signal_all start_threads_storage_traverse
destroy_first = refl

destroy_last : left_after (destroy_cell 200 two) ≡ some (7 ∷ [])
unfolding destroy_cell signal_all start_threads_storage_traverse
destroy_last = refl
