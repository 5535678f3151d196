-- ===== src/Sync/World/State.antt =====
-- Where the threads of the program and the service thread of mt-safety/ stand, and the steps that one
-- thread of the program makes without the others.
use garbage_collector.Prelude.{ℕ, ◌≡◌, Bool, true, false, ◌||◌}

-- Where a thread of the program stands.
pub data Pc : Type 0 where
  absent : Pc  -- not there
  running : Pc
  creating : Pc  -- in `__wrap_pthread_create`, with `thread_creation_lock`
  allocating : Pc  -- in `allocate_new_object`, with `allocation_lock`
  locked : Pc  -- in `call_service_thread`, with `service_thrd_call_lock`
  at_signal : Pc  -- at `signal_barrier`
  released : Pc  -- behind it
  delivered : Pc  -- with `signal_delivery_lock`
  leaving : Pc  -- before the mutex is unlocked
  ending : Pc  -- in `wrap_user_routine`, behind `destroy_cell`

-- Where it stands in `handler`.
pub data Handler : Type 0 where
  outside : Handler
  entered : Handler
  arrived : Handler  -- at `barrier`
  passed : Handler  -- behind it
  sleeping : Handler  -- in `pthread_cond_wait`

pub record Thread : Type 0 where
  pub pc : Pc
  pub handler : Handler
  -- `SIG_TO_STOP` was sent and not delivered yet
  pub pending : Bool
  -- the loop of `stop_the_world` has been at the thread
  pub signalled : Bool

-- Where `service_thread_routine` stands, with `stop_the_world` and `start_the_world`.
pub data Service : Type 0 where
  idle : Service  -- before `signal_delivery_lock` is taken
  ready : Service  -- at `signal_barrier`
  triggered : Service  -- before `lock_allocation`
  alloc_locked : Service  -- before `signal_delivery_lock` is released
  stopping : Service  -- before `thread_creation_lock` is taken
  counting : Service  -- before `get_threads_storage_size`
  clearing : Service  -- before `is_world_started = false`
  signalling : Service  -- in the loop over the threads
  at_barrier : Service
  marking : Service
  sweeping : Service
  starting : Service  -- before `is_world_started = true`
  waking : Service  -- before the broadcast
  unlocking : Service  -- before `thread_creation_lock` is released
  resetting : Service  -- before `is_gc_called = false`
  finishing : Service  -- before `unlock_allocation`

pub record World : Type 0 where
  pub threads : ℕ → Thread
  pub service : Service
  pub threads_stopped : ℕ
  pub is_world_started : Bool
  pub is_gc_called : Bool

-- The thread has a cell in the storage.
abbrev pub is_registered : Thread → Bool
is_registered th = elim th.pc [ absent ↦ false | ending ↦ false | _ ↦ true ]

-- In a collection: the thread has a cell, or was sent the signal before its cell was destroyed.
abbrev pub is_due : Thread → Bool
is_due th = is_registered th || th.signalled

abbrev pub is_arrived : Thread → Bool
is_arrived th = elim th.handler [ arrived ↦ true | _ ↦ false ]

-- The thread holds `service_thrd_call_lock`.
abbrev pub in_call : Pc → Bool
in_call locked = true
in_call at_signal = true
in_call released = true
in_call delivered = true
in_call leaving = true
in_call _ = false

abbrev pub is_allocating : Pc → Bool
is_allocating allocating = true
is_allocating _ = false

abbrev pub is_creating : Pc → Bool
is_creating creating = true
is_creating _ = false

-- The service thread holds `signal_delivery_lock`.
abbrev pub holds_delivery : Service → Bool
holds_delivery ready = true
holds_delivery triggered = true
holds_delivery alloc_locked = true
holds_delivery _ = false

-- The service thread holds `allocation_lock` for writing.
abbrev pub holds_allocation : Service → Bool
holds_allocation idle = false
holds_allocation ready = false
holds_allocation triggered = false
holds_allocation _ = true

-- The service thread holds `thread_creation_lock` for writing.
abbrev pub holds_creation : Service → Bool
holds_creation counting = true
holds_creation clearing = true
holds_creation signalling = true
holds_creation at_barrier = true
holds_creation marking = true
holds_creation sweeping = true
holds_creation starting = true
holds_creation waking = true
holds_creation unlocking = true
holds_creation _ = false

-- A step of one thread: `allocate_new_object`, `call_service_thread`, `__wrap_pthread_create`,
-- the end of `wrap_user_routine`, and `handler`.
pub data Move (w : World) : Pc → Pc → Type 0 where
  rdlock : holds_allocation w.service ≡ false → Move w running allocating
  unlock : Move w allocating running
  create_rdlock : holds_creation w.service ≡ false → Move w running creating
  create_unlock : Move w creating running
  call_lock : ((u : ℕ) → in_call (w.threads u).pc ≡ false) → Move w running locked
  already_called : w.is_gc_called ≡ true → Move w locked leaving
  spin_lock : holds_delivery w.service ≡ false → Move w released delivered
  spin_unlock : Move w delivered leaving
  call_unlock : Move w leaving running
