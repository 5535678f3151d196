-- ===== src/Logging/Log.antt =====
-- The functions of logging/log.c, built with `LOG` and without `FL`. A line of the log is a value of
-- `Line`; `printed` is the number of characters that sprintf answers for it at a time. The result
-- `none` is a write behind the end of `log_buffer`. The choice of the file's name is left out.
use garbage_collector.Prelude.{
  ℕ, ◌+◌, ◌-◌, ◌*◌, ◌/◌, ◌%◌, Bool, true, false, ◌&&◌, ◌==◌, not, ltb, leb, if◌then◌else◌, Option,
  none, some, ◌>>=◌, List, [], ◌∷◌, ◌++◌, add64, sub64, size_mod,
}

pub data Line : Type 0 where
  new_objects : (total count size used limit objects free : ℕ) → Line
  limit_set : (limit : ℕ) → Line
  init_started init_big_error init_error init_done : Line
  destroy_big_error destroy_error destroyed : Line
  too_large no_big_memory no_small_memory : Line
  mark_started : (stage : ℕ) → Line
  mark_completed : (stage collected freed used limit : ℕ) → Line
  sweep_started sweep_completed : (stage : ℕ) → Line
  no_empty_blocks no_empty_headers : Line
  limit_exceeded : (free limit : ℕ) → Line

-- The first argument of `log`.
pub data Subject : Type 0 where
  init_allocator destroy_allocator allocate_new_object mark sweep other : Subject

-- The second one, a `log_t` of logging/log.h.
pub data Outcome : Type 0 where
  o_empty_block o_header b_heap_error heap_error b_error error ok start alive : Outcome

-- The global variables. `log_file` says whether the file is open, `buffer` and `file` hold the lines
-- in `log_buffer` and in the file.
pub record Log : Type 0 where
  pub log_file : Bool
  pub prev_object_size : ℕ
  pub last_object_size : ℕ
  pub memory_limit : ℕ
  pub memory_used : ℕ
  pub object_count : ℕ
  pub marked_objects : ℕ
  pub m_size : ℕ
  pub mark_stage_count : ℕ
  pub sweep_stage_count : ℕ
  pub new_objects_count : ℕ
  pub extra_log : Bool
  pub buf_pos : ℕ
  pub buffer : List Line
  pub file : List Line
  -- what `log_time` answers
  pub time : ℕ

abbrev pub buffer_size : ℕ
buffer_size = 2_000_000

abbrev pub buffer_dead_number : ℕ
buffer_dead_number = 333

-- `(size_t)-1`
abbrev pub no_size : ℕ
no_size = size_mod - 1

unfoldable pub printf_in_file : Log → Log
printf_in_file s =
    if s.log_file then record s { file = s.file ++ s.buffer; buffer = []; buf_pos = 0 } else s

-- The end of both halves of `add_log_line`.
unfoldable pub flush_if_full : Log → Log
unfolding printf_in_file
flush_if_full s = if leb (buffer_size - s.buf_pos) buffer_dead_number then printf_in_file s else s

-- The line that sums up the objects allocated since the last line.
abbrev pub summary : Log → Line
summary s =
    new_objects (s.last_object_size * s.new_objects_count % size_mod) s.new_objects_count
      s.last_object_size s.memory_used s.memory_limit s.object_count
      (sub64 s.memory_limit s.memory_used)

module _ (printed : ℕ → Line → ℕ) where
  -- `buf_pos += sprintf(buf_pos, ...)`, with the 0 behind the text.
  unfoldable pub append_line : Line → Log → Option Log
  append_line line s =
      let n = printed s.time line in
      if ltb (s.buf_pos + n) buffer_size
      then some (record s { buf_pos = s.buf_pos + n; buffer = s.buffer ++ line ∷ [] })
      else none

  unfoldable pub add_summary : Log → Option Log
  unfolding append_line flush_if_full
  add_summary s =
      if not (s.new_objects_count == 0) && not s.extra_log
      then (append_line (summary s) s >>= λ t.
          some (record (flush_if_full t) { prev_object_size = no_size; new_objects_count = 0 }))
      else some s

  unfoldable pub add_log_line : Line → Log → Option Log
  unfolding add_summary append_line flush_if_full
  add_log_line line s = do
    t ← add_summary s
    u ← append_line line t
    some (flush_if_full (record u { extra_log = false }))

  unfoldable pub log_new_object : Log → Option Log
  unfolding add_log_line
  log_new_object s =
      (if not (s.last_object_size == s.prev_object_size) && not (s.prev_object_size == no_size)
        then (add_log_line (summary s) (record s { extra_log = true }) >>= λ t.
            some (record t { new_objects_count = 0 }))
        else some s)
      >>= λ t. some (record t {
        new_objects_count = t.new_objects_count + 1;
        prev_object_size = t.last_object_size;
      })

  unfoldable pub set_memory_limit : ℕ → ℕ → Log → Option Log
  unfolding add_log_line
  set_memory_limit heap_size percent s =
      let limit = heap_size * percent % size_mod / 100 in
      add_log_line (limit_set limit) (record s { memory_limit = limit })

  -- The case `INIT_ALLOCATOR`, with what `fopen` of the log file answers.
  unfoldable pub log_init : Bool → Outcome → Log → Option Log
  unfolding add_log_line
  log_init opened start s = add_log_line init_started (record s { log_file = opened })
  log_init opened b_error s = add_log_line init_big_error s
  log_init opened error s = add_log_line init_error s
  log_init opened ok s = add_log_line init_done s
  log_init opened result s = some s

  -- `buf_pos` is compared with `log_file`, and is never equal to it.
  unfoldable pub log_destroy : Outcome → Log → Option Log
  unfolding add_log_line printf_in_file
  log_destroy b_error s = add_log_line destroy_big_error s
  log_destroy error s = add_log_line destroy_error s
  log_destroy ok s = add_log_line destroyed s >>= λ t. some (printf_in_file t)
  log_destroy result s = some s

  unfoldable pub log_allocate : Outcome → Log → Option Log
  unfolding add_log_line log_new_object
  log_allocate error s = add_log_line too_large s
  log_allocate b_heap_error s = add_log_line no_big_memory s
  log_allocate heap_error s = add_log_line no_small_memory s
  log_allocate ok s = log_new_object (record s {
    object_count = add64 s.object_count 1;
    memory_used = add64 s.memory_used s.last_object_size;
  })
  log_allocate result s = some s

  unfoldable pub log_mark : Outcome → Log → Option Log
  unfolding add_log_line
  log_mark start s =
      let stage = s.mark_stage_count + 1 in
      add_log_line (mark_started stage) (record s { mark_stage_count = stage }) >>= λ t.
      some (record t { marked_objects = 0 })
  log_mark alive s = some (record s { marked_objects = add64 s.marked_objects 1 })
  log_mark ok s =
      add_log_line
        (mark_completed s.mark_stage_count (sub64 s.object_count s.marked_objects)
          (sub64 s.memory_used s.m_size) s.m_size s.memory_limit)
        s
      >>= λ t.
          some (record t { object_count = t.marked_objects; memory_used = t.m_size; m_size = 0 })
  log_mark result s = some s

  unfoldable pub log_sweep : Outcome → Log → Option Log
  unfolding add_log_line
  log_sweep start s =
      let stage = s.sweep_stage_count + 1 in
      add_log_line (sweep_started stage) (record s { sweep_stage_count = stage })
  log_sweep ok s = add_log_line (sweep_completed s.sweep_stage_count) s
  log_sweep result s = some s

  unfoldable pub log_other : Outcome → Log → Option Log
  unfolding add_log_line
  log_other o_empty_block s = add_log_line no_empty_blocks s
  log_other o_header s = add_log_line no_empty_headers s
  log_other result s = some s

  unfoldable pub log : Bool → Subject → Outcome → Log → Option Log
  unfolding log_init log_destroy log_allocate log_mark log_sweep log_other
  log opened init_allocator result s = log_init opened result s
  log opened destroy_allocator result s = log_destroy result s
  log opened allocate_new_object result s = log_allocate result s
  log opened mark result s = log_mark result s
  log opened sweep result s = log_sweep result s
  log opened other result s = log_other result s

  -- Whether the space suffices: `ERROR` is false.
  unfoldable pub check_the_space : ℕ → Log → Option (Bool × Log)
  unfolding add_log_line
  check_the_space object_size s =
      let t = record s { last_object_size = object_size } in
      if ltb t.memory_limit (add64 t.memory_used object_size)
      then (add_log_line (limit_exceeded (sub64 t.memory_limit t.memory_used) t.memory_limit) t
          >>= λ u. some (false, u))
      else some (true, t)

  unfoldable pub log_mark_alive : ℕ → Log → Option Log
  unfolding log_mark
  log_mark_alive object_size s = log_mark alive (record s { m_size = add64 s.m_size object_size })
