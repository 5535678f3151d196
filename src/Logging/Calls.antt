-- ===== src/Logging/Calls.antt =====
-- `log` of logging/log.c on every pair of its arguments.
use mathlib.Core.Option.{Option, some}
use mathlib.Core.List.{append-nil}
use garbage_collector.Prelude.{
  ℕ, ◌+◌, ◌≤◌, ◌≡◌, ◌∙◌, refl, sym, Bool, true, false, ◌&&◌, ◌==◌, not, if◌then◌else◌, ◌>>=◌, List,
  [], ◌∷◌, ◌++◌, add64, arith,
}
use garbage_collector.Logging.Log.{
  Line, Log, Subject, Outcome, init_allocator, destroy_allocator, allocate_new_object, mark, sweep,
  other, o_empty_block, o_header, b_heap_error, heap_error, b_error, error, ok, start, alive,
  no_size, printf_in_file, summary, add_log_line, log_new_object, log_init, log_destroy,
  log_allocate, log_mark, log_sweep, log_other, log,
}
use garbage_collector.Logging.Buffer.{HasRoom, lines, summed, add_log_line-Logged}

-- The call ends without an overflow, leaves room for the next line, and keeps all lines.
abbrev pub Writes : Option Log → Log → Type 0
Writes o s = (t : Log) × (o ≡ some t) × HasRoom t × (more : List Line) × (lines t ≡ lines s ++ more)

module _ (printed : ℕ → Line → ℕ) (short : (t : ℕ) (line : Line) → printed t line ≤ 333) where
  one : (line : Line) (s : Log) → HasRoom s → Writes (add_log_line printed line s) s
  one line s r =
      let (t, ends, l) = add_log_line-Logged printed short line s r in
      (t, ends, l.room, summed s ++ line ∷ [], l.lines)

  -- A line, and then assignments to counters.
  then_set :
      (line : Line) (s : Log) (f : Log → Log)
      → HasRoom s
      → ((t : Log) → HasRoom t → HasRoom (f t) × (lines (f t) ≡ lines t))
      → Writes (add_log_line printed line s >>= λ t. some (f t)) s
  then_set line s f r keep =
      let (t, ends, room, more, all) = one line s r in
      let (room', same) = keep t room in (f t, rw ends refl, room', more, same ∙ all)

  nothing : (s : Log) → HasRoom s → Writes (some s) s
  nothing s r = (s, refl, r, [], sym (append-nil (lines s)))

  log_new_object-Writes : (s : Log) → HasRoom s → Writes (log_new_object printed s) s
  unfolding log_new_object
  log_new_object-Writes s r =
      at (not (s.last_object_size == s.prev_object_size) && not (s.prev_object_size == no_size))
    where
      at :
          (b : Bool)
          → Writes
              ((if b
                  then (add_log_line printed (summary s) (record s { extra_log = true }) >>= λ t.
                      some (record t { new_objects_count = 0 }))
                  else some s)
                >>= λ t. some (record t {
                  new_objects_count = t.new_objects_count + 1;
                  prev_object_size = t.last_object_size;
                }))
              s
      at true =
          let (t, ends, room, more, all) =
            one (summary s) (record s { extra_log = true })
              (record { open_file = r.open_file; room = r.room }) in
          (
            record t { new_objects_count = 0 + 1; prev_object_size = t.last_object_size },
            rw ends refl,
            record { open_file = room.open_file; room = room.room },
            more,
            all,
          )
      at false = (
        record s {
          new_objects_count = s.new_objects_count + 1;
          prev_object_size = s.last_object_size;
        },
        refl,
        record { open_file = r.open_file; room = r.room },
        [],
        sym (append-nil (lines s)),
      )

  log_init-Writes :
      (result : Outcome) (s : Log) → HasRoom s → Writes (log_init printed true result s) s
  unfolding log_init
  log_init-Writes start s r =
      one Line.init_started (record s { log_file = true })
        (record { open_file = refl; room = r.room })
  log_init-Writes b_error s r = one Line.init_big_error s r
  log_init-Writes error s r = one Line.init_error s r
  log_init-Writes ok s r = one Line.init_done s r
  log_init-Writes result s r = nothing s r

  log_destroy-Writes :
      (result : Outcome) (s : Log) → HasRoom s → Writes (log_destroy printed result s) s
  unfolding log_destroy printf_in_file
  log_destroy-Writes b_error s r = one Line.destroy_big_error s r
  log_destroy-Writes error s r = one Line.destroy_error s r
  log_destroy-Writes ok s r = then_set Line.destroyed s printf_in_file r keep
    where
      keep :
          (t : Log) → HasRoom t → HasRoom (printf_in_file t) × (lines (printf_in_file t) ≡ lines t)
      keep t q = written t.log_file
        where
          written :
              (b : Bool)
              → let u =
                  if b
                  then record t { file = t.file ++ t.buffer; buffer = []; buf_pos = 0 }
                  else t in
                HasRoom u × (lines u ≡ lines t)
          written true =
              (record { open_file = q.open_file; room = omega arith }, append-nil (lines t))
          written false = (q, refl)
  log_destroy-Writes result s r = nothing s r

  log_allocate-Writes :
      (result : Outcome) (s : Log) → HasRoom s → Writes (log_allocate printed result s) s
  unfolding log_allocate
  log_allocate-Writes error s r = one Line.too_large s r
  log_allocate-Writes b_heap_error s r = one Line.no_big_memory s r
  log_allocate-Writes heap_error s r = one Line.no_small_memory s r
  log_allocate-Writes ok s r =
      log_new_object-Writes
        (record s {
          object_count = add64 s.object_count 1;
          memory_used = add64 s.memory_used s.last_object_size;
        })
        (record { open_file = r.open_file; room = r.room })
  log_allocate-Writes result s r = nothing s r

  log_mark-Writes : (result : Outcome) (s : Log) → HasRoom s → Writes (log_mark printed result s) s
  unfolding log_mark
  log_mark-Writes start s r =
      then_set (Line.mark_started (s.mark_stage_count + 1))
        (record s { mark_stage_count = s.mark_stage_count + 1 })
        (λ t. record t { marked_objects = 0 }) (record { open_file = r.open_file; room = r.room })
        (λ t q. (record { open_file = q.open_file; room = q.room }, refl))
  log_mark-Writes alive s r = (
    record s { marked_objects = add64 s.marked_objects 1 },
    refl,
    record { open_file = r.open_file; room = r.room },
    [],
    sym (append-nil (lines s)),
  )
  log_mark-Writes ok s r =
      then_set _ s
        (λ t. record t { object_count = t.marked_objects; memory_used = t.m_size; m_size = 0 }) r
        (λ t q. (record { open_file = q.open_file; room = q.room }, refl))
  log_mark-Writes result s r = nothing s r

  log_sweep-Writes :
      (result : Outcome) (s : Log) → HasRoom s → Writes (log_sweep printed result s) s
  unfolding log_sweep
  log_sweep-Writes start s r =
      one (Line.sweep_started (s.sweep_stage_count + 1))
        (record s { sweep_stage_count = s.sweep_stage_count + 1 })
        (record { open_file = r.open_file; room = r.room })
  log_sweep-Writes ok s r = one (Line.sweep_completed s.sweep_stage_count) s r
  log_sweep-Writes result s r = nothing s r

  log_other-Writes :
      (result : Outcome) (s : Log) → HasRoom s → Writes (log_other printed result s) s
  unfolding log_other
  log_other-Writes o_empty_block s r = one Line.no_empty_blocks s r
  log_other-Writes o_header s r = one Line.no_empty_headers s r
  log_other-Writes result s r = nothing s r

  -- If the log file is open (as `fopen` answers in the first call), no line is longer than 333
  -- characters and the buffer has room for one, a call of `log` with any arguments ends without
  -- writing behind the end of `log_buffer`, leaves room for one more line, and keeps all lines
  -- logged before, in order, in front of what it adds.
  pub log-Writes :
      (subject : Subject) (result : Outcome) (s : Log)
      → HasRoom s
      → Writes (log printed true subject result s) s
  unfolding log
  log-Writes init_allocator result s r = log_init-Writes result s r
  log-Writes destroy_allocator result s r = log_destroy-Writes result s r
  log-Writes allocate_new_object result s r = log_allocate-Writes result s r
  log-Writes mark result s r = log_mark-Writes result s r
  log-Writes sweep result s r = log_sweep-Writes result s r
  log-Writes other result s r = log_other-Writes result s r
