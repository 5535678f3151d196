-- ===== src/Logging/Examples.antt =====
-- Runs of logging/log.c, and its theorems at concrete logs.
use mathlib.Core.Option.{Option, none, some}
use garbage_collector.Prelude.{
  ℕ, ◌+◌, ◌≤◌, ◌<◌, ◌≡◌, ◌⊎◌, refl, true, false, List, [], ◌∷◌, arith, sub64,
}
use garbage_collector.Logging.Log.{
  Line, Log, summary, allocate_new_object, ok, mark, start, log, check_the_space, add_log_line,
  log_new_object, append_line, add_summary, flush_if_full,
}
use garbage_collector.Logging.Buffer.{HasRoom, lines, counters, Logged, add_log_line-Logged}
use garbage_collector.Logging.Calls.{Writes, log-Writes}
use garbage_collector.Logging.Accounts.{memory_used-check_the_space}

-- Every line takes 100 characters.
abbrev hundred : ℕ → Line → ℕ
hundred time line = 100

hundred_short : (t : ℕ) (line : Line) → hundred t line ≤ 333
hundred_short t line = omega arith

-- Three objects of 64 bytes are allocated, and not yet logged.
abbrev three : Log
three = record {
  log_file = true;
  prev_object_size = 64;
  last_object_size = 64;
  memory_limit = 1000;
  memory_used = 192;
  object_count = 3;
  marked_objects = 0;
  m_size = 0;
  mark_stage_count = 0;
  sweep_stage_count = 0;
  new_objects_count = 3;
  extra_log = false;
  buf_pos = 500;
  buffer = Line.init_started ∷ [];
  file = [];
  time = 1;
}

three-HasRoom : HasRoom three
three-HasRoom = record { open_file = refl; room = omega arith }

add_log_line-Logged_example :
    (t : Log) × (add_log_line hundred Line.init_done three ≡ some t)
    × Logged three t (summary three ∷ Line.init_done ∷ [])
add_log_line-Logged_example =
    add_log_line-Logged hundred hundred_short Line.init_done three three-HasRoom

log-Writes_example : Writes (log hundred true mark start three) three
log-Writes_example = log-Writes hundred hundred_short mark start three three-HasRoom

memory_used-check_the_space_example :
    ((192 + 32 ≤ 1000)
      × ((t u : Log) × (check_the_space hundred 32 three ≡ some (true, t))
          × (log hundred true allocate_new_object ok t ≡ some u)
          × HasRoom u
          × (u.memory_used ≡ 192 + 32)
          × (u.memory_used ≤ u.memory_limit)
          × (u.object_count ≡ 3 + 1)))
    ⊎ ((1000 < 192 + 32)
        × ((t : Log) × (check_the_space hundred 32 three ≡ some (false, t))
            × HasRoom t
            × (counters t ≡ counters (record three { last_object_size = 32 }))))
memory_used-check_the_space_example =
    memory_used-check_the_space hundred hundred_short 32 three three-HasRoom (omega arith)
      (omega arith)

abbrev lines_of : Option Log → List Line
lines_of none = []
lines_of (some t) = lines t

-- An object of 32 bytes after three of 64: the line for the three gives the size of the new one.
wrong_size :
    lines_of (log_new_object hundred (record three { last_object_size = 32 }))
    ≡ Line.init_started ∷ Line.new_objects 96 3 32 192 1000 3 808 ∷ []
unfolding log_new_object add_log_line add_summary append_line flush_if_full sub64
wrong_size = refl
