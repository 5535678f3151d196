-- ===== src/Logging/Buffer.antt =====
-- `log_buffer` of logging/log.c: it does not overflow, and no line is lost.
use mathlib.Core.Option.{some}
use mathlib.Core.List.{append_assoc, append-nil}
use garbage_collector.Prelude.{
  ℕ, ◌+◌, ◌-◌, ◌≤◌, ◌<◌, ◌≡◌, ◌∙◌, refl, sym, ap, Bool, true, false, ◌&&◌, ◌==◌, not, ltb, leb,
  if◌then◌else◌, ◌>>=◌, List, [], ◌∷◌, ◌++◌, size_mod, arith,
}
use garbage_collector.Logging.Log.{
  Line, Log, buffer_size, buffer_dead_number, printf_in_file, flush_if_full, summary, append_line,
  add_summary, add_log_line,
}

-- The file is open, and the buffer has more room than the longest line takes.
pub record HasRoom (s : Log) : Type 0 where
  pub open_file : s.log_file ≡ true
  pub room : s.buf_pos + 333 < buffer_size

-- All lines so far.
abbrev pub lines : Log → List Line
lines s = s.file ++ s.buffer

-- What the lines do not change.
pub record Counters : Type 0 where
  pub last_object_size : ℕ
  pub memory_limit : ℕ
  pub memory_used : ℕ
  pub object_count : ℕ
  pub marked_objects : ℕ
  pub m_size : ℕ
  pub mark_stage_count : ℕ
  pub sweep_stage_count : ℕ

abbrev pub counters : Log → Counters
counters s = record {
  last_object_size = s.last_object_size;
  memory_limit = s.memory_limit;
  memory_used = s.memory_used;
  object_count = s.object_count;
  marked_objects = s.marked_objects;
  m_size = s.m_size;
  mark_stage_count = s.mark_stage_count;
  sweep_stage_count = s.sweep_stage_count;
}

-- The lines that `add_log_line` puts before its own.
abbrev pub summed : Log → List Line
summed s = if not (s.new_objects_count == 0) && not s.extra_log then summary s ∷ [] else []

-- `t` is `s` with more lines, and room for the next one.
pub record Logged (s t : Log) (more : List Line) : Type 0 where
  pub room : HasRoom t
  pub lines : lines t ≡ lines s ++ more
  pub same : counters t ≡ counters s

-- Whether or not the buffer is written to the file.
flushed :
    (full open_file : Bool) (s : Log)
    → open_file ≡ true
    → s.log_file ≡ true
    → (full ≡ false → s.buf_pos + 333 < buffer_size)
    → Logged s
        (if full
          then (if open_file
              then record s { file = s.file ++ s.buffer; buffer = []; buf_pos = 0 }
              else s)
          else s)
        []
flushed true true s e f room = record {
  room = record { open_file = f; room = omega arith };
  lines = refl;
  same = refl;
}
flushed true false s e f room = cc
flushed false open_file s e f room = record {
  room = record { open_file = f; room = room refl };
  lines = sym (append-nil (lines s));
  same = refl;
}

flush_if_full-Logged : (s : Log) → s.log_file ≡ true → Logged s (flush_if_full s) []
unfolding flush_if_full printf_in_file
flush_if_full-Logged s e =
    flushed (leb (buffer_size - s.buf_pos) buffer_dead_number) s.log_file s e e (λ h. ground arith)

module _ (printed : ℕ → Line → ℕ) (short : (t : ℕ) (line : Line) → printed t line ≤ 333) where
  -- A line that has room is written behind the others.
  append_line_lem :
      (line : Line) (s : Log)
      → HasRoom s
      → let t = record s {
        buf_pos = s.buf_pos + printed s.time line;
        buffer = s.buffer ++ line ∷ [];
      } in
        (append_line printed line s ≡ some t) × (lines t ≡ lines s ++ line ∷ [])
  unfolding append_line
  append_line_lem line s r =
      let fits : ltb (s.buf_pos + printed s.time line) buffer_size ≡ true =
        ground (arith, short s.time line, r.room) in
      (rw fits refl, sym (append_assoc s.file s.buffer (line ∷ [])))

  -- One line: the buffer written to the file or not.
  one_line :
      (line : Line) (s u : Log)
      → HasRoom s
      → u.log_file ≡ true
      → lines u ≡ lines s ++ line ∷ []
      → counters u ≡ counters s
      → Logged s (flush_if_full u) (line ∷ [])
  one_line line s u r open_file e same =
      let f = flush_if_full-Logged u open_file in
      record { room = f.room; lines = f.lines ∙ append-nil (lines u) ∙ e; same = f.same ∙ same }

  with_summary :
      (s : Log)
      → HasRoom s
      → (b : Bool) → b ≡ (not (s.new_objects_count == 0) && not s.extra_log)
      → (t : Log) × ((if b
            then (append_line printed (summary s) s >>= λ t. some (record (flush_if_full t) {
              prev_object_size = size_mod - 1;
              new_objects_count = 0;
            }))
            else some s)
          ≡ some t)
        × Logged s t (if b then summary s ∷ [] else [])
  with_summary s r true e =
      let u = record s {
        buf_pos = s.buf_pos + printed s.time (summary s);
        buffer = s.buffer ++ summary s ∷ [];
      } in
      let (writes, all) = append_line_lem (summary s) s r in
      let l = one_line (summary s) s u r r.open_file all refl in
      (
        record (flush_if_full u) { prev_object_size = size_mod - 1; new_objects_count = 0 },
        rw writes refl,
        record {
          room = record { open_file = l.room.open_file; room = l.room.room };
          lines = l.lines;
          same = l.same;
        },
      )
  with_summary s r false e =
      (s, refl, record { room = r; lines = sym (append-nil (lines s)); same = refl })

  -- If the file is open, no line is longer than 333 characters and the buffer has room for one,
  -- `add_log_line` does not overflow the buffer, leaves room for the next line, and adds the line
  -- behind all others, after the one that sums up new objects if there are any to sum up.
  pub add_log_line-Logged :
      (line : Line) (s : Log)
      → HasRoom s
      → (t : Log) × (add_log_line printed line s ≡ some t) × Logged s t (summed s ++ line ∷ [])
  unfolding add_log_line add_summary
  add_log_line-Logged line s r =
      let (t, ends, l) =
        with_summary s r (not (s.new_objects_count == 0) && not s.extra_log) refl in
      let u = record t {
        buf_pos = t.buf_pos + printed t.time line;
        buffer = t.buffer ++ line ∷ [];
        extra_log = false;
      } in
      let (writes, all) = append_line_lem line t l.room in
      let k = one_line line t u l.room l.room.open_file all refl in
      (
        flush_if_full u,
        rw (ends, writes) refl,
        record {
          room = k.room;
          lines =
              k.lines
              ∙ ap (λ ls. ls ++ line ∷ []) l.lines
              ∙ append_assoc (lines s) (summed s) (line ∷ []);
          same = k.same ∙ l.same;
        },
      )
