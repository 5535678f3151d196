-- ===== src/Logging/Accounts.antt =====
-- The counters of logging/log.c: what is allocated, and what a mark stage finds alive.
use mathlib.Core.Option.{Option, some}
use garbage_collector.Prelude.{
  ℕ, suc, ◌+◌, ◌≤◌, ◌<◌, ◌≡◌, ◌∙◌, ◌⊎◌, inl, inr, refl, ap, Bool, true, false, ◌&&◌, ◌==◌, not, ltb,
  if◌then◌else◌, ◌>>=◌, List, [], ◌∷◌, size_mod, add64, add64-eq, sub64, arith, Bool-cases,
}
use garbage_collector.Logging.Log.{
  Line, Log, allocate_new_object, mark, ok, start, no_size, summary, add_log_line, log_new_object,
  log_allocate, log_mark, log, check_the_space, log_mark_alive,
}
use garbage_collector.Logging.Buffer.{HasRoom, counters, add_log_line-Logged}

abbrev pub sum : List ℕ → ℕ
sum [] = 0
sum (n ∷ ns) = n + sum ns

abbrev pub count : List ℕ → ℕ
count [] = 0
count (n ∷ ns) = suc (count ns)

module _ (printed : ℕ → Line → ℕ) where
  -- A call of `log_mark_alive` for each object that is marked.
  unfoldable pub mark_alive_all : List ℕ → Log → Option Log
  unfolding log_mark_alive
  mark_alive_all [] s = some s
  mark_alive_all (size ∷ sizes) s = log_mark_alive printed size s >>= mark_alive_all sizes

  -- The log of a mark stage.
  unfoldable pub mark_stage : List ℕ → Log → Option Log
  unfolding mark_alive_all log
  mark_stage sizes s = do
    t ← log printed true mark start s
    u ← mark_alive_all sizes t
    log printed true mark ok u

-- What `mark_alive_all` changes.
abbrev alive_log : ℕ → ℕ → Log → Log
alive_log marked size s = record s { marked_objects = marked; m_size = size }

module _ (printed : ℕ → Line → ℕ) (short : (t : ℕ) (line : Line) → printed t line ≤ 333) where
  mark_alive_all_lem :
      (sizes : List ℕ) (s : Log)
      → s.marked_objects + count sizes < size_mod
      → s.m_size + sum sizes < size_mod
      → mark_alive_all printed sizes s
        ≡ some (alive_log (s.marked_objects + count sizes) (s.m_size + sum sizes) s)
  unfolding mark_alive_all log_mark_alive log_mark
  mark_alive_all_lem [] s p q =
      let a : s.marked_objects + 0 ≡ s.marked_objects = omega arith in
      let b : s.m_size + 0 ≡ s.m_size = omega arith in rw (a, b) refl
  mark_alive_all_lem (n ∷ ns) s p q =
      let a : add64 s.marked_objects 1 ≡ s.marked_objects + 1 =
        add64-eq s.marked_objects 1 (omega arith) in
      let b : add64 s.m_size n ≡ s.m_size + n = add64-eq s.m_size n (omega arith) in
      let c : s.marked_objects + 1 + count ns ≡ s.marked_objects + suc (count ns) = omega arith in
      let d : s.m_size + n + sum ns ≡ s.m_size + (n + sum ns) = omega arith in
      rw
        (
          a,
          b,
          mark_alive_all_lem ns (alive_log (s.marked_objects + 1) (s.m_size + n) s) (omega arith)
              (omega arith),
          c,
          d,
        )
        refl

  -- If the log has room and the count and the sum of the sizes are below 2^64, a mark stage that
  -- begins with `m_size` at 0 and marks objects of the given sizes ends with the number of these
  -- objects as the number of all objects and with the sum of their sizes as the memory in use;
  -- `m_size` is 0 again, and the limit is what it was.
  pub memory_used-mark_stage :
      (sizes : List ℕ) (s : Log)
      → HasRoom s
      → s.m_size ≡ 0
      → count sizes < size_mod
      → sum sizes < size_mod
      → (t : Log) × (mark_stage printed sizes s ≡ some t)
        × HasRoom t
        × (t.object_count ≡ count sizes)
        × (t.memory_used ≡ sum sizes)
        × (t.m_size ≡ 0)
        × (t.memory_limit ≡ s.memory_limit)
        × (t.mark_stage_count ≡ s.mark_stage_count + 1)
  unfolding mark_stage log log_mark
  memory_used-mark_stage sizes s r zero few little =
      let s' = record s { mark_stage_count = s.mark_stage_count + 1 } in
      let (t, starts, l) =
        add_log_line-Logged printed short (Line.mark_started (s.mark_stage_count + 1)) s'
          (record { open_file = r.open_file; room = r.room }) in
      let t' = record t { marked_objects = 0 } in
      let m : t.m_size ≡ 0 = ap (λ c. c.m_size) l.same ∙ zero in
      let u = alive_log (0 + count sizes) (t.m_size + sum sizes) t' in
      let alives = mark_alive_all_lem sizes t' (omega arith) (omega arith) in
      let (v, ends, k) =
        add_log_line-Logged printed short
          (Line.mark_completed u.mark_stage_count (sub64 u.object_count u.marked_objects)
            (sub64 u.memory_used u.m_size) u.m_size u.memory_limit)
          u (record { open_file = l.room.open_file; room = l.room.room }) in
      (
        record v { object_count = v.marked_objects; memory_used = v.m_size; m_size = 0 },
        rw (starts, alives, ends) refl,
        record { open_file = k.room.open_file; room = k.room.room },
        omega (arith, ap (λ c. c.marked_objects) k.same),
        omega (arith, ap (λ c. c.m_size) k.same),
        refl,
        ap (λ c. c.memory_limit) k.same ∙ ap (λ c. c.memory_limit) l.same,
        ap (λ c. c.mark_stage_count) k.same ∙ ap (λ c. c.mark_stage_count) l.same,
      )

  -- The line for new objects leaves the counters.
  log_new_object-counters :
      (s : Log)
      → HasRoom s
      → (t : Log) × (log_new_object printed s ≡ some t) × HasRoom t × (counters t ≡ counters s)
  unfolding log_new_object
  log_new_object-counters s r =
      at (not (s.last_object_size == s.prev_object_size) && not (s.prev_object_size == no_size))
    where
      at :
          (b : Bool)
          → (t : Log) × (((if b
                  then (add_log_line printed (summary s) (record s { extra_log = true }) >>= λ t.
                      some (record t { new_objects_count = 0 }))
                  else some s)
                >>= λ t. some (record t {
                  new_objects_count = t.new_objects_count + 1;
                  prev_object_size = t.last_object_size;
                }))
              ≡ some t)
            × HasRoom t
            × (counters t ≡ counters s)
      at true =
          let (t, ends, l) =
            add_log_line-Logged printed short (summary s) (record s { extra_log = true })
              (record { open_file = r.open_file; room = r.room }) in
          (
            record t { new_objects_count = 0 + 1; prev_object_size = t.last_object_size },
            rw ends refl,
            record { open_file = l.room.open_file; room = l.room.room },
            l.same,
          )
      at false = (
        record s {
          new_objects_count = s.new_objects_count + 1;
          prev_object_size = s.last_object_size;
        },
        refl,
        record { open_file = r.open_file; room = r.room },
        refl,
      )

  -- Where the log has room and the sum is below 2^64, `check_the_space` accepts an object exactly if
  -- the memory in use and the object are within the limit. If it does, the log of the allocation
  -- that follows ends with the memory in use greater by the size, still within the limit, and with
  -- one object more. If it does not, no counter changes but the size that was asked for.
  pub memory_used-check_the_space :
      (size : ℕ) (s : Log)
      → HasRoom s
      → s.memory_used + size < size_mod
      → s.object_count + 1 < size_mod
      → ((s.memory_used + size ≤ s.memory_limit)
          × ((t u : Log) × (check_the_space printed size s ≡ some (true, t))
              × (log printed true allocate_new_object ok t ≡ some u)
              × HasRoom u
              × (u.memory_used ≡ s.memory_used + size)
              × (u.memory_used ≤ u.memory_limit)
              × (u.object_count ≡ s.object_count + 1)))
        ⊎ ((s.memory_limit < s.memory_used + size)
            × ((t : Log) × (check_the_space printed size s ≡ some (false, t))
                × HasRoom t
                × (counters t ≡ counters (record s { last_object_size = size }))))
  unfolding check_the_space log log_allocate
  memory_used-check_the_space size s r fits few =
      let used : add64 s.memory_used size ≡ s.memory_used + size =
        add64-eq s.memory_used size fits in
      let more : add64 s.object_count 1 ≡ s.object_count + 1 = add64-eq s.object_count 1 few in
      let t = record s { last_object_size = size } in
      elim (Bool-cases (ltb s.memory_limit (add64 s.memory_used size))) [
        | inl over ↦
            let (u, ends, l) =
              add_log_line-Logged printed short
                (Line.limit_exceeded (sub64 s.memory_limit s.memory_used) s.memory_limit) t
                (record { open_file = r.open_file; room = r.room }) in
            inr (ground (arith, used, over), (u, rw (over, ends) refl, l.room, l.same))
        | inr within ↦
            let t' = record t {
              object_count = add64 s.object_count 1;
              memory_used = add64 s.memory_used size;
            } in
            let (u, ends, room, same) =
              log_new_object-counters t' (record { open_file = r.open_file; room = r.room }) in
            let now : u.memory_used ≡ s.memory_used + size = ap (λ c. c.memory_used) same ∙ used in
            let limit : u.memory_limit ≡ s.memory_limit = ap (λ c. c.memory_limit) same in
            let small : s.memory_used + size ≤ s.memory_limit = ground (arith, used, within) in
            inl (
              small,
              (
                t,
                u,
                rw within refl,
                ends,
                room,
                now,
                omega arith,
                ap (λ c. c.object_count) same ∙ more,
              ),
            )
      ]
