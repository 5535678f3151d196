-- ===== src/Memory/Examples.antt =====
-- Runs of memops/gc_mem.c, and its theorems at concrete memories.
use garbage_collector.Prelude.{◌+◌, ◌-◌, ◌%◌, ◌≡◌, refl, arith, inl, if◌then◌else◌}
use garbage_collector.Memory.Words.{Memory}
use garbage_collector.Memory.Blocks.{gc_memset, gc_memcpy, gc_memset_lem, gc_memcpy_lem, within}

abbrev memory : Memory
memory x = x % 251

-- Eighteen bytes: one vector and two single bytes.
memset_runs : gc_memset 1000 511 18 memory 1017 ≡ 255
unfolding gc_memset
memset_runs = refl

memcpy_runs : gc_memcpy 1000 2000 18 memory 1017 ≡ 9
unfolding gc_memcpy
memcpy_runs = refl

gc_memset_lem_example :
    gc_memset 1000 511 18 memory 1018 ≡ (if within 1000 18 1018 then 511 % 256 else memory 1018)
gc_memset_lem_example = gc_memset_lem 1000 511 18 memory 1018

gc_memcpy_lem_example :
    gc_memcpy 1000 2000 18 memory 1017
    ≡ (if within 1000 18 1017 then memory (2000 + (1017 - 1000)) else memory 1017)
gc_memcpy_lem_example = gc_memcpy_lem 1000 2000 18 memory (inl (omega arith)) 1017
