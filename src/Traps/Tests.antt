-- ===== src/Traps/Tests.antt =====
-- Examples of traps and of the system calls on memory.
use eafitos.Base.{
  refl, ℕ, ◌+◌, ◌-◌, ◌%◌, ◌^◌, ◌<◌, ◌≤◌, ◌≡◌, ◌⊎◌, inl, true, false, some, [], ◌∷◌, arith,
}
use eafitos.Memory.{Machine, pure, ok, panic, walk_out_of_range, va_not_aligned, remap, page_size}
use eafitos.Vm.Sample.{memory, free_list, kinds, root, root-top_table, memory-Typed}
use eafitos.Traps.{ProcMemory, minus_one, mapzero_start, sys_mapzero, sys_map_ro, sys_shmem}
use eafitos.Traps.Fault.{page_fault, usertrap, End}
use eafitos.Traps.Return.{Ended, usertrap-Ended}
use eafitos.Traps.Service.{IsBounded, Handled, page_fault-Handled}
use eafitos.Traps.Bounds.{with_region, mapzero_region}
use eafitos.Traps.Panics.{map_ro_out_of_range, shmem_panics}
use eafitos.Traps.Life.{faults, sbrk, mapzero, run_events, Lives, run_events-Lives}

abbrev proc : ProcMemory
proc = record {
  pagetable = root;
  sz = 0x3000;
  has_region = false;
  region_start = 0;
  region_size = 0;
  page_faults = 0;
  trace_mask = 0;
  killed = false;
  epc = 0;
  a0 = 0;
  a7 = 0;
}

abbrev size5 : ℕ
size5 = 5000

proc-IsBounded : IsBounded proc
proc-IsBounded = record { heap = omega arith; region = omega arith }

page_fault-Handled_example : Handled memory kinds proc 0x1008 (page_fault 0x1008 proc memory)
page_fault-Handled_example =
    page_fault-Handled memory free_list kinds proc 0x1008 memory-Typed root-top_table proc-IsBounded

run_events-Lives_example : Lives kinds proc (
    run_events
      (sbrk 100 (omega arith) ∷ mapzero 5000 (omega arith) ∷ faults 0x1008 ∷ faults 0x70000008 ∷ [])
      proc
      memory)
run_events-Lives_example =
    run_events-Lives
      (sbrk 100 (omega arith) ∷ mapzero 5000 (omega arith) ∷ faults 0x1008 ∷ faults 0x70000008 ∷ [])
      memory free_list kinds proc memory-Typed root-top_table proc-IsBounded

mapzero_region_example :
    ((sys_mapzero size5 proc memory ≡ ok ((minus_one, proc), memory))
      × ((size5 ≡ 0) ⊎ ((false ≡ true) ⊎ (2 ^ 31 - page_size < size5))))
    ⊎ ((s : ℕ) × (sys_mapzero size5 proc memory ≡ ok ((mapzero_start, with_region proc s), memory))
        × IsBounded (with_region proc s)
        × (false ≡ false)
        × (s % page_size ≡ 0)
        × (size5 ≤ s)
        × (s < size5 + page_size))
mapzero_region_example = mapzero_region size5 proc memory (omega arith) proc-IsBounded

map_ro_out_of_range_example : sys_map_ro (2 ^ 40) proc memory ≡ panic walk_out_of_range
map_ro_out_of_range_example = map_ro_out_of_range (2 ^ 40) proc memory (omega arith)

shmem_panics_example :
    (sys_shmem (some root) 4 proc memory ≡ panic va_not_aligned)
    ⊎ (sys_shmem (some root) 4 proc memory ≡ panic remap)
shmem_panics_example =
    shmem_panics memory 0x80025000 (0x80026000 ∷ 0x80027000 ∷ []) kinds root 4 proc memory-Typed
      root-top_table (omega arith) (inl (omega arith))

usertrap-Ended_example :
    (e : End) × (p' : ProcMemory) × (m' : Machine) × (usertrap pure true 13 0x1008 64 0 proc memory
      ≡ ok ((e, p'), m'))
    × (page_fault 0x1008 (record proc { epc = 64 }) memory ≡ ok (p', m'))
    × Ended (record proc { epc = 64 }) e p'
usertrap-Ended_example =
    usertrap-Ended pure 13 0x1008 64 memory free_list kinds proc (inl refl) refl memory-Typed
      root-top_table proc-IsBounded
