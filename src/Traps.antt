-- ===== src/Traps.antt =====
-- kernel/sysproc.c: the system calls on a process's memory, and `growproc` of kernel/proc.c.
--
-- A system call is a command on the machine that is given the process and returns its value, a
-- 64-bit word, with the process it leaves. An `int` is its 32 bits. What
-- `argint`, `argaddr` and `findproc` fetch is an argument.
pub mod Fault
pub mod Service
pub mod Bounds
pub mod Panics
pub mod Return
pub mod Life
mod Tests
use eafitos.Base.{
  ℕ, ◌+◌, ◌-◌, ◌%◌, ◌^◌, Bool, true, false, ◌||◌, ltb, leb, ◌==◌, if◌then◌else◌, Option, none, some,
}
use Prim.Native.Nat.{bit_or}
use eafitos.Memory.{
  K, pure, store, ◌>>=◌, ◌>>◌, memset_page, kalloc, kfree, page_size, page_round_up,
  page_round_down,
}
use eafitos.Vm.{
  max_va, pte_r, pte_w, pte_u, flag, ismapped, mappages, uvmunmap, uvmdealloc, uvmalloc,
}

-- What `struct proc` says about the memory of a process and its traps.
pub record ProcMemory : Type 0 where
  pub pagetable : ℕ
  pub sz : ℕ
  pub has_region : Bool
  pub region_start : ℕ
  pub region_size : ℕ
  pub page_faults : ℕ
  pub trace_mask : ℕ
  pub killed : Bool
  -- of the trapframe
  pub epc : ℕ
  pub a0 : ℕ
  pub a7 : ℕ

abbrev pub trapframe_va : ℕ
trapframe_va = max_va - page_size - page_size

abbrev pub minus_one : ℕ
minus_one = 2 ^ 64 - 1

-- `n < 0`, for an int
abbrev pub negative : ℕ → Bool
negative n = leb (2 ^ 31) n

-- a + n, for an unsigned 64-bit a and an int n
abbrev pub add_int : ℕ → ℕ → ℕ
add_int a n = (a + (if negative n then n + (2 ^ 64 - 2 ^ 32) else n)) % 2 ^ 64

abbrev pub user_rw : ℕ
user_rw = bit_or (bit_or pte_r pte_w) pte_u

-- `true` stands for 0 and `false` for -1.
unfoldable pub growproc : ℕ → ProcMemory → K (Bool × ProcMemory)
growproc n p =
    if n == 0
    then pure (true, p)
    else if negative n
    then (uvmdealloc p.pagetable p.sz (add_int p.sz n) >>= λ sz. pure (true, record p { sz = sz }))
    else if ltb trapframe_va (add_int p.sz n)
    then pure (false, p)
    else (uvmalloc p.pagetable p.sz (add_int p.sz n) pte_w >>= λ sz.
        if sz == 0 then pure (false, p) else pure (true, record p { sz = sz }))

unfoldable pub sys_sbrk : ℕ → ProcMemory → K (ℕ × ProcMemory)
sys_sbrk n p =
    if negative n
    then (growproc n p >>= λ r. pure (if r.0 then p.sz else minus_one, r.1))
    else if ltb (add_int p.sz n) p.sz
    then pure (minus_one, p)
    else if ltb trapframe_va (add_int p.sz n)
    then pure (minus_one, p)
    else pure (p.sz, record p { sz = add_int p.sz n })

abbrev pub mapzero_start : ℕ
mapzero_start = 0x70000000

-- `PGROUNDUP` of an int, whose sum wraps
abbrev pub round_up_int : ℕ → ℕ
round_up_int size = let s = (size + page_size - 1) % 2 ^ 32 in s - s % page_size

unfoldable pub sys_mapzero : ℕ → ProcMemory → K (ℕ × ProcMemory)
sys_mapzero size p =
    if negative size || size == 0
    then pure (minus_one, p)
    else if p.has_region
    then pure (minus_one, p)
    else if ltb (add_int mapzero_start (round_up_int size)) mapzero_start
    then pure (minus_one, p)
    else if leb trapframe_va (add_int mapzero_start (round_up_int size))
    then pure (minus_one, p)
    else pure (
      mapzero_start,
      record p { has_region = true; region_start = mapzero_start; region_size = round_up_int size },
    )

-- "mensaje solo lectura", eight bytes a word, in the page mem of zeros
abbrev pub write_message : ℕ → K (Unit {0})
write_message mem =
    store mem 0x20656a61736e656d
    >> store (mem + 8) 0x63656c206f6c6f73
    >> store (mem + 16) 0x61727574

unfoldable pub sys_map_ro : ℕ → ProcMemory → K (ℕ × ProcMemory)
sys_map_ro addr p =
    let va = page_round_down addr in
    ismapped p.pagetable va >>= λ mapped.
    if mapped
    then pure (minus_one, p)
    else (kalloc >>= λ mem.
        if mem == 0
        then pure (minus_one, p)
        else (memset_page mem 0
            >> write_message mem
            >> mappages p.pagetable va page_size mem (bit_or pte_r pte_u)
            >>= λ done. if done then pure (0, p) else (kfree mem >> pure (minus_one, p))))

-- The second half of `sys_shmem`, with the page and the other process's table.
unfoldable pub share_page : ℕ → ℕ → ℕ → ProcMemory → K (ℕ × ProcMemory)
share_page mem other va p = mappages p.pagetable va page_size mem user_rw >>= λ done.
    if done
    then (mappages other va page_size mem user_rw >>= λ both.
        if both
        then pure (va, p)
        else (uvmunmap p.pagetable va 1 false >> kfree mem >> pure (minus_one, p)))
    else (kfree mem >> pure (minus_one, p))

-- `other` is the page table of the process that `findproc` returns, if there is one.
unfoldable pub sys_shmem : Option ℕ → ℕ → ProcMemory → K (ℕ × ProcMemory)
sys_shmem none va p = pure (minus_one, p)
sys_shmem (some other) va p = kalloc >>= λ mem.
    if mem == 0 then pure (minus_one, p) else (memset_page mem 0 >> share_page mem other va p)

unfoldable pub sys_trace : ℕ → ProcMemory → K (ℕ × ProcMemory)
sys_trace mask p = pure (0, record p { trace_mask = mask })

unfoldable pub sys_getpfaults : ProcMemory → K (ℕ × ProcMemory)
sys_getpfaults p = pure (add_int 0 p.page_faults, p)

unfoldable pub sys_resetpfaults : ProcMemory → K (ℕ × ProcMemory)
sys_resetpfaults p = pure (0, record p { page_faults = 0 })
