-- ===== src/Traps/Fault.antt =====
-- kernel/trap.c, `usertrap`, and `syscall` of kernel/syscall.c.
use eafitos.Base.{ℕ, ◌+◌, ◌%◌, ◌^◌, Bool, true, ◌&&◌, ◌||◌, ltb, leb, ◌==◌, if◌then◌else◌}
use eafitos.Memory.{
  K, pure, stop, ◌>>=◌, ◌>>◌, memset_page, kalloc, kfree, page_size, page_round_down, not_from_user,
}
use eafitos.Vm.{flag, ismapped, mappages, vmfault}
use eafitos.Traps.{ProcMemory, minus_one, user_rw}

abbrev pub doomed : ProcMemory → ProcMemory
doomed p = record p { killed = true }

abbrev pub count_fault : ProcMemory → ProcMemory
count_fault p = record p { page_faults = (p.page_faults + 1) % 2 ^ 32 }

-- eight bytes 'A'
abbrev pub region_byte : ℕ
region_byte = 0x4141414141414141

-- A fault at va, a page of the region.
unfoldable pub region_fault : ℕ → ProcMemory → K ProcMemory
region_fault va p = ismapped p.pagetable va >>= λ mapped.
    if mapped
    then pure (doomed p)
    else (kalloc >>= λ mem.
        if mem == 0
        then pure (doomed p)
        else (memset_page mem region_byte
            >> mappages p.pagetable va page_size mem user_rw
            >>= λ done. if done then pure (count_fault p) else (kfree mem >> pure (doomed p))))

abbrev pub in_region : ProcMemory → ℕ → Bool
in_region p badva =
    p.has_region && leb p.region_start badva && ltb badva (p.region_start + p.region_size)

-- The branch of `usertrap` for a load or store that faults at badva.
unfoldable pub page_fault : ℕ → ProcMemory → K ProcMemory
page_fault badva p =
    if in_region p badva
    then region_fault (page_round_down badva) p
    else (vmfault p.pagetable p.pagetable p.sz badva >>= λ mem.
        pure (if mem == 0 then doomed p else count_fault p))

-- How `usertrap` ends: with `kexit(-1)`, after a `yield`, or at once.
pub data End : Type 0 where
  exits yields returns : End

unfoldable pub finish : ℕ → ProcMemory → K (End × ProcMemory)
finish which_dev p =
    pure (if p.killed then exits else if which_dev == 2 then yields else returns, p)

-- A trap with the registers scause, stval and sepc, where `from_user` is the SPP bit's test,
-- which_dev the result of `devintr`, and `call` is `syscall`.
unfoldable pub usertrap :
    (call : ProcMemory → K ProcMemory) (from_user : Bool) (scause stval sepc which_dev : ℕ)
    → ProcMemory
    → K (End × ProcMemory)
usertrap call from_user scause stval sepc which_dev q =
    if from_user
    then (let p = record q { epc = sepc } in
        if scause == 8
        then (if p.killed
            then pure (exits, p)
            else (call (record p { epc = sepc + 4 }) >>= finish 0))
        else if ltb 0 which_dev
        then finish which_dev p
        else if scause == 13 || scause == 15
        then (page_fault stval p >>= finish 0)
        else finish 0 (doomed p))
    else stop not_from_user

-- NELEM(syscalls): the calls have the numbers from 1 to 29.
abbrev pub nelem_syscalls : ℕ
nelem_syscalls = 30

-- `syscall`, with the line it prints under tracing; `calls` is the table.
pub data Line : Type 0 where
  traced : ℕ → ℕ → ℕ → Line
  unknown : ℕ → Line
  silent : Line

unfoldable pub syscall :
    (calls : ℕ → ProcMemory → K (ℕ × ProcMemory)) → ProcMemory → K (Line × ProcMemory)
syscall calls p =
    let num = p.a7 % 2 ^ 32 in
    if ltb 0 num && ltb num nelem_syscalls
    then (calls num p >>= λ r. pure (
      if flag num (r.1).trace_mask then traced num p.a0 r.0 else silent,
      record (r.1) { a0 = r.0 },
    ))
    else pure (unknown num, record p { a0 = minus_one })
