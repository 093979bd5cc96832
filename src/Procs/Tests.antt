-- ===== src/Procs/Tests.antt =====
-- The first process, its children, and the theorems at them.
use eafitos.Base.{
  ℕ, zero, suc, ◌+◌, ◌^◌, ◌<◌, ◌≡◌, refl, Bool, true, false, Option, none, some, ◌⊎◌, arith, ◌==◌,
  if◌then◌else◌,
}
use eafitos.Procs.{Services, Kernel, running, runnable, is_zombie, Proc}
use eafitos.Procs.Ops.{userinit, schedule, kfork, kkill, kexit, pid_of, waits, findproc}
use eafitos.Procs.Keep.{IsOk, schedule-IsOk}
use eafitos.Procs.Life.{booted, runs, forks, here, next, userinit-IsOk, Reach-IsOk}
use eafitos.Procs.Kill.{Doomed, kill_zero_dooms}

-- Memory that never runs out, and nothing to be seen of the rest.
abbrev plenty : Services (Unit {0})
plenty = record {
  kalloc = λ m. (4096, m);
  kfree = λ a m. m;
  proc_pagetable = λ f m. (8192, m);
  unmap_region = λ t a n m. m;
  proc_freepagetable = λ t n m. m;
  uvmcopy = λ a b n m. (true, m);
  copy_trapframe = λ a b m. m;
  copyout = λ t a x m. (true, m);
  filedup = λ f m. m;
  fileclose = λ f m. m;
  idup = λ i m. m;
  iput = λ i m. m;
}

abbrev or_booted : Option (Kernel (Unit {0})) → Kernel (Unit {0})
or_booted none = booted tt
or_booted (some k) = k

abbrev start : Kernel (Unit {0})
start = or_booted (userinit plenty 7 (booted tt))

abbrev awake : Kernel (Unit {0})
awake = schedule 0 start

abbrev forked : Kernel (Unit {0})
forked = (kfork plenty 0 awake).1

start_made : userinit plenty 7 (booted tt) ≡ some start
unfolding userinit eafitos.Procs.Ops.allocproc eafitos.Procs.first_from eafitos.Procs.Ops.alloc_at
    eafitos.Base.update
start_made = refl

start-runnable : (start.proc 0).state ≡ runnable
unfolding userinit eafitos.Procs.Ops.allocproc eafitos.Procs.first_from eafitos.Procs.Ops.alloc_at
    eafitos.Base.update
start-runnable = refl

awake-running : (awake.proc 0).state ≡ running
unfolding schedule eafitos.Base.update
awake-running = refl

awake-IsOk : IsOk awake
awake-IsOk = schedule-IsOk start (userinit-IsOk plenty tt 7 start start_made) 0 start-runnable

awake-pids : awake.nextpid + 1 < 2 ^ 31
unfolding userinit eafitos.Procs.Ops.allocproc eafitos.Procs.first_from eafitos.Procs.Ops.alloc_at
    eafitos.Base.update schedule
awake-pids = omega arith

forked-child : (forked.proc 1).parent ≡ some 0
unfolding userinit eafitos.Procs.Ops.allocproc eafitos.Procs.first_from eafitos.Procs.Ops.alloc_at
    eafitos.Base.update schedule kfork eafitos.Procs.Ops.fork_into
forked-child = refl

Reach-IsOk_example : IsOk forked
Reach-IsOk_example =
    Reach-IsOk plenty tt 7 start forked start_made
      (next (next here (runs 0 start-runnable refl)) (forks 0 awake-running awake-pids refl))

kill_zero_dooms_example : Doomed awake (kfork plenty 0 (kkill 0 awake).1)
kill_zero_dooms_example = kill_zero_dooms plenty awake awake-IsOk 0 awake-running awake-pids
