-- ===== src/Procs.antt =====
-- kernel/proc.c: the table of processes.
--
-- A process is its index in `proc`. Every operation here runs under the locks that its source takes,
-- and is one function up to the point where it gives up the processor. What it asks of the page
-- tables, the open files and the inodes are the operations of `Services`.
pub mod Ops
pub mod Loops
pub mod Inv
pub mod Change
pub mod Keep
pub mod Wakeups
pub mod Orphans
pub mod Exit
pub mod Alloc
pub mod Fork
pub mod Wait
pub mod Life
pub mod Kill
mod Tests
use eafitos.Base.{
  ℕ, zero, suc, ◌+◌, ◌%◌, ◌^◌, Bool, true, false, not, ◌&&◌, Option, none, some, List, ◌==◌,
  if◌then◌else◌, update,
}

abbrev pub nproc : ℕ
nproc = 64

abbrev pub nofile : ℕ
nofile = 16

pub data ProcState : Type 0 where
  unused used sleeping runnable running zombie : ProcState

abbrev pub is_unused : ProcState → Bool
is_unused unused = true
is_unused s = false

abbrev pub is_sleeping : ProcState → Bool
is_sleeping sleeping = true
is_sleeping s = false

abbrev pub is_zombie : ProcState → Bool
is_zombie zombie = true
is_zombie s = false

-- The addresses that processes sleep on: null, that of a process, and others.
pub data Chan : Type 0 where
  no_chan : Chan
  proc_chan other_chan : ℕ → Chan

abbrev pub chan_eq : Chan → Chan → Bool
chan_eq no_chan no_chan = true
chan_eq no_chan (proc_chan j) = false
chan_eq no_chan (other_chan j) = false
chan_eq (proc_chan i) no_chan = false
chan_eq (proc_chan i) (proc_chan j) = i == j
chan_eq (proc_chan i) (other_chan j) = false
chan_eq (other_chan i) no_chan = false
chan_eq (other_chan i) (proc_chan j) = false
chan_eq (other_chan i) (other_chan j) = i == j

-- `struct proc` without its lock, stack and saved registers. Null pointers are 0, but for `parent`.
pub record Proc : Type 0 where
  pub state : ProcState
  pub chan : Chan
  pub killed : Bool
  pub xstate : ℕ
  pub pid : ℕ
  pub trace_mask : ℕ
  pub page_faults : ℕ
  pub has_region : Bool
  pub region_start : ℕ
  pub region_size : ℕ
  pub parent : Option ℕ
  pub sz : ℕ
  pub pagetable : ℕ
  pub trapframe : ℕ
  pub ofile : ℕ → ℕ
  pub cwd : ℕ
  pub name : List ℕ

-- What the other parts of the kernel, of state M, do for this one.
pub record Services (M : Type 0) : Type 0 where
  pub kalloc : M → ℕ × M
  pub kfree : ℕ → M → M
  -- the table for a trapframe
  pub proc_pagetable : ℕ → M → ℕ × M
  -- a table, the start of a region and how many pages it has
  pub unmap_region : ℕ → ℕ → ℕ → M → M
  pub proc_freepagetable : ℕ → ℕ → M → M
  pub uvmcopy : ℕ → ℕ → ℕ → M → Bool × M
  -- the trapframe of the parent to that of the child, whose a0 is 0
  pub copy_trapframe : ℕ → ℕ → M → M
  -- a table, an address and what is written there
  pub copyout : ℕ → ℕ → ℕ → M → Bool × M
  pub filedup : ℕ → M → M
  pub fileclose : ℕ → M → M
  pub idup : ℕ → M → M
  -- `iput` as an operation of its own
  pub iput : ℕ → M → M

pub record Kernel (M : Type 0) : Type 0 where
  pub proc : ℕ → Proc
  pub nextpid : ℕ
  pub initproc : ℕ
  pub rest : M

-- The loops that look for an entry: the first of `left` entries from i on that passes the test.
unfoldable pub first_from : (Proc → Bool) → (ℕ → Proc) → ℕ → ℕ → Option ℕ
first_from test proc zero i = none
first_from test proc (suc left) i =
    let rest = first_from test proc left (i + 1) in if test (proc i) then some i else rest

abbrev pub first : (Proc → Bool) → (ℕ → Proc) → Option ℕ
first test proc = first_from test proc nproc 0

-- `wakeup`, where `me` is the running process: the loop over `left` entries from i on.
abbrev pub woken : Chan → Proc → Proc
woken chan p =
    if is_sleeping p.state && chan_eq p.chan chan then record p { state = runnable } else p

abbrev pub is_me : Option ℕ → ℕ → Bool
is_me none i = false
is_me (some me) i = i == me

unfoldable pub wakeup_from : Option ℕ → Chan → ℕ → ℕ → (ℕ → Proc) → ℕ → Proc
wakeup_from me chan zero i proc = proc
wakeup_from me chan (suc left) i proc =
    wakeup_from me chan left (i + 1)
      (if is_me me i then proc else update proc i (woken chan (proc i)))

unfoldable pub wakeup : Option ℕ → Chan → (ℕ → Proc) → ℕ → Proc
wakeup me chan proc = wakeup_from me chan nproc 0 proc
