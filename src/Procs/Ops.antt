-- ===== src/Procs/Ops.antt =====
-- kernel/proc.c: fork, exit, wait, sleep, wakeup and kill.
use eafitos.Base.{
  ℕ, zero, suc, ◌+◌, ◌/◌, ◌%◌, ◌^◌, Bool, true, false, not, ◌&&◌, ◌||◌, Option, none, some, [],
  ◌==◌, if◌then◌else◌, update,
}
use eafitos.Procs.{
  nproc, nofile, unused, used, sleeping, runnable, running, zombie, is_unused, is_sleeping,
  is_zombie, Chan, no_chan, proc_chan, Proc, Services, Kernel, first, wakeup,
}

-- `pp->parent == p`
abbrev pub is_parent : Option ℕ → ℕ → Bool
is_parent none p = false
is_parent (some q) p = q == p

-- `wakeup(p->parent)` on a null pointer looks for processes that sleep on null.
abbrev pub parent_chan : Option ℕ → Chan
parent_chan none = no_chan
parent_chan (some q) = proc_chan q

-- The entry that `freeproc` leaves.
abbrev pub freed : Proc → Proc
freed p = record p {
  trapframe = 0;
  pagetable = 0;
  sz = 0;
  pid = 0;
  parent = none;
  name = [];
  chan = no_chan;
  killed = false;
  xstate = 0;
  state = unused;
  trace_mask = 0;
  page_faults = 0;
  has_region = false;
  region_start = 0;
  region_size = 0;
}

-- The loop of `reparent` over `left` entries from pp on.
unfoldable pub reparent_from : ℕ → ℕ → ℕ → ℕ → (ℕ → Proc) → ℕ → Proc
reparent_from p init zero pp proc = proc
reparent_from p init (suc left) pp proc = reparent_from p init left (pp + 1) (
    if is_parent (proc pp).parent p
    then wakeup (some p) (proc_chan init) (update proc pp (record (proc pp) { parent = some init }))
    else proc)

unfoldable pub reparent : ℕ → ℕ → (ℕ → Proc) → ℕ → Proc
reparent p init proc = reparent_from p init nproc 0 proc

-- `kexit` under `wait_lock`.
unfoldable pub leave : ℕ → ℕ → (ℕ → Proc) → ℕ → ℕ → Proc
leave p init proc status =
    let orphaned = reparent p init proc in
    let told = wakeup (some p) (parent_chan (orphaned p).parent) orphaned in
    update told p (record (told p) { xstate = status; state = zombie })

-- The scan of `kwait` over `left` entries from pp on: a zombie child, or none with `havekids`.
unfoldable pub scan_from : ℕ → (ℕ → Proc) → ℕ → ℕ → Bool → Option ℕ × Bool
scan_from p proc zero pp havekids = (none, havekids)
scan_from p proc (suc left) pp havekids =
    let rest = scan_from p proc left (pp + 1) (is_parent (proc pp).parent p || havekids) in
    if is_parent (proc pp).parent p && is_zombie (proc pp).state then (some pp, true) else rest

-- How one round of `kwait` ends: with a pid, with -1, or asleep.
pub data Waited : Type 0 where
  pid_of : ℕ → Waited
  failed waits : Waited

abbrev pub asleep_on : Chan → Proc → Proc
asleep_on chan p = record p { chan = chan; state = sleeping }

abbrev pub struck : Proc → Proc
struck p = record p { killed = true; state = if is_sleeping p.state then runnable else p.state }

-- The entry of the child once it is complete.
abbrev pub child_of : ℕ → Proc → Proc → (ℕ → ℕ) → Proc
child_of p parent np files = record np {
  sz = parent.sz;
  trace_mask = parent.trace_mask;
  page_faults = parent.page_faults;
  has_region = parent.has_region;
  region_start = parent.region_start;
  region_size = parent.region_size;
  ofile = files;
  cwd = parent.cwd;
  name = parent.name;
  parent = some p;
  state = runnable;
}

module _ {M : Type 0} where
  -- A new entry at `found`, before it has memory. `nextpid` is an `int`.
  abbrev pub named : ℕ → Kernel M → Kernel M
  named i k = record k {
    proc = update k.proc i (record (k.proc i) {
      pid = k.nextpid;
      state = used;
      trace_mask = 0;
      page_faults = 0;
      has_region = false;
      region_start = 0;
      region_size = 0;
    });
    nextpid = (k.nextpid + 1) % 2 ^ 32;
  }

  abbrev pub with_trapframe : ℕ → ℕ → M → Kernel M → Kernel M
  with_trapframe i frame m k = record k {
    proc = update k.proc i (record (k.proc i) { trapframe = frame });
    rest = m;
  }

  abbrev pub with_pagetable : ℕ → ℕ → M → Kernel M → Kernel M
  with_pagetable i table m k = record k {
    proc = update k.proc i (record (k.proc i) { pagetable = table });
    rest = m;
  }

  unfoldable pub sleep : ℕ → Chan → Kernel M → Kernel M
  sleep p chan k = record k { proc = update k.proc p (asleep_on chan (k.proc p)) }

  -- `scheduler` gives the processor to i, which comes back from `sleep` if it was there.
  unfoldable pub schedule : ℕ → Kernel M → Kernel M
  schedule i k = record k {
    proc = update k.proc i (record (k.proc i) { state = running; chan = no_chan });
  }

  unfoldable pub yield : ℕ → Kernel M → Kernel M
  yield p k = record k { proc = update k.proc p (record (k.proc p) { state = runnable }) }

  -- `kkill`: `true` for 0.
  unfoldable pub kkill : ℕ → Kernel M → Bool × Kernel M
  kkill pid k = elim (first (λ p. p.pid == pid) k.proc) [
    | none ↦ (false, k)
    | some i ↦ (true, record k { proc = update k.proc i (struck (k.proc i)) })
  ]

  unfoldable pub setkilled : ℕ → Kernel M → Kernel M
  setkilled p k = record k { proc = update k.proc p (record (k.proc p) { killed = true }) }

  unfoldable pub findproc : ℕ → Kernel M → Option ℕ
  findproc pid k = first (λ p. not (is_unused p.state) && p.pid == pid) k.proc

module _ {M : Type 0} (s : Services M) where
  -- The memory that `freeproc` gives back.
  unfoldable pub free_memory : Proc → M → M
  free_memory p m =
      let m1 = if p.trapframe == 0 then m else s.kfree p.trapframe m in
      let m2 =
        if p.has_region
        then s.unmap_region p.pagetable p.region_start (p.region_size / 4096) m1
        else m1 in
      if p.pagetable == 0 then m1 else s.proc_freepagetable p.pagetable p.sz m2

  unfoldable pub freeproc : ℕ → Kernel M → Kernel M
  freeproc i k = record k {
    proc = update k.proc i (freed (k.proc i));
    rest = free_memory (k.proc i) k.rest;
  }

  unfoldable pub alloc_at : ℕ → Kernel M → Option ℕ × Kernel M
  alloc_at i k =
      let frame = s.kalloc k.rest in
      let k1 = with_trapframe i frame.0 frame.1 (named i k) in
      let table = s.proc_pagetable frame.0 frame.1 in
      let k2 = with_pagetable i table.0 table.1 k1 in
      if frame.0 == 0
      then (none, freeproc i k1)
      else if table.0 == 0
      then (none, freeproc i k2)
      else (some i, k2)

  -- `none` for a null pointer.
  unfoldable pub allocproc : Kernel M → Option ℕ × Kernel M
  allocproc k = elim (first (λ p. is_unused p.state) k.proc) [
    | none ↦ (none, k)
    | some i ↦ alloc_at i k
  ]

  -- `userinit`, where cwd is what `namei("/")` finds.
  unfoldable pub userinit : ℕ → Kernel M → Option (Kernel M)
  userinit cwd k = elim (allocproc k).0 [
    | none ↦ none
    | some i ↦ some (record (allocproc k).1 {
      proc =
          update (allocproc k).1.proc i
            (record ((allocproc k).1.proc i) { cwd = cwd; state = runnable });
      initproc = i;
    })
  ]

  -- The loop of `kfork` over the open files of the parent, from fd on.
  unfoldable pub dup_files : ℕ → ℕ → (ℕ → ℕ) → (ℕ → ℕ) → M → (ℕ → ℕ) × M
  dup_files zero fd from to m = (to, m)
  dup_files (suc left) fd from to m =
      if from fd == 0
      then dup_files left (fd + 1) from to m
      else dup_files left (fd + 1) from (update to fd (from fd)) (s.filedup (from fd) m)

  unfoldable pub fork_into : ℕ → ℕ → Kernel M → Option ℕ × Kernel M
  fork_into p i k =
      let parent = k.proc p in
      let copied = s.uvmcopy parent.pagetable (k.proc i).pagetable parent.sz k.rest in
      let framed = s.copy_trapframe parent.trapframe (k.proc i).trapframe copied.1 in
      let files = dup_files nofile 0 parent.ofile (k.proc i).ofile framed in
      if copied.0
      then (
        some (k.proc i).pid,
        record k {
          proc = update k.proc i (child_of p parent (k.proc i) files.0);
          rest = s.idup parent.cwd files.1;
        },
      )
      else (none, freeproc i (record k { rest = copied.1 }))

  -- `kfork` of process p: the child's pid, or `none` for -1.
  unfoldable pub kfork : ℕ → Kernel M → Option ℕ × Kernel M
  kfork p k = elim (allocproc k).0 [
    | none ↦ (none, (allocproc k).1)
    | some i ↦ fork_into p i (allocproc k).1
  ]

  -- The loop of `kexit` over the open files, from fd on.
  unfoldable pub close_files : ℕ → ℕ → (ℕ → ℕ) → M → (ℕ → ℕ) × M
  close_files zero fd files m = (files, m)
  close_files (suc left) fd files m =
      if files fd == 0
      then close_files left (fd + 1) files m
      else close_files left (fd + 1) (update files fd 0) (s.fileclose (files fd) m)

  unfoldable pub close_all : ℕ → Kernel M → Kernel M
  close_all p k =
      let files = close_files nofile 0 (k.proc p).ofile k.rest in
      record k {
        proc = update k.proc p (record (k.proc p) { ofile = files.0; cwd = 0 });
        rest = s.iput (k.proc p).cwd files.1;
      }

  -- `kexit` up to its `sched`; `none` is a panic.
  unfoldable pub kexit : ℕ → ℕ → Kernel M → Option (Kernel M)
  kexit p status k =
      if p == k.initproc
      then none
      else some (record (close_all p k) { proc = leave p k.initproc (close_all p k).proc status })

  unfoldable pub reap : ℕ → ℕ → ℕ → Kernel M → Waited × Kernel M
  reap p addr c k =
      let out = s.copyout (k.proc p).pagetable addr (k.proc c).xstate k.rest in
      if addr == 0
      then (pid_of (k.proc c).pid, freeproc c k)
      else if out.0
      then (pid_of (k.proc c).pid, freeproc c (record k { rest = out.1 }))
      else (failed, record k { rest = out.1 })

  unfoldable pub kwait : ℕ → ℕ → Kernel M → Waited × Kernel M
  kwait p addr k =
      let scan = scan_from p k.proc nproc 0 false in
      elim scan.0 [
        | some c ↦ reap p addr c k
        | none ↦
            if not scan.1 || (k.proc p).killed
            then (failed, k)
            else (waits, sleep p (proc_chan p) k)
      ]
