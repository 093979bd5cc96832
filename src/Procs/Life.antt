-- ===== src/Procs/Life.antt =====
-- The table of processes from the first process on, through any sequence of calls.
use eafitos.Base.{
  ℕ, ◌+◌, ◌^◌, ◌<◌, ◌≡◌, ◌≢◌, refl, sym, ap, ◌∙◌, subst, false, Option, none, some, [], arith, inl,
  inr, ℕ_discrete, update, update_self, update_ne,
}
use eafitos.Procs.{
  nproc, unused, runnable, running, is_unused, Chan, no_chan, other_chan, Proc, Services, Kernel,
  wakeup,
}
use eafitos.Procs.Ops.{
  allocproc, userinit, sleep, schedule, yield, kkill, setkilled, kfork, kexit, kwait,
}
use eafitos.Procs.Inv.{is_live, InUse, Blank}
use eafitos.Procs.Change.{some_inj, unused-not-live}
use eafitos.Procs.Alloc.{Allocated, Fresh, allocproc-cases}
use eafitos.Procs.Keep.{
  IsOk, wakeup-IsOk, yield-IsOk, schedule-IsOk, sleep-IsOk, setkilled-IsOk, kkill-IsOk, kexit-IsOk,
}
use eafitos.Procs.Fork.{kfork_makes}
use eafitos.Procs.Wait.{kwait_ends}

-- The entries before the first process.
abbrev pub blank_proc : Proc
blank_proc = record {
  state = unused;
  chan = no_chan;
  killed = false;
  xstate = 0;
  pid = 0;
  trace_mask = 0;
  page_faults = 0;
  has_region = false;
  region_start = 0;
  region_size = 0;
  parent = none;
  sz = 0;
  pagetable = 0;
  trapframe = 0;
  ofile = λ fd. 0;
  cwd = 0;
  name = [];
}

abbrev pub booted : {M : Type 0} → M → Kernel M
booted m = record { proc = λ i. blank_proc; nextpid = 1; initproc = 0; rest = m }

module _ {M : Type 0} (s : Services M) where
  -- One call of a process or an interrupt. A process that acts is running; pids do not wrap.
  pub data Step (k k' : Kernel M) : Type 0 where
    wakes :
        (me : Option ℕ) (chan : Chan) → k' ≡ record k { proc = wakeup me chan k.proc } → Step k k'
    kills : (pid : ℕ) → k' ≡ (kkill pid k).1 → Step k k'
    marks : (p : ℕ) → k' ≡ setkilled p k → Step k k'
    yields : (p : ℕ) → (k.proc p).state ≡ running → k' ≡ yield p k → Step k k'
    runs : (p : ℕ) → (k.proc p).state ≡ runnable → k' ≡ schedule p k → Step k k'
    sleeps : (p n : ℕ) → (k.proc p).state ≡ running → k' ≡ sleep p (other_chan n) k → Step k k'
    waits_for : (p addr : ℕ) → (k.proc p).state ≡ running → k' ≡ (kwait s p addr k).1 → Step k k'
    forks :
        (p : ℕ)
        → (k.proc p).state ≡ running
        → k.nextpid + 1 < 2 ^ 31
        → k' ≡ (kfork s p k).1
        → Step k k'
    exits : (p status : ℕ) → (k.proc p).state ≡ running → kexit s p status k ≡ some k' → Step k k'

  pub data Reach (start : Kernel M) : Kernel M → Type 0 where
    here : Reach start start
    next : {k k' : Kernel M} → Reach start k → Step k k' → Reach start k'

  Step-IsOk : (k k' : Kernel M) → Step k k' → IsOk k → IsOk k'
  Step-IsOk k k' (wakes me chan e) v = subst IsOk (sym e) (wakeup-IsOk k v me chan)
  Step-IsOk k k' (kills pid e) v = subst IsOk (sym e) (kkill-IsOk k v pid)
  Step-IsOk k k' (marks p e) v = subst IsOk (sym e) (setkilled-IsOk k v p)
  Step-IsOk k k' (yields p h e) v = subst IsOk (sym e) (yield-IsOk k v p h)
  Step-IsOk k k' (runs p h e) v = subst IsOk (sym e) (schedule-IsOk k v p h)
  Step-IsOk k k' (sleeps p n h e) v = subst IsOk (sym e) (sleep-IsOk k v p n h)
  Step-IsOk k k' (waits_for p addr h e) v = subst IsOk (sym e) (kwait_ends s k v p addr h).0
  Step-IsOk k k' (forks p h f e) v = subst IsOk (sym e) (kfork_makes s k v f p h).0
  Step-IsOk k k' (exits p status h e) v = kexit-IsOk s k v p status (ap is_live h) k' e

  blank_proc-Blank : Blank blank_proc
  blank_proc-Blank = record {
    pid = refl;
    parent = refl;
    pagetable = refl;
    trapframe = refl;
    closed = record { files = λ fd h. refl; cwd = refl };
  }

  module _ (m : M) (cwd i : ℕ) (k1 : Kernel M) (slot : i < nproc) (a : Allocated i (booted m) k1)
      (f : Fresh 1 blank_proc (k1.proc i)) where
    started : Kernel M
    started = record k1 {
      proc = update k1.proc i (record (k1.proc i) { cwd = cwd; state = runnable });
      initproc = i;
    }

    init_entry : started.proc i ≡ record (k1.proc i) { cwd = cwd; state = runnable }
    unfolding started
    init_entry = update_self k1.proc i (record (k1.proc i) { cwd = cwd; state = runnable })

    other_entry : (j : ℕ) → j ≢ i → started.proc j ≡ blank_proc
    unfolding started
    other_entry j n =
        update_ne k1.proc i (record (k1.proc i) { cwd = cwd; state = runnable }) j n ∙ a.others j n

    is_init : (j : ℕ) → InUse (started.proc j) → j ≡ i
    is_init j u = elim (ℕ_discrete j i) [
      | yes e ↦ e
      | no n ↦ cc (u, ap (λ x. is_unused x.state) (other_entry j n))
    ]

    is_other : (j : ℕ) → is_live (started.proc j).state ≡ false → j ≢ i
    is_other j l e =
        cc (l, ap (λ x. is_live (started.proc x).state) e, ap (λ x. is_live x.state) init_entry)

    orphans : (j : ℕ) → (started.proc j).parent ≡ none
    orphans j = elim (ℕ_discrete j i) [
      | yes e ↦ ap (λ x. (started.proc x).parent) e ∙ ap (λ x. x.parent) init_entry ∙ f.parent
      | no n ↦ ap (λ x. x.parent) (other_entry j n)
    ]

    pid_one : (j : ℕ) → InUse (started.proc j) → (started.proc j).pid ≡ 1
    pid_one j u = ap (λ x. (started.proc x).pid) (is_init j u) ∙ ap (λ x. x.pid) init_entry ∙ f.pid

    blank_other : (j : ℕ) → j ≢ i → Blank (started.proc j)
    blank_other j n = subst Blank (sym (other_entry j n)) blank_proc-Blank

    started-IsOk : IsOk started
    unfolding started
    started-IsOk = record {
      pids = omega (arith, a.next);
      inside = λ j u. omega (arith, is_init j u, slot);
      blank = λ j u. blank_other j (is_other j (unused-not-live (started.proc j).state u));
      closed = λ j l. (blank_other j (is_other j l)).closed;
      pid_low = λ j u. omega (arith, pid_one j u);
      pid_high = λ j u. omega (arith, pid_one j u, a.next);
      distinct = λ j h u w e. is_init j u ∙ sym (is_init h w);
      parent_live = λ j q e. cc (e, orphans j);
      has_parent = λ j u ne e. ne (is_init j u);
      init_live = ap (λ x. is_live x.state) init_entry;
      told = λ q c w e. cc (e, orphans c);
    }

  pub userinit-IsOk : (m : M) (cwd : ℕ) (k : Kernel M) → userinit s cwd (booted m) ≡ some k → IsOk k
  unfolding userinit started
  userinit-IsOk m cwd k e = elim (allocproc-cases s (booted m) (λ i u. blank_proc-Blank.closed)) [
    | inl (f, full) ↦ cc (full 0 (omega arith))
    | inr (i, slot, u, before, (a, inl (f, free, blank))) ↦
        let n : userinit s cwd (booted m) ≡ none = rw (f, userinit) refl in cc (e, n)
    | inr (i, slot, u, before, (a, inr (f, fresh))) ↦
        let k1 = (allocproc s (booted m)).1 in
        let n : userinit s cwd (booted m) ≡ some (started m cwd i k1 slot a fresh) =
          rw (f, userinit) refl in
        subst IsOk (some_inj (sym n ∙ e)) (started-IsOk m cwd i k1 slot a fresh)
  ]

  -- From the first process on, through any sequence of forks, exits, waits, sleeps, wakeups, kills and
  -- schedulings, as long as pids do not wrap: pids are distinct, every process but the first has a
  -- parent that has neither exited nor been freed, a process that has exited holds no file, and nobody
  -- sleeps in wait while a child of theirs is a zombie.
  pub Reach-IsOk :
      (m : M) (cwd : ℕ) (start k : Kernel M)
      → userinit s cwd (booted m) ≡ some start
      → Reach start k
      → IsOk k
  Reach-IsOk m cwd start k e here = userinit-IsOk m cwd start e
  Reach-IsOk m cwd start k e (next {k = k1} r st) =
      Step-IsOk k1 k st (Reach-IsOk m cwd start k1 e r)
