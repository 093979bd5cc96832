-- ===== src/Procs/Inv.antt =====
-- What holds of the table of processes between operations.
use eafitos.Base.{ℕ, ◌<◌, ◌^◌, ◌≡◌, ◌≢◌, refl, sym, ◌∙◌, subst, Bool, true, false, none, some}
use eafitos.Procs.{
  nproc, nofile, ProcState, unused, sleeping, zombie, is_unused, is_zombie, proc_chan, Proc,
}

-- Neither free nor exited.
abbrev pub is_live : ProcState → Bool
is_live unused = false
is_live zombie = false
is_live s = true

abbrev pub InUse : Proc → Type 0
InUse p = is_unused p.state ≡ false

abbrev pub IsLive : Proc → Type 0
IsLive p = is_live p.state ≡ true

-- No file is open, and there is no current directory.
pub record Closed (p : Proc) : Type 0 where
  pub files : (fd : ℕ) → fd < nofile → p.ofile fd ≡ 0
  pub cwd : p.cwd ≡ 0

-- An entry with nothing hanging from it.
pub record Blank (p : Proc) : Type 0 where
  pub pid : p.pid ≡ 0
  pub parent : p.parent ≡ none
  pub pagetable : p.pagetable ≡ 0
  pub trapframe : p.trapframe ≡ 0
  pub closed : Closed p

-- Asleep in `kwait`, as process i.
pub record Waits (i : ℕ) (p : Proc) : Type 0 where
  pub state : p.state ≡ sleeping
  pub chan : p.chan ≡ proc_chan i

pub record Inv (proc : ℕ → Proc) (nextpid init : ℕ) : Type 0 where
  pub pids : nextpid < 2 ^ 31
  pub inside : (i : ℕ) → InUse (proc i) → i < nproc
  pub blank : (i : ℕ) → is_unused (proc i).state ≡ true → Blank (proc i)
  pub closed : (i : ℕ) → is_live (proc i).state ≡ false → Closed (proc i)
  pub pid_low : (i : ℕ) → InUse (proc i) → 0 < (proc i).pid
  pub pid_high : (i : ℕ) → InUse (proc i) → (proc i).pid < nextpid
  pub distinct : (i j : ℕ) → InUse (proc i) → InUse (proc j) → (proc i).pid ≡ (proc j).pid → i ≡ j
  -- a parent has neither exited nor been freed
  pub parent_live : (i q : ℕ) → (proc i).parent ≡ some q → IsLive (proc q)
  pub has_parent : (i : ℕ) → InUse (proc i) → i ≢ init → (proc i).parent ≢ none
  pub init_live : IsLive (proc init)
  -- nobody sleeps in wait while a child of theirs is a zombie
  pub told :
      (q c : ℕ) → Waits q (proc q) → (proc c).parent ≡ some q → is_zombie (proc c).state ≡ false

-- An entry that changes in nothing that `Inv` reads, but perhaps is woken from `kwait`.
pub record Mild (i : ℕ) (p q : Proc) : Type 0 where
  pub pid : q.pid ≡ p.pid
  pub parent : q.parent ≡ p.parent
  pub pagetable : q.pagetable ≡ p.pagetable
  pub trapframe : q.trapframe ≡ p.trapframe
  pub closed : Closed p → Closed q
  pub unused : is_unused q.state ≡ is_unused p.state
  pub live : is_live q.state ≡ is_live p.state
  pub zombie : is_zombie q.state ≡ is_zombie p.state
  pub waits : Waits i q → Waits i p

pub Mild-refl : (i : ℕ) (p : Proc) → Mild i p p
Mild-refl i p = record {
  pid = refl;
  parent = refl;
  pagetable = refl;
  trapframe = refl;
  closed = λ c. c;
  unused = refl;
  live = refl;
  zombie = refl;
  waits = λ w. w;
}

pub Mild-trans : (i : ℕ) (p q r : Proc) → Mild i p q → Mild i q r → Mild i p r
Mild-trans i p q r a b = record {
  pid = b.pid ∙ a.pid;
  parent = b.parent ∙ a.parent;
  pagetable = b.pagetable ∙ a.pagetable;
  trapframe = b.trapframe ∙ a.trapframe;
  closed = λ c. b.closed (a.closed c);
  unused = b.unused ∙ a.unused;
  live = b.live ∙ a.live;
  zombie = b.zombie ∙ a.zombie;
  waits = λ w. a.waits (b.waits w);
}

-- A change that `Inv` does not see, but perhaps for a process that goes to sleep in `kwait`.
pub record Still (p q : Proc) : Type 0 where
  pub pid : q.pid ≡ p.pid
  pub parent : q.parent ≡ p.parent
  pub pagetable : q.pagetable ≡ p.pagetable
  pub trapframe : q.trapframe ≡ p.trapframe
  pub closed : Closed p → Closed q
  pub unused : is_unused q.state ≡ is_unused p.state
  pub live : is_live q.state ≡ is_live p.state

still : (i : ℕ) (p q : Proc) → Mild i p q → Still p q
still i p q m = record {
  pid = m.pid;
  parent = m.parent;
  pagetable = m.pagetable;
  trapframe = m.trapframe;
  closed = m.closed;
  unused = m.unused;
  live = m.live;
}

pub Inv-Still :
    (proc proc' : ℕ → Proc) (nextpid init : ℕ)
    → ((i : ℕ) → Still (proc i) (proc' i))
    → ((q c : ℕ)
        → Waits q (proc' q)
        → (proc' c).parent ≡ some q
        → is_zombie (proc' c).state ≡ false)
    → Inv proc nextpid init
    → Inv proc' nextpid init
Inv-Still proc proc' nextpid init m told v = record {
  pids = v.pids;
  inside = λ i u. v.inside i (back i u);
  blank = λ i u.
      let b = v.blank i (sym (m i).unused ∙ u) in
      record {
        pid = (m i).pid ∙ b.pid;
        parent = (m i).parent ∙ b.parent;
        pagetable = (m i).pagetable ∙ b.pagetable;
        trapframe = (m i).trapframe ∙ b.trapframe;
        closed = (m i).closed b.closed;
      };
  closed = λ i l. (m i).closed (v.closed i (sym (m i).live ∙ l));
  pid_low = λ i u. subst (λ x. 0 < x) (sym (m i).pid) (v.pid_low i (back i u));
  pid_high = λ i u. subst (λ x. x < nextpid) (sym (m i).pid) (v.pid_high i (back i u));
  distinct = λ i j u w e. v.distinct i j (back i u) (back j w) (sym (m i).pid ∙ e ∙ (m j).pid);
  parent_live = λ i q e. (m q).live ∙ v.parent_live i q (sym (m i).parent ∙ e);
  has_parent = λ i u ne e. v.has_parent i (back i u) ne (sym (m i).parent ∙ e);
  init_live = (m init).live ∙ v.init_live;
  told = told;
}
  where
    back : (i : ℕ) → InUse (proc' i) → InUse (proc i)
    back i u = sym (m i).unused ∙ u

pub Inv-Mild :
    (proc proc' : ℕ → Proc) (nextpid init : ℕ)
    → ((i : ℕ) → Mild i (proc i) (proc' i))
    → Inv proc nextpid init
    → Inv proc' nextpid init
Inv-Mild proc proc' nextpid init m v =
    Inv-Still proc proc' nextpid init (λ i. still i (proc i) (proc' i) (m i))
      (λ q c w e. (m c).zombie ∙ v.told q c ((m q).waits w) (sym (m c).parent ∙ e)) v
