-- ===== src/Procs/Keep.antt =====
-- The calls that change one entry, and exit, keep the invariant.
use eafitos.Base.{
  ℕ, zero, suc, ◌+◌, ◌≤◌, ◌<◌, ◌≡◌, ◌≢◌, refl, sym, ap, ◌∙◌, subst, Bool, true, Option, none, some,
  arith, ◌==◌, ==_of_ne, Bool-cases, inl, inr, ℕ_discrete, update, update_self, update_cases,
}
use eafitos.Procs.{
  nproc, nofile, ProcState, sleeping, runnable, running, is_sleeping, Chan, no_chan, proc_chan,
  other_chan, Proc, Services, Kernel, wakeup,
}
use eafitos.Procs.Ops.{
  sleep, asleep_on, schedule, yield, struck, kkill, setkilled, close_files, close_all, leave, kexit,
}
use eafitos.Procs.Loops.{first_from-cases}
use eafitos.Procs.Inv.{is_live, IsLive, Closed, Inv, Mild, Mild-refl, Inv-Mild}
use eafitos.Procs.Wakeups.{is_sleeping-sleeping, wakeup-Mild}
use eafitos.Procs.Change.{some_inj, live-in_use, live-not-zombie}
use eafitos.Procs.Exit.{leave_keeps}

abbrev pub IsOk : {M : Type 0} → Kernel M → Type 0
IsOk k = Inv k.proc k.nextpid k.initproc

-- A change of one entry.
update-Mild :
    (proc : ℕ → Proc) (i : ℕ) (p : Proc)
    → Mild i (proc i) p
    → (j : ℕ) → Mild j (proc j) (update proc i p j)
update-Mild proc i p m j = elim (update_cases proc i p j) [
  | inl (e, u) ↦ subst (Mild j (proc j)) (sym u) (subst (λ x. Mild x (proc x) p) (sym e) m)
  | inr (n, u) ↦ subst (Mild j (proc j)) (sym u) (Mild-refl j (proc j))
]

-- A live entry that stays live and does not come to wait.
live_change :
    (i : ℕ) (p : Proc) (st : ProcState) (chan : Chan) (killed : Bool)
    → IsLive p
    → is_live st ≡ true
    → ¬ ((st ≡ sleeping) × (chan ≡ proc_chan i))
    → Mild i p (record p { state = st; chan = chan; killed = killed })
live_change i p st chan killed l m n = record {
  pid = refl;
  parent = refl;
  pagetable = refl;
  trapframe = refl;
  closed = λ c. record { files = c.files; cwd = c.cwd };
  unused = live-in_use st m ∙ sym (live-in_use p.state l);
  live = m ∙ sym l;
  zombie = live-not-zombie st m ∙ sym (live-not-zombie p.state l);
  waits = λ w. absurd (n (w.state, w.chan));
}

struck-Mild : (i : ℕ) (p : Proc) → Mild i p (struck p)
struck-Mild i p = elim (Bool-cases (is_sleeping p.state)) [
  | inl t ↦
      let e = is_sleeping-sleeping p.state t in
      rw t (live_change i p runnable p.chan true (ap is_live e) refl (λ w. cc (w.0)))
  | inr t ↦ rw t (record {
    pid = refl;
    parent = refl;
    pagetable = refl;
    trapframe = refl;
    closed = λ c. record { files = c.files; cwd = c.cwd };
    unused = refl;
    live = refl;
    zombie = refl;
    waits = λ w. record { state = w.state; chan = w.chan };
  })
]

module _ {M : Type 0} (k : Kernel M) (v : IsOk k) where
  changed :
      (proc' : ℕ → Proc) → ((j : ℕ) → Mild j (k.proc j) (proc' j)) → Inv proc' k.nextpid k.initproc
  changed proc' m = Inv-Mild k.proc proc' k.nextpid k.initproc m v

  pub wakeup-IsOk : (me : Option ℕ) (chan : Chan) → IsOk (record k { proc = wakeup me chan k.proc })
  wakeup-IsOk me chan = changed (wakeup me chan k.proc) (wakeup-Mild me chan k.proc)

  pub yield-IsOk : (p : ℕ) → (k.proc p).state ≡ running → IsOk (yield p k)
  unfolding yield
  yield-IsOk p e = changed (update k.proc p (record (k.proc p) { state = runnable })) (
      update-Mild k.proc p (record (k.proc p) { state = runnable })
        (live_change p (k.proc p) runnable (k.proc p).chan (k.proc p).killed (ap is_live e) refl
          (λ w. cc (w.0))))

  pub schedule-IsOk : (p : ℕ) → (k.proc p).state ≡ runnable → IsOk (schedule p k)
  unfolding schedule
  schedule-IsOk p e =
      changed (update k.proc p (record (k.proc p) { state = running; chan = no_chan })) (
        update-Mild k.proc p (record (k.proc p) { state = running; chan = no_chan })
          (live_change p (k.proc p) running no_chan (k.proc p).killed (ap is_live e) refl
            (λ w. cc (w.0))))

  pub sleep-IsOk : (p n : ℕ) → (k.proc p).state ≡ running → IsOk (sleep p (other_chan n) k)
  unfolding sleep
  sleep-IsOk p n e = changed (update k.proc p (asleep_on (other_chan n) (k.proc p))) (
      update-Mild k.proc p (asleep_on (other_chan n) (k.proc p)) (
        live_change p (k.proc p) sleeping (other_chan n) (k.proc p).killed (ap is_live e) refl
          (λ w. cc (w.1))))

  pub setkilled-IsOk : (p : ℕ) → IsOk (setkilled p k)
  unfolding setkilled
  setkilled-IsOk p = changed (update k.proc p (record (k.proc p) { killed = true })) (
      update-Mild k.proc p (record (k.proc p) { killed = true })
        (record {
          pid = refl;
          parent = refl;
          pagetable = refl;
          trapframe = refl;
          closed = λ c. record { files = c.files; cwd = c.cwd };
          unused = refl;
          live = refl;
          zombie = refl;
          waits = λ w. record { state = w.state; chan = w.chan };
        }))

  pub kkill-IsOk : (pid : ℕ) → IsOk (kkill pid k).1
  unfolding kkill
  kkill-IsOk pid = elim (first_from-cases (λ p. p.pid == pid) k.proc nproc 0) [
    | inl (i, e, _, _, _, _) ↦
        rw (e, kkill)
          (changed (update k.proc i (struck (k.proc i)))
            (update-Mild k.proc i (struck (k.proc i)) (struck-Mild i (k.proc i))))
    | inr (e, _) ↦ rw (e, kkill) v
  ]

-- The loop of `kexit` closes the files from fd on, and none before.
module _ {M : Type 0} (s : Services M) where
  close_files-before :
      (left fd i : ℕ) (files : ℕ → ℕ) (m : M)
      → files i ≡ 0
      → (close_files s left fd files m).0 i ≡ 0
  unfolding close_files
  close_files-before zero fd i files m h = h
  close_files-before (suc left) fd i files m h = elim (Bool-cases (files fd == 0)) [
    | inl t ↦ rw t (close_files-before left (fd + 1) i files m h)
    | inr t ↦ rw t (
        close_files-before left (fd + 1) i (update files fd 0) (s.fileclose (files fd) m)
          (elim (update_cases files fd 0 i) [ inl (e, u) ↦ u | inr (n, u) ↦ u ∙ h ]))
  ]

  close_files-zero :
      (left fd i : ℕ) (files : ℕ → ℕ) (m : M)
      → fd ≤ i
      → i < fd + left
      → (close_files s left fd files m).0 i ≡ 0
  unfolding close_files
  close_files-zero zero fd i files m a b = absurd (omega (arith, a, b))
  close_files-zero (suc left) fd i files m a b = elim (ℕ_discrete i fd) [
    | yes e ↦ elim (Bool-cases (files fd == 0)) [
      | inl t ↦
          let z : files i ≡ 0 = ap files e ∙ ground (arith, t) in
          rw t (close_files-before left (fd + 1) i files m z)
      | inr t ↦ rw t (
          close_files-before left (fd + 1) i (update files fd 0) (s.fileclose (files fd) m)
            (ap (update files fd 0) e ∙ update_self files fd 0))
    ]
    | no n ↦ elim (Bool-cases (files fd == 0)) [
      | inl t ↦
          rw t (close_files-zero left (fd + 1) i files m (omega (arith, a, n)) (omega (arith, b)))
      | inr t ↦ rw t (
          close_files-zero left (fd + 1) i (update files fd 0) (s.fileclose (files fd) m)
            (omega (arith, a, n)) (omega (arith, b)))
    ]
  ]

  module _ (k : Kernel M) (v : IsOk k) (p status : ℕ) (here : IsLive (k.proc p)) where
    emptied : Proc
    emptied = record (k.proc p) {
      ofile = (close_files s nofile 0 (k.proc p).ofile k.rest).0;
      cwd = 0;
    }

    emptied-Closed : Closed emptied
    unfolding emptied
    emptied-Closed = record {
      files = λ fd h.
          close_files-zero nofile 0 fd (k.proc p).ofile k.rest (omega arith) (omega (arith, h));
      cwd = refl;
    }

    emptied-Mild : Mild p (k.proc p) emptied
    unfolding emptied
    emptied-Mild = record {
      pid = refl;
      parent = refl;
      pagetable = refl;
      trapframe = refl;
      closed = λ c. record { files = emptied-Closed.files; cwd = refl };
      unused = refl;
      live = refl;
      zombie = refl;
      waits = λ w. record { state = w.state; chan = w.chan };
    }

    close_all-Inv : Inv (update k.proc p emptied) k.nextpid k.initproc
    close_all-Inv =
        changed k v (update k.proc p emptied) (update-Mild k.proc p emptied emptied-Mild)

    exited : Kernel M
    exited = record (close_all s p k) { proc = leave p k.initproc (close_all s p k).proc status }

    kexit-exited : p ≢ k.initproc → kexit s p status k ≡ some exited
    unfolding kexit exited
    kexit-exited n = rw (==_of_ne p k.initproc n) refl

    exited-IsOk : p ≢ k.initproc → IsOk exited
    unfolding exited close_all emptied
    exited-IsOk n =
        leave_keeps (update k.proc p emptied) k.nextpid k.initproc p status close_all-Inv
          (subst IsLive (sym (update_self k.proc p emptied)) here) (λ e. n (sym e))
          (subst Closed (sym (update_self k.proc p emptied)) emptied-Closed)

    not_init : (k' : Kernel M) → kexit s p status k ≡ some k' → p ≢ k.initproc
    unfolding kexit
    not_init k' e q =
        let t : (p == k.initproc) ≡ true = ground (arith, q) in
        let n : kexit s p status k ≡ none = rw t refl in cc (e, n)

    pub kexit-IsOk : (k' : Kernel M) → kexit s p status k ≡ some k' → IsOk k'
    kexit-IsOk k' e =
        let n = not_init k' e in subst IsOk (some_inj (sym (kexit-exited n) ∙ e)) (exited-IsOk n)
