-- ===== src/Procs/Wakeups.antt =====
-- Wakeups change no entry but for waking it.
use eafitos.Base.{
  ℕ, ◌<◌, ◌≡◌, refl, sym, ap, subst, Bool, true, false, ◌&&◌, Option, arith, ==_refl, Bool-cases,
  inl, inr, dec_lt,
}
use eafitos.Procs.{
  nproc, ProcState, unused, used, sleeping, runnable, running, zombie, is_unused, is_sleeping,
  is_zombie, Chan, proc_chan, chan_eq, Proc, woken, is_me, wakeup,
}
use eafitos.Procs.Loops.{wakes, wakeup-inside, wakeup-outside}
use eafitos.Procs.Inv.{is_live, Mild, Mild-refl, Waits}

pub is_sleeping-sleeping : (s : ProcState) → is_sleeping s ≡ true → s ≡ sleeping
is_sleeping-sleeping unused h = cc h
is_sleeping-sleeping used h = cc h
is_sleeping-sleeping sleeping h = refl
is_sleeping-sleeping runnable h = cc h
is_sleeping-sleeping running h = cc h
is_sleeping-sleeping zombie h = cc h

pub and_true : (a b : Bool) → (a && b) ≡ true → (a ≡ true) × (b ≡ true)
and_true true b h = (refl, h)
and_true false b h = cc h

-- From asleep to runnable.
pub roused-Mild : (i : ℕ) (p : Proc) → p.state ≡ sleeping → Mild i p (record p { state = runnable })
roused-Mild i p e = record {
  pid = refl;
  parent = refl;
  pagetable = refl;
  trapframe = refl;
  closed = λ c. record { files = c.files; cwd = c.cwd };
  unused = ap is_unused (sym e);
  live = ap is_live (sym e);
  zombie = ap is_zombie (sym e);
  waits = λ w. cc (w.state);
}

pub woken-Mild : (i : ℕ) (chan : Chan) (p : Proc) → Mild i p (woken chan p)
woken-Mild i chan p = elim (Bool-cases (is_sleeping p.state && chan_eq p.chan chan)) [
  | inl t ↦
      rw t (roused-Mild i p (is_sleeping-sleeping p.state (and_true _ (chan_eq p.chan chan) t).0))
  | inr t ↦ rw t (Mild-refl i p)
]

pub wakeup-Mild :
    (me : Option ℕ) (chan : Chan) (proc : ℕ → Proc) (j : ℕ)
    → Mild j (proc j) (wakeup me chan proc j)
wakeup-Mild me chan proc j = elim (dec_lt j nproc) [
  | yes y ↦
      subst (Mild j (proc j)) (sym (wakeup-inside me chan proc j y))
        (elim (Bool-cases (is_me me j)) [
          | inl t ↦ rw t (Mild-refl j (proc j))
          | inr t ↦ rw t (woken-Mild j chan (proc j))
        ])
  | no n ↦
      subst (Mild j (proc j)) (sym (wakeup-outside me chan proc j (omega (arith, n))))
        (Mild-refl j (proc j))
]

woken-told : (q : ℕ) (p : Proc) → Waits q p → (woken (proc_chan q) p).state ≡ runnable
woken-told q p w =
    let t : (is_sleeping p.state && chan_eq p.chan (proc_chan q)) ≡ true =
      rw w.state (rw w.chan (==_refl q)) in
    rw t refl

-- After a wakeup on a process, that process does not sleep in `kwait`.
pub wakeup-told :
    (me : Option ℕ) (proc : ℕ → Proc) (q : ℕ)
    → q < nproc
    → is_me me q ≡ false
    → ¬ (Waits q (wakeup me (proc_chan q) proc q))
wakeup-told me proc q h n w =
    let m = wakeup-Mild me (proc_chan q) proc q in
    let s = wakeup-inside me (proc_chan q) proc q h in
    let r : (wakes me (proc_chan q) q (proc q)).state ≡ runnable =
      rw n (woken-told q (proc q) (m.waits w)) in
    cc (w.state, ap (λ p. p.state) s, r)
