-- ===== src/Procs/Orphans.antt =====
-- reparent and kexit: the children of a process that exits go to init.
use eafitos.Base.{
  ℕ, zero, suc, ◌+◌, ◌≤◌, ◌<◌, ◌≡◌, ◌≢◌, refl, sym, ap, ◌∙◌, subst, true, false, Option, none, some,
  arith, ==_refl, ==_of_ne, if◌then◌else◌, Bool-cases, inl, inr, ℕ_discrete, update, update_self,
  update_ne, update_cases,
}
use eafitos.Procs.{nproc, is_unused, is_zombie, proc_chan, Proc, wakeup}
use eafitos.Procs.Ops.{is_parent, reparent_from}
use eafitos.Procs.Inv.{is_live, Closed, Waits, Mild, Mild-refl, Mild-trans}
use eafitos.Procs.Change.{some_inj}
use eafitos.Procs.Wakeups.{wakeup-Mild, wakeup-told}

pub is_parent-true : (o : Option ℕ) (p : ℕ) → is_parent o p ≡ true → o ≡ some p
is_parent-true none p h = cc h
is_parent-true (some q) p h = let e : q ≡ p = ground (arith, h) in ap some e

pub is_parent-false : (o : Option ℕ) (p : ℕ) → is_parent o p ≡ false → o ≢ some p
is_parent-false o p h e = cc (sym (ap (λ x. is_parent x p) e ∙ ==_refl p) ∙ h)

abbrev pub to_init : ℕ → Proc → Proc
to_init init x = record x { parent = some init }

-- Entry j keeps its parent, or goes from p to init; otherwise it may only be woken.
pub data Adopted (p init j : ℕ) (x y : Proc) : Type 0 where
  kept : Mild j x y → Adopted p init j x y
  moved : x.parent ≡ some p → Mild j (to_init init x) y → Adopted p init j x y

to_init-Mild : (init j : ℕ) (x y : Proc) → Mild j x y → Mild j (to_init init x) (to_init init y)
to_init-Mild init j x y m = record {
  pid = m.pid;
  parent = refl;
  pagetable = m.pagetable;
  trapframe = m.trapframe;
  closed = λ c.
      let d = m.closed (record { files = c.files; cwd = c.cwd }) in
      record { files = d.files; cwd = d.cwd };
  unused = m.unused;
  live = m.live;
  zombie = m.zombie;
  waits = λ w.
      let u = m.waits (record { state = w.state; chan = w.chan }) in
      record { state = u.state; chan = u.chan };
}

-- What does not change when init becomes the parent.
pub record Alike (j : ℕ) (x y : Proc) : Type 0 where
  pub pid : y.pid ≡ x.pid
  pub closed : Closed x → Closed y
  pub pagetable : y.pagetable ≡ x.pagetable
  pub trapframe : y.trapframe ≡ x.trapframe
  pub unused : is_unused y.state ≡ is_unused x.state
  pub live : is_live y.state ≡ is_live x.state
  pub zombie : is_zombie y.state ≡ is_zombie x.state
  pub waits : Waits j y → Waits j x

module _ (p init : ℕ) (other : init ≢ p) where
  pub Adopted-Alike : (j : ℕ) (x y : Proc) → Adopted p init j x y → Alike j x y
  Adopted-Alike j x y (kept m) = record {
    pid = m.pid;
    closed = m.closed;
    pagetable = m.pagetable;
    trapframe = m.trapframe;
    unused = m.unused;
    live = m.live;
    zombie = m.zombie;
    waits = m.waits;
  }
  Adopted-Alike j x y (moved e m) = record {
    pid = m.pid;
    closed = λ c. m.closed (record { files = c.files; cwd = c.cwd });
    pagetable = m.pagetable;
    trapframe = m.trapframe;
    unused = m.unused;
    live = m.live;
    zombie = m.zombie;
    waits = λ w. let u = m.waits w in record { state = u.state; chan = u.chan };
  }

  pub Adopted-trans :
      (j : ℕ) (x y z : Proc) → Adopted p init j x y → Adopted p init j y z → Adopted p init j x z
  Adopted-trans j x y z (kept m) (kept n) = kept (Mild-trans j x y z m n)
  Adopted-trans j x y z (kept m) (moved e n) =
      moved (sym m.parent ∙ e)
        (Mild-trans j (to_init init x) (to_init init y) z (to_init-Mild init j x y m) n)
  Adopted-trans j x y z (moved e m) (kept n) = moved e (Mild-trans j (to_init init x) y z m n)
  Adopted-trans j x y z (moved e m) (moved f n) = absurd (other (some_inj (sym m.parent ∙ f)))

  -- An entry whose parent is not p keeps its parent.
  pub Adopted-clean :
      (j : ℕ) (x y : Proc) → Adopted p init j x y → x.parent ≢ some p → y.parent ≡ x.parent
  Adopted-clean j x y (kept m) h = m.parent
  Adopted-clean j x y (moved e m) h = absurd (h e)

  abbrev one_adopted : ℕ → (ℕ → Proc) → ℕ → Proc
  one_adopted pp proc =
      if is_parent (proc pp).parent p
      then wakeup (some p) (proc_chan init)
          (update proc pp (record (proc pp) { parent = some init }))
      else proc

  one-Adopted : (pp j : ℕ) (proc : ℕ → Proc) → Adopted p init j (proc j) (one_adopted pp proc j)
  one-Adopted pp j proc = elim (Bool-cases (is_parent (proc pp).parent p)) [
    | inr t ↦ rw t (kept (Mild-refl j (proc j)))
    | inl t ↦
        let to = update proc pp (to_init init (proc pp)) in
        let m = wakeup-Mild (some p) (proc_chan init) to j in
        rw t (elim (update_cases proc pp (to_init init (proc pp)) j) [
          | inl (e, u) ↦ moved (ap (λ x. (proc x).parent) e ∙ is_parent-true (proc pp).parent p t) (
              subst (λ x. Mild j x (wakeup (some p) (proc_chan init) to j))
                (u ∙ ap (λ x. to_init init (proc x)) (sym e)) m)
          | inr (n, u) ↦ kept (subst (λ x. Mild j x (wakeup (some p) (proc_chan init) to j)) u m)
        ])
  ]

  -- The child has another parent afterwards.
  one_clean : (pp : ℕ) (proc : ℕ → Proc) → (one_adopted pp proc pp).parent ≢ some p
  one_clean pp proc f = elim (Bool-cases (is_parent (proc pp).parent p)) [
    | inr t ↦ is_parent-false (proc pp).parent p t (sym (rw t refl) ∙ f)
    | inl t ↦
        let to = update proc pp (to_init init (proc pp)) in
        let m = wakeup-Mild (some p) (proc_chan init) to pp in
        let e : (one_adopted pp proc pp).parent ≡ (wakeup (some p) (proc_chan init) to pp).parent =
          rw t refl in
        other (
          some_inj (
            sym (m.parent ∙ ap (λ x. x.parent) (update_self proc pp (to_init init (proc pp))))
            ∙ sym e
            ∙ f))
  ]

  one_ne : (pp j : ℕ) (proc : ℕ → Proc) → j ≢ pp → (one_adopted pp proc j).parent ≡ (proc j).parent
  one_ne pp j proc n = elim (Bool-cases (is_parent (proc pp).parent p)) [
    | inr t ↦ rw t refl
    | inl t ↦
        let to = update proc pp (to_init init (proc pp)) in
        let m = wakeup-Mild (some p) (proc_chan init) to j in
        rw t (m.parent ∙ ap (λ x. x.parent) (update_ne proc pp (to_init init (proc pp)) j n))
  ]

  one_told :
      (pp : ℕ) (proc : ℕ → Proc)
      → init < nproc
      → (proc pp).parent ≡ some p
      → ¬ (Waits init (one_adopted pp proc init))
  one_told pp proc h e w =
      let t : is_parent (proc pp).parent p ≡ true = ap (λ x. is_parent x p) e ∙ ==_refl p in
      let to = update proc pp (to_init init (proc pp)) in
      let q : one_adopted pp proc init ≡ wakeup (some p) (proc_chan init) to init = rw t refl in
      wakeup-told (some p) to init h (==_of_ne init p other) (subst (Waits init) q w)

  pub reparent_from-Adopted :
      (left pp j : ℕ) (proc : ℕ → Proc)
      → Adopted p init j (proc j) (reparent_from p init left pp proc j)
  unfolding reparent_from
  reparent_from-Adopted zero pp j proc = kept (Mild-refl j (proc j))
  reparent_from-Adopted (suc left) pp j proc =
      Adopted-trans j (proc j) (one_adopted pp proc j) _ (one-Adopted pp j proc)
        (reparent_from-Adopted left (pp + 1) j (one_adopted pp proc))

  pub reparent_from-clean :
      (left pp j : ℕ) (proc : ℕ → Proc)
      → pp ≤ j
      → j < pp + left
      → (reparent_from p init left pp proc j).parent ≢ some p
  unfolding reparent_from
  reparent_from-clean zero pp j proc a b = absurd (omega (arith, a, b))
  reparent_from-clean (suc left) pp j proc a b = elim (ℕ_discrete j pp) [
    | yes e ↦ λ f.
        let c = subst (λ x. (one_adopted pp proc x).parent ≢ some p) (sym e) (one_clean pp proc) in
        let r = reparent_from-Adopted left (pp + 1) j (one_adopted pp proc) in
        c (sym (Adopted-clean j (one_adopted pp proc j) _ r c) ∙ f)
    | no n ↦
        reparent_from-clean left (pp + 1) j (one_adopted pp proc) (omega (arith, a, n))
          (omega (arith, b))
  ]

  pub reparent_from-told :
      (left pp j : ℕ) (proc : ℕ → Proc)
      → init < nproc
      → pp ≤ j
      → j < pp + left
      → (proc j).parent ≡ some p
      → ¬ (Waits init (reparent_from p init left pp proc init))
  unfolding reparent_from
  reparent_from-told zero pp j proc h a b e w = absurd (omega (arith, a, b))
  reparent_from-told (suc left) pp j proc h a b e w = elim (ℕ_discrete j pp) [
    | yes q ↦ one_told pp proc h (ap (λ x. (proc x).parent) (sym q) ∙ e) (
        (Adopted-Alike init (one_adopted pp proc init) _
            (reparent_from-Adopted left (pp + 1) init (one_adopted pp proc))).waits
          w)
    | no n ↦
        reparent_from-told left (pp + 1) j (one_adopted pp proc) h (omega (arith, a, n))
          (omega (arith, b)) (one_ne pp j proc n ∙ e) w
  ]
