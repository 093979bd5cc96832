-- ===== src/Procs/Exit.antt =====
-- kexit: the table after a process has left.
use eafitos.Base.{
  ℕ, ◌<◌, ◌≡◌, ◌≢◌, sym, ap, ◌∙◌, subst, true, false, none, some, arith, ==_of_ne, Bool-cases, inl,
  inr, ℕ_discrete, update, update_self, update_ne,
}
use eafitos.Procs.{nproc, zombie, is_unused, is_zombie, Proc, wakeup}
use eafitos.Procs.Ops.{parent_chan, reparent, leave}
use eafitos.Procs.Inv.{is_live, InUse, IsLive, Closed, Blank, Waits, Inv, Mild}
use eafitos.Procs.Change.{some_inj, live-in_use}
use eafitos.Procs.Wakeups.{wakeup-Mild, wakeup-told}
use eafitos.Procs.Orphans.{
  Adopted, kept, moved, Alike, Adopted-Alike, Adopted-trans, Adopted-clean, reparent_from-Adopted,
  reparent_from-clean, reparent_from-told,
}

-- A process that has closed its files leaves: the invariant holds with it as a zombie.
module _ (proc : ℕ → Proc) (nextpid init p status : ℕ) (v : Inv proc nextpid init)
    (here : IsLive (proc p)) (other : init ≢ p) (closed : Closed (proc p)) where
  orphaned : ℕ → Proc
  orphaned = reparent p init proc

  told : ℕ → Proc
  told = wakeup (some p) (parent_chan (orphaned p).parent) orphaned

  gone : Proc
  gone = record (told p) { xstate = status; state = zombie }

  orphaned-Adopted : (j : ℕ) → Adopted p init j (proc j) (orphaned j)
  unfolding orphaned reparent
  orphaned-Adopted j = reparent_from-Adopted p init other nproc 0 j proc

  told-Mild : (j : ℕ) → Mild j (orphaned j) (told j)
  unfolding told
  told-Mild j = wakeup-Mild (some p) (parent_chan (orphaned p).parent) orphaned j

  told-Adopted : (j : ℕ) → Adopted p init j (proc j) (told j)
  told-Adopted j =
      Adopted-trans p init other j (proc j) (orphaned j) (told j) (orphaned-Adopted j)
        (kept (told-Mild j))

  alike : (j : ℕ) → Alike j (proc j) (told j)
  alike j = Adopted-Alike p init other j (proc j) (told j) (told-Adopted j)

  child_inside : (j q : ℕ) → (proc j).parent ≡ some q → j < nproc
  child_inside j q e = elim (Bool-cases (is_unused (proc j).state)) [
    | inl t ↦ absurd (cc (e, (v.blank j t).parent))
    | inr t ↦ v.inside j t
  ]

  no_orphan : (j : ℕ) → (told j).parent ≢ some p
  unfolding orphaned reparent
  no_orphan j e = elim (told-Adopted j) [
    | kept m ↦
        reparent_from-clean p init other nproc 0 j proc (omega arith)
          (omega (arith, child_inside j p (sym m.parent ∙ e))) (sym (told-Mild j).parent ∙ e)
    | moved f m ↦ other (some_inj (sym m.parent ∙ e))
  ]

  -- The parent of p is not asleep in `kwait` any more.
  parent_told : (q : ℕ) → (told p).parent ≡ some q → ¬ (Waits q (told q))
  unfolding told
  parent_told q e w =
      let f : (orphaned p).parent ≡ some q = sym (told-Mild p).parent ∙ e in
      let q_p : q ≢ p = λ g. no_orphan p (e ∙ ap some g) in
      let live : InUse (proc q) = sym (alike q).unused ∙ ap is_unused w.state in
      wakeup-told (some p) orphaned q (v.inside q live) (==_of_ne q p q_p)
        (subst (λ o. Waits q (wakeup (some p) (parent_chan o) orphaned q)) f w)

  init_told : (c : ℕ) → (proc c).parent ≡ some p → ¬ (Waits init (told init))
  unfolding orphaned reparent
  init_told c f w =
      reparent_from-told p init other nproc 0 c proc
        (v.inside init (live-in_use (proc init).state v.init_live)) (omega arith)
        (omega (arith, child_inside c p f)) f ((told-Mild init).waits w)

  told-Inv : Inv told nextpid init
  told-Inv = record {
    pids = v.pids;
    inside = λ j u. v.inside j (sym (alike j).unused ∙ u);
    blank = λ j u.
        let b = v.blank j (sym (alike j).unused ∙ u) in
        record {
          pid = (alike j).pid ∙ b.pid;
          parent =
              Adopted-clean p init other j (proc j) (told j) (told-Adopted j)
                (λ e. cc (e, b.parent))
              ∙ b.parent;
          pagetable = (alike j).pagetable ∙ b.pagetable;
          trapframe = (alike j).trapframe ∙ b.trapframe;
          closed = (alike j).closed b.closed;
        };
    closed = λ j l. (alike j).closed (v.closed j (sym (alike j).live ∙ l));
    pid_low =
        λ j u. subst (λ x. 0 < x) (sym (alike j).pid) (v.pid_low j (sym (alike j).unused ∙ u));
    pid_high = λ j u.
        subst (λ x. x < nextpid) (sym (alike j).pid) (v.pid_high j (sym (alike j).unused ∙ u));
    distinct = λ j k u w e.
        v.distinct j k (sym (alike j).unused ∙ u) (sym (alike k).unused ∙ w)
          (sym (alike j).pid ∙ e ∙ (alike k).pid);
    parent_live = λ j q e. (alike q).live ∙ elim (told-Adopted j) [
      | kept m ↦ v.parent_live j q (sym m.parent ∙ e)
      | moved f m ↦ subst (λ x. IsLive (proc x)) (some_inj (sym m.parent ∙ e)) v.init_live
    ];
    has_parent = λ j u ne e. elim (told-Adopted j) [
      | kept m ↦ v.has_parent j (sym (alike j).unused ∙ u) ne (sym m.parent ∙ e)
      | moved f m ↦ cc (e, m.parent)
    ];
    init_live = (alike init).live ∙ v.init_live;
    told = λ q c w e. (alike c).zombie ∙ elim (told-Adopted c) [
      | kept m ↦ v.told q c ((alike q).waits w) (sym m.parent ∙ e)
      | moved f m ↦
          absurd
            (init_told c f (subst (λ x. Waits x (told x)) (sym (some_inj (sym m.parent ∙ e))) w))
    ];
  }

  gone-Closed : Closed (told p)
  gone-Closed = (alike p).closed closed

  -- Entry j after `kexit`.
  left : ℕ → Proc
  left = update told p gone

  left_ne : (j : ℕ) → j ≢ p → left j ≡ told j
  unfolding left
  left_ne j n = update_ne told p gone j n

  left_self : left p ≡ gone
  unfolding left
  left_self = update_self told p gone

  there : (P : Proc → Type 0) (j : ℕ) → j ≢ p → P (told j) → P (left j)
  there P j n = subst P (sym (left_ne j n))

  back : (P : Proc → Type 0) (j : ℕ) → j ≢ p → P (left j) → P (told j)
  back P j n = subst P (left_ne j n)

  both :
      (P : ℕ → Proc → Type 0) → P p gone → ((j : ℕ) → j ≢ p → P j (left j)) → (j : ℕ) → P j (left j)
  both P own others j = elim (ℕ_discrete j p) [
    | yes e ↦ subst (λ x. P x (left x)) (sym e) (subst (P p) (sym left_self) own)
    | no n ↦ others j n
  ]

  -- Apart from its state, the zombie is what it was.
  as_before : (P : Proc → Type 0) (j : ℕ) → (P (told p) → P gone) → P (told j) → P (left j)
  as_before P j f h = elim (ℕ_discrete j p) [
    | yes e ↦
        subst (λ x. P (left x)) (sym e) (subst P (sym left_self) (f (subst (λ x. P (told x)) e h)))
    | no n ↦ there P j n h
  ]

  was : (P : Proc → Type 0) (j : ℕ) → (P gone → P (told p)) → P (left j) → P (told j)
  was P j f h = elim (ℕ_discrete j p) [
    | yes e ↦ subst (λ x. P (told x)) (sym e) (f (subst P left_self (subst (λ x. P (left x)) e h)))
    | no n ↦ back P j n h
  ]

  here_told : InUse (told p)
  here_told = live-in_use (told p).state ((alike p).live ∙ here)

  in_use : (j : ℕ) → InUse (left j) → InUse (told j)
  unfolding gone
  in_use j u = was InUse j (λ h. here_told) u

  parent_of : (j q : ℕ) → (left j).parent ≡ some q → (told j).parent ≡ some q
  unfolding gone
  parent_of j q e = was (λ x. x.parent ≡ some q) j (λ h. h) e

  not_p : (j q : ℕ) → (left j).parent ≡ some q → q ≢ p
  not_p j q e g = no_orphan j (parent_of j q e ∙ ap some g)

  leave-Inv : Inv left nextpid init
  unfolding gone
  leave-Inv =
      let v' = told-Inv in
      record {
        pids = v'.pids;
        inside = λ j u. v'.inside j (in_use j u);
        blank =
            both (λ j x. is_unused x.state ≡ true → Blank x) (λ u. cc u)
              (λ j n u. there Blank j n (v'.blank j (back (λ x. is_unused x.state ≡ true) j n u)));
        closed =
            both (λ j x. is_live x.state ≡ false → Closed x)
              (λ l. record { files = gone-Closed.files; cwd = gone-Closed.cwd })
              (λ j n l. there Closed j n (v'.closed j (back (λ x. is_live x.state ≡ false) j n l)));
        pid_low = λ j u. as_before (λ x. 0 < x.pid) j (λ h. h) (v'.pid_low j (in_use j u));
        pid_high = λ j u. as_before (λ x. x.pid < nextpid) j (λ h. h) (v'.pid_high j (in_use j u));
        distinct = λ j k u w e. v'.distinct j k (in_use j u) (in_use k w) (
            was (λ x. x.pid ≡ (told k).pid) j (λ h. h)
              (sym (was (λ x. x.pid ≡ (left j).pid) k (λ h. h) (sym e))));
        parent_live = λ j q e. there IsLive q (not_p j q e) (v'.parent_live j q (parent_of j q e));
        has_parent =
            λ j u ne e. v'.has_parent j (in_use j u) ne (was (λ x. x.parent ≡ none) j (λ h. h) e);
        init_live = there IsLive init other v'.init_live;
        told = λ q c w e.
            let q_p = not_p c q e in
            let awake = back (Waits q) q q_p w in
            both (λ j x. x.parent ≡ some q → is_zombie x.state ≡ false)
              (λ f. absurd (parent_told q f awake))
              (λ j n f.
                there (λ x. is_zombie x.state ≡ false) j n
                  (v'.told q j awake (back (λ x. x.parent ≡ some q) j n f)))
              c e;
      }

  -- The theorem about `leave` itself.
  pub leave_keeps : Inv (leave p init proc status) nextpid init
  unfolding leave left gone told orphaned
  leave_keeps = leave-Inv
