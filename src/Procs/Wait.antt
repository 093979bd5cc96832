-- ===== src/Procs/Wait.antt =====
-- kwait: what one round finds and does.
use eafitos.Base.{
  ℕ, zero, suc, ◌+◌, ◌≤◌, ◌<◌, ◌≡◌, ◌≢◌, refl, sym, ap, ◌∙◌, subst, Bool, true, false, not, ◌&&◌,
  ◌||◌, none, some, arith, ◌==◌, ==_refl, Bool-cases, inl, inr, ◌⊎◌, ℕ_discrete, update,
  update_self, update_ne, update_cases,
}
use eafitos.Procs.{
  nproc, ProcState, running, is_unused, is_zombie, proc_chan, Proc, Services, Kernel,
}
use eafitos.Procs.Ops.{
  is_parent, freed, freeproc, scan_from, Waited, pid_of, failed, waits, asleep_on, sleep, reap,
  kwait,
}
use eafitos.Procs.Inv.{is_live, Blank, Waits, Still, Inv-Still}
use eafitos.Procs.Change.{Inv-freed, live-not-zombie}
use eafitos.Procs.Wakeups.{and_true}
use eafitos.Procs.Alloc.{freed-Blank}
use eafitos.Procs.Orphans.{is_parent-true, is_parent-false}
use eafitos.Procs.Keep.{IsOk}

or_false : (a b : Bool) → (a || b) ≡ false → (a ≡ false) × (b ≡ false)
or_false true b h = cc h
or_false false b h = (refl, h)

-- The scan finds a zombie child, or sees every entry and tells whether there is a child.
scan_from-cases :
    (p : ℕ) (proc : ℕ → Proc) (left pp : ℕ) (havekids : Bool)
    → ((c : ℕ) × ((scan_from p proc left pp havekids).0 ≡ some c)
        × ((proc c).parent ≡ some p)
        × (is_zombie (proc c).state ≡ true))
      ⊎ (((scan_from p proc left pp havekids).0 ≡ none)
          × ((j : ℕ)
              → pp ≤ j
              → j < pp + left
              → (proc j).parent ≡ some p
              → is_zombie (proc j).state ≡ false)
          × ((scan_from p proc left pp havekids).1 ≡ false
              → (havekids ≡ false) × ((j : ℕ) → pp ≤ j → j < pp + left → (proc j).parent ≢ some p)))
unfolding scan_from
scan_from-cases p proc zero pp havekids =
    inr (
      refl,
      (λ j a b. absurd (omega (arith, a, b))),
      λ h. (h, λ j a b. absurd (omega (arith, a, b))),
    )
scan_from-cases p proc (suc left) pp havekids =
    elim (Bool-cases (is_parent (proc pp).parent p && is_zombie (proc pp).state)) [
      | inl t ↦
          let (a, b) = and_true (is_parent (proc pp).parent p) (is_zombie (proc pp).state) t in
          inl (pp, rw t refl, is_parent-true (proc pp).parent p a, b)
      | inr t ↦
          elim (scan_from-cases p proc left (pp + 1) (is_parent (proc pp).parent p || havekids)) [
            | inl (c, e, f, g) ↦ inl (c, rw t e, f, g)
            | inr (e, all, h) ↦ inr (
              rw t e,
              (λ j a b f. elim (ℕ_discrete j pp) [
                | yes q ↦
                    subst (λ x. is_zombie (proc x).state ≡ false) (sym q)
                      (and_false (ap (λ x. (proc x).parent) (sym q) ∙ f) t)
                | no n ↦ all j (omega (arith, a, n)) (omega (arith, b)) f
              ]),
              λ q.
                  let (o, none_later) = h (rw t at q) in
                  let (o1, o2) = or_false (is_parent (proc pp).parent p) havekids o in
                  (
                    o2,
                    λ j a b f. elim (ℕ_discrete j pp) [
                      | yes q ↦
                          is_parent-false (proc pp).parent p o1
                            (ap (λ x. (proc x).parent) (sym q) ∙ f)
                      | no n ↦ none_later j (omega (arith, a, n)) (omega (arith, b)) f
                    ],
                  ),
            )
          ]
    ]
  where
    and_false :
        (proc pp).parent ≡ some p
        → (is_parent (proc pp).parent p && is_zombie (proc pp).state) ≡ false
        → is_zombie (proc pp).state ≡ false
    and_false f t =
        let a : is_parent (proc pp).parent p ≡ true = ap (λ x. is_parent x p) f ∙ ==_refl p in
        rw a at t

-- How a round of `kwait` by p ends. A child is reaped, or there is none to reap.
pub data WaitEnds {M : Type 0} (p : ℕ) (k : Kernel M) : Waited → (ℕ → Proc) → Type 0 where
  reaped :
      {w : Waited} {proc : ℕ → Proc}
      → (c : ℕ) → (k.proc c).parent ≡ some p
      → is_zombie (k.proc c).state ≡ true
      → w ≡ pid_of (k.proc c).pid
      → is_unused (proc c).state ≡ true
      → ((j : ℕ) → j ≢ c → proc j ≡ k.proc j)
      → WaitEnds p k w proc
  not_copied :
      {w : Waited} {proc : ℕ → Proc}
      → (c : ℕ) → (k.proc c).parent ≡ some p
      → is_zombie (k.proc c).state ≡ true
      → w ≡ failed
      → proc ≡ k.proc
      → WaitEnds p k w proc
  refused :
      {w : Waited} {proc : ℕ → Proc}
      → ((j : ℕ) → (k.proc j).parent ≡ some p → is_zombie (k.proc j).state ≡ false)
      → ((k.proc p).killed ≡ true) ⊎ ((j : ℕ) → (k.proc j).parent ≢ some p)
      → w ≡ failed
      → proc ≡ k.proc
      → WaitEnds p k w proc
  slept :
      {w : Waited} {proc : ℕ → Proc}
      → ((j : ℕ) → (k.proc j).parent ≡ some p → is_zombie (k.proc j).state ≡ false)
      → (k.proc p).killed ≡ false
      → w ≡ waits
      → proc ≡ update k.proc p (asleep_on (proc_chan p) (k.proc p))
      → WaitEnds p k w proc

module _ {M : Type 0} (s : Services M) (k : Kernel M) (v : IsOk k) (p addr : ℕ)
    (here : (k.proc p).state ≡ running) where
  abbrev Result : Waited × Kernel M → Type 0
  Result r = IsOk r.1 × WaitEnds p k r.0 r.1.proc

  zombie-not-live : (st : ProcState) → is_zombie st ≡ true → is_live st ≡ false
  zombie-not-live st h = elim (Bool-cases (is_live st)) [
    | inl l ↦ cc (live-not-zombie st l, h)
    | inr l ↦ l
  ]

  reap_one :
      (m : M) (c : ℕ)
      → (k.proc c).parent ≡ some p
      → is_zombie (k.proc c).state ≡ true
      → Result (pid_of (k.proc c).pid, freeproc s c (record k { rest = m }))
  unfolding freeproc
  reap_one m c f z =
      let dead = zombie-not-live (k.proc c).state z in
      let e = update_self k.proc c (freed (k.proc c)) in
      let free = subst (λ (x : Proc). is_unused x.state ≡ true) (sym e) refl in
      (
        Inv-freed k.proc (update k.proc c (freed (k.proc c))) k.nextpid k.initproc c v dead
            (update_ne k.proc c (freed (k.proc c))) free
            (subst Blank (sym e) (freed-Blank (k.proc c) (v.closed c dead))),
        reaped c f z refl free (update_ne k.proc c (freed (k.proc c))),
      )

  reap_lem :
      (c : ℕ)
      → (k.proc c).parent ≡ some p
      → is_zombie (k.proc c).state ≡ true
      → Result (reap s p addr c k)
  unfolding reap
  reap_lem c f z = elim (Bool-cases (addr == 0)) [
    | inl t ↦ rw t (reap_one k.rest c f z)
    | inr t ↦
        let out = s.copyout (k.proc p).pagetable addr (k.proc c).xstate k.rest in
        rw t (elim (Bool-cases out.0) [
          | inl o ↦ rw o (reap_one out.1 c f z)
          | inr o ↦ rw o (v, not_copied c f z refl refl)
        ])
  ]

  -- Nobody sleeps in wait while a child of theirs is a zombie: p may go to sleep.
  wait-IsOk :
      ((j : ℕ) → (k.proc j).parent ≡ some p → is_zombie (k.proc j).state ≡ false)
      → IsOk (sleep p (proc_chan p) k)
  unfolding sleep
  wait-IsOk none_gone = Inv-Still k.proc slept k.nextpid k.initproc still told v
    where
      slept : ℕ → Proc
      slept = update k.proc p (asleep_on (proc_chan p) (k.proc p))

      still : (j : ℕ) → Still (k.proc j) (slept j)
      still j = elim (update_cases k.proc p (asleep_on (proc_chan p) (k.proc p)) j) [
        | inl (e, u) ↦
            subst (λ x. Still x (slept j)) (ap k.proc (sym e))
              (subst (Still (k.proc p)) (sym u) (record {
                pid = refl;
                parent = refl;
                pagetable = refl;
                trapframe = refl;
                closed = λ c. record { files = c.files; cwd = c.cwd };
                unused = ap is_unused (sym here);
                live = ap is_live (sym here);
              }))
        | inr (n, u) ↦ subst (Still (k.proc j)) (sym u) (record {
          pid = refl;
          parent = refl;
          pagetable = refl;
          trapframe = refl;
          closed = λ c. c;
          unused = refl;
          live = refl;
        })
      ]

      awake : (c : ℕ) → is_zombie (k.proc c).state ≡ false → is_zombie (slept c).state ≡ false
      awake c z = elim (update_cases k.proc p (asleep_on (proc_chan p) (k.proc p)) c) [
        | inl (e, u) ↦ ap (λ x. is_zombie x.state) u
        | inr (n, u) ↦ ap (λ x. is_zombie x.state) u ∙ z
      ]

      told :
          (q c : ℕ)
          → Waits q (slept q)
          → (slept c).parent ≡ some q
          → is_zombie (slept c).state ≡ false
      told q c w e =
          let f : (k.proc c).parent ≡ some q = sym (still c).parent ∙ e in
          elim (update_cases k.proc p (asleep_on (proc_chan p) (k.proc p)) q) [
            | inl (g, u) ↦ awake c (none_gone c (f ∙ ap some g))
            | inr (n, u) ↦ awake c (v.told q c (subst (Waits q) u w) f)
          ]

  pub kwait_ends : Result (kwait s p addr k)
  unfolding kwait update sleep
  kwait_ends = elim (scan_from-cases p k.proc nproc 0 false) [
    | inl (c, e, f, z) ↦ rw (e, kwait) (reap_lem c f z)
    | inr (e, all, h) ↦
        let none_gone : (j : ℕ) → (k.proc j).parent ≡ some p → is_zombie (k.proc j).state ≡ false =
          λ j f. all j (omega arith) (child_slot j f) f in
        rw (e, kwait)
          (elim (Bool-cases (not (scan_from p k.proc nproc 0 false).1 || (k.proc p).killed)) [
            | inl t ↦ rw t (v, refused none_gone (why t (Bool-cases (k.proc p).killed) h) refl refl)
            | inr t ↦ rw t (
              wait-IsOk none_gone,
              slept none_gone
                  ((or_false (not (scan_from p k.proc nproc 0 false).1) (k.proc p).killed t).1) refl
                  refl,
            )
          ])
  ]
    where
      child_slot : (j : ℕ) → (k.proc j).parent ≡ some p → j < 0 + nproc
      child_slot j f = elim (Bool-cases (is_unused (k.proc j).state)) [
        | inl t ↦ absurd (cc (f, (v.blank j t).parent))
        | inr t ↦ omega (arith, v.inside j t)
      ]

      why :
          (not (scan_from p k.proc nproc 0 false).1 || (k.proc p).killed) ≡ true
          → ((k.proc p).killed ≡ true) ⊎ ((k.proc p).killed ≡ false)
          → ((scan_from p k.proc nproc 0 false).1 ≡ false
              → (false ≡ false) × ((j : ℕ) → 0 ≤ j → j < 0 + nproc → (k.proc j).parent ≢ some p))
          → ((k.proc p).killed ≡ true) ⊎ ((j : ℕ) → (k.proc j).parent ≢ some p)
      why t (inl q) h = inl q
      why t (inr q) h = elim (Bool-cases (scan_from p k.proc nproc 0 false).1) [
        | inl y ↦ cc (rw (y, q) at t)
        | inr y ↦ inr (λ j f. (h y).1 j (omega arith) (child_slot j f) f)
      ]
