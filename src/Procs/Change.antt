-- ===== src/Procs/Change.antt =====
-- One entry that is not live is replaced: freed, or filled by a new process.
use eafitos.Base.{
  ℕ, ◌+◌, ◌<◌, ◌^◌, ◌≡◌, ◌≢◌, refl, sym, ap, ◌∙◌, subst, true, false, none, some, arith, ℕ_discrete,
}
use eafitos.Procs.{
  nproc, ProcState, unused, used, sleeping, runnable, running, zombie, is_unused, is_zombie, Proc,
}
use eafitos.Procs.Inv.{is_live, InUse, IsLive, Closed, Blank, Waits, Inv}

pub some_inj : {A : Type 0} {a b : A} → some a ≡ some b → a ≡ b
some_inj {a = a} e = ap (λ o. elim o [ none ↦ a | some x ↦ x ]) e

pub live-in_use : (s : ProcState) → is_live s ≡ true → is_unused s ≡ false
live-in_use unused h = sym h
live-in_use used h = refl
live-in_use sleeping h = refl
live-in_use runnable h = refl
live-in_use running h = refl
live-in_use zombie h = refl

pub live-not-zombie : (s : ProcState) → is_live s ≡ true → is_zombie s ≡ false
live-not-zombie unused h = refl
live-not-zombie used h = refl
live-not-zombie sleeping h = refl
live-not-zombie runnable h = refl
live-not-zombie running h = refl
live-not-zombie zombie h = sym h

pub unused-not-live : (s : ProcState) → is_unused s ≡ true → is_live s ≡ false
unused-not-live unused h = refl
unused-not-live used h = cc h
unused-not-live sleeping h = cc h
unused-not-live runnable h = cc h
unused-not-live running h = cc h
unused-not-live zombie h = refl

-- A process that `kfork` has completed.
pub record New (nextpid init : ℕ) (proc : ℕ → Proc) (p : Proc) : Type 0 where
  pub pid : p.pid ≡ nextpid
  pub live : IsLive p
  pub parent : ℕ
  pub child_of : p.parent ≡ some parent
  pub parent_live : IsLive (proc parent)

module _ (proc proc' : ℕ → Proc) (nextpid init i : ℕ) (v : Inv proc nextpid init)
    (dead : is_live (proc i).state ≡ false) (same : (j : ℕ) → j ≢ i → proc' j ≡ proc j) where
  -- Nobody has a process as parent that is not live.
  not_parent : (j : ℕ) → (proc j).parent ≢ some i
  not_parent j e = cc (v.parent_live j i e, dead)

  not_i : (j : ℕ) → IsLive (proc j) → j ≢ i
  not_i j l e = cc (subst (λ x. IsLive (proc x)) e l, dead)

  there : (P : Proc → Type 0) (j : ℕ) → j ≢ i → P (proc j) → P (proc' j)
  there P j n = subst P (sym (same j n))

  back : (P : Proc → Type 0) (j : ℕ) → j ≢ i → P (proc' j) → P (proc j)
  back P j n = subst P (same j n)

  IsLive-there : (j : ℕ) → IsLive (proc j) → IsLive (proc' j)
  IsLive-there j l = there IsLive j (not_i j l) l

  module _ (free : is_unused (proc' i).state ≡ true) (blank : Blank (proc' i)) where
    used_ne : (j : ℕ) → InUse (proc' j) → j ≢ i
    used_ne j u e = cc (subst (λ x. InUse (proc' x)) e u, free)

    parent_ne : (j q : ℕ) → (proc' j).parent ≡ some q → j ≢ i
    parent_ne j q p e = cc (subst (λ x. (proc' x).parent ≡ some q) e p, blank.parent)

    pub Inv-freed : Inv proc' nextpid init
    Inv-freed = record {
      pids = v.pids;
      inside = λ j u. v.inside j (back InUse j (used_ne j u) u);
      blank = λ j u. elim (ℕ_discrete j i) [
        | yes e ↦ subst (λ x. Blank (proc' x)) (sym e) blank
        | no n ↦ there Blank j n (v.blank j (back (λ p. is_unused p.state ≡ true) j n u))
      ];
      closed = λ j l. elim (ℕ_discrete j i) [
        | yes e ↦ subst (λ x. Closed (proc' x)) (sym e) blank.closed
        | no n ↦ there Closed j n (v.closed j (back (λ p. is_live p.state ≡ false) j n l))
      ];
      pid_low =
          λ j u. let n = used_ne j u in there (λ p. 0 < p.pid) j n (v.pid_low j (back InUse j n u));
      pid_high = λ j u.
          let n = used_ne j u in there (λ p. p.pid < nextpid) j n (v.pid_high j (back InUse j n u));
      distinct = λ j k u w e.
          let n = used_ne j u in
          let m = used_ne k w in
          v.distinct j k (back InUse j n u) (back InUse k m w)
            (ap (λ p. p.pid) (sym (same j n)) ∙ e ∙ ap (λ p. p.pid) (same k m));
      parent_live = λ j q e.
          IsLive-there q (v.parent_live j q (back (λ p. p.parent ≡ some q) j (parent_ne j q e) e));
      has_parent = λ j u ne e.
          let n = used_ne j u in
          v.has_parent j (back InUse j n u) ne (back (λ p. p.parent ≡ none) j n e);
      init_live = IsLive-there init v.init_live;
      told = λ q c w e.
          let n = parent_ne c q e in
          let at_c = back (λ p. p.parent ≡ some q) c n e in
          let m = not_i q (v.parent_live c q at_c) in
          there (λ p. is_zombie p.state ≡ false) c n (v.told q c (back (Waits q) q m w) at_c);
    }

  module _ (new : New nextpid init proc (proc' i)) (low : 0 < nextpid) (fits : nextpid + 1 < 2 ^ 31)
      (slot : i < nproc) where
    new_used : InUse (proc' i)
    new_used = live-in_use (proc' i).state new.live

    -- What holds of the new entry and of every other holds of all.
    both :
        (P : ℕ → Proc → Type 0)
        → P i (proc' i)
        → ((j : ℕ) → j ≢ i → P j (proc' j))
        → (j : ℕ) → P j (proc' j)
    both P own others j = elim (ℕ_discrete j i) [
      | yes e ↦ subst (λ x. P x (proc' x)) (sym e) own
      | no n ↦ others j n
    ]

    older : (j : ℕ) → j ≢ i → InUse (proc' j) → (proc' j).pid < nextpid
    older j n u = there (λ p. p.pid < nextpid) j n (v.pid_high j (back InUse j n u))

    new_parent : (q : ℕ) → (proc' i).parent ≡ some q → q ≡ new.parent
    new_parent q e = some_inj (sym e ∙ new.child_of)

    pub Inv-new : Inv proc' (nextpid + 1) init
    Inv-new = record {
      pids = fits;
      inside =
          both (λ j p. InUse p → j < nproc) (λ u. slot) (λ j n u. v.inside j (back InUse j n u));
      blank =
          both (λ j p. is_unused p.state ≡ true → Blank p) (λ u. cc (u, new_used))
            (λ j n u. there Blank j n (v.blank j (back (λ p. is_unused p.state ≡ true) j n u)));
      closed =
          both (λ j p. is_live p.state ≡ false → Closed p) (λ l. cc (l, new.live))
            (λ j n l. there Closed j n (v.closed j (back (λ p. is_live p.state ≡ false) j n l)));
      pid_low =
          both (λ j p. InUse p → 0 < p.pid) (λ u. omega (arith, low, new.pid))
            (λ j n u. there (λ p. 0 < p.pid) j n (v.pid_low j (back InUse j n u)));
      pid_high =
          both (λ j p. InUse p → p.pid < nextpid + 1) (λ u. omega (arith, new.pid))
            (λ j n u. omega (arith, older j n u));
      distinct = λ j k u w e. elim (ℕ_discrete j i) [
        | yes a ↦ elim (ℕ_discrete k i) [
          | yes b ↦ a ∙ sym b
          | no b ↦ absurd (omega (arith, older k b w, new.pid, e, ap (λ x. (proc' x).pid) a))
        ]
        | no a ↦ elim (ℕ_discrete k i) [
          | yes b ↦ absurd (omega (arith, older j a u, new.pid, e, ap (λ x. (proc' x).pid) b))
          | no b ↦
              v.distinct j k (back InUse j a u) (back InUse k b w)
                (ap (λ p. p.pid) (sym (same j a)) ∙ e ∙ ap (λ p. p.pid) (same k b))
        ]
      ];
      parent_live =
          both (λ j p. (q : ℕ) → p.parent ≡ some q → IsLive (proc' q))
            (λ q e.
              IsLive-there q (subst (λ x. IsLive (proc x)) (sym (new_parent q e)) new.parent_live))
            (λ j n q e. IsLive-there q (v.parent_live j q (back (λ p. p.parent ≡ some q) j n e)));
      has_parent =
          both (λ j p. InUse p → j ≢ init → p.parent ≢ none) (λ u ne e. cc (e, new.child_of))
            (λ j n u ne e.
              v.has_parent j (back InUse j n u) ne (back (λ p. p.parent ≡ none) j n e));
      init_live = IsLive-there init v.init_live;
      told = λ q c w.
          both (λ j p. p.parent ≡ some q → is_zombie p.state ≡ false)
            (λ e. live-not-zombie (proc' i).state new.live)
            (λ j n e.
              let at_j = back (λ p. p.parent ≡ some q) j n e in
              let m = not_i q (v.parent_live j q at_j) in
              there (λ p. is_zombie p.state ≡ false) j n (v.told q j (back (Waits q) q m w) at_j))
            c;
    }
