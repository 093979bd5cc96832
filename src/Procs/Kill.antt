-- ===== src/Procs/Kill.antt =====
-- kill with pid 0, which is the pid of the entries that are free.
use eafitos.Base.{
  ℕ, ◌+◌, ◌^◌, ◌<◌, ◌≡◌, ◌≢◌, refl, sym, ap, ◌∙◌, true, false, Option, none, some, arith, ◌==◌,
  Bool-cases, inl, inr, ◌⊎◌, update, update_self, update_ne, update_cases,
}
use eafitos.Procs.{
  nproc, ProcState, unused, used, sleeping, runnable, running, zombie, is_unused, is_sleeping, Proc,
  Services, Kernel,
}
use eafitos.Procs.Ops.{struck, kkill, kfork}
use eafitos.Procs.Loops.{first_from-cases}
use eafitos.Procs.Keep.{IsOk, kkill-IsOk}
use eafitos.Procs.Fork.{none_made, made, kfork_makes}

-- A call of `kfork` on k makes no process, or one that is marked as killed from the start.
abbrev pub Doomed : {M : Type 0} → Kernel M → Option ℕ × Kernel M → Type 0
Doomed k r =
    (r.0 ≡ none)
    ⊎ ((c : ℕ) × (is_unused (k.proc c).state ≡ true)
        × (r.0 ≡ some k.nextpid)
        × ((r.1.proc c).pid ≡ k.nextpid)
        × ((r.1.proc c).killed ≡ true))

module _ {M : Type 0} (s : Services M) (k : Kernel M) (v : IsOk k) (p : ℕ)
    (here : (k.proc p).state ≡ running) (fits : k.nextpid + 1 < 2 ^ 31) where
  -- An entry whose pid is 0 is free.
  zero_pid-unused : (j : ℕ) → (k.proc j).pid ≡ 0 → is_unused (k.proc j).state ≡ true
  zero_pid-unused j z = elim (Bool-cases (is_unused (k.proc j).state)) [
    | inl t ↦ t
    | inr t ↦ absurd (omega (arith, v.pid_low j t, z))
  ]

  module _ (z : ℕ) (pid : (k.proc z).pid ≡ 0)
      (first : (h : ℕ) → h < z → ((k.proc h).pid == 0) ≡ false) where
    marked : Kernel M
    marked = record k { proc = update k.proc z (struck (k.proc z)) }

    free_z : is_unused (k.proc z).state ≡ true
    free_z = zero_pid-unused z pid

    at_z : marked.proc z ≡ struck (k.proc z)
    unfolding marked
    at_z = update_self k.proc z (struck (k.proc z))

    struck-free : (q : Proc) → is_unused q.state ≡ true → is_unused (struck q).state ≡ true
    struck-free q h = elim (Bool-cases (is_sleeping q.state)) [
      | inl t ↦ cc (asleep q.state t, h)
      | inr t ↦ rw t h
    ]
      where
        asleep : (st : ProcState) → is_sleeping st ≡ true → is_unused st ≡ false
        asleep sleeping t = refl
        asleep unused t = cc t
        asleep used t = refl
        asleep runnable t = refl
        asleep running t = refl
        asleep zombie t = refl

    still_free : is_unused (marked.proc z).state ≡ true
    still_free = ap (λ x. is_unused x.state) at_z ∙ struck-free (k.proc z) free_z

    same_pid : (j : ℕ) → (marked.proc j).pid ≡ (k.proc j).pid
    unfolding marked
    same_pid j = elim (update_cases k.proc z (struck (k.proc z)) j) [
      | inl (e, u) ↦ ap (λ x. x.pid) u ∙ ap (λ x. (k.proc x).pid) (sym e)
      | inr (n, u) ↦ ap (λ x. x.pid) u
    ]

    p_ne : p ≢ z
    p_ne e = cc (ap (λ x. is_unused (k.proc x).state) e, ap is_unused here, free_z)

    doomed : IsOk marked → Doomed k (kfork s p marked)
    unfolding marked
    doomed w =
        elim ((kfork_makes s marked w fits p
          (ap (λ x. x.state) (update_ne k.proc z (struck (k.proc z)) p p_ne) ∙ here)).1) [
            | none_made e same ↦ inl e
            | made c slot u before e child mark others ↦
                let c_zero : (k.proc c).pid ≡ 0 = sym (same_pid c) ∙ (w.blank c u).pid in
                let not_less : ¬ (c < z) = λ l. ground (arith, first c l, c_zero) in
                let not_more : ¬ (z < c) = λ l. cc (before z l, still_free) in
                let q : c ≡ z = omega (arith, not_less, not_more) in
                inr (
                  c,
                  zero_pid-unused c c_zero,
                  e,
                  child.pid,
                  mark ∙ ap (λ x. (marked.proc x).killed) q ∙ ap (λ x. x.killed) at_z,
                )
          ]

  -- After `kkill` of pid 0, the next `kfork` by a running process makes no process, or one that is
  -- marked as killed from the start.
  pub kill_zero_dooms : Doomed k (kfork s p (kkill 0 k).1)
  unfolding kkill marked
  kill_zero_dooms = elim (first_from-cases (λ q. q.pid == 0) k.proc nproc 0) [
    | inl (z, e, lo, hi, y, before) ↦
        let pid : (k.proc z).pid ≡ 0 = ground (arith, y) in
        let early : (h : ℕ) → h < z → ((k.proc h).pid == 0) ≡ false =
          λ h l. before h (omega arith) l in
        rw (e, kkill) (doomed z pid early (rw (e, kkill) at (kkill-IsOk k v 0)))
    | inr (e, all) ↦
        rw (e, kkill)
          (elim ((kfork_makes s k v fits p here).1) [
            | none_made g same ↦ inl g
            | made c slot u before g child mark others ↦
                absurd
                  (ground (arith, all c (omega arith) (omega (arith, slot)), (v.blank c u).pid))
          ])
  ]
