-- ===== src/Procs/Loops.antt =====
-- What the loops over the table of processes find and change.
use eafitos.Base.{
  ℕ, zero, suc, ◌+◌, ◌≤◌, ◌<◌, ◌≡◌, ◌≢◌, refl, sym, ap, ◌∙◌, subst, Bool, true, false, Option, none,
  some, arith, if◌then◌else◌, Bool-cases, inl, inr, ◌⊎◌, ℕ_discrete, update, update_self, update_ne,
}
use eafitos.Procs.{
  nproc, sleeping, runnable, Chan, chan_eq, Proc, first_from, woken, is_me, wakeup_from, wakeup,
}

-- A search finds the first entry that passes the test, or there is none.
pub first_from-cases :
    (test : Proc → Bool) (proc : ℕ → Proc) (left i : ℕ)
    → ((j : ℕ) × (first_from test proc left i ≡ some j)
        × (i ≤ j)
        × (j < i + left)
        × (test (proc j) ≡ true)
        × ((h : ℕ) → i ≤ h → h < j → test (proc h) ≡ false))
      ⊎ ((first_from test proc left i ≡ none)
          × ((h : ℕ) → i ≤ h → h < i + left → test (proc h) ≡ false))
unfolding first_from
first_from-cases test proc zero i = inr (refl, λ h a b. absurd (omega (arith, a, b)))
first_from-cases test proc (suc left) i = elim (Bool-cases (test (proc i))) [
  | inl t ↦ inl (i, rw t refl, omega arith, omega arith, t, λ h a b. absurd (omega (arith, a, b)))
  | inr t ↦ elim (first_from-cases test proc left (i + 1)) [
    | inl (j, e, lo, hi, y, before) ↦ inl (
      j,
      rw t e,
      omega (arith, lo),
      omega (arith, hi),
      y,
      λ h a b. elim (ℕ_discrete h i) [
        | yes q ↦ subst (λ x. test (proc x) ≡ false) (sym q) t
        | no n ↦ before h (omega (arith, a, n)) b
      ],
    )
    | inr (e, all) ↦ inr (
      rw t e,
      λ h a b. elim (ℕ_discrete h i) [
        | yes q ↦ subst (λ x. test (proc x) ≡ false) (sym q) t
        | no n ↦ all h (omega (arith, a, n)) (omega (arith, b))
      ],
    )
  ]
]

-- What `wakeup` makes of entry j.
abbrev pub wakes : Option ℕ → Chan → ℕ → Proc → Proc
wakes me chan j p = if is_me me j then p else woken chan p

abbrev one_woken : Option ℕ → Chan → ℕ → (ℕ → Proc) → ℕ → Proc
one_woken me chan i proc = if is_me me i then proc else update proc i (woken chan (proc i))

one_woken_self :
    (me : Option ℕ) (chan : Chan) (i : ℕ) (proc : ℕ → Proc)
    → one_woken me chan i proc i ≡ wakes me chan i (proc i)
one_woken_self me chan i proc = elim (Bool-cases (is_me me i)) [
  | inl t ↦ rw t refl
  | inr t ↦ rw t (update_self proc i (woken chan (proc i)))
]

one_woken_ne :
    (me : Option ℕ) (chan : Chan) (i j : ℕ) (proc : ℕ → Proc)
    → j ≢ i
    → one_woken me chan i proc j ≡ proc j
one_woken_ne me chan i j proc n = elim (Bool-cases (is_me me i)) [
  | inl t ↦ rw t refl
  | inr t ↦ rw t (update_ne proc i (woken chan (proc i)) j n)
]

wakeup_from-outside :
    (me : Option ℕ) (chan : Chan) (left i j : ℕ) (proc : ℕ → Proc)
    → (j < i) ⊎ (i + left ≤ j)
    → wakeup_from me chan left i proc j ≡ proc j
unfolding wakeup_from
wakeup_from-outside me chan zero i j proc h = refl
wakeup_from-outside me chan (suc left) i j proc h =
    wakeup_from-outside me chan left (i + 1) j (one_woken me chan i proc) (omega (arith, h))
    ∙ one_woken_ne me chan i j proc (omega (arith, h))

wakeup_from-inside :
    (me : Option ℕ) (chan : Chan) (left i j : ℕ) (proc : ℕ → Proc)
    → i ≤ j
    → j < i + left
    → wakeup_from me chan left i proc j ≡ wakes me chan j (proc j)
unfolding wakeup_from
wakeup_from-inside me chan zero i j proc a b = absurd (omega (arith, a, b))
wakeup_from-inside me chan (suc left) i j proc a b = elim (ℕ_discrete j i) [
  | yes e ↦
      wakeup_from-outside me chan left (i + 1) j (one_woken me chan i proc) (omega (arith, e))
      ∙ subst (λ x. one_woken me chan i proc x ≡ wakes me chan x (proc x)) (sym e)
          (one_woken_self me chan i proc)
  | no n ↦
      wakeup_from-inside me chan left (i + 1) j (one_woken me chan i proc) (omega (arith, a, n))
        (omega (arith, b))
      ∙ ap (wakes me chan j) (one_woken_ne me chan i j proc n)
]

-- `wakeup` wakes the entries of the table, the running process aside.
pub wakeup-inside :
    (me : Option ℕ) (chan : Chan) (proc : ℕ → Proc) (j : ℕ)
    → j < nproc
    → wakeup me chan proc j ≡ wakes me chan j (proc j)
unfolding wakeup
wakeup-inside me chan proc j h =
    wakeup_from-inside me chan nproc 0 j proc (omega arith) (omega (arith, h))

pub wakeup-outside :
    (me : Option ℕ) (chan : Chan) (proc : ℕ → Proc) (j : ℕ)
    → nproc ≤ j
    → wakeup me chan proc j ≡ proc j
unfolding wakeup
wakeup-outside me chan proc j h = wakeup_from-outside me chan nproc 0 j proc (inr h)

-- Nothing but states changes, and only from asleep on the channel to runnable.
pub data Roused (chan : Chan) (p q : Proc) : Type 0 where
  slept_on : q ≡ p → Roused chan p q
  roused :
      p.state ≡ sleeping
      → chan_eq p.chan chan ≡ true
      → q ≡ record p { state = runnable }
      → Roused chan p q
