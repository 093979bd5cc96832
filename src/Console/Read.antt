-- ===== src/Console/Read.antt =====
-- Runs of consoleread take from the lines that are ready.
use eafitos.Base.{
  ℕ, zero, suc, ◌+◌, ◌-◌, ◌%◌, ◌≤◌, ◌≡◌, ◌≢◌, refl, sym, ap, ◌∙◌, subst, Bool, true, false, List,
  [], ◌∷◌, ◌++◌, arith, ltb, ◌==◌, ==_of_ne, Bool-cases, inl, inr, ℕ_discrete, length,
}
use eafitos.Console.{
  Cons, input_buf_size, u32, minus, newline, control_d, ReadEnd, returned, killed, asleep, ReadRun,
  read_loop, ends,
}
use eafitos.Console.Ends.{
  Ending, Ending-suc, full, line_end, file_end_kept, file_end, fault, was_killed, no_more,
}
use eafitos.Console.Ring.{window}
use eafitos.Console.Edit.{ready, line, IsValid}

-- The count that a run of n of target bytes returns after it has copied k, and what a sleep leaves:
-- nothing ready, and the rest still wanted.
abbrev pub Tells : ℕ → ℕ → ℕ → Cons → ReadEnd → Type 0
Tells target n k c (returned v) = v + n ≡ target + k
Tells target n k c killed = ready c ≡ []
Tells target n k c (asleep m) = (ready c ≡ []) × (m + k ≡ n)

pub record Took (target n : ℕ) (copyout : ℕ → Bool) (is_killed : Bool) (c : Cons) (run : ReadRun)
    : Type 0 where
  pub valid : IsValid run.cons
  pub same_line : line run.cons ≡ line c
  -- at most one byte is taken that is not copied: an end of file, or one that could not be copied
  pub lost : List ℕ
  pub at_most_one : length lost ≤ 1
  pub took : ready c ≡ run.copied ++ (lost ++ ready run.cons)
  pub tells : Tells target n (length run.copied) run.cons run.outcome
  pub why : Ending target n copyout is_killed run.copied lost (ready run.cons) run.outcome

Tells-suc :
    (target n k : ℕ) (c : Cons) (out : ReadEnd)
    → Tells target n k c out
    → Tells target (suc n) (suc k) c out
Tells-suc target n k c (returned v) t = omega (arith, t)
Tells-suc target n k c killed t = t
Tells-suc target n k c (asleep m) t = (t.0, omega (arith, t.1))

none_ready : (c : Cons) → IsValid c → c.r ≡ c.w → ready c ≡ []
none_ready c v q =
    let k : minus c.w c.r ≡ 0 = omega (arith, v.read_fits, q) in ap (window c.buf c.r) k

module _ (c : Cons) (v : IsValid c) (ne : c.r ≢ c.w) where
  taken : Cons
  taken = record c { r = u32 (c.r + 1) }

  taken-IsValid : IsValid taken
  unfolding taken
  taken-IsValid = record {
    read_fits = omega arith;
    write_fits = v.write_fits;
    edit_fits = v.edit_fits;
    bounded = omega (arith, v.read_fits, v.write_fits, v.bounded, ne);
    unfinished = v.unfinished;
  }

  ready_first : ready c ≡ c.buf (c.r % input_buf_size) ∷ ready taken
  unfolding taken
  ready_first =
      let k : minus c.w c.r ≡ suc (minus c.w (u32 (c.r + 1))) =
        omega (arith, v.read_fits, v.write_fits, ne) in
      ap (window c.buf c.r) k

  put_back : (record taken { r = minus taken.r 1 }) ≡ c
  unfolding taken
  put_back =
      let k : minus (u32 (c.r + 1)) 1 ≡ c.r = omega (arith, v.read_fits) in
      ap (λ x. record c { r = x }) k

  ch : ℕ
  ch = c.buf (c.r % input_buf_size)

  dropped :
      (target n : ℕ) (copyout : ℕ → Bool) (is_killed : Bool)
      → suc n ≤ target
      → Ending target
          (suc n)
          copyout
          is_killed
          []
          (ch ∷ [])
          (ready taken)
          (returned (target - suc n))
      → Took target (suc n) copyout is_killed c (ends taken (returned (target - suc n)))
  unfolding taken ch
  dropped target n copyout k h why = record {
    valid = taken-IsValid;
    same_line = refl;
    lost = c.buf (c.r % input_buf_size) ∷ [];
    at_most_one = omega arith;
    took = ready_first;
    tells = omega (arith, h);
    why = why;
  }

  ended :
      (target n : ℕ) (copyout : ℕ → Bool) (is_killed : Bool)
      → suc n ≤ target
      → ch ≡ newline
      → Took target
          (suc n)
          copyout
          is_killed
          c
          (record { cons = taken; copied = ch ∷ []; outcome = returned (target - n) })
  unfolding taken ch
  ended target n copyout k h e = record {
    valid = taken-IsValid;
    same_line = refl;
    lost = [];
    at_most_one = omega arith;
    took = ready_first;
    tells = omega (arith, h);
    why = line_end [] (ap (λ b. b ∷ []) e) tt refl;
  }

  went_on :
      (target n : ℕ) (copyout : ℕ → Bool) (is_killed : Bool) (run : ReadRun)
      → suc n ≤ target
      → ch ≢ control_d
      → ch ≢ newline
      → Took target n copyout is_killed taken run
      → Took target (suc n) copyout is_killed c (record run { copied = ch ∷ run.copied })
  unfolding taken ch
  went_on target n copyout k run h d l t = record {
    valid = t.valid;
    same_line = t.same_line;
    lost = t.lost;
    at_most_one = t.at_most_one;
    took = ready_first ∙ ap (λ l. c.buf (c.r % input_buf_size) ∷ l) t.took;
    tells = Tells-suc target n (length run.copied) run.cons run.outcome t.tells;
    why =
        Ending-suc target n copyout k run.copied t.lost (ready run.cons) run.outcome
          (c.buf (c.r % input_buf_size)) h d l t.why;
  }

nothing :
    (target n : ℕ) (copyout : ℕ → Bool) (is_killed : Bool) (c : Cons) (out : ReadEnd)
    → IsValid c
    → Tells target n 0 c out
    → Ending target n copyout is_killed [] [] (ready c) out
    → Took target n copyout is_killed c (ends c out)
nothing target n copyout k c out v t why = record {
  valid = v;
  same_line = refl;
  lost = [];
  at_most_one = omega arith;
  took = refl;
  tells = t;
  why = why;
}

-- From a valid ring, a run of `consoleread` copies bytes of the lines that are ready, in order,
-- takes at most one more, keeps the ring valid and leaves the line being typed alone. Where it
-- returns a count, it is that of the bytes copied in all. No byte that it has copied is ^D, and none
-- before the last is a newline. It returns after as many bytes as were wanted, after a newline, at a
-- ^D, which it leaves for the next call if bytes were copied before and takes otherwise, or at a byte
-- that cannot be copied; it sleeps, or fails because the process is killed, only when nothing is
-- ready.
pub read_loop-takes :
    (target : ℕ) (copyout : ℕ → Bool) (is_killed : Bool) (n : ℕ) (c : Cons)
    → IsValid c
    → n ≤ target
    → Took target n copyout is_killed c (read_loop target copyout is_killed n c)
unfolding read_loop taken ch
read_loop-takes target copyout k zero c v h =
    nothing target 0 copyout k c (returned target) v (omega arith) (full tt refl refl)
read_loop-takes target copyout k (suc n) c v h = elim (ℕ_discrete c.r c.w) [
  | yes q ↦
      let t : (c.r == c.w) ≡ true = ground (arith, q) in
      let none_left = none_ready c v q in
      rw t (elim (Bool-cases k) [
        | inl y ↦ rw y (
            nothing target (suc n) copyout true c killed v none_left
              (was_killed tt (omega arith) refl none_left refl))
        | inr y ↦ rw y (
            nothing target (suc n) copyout false c (asleep (suc n)) v (none_left, omega arith)
              (no_more tt (omega arith) refl none_left refl))
      ])
  | no ne ↦
      let b = c.buf (c.r % input_buf_size) in
      rw (==_of_ne c.r c.w ne) (elim (Bool-cases (b == control_d)) [
        | inl d ↦
            let is_d : b ≡ control_d = ground (arith, d) in
            rw d (elim (Bool-cases (ltb (suc n) target)) [
              | inl s ↦ rw s (
                  subst (λ x. Took target (suc n) copyout k c (ends x (returned (target - suc n))))
                    (sym (put_back c v ne))
                    (nothing target (suc n) copyout k c (returned (target - suc n)) v
                      (omega (arith, h))
                      (file_end_kept (ready (taken c v ne)) tt (omega arith) (ground (arith, s))
                        refl (ready_first c v ne ∙ ap (λ x. x ∷ ready (taken c v ne)) is_d))))
              | inr s ↦ rw s (
                  dropped c v ne target n copyout k h
                    (file_end refl (ground (arith, s, h)) (ap (λ x. x ∷ []) is_d)))
            ])
        | inr d ↦
            let not_d : b ≢ control_d = ground (arith, d) in
            rw d (elim (Bool-cases (copyout (target - suc n))) [
              | inl o ↦ rw o (elim (Bool-cases (b == newline)) [
                | inl l ↦ rw l (ended c v ne target n copyout k h (ground (arith, l)))
                | inr l ↦ rw l (
                    went_on c v ne target n copyout k _ h not_d (ground (arith, l)) (
                      read_loop-takes target copyout k n (taken c v ne) (taken-IsValid c v ne)
                        (omega (arith, h))))
              ])
              | inr o ↦
                  let at : target + 0 - suc n ≡ target - suc n = omega arith in
                  rw o (
                    dropped c v ne target n copyout k h (fault b tt not_d refl (ap copyout at ∙ o)))
            ])
      ])
]
