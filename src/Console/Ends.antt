-- ===== src/Console/Ends.antt =====
-- How a run of consoleread ends.
use eafitos.Base.{
  ℕ, suc, ◌+◌, ◌-◌, ◌<◌, ◌≤◌, ◌≡◌, ◌≢◌, ap, ◌∙◌, Bool, true, false, List, [], ◌∷◌, ◌++◌, arith,
  length,
}
use eafitos.Console.{newline, control_d, ReadEnd, returned, killed, asleep}

-- None of the bytes ends a read: no end of file and no newline.
abbrev pub Plain : List ℕ → Type 0
Plain [] = Unit {0}
Plain (b ∷ bs) = (b ≢ control_d) × ((b ≢ newline) × Plain bs)

-- Why a run of n of target bytes ends, with the bytes that it has copied, those that it has taken
-- and not copied, and those that are ready after it.
pub data Ending (target n : ℕ) (copyout : ℕ → Bool) (is_killed : Bool) (copied lost left : List ℕ)
    : ReadEnd → Type 0 where
  -- as many bytes as were wanted
  full :
      {v : ℕ}
      → Plain copied
      → length copied ≡ n
      → lost ≡ []
      → Ending target n copyout is_killed copied lost left (returned v)
  -- a whole line
  line_end :
      {v : ℕ} (body : List ℕ)
      → copied ≡ body ++ newline ∷ []
      → Plain body
      → lost ≡ []
      → Ending target n copyout is_killed copied lost left (returned v)
  -- an end of file after some bytes, which is left for the next call
  file_end_kept :
      {v : ℕ} (more : List ℕ)
      → Plain copied
      → length copied < n
      → n < target + length copied
      → lost ≡ []
      → left ≡ control_d ∷ more
      → Ending target n copyout is_killed copied lost left (returned v)
  -- an end of file before any byte, which is taken
  file_end :
      {v : ℕ}
      → copied ≡ []
      → n ≡ target
      → lost ≡ control_d ∷ []
      → Ending target n copyout is_killed copied lost left (returned v)
  -- a byte that could not be copied
  fault :
      {v : ℕ} (b : ℕ)
      → Plain copied
      → b ≢ control_d
      → lost ≡ b ∷ []
      → copyout (target + length copied - n) ≡ false
      → Ending target n copyout is_killed copied lost left (returned v)
  was_killed :
      Plain copied
      → length copied < n
      → lost ≡ []
      → left ≡ []
      → is_killed ≡ true
      → Ending target n copyout is_killed copied lost left killed
  no_more :
      {m : ℕ}
      → Plain copied
      → length copied < n
      → lost ≡ []
      → left ≡ []
      → is_killed ≡ false
      → Ending target n copyout is_killed copied lost left (asleep m)

-- One byte more before the end.
pub Ending-suc :
    (target n : ℕ) (copyout : ℕ → Bool) (is_killed : Bool) (copied lost left : List ℕ)
    (out : ReadEnd) (b : ℕ)
    → suc n ≤ target
    → b ≢ control_d
    → b ≢ newline
    → Ending target n copyout is_killed copied lost left out
    → Ending target (suc n) copyout is_killed (b ∷ copied) lost left out
Ending-suc target n copyout k copied lost left _ b h d l (full p e x) =
    full (d, (l, p)) (omega (arith, e)) x
Ending-suc target n copyout k copied lost left _ b h d l (line_end body e p x) =
    line_end (b ∷ body) (ap (λ y. b ∷ y) e) (d, (l, p)) x
Ending-suc target n copyout k copied lost left _ b h d l (file_end_kept more p lt some_read x y) =
    file_end_kept more (d, (l, p)) (omega (arith, lt)) (omega (arith, some_read)) x y
Ending-suc target n copyout k copied lost left _ b h d l (file_end e q x) =
    absurd (omega (arith, q, h))
Ending-suc target n copyout k copied lost left _ b h d l (fault c p nd x y) =
    let at : target + length (b ∷ copied) - suc n ≡ target + length copied - n = omega arith in
    fault c (d, (l, p)) nd x (ap copyout at ∙ y)
Ending-suc target n copyout k copied lost left _ b h d l (was_killed p lt x y q) =
    was_killed (d, (l, p)) (omega (arith, lt)) x y q
Ending-suc target n copyout k copied lost left _ b h d l (no_more p lt x y q) =
    no_more (d, (l, p)) (omega (arith, lt)) x y q
