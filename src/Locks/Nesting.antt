-- ===== src/Locks/Nesting.antt =====
-- Matched calls of push_off and pop_off.
use eafitos.Base.{◌<◌, ◌≡◌, refl, ◌∙◌, false, Option, none, some, arith, ◌==◌}
use eafitos.Locks.{Cpu, push_off, pop_off}

-- A sequence of matched calls.
pub data Matched : Type 0 where
  done : Matched
  within : Matched → Matched → Matched

unfoldable pub run : Matched → Cpu → Option Cpu
run done c = some c
run (within inner next) c = elim (run inner (push_off c)) [
  | none ↦ none
  | some c1 ↦ elim (pop_off c1) [ none ↦ none | some c2 ↦ run next c2 ]
]

-- Inside a section interrupts are off, and `intena` is what they were before the outermost one.
pub record Same (c c' : Cpu) : Type 0 where
  pub intr : c'.intr ≡ c.intr
  pub noff : c'.noff ≡ c.noff
  pub intena : 0 < c.noff → c'.intena ≡ c.intena

-- Interrupts are on outside of every section only.
abbrev pub Sound : Cpu → Type 0
Sound c = 0 < c.noff → c.intr ≡ false

module _ (c c1 : Cpu) (v : Sound c) (s : Same (push_off c) c1) where
  inner : 0 < c.noff → c1.intena ≡ c.intena
  unfolding push_off
  inner h = let t : (c.noff == 0) ≡ false = ground (arith, h) in s.intena (omega arith) ∙ rw t refl
