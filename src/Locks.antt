-- ===== src/Locks.antt =====
-- kernel/spinlock.c: how push_off and pop_off nest on one hart.
pub mod Nesting
mod Tests
use eafitos.Base.{
  ℕ, ◌+◌, ◌-◌, Bool, true, false, ◌&&◌, Option, none, some, ltb, ◌==◌, if◌then◌else◌,
}

-- Whether interrupts are on, and the fields of `struct cpu` that keep track of it.
pub record Cpu : Type 0 where
  pub intr : Bool
  pub noff : ℕ
  pub intena : Bool

unfoldable pub push_off : Cpu → Cpu
push_off c = record {
  intr = false;
  noff = c.noff + 1;
  intena = if c.noff == 0 then c.intr else c.intena;
}

-- `none` is a panic.
unfoldable pub pop_off : Cpu → Option Cpu
pop_off c =
    if c.intr
    then none
    else if ltb c.noff 1
    then none
    else some (record c { intr = (c.noff - 1 == 0) && c.intena; noff = c.noff - 1 })
