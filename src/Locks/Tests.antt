-- ===== src/Locks/Tests.antt =====
-- An example of nested sections, entered with interrupts on.
use eafitos.Base.{true, false}
use eafitos.Locks.{Cpu}
use eafitos.Locks.Nesting.{Matched, done, within}

abbrev outside : Cpu
outside = record { intr = true; noff = 0; intena = false }

abbrev nested : Matched
nested = within (within done (within done done)) done
