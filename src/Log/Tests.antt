-- ===== src/Log/Tests.antt =====
-- Runs of the log on small disks, and the theorems at concrete inputs.
use eafitos.Base.{
  Bool, ℕ, zero, suc, ◌+◌, ◌≤◌, ◌<◌, ◌≡◌, inr, true, false, refl, arith, [], ◌∷◌, update, update_ne,
  ◌==◌, if◌then◌else◌,
}
use eafitos.Log.{
  Block, Disk, Log, initlog, commit, modify, install_from, install_trans, install_one,
  recover_from_log, read_head, bwrite, write_head, write_log, log_from, log_one, erase, head_block,
}
use eafitos.Log.Phases.{IsHome}
use eafitos.Log.Recover.{boot, Holds}
use eafitos.Log.Commit.{Ready}
use eafitos.Log.Crash.{crash, commit_atomic, commit_done}
use eafitos.Log.Restart.{stopped_recovery, recovery_restarts}
use eafitos.Log.Ops.{begin_op, log_write, end_op, ok}
use eafitos.Log.System.{System, Step, Reach, Inv, Reach-Inv, calls_succeed}

abbrev blank : Disk
blank b w = 0

abbrev ones : Block
ones w = 1

-- The log starts at block 2, and block 50 is to be filled with ones.
abbrev filling : Log
filling = record {
  start = 2;
  outstanding = 0;
  committing = true;
  lh = record { n = 1; block = λ _. 50 };
  cache = update blank 50 ones;
  disk = blank;
  pins = λ _. 1;
  issued = [];
}

filling-Ready : Ready filling
filling-Ready = record {
  few = omega arith;
  homes = λ j p. omega arith;
  clean = λ b hb out. update_ne blank 50 ones b (out 0 (omega arith));
  empty = refl;
}

-- After the write of the header the block survives, before it the old block does.
crash_after_header : (initlog 2 (boot (crash filling 2))).disk 50 7 ≡ 1
unfolding initlog crash commit recover_from_log read_head install_trans install_from install_one
    write_log log_from log_one write_head erase bwrite head_block update
crash_after_header = refl

crash_before_header : (initlog 2 (boot (crash filling 1))).disk 50 7 ≡ 0
unfolding initlog crash commit recover_from_log read_head install_trans install_from install_one
    write_log log_from log_one write_head erase bwrite head_block update
crash_before_header = refl

commit_atomic_example :
    (2 ≤ 1 → (initlog 2 (boot (crash filling 2))).disk 50 ≡ blank 50)
    × (1 < 2 → (initlog 2 (boot (crash filling 2))).disk 50 ≡ filling.cache 50)
commit_atomic_example = commit_atomic filling filling-Ready 2 50 (inr (omega arith))

commit_done_example :
    ((commit filling).lh.n ≡ 0)
    × ((commit filling).disk 2 0 ≡ 0)
    × ((b : ℕ) → IsHome 2 b → (commit filling).disk b ≡ filling.cache b)
commit_done_example = commit_done filling filling-Ready

-- A disk with a committed transaction that is not installed.
abbrev pending : Disk
pending = update (update blank 2 (λ w. if w == 0 then 1 else 50)) 3 ones

abbrev filled : Disk
filled = update blank 50 ones

pending-IsHome : (j : ℕ) → j < 1 → IsHome 2 (pending 2 (j + 1))
unfolding update
pending-IsHome zero p = omega arith
pending-IsHome (suc j) p = absurd (omega arith)

pending_copied : (j : ℕ) → j < 1 → pending (2 + j + 1) ≡ filled (pending 2 (j + 1))
unfolding update
pending_copied zero p = refl
pending_copied (suc j) p = absurd (omega arith)

pending-Holds : Holds 2 filled pending
unfolding update
pending-Holds = record { few = omega arith; homes = pending-IsHome; copied = pending_copied }

recovery_restarts_example : (initlog 2 (boot (stopped_recovery 2 pending 1))).disk 50 ≡ filled 50
unfolding update
recovery_restarts_example =
    recovery_restarts 2 filled pending pending-Holds 1 50 (inr (omega arith))
      (inr (0, omega arith, refl))

-- The log after start-up on the blank disk.
abbrev idle : Log
idle = record {
  start = 2;
  outstanding = 0;
  committing = false;
  lh = record { n = 0; block = λ _. 0 };
  cache = blank;
  disk = blank;
  pins = λ _. 0;
  issued = [];
}

abbrev idle_system : System
idle_system = record { log = idle; ops = [] }

idle-Inv : Inv idle_system
idle-Inv = record {
  count = refl;
  few = tt;
  room = omega arith;
  calm = λ p. refl;
  ready = record {
    few = omega arith;
    homes = λ j p. absurd (omega arith);
    clean = λ b hb out. refl;
    empty = refl;
  };
}

-- One operation begins and another after it.
abbrev busy_system : System
busy_system = record { log = record idle { outstanding = 2 }; ops = 10 ∷ 10 ∷ [] }

abbrev one_busy : System
one_busy = record { log = record idle { outstanding = 1 }; ops = 10 ∷ [] }

busy-Reach : Reach idle_system busy_system
unfolding begin_op
busy-Reach =
    let first : Step idle_system one_busy = Step.begin refl refl in
    Reach.next (Reach.next Reach.here first) (Step.begin refl refl)

Reach-Inv_example : Inv busy_system
Reach-Inv_example = Reach-Inv idle-Inv busy-Reach

calls_succeed_example :
    (0 < 10 → (l : Log) × (log_write (modify busy_system.log 50 ones) 50 ≡ ok l))
    × ((l : Log) × (last : Bool) × (end_op busy_system.log ≡ ok (l, last)))
calls_succeed_example =
    calls_succeed (10 ∷ []) [] 10 50 ones Reach-Inv_example refl (inr (omega arith))
