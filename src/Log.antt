-- ===== src/Log.antt =====
-- kernel/log.c: the write-ahead log of the file system.
--
-- A block is the function from a word index to the 32-bit word that stands there, and a disk is the
-- function from a block number to its block. `cache b` is what `bread` hands out for block b (the
-- cached copy, or the disk's), `disk b` is what is on the device, and `issued` lists the device
-- writes in the order in which `bwrite` made them. There is one device, so `dev` is left out.

pub mod Writes
pub mod Phases
pub mod Header
pub mod Recover
pub mod Commit
pub mod Crash
pub mod Restart
pub mod Ops
pub mod System
mod Tests
use eafitos.Base.{
  ℕ, zero, suc, ◌+◌, ◌-◌, ◌*◌, ◌≡◌, Bool, true, false, Option, none, some, List, [], ◌∷◌, ◌++◌, ltb,
  leb, ◌==◌, if◌then◌else◌, update,
}

abbrev pub Block : Type 0
Block = ℕ → ℕ

abbrev pub Disk : Type 0
Disk = ℕ → Block

-- A device write: the block number and what is written there.
abbrev pub Write : Type 0
Write = ℕ × Block

abbrev pub max_op_blocks : ℕ
max_op_blocks = 10

abbrev pub log_blocks : ℕ
log_blocks = max_op_blocks * 3

-- `struct logheader`, as it is kept in memory.
pub record LogHeader : Type 0 where
  pub n : ℕ
  pub block : ℕ → ℕ

pub record Log : Type 0 where
  pub start : ℕ
  pub outstanding : ℕ
  pub committing : Bool
  pub lh : LogHeader
  pub cache : Disk
  pub disk : Disk
  pub pins : ℕ → ℕ
  pub issued : List Write

-- A change of the cached copy of one block, as through `bp->data`.
abbrev pub modify : Log → ℕ → Block → Log
modify s b v = record s { cache = update s.cache b v }

-- `bwrite`: the cached copy goes to the device.
unfoldable pub bwrite : Log → ℕ → Log
bwrite s b = record s {
  disk = update s.disk b (s.cache b);
  issued = s.issued ++ (b, s.cache b) ∷ [];
}

unfoldable pub bpin : Log → ℕ → Log
bpin s b = record s { pins = update s.pins b (s.pins b + 1) }

unfoldable pub bunpin : Log → ℕ → Log
bunpin s b = record s { pins = update s.pins b (s.pins b - 1) }

-- The body of the loop of `install_trans`.
unfoldable pub install_one : Bool → Log → ℕ → Log
unfolding bwrite bunpin
install_one recovering s tail =
    let dst = s.lh.block tail in
    let s' = bwrite (modify s dst (s.cache (s.start + tail + 1))) dst in
    if recovering then s' else bunpin s' dst

-- `for (tail = i; tail < i + k; tail++)`
unfoldable pub install_from : Bool → Log → ℕ → ℕ → Log
install_from recovering s i zero = s
install_from recovering s i (suc k) = install_from recovering (install_one recovering s i) (i + 1) k

unfoldable pub install_trans : Bool → Log → Log
install_trans recovering s = install_from recovering s 0 s.lh.n

-- `lh->block[i]` is word i + 1 of the header block.
pub read_entries : Block → (ℕ → ℕ) → ℕ → ℕ → ℕ → ℕ
read_entries hb block i zero = block
read_entries hb block i (suc k) = read_entries hb (update block i (hb (i + 1))) (i + 1) k

unfoldable pub read_head : Log → Log
unfolding read_entries
read_head s =
    let hb = s.cache s.start in
    record s { lh = record { n = hb 0; block = read_entries hb s.lh.block 0 (hb 0) } }

write_entries : (ℕ → ℕ) → Block → ℕ → ℕ → Block
write_entries block hb i zero = hb
write_entries block hb i (suc k) = write_entries block (update hb (i + 1) (block i)) (i + 1) k

-- The header block that `write_head` makes of the one in the cache.
unfoldable pub head_block : LogHeader → Block → Block
unfolding write_entries
head_block lh hb = write_entries lh.block (update hb 0 lh.n) 0 lh.n

unfoldable pub write_head : Log → Log
write_head s = bwrite (modify s s.start (head_block s.lh (s.cache s.start))) s.start

-- `log.lh.n = 0; write_head();`
unfoldable pub erase : Log → Log
erase s = write_head (record s { lh = record { n = 0; block = s.lh.block } })

unfoldable pub recover_from_log : Log → Log
recover_from_log s = erase (install_trans true (read_head s))

-- `sizeof(struct logheader)` is 124, below BSIZE, so the panic is not reached.
unfoldable pub initlog : ℕ → Log → Log
initlog logstart s = recover_from_log (record s { start = logstart })

-- The body of the loop of `write_log`.
unfoldable pub log_one : Log → ℕ → Log
unfolding bwrite
log_one s tail = let to = s.start + tail + 1 in bwrite (modify s to (s.cache (s.lh.block tail))) to

unfoldable pub log_from : Log → ℕ → ℕ → Log
log_from s i zero = s
log_from s i (suc k) = log_from (log_one s i) (i + 1) k

unfoldable pub write_log : Log → Log
write_log s = log_from s 0 s.lh.n

-- `commit`: copy to the log, write the header (the commit point), install, erase.
unfoldable pub commit : Log → Log
commit s = if ltb 0 s.lh.n then erase (install_trans false (write_head (write_log s))) else s
