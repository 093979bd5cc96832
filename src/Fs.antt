-- ===== src/Fs.antt =====
-- kernel/fs.c: blocks, inodes, directories and paths.
--
-- The disk is the bytes of its blocks as `bread` shows them, so that a block that is read, changed
-- and given to `log_write` is an update. There is one device. `none` is a panic. The blocks in the
-- header of the log are a list. `bfree` and `itrunc` give their blocks to `log_write` one by one
-- and panic where it does; the blocks that `balloc`, `bmap` and `writei` give to it are listed by
-- Journal, and `filewrite` panics where `log_write` of one of them does.
pub mod Bits
pub mod Bitmap
pub mod Used
pub mod Logged
pub mod Alloc
pub mod Free
pub mod Inode
pub mod Entry
pub mod File
pub mod Slot
pub mod Indirect
pub mod Bmap
pub mod Stage
pub mod Trunc
pub mod Content
pub mod Journal
pub mod Bytes
pub mod Written
pub mod Write
pub mod Dinode
pub mod Update
pub mod Writei
pub mod Read
pub mod RoundTrip
pub mod Path
pub mod Sample
mod Tests
use eafitos.Base.{
  ℕ, zero, suc, ◌+◌, ◌-◌, ◌*◌, ◌/◌, ◌%◌, ◌^◌, Bool, true, false, not, ltb, ◌==◌, if◌then◌else◌,
  Option, none, some, min, update, List, [], ◌∷◌, leb, length,
}
use eafitos.Log.{log_blocks}
use Prim.Native.Nat.{bit_or, bit_and, bit_xor}

abbrev pub Disk : Type 0
Disk = ℕ → ℕ → ℕ

-- The fields of the super block that the functions read.
pub record SuperBlock : Type 0 where
  pub size : ℕ
  pub inodestart : ℕ
  pub bmapstart : ℕ

-- Block b is in the header of the log.
unfoldable pub logged : ℕ → List ℕ → Bool
logged b [] = false
logged b (c ∷ lh) = if c == b then true else logged b lh

abbrev pub added : List ℕ → ℕ → List ℕ
added lh b = if logged b lh then lh else b ∷ lh

-- `log_write` within a transaction: it panics where the header is full, and takes a block once.
unfoldable pub log_block : List ℕ → ℕ → Option (List ℕ)
log_block lh b = if leb log_blocks (length lh) then none else some (added lh b)

-- A sequence of calls of `log_write`.
unfoldable pub log_all : List ℕ → List ℕ → Option (List ℕ)
log_all lh [] = some lh
log_all lh (b ∷ bs) = elim (log_block lh b) [ none ↦ none | some lh' ↦ log_all lh' bs ]

abbrev pub bsize : ℕ
bsize = 1024

abbrev pub bpb : ℕ
bpb = bsize * 8

unfoldable pub bzero : Disk → ℕ → Disk
bzero d bno = update d bno (λ i. 0)

-- `1 << (bi % 8)`
abbrev pub mask : ℕ → ℕ
mask bi = 2 ^ (bi % 8)

-- The bit bi of the bitmap block at number bm is set.
unfoldable pub in_use : Disk → ℕ → ℕ → Bool
in_use d bm bi = not (bit_and (d bm (bi / 8)) (mask bi) == 0)

unfoldable pub mark : Disk → ℕ → ℕ → Disk
mark d bm bi = update d bm (update (d bm) (bi / 8) (bit_or (d bm (bi / 8)) (mask bi)))

-- `&= ~m`, on a byte
unfoldable pub clear : Disk → ℕ → ℕ → Disk
clear d bm bi =
    update d bm (update (d bm) (bi / 8) (bit_and (d bm (bi / 8)) (bit_xor 255 (mask bi))))

module _ (sb : SuperBlock) where
  -- `BBLOCK`
  abbrev pub bblock : ℕ → ℕ
  bblock b = b / bpb + sb.bmapstart

  -- `BBLOCK` of an int, by its 32 bits: the division of a negative one rounds towards 0.
  abbrev pub bblock_int : ℕ → ℕ
  bblock_int b =
      if ltb b (2 ^ 31) then bblock b else (2 ^ 32 - (2 ^ 32 - b) / bpb + sb.bmapstart) % 2 ^ 32

  -- The inner loop of `balloc` at bi, with k rounds left.
  unfoldable pub scan : Disk → ℕ → ℕ → ℕ → Option ℕ
  scan d b bi zero = none
  scan d b bi (suc k) =
      let rest = scan d b (bi + 1) k in if in_use d (bblock_int b) bi then rest else some bi

  -- The outer loop at b, an int by its 32 bits, with k rounds left.
  unfoldable pub balloc_from : Disk → ℕ → ℕ → ℕ × Disk
  balloc_from d b zero = (0, d)
  balloc_from d b (suc k) = elim (scan d b 0 (min bpb (sb.size - b))) [
    | none ↦ balloc_from d ((b + bpb) % 2 ^ 32) k
    | some bi ↦ (b + bi, bzero (mark d (bblock_int b) bi) (b + bi))
  ]

  -- 0 where all blocks are in use.
  unfoldable pub balloc : Disk → ℕ × Disk
  balloc d = balloc_from d 0 ((sb.size + bpb - 1) / bpb)

  unfoldable pub bfree : List ℕ → Disk → ℕ → Option (List ℕ × Disk)
  bfree lh d b =
      if in_use d (bblock b) (b % bpb)
      then elim (log_block lh (bblock b)) [
        | none ↦ none
        | some lh' ↦ some (lh', clear d (bblock b) (b % bpb))
      ]
      else none
