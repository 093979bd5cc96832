-- ===== src/Fs/Inode.antt =====
-- kernel/fs.c: the blocks of an inode, bmap, itrunc and iupdate.
use eafitos.Base.{
  ℕ, zero, suc, ◌+◌, ◌-◌, ◌*◌, ◌/◌, ◌%◌, ◌^◌, ◌==◌, ltb, if◌then◌else◌, Option, none, some, update,
  List,
}
use eafitos.Fs.{Disk, SuperBlock, bsize, balloc, bfree, log_block}

-- The fields of `struct inode` that are on the disk, and the inode's number.
pub record Inode : Type 0 where
  pub inum : ℕ
  pub kind : ℕ
  pub major : ℕ
  pub minor : ℕ
  pub nlink : ℕ
  pub size : ℕ
  pub addrs : ℕ → ℕ

abbrev pub ndirect : ℕ
ndirect = 12

abbrev pub nindirect : ℕ
nindirect = bsize / 4

abbrev pub ipb : ℕ
ipb = bsize / 64

-- A uint of a block, at the byte i, little end first.
abbrev pub get32 : (ℕ → ℕ) → ℕ → ℕ
get32 blk i = blk i + 2 ^ 8 * blk (i + 1) + 2 ^ 16 * blk (i + 2) + 2 ^ 24 * blk (i + 3)

abbrev pub put16 : (ℕ → ℕ) → ℕ → ℕ → ℕ → ℕ
put16 blk i v = update (update blk i (v % 2 ^ 8)) (i + 1) (v / 2 ^ 8 % 2 ^ 8)

abbrev pub put32 : (ℕ → ℕ) → ℕ → ℕ → ℕ → ℕ
put32 blk i v =
    update (update (put16 blk i v) (i + 2) (v / 2 ^ 16 % 2 ^ 8)) (i + 3) (v / 2 ^ 24 % 2 ^ 8)

-- `((uint*)bp->data)[j]`
unfoldable pub entry : (ℕ → ℕ) → ℕ → ℕ
entry blk j = get32 blk (4 * j)

unfoldable pub put_entry : (ℕ → ℕ) → ℕ → ℕ → ℕ → ℕ
put_entry blk j v = put32 blk (4 * j) v

abbrev pub with_addr : Inode → ℕ → ℕ → Inode
with_addr ip i a = record ip { addrs = update ip.addrs i a }

-- The copy of the addresses into the dinode at byte i, from the j-th on, k of them.
unfoldable pub put_addrs : (ℕ → ℕ) → ℕ → (ℕ → ℕ) → ℕ → ℕ → ℕ → ℕ
put_addrs addrs i blk j zero = blk
put_addrs addrs i blk j (suc k) = put_addrs addrs i (put32 blk (i + 4 * j) (addrs j)) (j + 1) k

-- The dinode at byte i of a block.
unfoldable pub put_dinode : Inode → (ℕ → ℕ) → ℕ → ℕ → ℕ
put_dinode ip blk i =
    let ids =
      put16 (put16 (put16 (put16 blk i ip.kind) (i + 2) ip.major) (i + 4) ip.minor) (i + 6)
        ip.nlink in
    put_addrs ip.addrs (i + 12) (put32 ids (i + 8) ip.size) 0 (ndirect + 1)

module _ (sb : SuperBlock) where
  -- `IBLOCK`
  abbrev pub iblock : ℕ → ℕ
  iblock inum = inum / ipb + sb.inodestart

  unfoldable pub iupdate : Disk → Inode → Disk
  iupdate d ip =
      update d (iblock ip.inum) (put_dinode ip (d (iblock ip.inum)) (64 * (ip.inum % ipb)))

  -- `addrs[i]`, with a new block where there is none; 0 where there is no space.
  unfoldable pub fill_slot : Disk → Inode → ℕ → ℕ × Inode × Disk
  fill_slot d ip i =
      if ip.addrs i == 0
      then (let r = balloc sb d in
          if r.0 == 0 then (0, ip, r.1) else (r.0, with_addr ip i r.0, r.1))
      else (ip.addrs i, ip, d)

  -- The entry j of the indirect block, likewise.
  unfoldable pub fill_entry : Disk → Inode → ℕ → ℕ → ℕ × Inode × Disk
  fill_entry d ip block j =
      if entry (d block) j == 0
      then (let r = balloc sb d in
          if r.0 == 0
          then (0, ip, r.1)
          else (r.0, ip, update r.1 block (put_entry (r.1 block) j r.0)))
      else (entry (d block) j, ip, d)

  unfoldable pub bmap : Disk → Inode → ℕ → Option (ℕ × Inode × Disk)
  bmap d ip bn =
      if ltb bn ndirect
      then some (fill_slot d ip bn)
      else if ltb (bn - ndirect) nindirect
      then (let f = fill_slot d ip ndirect in
          some (if f.0 == 0 then f else fill_entry f.2 f.1 f.0 (bn - ndirect)))
      else none

  -- The first loop of `itrunc`, at i with k rounds left, with the header of the log.
  unfoldable pub free_slots : List ℕ → Disk → Inode → ℕ → ℕ → Option (Inode × List ℕ × Disk)
  free_slots lh d ip i zero = some (ip, lh, d)
  free_slots lh d ip i (suc k) =
      let rest = free_slots lh d ip (i + 1) k in
      if ip.addrs i == 0 then rest else elim (bfree sb lh d (ip.addrs i)) [
        | none ↦ none
        | some r ↦ free_slots r.0 r.1 (with_addr ip i 0) (i + 1) k
      ]

  -- The second loop, over the entries of a block.
  unfoldable pub free_entries : List ℕ → Disk → ℕ → ℕ → ℕ → Option (List ℕ × Disk)
  free_entries lh d block j zero = some (lh, d)
  free_entries lh d block j (suc k) =
      let rest = free_entries lh d block (j + 1) k in
      if entry (d block) j == 0 then rest else elim (bfree sb lh d (entry (d block) j)) [
        | none ↦ none
        | some r ↦ free_entries r.0 r.1 block (j + 1) k
      ]

  -- The indirect block and what it refers to.
  unfoldable pub free_indirect : List ℕ → Disk → Inode → Option (Inode × List ℕ × Disk)
  free_indirect lh d ip =
      if ip.addrs ndirect == 0
      then some (ip, lh, d)
      else elim (free_entries lh d (ip.addrs ndirect) 0 nindirect) [
        | none ↦ none
        | some r ↦ elim (bfree sb r.0 r.1 (ip.addrs ndirect)) [
          | none ↦ none
          | some q ↦ some (with_addr ip ndirect 0, q.0, q.1)
        ]
      ]

  abbrev pub emptied : Inode → Inode
  emptied ip = record ip { size = 0 }

  -- Within a transaction whose log has these blocks.
  unfoldable pub itrunc : List ℕ → Disk → Inode → Option (Inode × List ℕ × Disk)
  itrunc lh d ip = elim (free_slots lh d ip 0 ndirect) [
    | none ↦ none
    | some r ↦ elim (free_indirect r.1 r.2 r.0) [
      | none ↦ none
      | some q ↦ elim (log_block q.1 (iblock ip.inum)) [
        | none ↦ none
        | some lh' ↦ some (emptied q.0, lh', iupdate q.2 (emptied q.0))
      ]
    ]
  ]
