-- ===== src/Files/Transfer.antt =====
-- kernel/file.c: filewrite and fileread, over writei and readi of kernel/fs.c.
--
-- An inode is locked for each call of `writei`, which is a transaction of its own on an empty log and
-- panics where `log_write` does. What pipes and devices do is left to them, and named. An int is its 32 bits.
use eafitos.Base.{
  [], ℕ, zero, suc, ◌+◌, ◌-◌, ◌*◌, ◌/◌, ◌%◌, ◌^◌, Bool, true, false, ◌&&◌, ◌==◌, ltb, if◌then◌else◌,
  Option, none, some, min,
}
use eafitos.Files.{File, fd_none, fd_pipe, fd_inode, fd_device}
use eafitos.Fs.{Disk, SuperBlock, bsize, log_all}
use eafitos.Fs.Journal.{writei_logs}
use eafitos.Fs.Inode.{Inode}
use eafitos.Fs.Content.{writei, readi}

abbrev pub maxopblocks : ℕ
maxopblocks = 10

abbrev pub ndev : ℕ
ndev = 10

-- The most bytes of one transaction.
abbrev pub most_bytes : ℕ
most_bytes = (maxopblocks - 1 - 1 - 2) / 2 * bsize

-- The variables of the loop of `filewrite`, and f->off.
pub record Sending : Type 0 where
  pub i : ℕ
  pub off : ℕ
  pub ip : Inode
  pub disk : Disk

-- Which call a transfer is; `none` for the number of bytes is -1.
pub data Transfer : Type 0 where
  refused : Transfer
  of_pipe : ℕ → ℕ → ℕ → Transfer
  of_device : ℕ → ℕ → ℕ → Transfer
  of_file : Option ℕ → File → Inode → Disk → Transfer
  of_memory : Option ℕ → (ℕ → ℕ) → File → Inode → Disk → Transfer

-- `major < 0 || major >= NDEV || !devsw[major].write`, negated; a negative short is past NDEV.
abbrev pub has_device : (ℕ → Bool) → ℕ → Bool
has_device device major = ltb major ndev && device major

module _ (sb : SuperBlock) (get : ℕ → ℕ → Option (ℕ → ℕ)) (part : ℕ → ℕ → ℕ × (ℕ → ℕ)) where
  -- What a round does after `writei` of n1 bytes: the next state, and whether the loop goes on.
  abbrev pub sent : Sending → ℕ → Option ℕ × Inode × Disk → Bool × Sending
  sent s n1 (none, ip, d) = (false, record { i = s.i; off = s.off; ip = ip; disk = d })
  sent s n1 (some r, ip, d) =
      if r == n1
      then (true, record { i = s.i + r; off = (s.off + r) % 2 ^ 32; ip = ip; disk = d })
      else (false, record { i = s.i; off = (s.off + r) % 2 ^ 32; ip = ip; disk = d })

  -- The loop of `filewrite` with k rounds left.
  unfoldable pub send : ℕ → ℕ → ℕ → Sending → Option Sending
  send zero addr n s = some s
  send (suc k) addr n s =
      if ltb s.i n
      then (let n1 = min (n - s.i) most_bytes in
          elim (log_all [] (writei_logs sb get s.disk s.ip (addr + s.i) s.off n1)) [
            | none ↦ none
            | some lh ↦ elim (writei sb get part s.disk s.ip (addr + s.i) s.off n1) [
              | none ↦ none
              | some w ↦
                  let next = sent s n1 w in
                  elim next.0 [ true ↦ send k addr n next.1 | false ↦ some next.1 ]
            ]
          ])
      else some s

  -- The branch of `filewrite` for an inode; `none` is a panic.
  unfoldable pub write_inode : Disk → Inode → File → ℕ → ℕ → Option Transfer
  write_inode d ip f addr n =
      if ltb n (2 ^ 31)
      then elim (send n addr n (record { i = 0; off = f.off; ip = ip; disk = d })) [
        | none ↦ none
        | some s ↦
            let ret : Option ℕ = if s.i == n then some n else none in
            some (of_file ret (record f { off = s.off }) s.ip s.disk)
      ]
      else some (of_file none f ip d)

  unfoldable pub filewrite : (ℕ → Bool) → Disk → Inode → File → ℕ → ℕ → Option Transfer
  filewrite device d ip f addr n =
      if f.writable
      then elim (f.type) [
        | fd_pipe ↦ some (of_pipe f.pipe addr n)
        | fd_device ↦ some (if has_device device f.major then of_device f.major addr n else refused)
        | fd_inode ↦ write_inode d ip f addr n
        | fd_none ↦ none
      ]
      else some refused

module _ (sb : SuperBlock) (copies : ℕ → ℕ → Bool) (part : ℕ → ℕ → ℕ) where
  -- `if((r = readi(...)) > 0) f->off += r`
  abbrev pub moved_on : File → Option ℕ → File
  moved_on f none = f
  moved_on f (some r) = if ltb 0 r then record f { off = (f.off + r) % 2 ^ 32 } else f

  -- The branch of `fileread` for an inode.
  unfoldable pub read_inode : Disk → Inode → File → ℕ → ℕ → (ℕ → ℕ) → Option Transfer
  read_inode d ip f addr n mem = elim (readi sb copies part d ip addr f.off n mem) [
    | none ↦ none
    | some r ↦ some (of_memory r.0 r.1 (moved_on f r.0) r.2 r.3)
  ]

  unfoldable pub fileread : (ℕ → Bool) → Disk → Inode → File → ℕ → ℕ → (ℕ → ℕ) → Option Transfer
  fileread device d ip f addr n mem =
      if f.readable
      then elim (f.type) [
        | fd_pipe ↦ some (of_pipe f.pipe addr n)
        | fd_device ↦ some (if has_device device f.major then of_device f.major addr n else refused)
        | fd_inode ↦ read_inode d ip f addr n mem
        | fd_none ↦ none
      ]
      else some refused
