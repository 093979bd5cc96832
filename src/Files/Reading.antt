-- ===== src/Files/Reading.antt =====
-- fileread of bytes within a file.
use eafitos.Base.{
  ℕ, ◌+◌, ◌/◌, ◌*◌, ◌^◌, ◌<◌, ◌≤◌, ◌≡◌, ◌≢◌, refl, ◌∙◌, Bool, true, Option, some, ◌⊎◌,
}
use eafitos.Files.{File, fd_inode}
use eafitos.Files.Transfer.{of_memory, moved_on, read_inode, fileread}
use eafitos.Fs.{Disk, SuperBlock, bsize}
use eafitos.Fs.Inode.{Inode}
use eafitos.Fs.File.{positions, at}
use eafitos.Fs.Content.{readi}
use eafitos.Fs.Bytes.{byte_at}
use eafitos.Fs.Writei.{IsStored}
use eafitos.Fs.RoundTrip.{readi_reads}

module _ (sb : SuperBlock) (copies : ℕ → ℕ → Bool) (works : (a m : ℕ) → copies a m ≡ true)
    (part : ℕ → ℕ → ℕ) (d : Disk) (ip : Inode) (addr n : ℕ) (mem : ℕ → ℕ) where
  fileread_inode :
      (device : ℕ → Bool) (f : File)
      → f.readable ≡ true
      → f.type ≡ fd_inode
      → fileread sb copies part device d ip f addr n mem
        ≡ read_inode sb copies part d ip f addr n mem
  unfolding fileread
  fileread_inode device f r t = simp (r, fileread, t) refl

  read_inode_runs :
      (f : File) (r : Option ℕ × (ℕ → ℕ) × Inode × Disk)
      → readi sb copies part d ip addr f.off n mem ≡ some r
      → read_inode sb copies part d ip f addr n mem
        ≡ some (of_memory r.0 r.1 (moved_on sb copies part f r.0) r.2 r.3)
  unfolding read_inode
  read_inode_runs f r e = rw (e, read_inode) refl

  -- For a descriptor that can be read, of a file that is stored on the disk and has all of the n bytes
  -- from the offset on, where copies to memory succeed: `fileread` returns n, memory holds these bytes
  -- of the file from addr on and is else as it was, and no byte of the file changes.
  pub fileread-reads :
      (device : ℕ → Bool) (f : File) (owner : ℕ → ℕ)
      → f.readable ≡ true
      → f.type ≡ fd_inode
      → IsStored sb owner d ip
      → f.off + n ≤ ip.size
      → f.off + n < 2 ^ 32
      → f.off + n ≤ positions * bsize
      → ((x : ℕ) → f.off ≤ x → x < f.off + n → at d ip (x / bsize) ≢ 0)
      → (mem' : ℕ → ℕ) × (ip' : Inode) × (d' : Disk) × (fileread sb copies part device d ip f addr n
            mem
          ≡ some (of_memory (some n) mem' (moved_on sb copies part f (some n)) ip' d'))
        × ((j : ℕ) → j < n → mem' (addr + j) ≡ byte_at d ip (f.off + j))
        × ((a : ℕ) → (a < addr) ⊎ (addr + n ≤ a) → mem' a ≡ mem a)
        × ((x : ℕ) → x / bsize < positions → byte_at d' ip' x ≡ byte_at d ip x)
  fileread-reads device f owner r t st inside lt fits full =
      let (mem', ip', d', e, copied, outside, same) =
        readi_reads sb copies works d ip addr f.off n mem part owner st inside lt fits full in
      (
        mem',
        ip',
        d',
        fileread_inode device f r t ∙ read_inode_runs f (some n, mem', ip', d') e,
        copied,
        outside,
        same,
      )
