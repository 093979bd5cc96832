-- ===== src/Files/Tests.antt =====
-- Examples of a file table with one pipe that two descriptors share.
use eafitos.Base.{
  ℕ, ◌≡◌, ◌<◌, refl, Bool, true, false, Option, none, some, List, [], ◌∷◌, arith, ◌==◌,
  if◌then◌else◌, ◌⊎◌, Bool-cases, inl, inr,
}
use eafitos.Files.{
  nfile, File, Ftable, fd_none, fd_pipe, fd_inode, filealloc, filedup, Release, pipe_close,
  fileclose,
}
use eafitos.Files.Transfer.{Transfer, of_file, filewrite}
use eafitos.Files.Writing.{Sent, filewrite-Sent}
use eafitos.Fs.{Disk}
use eafitos.Fs.Inode.{Inode}
use eafitos.Fs.Sample.{sb, disk, file, owner, file-IsStored, get, part, user, fetch}
use eafitos.Files.References.{count, Counted, Owes, fileclose_counts}

abbrev free_file : File
free_file = record {
  type = fd_none;
  ref = 0;
  readable = false;
  writable = false;
  pipe = 0;
  ip = 0;
  off = 0;
  major = 0;
}

abbrev write_end : File
write_end = record free_file { type = fd_pipe; ref = 2; writable = true; pipe = 7 }

abbrev shared : Ftable
shared f = if 3 == f then write_end else free_file

abbrev two_held : List ℕ
two_held = 3 ∷ 3 ∷ []

shared-Counted : Counted shared two_held
shared-Counted f = elim (Bool-cases (3 == f)) [ inl t ↦ rw t refl | inr t ↦ rw t refl ]

fileclose_counts_example :
    (t' : Ftable) × (freed : Option Release) × (fileclose 3 shared ≡ some (t', freed))
    × Counted t' (3 ∷ [])
    × (((count 3 (3 ∷ []) ≡ 0) × (r : Release) × (freed ≡ some r) × Owes write_end r)
        ⊎ ((0 < count 3 (3 ∷ [])) × (freed ≡ none)))
unfolding eafitos.Files.release
fileclose_counts_example = fileclose_counts shared two_held 3 shared-Counted (omega arith)

-- A file that is open for writing, at its start.
abbrev log_file : File
log_file = record free_file { type = fd_inode; ref = 1; writable = true; ip = 1 }

-- A device that is not there.
abbrev no_device : ℕ → Bool
no_device major = false

filewrite-Sent_example :
    (tot : ℕ) × (off : ℕ) × (ip : Inode) × (d : Disk) × (filewrite sb get part no_device disk file
        log_file 500 3
      ≡ some (of_file (if tot == 3 then some 3 else none) (record log_file { off = off }) ip d))
    × Sent sb get part user fetch disk file 500 0 3 (omega arith) tot off ip d
filewrite-Sent_example =
    filewrite-Sent sb get part user fetch disk file 500 0 3 (omega arith) no_device log_file owner
      refl refl refl (omega arith) file-IsStored

abbrev returned : Option Transfer → Option ℕ
returned (some (of_file ret f ip d)) = ret
returned _ = none

write_returns : returned (filewrite sb get part no_device disk file log_file 500 3) ≡ some 3
unfolding filewrite eafitos.Files.Transfer.write_inode eafitos.Files.Transfer.send
    eafitos.Fs.log_all eafitos.Fs.log_block eafitos.Fs.logged eafitos.Fs.Journal.writei_logs
    eafitos.Fs.Journal.write_loop_logs eafitos.Fs.Journal.bmap_logs eafitos.Fs.Journal.slot_logs
    eafitos.Fs.Journal.balloc_logs eafitos.Fs.Journal.balloc_logs_from eafitos.Fs.Content.writei
    eafitos.Fs.Content.write_loop eafitos.Fs.Inode.bmap eafitos.Fs.Inode.fill_slot eafitos.Fs.balloc
    eafitos.Fs.balloc_from eafitos.Fs.scan eafitos.Fs.in_use
write_returns = refl
