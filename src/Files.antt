-- ===== src/Files.antt =====
-- kernel/file.c: the table of open files with its reference counts.
--
-- A file is its index in `ftable`. Counts do not wrap: there are fewer descriptors than 2 ^ 31.
pub mod Transfer
pub mod Writing
pub mod Reading
pub mod References
mod Tests
use eafitos.Base.{
  ℕ, zero, suc, ◌+◌, ◌-◌, Bool, true, false, Option, none, some, ltb, ◌==◌, if◌then◌else◌, update,
}

abbrev pub nfile : ℕ
nfile = 100

pub data FileType : Type 0 where
  fd_none fd_pipe fd_inode fd_device : FileType

-- `struct file`, with the pipe and the inode by number.
pub record File : Type 0 where
  pub type : FileType
  pub ref : ℕ
  pub readable : Bool
  pub writable : Bool
  pub pipe : ℕ
  pub ip : ℕ
  pub off : ℕ
  pub major : ℕ

abbrev pub Ftable : Type 0
Ftable = ℕ → File

abbrev pub with_ref : Ftable → ℕ → ℕ → Ftable
with_ref t f n = update t f (record (t f) { ref = n })

-- The loop of `filealloc` at file f, with so many files left.
unfoldable pub alloc_from : ℕ → ℕ → Ftable → Option ℕ × Ftable
alloc_from zero f t = (none, t)
alloc_from (suc left) f t =
    let rest = alloc_from left (f + 1) t in
    if (t f).ref == 0 then (some f, with_ref t f 1) else rest

unfoldable pub filealloc : Ftable → Option ℕ × Ftable
filealloc t = alloc_from nfile 0 t

-- `none` is a panic.
unfoldable pub filedup : ℕ → Ftable → Option Ftable
filedup f t = if ltb (t f).ref 1 then none else some (with_ref t f ((t f).ref + 1))

-- What `fileclose` calls once the last reference is gone.
pub data Release : Type 0 where
  pipe_close : ℕ → Bool → Release
  inode_put : ℕ → Release
  no_release : Release

unfoldable pub release : File → Release
release f = elim (f.type) [
  | fd_pipe ↦ pipe_close f.pipe f.writable
  | fd_inode ↦ inode_put f.ip
  | fd_device ↦ inode_put f.ip
  | fd_none ↦ no_release
]

-- The table afterwards, and the release unless references are left; `none` is a panic.
unfoldable pub fileclose : ℕ → Ftable → Option (Ftable × Option Release)
fileclose f t =
    if ltb (t f).ref 1
    then none
    else if ltb 0 ((t f).ref - 1)
    then some (with_ref t f ((t f).ref - 1), none)
    else some (update t f (record (t f) { type = fd_none; ref = 0 }), some (release (t f)))
