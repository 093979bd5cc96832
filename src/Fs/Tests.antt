-- ===== src/Fs/Tests.antt =====
-- Examples of the file system.
use eafitos.Base.{
  ℕ, ◌+◌, ◌/◌, ◌<◌, ◌≤◌, ◌≡◌, ◌≢◌, ◌⊎◌, refl, true, false, none, some, List, [], ◌∷◌, map, take,
  arith,
}
use eafitos.Fs.{Disk, balloc, bsize, bblock}
use eafitos.Fs.Used.{used}
use eafitos.Fs.Alloc.{Taken, balloc-Taken}
use eafitos.Fs.Inode.{Inode, bmap, itrunc, iblock, ndirect}
use eafitos.Fs.Dinode.{IsOnDisk}
use eafitos.Fs.File.{positions, at}
use eafitos.Fs.Slot.{Mapped}
use eafitos.Fs.Bmap.{bmap-Mapped}
use eafitos.Fs.Trunc.{itrunc-frees}
use eafitos.Fs.Content.{writei, readi}
use eafitos.Fs.Bytes.{byte_at}
use eafitos.Fs.RoundTrip.{inode_of, disk_of, readi-writei}
use eafitos.Fs.Path.{names, split, non_empty, dirsiz, names-split}
use eafitos.Fs.Sample.{
  sb, disk, file, owner, disk-IsFs, file-IsStored, long_disk, long_file, long_owner, long_disk-IsFs,
  long_file-IsStored, get, part, user, fetch,
}

balloc-Taken_example :
    (((c : ℕ) → c < 8 → used sb disk c ≡ true) × (balloc sb disk ≡ (0, disk)))
    ⊎ ((r : ℕ) × (d' : Disk) × (balloc sb disk ≡ (r, d')) × Taken sb disk d' r)
balloc-Taken_example = balloc-Taken sb disk disk-IsFs

balloc_first : (balloc sb disk).0 ≡ 4
unfolding balloc eafitos.Fs.balloc_from eafitos.Fs.scan eafitos.Fs.in_use
balloc_first = refl

bmap-Mapped_example :
    ((positions ≤ 13) × (bmap sb long_disk long_file 13 ≡ none))
    ⊎ ((13 < positions)
        × (b : ℕ) × (ip' : Inode) × (d' : Disk) × (bmap sb long_disk long_file 13
            ≡ some (b, ip', d'))
        × Mapped sb long_owner long_disk long_file 13 positions b ip' d')
bmap-Mapped_example =
    bmap-Mapped sb long_owner long_disk long_file long_disk-IsFs long_file-IsStored.file 13

itrunc-frees_example :
    (ip' : Inode) × (lh : List ℕ) × (d' : Disk) × (itrunc sb [] long_disk long_file
      ≡ some (ip', lh, d'))
    × (ip'.size ≡ 0)
    × ((j : ℕ) → j ≤ ndirect → ip'.addrs j ≡ 0)
    × IsOnDisk sb ip' d'
    × ((p : ℕ)
        → p ≤ positions
        → at long_disk long_file p ≢ 0
        → used sb d' (at long_disk long_file p) ≡ false)
    × ((c : ℕ)
        → ((p : ℕ) → p ≤ positions → at long_disk long_file p ≢ c)
        → used sb d' c ≡ used sb long_disk c)
itrunc-frees_example =
    itrunc-frees sb long_owner long_disk long_file long_disk-IsFs long_file-IsStored.file []
      (omega arith) (λ c e. absurd (omega (arith, e)))

abbrev file2 : Inode
file2 = inode_of file (writei sb get part disk file 500 0 3)

abbrev disk2 : Disk
disk2 = disk_of disk (writei sb get part disk file 500 0 3)

written : writei sb get part disk file 500 0 3 ≡ some (some 3, file2, disk2)
unfolding writei eafitos.Fs.Content.write_loop bmap eafitos.Fs.Inode.fill_slot balloc
    eafitos.Fs.balloc_from eafitos.Fs.scan eafitos.Fs.in_use
written = refl

readi-writei_example :
    (mem' : ℕ → ℕ) × (ip2 : Inode) × (d2 : Disk) × (readi sb
        (λ a m. true)
        (λ a m. 0)
        disk2
        file2
        900
        0
        3
        (λ a. 0)
      ≡ some (some 3, mem', ip2, d2))
    × ((j : ℕ) → j < 3 → mem' (900 + j) ≡ 7)
    × ((a : ℕ) → (a < 900) ⊎ (903 ≤ a) → mem' a ≡ 0)
    × ((x : ℕ) → x / bsize < positions → byte_at d2 ip2 x ≡ byte_at disk2 file2 x)
readi-writei_example =
    readi-writei sb get part user (λ a m. true) (λ a m. 0) disk disk2 file file2 owner 500 900 0 3
      (λ a. 0) fetch (λ a m. refl) file-IsStored (omega arith) written

-- "/a//bb/" has the names "a" and "bb".
abbrev path : List ℕ
path = 47 ∷ 97 ∷ 47 ∷ 47 ∷ 98 ∷ 98 ∷ 47 ∷ []

path-names : names 7 path ≡ (97 ∷ []) ∷ (98 ∷ 98 ∷ []) ∷ []
unfolding names eafitos.Fs.Path.skipelem eafitos.Fs.Path.skip_slashes eafitos.Fs.Path.element
    eafitos.Fs.Path.after
path-names = refl

names-split_example : names 7 path ≡ map (take dirsiz) (non_empty (split path))
names-split_example = names-split 7 path (omega arith)
