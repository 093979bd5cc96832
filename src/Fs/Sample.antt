-- ===== src/Fs/Sample.antt =====
-- A disk of eight blocks, the first four in use, and an empty file, for the examples.
use eafitos.Base.{
  Option, none, some, ℕ, ◌≢◌, ◌⊎◌, inl, inr, sym, subst, ℕ_discrete, ◌+◌, ◌<◌, ◌≡◌, refl, ap, ◌∙◌,
  true, arith, if◌then◌else◌, ◌==◌, ◌&&◌,
}
use eafitos.Fs.{Disk, SuperBlock, bsize, bblock}
use eafitos.Fs.Used.{used, IsFs}
use eafitos.Fs.Inode.{Inode, entry}
use eafitos.Fs.File.{
  IsBlock, positions, at, at-entry, at_direct, at_last, at_none, Place, direct, indirect, last,
  place,
}
use eafitos.Fs.Write.{IsFetch}
use eafitos.Fs.Writei.{IsStored}

abbrev pub sb : SuperBlock
sb = record { size = 8; inodestart = 2; bmapstart = 3 }

-- The bitmap is block 3, and its first byte says 00001111.
abbrev pub disk : Disk
disk b i = if b == 3 && i == 0 then 15 else 0

abbrev pub file : Inode
file = record { inum = 1; kind = 2; major = 0; minor = 0; nlink = 1; size = 0; addrs = λ i. 0 }

abbrev pub owner : ℕ → ℕ
owner b = positions + 1

used_boot : used sb disk 0 ≡ true
unfolding eafitos.Fs.in_use
used_boot = refl

used_inodes : used sb disk 2 ≡ true
unfolding eafitos.Fs.in_use
used_inodes = refl

used_map : used sb disk 3 ≡ true
unfolding eafitos.Fs.in_use
used_map = refl

one_map : (c : ℕ) → c < 8 → bblock sb c ≡ 3
one_map c h = omega (arith, h)

pub disk-IsFs : IsFs sb disk
disk-IsFs = record {
  small = omega arith;
  bytes = λ b i. ground arith;
  boot = used_boot;
  inside = λ c h. omega (arith, h);
  maps = λ c h. ap (used sb disk) (one_map c h) ∙ used_map;
}

nothing : (p : ℕ) → Place p → at disk file p ≡ 0
nothing p (direct _ h) = at_direct disk file p h
nothing p (indirect j h) = at_none disk file j h refl
nothing p last = at_last disk file

pub file-IsStored : IsStored sb owner disk file
file-IsStored = record {
  fs = disk-IsFs;
  file = λ p le nz. absurd (nz (nothing p (place p le)));
  home = record {
    below = omega arith;
    taken = used_inodes;
    place = omega arith;
    apart = λ c h e. absurd (omega (arith, e, one_map c h));
  };
}

-- A disk with a file of three blocks: block 4 at position 0, and the indirect block 5, whose first
-- entry is block 6. Seven of the eight blocks are in use.
abbrev pub long_disk : Disk
long_disk b i = if b == 3 && i == 0 then 127 else if b == 5 && i == 0 then 6 else 0

abbrev pub long_file : Inode
long_file = record file {
  size = 12293;
  addrs = λ i. if i == 0 then 4 else if i == 12 then 5 else 0;
}

abbrev pub long_owner : ℕ → ℕ
long_owner b =
    if b == 4 then 0 else if b == 5 then positions else if b == 6 then 12 else positions + 1

used_long : (b : ℕ) → b < 7 → used sb long_disk b ≡ true
unfolding eafitos.Fs.in_use
used_long b h = elim (below_seven b h) [
  | inl e ↦ rw e refl
  | inr (inl e) ↦ rw e refl
  | inr (inr (inl e)) ↦ rw e refl
  | inr (inr (inr (inl e))) ↦ rw e refl
  | inr (inr (inr (inr (inl e)))) ↦ rw e refl
  | inr (inr (inr (inr (inr (inl e))))) ↦ rw e refl
  | inr (inr (inr (inr (inr (inr e))))) ↦ rw e refl
]
  where
    below_seven :
        (b : ℕ)
        → b < 7
        → (b ≡ 0) ⊎ ((b ≡ 1) ⊎ ((b ≡ 2) ⊎ ((b ≡ 3) ⊎ ((b ≡ 4) ⊎ ((b ≡ 5) ⊎ (b ≡ 6))))))
    below_seven b h = omega (arith, h)

pub long_disk-IsFs : IsFs sb long_disk
long_disk-IsFs = record {
  small = omega arith;
  bytes = λ b i. ground arith;
  boot = used_long 0 (omega arith);
  inside = λ c h. omega (arith, h);
  maps = λ c h. ap (used sb long_disk) (one_map c h) ∙ used_long 3 (omega arith);
}

long-IsBlock : (b p : ℕ) → 3 < b → b < 7 → long_owner b ≡ p → IsBlock sb long_owner long_disk p b
long-IsBlock b p lo hi o = record {
  below = omega (arith, hi);
  taken = used_long b hi;
  place = o;
  apart = λ c h e. absurd (omega (arith, lo, e, one_map c h));
}

long_entry : (j : ℕ) → entry (long_disk 5) j ≡ (if j == 0 then 6 else 0)
unfolding entry
long_entry j = ground arith

long_place :
    (p : ℕ)
    → Place p
    → at long_disk long_file p ≢ 0
    → IsBlock sb long_owner long_disk p (at long_disk long_file p)
long_place p (direct _ h) nz = elim (ℕ_discrete p 0) [
  | yes e ↦
      let q : at long_disk long_file p ≡ 4 =
        at_direct long_disk long_file p h ∙ ground (arith, e) in
      subst (IsBlock sb long_owner long_disk p) (sym q)
        (long-IsBlock 4 p (omega arith) (omega arith) (sym e))
  | no ne ↦ absurd (nz (at_direct long_disk long_file p h ∙ ground (arith, h, ne)))
]
long_place p (indirect j h) nz =
    let a = at-entry long_disk long_file j h (omega arith) ∙ long_entry j in
    elim (ℕ_discrete j 0) [
      | yes e ↦
          let q : at long_disk long_file (12 + j) ≡ 6 = a ∙ ground (arith, e) in
          subst (IsBlock sb long_owner long_disk (12 + j)) (sym q)
            (long-IsBlock 6 (12 + j) (omega arith) (omega arith) (omega (arith, e)))
      | no ne ↦ absurd (nz (a ∙ ground (arith, ne)))
    ]
long_place p last nz =
    subst (IsBlock sb long_owner long_disk positions) (sym (at_last long_disk long_file))
      (long-IsBlock 5 positions (omega arith) (omega arith) refl)

pub long_file-IsStored : IsStored sb long_owner long_disk long_file
long_file-IsStored = record {
  fs = long_disk-IsFs;
  file = λ p le nz. long_place p (place p le) nz;
  home = record {
    below = omega arith;
    taken = used_long 2 (omega arith);
    place = omega arith;
    apart = λ c h e. absurd (omega (arith, e, one_map c h));
  };
}

-- The byte 7 at any address.
abbrev pub user : ℕ → ℕ
user a = 7

abbrev pub get : ℕ → ℕ → Option (ℕ → ℕ)
get a m = some (λ j. 7)

abbrev byte_of : ℕ → Option (ℕ → ℕ) → ℕ
byte_of j none = 0
byte_of j (some f) = f j

-- A failing copy puts nothing.
abbrev pub part : ℕ → ℕ → ℕ × (ℕ → ℕ)
part a m = (0, λ j. 0)

pub fetch : IsFetch get part user
fetch = record {
  whole = λ a m bytes e j h. let q : bytes j ≡ 7 = sym (ap (byte_of j) e) in (q, omega (arith, q));
  fewer = λ a m. omega arith;
  bytes = λ a m j. omega arith;
}
