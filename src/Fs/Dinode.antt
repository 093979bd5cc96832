-- ===== src/Fs/Dinode.antt =====
-- The dinode that iupdate writes.
use eafitos.Base.{
  ℕ, zero, suc, ◌+◌, ◌*◌, ◌%◌, ◌^◌, ◌<◌, ◌≤◌, ◌≡◌, refl, sym, ◌∙◌, subst, arith, ℕ_discrete, update,
  update_self,
}
use eafitos.Fs.{Disk, SuperBlock}
use eafitos.Fs.Inode.{
  Inode, ndirect, ipb, get32, put16, put32, put_addrs, put_dinode, iblock, iupdate,
}
use eafitos.Fs.Entry.{put32_other, put32_0, put32_1, put32_2, put32_3}

-- A short of a block, at the byte i.
abbrev pub get16 : (ℕ → ℕ) → ℕ → ℕ
get16 blk i = blk i + 2 ^ 8 * blk (i + 1)

-- The dinode at byte i of a block has the inode's fields, cut to their widths.
pub record IsDinode (ip : Inode) (blk : ℕ → ℕ) (i : ℕ) : Type 0 where
  pub kind : get16 blk i ≡ ip.kind % 2 ^ 16
  pub major : get16 blk (i + 2) ≡ ip.major % 2 ^ 16
  pub minor : get16 blk (i + 4) ≡ ip.minor % 2 ^ 16
  pub nlink : get16 blk (i + 6) ≡ ip.nlink % 2 ^ 16
  pub size : get32 blk (i + 8) ≡ ip.size % 2 ^ 32
  pub addrs : (j : ℕ) → j ≤ ndirect → get32 blk (i + 12 + 4 * j) ≡ ip.addrs j % 2 ^ 32

-- The inode's place on the disk holds it.
abbrev pub IsOnDisk : SuperBlock → Inode → Disk → Type 0
IsOnDisk sb ip d = IsDinode ip (d (iblock sb ip.inum)) (64 * (ip.inum % ipb))

get32-put : (blk : ℕ → ℕ) (i v : ℕ) → get32 (put32 blk i v) i ≡ v % 2 ^ 32
get32-put blk i v =
    omega (arith, put32_0 blk i v, put32_1 blk i v, put32_2 blk i v, put32_3 blk i v)

-- Bytes below the j-th address stay.
put_addrs-low :
    (addrs : ℕ → ℕ) (i : ℕ) (blk : ℕ → ℕ) (j k x : ℕ)
    → x < i + 4 * j
    → put_addrs addrs i blk j k x ≡ blk x
unfolding put_addrs
put_addrs-low addrs i blk j zero x h = refl
put_addrs-low addrs i blk j (suc k) x h =
    put_addrs-low addrs i (put32 blk (i + 4 * j) (addrs j)) (j + 1) k x (omega (arith, h))
    ∙ put32_other blk (i + 4 * j) (addrs j) x (omega (arith, h)) (omega (arith, h))
        (omega (arith, h)) (omega (arith, h))

get32-same :
    (f g : ℕ → ℕ) (i : ℕ) → ((x : ℕ) → i ≤ x → x < i + 4 → f x ≡ g x) → get32 f i ≡ get32 g i
get32-same f g i h = omega (
  arith,
  h i (omega arith) (omega arith),
  h (i + 1) (omega arith) (omega arith),
  h (i + 2) (omega arith) (omega arith),
  h (i + 3) (omega arith) (omega arith),
)

get32-put_addrs :
    (addrs : ℕ → ℕ) (i : ℕ) (blk : ℕ → ℕ) (j k p : ℕ)
    → j ≤ p
    → p < j + k
    → get32 (put_addrs addrs i blk j k) (i + 4 * p) ≡ addrs p % 2 ^ 32
unfolding put_addrs
get32-put_addrs addrs i blk j zero p lo hi = absurd (omega (arith, lo, hi))
get32-put_addrs addrs i blk j (suc k) p lo hi = elim (ℕ_discrete j p) [
  | no ne ↦
      get32-put_addrs addrs i (put32 blk (i + 4 * j) (addrs j)) (j + 1) k p (omega (arith, lo, ne))
        (omega (arith, hi))
  | yes e ↦
      let now = put32 blk (i + 4 * j) (addrs j) in
      subst (λ q. get32 (put_addrs addrs i now (j + 1) k) (i + 4 * q) ≡ addrs q % 2 ^ 32) e
        (get32-same (put_addrs addrs i now (j + 1) k) now (i + 4 * j)
            (λ x l m. put_addrs-low addrs i now (j + 1) k x (omega (arith, m)))
          ∙ get32-put blk (i + 4 * j) (addrs j))
]

module _ (ip : Inode) (blk : ℕ → ℕ) (i : ℕ) where
  -- The block once the fields before the addresses are written.
  abbrev ids : ℕ → ℕ
  ids =
      put16 (put16 (put16 (put16 blk i ip.kind) (i + 2) ip.major) (i + 4) ip.minor) (i + 6) ip.nlink

  abbrev front : ℕ → ℕ
  front = put32 ids (i + 8) ip.size

  front_stays : (x : ℕ) → x < i + 12 → put_dinode ip blk i x ≡ front x
  unfolding put_dinode
  front_stays x h = put_addrs-low ip.addrs (i + 12) front 0 (ndirect + 1) x (omega (arith, h))

  ids_stay : (x : ℕ) → x < i + 8 → put_dinode ip blk i x ≡ ids x
  ids_stay x h =
      front_stays x (omega (arith, h))
      ∙ put32_other ids (i + 8) ip.size x (omega (arith, h)) (omega (arith, h)) (omega (arith, h))
          (omega (arith, h))

  ids_kind : get16 ids i ≡ ip.kind % 2 ^ 16
  unfolding update
  ids_kind = ground arith

  ids_major : get16 ids (i + 2) ≡ ip.major % 2 ^ 16
  unfolding update
  ids_major = ground arith

  ids_minor : get16 ids (i + 4) ≡ ip.minor % 2 ^ 16
  unfolding update
  ids_minor = ground arith

  ids_nlink : get16 ids (i + 6) ≡ ip.nlink % 2 ^ 16
  unfolding update
  ids_nlink = ground arith

  field16 : (p : ℕ) → p ≤ i + 6 → get16 (put_dinode ip blk i) p ≡ get16 ids p
  field16 p h = omega (arith, ids_stay p (omega (arith, h)), ids_stay (p + 1) (omega (arith, h)))

  put_dinode-IsDinode : IsDinode ip (put_dinode ip blk i) i
  unfolding put_dinode
  put_dinode-IsDinode = record {
    kind = field16 i (omega arith) ∙ ids_kind;
    major = field16 (i + 2) (omega arith) ∙ ids_major;
    minor = field16 (i + 4) (omega arith) ∙ ids_minor;
    nlink = field16 (i + 6) (omega arith) ∙ ids_nlink;
    size =
        get32-same (put_dinode ip blk i) front (i + 8) (λ x l m. front_stays x (omega (arith, m)))
        ∙ get32-put ids (i + 8) ip.size;
    addrs = λ j h.
        get32-put_addrs ip.addrs (i + 12) front 0 (ndirect + 1) j (omega arith) (omega (arith, h));
  }

pub iupdate-IsOnDisk : (sb : SuperBlock) (d : Disk) (ip : Inode) → IsOnDisk sb ip (iupdate sb d ip)
unfolding iupdate
iupdate-IsOnDisk sb d ip =
    let c = iblock sb ip.inum in
    let i = 64 * (ip.inum % ipb) in
    subst (λ f. IsDinode ip f i) (sym (update_self d c (put_dinode ip (d c) i)))
      (put_dinode-IsDinode ip (d c) i)
