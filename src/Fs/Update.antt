-- ===== src/Fs/Update.antt =====
-- iupdate writes a block that no file holds.
use eafitos.Base.{
  ℕ, zero, suc, ◌+◌, ◌-◌, ◌*◌, ◌/◌, ◌%◌, ◌<◌, ◌≤◌, ◌≡◌, ◌≢◌, inl, inr, refl, sym, ap, ◌∙◌, subst,
  ◌==◌, ltb, if◌then◌else◌, arith, ℕ_discrete, update_ne, update_cases,
}
use eafitos.Fs.{Disk, SuperBlock, bsize, bpb, bblock, in_use}
use eafitos.Fs.Used.{used, IsFs}
use eafitos.Fs.Inode.{Inode, ndirect, put_addrs, put_dinode, put32, put16, iupdate, iblock, entry}
use eafitos.Fs.Entry.{put16-byte, put32-byte}
use eafitos.Fs.File.{
  positions, at, IsBlock, IsFile, at_direct, at_last, at_none, at-entry, Place, direct, indirect,
  last, place,
}
use eafitos.Fs.Bytes.{byte_at, byte_hole, byte_block}
use eafitos.Fs.Written.{IsHome}

put_addrs-byte :
    (addrs : ℕ → ℕ) (i : ℕ) (blk : ℕ → ℕ) (j k : ℕ)
    → ((x : ℕ) → blk x < 256)
    → (x : ℕ) → put_addrs addrs i blk j k x < 256
unfolding put_addrs
put_addrs-byte addrs i blk j zero h = h
put_addrs-byte addrs i blk j (suc k) h =
    put_addrs-byte addrs i (put32 blk (i + 4 * j) (addrs j)) (j + 1) k
      (put32-byte blk (i + 4 * j) (addrs j) h)

put_dinode-byte :
    (ip : Inode) (blk : ℕ → ℕ) (i : ℕ)
    → ((x : ℕ) → blk x < 256)
    → (x : ℕ) → put_dinode ip blk i x < 256
unfolding put_dinode
put_dinode-byte ip blk i h =
    let h0 = put16-byte blk i ip.kind h in
    let b0 = put16 blk i ip.kind in
    let h1 = put16-byte b0 (i + 2) ip.major h0 in
    let b1 = put16 b0 (i + 2) ip.major in
    let h2 = put16-byte b1 (i + 4) ip.minor h1 in
    let b2 = put16 b1 (i + 4) ip.minor in
    let h3 = put16-byte b2 (i + 6) ip.nlink h2 in
    let b3 = put16 b2 (i + 6) ip.nlink in
    put_addrs-byte ip.addrs (i + 12) (put32 b3 (i + 8) ip.size) 0 (ndirect + 1)
      (put32-byte b3 (i + 8) ip.size h3)

module _ (sb : SuperBlock) (owner : ℕ → ℕ) (d : Disk) (ip : Inode) (fs : IsFs sb d)
    (file : IsFile sb owner d ip) (home : IsHome sb owner d ip.inum) where
  abbrev c0 : ℕ
  c0 = iblock sb ip.inum

  abbrev saved : Disk
  saved = iupdate sb d ip

  not_home : (q : ℕ) → q ≤ positions → at d ip q ≢ 0 → at d ip q ≢ c0
  not_home q h nz e = absurd (omega (arith, h, home.place, sym (file q h nz).place ∙ ap owner e))

  iupdate-keeps : (c : ℕ) → c ≢ c0 → saved c ≡ d c
  unfolding iupdate
  iupdate-keeps c ne = update_ne d c0 _ c ne

  pub iupdate_used : (c : ℕ) → c < sb.size → used sb saved c ≡ used sb d c
  unfolding in_use
  iupdate_used c h =
      ap (λ f. in_use (λ x. f) (bblock sb c) (c % bpb))
        (iupdate-keeps (bblock sb c) (λ e. home.apart c h (sym e)))

  pub iupdate-IsFs : IsFs sb saved
  unfolding iupdate
  iupdate-IsFs = record {
    small = fs.small;
    bytes = λ c i. elim (update_cases d c0 (put_dinode ip (d c0) (64 * (ip.inum % 16))) c) [
      | inl (e, f) ↦
          subst (λ y. y i < 256) (sym f)
            (put_dinode-byte ip (d c0) (64 * (ip.inum % 16)) (λ x. fs.bytes c0 x) i)
      | inr (ne, f) ↦ subst (λ y. y i < 256) (sym f) (fs.bytes c i)
    ];
    boot = iupdate_used 0 (omega (arith, home.below)) ∙ fs.boot;
    inside = fs.inside;
    maps = λ c h. iupdate_used (bblock sb c) (fs.inside c h) ∙ fs.maps c h;
  }

  saved_place : (q : ℕ) → Place q → at saved ip q ≡ at d ip q
  saved_place q (direct _ h) = at_direct saved ip q h ∙ sym (at_direct d ip q h)
  saved_place q (indirect k h) = elim (ℕ_discrete (ip.addrs ndirect) 0) [
    | yes z ↦ at_none saved ip k h z ∙ sym (at_none d ip k h z)
    | no z ↦
        let ne : ip.addrs ndirect ≢ c0 = λ e.
          not_home positions (omega arith) (λ y. z (sym (at_last d ip) ∙ y)) (at_last d ip ∙ e) in
        at-entry saved ip k h z
        ∙ ap (λ f. entry f k) (iupdate-keeps (ip.addrs ndirect) ne)
        ∙ sym (at-entry d ip k h z)
  ]
  saved_place q last = at_last saved ip ∙ sym (at_last d ip)

  pub saved-at : (q : ℕ) → q ≤ positions → at saved ip q ≡ at d ip q
  saved-at q h = saved_place q (place q h)

  pub iupdate-IsFile : IsFile sb owner saved ip
  iupdate-IsFile q le nz =
      let e = saved-at q le in
      let old = file q le (λ z. nz (e ∙ z)) in
      subst (IsBlock sb owner saved q) (sym e) (record {
        below = old.below;
        taken = iupdate_used (at d ip q) old.below ∙ old.taken;
        place = old.place;
        apart = old.apart;
      })

  pub saved_byte : (x : ℕ) → x / bsize < positions → byte_at saved ip x ≡ byte_at d ip x
  saved_byte x h =
      let q = x / bsize in
      let e = saved-at q (omega (arith, h)) in
      elim (ℕ_discrete (at d ip q) 0) [
        | yes z ↦ byte_hole saved ip x (e ∙ z) ∙ sym (byte_hole d ip x z)
        | no nz ↦
            byte_block saved ip x (at d ip q) e nz
            ∙ ap (λ f. f (x % bsize)) (iupdate-keeps (at d ip q) (not_home q (omega (arith, h)) nz))
            ∙ sym (byte_block d ip x (at d ip q) refl nz)
      ]

  pub iupdate-IsHome : IsHome sb owner saved ip.inum
  iupdate-IsHome = record {
    below = home.below;
    taken = iupdate_used c0 home.below ∙ home.taken;
    place = home.place;
    apart = home.apart;
  }

-- What a file holds goes by the addresses.
pub at_addrs : (d : Disk) (ip ip' : Inode) (p : ℕ) → ip'.addrs ≡ ip.addrs → at d ip' p ≡ at d ip p
unfolding at
at_addrs d ip ip' p e =
    ap
      (λ a.
        if p == positions
        then a ndirect
        else if ltb p ndirect
        then a p
        else if a ndirect == 0
        then 0
        else entry (d (a ndirect)) (p - ndirect))
      e

pub byte_addrs :
    (d : Disk) (ip ip' : Inode) (x : ℕ) → ip'.addrs ≡ ip.addrs → byte_at d ip' x ≡ byte_at d ip x
byte_addrs d ip ip' x e =
    ap (λ b. if b == 0 then 0 else d b (x % bsize)) (at_addrs d ip ip' (x / bsize) e)

pub IsFile_addrs :
    (sb : SuperBlock) (owner : ℕ → ℕ) (d : Disk) (ip ip' : Inode)
    → ip'.addrs ≡ ip.addrs
    → IsFile sb owner d ip
    → IsFile sb owner d ip'
IsFile_addrs sb owner d ip ip' e file q le nz =
    let s = at_addrs d ip ip' q e in
    subst (IsBlock sb owner d q) (sym s) (file q le (λ z. nz (s ∙ z)))
