-- ===== src/Fs/File.antt =====
-- The blocks of a file, each at one position.
use eafitos.Base.{
  ℕ, ◌+◌, ◌-◌, ◌<◌, ◌≤◌, ◌≡◌, ◌≢◌, refl, sym, ap, ◌∙◌, subst, true, false, ◌==◌, ltb, arith,
  if◌then◌else◌, ℕ_discrete, update, update_self, update_ne, dec_lt,
}
use eafitos.Fs.{Disk, SuperBlock, bblock}
use eafitos.Fs.Used.{used, IsFs}
use eafitos.Fs.Alloc.{map-ne}
use eafitos.Fs.Inode.{Inode, ndirect, nindirect, entry}

abbrev pub positions : ℕ
positions = ndirect + nindirect

-- The block that holds the bytes from bn * BSIZE on, or 0.
abbrev pub block_of : Disk → Inode → ℕ → ℕ
block_of d ip bn =
    if ltb bn ndirect
    then ip.addrs bn
    else if ip.addrs ndirect == 0
    then 0
    else entry (d (ip.addrs ndirect)) (bn - ndirect)

-- The blocks at all positions; the last is the indirect block.
unfoldable pub at : Disk → Inode → ℕ → ℕ
at d ip p = if p == positions then ip.addrs ndirect else block_of d ip p

module _ (sb : SuperBlock) where
  -- Blocks of the file are in range, in use, outside the bitmap, and each has one position.
  pub record IsBlock (owner : ℕ → ℕ) (d : Disk) (p b : ℕ) : Type 0 where
    pub below : b < sb.size
    pub taken : used sb d b ≡ true
    pub place : owner b ≡ p
    pub apart : (c : ℕ) → c < sb.size → b ≢ bblock sb c

  abbrev pub IsFile : (ℕ → ℕ) → Disk → Inode → Type 0
  IsFile owner d ip = (p : ℕ) → p ≤ positions → at d ip p ≢ 0 → IsBlock owner d p (at d ip p)

  -- A block r that was not in use comes to the position p, and no block in use is freed.
  module _ (owner : ℕ → ℕ) (d d' : Disk) (ip ip' : Inode) (p r : ℕ) (fs : IsFs sb d)
      (below : r < sb.size) (was : used sb d r ≡ false) (now : used sb d' r ≡ true)
      (others : (c : ℕ) → c < sb.size → c ≢ r → used sb d' c ≡ used sb d c) where
    pub grow-IsFile :
        at d' ip' p ≡ r
        → ((q : ℕ) → q ≤ positions → q ≢ p → at d' ip' q ≡ at d ip q)
        → IsFile owner d ip
        → IsFile (update owner r p) d' ip'
    grow-IsFile here same file q le nz = elim (ℕ_discrete q p) [
      | yes e ↦
          let h : at d' ip' q ≡ r = ap (at d' ip') e ∙ here in
          subst (IsBlock (update owner r p) d' q) (sym h) (record {
            below = below;
            taken = now;
            place = update_self owner r p ∙ sym e;
            apart = λ c lt z. map-ne sb d fs c r lt was (sym z);
          })
      | no ne ↦
          let h = same q le ne in
          let old = file q le (λ z. nz (h ∙ z)) in
          let other : at d ip q ≢ r = λ z. (let a = sym old.taken ∙ ap (used sb d) z ∙ was in cc) in
          subst (IsBlock (update owner r p) d' q) (sym h) (record {
            below = old.below;
            taken = others (at d ip q) old.below other ∙ old.taken;
            place = update_ne owner r p (at d ip q) other ∙ old.place;
            apart = old.apart;
          })
    ]

-- Which positions read what.
module _ (d : Disk) (ip : Inode) where
  pub at_direct : (p : ℕ) → p < ndirect → at d ip p ≡ ip.addrs p
  unfolding at
  at_direct p h =
      let a : (p == positions) ≡ false = ground (arith, h) in
      let b : ltb p ndirect ≡ true = ground (arith, h) in rw (a, b) refl

  pub at_last : at d ip positions ≡ ip.addrs ndirect
  unfolding at
  at_last = refl

  pub at_none : (j : ℕ) → j < nindirect → ip.addrs ndirect ≡ 0 → at d ip (ndirect + j) ≡ 0
  unfolding at
  at_none j h z =
      let a : (ndirect + j == positions) ≡ false = ground (arith, h) in
      let b : ltb (ndirect + j) ndirect ≡ false = ground arith in
      let c : (ip.addrs ndirect == 0) ≡ true = ground (arith, z) in rw (a, b, c) refl

  pub at-entry :
      (j : ℕ)
      → j < nindirect
      → ip.addrs ndirect ≢ 0
      → at d ip (ndirect + j) ≡ entry (d (ip.addrs ndirect)) j
  unfolding at
  at-entry j h z =
      let a : (ndirect + j == positions) ≡ false = ground (arith, h) in
      let b : ltb (ndirect + j) ndirect ≡ false = ground arith in
      let c : (ip.addrs ndirect == 0) ≡ false = ground (arith, z) in
      let s : ndirect + j - ndirect ≡ j = omega arith in
      rw (a, b, c) (ap (entry (d (ip.addrs ndirect))) s)

-- A position is a direct one, one of the indirect block, or the last.
pub data Place : ℕ → Type 0 where
  direct : (p : ℕ) → p < ndirect → Place p
  indirect : (j : ℕ) → j < nindirect → Place (ndirect + j)
  last : Place positions

pub place : (p : ℕ) → p ≤ positions → Place p
place p h = elim (dec_lt p ndirect) [
  | yes a ↦ direct p a
  | no a ↦ elim (ℕ_discrete p positions) [
    | yes e ↦ subst Place (sym e) last
    | no e ↦
        let s : ndirect + (p - ndirect) ≡ p = omega arith in
        subst Place s (indirect (p - ndirect) (omega arith))
  ]
]
