-- ===== src/Fs/Bmap.antt =====
-- bmap looks a block of a file up, or gives the file a new one.
use eafitos.Base.{
  ℕ, ◌+◌, ◌-◌, ◌<◌, ◌≤◌, ◌≡◌, ◌≢◌, ◌⊎◌, inl, inr, refl, sym, ap, ◌∙◌, subst, true, false, ◌==◌, ltb,
  arith, ℕ_discrete, none, some, Bool-cases, dec_lt,
}
use eafitos.Fs.{Disk, SuperBlock}
use eafitos.Fs.Used.{used, IsFs}
use eafitos.Fs.Inode.{Inode, ndirect, nindirect, fill_slot, fill_entry, bmap}
use eafitos.Fs.File.{positions, at, IsFile, at_last, at_none}
use eafitos.Fs.Slot.{Mapped, direct_slot, last_slot, fill_slot-Mapped}
use eafitos.Fs.Indirect.{fill_entry-Mapped}

module _ (sb : SuperBlock) where
  -- First the indirect block, then the entry.
  Mapped-trans :
      (owner : ℕ → ℕ) (d d1 d' : Disk) (ip ip1 ip' : Inode) (b1 bn b : ℕ)
      → bn < positions
      → (f : Mapped sb owner d ip positions (positions + 1) b1 ip1 d1)
      → Mapped sb f.owner' d1 ip1 bn positions b ip' d'
      → Mapped sb owner d ip bn positions b ip' d'
  Mapped-trans owner d d1 d' ip ip1 ip' b1 bn b lt f g =
      let same : (q : ℕ) → q < positions → at d1 ip1 q ≡ at d ip q =
        λ q h. f.others q (omega (arith, h)) (λ e. absurd (omega (arith, h, e))) in
      record {
        owner' = g.owner';
        fs = g.fs;
        file = g.file;
        here = g.here;
        same_inum = g.same_inum ∙ f.same_inum;
        same_size = g.same_size ∙ f.same_size;
        others = λ q h ne. g.others q h ne ∙ same q h;
        old = λ nz. g.old (λ z. nz (sym (same bn lt) ∙ z)) ∙ same bn lt;
        fresh = λ z nz.
            let (free, zeros) = g.fresh (same bn lt ∙ z) nz in
            let below : b < sb.size =
              subst (λ x. x < sb.size) g.here
                (g.file bn (omega (arith, lt)) (λ e. nz (sym g.here ∙ e))).below in
            (
              elim (Bool-cases (used sb d b)) [
                | inr u ↦ u
                | inl u ↦ (let a = sym (f.grows b below u) ∙ free in cc)
              ],
              zeros,
            );
        full = g.full;
        keeps_owner = λ c h u. g.keeps_owner c h (f.grows c h u) ∙ f.keeps_owner c h u;
        grows = λ c h u. g.grows c h (f.grows c h u);
        contents = λ q h nz.
            let s = same q h in
            subst (λ x. d' x ≡ d1 x) s (g.contents q h (λ z. nz (sym s ∙ z)))
            ∙ f.contents q (omega (arith, h)) nz;
      }

  -- No space for the indirect block.
  Mapped-short :
      (owner : ℕ → ℕ) (d d1 : Disk) (ip ip1 : Inode) (j : ℕ)
      → j < nindirect
      → Mapped sb owner d ip positions (positions + 1) 0 ip1 d1
      → Mapped sb owner d ip (ndirect + j) positions 0 ip1 d1
  Mapped-short owner d d1 ip ip1 j lt f =
      let none : at d1 ip1 (ndirect + j) ≡ 0 =
        at_none d1 ip1 j lt (sym (at_last d1 ip1) ∙ f.here) in
      let same : (q : ℕ) → q < positions → at d1 ip1 q ≡ at d ip q =
        λ q h. f.others q (omega (arith, h)) (λ e. absurd (omega (arith, h, e))) in
      record {
        owner' = f.owner';
        fs = f.fs;
        file = f.file;
        here = none;
        same_inum = f.same_inum;
        same_size = f.same_size;
        others = λ q h ne. same q h;
        old = λ nz. absurd (nz (sym (same (ndirect + j) (omega (arith, lt))) ∙ none));
        fresh = λ z nz. absurd (nz refl);
        full = f.full;
        keeps_owner = f.keeps_owner;
        grows = f.grows;
        contents = λ q h nz. f.contents q (omega (arith, h)) nz;
      }

  bmap_short :
      (d d1 : Disk) (ip ip1 : Inode) (bn : ℕ)
      → ndirect ≤ bn
      → bn < positions
      → fill_slot sb d ip ndirect ≡ (0, ip1, d1)
      → bmap sb d ip bn ≡ some (0, ip1, d1)
  unfolding bmap
  bmap_short d d1 ip ip1 bn lo hi e =
      let a : ltb bn ndirect ≡ false = ground (arith, lo) in
      let c : ltb (bn - ndirect) nindirect ≡ true = ground (arith, lo, hi) in rw (a, c, e) refl

  bmap_entry :
      (d d1 : Disk) (ip ip1 : Inode) (b1 bn : ℕ)
      → ndirect ≤ bn
      → bn < positions
      → b1 ≢ 0
      → fill_slot sb d ip ndirect ≡ (b1, ip1, d1)
      → bmap sb d ip bn ≡ some (fill_entry sb d1 ip1 b1 (bn - ndirect))
  unfolding bmap
  bmap_entry d d1 ip ip1 b1 bn lo hi nz e =
      let a : ltb bn ndirect ≡ false = ground (arith, lo) in
      let c : ltb (bn - ndirect) nindirect ≡ true = ground (arith, lo, hi) in
      let z : (b1 == 0) ≡ false = ground (arith, nz) in rw (a, c, e) (rw z refl)

  bmap_direct :
      (d : Disk) (ip : Inode) (bn : ℕ)
      → bn < ndirect
      → bmap sb d ip bn ≡ some (fill_slot sb d ip bn)
  unfolding bmap
  bmap_direct d ip bn lt = let a : ltb bn ndirect ≡ true = ground (arith, lt) in rw a refl

  bmap_panics : (d : Disk) (ip : Inode) (bn : ℕ) → positions ≤ bn → bmap sb d ip bn ≡ none
  unfolding bmap
  bmap_panics d ip bn h =
      let a : ltb bn ndirect ≡ false = ground (arith, h) in
      let c : ltb (bn - ndirect) nindirect ≡ false = ground (arith, h) in rw (a, c) refl

  module _ (owner : ℕ → ℕ) (d : Disk) (ip : Inode) (fs : IsFs sb d)
      (file : IsFile sb owner d ip) where
    abbrev Found : ℕ → Type 0
    Found bn =
        (b : ℕ) × (ip' : Inode) × (d' : Disk) × (bmap sb d ip bn ≡ some (b, ip', d'))
        × Mapped sb owner d ip bn positions b ip' d'

    bmap-direct : (bn : ℕ) → bn < ndirect → Found bn
    bmap-direct bn lt =
        let (b, ip', d', e, f) = fill_slot-Mapped sb owner d ip fs file bn bn (direct_slot bn lt) in
        (
          b,
          ip',
          d',
          bmap_direct d ip bn lt ∙ ap some e,
          record {
            owner' = f.owner';
            fs = f.fs;
            file = f.file;
            here = f.here;
            same_inum = f.same_inum;
            same_size = f.same_size;
            others = λ q h ne. f.others q (omega (arith, h)) ne;
            old = f.old;
            fresh = f.fresh;
            full = f.full;
            keeps_owner = f.keeps_owner;
            grows = f.grows;
            contents = λ q h nz. f.contents q (omega (arith, h)) nz;
          },
        )

    bmap-indirect : (j : ℕ) → j < nindirect → Found (ndirect + j)
    bmap-indirect j lt =
        let (b1, ip1, d1, e, f) =
          fill_slot-Mapped sb owner d ip fs file ndirect positions last_slot in
        let low : ndirect ≤ ndirect + j = omega arith in
        let high : ndirect + j < positions = omega (arith, lt) in
        elim (ℕ_discrete b1 0) [
          | yes z ↦ (
            0,
            ip1,
            d1,
            bmap_short d d1 ip ip1 (ndirect + j) low high
                (subst (λ x. fill_slot sb d ip ndirect ≡ (x, ip1, d1)) z e),
            Mapped-short owner d d1 ip ip1 j lt
                (subst (λ x. Mapped sb owner d ip positions (positions + 1) x ip1 d1) z f),
          )
          | no nz ↦
              let at1 : ip1.addrs ndirect ≡ b1 = sym (at_last d1 ip1) ∙ f.here in
              let (b, ip', d', e2, g) =
                fill_entry-Mapped sb f.owner' d1 ip1 f.fs f.file (λ q. nz (sym at1 ∙ q)) j lt in
              let back : ndirect + j - ndirect ≡ j = omega arith in
              (
                b,
                ip',
                d',
                bmap_entry d d1 ip ip1 b1 (ndirect + j) low high nz e
                    ∙ ap (λ x. some (fill_entry sb d1 ip1 b1 x)) back
                    ∙ ap (λ x. some (fill_entry sb d1 ip1 x j)) (sym at1)
                    ∙ ap some e2,
                Mapped-trans owner d d1 d' ip ip1 ip' b1 (ndirect + j) b high f g,
              )
        ]

    -- On a disk of at most 2 ^ 31 - 8192 blocks whose boot block and bitmap are in use, for a file
    -- whose blocks are in range, in use, outside the bitmap and all different, within a transaction
    -- that has room in the log: `bmap` panics past the largest file and returns otherwise. It
    -- returns the block at that position of the file, where there is one, and else a block that was
    -- not in use, full of zeros, which is at that position now, or 0 where the disk is full; the
    -- blocks at other positions stay and keep their contents, no block is freed, and disk and file
    -- satisfy the same conditions again.
    pub bmap-Mapped :
        (bn : ℕ)
        → ((positions ≤ bn) × (bmap sb d ip bn ≡ none))
          ⊎ ((bn < positions)
              × (b : ℕ) × (ip' : Inode) × (d' : Disk) × (bmap sb d ip bn ≡ some (b, ip', d'))
              × Mapped sb owner d ip bn positions b ip' d')
    bmap-Mapped bn = elim (dec_lt bn positions) [
      | no h ↦ let big : positions ≤ bn = omega (arith, h) in inl (big, bmap_panics d ip bn big)
      | yes h ↦ elim (dec_lt bn ndirect) [
        | yes a ↦ let (b, ip', d', e, f) = bmap-direct bn a in inr (h, b, ip', d', e, f)
        | no a ↦
            let back : ndirect + (bn - ndirect) ≡ bn = omega (arith, a) in
            let (b, ip', d', e, f) =
              subst Found back (bmap-indirect (bn - ndirect) (omega (arith, a, h))) in
            inr (h, b, ip', d', e, f)
      ]
    ]
