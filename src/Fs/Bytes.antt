-- ===== src/Fs/Bytes.antt =====
-- The bytes of a file under bmap and under a write to one of its blocks.
use eafitos.Base.{
  ℕ, ◌/◌, ◌%◌, ◌<◌, ◌≤◌, ◌≡◌, ◌≢◌, inl, inr, refl, sym, ap, ◌∙◌, subst, true, false, ◌==◌, arith,
  if◌then◌else◌, ℕ_discrete, update, update_self, update_ne, update_cases,
}
use eafitos.Fs.{Disk, SuperBlock, bsize, bpb, bblock, in_use}
use eafitos.Fs.Used.{used, IsFs}
use eafitos.Fs.Inode.{Inode, ndirect, entry}
use eafitos.Fs.File.{
  positions, at, IsBlock, IsFile, at_direct, at_last, at_none, at-entry, Place, direct, indirect,
  last, place,
}
use eafitos.Fs.Slot.{Mapped}

-- The byte x of a file; 0 in a hole.
abbrev pub byte_at : Disk → Inode → ℕ → ℕ
byte_at d ip x = let b = at d ip (x / bsize) in if b == 0 then 0 else d b (x % bsize)

module _ (d : Disk) (ip : Inode) (x : ℕ) where
  pub byte_hole : at d ip (x / bsize) ≡ 0 → byte_at d ip x ≡ 0
  byte_hole z = let h : (at d ip (x / bsize) == 0) ≡ true = ground (arith, z) in rw h refl

  pub byte_block : (b : ℕ) → at d ip (x / bsize) ≡ b → b ≢ 0 → byte_at d ip x ≡ d b (x % bsize)
  byte_block b e nz =
      let h : (at d ip (x / bsize) == 0) ≡ false = ground (arith, e, nz) in
      rw h (ap (λ y. d y (x % bsize)) e)

module _ (sb : SuperBlock) (owner : ℕ → ℕ) where
  -- `bmap` changes no byte of the file.
  pub Mapped-bytes :
      (d d' : Disk) (ip ip' : Inode) (bn b : ℕ)
      → Mapped sb owner d ip bn positions b ip' d'
      → (x : ℕ) → x / bsize < positions
      → byte_at d' ip' x ≡ byte_at d ip x
  Mapped-bytes d d' ip ip' bn b f x lt =
      let q = x / bsize in
      elim (ℕ_discrete (at d ip q) 0) [
        | yes z ↦ elim (ℕ_discrete q bn) [
          | no ne ↦ byte_hole d' ip' x (f.others q lt ne ∙ z) ∙ sym (byte_hole d ip x z)
          | yes e ↦
              let here : at d' ip' q ≡ b = ap (at d' ip') e ∙ f.here in
              elim (ℕ_discrete b 0) [
                | yes bz ↦ byte_hole d' ip' x (here ∙ bz) ∙ sym (byte_hole d ip x z)
                | no nz ↦
                    byte_block d' ip' x b here nz
                    ∙ (f.fresh (sym (ap (at d ip) e) ∙ z) nz).1 (x % bsize)
                    ∙ sym (byte_hole d ip x z)
              ]
        ]
        | no nz ↦
            let same : at d' ip' q ≡ at d ip q = elim (ℕ_discrete q bn) [
              | no ne ↦ f.others q lt ne
              | yes e ↦
                  ap (at d' ip') e
                  ∙ f.here
                  ∙ f.old (λ y. nz (ap (at d ip) e ∙ y))
                  ∙ sym (ap (at d ip) e)
            ] in
            byte_block d' ip' x (at d ip q) same nz
            ∙ ap (λ g. g (x % bsize)) (f.contents q lt nz)
            ∙ sym (byte_block d ip x (at d ip q) refl nz)
      ]

  -- The block of the position bn gets other bytes.
  module _ (d : Disk) (ip : Inode) (bn : ℕ) (fs : IsFs sb d) (file : IsFile sb owner d ip)
      (lt : bn < positions) (has : at d ip bn ≢ 0) (g : ℕ → ℕ) (small : (i : ℕ) → g i < 256) where
    abbrev b : ℕ
    b = at d ip bn

    abbrev d2 : Disk
    d2 = update d b g

    the-IsBlock : IsBlock sb owner d bn b
    the-IsBlock = file bn (omega (arith, lt)) has

    pub write-used : (c : ℕ) → c < sb.size → used sb d2 c ≡ used sb d c
    unfolding in_use
    write-used c h =
        ap (λ f. in_use (λ x. f) (bblock sb c) (c % bpb))
          (update_ne d b g (bblock sb c) (λ e. the-IsBlock.apart c h (sym e)))

    pub write-IsFs : IsFs sb d2
    write-IsFs = record {
      small = fs.small;
      bytes = λ c i. elim (update_cases d b g c) [
        | inl (e, f) ↦ subst (λ y. y i < 256) (sym f) (small i)
        | inr (ne, f) ↦ subst (λ y. y i < 256) (sym f) (fs.bytes c i)
      ];
      boot = write-used 0 (omega (arith, the-IsBlock.below)) ∙ fs.boot;
      inside = fs.inside;
      maps = λ c h. write-used (bblock sb c) (fs.inside c h) ∙ fs.maps c h;
    }

    write_place : (q : ℕ) → Place q → at d2 ip q ≡ at d ip q
    write_place q (direct _ h) = at_direct d2 ip q h ∙ sym (at_direct d ip q h)
    write_place q (indirect k h) = elim (ℕ_discrete (ip.addrs ndirect) 0) [
      | yes z ↦ at_none d2 ip k h z ∙ sym (at_none d ip k h z)
      | no z ↦
          let ne : ip.addrs ndirect ≢ b = λ e. absurd (
            omega (
              arith,
              lt,
              sym (file positions (omega arith) (λ y. z (sym (at_last d ip) ∙ y))).place
                  ∙ ap owner (at_last d ip ∙ e)
                  ∙ the-IsBlock.place,
            )) in
          at-entry d2 ip k h z
          ∙ ap (λ f. entry f k) (update_ne d b g (ip.addrs ndirect) ne)
          ∙ sym (at-entry d ip k h z)
    ]
    write_place q last = at_last d2 ip ∙ sym (at_last d ip)

    pub write_at : (q : ℕ) → q ≤ positions → at d2 ip q ≡ at d ip q
    write_at q h = write_place q (place q h)

    pub write-IsFile : IsFile sb owner d2 ip
    write-IsFile q le nz =
        let e = write_at q le in
        let old = file q le (λ z. nz (e ∙ z)) in
        subst (IsBlock sb owner d2 q) (sym e) (record {
          below = old.below;
          taken = write-used (at d ip q) old.below ∙ old.taken;
          place = old.place;
          apart = old.apart;
        })

    -- Bytes of other blocks stay, and those of the block are the new ones.
    pub write_other :
        (x : ℕ) → x / bsize < positions → x / bsize ≢ bn → byte_at d2 ip x ≡ byte_at d ip x
    write_other x h ne =
        let q = x / bsize in
        let e = write_at q (omega (arith, h)) in
        elim (ℕ_discrete (at d ip q) 0) [
          | yes z ↦ byte_hole d2 ip x (e ∙ z) ∙ sym (byte_hole d ip x z)
          | no nz ↦
              let old = file q (omega (arith, h)) nz in
              let apart : at d ip q ≢ b =
                λ y. ne (sym old.place ∙ ap owner y ∙ the-IsBlock.place) in
              byte_block d2 ip x (at d ip q) e nz
              ∙ ap (λ f. f (x % bsize)) (update_ne d b g (at d ip q) apart)
              ∙ sym (byte_block d ip x (at d ip q) refl nz)
        ]

    pub write_here : (x : ℕ) → x / bsize ≡ bn → byte_at d2 ip x ≡ g (x % bsize)
    write_here x e =
        byte_block d2 ip x b (ap (at d2 ip) e ∙ write_at bn (omega (arith, lt))) has
        ∙ ap (λ f. f (x % bsize)) (update_self d b g)
