-- ===== src/Fs/Alloc.antt =====
-- balloc takes the lowest block that is not in use.
use eafitos.Base.{
  ℕ, zero, suc, ◌+◌, ◌-◌, ◌*◌, ◌/◌, ◌%◌, ◌^◌, ◌<◌, ◌≤◌, ◌≡◌, ◌≢◌, ◌⊎◌, inl, inr, refl, sym, ap, ◌∙◌,
  subst, true, false, arith, if◌then◌else◌, ℕ_discrete, min, update_self, update_ne, update_cases,
  Option-cases, ==_refl, dec_lt,
}
use eafitos.Fs.{
  Disk, SuperBlock, bpb, bzero, in_use, mark, bblock, bblock_int, scan, balloc_from, balloc,
}
use eafitos.Fs.Bitmap.{IsBytes, mark-IsBytes, in_use-mark}
use eafitos.Fs.Used.{used, IsFs, used-mark, scan_misses, scan_finds}

module _ (sb : SuperBlock) where
  -- The block r is taken.
  pub record Taken (d d' : Disk) (r : ℕ) : Type 0 where
    pub below : r < sb.size
    pub nonzero : r ≢ 0
    pub was : used sb d r ≡ false
    pub lowest : (c : ℕ) → c < r → used sb d c ≡ true
    pub now : used sb d' r ≡ true
    pub others : (c : ℕ) → c < sb.size → c ≢ r → used sb d' c ≡ used sb d c
    pub zeroed : (i : ℕ) → d' r i ≡ 0
    pub frame : (c : ℕ) → c ≢ r → c ≢ bblock sb r → d' c ≡ d c
    pub fs : IsFs sb d'

  abbrev take_block : Disk → ℕ → Disk
  take_block d r = bzero (mark d (bblock sb r) (r % bpb)) r

  bblock_int-low : (b : ℕ) → b < 2 ^ 31 → bblock_int sb b ≡ bblock sb b
  bblock_int-low b h = ground (arith, h)

  module _ (d : Disk) (fs : IsFs sb d) where
    -- The bitmap block of a block in range is not a free block.
    pub map-ne : (c r : ℕ) → c < sb.size → used sb d r ≡ false → bblock sb c ≢ r
    map-ne c r lt was e = let a = sym (fs.maps c lt) ∙ ap (used sb d) e ∙ was in cc

    take-others :
        (r c : ℕ)
        → c < sb.size
        → used sb d r ≡ false
        → c ≢ r
        → used sb (take_block d r) c ≡ used sb d c
    unfolding bzero in_use
    take-others r c lt was ne =
        rw (update_ne (mark d (bblock sb r) (r % bpb)) r (λ i. 0) (bblock sb c) (map-ne c r lt was))
          (used-mark sb d r c fs.bytes ne)

    take-now : (r : ℕ) → r < sb.size → used sb d r ≡ false → used sb (take_block d r) r ≡ true
    unfolding bzero in_use
    take-now r lt was =
        rw (update_ne (mark d (bblock sb r) (r % bpb)) r (λ i. 0) (bblock sb r) (map-ne r r lt was))
          (in_use-mark d fs.bytes (bblock sb r) (r % bpb) (r % bpb)
            ∙ ap (λ b. if b then true else used sb d r) (==_refl (r % bpb)))

    take-IsBytes : (r : ℕ) → IsBytes (take_block d r)
    unfolding bzero
    take-IsBytes r c i = elim (update_cases (mark d (bblock sb r) (r % bpb)) r (λ i. 0) c) [
      | inl (q, e) ↦ subst (λ f. f i < 256) (sym e) (omega arith)
      | inr (ne, e) ↦
          subst (λ f. f i < 256) (sym e) (mark-IsBytes d fs.bytes (bblock sb r) (r % bpb) c i)
    ]

    take-frame : (r c : ℕ) → c ≢ r → c ≢ bblock sb r → take_block d r c ≡ d c
    unfolding bzero mark
    take-frame r c ne ne' =
        update_ne (mark d (bblock sb r) (r % bpb)) r (λ i. 0) c ne
        ∙ update_ne d (bblock sb r) _ c ne'

    take-zeroed : (r i : ℕ) → take_block d r r i ≡ 0
    unfolding bzero
    take-zeroed r i = ap (λ f. f i) (update_self (mark d (bblock sb r) (r % bpb)) r (λ i. 0))

    -- A block in use stays in use.
    take-keeps :
        (r c : ℕ)
        → r < sb.size
        → c < sb.size
        → used sb d r ≡ false
        → used sb d c ≡ true
        → used sb (take_block d r) c ≡ true
    take-keeps r c rt lt was is = elim (ℕ_discrete c r) [
      | yes e ↦ subst (λ x. used sb (take_block d r) x ≡ true) (sym e) (take-now r rt was)
      | no ne ↦ take-others r c lt was ne ∙ is
    ]

    take-Taken :
        (r : ℕ)
        → r < sb.size
        → used sb d r ≡ false
        → ((c : ℕ) → c < r → used sb d c ≡ true)
        → Taken d (take_block d r) r
    take-Taken r lt was before = record {
      below = lt;
      nonzero = λ e. (let a = sym (ap (used sb d) e ∙ fs.boot) ∙ was in cc);
      was = was;
      lowest = before;
      now = take-now r lt was;
      others = λ c h ne. take-others r c h was ne;
      zeroed = take-zeroed r;
      frame = take-frame r;
      fs = record {
        small = fs.small;
        bytes = take-IsBytes r;
        boot = take-keeps r 0 lt (omega (arith, lt)) was fs.boot;
        inside = fs.inside;
        maps = λ c h. take-keeps r (bblock sb c) lt (fs.inside c h) was (fs.maps c h);
      };
    }

    balloc_from-Taken :
        (k b : ℕ)
        → b % bpb ≡ 0
        → sb.size ≤ b + k * bpb
        → b + k * bpb < sb.size + bpb
        → ((c : ℕ) → c < b → c < sb.size → used sb d c ≡ true)
        → (((c : ℕ) → c < sb.size → used sb d c ≡ true) × (balloc_from sb d b k ≡ (0, d)))
          ⊎ ((r : ℕ) × (d' : Disk) × (balloc_from sb d b k ≡ (r, d')) × Taken d d' r)
    unfolding balloc_from
    balloc_from-Taken zero b al big room before =
        inl (λ c h. before c (omega (arith, big, h)) h, refl)
    balloc_from-Taken (suc k) b al big room before =
        let int = bblock_int-low b (omega (arith, room, fs.small)) in
        let wrap : (b + bpb) % 2 ^ 32 ≡ b + bpb = omega (arith, room, fs.small) in
        elim (Option-cases (scan sb d b 0 (min bpb (sb.size - b)))) [
          | inr (bi, e) ↦
              let (lo, hi, free', first') = scan_finds sb d b 0 (min bpb (sb.size - b)) bi e in
              let free = ap (λ y. in_use d y bi) (sym int) ∙ free' in
              let at : bblock sb b ≡ bblock sb (b + bi) = omega (arith, al, hi) in
              let rem : bi ≡ (b + bi) % bpb = omega (arith, al, hi) in
              let was : used sb d (b + bi) ≡ false =
                subst (λ y. in_use d (bblock sb (b + bi)) y ≡ false) rem
                  (subst (λ y. in_use d y bi ≡ false) at free) in
              let same : bzero (mark d (bblock_int sb b) bi) (b + bi) ≡ take_block d (b + bi) =
                ap (λ y. bzero (mark d y bi) (b + bi)) (int ∙ at)
                ∙ ap (λ y. bzero (mark d (bblock sb (b + bi)) y) (b + bi)) rem in
              inr (
                b + bi,
                take_block d (b + bi),
                rw (e, balloc_from) (ap (λ y. (b + bi, y)) same),
                take-Taken (b + bi) (omega (arith, hi)) was (λ c h. elim (dec_lt c b) [
                  | yes p ↦ before c p (omega (arith, h, hi))
                  | no p ↦
                      let at' : bblock sb c ≡ bblock sb b = omega (arith, al, hi, h, p) in
                      let rem' : c % bpb ≡ c - b = omega (arith, al, hi, h, p) in
                      ap (λ y. in_use d y (c % bpb)) at'
                      ∙ ap (in_use d (bblock sb b)) rem'
                      ∙ ap (λ y. in_use d y (c - b)) (sym int)
                      ∙ first' (c - b) (omega arith) (omega (arith, h, p))
                ]),
              )
          | inl e ↦
              let full = scan_misses sb d b 0 (min bpb (sb.size - b)) e in
              let next : (c : ℕ) → c < b + bpb → c < sb.size → used sb d c ≡ true = λ c h h'.
                elim (dec_lt c b) [
                  | yes p ↦ before c p h'
                  | no p ↦
                      let at' : bblock sb c ≡ bblock sb b = omega (arith, al, h, p) in
                      let rem' : c % bpb ≡ c - b = omega (arith, al, h, p) in
                      ap (λ y. in_use d y (c % bpb)) at'
                      ∙ ap (in_use d (bblock sb b)) rem'
                      ∙ ap (λ y. in_use d y (c - b)) (sym int)
                      ∙ full (c - b) (omega arith) (omega (arith, h, h', p))
                ] in
              elim (balloc_from-Taken k (b + bpb) (omega (arith, al)) (omega (arith, big))
                (omega (arith, room)) next) [
                  | inl (all, q) ↦
                      inl (all, rw (e, balloc_from) (ap (λ y. balloc_from sb d y k) wrap ∙ q))
                  | inr (r, d', q, t) ↦
                      inr (r, d', rw (e, balloc_from) (ap (λ y. balloc_from sb d y k) wrap ∙ q), t)
                ]
        ]

  -- On a disk of at most 2 ^ 31 - 8192 blocks whose boot block and bitmap are in use, `balloc`
  -- within a transaction that has room in the log returns 0 and changes nothing where all blocks
  -- are in use; otherwise it returns the lowest block that is not, which is not 0, and marks it,
  -- fills it with zeros, and changes no other bit of the bitmap and no block but these two.
  pub balloc-Taken :
      (d : Disk)
      → IsFs sb d
      → (((c : ℕ) → c < sb.size → used sb d c ≡ true) × (balloc sb d ≡ (0, d)))
        ⊎ ((r : ℕ) × (d' : Disk) × (balloc sb d ≡ (r, d')) × Taken d d' r)
  unfolding balloc
  balloc-Taken d fs =
      balloc_from-Taken d fs ((sb.size + bpb - 1) / bpb) 0 refl (omega arith) (omega arith)
        (λ c h. absurd (omega (arith, h)))
