-- ===== src/Fs/Used.antt =====
-- The set of blocks in use, and the scan of a bitmap block.
use eafitos.Base.{
  ℕ, zero, suc, ◌+◌, ◌/◌, ◌%◌, ◌^◌, ◌<◌, ◌≤◌, ◌≡◌, ◌≢◌, inl, inr, refl, sym, ap, ◌∙◌, subst, Bool,
  true, false, arith, if◌then◌else◌, ℕ_discrete, none, some, update_ne, Bool-cases, ==_of_ne,
}
use eafitos.Fs.{Disk, SuperBlock, bpb, in_use, mark, clear, bblock, bblock_int, scan}
use eafitos.Fs.Bitmap.{IsBytes, in_use-mark, in_use-clear}

module _ (sb : SuperBlock) where
  -- The bit of block b.
  abbrev pub used : Disk → ℕ → Bool
  used d b = in_use d (bblock sb b) (b % bpb)

  -- A disk whose first block and bitmap are in use, with block numbers that are ints, and so is one
  -- more than a bitmap block after them.
  pub record IsFs (d : Disk) : Type 0 where
    pub small : sb.size + bpb ≤ 2 ^ 31
    pub bytes : IsBytes d
    pub boot : used d 0 ≡ true
    pub inside : (c : ℕ) → c < sb.size → bblock sb c < sb.size
    pub maps : (c : ℕ) → c < sb.size → used d (bblock sb c) ≡ true

  same_place : (a c : ℕ) → a / bpb ≡ c / bpb → a % bpb ≡ c % bpb → a ≡ c
  same_place a c p q = omega arith

  pub used-mark :
      (d : Disk) (r c : ℕ) → IsBytes d → c ≢ r → used (mark d (bblock sb r) (r % bpb)) c ≡ used d c
  unfolding mark in_use
  used-mark d r c bytes ne = elim (ℕ_discrete (bblock sb c) (bblock sb r)) [
    | yes e ↦
        let apart : r % bpb ≢ c % bpb = λ q. ne (same_place c r (omega arith) (sym q)) in
        ap (λ x. in_use (mark d (bblock sb r) (r % bpb)) x (c % bpb)) e
        ∙ in_use-mark d bytes (bblock sb r) (r % bpb) (c % bpb)
        ∙ ap (λ b. if b then true else in_use d (bblock sb r) (c % bpb))
            (==_of_ne (r % bpb) (c % bpb) apart)
        ∙ ap (λ x. in_use d x (c % bpb)) (sym e)
    | no ne' ↦ rw (update_ne d (bblock sb r) _ (bblock sb c) ne') refl
  ]

  pub used-clear :
      (d : Disk) (r c : ℕ) → IsBytes d → c ≢ r → used (clear d (bblock sb r) (r % bpb)) c ≡ used d c
  unfolding clear in_use
  used-clear d r c bytes ne = elim (ℕ_discrete (bblock sb c) (bblock sb r)) [
    | yes e ↦
        let apart : r % bpb ≢ c % bpb = λ q. ne (same_place c r (omega arith) (sym q)) in
        ap (λ x. in_use (clear d (bblock sb r) (r % bpb)) x (c % bpb)) e
        ∙ in_use-clear d bytes (bblock sb r) (r % bpb) (c % bpb)
        ∙ ap (λ b. if b then false else in_use d (bblock sb r) (c % bpb))
            (==_of_ne (r % bpb) (c % bpb) apart)
        ∙ ap (λ x. in_use d x (c % bpb)) (sym e)
    | no ne' ↦ rw (update_ne d (bblock sb r) _ (bblock sb c) ne') refl
  ]

  -- The inner loop.
  pub scan_misses :
      (d : Disk) (b bi k : ℕ)
      → scan sb d b bi k ≡ none
      → (j : ℕ) → bi ≤ j
      → j < bi + k
      → in_use d (bblock_int sb b) j ≡ true
  unfolding scan
  scan_misses d b bi zero e j p q = absurd (omega arith)
  scan_misses d b bi (suc k) e j p q = elim (Bool-cases (in_use d (bblock_int sb b) bi)) [
    | inr h ↦ let f : some bi ≡ none = sym (rw h refl) ∙ e in cc
    | inl h ↦
        let f : scan sb d b (bi + 1) k ≡ none = sym (rw h refl) ∙ e in
        elim (ℕ_discrete j bi) [
          | yes q ↦ subst (λ x. in_use d (bblock_int sb b) x ≡ true) (sym q) h
          | no ne ↦ scan_misses d b (bi + 1) k f j (omega arith) (omega arith)
        ]
  ]

  pub scan_finds :
      (d : Disk) (b bi k x : ℕ)
      → scan sb d b bi k ≡ some x
      → (bi ≤ x)
        × (x < bi + k)
        × (in_use d (bblock_int sb b) x ≡ false)
        × ((j : ℕ) → bi ≤ j → j < x → in_use d (bblock_int sb b) j ≡ true)
  unfolding scan
  scan_finds d b bi zero x e = cc
  scan_finds d b bi (suc k) x e = elim (Bool-cases (in_use d (bblock_int sb b) bi)) [
    | inr h ↦
        let f : some bi ≡ some x = sym (rw h refl) ∙ e in
        let g : bi ≡ x = cc in
        (
          omega (arith, g),
          omega (arith, g),
          subst (λ y. in_use d (bblock_int sb b) y ≡ false) g h,
          λ j p q. absurd (omega (arith, g)),
        )
    | inl h ↦
        let f : scan sb d b (bi + 1) k ≡ some x = sym (rw h refl) ∙ e in
        let (lo, hi, free, before) = scan_finds d b (bi + 1) k x f in
        (
          omega (arith, lo),
          omega (arith, hi),
          free,
          λ j p q. elim (ℕ_discrete j bi) [
            | yes q' ↦ subst (λ y. in_use d (bblock_int sb b) y ≡ true) (sym q') h
            | no ne ↦ before j (omega arith) q
          ],
        )
  ]
