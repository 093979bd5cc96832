-- ===== src/Fs/Stage.antt =====
-- The state while itrunc frees the blocks of a file, position by position.
use eafitos.Base.{
  List, length, ◌/◌, ℕ, zero, suc, ◌+◌, ◌<◌, ◌≤◌, ◌≡◌, ◌≢◌, inl, inr, refl, sym, ap, ◌∙◌, subst,
  true, false, arith, ℕ_discrete, some, update_ne, update_cases,
}
use eafitos.Fs.{Disk, SuperBlock, bpb, bblock, bfree, added}
use eafitos.Log.{log_blocks}
use eafitos.Fs.Logged.{Few, added-Few, hits-le}
use eafitos.Fs.Bitmap.{IsBytes}
use eafitos.Fs.Used.{used, IsFs}
use eafitos.Fs.Free.{bfree-Given}
use eafitos.Fs.Inode.{Inode, with_addr}
use eafitos.Fs.File.{positions, at, IsFile}

module _ (sb : SuperBlock) (owner : ℕ → ℕ) (d : Disk) (ip : Inode) (fs : IsFs sb d)
    (file : IsFile sb owner d ip) (lh0 : List ℕ)
    (room : length lh0 + sb.size / bpb + 2 ≤ log_blocks) where
  -- The blocks at the positions below p have been freed.
  pub record Stage (p : ℕ) (lh : List ℕ) (d' : Disk) : Type 0 where
    pub few : Few (length lh0) sb.bmapstart (sb.size / bpb + 1) lh
    pub bytes : IsBytes d'
    pub freed : (q : ℕ) → q < p → at d ip q ≢ 0 → used sb d' (at d ip q) ≡ false
    pub rest : (c : ℕ) → ((q : ℕ) → q < p → at d ip q ≢ c) → used sb d' c ≡ used sb d c
    pub frame : (c : ℕ) → ((x : ℕ) → x < sb.size → c ≢ bblock sb x) → d' c ≡ d c

  pub Stage-zero : Stage 0 lh0 d
  Stage-zero = record {
    few = omega arith;
    bytes = fs.bytes;
    freed = λ q h nz. absurd (omega (arith, h));
    rest = λ c h. refl;
    frame = λ c h. refl;
  }

  -- There is room for one more block.
  pub Stage-room : (p : ℕ) (lh : List ℕ) (d' : Disk) → Stage p lh d' → length lh < log_blocks
  Stage-room p lh d' s = omega (arith, s.few, room, hits-le sb.bmapstart lh (sb.size / bpb + 1))

  -- Two positions hold different blocks.
  apart_at :
      (q p : ℕ) → q ≤ positions → p ≤ positions → q ≢ p → at d ip q ≢ 0 → at d ip q ≢ at d ip p
  apart_at q p hq hp ne nz e =
      ne (sym (file q hq nz).place ∙ ap owner e ∙ (file p hp (λ z. nz (e ∙ z))).place)

  pub Stage-empty :
      (p : ℕ) (lh : List ℕ) (d' : Disk) → at d ip p ≡ 0 → Stage p lh d' → Stage (p + 1) lh d'
  Stage-empty p lh d' z s = record {
    few = s.few;
    bytes = s.bytes;
    freed = λ q h nz. elim (ℕ_discrete q p) [
      | yes e ↦ absurd (nz (ap (at d ip) e ∙ z))
      | no ne ↦ s.freed q (omega (arith, h, ne)) nz
    ];
    rest = λ c h. s.rest c (λ q l. h q (omega (arith, l)));
    frame = s.frame;
  }

  pub Stage-free :
      (p : ℕ) (lh : List ℕ) (d' : Disk)
      → p ≤ positions
      → at d ip p ≢ 0
      → Stage p lh d'
      → (lh2 : List ℕ) × (d2 : Disk) × (bfree sb lh d' (at d ip p) ≡ some (lh2, d2))
        × Stage (p + 1) lh2 d2
  Stage-free p lh d' le nz s =
      let a = at d ip p in
      let old : used sb d' a ≡ true =
        s.rest a (λ q l e.
          apart_at q p (omega (arith, l, le)) le (λ x. absurd (omega (arith, x, l)))
            (λ x. nz (sym e ∙ x)) e)
        ∙ (file p le nz).taken in
      elim (bfree-Given sb lh d' a (Stage-room p lh d' s) s.bytes) [
        | inl (free, e) ↦ let x = sym old ∙ free in cc
        | inr (is, d2, e, g) ↦ (
          added lh (bblock sb a),
          d2,
          e,
          record {
            few =
                let below = (file p le nz).below in
                added-Few (length lh0) sb.bmapstart (sb.size / bpb + 1) (a / bpb) lh
                  (omega (arith, below)) s.few;
            bytes = g.bytes;
            freed = λ q h qz. elim (ℕ_discrete q p) [
              | yes x ↦ ap (λ y. used sb d2 (at d ip y)) x ∙ g.now
              | no ne ↦
                  let l : q < p = omega (arith, h, ne) in
                  g.others (at d ip q) (apart_at q p (omega (arith, l, le)) le ne qz)
                  ∙ s.freed q l qz
            ];
            rest = λ c h.
                g.others c (λ x. h p (omega arith) (sym x))
                ∙ s.rest c (λ q l. h q (omega (arith, l)));
            frame = λ c h. g.frame c (h a (file p le nz).below) ∙ s.frame c h;
          },
        )
      ]

  -- A run of empty positions.
  pub Stage-skip :
      (k p : ℕ) (lh : List ℕ) (d' : Disk)
      → ((q : ℕ) → p ≤ q → q < p + k → at d ip q ≡ 0)
      → Stage p lh d'
      → Stage (p + k) lh d'
  Stage-skip zero p lh d' h s = subst (λ x. Stage x lh d') (omega arith) s
  Stage-skip (suc k) p lh d' h s =
      let s1 = Stage-empty p lh d' (h p (omega arith) (omega arith)) s in
      let s2 = Stage-skip k (p + 1) lh d' (λ q l m. h q (omega (arith, l)) (omega (arith, m))) s1 in
      let e : p + 1 + k ≡ p + suc k = omega arith in subst (λ x. Stage x lh d') e s2

  -- The addresses below i are 0 and the others are still there.
  pub record Cut (i : ℕ) (ip' : Inode) : Type 0 where
    pub gone : (j : ℕ) → j < i → ip'.addrs j ≡ 0
    pub left : (j : ℕ) → i ≤ j → ip'.addrs j ≡ ip.addrs j
    pub same_inum : ip'.inum ≡ ip.inum

  pub cut : (i : ℕ) (ip' : Inode) → Cut i ip' → Cut (i + 1) (with_addr ip' i 0)
  cut i ip' c = record {
    gone = λ j h. elim (update_cases ip'.addrs i 0 j) [
      | inl (e, f) ↦ f
      | inr (ne, f) ↦ f ∙ c.gone j (omega (arith, h, ne))
    ];
    left = λ j h. update_ne ip'.addrs i 0 j (omega (arith, h)) ∙ c.left j (omega (arith, h));
    same_inum = c.same_inum;
  }

  pub cut_none : (i : ℕ) (ip' : Inode) → ip.addrs i ≡ 0 → Cut i ip' → Cut (i + 1) ip'
  cut_none i ip' z c = record {
    gone = λ j h. elim (ℕ_discrete j i) [
      | yes e ↦ c.left j (omega (arith, e)) ∙ ap ip.addrs e ∙ z
      | no ne ↦ c.gone j (omega (arith, h, ne))
    ];
    left = λ j h. c.left j (omega (arith, h));
    same_inum = c.same_inum;
  }
