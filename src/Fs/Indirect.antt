-- ===== src/Fs/Indirect.antt =====
-- A new block at an entry of the indirect block.
use eafitos.Base.{
  ℕ, ◌+◌, ◌%◌, ◌<◌, ◌≡◌, ◌≢◌, inl, inr, refl, sym, ap, ◌∙◌, subst, true, false, ◌==◌, arith, update,
  update_self, update_ne, update_cases, Bool-cases,
}
use eafitos.Fs.{Disk, SuperBlock, bpb, bblock, in_use}
use eafitos.Fs.Bitmap.{IsBytes}
use eafitos.Fs.Used.{used, IsFs}
use eafitos.Fs.Alloc.{Taken, balloc-Taken}
use eafitos.Fs.Inode.{Inode, ndirect, nindirect, entry, put_entry, fill_entry}
use eafitos.Fs.Entry.{entry-put_entry, entry-put_other, put_entry-byte}
use eafitos.Fs.File.{
  positions, at, IsBlock, IsFile, grow-IsFile, at_direct, at_last, at-entry, Place, direct,
  indirect, last, place,
}
use eafitos.Fs.Slot.{Mapped, frame-file, Taken-grows}

module _ (sb : SuperBlock) where
  module _ (owner : ℕ → ℕ) (d : Disk) (ip : Inode) (fs : IsFs sb d) (file : IsFile sb owner d ip)
      (has : ip.addrs ndirect ≢ 0) where
    abbrev block : ℕ
    block = ip.addrs ndirect

    its_block : IsBlock sb owner d positions block
    its_block =
        subst (IsBlock sb owner d positions) (at_last d ip)
          (file positions (omega arith) (λ e. has (sym (at_last d ip) ∙ e)))

    -- Another block of the file.
    not_block : (q : ℕ) → q < positions → at d ip q ≢ 0 → at d ip q ≢ block
    not_block q h nz e =
        let a = (file q (omega (arith, h)) nz).place in
        let b : q ≡ positions = sym a ∙ ap owner e ∙ its_block.place in absurd (omega (arith, b, h))

    -- The entry j is written after `balloc`.
    module _ (j r : ℕ) (lt : j < nindirect) (d1 : Disk) (t : Taken sb d d1 r) where
      abbrev p : ℕ
      p = ndirect + j

      abbrev d2 : Disk
      d2 = update d1 block (put_entry (d1 block) j r)

      same_block : d1 block ≡ d block
      same_block =
          subst (λ x. d1 x ≡ d x) (at_last d ip)
            (frame-file sb owner d ip fs file d1 r positions t (omega arith)
              (λ e. has (sym (at_last d ip) ∙ e)))

      used2 : (c : ℕ) → c < sb.size → used sb d2 c ≡ used sb d1 c
      unfolding in_use
      used2 c h =
          ap (λ f. in_use (λ x. f) (bblock sb c) (c % bpb))
            (update_ne d1 block (put_entry (d1 block) j r) (bblock sb c)
              (λ e. its_block.apart c h (sym e)))

      bytes2 : IsBytes d2
      bytes2 c i = elim (update_cases d1 block (put_entry (d1 block) j r) c) [
        | inl (e, f) ↦
            subst (λ x. x i < 256) (sym f)
              (put_entry-byte (d1 block) j r (λ k. (t.fs).bytes block k) i)
        | inr (ne, f) ↦ subst (λ x. x i < 256) (sym f) ((t.fs).bytes c i)
      ]

      fs2 : IsFs sb d2
      fs2 = record {
        small = fs.small;
        bytes = bytes2;
        boot = used2 0 (omega (arith, t.below)) ∙ (t.fs).boot;
        inside = fs.inside;
        maps = λ c h. used2 (bblock sb c) (fs.inside c h) ∙ (t.fs).maps c h;
      }

      here2 : at d2 ip p ≡ r
      here2 =
          at-entry d2 ip j lt has
          ∙ ap (λ f. entry f j) (update_self d1 block (put_entry (d1 block) j r))
          ∙ entry-put_entry (d1 block) j r (omega (arith, t.below, (t.fs).small))

      same2 : (q : ℕ) → Place q → q ≢ p → at d2 ip q ≡ at d ip q
      same2 q (direct _ h) ne = at_direct d2 ip q h ∙ sym (at_direct d ip q h)
      same2 q (indirect k h) ne =
          at-entry d2 ip k h has
          ∙ ap (λ f. entry f k) (update_self d1 block (put_entry (d1 block) j r))
          ∙ entry-put_other (d1 block) j r k (λ e. ne (omega (arith, e)))
          ∙ ap (λ f. entry f k) same_block
          ∙ sym (at-entry d ip k h has)
      same2 q last ne = at_last d2 ip ∙ sym (at_last d ip)

      entry_new : at d ip p ≡ 0 → Mapped sb owner d ip p positions r ip d2
      entry_new was = record {
        owner' = update owner r p;
        fs = fs2;
        file =
            grow-IsFile sb owner d d2 ip ip p r fs t.below t.was (used2 r t.below ∙ t.now)
              (λ c h ne. used2 c h ∙ t.others c h ne) here2 (λ q le ne. same2 q (place q le) ne)
              file;
        here = here2;
        same_inum = refl;
        same_size = refl;
        others = λ q h ne. same2 q (place q (omega (arith, h))) ne;
        old = λ nz. absurd (nz was);
        fresh = λ z nz. (
          t.was,
          λ i.
              ap (λ f. f i)
                (update_ne d1 block (put_entry (d1 block) j r) r
                  (λ e. (let a = sym its_block.taken ∙ ap (used sb d) (sym e) ∙ t.was in cc)))
              ∙ t.zeroed i,
        );
        full = λ z. absurd (t.nonzero z);
        keeps_owner =
            λ c h u. update_ne owner r p c (λ e. (let a = sym u ∙ ap (used sb d) e ∙ t.was in cc));
        grows = λ c h u. used2 c h ∙ Taken-grows sb d d1 r t c h u;
        contents = λ q h nz.
            update_ne d1 block (put_entry (d1 block) j r) (at d ip q) (not_block q h nz)
            ∙ frame-file sb owner d ip fs file d1 r q t (omega (arith, h)) nz;
      }

    entry_old :
        (p b : ℕ)
        → at d ip p ≡ b
        → (b ≡ 0 → (c : ℕ) → c < sb.size → used sb d c ≡ true)
        → Mapped sb owner d ip p positions b ip d
    entry_old p b e full = record {
      owner' = owner;
      fs = fs;
      file = file;
      here = e;
      same_inum = refl;
      same_size = refl;
      others = λ q h ne. refl;
      old = λ nz. sym e;
      fresh = λ z nz. absurd (nz (sym e ∙ z));
      full = full;
      keeps_owner = λ c h u. refl;
      grows = λ c h u. u;
      contents = λ q h nz. refl;
    }

    pub fill_entry-Mapped :
        (j : ℕ)
        → j < nindirect
        → (b : ℕ) × (ip' : Inode) × (d' : Disk) × (fill_entry sb d ip block j ≡ (b, ip', d'))
          × Mapped sb owner d ip (ndirect + j) positions b ip' d'
    unfolding fill_entry
    fill_entry-Mapped j lt =
        let e0 = at-entry d ip j lt has in
        elim (Bool-cases (entry (d block) j == 0)) [
          | inr h ↦
              let nz : entry (d block) j ≢ 0 = ground (arith, h) in
              (
                entry (d block) j,
                ip,
                d,
                rw h refl,
                entry_old (ndirect + j) (entry (d block) j) e0 (λ z. absurd (nz z)),
              )
          | inl h ↦
              let was : entry (d block) j ≡ 0 = ground (arith, h) in
              elim (balloc-Taken sb d fs) [
                | inl (all, e) ↦
                    (0, ip, d, rw (h, e) refl, entry_old (ndirect + j) 0 (e0 ∙ was) (λ z. all))
                | inr (r, d1, e, t) ↦
                    let z : (r == 0) ≡ false = ground (arith, t.nonzero) in
                    (r, ip, d2 j r lt d1 t, rw (h, e) (rw z refl), entry_new j r lt d1 t (e0 ∙ was))
              ]
        ]
