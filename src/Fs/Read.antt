-- ===== src/Fs/Read.antt =====
-- The loop of readi.
use eafitos.Base.{
  ℕ, zero, suc, ◌+◌, ◌-◌, ◌*◌, ◌/◌, ◌%◌, ◌<◌, ◌≤◌, ◌≡◌, ◌≢◌, ◌⊎◌, inl, inr, sym, ap, ◌∙◌, subst,
  Bool, true, false, ◌==◌, ltb, arith, ℕ_discrete, some, Bool-cases, dec_lt,
}
use eafitos.Fs.{Disk, SuperBlock, bsize}
use eafitos.Fs.Inode.{Inode}
use eafitos.Fs.File.{positions, at}
use eafitos.Fs.Slot.{Mapped}
use eafitos.Fs.Bmap.{bmap-Mapped}
use eafitos.Fs.Content.{blit, chunk, Loop, read_loop}
use eafitos.Fs.Bytes.{byte_at, Mapped-bytes, byte_block}
use eafitos.Fs.Written.{IsHome, blit_in, blit_out}
use eafitos.Fs.Writei.{IsStored}

module _ (sb : SuperBlock) (copies : ℕ → ℕ → Bool) (works : (a m : ℕ) → copies a m ≡ true)
    (d0 : Disk) (ip0 : Inode) (dst off n : ℕ) (mem0 : ℕ → ℕ) (fits : off + n ≤ positions * bsize)
    (full : (x : ℕ) → off ≤ x → x < off + n → at d0 ip0 (x / bsize) ≢ 0) where
  -- The first tot bytes have been copied, and the file is as it was.
  pub record Copied (mem : ℕ → ℕ) (s : Loop) : Type 0 where
    pub owner : ℕ → ℕ
    pub stored : IsStored sb owner s.disk s.ip
    pub same_size : s.ip.size ≡ ip0.size
    pub most : s.tot ≤ n
    pub bytes : (x : ℕ) → x / bsize < positions → byte_at s.disk s.ip x ≡ byte_at d0 ip0 x
    pub there : (x : ℕ) → off ≤ x → x < off + n → at s.disk s.ip (x / bsize) ≢ 0
    pub copied : (j : ℕ) → j < s.tot → mem (dst + j) ≡ byte_at d0 ip0 (off + j)
    pub outside : (a : ℕ) → (a < dst) ⊎ (dst + s.tot ≤ a) → mem a ≡ mem0 a

  module _ (mem : ℕ → ℕ) (s : Loop) (c : Copied mem s) (more : s.tot < n) where
    abbrev bn : ℕ
    bn = (off + s.tot) / bsize

    abbrev m : ℕ
    m = chunk s.tot n (off + s.tot)

    module _ (b : ℕ) (ip : Inode) (d : Disk)
        (f : Mapped sb c.owner s.disk s.ip bn positions b ip d) where
      b_old : b ≡ at s.disk s.ip bn
      b_old = f.old (c.there (off + s.tot) (omega arith) (omega (arith, more)))

      pub b_nz : b ≢ 0
      b_nz z = c.there (off + s.tot) (omega arith) (omega (arith, more)) (sym b_old ∙ z)

      abbrev mem' : ℕ → ℕ
      mem' = blit mem (dst + s.tot) m (λ j. d b ((off + s.tot) % bsize + j))

      same_bytes : (x : ℕ) → x / bsize < positions → byte_at d ip x ≡ byte_at d0 ip0 x
      same_bytes x h = Mapped-bytes sb c.owner s.disk d s.ip ip bn b f x h ∙ c.bytes x h

      chunk_byte : (j : ℕ) → s.tot ≤ j → j < s.tot + m → mem' (dst + j) ≡ byte_at d0 ip0 (off + j)
      chunk_byte j lo hi =
          let q : (off + j) / bsize ≡ bn = omega (arith, lo, hi) in
          let r : (off + s.tot) % bsize + (dst + j - (dst + s.tot)) ≡ (off + j) % bsize =
            omega (arith, lo, hi) in
          blit_in mem (λ j. d b ((off + s.tot) % bsize + j)) (dst + s.tot) m (dst + j)
            (omega (arith, lo)) (omega (arith, hi))
          ∙ ap (d b) r
          ∙ sym (byte_block d ip (off + j) b (ap (at d ip) q ∙ f.here) b_nz)
          ∙ same_bytes (off + j) (omega (arith, lo, hi, more, fits))

      pub more-Copied : Copied mem' (record { tot = s.tot + m; ip = ip; disk = d })
      more-Copied = record {
        owner = f.owner';
        stored = record {
          fs = f.fs;
          file = f.file;
          home =
              let h = (c.stored).home in
              subst (IsHome sb f.owner' d) (sym f.same_inum) (record {
                below = h.below;
                taken = f.grows _ h.below h.taken;
                place = subst (λ x. positions < x) (sym (f.keeps_owner _ h.below h.taken)) h.place;
                apart = h.apart;
              });
        };
        same_size = f.same_size ∙ c.same_size;
        most = omega (arith, more);
        bytes = same_bytes;
        there = λ x lo hi z. elim (ℕ_discrete (x / bsize) bn) [
          | yes q ↦ b_nz (sym f.here ∙ sym (ap (at d ip) q) ∙ z)
          | no ne ↦ c.there x lo hi (sym (f.others (x / bsize) (omega (arith, hi, fits)) ne) ∙ z)
        ];
        copied = λ j h. elim (dec_lt j s.tot) [
          | yes k ↦
              blit_out mem (λ j. d b ((off + s.tot) % bsize + j)) (dst + s.tot) m (dst + j)
                (inl (omega (arith, k)))
              ∙ c.copied j k
          | no k ↦ chunk_byte j (omega (arith, k)) h
        ];
        outside = λ a far.
            blit_out mem (λ j. d b ((off + s.tot) % bsize + j)) (dst + s.tot) m a
              (omega (arith, far))
            ∙ c.outside a (omega (arith, far));
      }

  pub read_loop-Copied :
      (part : ℕ → ℕ → ℕ) (k : ℕ) (mem : ℕ → ℕ) (s : Loop)
      → Copied mem s
      → n ≤ s.tot + k
      → (mem' : ℕ → ℕ) × (s' : Loop) × (read_loop sb copies part k dst off n mem s
          ≡ some (some n, mem', s'))
        × Copied mem' s'
        × (s'.tot ≡ n)
  unfolding read_loop
  read_loop-Copied part zero mem s c enough =
      let e : s.tot ≡ n = omega (arith, enough, c.most) in
      (mem, s, ap (λ x. some (some x, mem, s)) e, c, e)
  read_loop-Copied part (suc k) mem s c enough = elim (Bool-cases (ltb s.tot n)) [
    | inr h ↦
        let e : s.tot ≡ n = ground (arith, h, c.most) in
        (mem, s, rw (h, read_loop) (ap (λ x. some (some x, mem, s)) e), c, e)
    | inl h ↦
        let more : s.tot < n = ground (arith, h) in
        let bn = (off + s.tot) / bsize in
        let m = chunk s.tot n (off + s.tot) in
        elim (bmap-Mapped sb c.owner s.disk s.ip (c.stored).fs (c.stored).file bn) [
          | inl (big, e) ↦ absurd (omega (arith, big, more, fits))
          | inr (lt, b, ip, d, e, f) ↦
              let nz = b_nz mem s c more b ip d f in
              let zb : (b == 0) ≡ false = ground (arith, nz) in
              let (mem', s', e', c', q) =
                read_loop-Copied part k
                  (blit mem (dst + s.tot) m (λ j. d b ((off + s.tot) % bsize + j)))
                  (record { tot = s.tot + m; ip = ip; disk = d })
                  (more-Copied mem s c more b ip d f) (omega (arith, more, enough)) in
              (mem', s', rw (h, read_loop) (rw e (rw zb (rw (works (dst + s.tot) m) e'))), c', q)
        ]
  ]
