-- ===== src/Fs/Written.antt =====
-- The loop of writei: what it has written, round by round.
use eafitos.Base.{
  ℕ, ◌+◌, ◌-◌, ◌*◌, ◌/◌, ◌%◌, ◌<◌, ◌≤◌, ◌≡◌, ◌≢◌, ◌⊎◌, inl, inr, sym, ap, ◌∙◌, subst, true, arith,
  ℕ_discrete, update, dec_lt,
}
use eafitos.Fs.{Disk, SuperBlock, bsize, bblock}
use eafitos.Fs.Used.{used, IsFs}
use eafitos.Fs.Inode.{Inode, iblock}
use eafitos.Fs.File.{positions, at, IsFile}
use eafitos.Fs.Slot.{Mapped}
use eafitos.Fs.Content.{blit, chunk, Loop}
use eafitos.Fs.Bytes.{
  byte_at, Mapped-bytes, write-IsFs, write-IsFile, write_other, write_here, write_at, write-used,
  byte_block,
}

pub blit_in : (f g : ℕ → ℕ) (i m a : ℕ) → i ≤ a → a < i + m → blit f i m g a ≡ g (a - i)
blit_in f g i m a h k = ground arith

pub blit_out : (f g : ℕ → ℕ) (i m a : ℕ) → (a < i) ⊎ (i + m ≤ a) → blit f i m g a ≡ f a
blit_out f g i m a h = ground arith

-- The block of an inode is in use, and no block of a file.
pub record IsHome (sb : SuperBlock) (owner : ℕ → ℕ) (d : Disk) (inum : ℕ) : Type 0 where
  pub below : iblock sb inum < sb.size
  pub taken : used sb d (iblock sb inum) ≡ true
  pub place : positions < owner (iblock sb inum)
  pub apart : (c : ℕ) → c < sb.size → iblock sb inum ≢ bblock sb c

module _ (sb : SuperBlock) (user : ℕ → ℕ) (d0 : Disk) (ip0 : Inode) (src off n : ℕ)
    (fits : off + n ≤ positions * bsize) where
  -- The first tot bytes have been written at off, and no byte of the file is changed before off or
  -- lim bytes after it.
  pub record Wrote (lim : ℕ) (s : Loop) : Type 0 where
    pub owner : ℕ → ℕ
    pub fs : IsFs sb s.disk
    pub file : IsFile sb owner s.disk s.ip
    pub home : IsHome sb owner s.disk s.ip.inum
    pub same_size : s.ip.size ≡ ip0.size
    pub same_inum : s.ip.inum ≡ ip0.inum
    pub most : s.tot ≤ n
    pub written :
        (x : ℕ) → off ≤ x → x < off + s.tot → byte_at s.disk s.ip x ≡ user (src + (x - off))
    pub there : (x : ℕ) → off ≤ x → x < off + s.tot → at s.disk s.ip (x / bsize) ≢ 0
    pub others :
        (x : ℕ)
        → x / bsize < positions
        → (x < off) ⊎ (off + lim ≤ x)
        → byte_at s.disk s.ip x ≡ byte_at d0 ip0 x

  module _ (s : Loop) (w : Wrote s.tot s) (more : s.tot < n) where
    abbrev bn : ℕ
    bn = (off + s.tot) / bsize

    abbrev m : ℕ
    m = chunk s.tot n (off + s.tot)

    module _ (b : ℕ) (ip : Inode) (d : Disk)
        (f : Mapped sb w.owner s.disk s.ip bn positions b ip d) where
      in_range : bn < positions
      in_range = omega (arith, more, fits)

      ip-IsHome : IsHome sb f.owner' d ip.inum
      ip-IsHome = subst (IsHome sb f.owner' d) (sym f.same_inum) (record {
        below = (w.home).below;
        taken = f.grows (iblock sb s.ip.inum) (w.home).below (w.home).taken;
        place =
            subst (λ x. positions < x)
              (sym (f.keeps_owner (iblock sb s.ip.inum) (w.home).below (w.home).taken))
              (w.home).place;
        apart = (w.home).apart;
      })

      -- The block has been looked up, and the loop ends.
      pub stopped : Wrote s.tot (record { tot = s.tot; ip = ip; disk = d })
      stopped = record {
        owner = f.owner';
        fs = f.fs;
        file = f.file;
        home = ip-IsHome;
        same_size = f.same_size ∙ w.same_size;
        same_inum = f.same_inum ∙ w.same_inum;
        most = w.most;
        written = λ x lo hi.
            Mapped-bytes sb w.owner s.disk d s.ip ip bn b f x (omega (arith, hi, more, fits))
            ∙ w.written x lo hi;
        there = λ x lo hi. still x (omega (arith, hi, more, fits)) (w.there x lo hi);
        others = λ x h far. Mapped-bytes sb w.owner s.disk d s.ip ip bn b f x h ∙ w.others x h far;
      }
        where
          still :
              (x : ℕ)
              → x / bsize < positions
              → at s.disk s.ip (x / bsize) ≢ 0
              → at d ip (x / bsize) ≢ 0
          still x h nz e = elim (ℕ_discrete (x / bsize) bn) [
            | no ne ↦ nz (sym (f.others (x / bsize) h ne) ∙ e)
            | yes q ↦
                let z : b ≡ 0 = sym f.here ∙ sym (ap (at d ip) q) ∙ e in
                let old = f.old (λ y. nz (ap (at s.disk s.ip) q ∙ y)) in
                nz (ap (at s.disk s.ip) q ∙ sym old ∙ z)
          ]

      -- The first k bytes of a chunk are put into the block.
      module _ (nz : b ≢ 0) (k : ℕ) (le : k ≤ m) (bytes : ℕ → ℕ)
          (small_bytes : (j : ℕ) → j < k → bytes j < 256) where
        abbrev o : ℕ
        o = (off + s.tot) % bsize

        abbrev c : ℕ
        c = at d ip bn

        abbrev g : ℕ → ℕ
        g = blit (d c) o k bytes

        abbrev d2 : Disk
        d2 = update d c g

        has : c ≢ 0
        has z = nz (sym f.here ∙ z)

        g_byte : (i : ℕ) → g i < 256
        g_byte i = elim (dec_lt i o) [
          | yes h ↦
              subst (λ y. y < 256) (sym (blit_out (d c) bytes o k i (inl h))) ((f.fs).bytes c i)
          | no h ↦ elim (dec_lt i (o + k)) [
            | yes l ↦
                subst (λ y. y < 256) (sym (blit_in (d c) bytes o k i (omega (arith, h)) l))
                  (small_bytes (i - o) (omega (arith, h, l)))
            | no l ↦
                subst (λ y. y < 256) (sym (blit_out (d c) bytes o k i (inr (omega (arith, l)))))
                  ((f.fs).bytes c i)
          ]
        ]

        byte_out :
            (x : ℕ)
            → x / bsize < positions
            → (x < off + s.tot) ⊎ (off + s.tot + k ≤ x)
            → byte_at d2 ip x ≡ byte_at d ip x
        byte_out x h far = elim (ℕ_discrete (x / bsize) bn) [
          | no ne ↦ write_other sb f.owner' d ip bn f.fs f.file in_range has g g_byte x h ne
          | yes q ↦
              write_here sb f.owner' d ip bn f.fs f.file in_range has g g_byte x q
              ∙ blit_out (d c) bytes o k (x % bsize) (omega (arith, q, far, le))
              ∙ sym (byte_block d ip x c (ap (at d ip) q) has)
        ]

        there_still :
            (x : ℕ) → x / bsize < positions → at d ip (x / bsize) ≢ 0 → at d2 ip (x / bsize) ≢ 0
        there_still x h old z = old (
            sym (
              write_at sb f.owner' d ip bn f.fs f.file in_range has g g_byte (x / bsize)
                (omega (arith, h)))
            ∙ z)

        -- The copy has failed, and the bytes are not counted.
        failed : Wrote (s.tot + k) (record { tot = s.tot; ip = ip; disk = d2 })
        failed =
            let before = stopped in
            record {
              owner = f.owner';
              fs = write-IsFs sb f.owner' d ip bn f.fs f.file in_range has g g_byte;
              file = write-IsFile sb f.owner' d ip bn f.fs f.file in_range has g g_byte;
              home = record {
                below = ip-IsHome.below;
                taken =
                    write-used sb f.owner' d ip bn f.fs f.file in_range has g g_byte
                      (iblock sb ip.inum) ip-IsHome.below
                    ∙ ip-IsHome.taken;
                place = ip-IsHome.place;
                apart = ip-IsHome.apart;
              };
              same_size = before.same_size;
              same_inum = before.same_inum;
              most = before.most;
              written = λ x lo hi.
                  byte_out x (omega (arith, hi, more, fits)) (inl hi) ∙ before.written x lo hi;
              there =
                  λ x lo hi. there_still x (omega (arith, hi, more, fits)) (before.there x lo hi);
              others = λ x h far.
                  byte_out x h (omega (arith, far)) ∙ before.others x h (omega (arith, far));
            }

        pub failed_at :
            Wrote
              (s.tot + k)
              (record { tot = s.tot; ip = ip; disk = update d b (blit (d b) o k bytes) })
        failed_at =
            subst
              (λ y.
                Wrote (s.tot + k)
                  (record { tot = s.tot; ip = ip; disk = update d y (blit (d y) o k bytes) }))
              f.here failed

        -- The copy has succeeded.
        module _ (right : (j : ℕ) → j < k → bytes j ≡ user (src + s.tot + j)) where
          byte_in :
              (x : ℕ)
              → off + s.tot ≤ x
              → x < off + s.tot + k
              → byte_at d2 ip x ≡ user (src + (x - off))
          byte_in x lo hi =
              let q : x / bsize ≡ bn = omega (arith, lo, hi, le) in
              let r : x % bsize ≡ o + (x - (off + s.tot)) = omega (arith, lo, hi, le) in
              let l : x - (off + s.tot) < k = omega (arith, lo, hi) in
              let a : src + s.tot + (x - (off + s.tot)) ≡ src + (x - off) = omega (arith, lo) in
              write_here sb f.owner' d ip bn f.fs f.file in_range has g g_byte x q
              ∙ blit_in (d c) bytes o k (x % bsize) (omega (arith, r)) (omega (arith, r, l))
              ∙ ap bytes (omega (arith, r))
              ∙ right (x - (off + s.tot)) l
              ∙ ap user a

          advanced : Wrote (s.tot + k) (record { tot = s.tot + k; ip = ip; disk = d2 })
          advanced =
              let before = stopped in
              let half = failed in
              record {
                owner = half.owner;
                fs = half.fs;
                file = half.file;
                home = half.home;
                same_size = half.same_size;
                same_inum = half.same_inum;
                most = omega (arith, more, le);
                written = λ x lo hi. elim (dec_lt x (off + s.tot)) [
                  | yes h ↦ half.written x lo h
                  | no h ↦ byte_in x (omega (arith, h)) (omega (arith, hi))
                ];
                there = λ x lo hi. elim (dec_lt x (off + s.tot)) [
                  | yes h ↦ half.there x lo h
                  | no h ↦
                      let q : x / bsize ≡ bn = omega (arith, h, hi, le) in
                      there_still x (omega (arith, hi, more, fits, le))
                        (λ z. has (sym (ap (at d ip) q) ∙ z))
                ];
                others = half.others;
              }

          pub advanced_at :
              Wrote
                (s.tot + k)
                (record { tot = s.tot + k; ip = ip; disk = update d b (blit (d b) o k bytes) })
          advanced_at =
              subst
                (λ y.
                  Wrote (s.tot + k)
                    (record { tot = s.tot + k; ip = ip; disk = update d y (blit (d y) o k bytes) }))
                f.here advanced
