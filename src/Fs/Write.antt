-- ===== src/Fs/Write.antt =====
-- The loop of writei.
use eafitos.Base.{
  ℕ, zero, suc, ◌+◌, ◌*◌, ◌/◌, ◌%◌, ◌<◌, ◌≤◌, ◌≡◌, ◌⊎◌, inl, inr, refl, true, false, ◌==◌, ltb,
  arith, ℕ_discrete, Option, none, some, update, Bool-cases, Option-cases,
}
use eafitos.Fs.{Disk, SuperBlock, bsize}
use eafitos.Fs.Used.{used}
use eafitos.Fs.Inode.{Inode}
use eafitos.Fs.File.{positions}
use eafitos.Fs.Bmap.{bmap-Mapped}
use eafitos.Fs.Content.{blit, chunk, Loop, write_loop}
use eafitos.Fs.Written.{Wrote, stopped, failed_at, advanced_at}

-- What the copies from memory give: the bytes there, or fewer of any where they fail.
pub record IsFetch (get : ℕ → ℕ → Option (ℕ → ℕ)) (part : ℕ → ℕ → ℕ × (ℕ → ℕ)) (user : ℕ → ℕ)
    : Type 0 where
  pub whole :
      (a m : ℕ) (bytes : ℕ → ℕ)
      → get a m ≡ some bytes
      → (j : ℕ) → j < m
      → (bytes j ≡ user (a + j)) × (bytes j < 256)
  pub fewer : (a m : ℕ) → (part a m).0 ≤ m
  pub bytes : (a m j : ℕ) → (part a m).1 j < 256

module _ (sb : SuperBlock) (get : ℕ → ℕ → Option (ℕ → ℕ)) (part : ℕ → ℕ → ℕ × (ℕ → ℕ))
    (user : ℕ → ℕ) (fetch : IsFetch get part user) (d0 : Disk) (ip0 : Inode) (src off n : ℕ)
    (fits : off + n ≤ positions * bsize) where
  -- The loop came to its end, the disk is full, or the bytes cannot be fetched, after some bytes that
  -- are not counted have been put into the block.
  abbrev pub Ending : ℕ → Loop → Type 0
  Ending lim s =
      ((lim ≡ s.tot) × (s.tot ≡ n))
      ⊎ (((lim ≡ s.tot) × ((c : ℕ) → c < sb.size → used sb s.disk c ≡ true))
          ⊎ ((lim ≤ n) × (get (src + s.tot) (chunk s.tot n (off + s.tot)) ≡ none)))

  pub write_loop-Wrote :
      (k : ℕ) (s : Loop)
      → Wrote sb user d0 ip0 src off n fits s.tot s
      → n ≤ s.tot + k
      → (s' : Loop) × (lim : ℕ) × (write_loop sb get part k src off n s ≡ some s')
        × Wrote sb user d0 ip0 src off n fits lim s'
        × Ending lim s'
  unfolding write_loop
  write_loop-Wrote zero s w enough = (s, s.tot, refl, w, inl (refl, omega (arith, enough, w.most)))
  write_loop-Wrote (suc k) s w enough = elim (Bool-cases (ltb s.tot n)) [
    | inr h ↦ (s, s.tot, rw (h, write_loop) refl, w, inl (refl, ground (arith, h, w.most)))
    | inl h ↦
        let more : s.tot < n = ground (arith, h) in
        let bn = (off + s.tot) / bsize in
        let m = chunk s.tot n (off + s.tot) in
        let p = part (src + s.tot) m in
        elim (bmap-Mapped sb w.owner s.disk s.ip w.fs w.file bn) [
          | inl (big, e) ↦ absurd (omega (arith, big, more, fits))
          | inr (lt, b, ip, d, e, f) ↦ elim (ℕ_discrete b 0) [
            | yes z ↦
                let zb : (b == 0) ≡ true = ground (arith, z) in
                (
                  record { tot = s.tot; ip = ip; disk = d },
                  s.tot,
                  rw (h, write_loop) (rw e (rw zb refl)),
                  stopped sb user d0 ip0 src off n fits s w more b ip d f,
                  inr (inl (refl, f.full z)),
                )
            | no nz ↦
                let zb : (b == 0) ≡ false = ground (arith, nz) in
                elim (Option-cases (get (src + s.tot) m)) [
                  | inl none_got ↦ (
                    record {
                      tot = s.tot;
                      ip = ip;
                      disk = update d b (blit (d b) ((off + s.tot) % bsize) p.0 p.1);
                    },
                    s.tot + p.0,
                    rw (h, write_loop) (rw e (rw zb (rw none_got refl))),
                    failed_at sb user d0 ip0 src off n fits s w more b ip d f nz p.0
                        (fetch.fewer (src + s.tot) m) p.1 (λ j l. fetch.bytes (src + s.tot) m j),
                    inr (inr (omega (arith, fetch.fewer (src + s.tot) m, more), none_got)),
                  )
                  | inr (bytes, got) ↦
                      let right = fetch.whole (src + s.tot) m bytes got in
                      let (s', lim, e', w', why) =
                        write_loop-Wrote k
                          (record {
                            tot = s.tot + m;
                            ip = ip;
                            disk = update d b (blit (d b) ((off + s.tot) % bsize) m bytes);
                          })
                          (advanced_at sb user d0 ip0 src off n fits s w more b ip d f nz m
                            (omega arith) bytes (λ j l. (right j l).1) (λ j l. (right j l).0))
                          (omega (arith, more, enough)) in
                      (s', lim, rw (h, write_loop) (rw e (rw zb (rw got e'))), w', why)
                ]
          ]
        ]
  ]
