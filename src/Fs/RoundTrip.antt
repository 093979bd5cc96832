-- ===== src/Fs/RoundTrip.antt =====
-- What writei has written, readi reads.
use eafitos.Base.{
  ℕ, ◌+◌, ◌-◌, ◌*◌, ◌/◌, ◌%◌, ◌^◌, ◌<◌, ◌≤◌, ◌≡◌, ◌≢◌, ◌⊎◌, inl, inr, refl, sym, ap, ◌∙◌, subst,
  Bool, true, false, ltb, ◌||◌, arith, Option, none, some,
}
use eafitos.Fs.{Disk, SuperBlock, bsize}
use eafitos.Fs.Inode.{Inode}
use eafitos.Fs.File.{positions, at}
use eafitos.Fs.Content.{Loop, read_loop, overflows, readi, writei}
use eafitos.Fs.Bytes.{byte_at}
use eafitos.Fs.Writei.{IsStored, Saved, writei-Saved}
use eafitos.Fs.Write.{IsFetch}
use eafitos.Fs.Read.{Copied, read_loop-Copied}

module _ (sb : SuperBlock) (copies : ℕ → ℕ → Bool) (works : (a m : ℕ) → copies a m ≡ true)
    (d : Disk) (ip : Inode) (dst off n : ℕ) (mem : ℕ → ℕ) (cut : ℕ → ℕ → ℕ) where
  readi_runs :
      (r : Option ℕ × (ℕ → ℕ) × Loop)
      → (ltb ip.size off || overflows off n) ≡ false
      → ltb ip.size ((off + n) % 2 ^ 32) ≡ false
      → read_loop sb copies cut n dst off n mem (record { tot = 0; ip = ip; disk = d }) ≡ some r
      → readi sb copies cut d ip dst off n mem ≡ some (r.0, r.1, (r.2).ip, (r.2).disk)
  unfolding readi
  readi_runs r h k e = rw (h, readi) (rw k (rw e refl))

  -- `readi` of bytes within a file that all stand in blocks.
  pub readi_reads :
      (owner : ℕ → ℕ)
      → IsStored sb owner d ip
      → off + n ≤ ip.size
      → off + n < 2 ^ 32
      → off + n ≤ positions * bsize
      → ((x : ℕ) → off ≤ x → x < off + n → at d ip (x / bsize) ≢ 0)
      → (mem' : ℕ → ℕ) × (ip' : Inode) × (d' : Disk) × (readi sb copies cut d ip dst off n mem
          ≡ some (some n, mem', ip', d'))
        × ((j : ℕ) → j < n → mem' (dst + j) ≡ byte_at d ip (off + j))
        × ((a : ℕ) → (a < dst) ⊎ (dst + n ≤ a) → mem' a ≡ mem a)
        × ((x : ℕ) → x / bsize < positions → byte_at d' ip' x ≡ byte_at d ip x)
  readi_reads owner st inside lt fits full =
      let start : Copied sb copies works d ip dst off n mem fits full mem
          (record { tot = 0; ip = ip; disk = d }) =
        record {
          owner = owner;
          stored = st;
          same_size = refl;
          most = omega arith;
          bytes = λ x h. refl;
          there = full;
          copied = λ j h. absurd (omega (arith, h));
          outside = λ a h. refl;
        } in
      let (mem', s, e, c, q) =
        read_loop-Copied sb copies works d ip dst off n mem fits full cut n mem
          (record { tot = 0; ip = ip; disk = d }) start (omega arith) in
      (
        mem',
        s.ip,
        s.disk,
        readi_runs (some n, mem', s) (ground (arith, inside, lt)) (ground (arith, inside, lt)) e,
        λ j h. c.copied j (omega (arith, h, q)),
        λ a h. c.outside a (omega (arith, h, q)),
        c.bytes,
      )

abbrev count_of : Option (Option ℕ × Inode × Disk) → ℕ
count_of (some (some t, ip, d)) = t
count_of _ = 0

abbrev pub inode_of : Inode → Option (Option ℕ × Inode × Disk) → Inode
inode_of ip none = ip
inode_of ip (some r) = r.1

abbrev pub disk_of : Disk → Option (Option ℕ × Inode × Disk) → Disk
disk_of d none = d
disk_of d (some r) = r.2

abbrev returned : Option (Option ℕ × Inode × Disk) → Bool
returned (some (some t, ip, d)) = true
returned _ = false

-- Where `writei` of n bytes at off, with off + n below 2 ^ 32, to a file stored on a disk of at
-- most 2 ^ 31 - 8192 blocks has returned n, and a copy from the source gives its bytes or fails
-- after fewer, `readi` of n bytes at off returns n, gives exactly the bytes that were written,
-- touches no other memory, and changes no byte of the file, if the copies to memory succeed.
pub readi-writei :
    (sb : SuperBlock) (get : ℕ → ℕ → Option (ℕ → ℕ)) (part : ℕ → ℕ → ℕ × (ℕ → ℕ)) (user : ℕ → ℕ)
    (copies : ℕ → ℕ → Bool) (cut : ℕ → ℕ → ℕ) (d d' : Disk) (ip ip' : Inode) (owner : ℕ → ℕ)
    (src dst off n : ℕ) (mem : ℕ → ℕ)
    → IsFetch get part user
    → ((a m : ℕ) → copies a m ≡ true)
    → IsStored sb owner d ip
    → off + n < 2 ^ 32
    → writei sb get part d ip src off n ≡ some (some n, ip', d')
    → (mem' : ℕ → ℕ) × (ip2 : Inode) × (d2 : Disk) × (readi sb copies cut d' ip' dst off n mem
        ≡ some (some n, mem', ip2, d2))
      × ((j : ℕ) → j < n → mem' (dst + j) ≡ user (src + j))
      × ((a : ℕ) → (a < dst) ⊎ (dst + n ≤ a) → mem' a ≡ mem a)
      × ((x : ℕ) → x / bsize < positions → byte_at d2 ip2 x ≡ byte_at d' ip' x)
readi-writei sb get part user copies cut d d' ip ip' owner src dst off n mem fetch works st lt e =
    elim (writei-Saved sb get part user d ip src off n fetch owner st lt) [
      | inl (why, f) ↦ let z = sym (ap returned e) ∙ ap returned f in cc
      | inr (tot, ip1, d1, f, s1) ↦
          let q : tot ≡ n = sym (ap count_of f) ∙ ap count_of e in
          let qi : ip1 ≡ ip' = sym (ap (inode_of ip) f) ∙ ap (inode_of ip) e in
          let qd : d1 ≡ d' = sym (ap (disk_of d) f) ∙ ap (disk_of d) e in
          let s : Saved sb get part user d ip src off n n ip' d' =
            subst (λ t. Saved sb get part user d ip src off n t ip' d') q
              (subst (λ i. Saved sb get part user d ip src off n tot i d') qi
                (subst (λ y. Saved sb get part user d ip src off n tot ip1 y) qd s1)) in
          let inside : off + n ≤ ip'.size = ground (arith, s.size) in
          let (mem', ip2, d2, g, copied, outside, same) =
            readi_reads sb copies works d' ip' dst off n mem cut s.owner s.stored inside lt s.fits
              s.there in
          (
            mem',
            ip2,
            d2,
            g,
            λ j h.
                let back : src + (off + j - off) ≡ src + j = omega arith in
                copied j h ∙ s.written (off + j) (omega arith) (omega (arith, h)) ∙ ap user back,
            outside,
            same,
          )
    ]
