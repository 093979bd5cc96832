-- ===== src/Fs/Writei.antt =====
-- writei as a change of the bytes of a file.
use eafitos.Base.{
  ℕ, ◌+◌, ◌-◌, ◌*◌, ◌/◌, ◌%◌, ◌^◌, ◌<◌, ◌≤◌, ◌≡◌, ◌≢◌, ◌⊎◌, inl, inr, refl, sym, ap, ◌∙◌, subst,
  true, false, ltb, ◌||◌, if◌then◌else◌, arith, Option, none, some, Bool-cases, dec_lt,
}
use eafitos.Fs.{Disk, SuperBlock, bsize}
use eafitos.Fs.Used.{used, IsFs}
use eafitos.Fs.Inode.{Inode, iupdate}
use eafitos.Fs.File.{positions, at, IsFile}
use eafitos.Fs.Content.{Loop, chunk, write_loop, grown_to, overflows, maxfile, writei}
use eafitos.Fs.Bytes.{byte_at}
use eafitos.Fs.Dinode.{IsOnDisk, iupdate-IsOnDisk}
use eafitos.Fs.Written.{IsHome, Wrote}
use eafitos.Fs.Write.{IsFetch, Ending, write_loop-Wrote}
use eafitos.Fs.Update.{
  iupdate-IsFs, iupdate-IsFile, iupdate-IsHome, iupdate_used, saved-at, saved_byte, at_addrs,
  byte_addrs, IsFile_addrs,
}

-- A file on a disk: its blocks are its own, and so is the block of its inode.
pub record IsStored (sb : SuperBlock) (owner : ℕ → ℕ) (d : Disk) (ip : Inode) : Type 0 where
  pub fs : IsFs sb d
  pub file : IsFile sb owner d ip
  pub home : IsHome sb owner d ip.inum

grown_addrs :
    (ip : Inode) (x : ℕ) → (if ltb ip.size x then record ip { size = x } else ip).addrs ≡ ip.addrs
grown_addrs ip x = elim (Bool-cases (ltb ip.size x)) [ inl h ↦ rw h refl | inr h ↦ rw h refl ]

grown_inum :
    (ip : Inode) (x : ℕ) → (if ltb ip.size x then record ip { size = x } else ip).inum ≡ ip.inum
grown_inum ip x = elim (Bool-cases (ltb ip.size x)) [ inl h ↦ rw h refl | inr h ↦ rw h refl ]

grown_size :
    (ip : Inode) (x : ℕ)
    → (if ltb ip.size x then record ip { size = x } else ip).size
      ≡ (if ltb ip.size x then x else ip.size)
grown_size ip x = elim (Bool-cases (ltb ip.size x)) [ inl h ↦ rw h refl | inr h ↦ rw h refl ]

module _ (sb : SuperBlock) (get : ℕ → ℕ → Option (ℕ → ℕ)) (part : ℕ → ℕ → ℕ × (ℕ → ℕ))
    (user : ℕ → ℕ) (d : Disk) (ip : Inode) (src off n : ℕ) where
  -- The first tot bytes of n are in the file at off; no byte of the file is changed
  -- before off or touched bytes after it.
  pub record Saved (tot : ℕ) (ip' : Inode) (d' : Disk) : Type 0 where
    pub owner : ℕ → ℕ
    pub stored : IsStored sb owner d' ip'
    pub on_disk : IsOnDisk sb ip' d'
    pub most : tot ≤ n
    pub touched : ℕ
    pub within : touched ≤ n
    pub fits : off + n ≤ positions * bsize
    pub size : ip'.size ≡ (if ltb ip.size (off + tot) then off + tot else ip.size)
    pub written : (x : ℕ) → off ≤ x → x < off + tot → byte_at d' ip' x ≡ user (src + (x - off))
    pub there : (x : ℕ) → off ≤ x → x < off + tot → at d' ip' (x / bsize) ≢ 0
    pub others :
        (x : ℕ)
        → x / bsize < positions
        → (x < off) ⊎ (off + touched ≤ x)
        → byte_at d' ip' x ≡ byte_at d ip x
    pub why :
        ((touched ≡ tot) × (tot ≡ n))
        ⊎ (((touched ≡ tot) × ((c : ℕ) → c < sb.size → used sb d' c ≡ true))
            ⊎ (get (src + tot) (chunk tot n (off + tot)) ≡ none))

  module _ (fetch : IsFetch get part user) where
    save :
        (fits : off + n ≤ positions * bsize) (lim : ℕ) (s : Loop)
        → Wrote sb user d ip src off n fits lim s
        → Ending sb get part user fetch d ip src off n fits lim s
        → let ip' = grown_to sb get part s.ip (off + s.tot) in
          Saved s.tot ip' (iupdate sb s.disk ip')
    save fits lim s w why =
        let x1 = off + s.tot in
        let ip' = grown_to sb get part s.ip x1 in
        let ea = grown_addrs s.ip x1 in
        let file = IsFile_addrs sb w.owner s.disk s.ip ip' ea w.file in
        let home = subst (IsHome sb w.owner s.disk) (sym (grown_inum s.ip x1)) w.home in
        let a = saved-at sb w.owner s.disk ip' w.fs file home in
        let b = saved_byte sb w.owner s.disk ip' w.fs file home in
        let c = iupdate_used sb w.owner s.disk ip' w.fs file home in
        record {
          owner = w.owner;
          stored = record {
            fs = iupdate-IsFs sb w.owner s.disk ip' w.fs file home;
            file = iupdate-IsFile sb w.owner s.disk ip' w.fs file home;
            home = iupdate-IsHome sb w.owner s.disk ip' w.fs file home;
          };
          on_disk = iupdate-IsOnDisk sb s.disk ip';
          most = w.most;
          touched = lim;
          within = elim why [
            | inl (e, q) ↦ omega (arith, e, w.most)
            | inr (inl (e, q)) ↦ omega (arith, e, w.most)
            | inr (inr (h, q)) ↦ h
          ];
          fits = fits;
          size = grown_size s.ip x1 ∙ ap (λ z. if ltb z x1 then x1 else z) w.same_size;
          written = λ x lo hi.
              b x (omega (arith, hi, w.most, fits))
              ∙ byte_addrs s.disk s.ip ip' x ea
              ∙ w.written x lo hi;
          there = λ x lo hi z. w.there x lo hi (
              sym (at_addrs s.disk s.ip ip' (x / bsize) ea)
              ∙ sym (a (x / bsize) (omega (arith, hi, w.most, fits)))
              ∙ z);
          others = λ x h far. b x h ∙ byte_addrs s.disk s.ip ip' x ea ∙ w.others x h far;
          why = elim why [
            | inl e ↦ inl e
            | inr (inl (e, full)) ↦ inr (inl (e, λ k h. c k h ∙ full k h))
            | inr (inr (h, e)) ↦ inr (inr e)
          ];
        }

    runs :
        (s : Loop)
        → (ltb ip.size off || overflows off n) ≡ false
        → ltb (maxfile * bsize) ((off + n) % 2 ^ 32) ≡ false
        → write_loop sb get part n src off n (record { tot = 0; ip = ip; disk = d }) ≡ some s
        → let ip' = grown_to sb get part s.ip (off + s.tot) in
          writei sb get part d ip src off n ≡ some (some s.tot, ip', iupdate sb s.disk ip')
    unfolding writei
    runs s h k e = rw (h, writei) (rw k (rw e refl))

    refuses :
        (ip.size < off) ⊎ (positions * bsize < off + n)
        → off + n < 2 ^ 32
        → writei sb get part d ip src off n ≡ some (none, ip, d)
    unfolding writei
    refuses h lt = elim (Bool-cases (ltb ip.size off || overflows off n)) [
      | inl k ↦ rw k refl
      | inr k ↦
          let z : ltb (maxfile * bsize) ((off + n) % 2 ^ 32) ≡ true = ground (arith, h, lt, k) in
          rw (k, writei) (rw z refl)
    ]

    pub writei-Saved :
        (owner : ℕ → ℕ)
        → IsStored sb owner d ip
        → off + n < 2 ^ 32
        → (((ip.size < off) ⊎ (positions * bsize < off + n))
            × (writei sb get part d ip src off n ≡ some (none, ip, d)))
          ⊎ ((tot : ℕ) × (ip' : Inode) × (d' : Disk) × (writei sb get part d ip src off n
                ≡ some (some tot, ip', d'))
              × Saved tot ip' d')
    writei-Saved owner st lt = elim (dec_lt ip.size off) [
      | yes h ↦ inl (inl h, refuses (inl h) lt)
      | no h ↦ elim (dec_lt (positions * bsize) (off + n)) [
        | yes k ↦ inl (inr k, refuses (inr k) lt)
        | no k ↦
            let fits : off + n ≤ positions * bsize = omega (arith, k) in
            let start : Wrote sb user d ip src off n fits 0
                (record { tot = 0; ip = ip; disk = d }) =
              record {
                owner = owner;
                fs = st.fs;
                file = st.file;
                home = st.home;
                same_size = refl;
                same_inum = refl;
                most = omega arith;
                written = λ x lo hi. absurd (omega (arith, lo, hi));
                there = λ x lo hi z. absurd (omega (arith, lo, hi));
                others = λ x q far. refl;
              } in
            let (s, lim, e, w, why) =
              write_loop-Wrote sb get part user fetch d ip src off n fits n
                (record { tot = 0; ip = ip; disk = d }) start (omega arith) in
            inr (
              s.tot,
              grown_to sb get part s.ip (off + s.tot),
              iupdate sb s.disk (grown_to sb get part s.ip (off + s.tot)),
              runs s (ground (arith, h, lt)) (ground (arith, fits, lt)) e,
              save fits lim s w why,
            )
      ]
    ]
