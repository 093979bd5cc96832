-- ===== src/Fs/Content.antt =====
-- kernel/fs.c: readi and writei.
--
-- `either_copyin(dst, src, m)` gives the m bytes from src on, or fails after it has put fewer bytes
-- in place, and is an argument; so is whether `either_copyout` to an address succeeds, and how many
-- bytes it copies where it fails. Memory is the bytes it has written.
use eafitos.Base.{
  ℕ, zero, suc, ◌+◌, ◌-◌, ◌*◌, ◌/◌, ◌%◌, ◌^◌, Bool, true, false, ◌&&◌, ◌||◌, ◌==◌, ltb, leb,
  if◌then◌else◌, Option, none, some, min, update,
}
use eafitos.Fs.{Disk, SuperBlock, bsize}
use eafitos.Fs.Inode.{Inode, bmap, iupdate, ndirect, nindirect}

-- m bytes of g, put at i.
abbrev pub blit : (ℕ → ℕ) → ℕ → ℕ → (ℕ → ℕ) → ℕ → ℕ
blit f i m g a = if leb i a && ltb a (i + m) then g (a - i) else f a

-- `min(n - tot, BSIZE - off%BSIZE)`
abbrev pub chunk : ℕ → ℕ → ℕ → ℕ
chunk tot n off = min (n - tot) (bsize - off % bsize)

-- `off + n < off`, for uints
abbrev pub overflows : ℕ → ℕ → Bool
overflows off n = ltb ((off + n) % 2 ^ 32) off

abbrev pub maxfile : ℕ
maxfile = ndirect + nindirect

-- The variables of the loops.
pub record Loop : Type 0 where
  pub tot : ℕ
  pub ip : Inode
  pub disk : Disk

module _ (sb : SuperBlock) (get : ℕ → ℕ → Option (ℕ → ℕ)) (part : ℕ → ℕ → ℕ × (ℕ → ℕ)) where
  -- The loop of `writei` with k rounds left; off and src have moved on by tot.
  unfoldable pub write_loop : ℕ → ℕ → ℕ → ℕ → Loop → Option Loop
  write_loop zero src off n s = some s
  write_loop (suc k) src off n s =
      if ltb s.tot n
      then elim (bmap sb s.disk s.ip ((off + s.tot) / bsize)) [
        | none ↦ none
        | some r ↦
            if r.0 == 0
            then some (record { tot = s.tot; ip = r.1; disk = r.2 })
            else (let m = chunk s.tot n (off + s.tot) in
                elim (get (src + s.tot) m) [
                  | none ↦
                      let p = part (src + s.tot) m in
                      some (record {
                        tot = s.tot;
                        ip = r.1;
                        disk = update r.2 r.0 (blit (r.2 r.0) ((off + s.tot) % bsize) p.0 p.1);
                      })
                  | some bytes ↦ write_loop k src off n (record {
                    tot = s.tot + m;
                    ip = r.1;
                    disk = update r.2 r.0 (blit (r.2 r.0) ((off + s.tot) % bsize) m bytes);
                  })
                ])
      ]
      else some s

  abbrev pub grown_to : Inode → ℕ → Inode
  grown_to ip off = if ltb ip.size off then record ip { size = off } else ip

  -- `none` within the result is -1.
  unfoldable pub writei : Disk → Inode → ℕ → ℕ → ℕ → Option (Option ℕ × Inode × Disk)
  writei d ip src off n =
      if ltb ip.size off || overflows off n
      then some (none, ip, d)
      else if ltb (maxfile * bsize) ((off + n) % 2 ^ 32)
      then some (none, ip, d)
      else elim (write_loop n src off n (record { tot = 0; ip = ip; disk = d })) [
        | none ↦ none
        | some s ↦
            let ip' = grown_to s.ip (off + s.tot) in some (some s.tot, ip', iupdate sb s.disk ip')
      ]

module _ (sb : SuperBlock) (copies : ℕ → ℕ → Bool) (part : ℕ → ℕ → ℕ) where
  -- The loop of `readi`, with the memory that is written. `none` for tot is -1.
  unfoldable pub read_loop : ℕ → ℕ → ℕ → ℕ → (ℕ → ℕ) → Loop → Option (Option ℕ × (ℕ → ℕ) × Loop)
  read_loop zero dst off n mem s = some (some s.tot, mem, s)
  read_loop (suc k) dst off n mem s =
      if ltb s.tot n
      then elim (bmap sb s.disk s.ip ((off + s.tot) / bsize)) [
        | none ↦ none
        | some r ↦
            let s' : Loop = record { tot = s.tot; ip = r.1; disk = r.2 } in
            if r.0 == 0
            then some (some s.tot, mem, s')
            else (let m = chunk s.tot n (off + s.tot) in
                elim (copies (dst + s.tot) m) [
                  | false ↦
                      let p = part (dst + s.tot) m in
                      some (
                        none,
                        blit mem (dst + s.tot) p (λ j. r.2 r.0 ((off + s.tot) % bsize + j)),
                        s',
                      )
                  | true ↦
                      read_loop k dst off n
                        (blit mem (dst + s.tot) m (λ j. r.2 r.0 ((off + s.tot) % bsize + j)))
                        (record { tot = s.tot + m; ip = r.1; disk = r.2 })
                ])
      ]
      else some (some s.tot, mem, s)

  -- The bytes asked for, cut at the end of the file.
  abbrev pub cut_at_end : Inode → ℕ → ℕ → ℕ
  cut_at_end ip off n = if ltb ip.size ((off + n) % 2 ^ 32) then ip.size - off else n

  unfoldable pub readi :
      Disk → Inode → ℕ → ℕ → ℕ → (ℕ → ℕ) → Option (Option ℕ × (ℕ → ℕ) × Inode × Disk)
  readi d ip dst off n mem =
      if ltb ip.size off || overflows off n
      then some (some 0, mem, ip, d)
      else elim (read_loop (cut_at_end ip off n) dst off (cut_at_end ip off n) mem
          (record { tot = 0; ip = ip; disk = d })) [
            | none ↦ none
            | some r ↦ some (r.0, r.1, (r.2).ip, (r.2).disk)
          ]
