-- ===== src/Fs/Journal.antt =====
-- kernel/fs.c: the blocks that balloc, bmap and writei give to log_write, in order.
use eafitos.Base.{
  ℕ, zero, suc, ◌+◌, ◌-◌, ◌*◌, ◌/◌, ◌%◌, ◌^◌, ◌<◌, ◌≤◌, ◌≡◌, ◌||◌, ◌==◌, ltb, if◌then◌else◌, arith,
  Option, none, some, min, update, Bool-cases, Option-cases, inl, inr, List, [], ◌∷◌, ◌++◌, length,
}
use eafitos.Fs.{Disk, SuperBlock, bsize, bpb, bblock_int, scan, balloc}
use eafitos.Fs.Inode.{Inode, ndirect, nindirect, entry, iblock, fill_slot, bmap}
use eafitos.Fs.Content.{blit, chunk, overflows, maxfile, Loop}

length_append : (xs ys : List ℕ) → length (xs ++ ys) ≡ length xs + length ys
length_append [] ys = omega arith
length_append (x ∷ xs) ys = omega (arith, length_append xs ys)

joined-le :
    (xs ys : List ℕ) (b n m : ℕ)
    → length xs ≤ 5
    → length ys ≤ n
    → n + 6 ≤ m
    → length (xs ++ b ∷ ys) ≤ m
joined-le xs ys b n m h k l = omega (arith, length_append xs (b ∷ ys), h, k, l)

module _ (sb : SuperBlock) where
  -- The bitmap block, and the block that `bzero` clears.
  unfoldable pub balloc_logs_from : Disk → ℕ → ℕ → List ℕ
  balloc_logs_from d b zero = []
  balloc_logs_from d b (suc k) = elim (scan sb d b 0 (min bpb (sb.size - b))) [
    | none ↦ balloc_logs_from d ((b + bpb) % 2 ^ 32) k
    | some bi ↦ bblock_int sb b ∷ (b + bi) ∷ []
  ]

  unfoldable pub balloc_logs : Disk → List ℕ
  balloc_logs d = balloc_logs_from d 0 ((sb.size + bpb - 1) / bpb)

  unfoldable pub slot_logs : Disk → Inode → ℕ → List ℕ
  slot_logs d ip i = if ip.addrs i == 0 then balloc_logs d else []

  unfoldable pub entry_logs : Disk → ℕ → ℕ → List ℕ
  entry_logs d block j =
      if entry (d block) j == 0
      then balloc_logs d ++ (if (balloc sb d).0 == 0 then [] else block ∷ [])
      else []

  unfoldable pub bmap_logs : Disk → Inode → ℕ → List ℕ
  bmap_logs d ip bn =
      if ltb bn ndirect
      then slot_logs d ip bn
      else if ltb (bn - ndirect) nindirect
      then (let f = fill_slot sb d ip ndirect in
          slot_logs d ip ndirect ++ (if f.0 == 0 then [] else entry_logs f.2 f.0 (bn - ndirect)))
      else []

  balloc_logs_from-le : (d : Disk) (b k : ℕ) → length (balloc_logs_from d b k) ≤ 2
  unfolding balloc_logs_from
  balloc_logs_from-le d b zero = omega arith
  balloc_logs_from-le d b (suc k) = elim (Option-cases (scan sb d b 0 (min bpb (sb.size - b)))) [
    | inl e ↦ rw (e, balloc_logs_from) (balloc_logs_from-le d ((b + bpb) % 2 ^ 32) k)
    | inr (bi, e) ↦ rw (e, balloc_logs_from) (omega arith)
  ]

  balloc_logs-le : (d : Disk) → length (balloc_logs d) ≤ 2
  unfolding balloc_logs
  balloc_logs-le d = balloc_logs_from-le d 0 ((sb.size + bpb - 1) / bpb)

  slot_logs-le : (d : Disk) (ip : Inode) (i : ℕ) → length (slot_logs d ip i) ≤ 2
  unfolding slot_logs
  slot_logs-le d ip i = elim (Bool-cases (ip.addrs i == 0)) [
    | inl h ↦ rw h (balloc_logs-le d)
    | inr h ↦ rw h (omega arith)
  ]

  entry_logs-le : (d : Disk) (block j : ℕ) → length (entry_logs d block j) ≤ 3
  unfolding entry_logs
  entry_logs-le d block j = elim (Bool-cases (entry (d block) j == 0)) [
    | inr h ↦ rw h (omega arith)
    | inl h ↦ rw h (elim (Bool-cases ((balloc sb d).0 == 0)) [
      | inl k ↦ rw k (omega (arith, length_append (balloc_logs d) [], balloc_logs-le d))
      | inr k ↦ rw k (omega (arith, length_append (balloc_logs d) (block ∷ []), balloc_logs-le d))
    ])
  ]

  bmap_logs-le : (d : Disk) (ip : Inode) (bn : ℕ) → length (bmap_logs d ip bn) ≤ 5
  unfolding bmap_logs
  bmap_logs-le d ip bn = elim (Bool-cases (ltb bn ndirect)) [
    | inl h ↦ rw h (omega (arith, slot_logs-le d ip bn))
    | inr h ↦ rw h (elim (Bool-cases (ltb (bn - ndirect) nindirect)) [
      | inr k ↦ rw k (omega arith)
      | inl k ↦
          let f = fill_slot sb d ip ndirect in
          let xs = slot_logs d ip ndirect in
          let ys = entry_logs f.2 f.0 (bn - ndirect) in
          rw k (elim (Bool-cases (f.0 == 0)) [
            | inl z ↦ rw z (omega (arith, length_append xs [], slot_logs-le d ip ndirect))
            | inr z ↦ rw z (
                omega (
                  arith,
                  length_append xs ys,
                  slot_logs-le d ip ndirect,
                  entry_logs-le f.2 f.0 (bn - ndirect),
                ))
          ])
    ])
  ]

module _ (sb : SuperBlock) (get : ℕ → ℕ → Option (ℕ → ℕ)) where
  -- The loop of `writei` with k rounds left.
  unfoldable pub write_loop_logs : ℕ → ℕ → ℕ → ℕ → Loop → List ℕ
  write_loop_logs zero src off n s = []
  write_loop_logs (suc k) src off n s =
      if ltb s.tot n
      then elim (bmap sb s.disk s.ip ((off + s.tot) / bsize)) [
        | none ↦ []
        | some r ↦
            bmap_logs sb s.disk s.ip ((off + s.tot) / bsize)
            ++ (if r.0 == 0
                then []
                else (let m = chunk s.tot n (off + s.tot) in
                    elim (get (src + s.tot) m) [
                      | none ↦ []
                      | some bytes ↦
                          r.0
                          ∷ write_loop_logs k src off n (record {
                            tot = s.tot + m;
                            ip = r.1;
                            disk = update r.2 r.0 (blit (r.2 r.0) ((off + s.tot) % bsize) m bytes);
                          })
                    ]))
      ]
      else []

  unfoldable pub writei_logs : Disk → Inode → ℕ → ℕ → ℕ → List ℕ
  writei_logs d ip src off n =
      if ltb ip.size off || overflows off n
      then []
      else if ltb (maxfile * bsize) ((off + n) % 2 ^ 32)
      then []
      else write_loop_logs n src off n (record { tot = 0; ip = ip; disk = d })
        ++ iblock sb ip.inum ∷ []

  -- The blocks that n bytes at off meet.
  abbrev met : ℕ → ℕ → ℕ
  met off n = (off % bsize + n + (bsize - 1) * min n 1) / bsize

  write_loop_logs-le :
      (k src off n : ℕ) (s : Loop)
      → s.tot ≤ n
      → length (write_loop_logs k src off n s) ≤ 6 * met (off + s.tot) (n - s.tot)
  unfolding write_loop_logs
  write_loop_logs-le zero src off n s le = omega arith
  write_loop_logs-le (suc k) src off n s le = elim (Bool-cases (ltb s.tot n)) [
    | inr h ↦ rw h (omega arith)
    | inl h ↦
        let more : s.tot < n = ground (arith, h) in
        let bn = (off + s.tot) / bsize in
        let m = chunk s.tot n (off + s.tot) in
        let xs = bmap_logs sb s.disk s.ip bn in
        rw h (elim (Option-cases (bmap sb s.disk s.ip bn)) [
          | inl e ↦ rw e (omega arith)
          | inr (r, e) ↦ rw e (elim (Bool-cases (r.0 == 0)) [
            | inl z ↦
                rw z (omega (arith, more, length_append xs [], bmap_logs-le sb s.disk s.ip bn))
            | inr z ↦ rw z (elim (Option-cases (get (src + s.tot) m)) [
              | inl g ↦
                  rw g (omega (arith, more, length_append xs [], bmap_logs-le sb s.disk s.ip bn))
              | inr (bytes, g) ↦
                  let next : Loop = record {
                    tot = s.tot + m;
                    ip = r.1;
                    disk = update r.2 r.0 (blit (r.2 r.0) ((off + s.tot) % bsize) m bytes);
                  } in
                  let ys = write_loop_logs k src off n next in
                  rw g (
                    joined-le xs ys r.0 (6 * met (off + next.tot) (n - next.tot))
                      (6 * met (off + s.tot) (n - s.tot)) (bmap_logs-le sb s.disk s.ip bn)
                      (write_loop_logs-le k src off n next (omega (arith, more)))
                      (omega (arith, more)))
            ])
          ])
        ])
  ]

  pub writei_logs-le :
      (d : Disk) (ip : Inode) (src off n : ℕ)
      → n ≤ 3 * bsize
      → length (writei_logs d ip src off n) ≤ 25
  unfolding writei_logs
  writei_logs-le d ip src off n le = elim (Bool-cases (ltb ip.size off || overflows off n)) [
    | inl h ↦ rw h (omega arith)
    | inr h ↦ rw h (elim (Bool-cases (ltb (maxfile * bsize) ((off + n) % 2 ^ 32))) [
      | inl k ↦ rw k (omega arith)
      | inr k ↦
          let s : Loop = record { tot = 0; ip = ip; disk = d } in
          rw k (
            omega (
              arith,
              le,
              length_append (write_loop_logs n src off n s) (iblock sb ip.inum ∷ []),
              write_loop_logs-le n src off n s (omega arith),
            ))
    ])
  ]
