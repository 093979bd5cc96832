-- ===== src/Files/Writing.antt =====
-- filewrite as a change of the bytes of a file.
use eafitos.Base.{
  List, [], ℕ, zero, suc, ◌+◌, ◌-◌, ◌*◌, ◌/◌, ◌%◌, ◌^◌, ◌<◌, ◌≤◌, ◌≡◌, ◌⊎◌, inl, inr, refl, ap, ◌∙◌,
  Bool, true, false, ◌==◌, ltb, if◌then◌else◌, arith, Option, none, some, min, Bool-cases, dec_lt,
}
use eafitos.Files.{File, fd_inode}
use eafitos.Files.Transfer.{most_bytes, Sending, of_file, sent, send, write_inode, filewrite}
use eafitos.Fs.{Disk, SuperBlock, bsize, log_all}
use eafitos.Fs.Logged.{log_all-takes}
use eafitos.Fs.Journal.{writei_logs, writei_logs-le}
use eafitos.Fs.Inode.{Inode}
use eafitos.Fs.File.{positions}
use eafitos.Fs.Content.{writei}
use eafitos.Fs.Bytes.{byte_at}
use eafitos.Fs.Write.{IsFetch}
use eafitos.Fs.Writei.{IsStored, Saved, writei-Saved}

module _ (sb : SuperBlock) (get : ℕ → ℕ → Option (ℕ → ℕ)) (part : ℕ → ℕ → ℕ × (ℕ → ℕ))
    (user : ℕ → ℕ) (fetch : IsFetch get part user) (d0 : Disk) (ip0 : Inode) (addr off0 n : ℕ)
    (room : off0 + n < 2 ^ 32) where
  -- The first tot bytes from addr on are in the file at off0, and the bytes outside off0 to off0 + n
  -- are as they were.
  pub record Sent (tot : ℕ) (off : ℕ) (ip : Inode) (d : Disk) : Type 0 where
    pub owner : ℕ → ℕ
    pub stored : IsStored sb owner d ip
    pub most : tot ≤ n
    pub at_off : off ≡ off0 + tot
    pub fits : (tot ≡ 0) ⊎ (off0 + tot ≤ positions * bsize)
    pub size :
        ((tot ≡ 0) × (ip.size ≡ ip0.size))
        ⊎ (ip.size ≡ (if ltb ip0.size (off0 + tot) then off0 + tot else ip0.size))
    pub written : (x : ℕ) → off0 ≤ x → x < off0 + tot → byte_at d ip x ≡ user (addr + (x - off0))
    pub others :
        (x : ℕ)
        → x / bsize < positions
        → (x < off0) ⊎ (off0 + n ≤ x)
        → byte_at d ip x ≡ byte_at d0 ip0 x

  -- One more call of `writei`.
  module _ (i off : ℕ) (ip : Inode) (d : Disk) (s : Sent i off ip d) (n1 : ℕ)
      (le : i + n1 ≤ n) where
    more :
        (r : ℕ) (ip' : Inode) (d' : Disk)
        → Saved sb get part user d ip (addr + i) off n1 r ip' d'
        → Sent (i + r) ((off + r) % 2 ^ 32) ip' d'
    more r ip' d' w =
        let o = s.at_off in
        record {
          owner = w.owner;
          stored = w.stored;
          most = omega (arith, le, w.most);
          at_off = omega (arith, o, le, w.most, room);
          fits = inr (omega (arith, o, w.fits, w.most));
          size = grown r ip' d' w;
          written = λ x lo hi. elim (dec_lt x off) [
            | yes h ↦
                w.others x (omega (arith, h, w.fits)) (inl h) ∙ s.written x lo (omega (arith, h, o))
            | no h ↦
                let a : addr + i + (x - off) ≡ addr + (x - off0) = omega (arith, h, o) in
                w.written x (omega (arith, h)) (omega (arith, hi, o)) ∙ ap user a
          ];
          others = λ x h far. w.others x h (omega (arith, far, o, w.within, le)) ∙ s.others x h far;
        }
      where
        grown :
            (r : ℕ) (ip' : Inode) (d' : Disk)
            → Saved sb get part user d ip (addr + i) off n1 r ip' d'
            → ((i + r ≡ 0) × (ip'.size ≡ ip0.size))
              ⊎ (ip'.size ≡ (if ltb ip0.size (off0 + (i + r)) then off0 + (i + r) else ip0.size))
        grown r ip' d' w = inr (ground (arith, w.size, s.size, s.at_off))

  -- All n bytes have been sent, or fewer.
  abbrev Ending : ℕ → Sending → Type 0
  Ending tot s = ((s.i ≡ n) × (tot ≡ n)) ⊎ ((s.i < n) × (tot < n))

  send_step :
      (k : ℕ) (s : Sending) (w : Option ℕ × Inode × Disk)
      → ltb s.i n ≡ true
      → writei sb get part s.disk s.ip (addr + s.i) s.off (min (n - s.i) most_bytes) ≡ some w
      → (lh : List ℕ)
      → log_all [] (writei_logs sb get s.disk s.ip (addr + s.i) s.off (min (n - s.i) most_bytes))
        ≡ some lh
      → send sb get part (suc k) addr n s
        ≡ elim (sent sb get part s (min (n - s.i) most_bytes) w).0 [
          | true ↦ send sb get part k addr n (sent sb get part s (min (n - s.i) most_bytes) w).1
          | false ↦ some (sent sb get part s (min (n - s.i) most_bytes) w).1
        ]
  unfolding send
  send_step k s w h f lh l = rw (h, send) (rw l (rw f refl))

  module _ (s : Sending) (r : ℕ) (ip : Inode) (d : Disk) (n1 : ℕ) where
    sent_all :
        (r == n1) ≡ true
        → sent sb get part s n1 (some r, ip, d)
          ≡ (true, record { i = s.i + r; off = (s.off + r) % 2 ^ 32; ip = ip; disk = d })
    sent_all h = rw h refl

    sent_fewer :
        (r == n1) ≡ false
        → sent sb get part s n1 (some r, ip, d)
          ≡ (false, record { i = s.i; off = (s.off + r) % 2 ^ 32; ip = ip; disk = d })
    sent_fewer h = rw h refl

  -- What the rest of a round makes of the outcome of `writei`.
  abbrev goes_on : ℕ → Bool × Sending → Option Sending
  goes_on k q = elim q.0 [ true ↦ send sb get part k addr n q.1 | false ↦ some q.1 ]

  send-Sent :
      (k : ℕ) (s : Sending)
      → Sent s.i s.off s.ip s.disk
      → n ≤ s.i + k
      → (s' : Sending) × (tot : ℕ) × (send sb get part k addr n s ≡ some s')
        × Sent tot s'.off s'.ip s'.disk
        × Ending tot s'
  unfolding send
  send-Sent zero s w enough =
      let e : s.i ≡ n = omega (arith, enough, w.most) in (s, s.i, refl, w, inl (e, e))
  send-Sent (suc k) s w enough = elim (Bool-cases (ltb s.i n)) [
    | inr h ↦
        let e : s.i ≡ n = ground (arith, h, w.most) in (s, s.i, rw (h, send) refl, w, inl (e, e))
    | inl h ↦
        let lt : s.i < n = ground (arith, h) in
        let n1 = min (n - s.i) most_bytes in
        let le : s.i + n1 ≤ n = ground (arith, lt) in
        let pos : 0 < n1 = ground (arith, lt) in
        let (lh, l, _) =
          log_all-takes [] (writei_logs sb get s.disk s.ip (addr + s.i) s.off n1) (
            omega (arith, writei_logs-le sb get s.disk s.ip (addr + s.i) s.off n1 (omega arith))) in
        elim (writei-Saved sb get part user s.disk s.ip (addr + s.i) s.off n1 fetch w.owner w.stored
          (omega (arith, le, room, w.at_off))) [
            | inl (why, e) ↦ (
              record { i = s.i; off = s.off; ip = s.ip; disk = s.disk },
              s.i,
              send_step k s (none, s.ip, s.disk) h e lh l,
              w,
              inr (lt, lt),
            )
            | inr (r, ip, d, e, v) ↦ elim (Bool-cases (r == n1)) [
              | inr q ↦
                  let fewer : r < n1 = ground (arith, q, v.most) in
                  (
                    record { i = s.i; off = (s.off + r) % 2 ^ 32; ip = ip; disk = d },
                    s.i + r,
                    send_step k s (some r, ip, d) h e lh l
                        ∙ ap (goes_on k) (sent_fewer s r ip d n1 q),
                    more s.i s.off s.ip s.disk w n1 le r ip d v,
                    inr (lt, omega (arith, fewer, le)),
                  )
              | inl q ↦
                  let all : r ≡ n1 = ground (arith, q) in
                  let (s', tot, e', w', why) =
                    send-Sent k
                      (record { i = s.i + r; off = (s.off + r) % 2 ^ 32; ip = ip; disk = d })
                      (more s.i s.off s.ip s.disk w n1 le r ip d v)
                      (omega (arith, enough, all, pos)) in
                  (
                    s',
                    tot,
                    send_step k s (some r, ip, d) h e lh l
                        ∙ ap (goes_on k) (sent_all s r ip d n1 q)
                        ∙ e',
                    w',
                    why,
                  )
            ]
          ]
  ]

  filewrite_inode :
      (device : ℕ → Bool) (f : File)
      → f.writable ≡ true
      → f.type ≡ fd_inode
      → filewrite sb get part device d0 ip0 f addr n ≡ write_inode sb get part d0 ip0 f addr n
  unfolding filewrite
  filewrite_inode device f w t = simp (w, filewrite, t) refl

  write_inode_runs :
      (f : File) (s : Sending)
      → ltb n (2 ^ 31) ≡ true
      → send sb get part n addr n (record { i = 0; off = f.off; ip = ip0; disk = d0 }) ≡ some s
      → write_inode sb get part d0 ip0 f addr n
        ≡ some (of_file (if s.i == n then some n else none) (record f { off = s.off }) s.ip s.disk)
  unfolding write_inode
  write_inode_runs f s l e = rw (l, write_inode) (rw e refl)

  -- For a descriptor that can be written, of a file that is stored on a disk of at most 2 ^ 31 -
  -- 8192 blocks, where n is an int that is not negative, the offset plus n is below 2 ^ 32, a copy
  -- from the source gives its bytes or fails after fewer, and no other transaction is in progress:
  -- `filewrite` does not panic, and neither does any `log_write` that it comes to. The bytes of the
  -- file from the old offset to the new one are the source's, the bytes outside the n bytes from
  -- the old offset on are as they were, the size reaches to the new offset or is as it was, and the
  -- file's blocks are again its own and in use. It returns n where the offset has moved by n, and
  -- -1 otherwise.
  pub filewrite-Sent :
      (device : ℕ → Bool) (f : File) (owner : ℕ → ℕ)
      → f.writable ≡ true
      → f.type ≡ fd_inode
      → f.off ≡ off0
      → n < 2 ^ 31
      → IsStored sb owner d0 ip0
      → (tot : ℕ) × (off : ℕ) × (ip : Inode) × (d : Disk) × (filewrite sb get part device d0 ip0 f
            addr n
          ≡ some (of_file (if tot == n then some n else none) (record f { off = off }) ip d))
        × Sent tot off ip d
  filewrite-Sent device f owner w t o small_n st =
      let start : Sent 0 f.off ip0 d0 = record {
        owner = owner;
        stored = st;
        most = omega arith;
        at_off = omega (arith, o);
        fits = inl refl;
        size = inl (refl, refl);
        written = λ x lo hi. absurd (omega (arith, lo, hi));
        others = λ x h far. refl;
      } in
      let (s, tot, e, v, why) =
        send-Sent n (record { i = 0; off = f.off; ip = ip0; disk = d0 }) start (omega arith) in
      let same : (s.i == n) ≡ (tot == n) = ground (arith, why) in
      (
        tot,
        s.off,
        s.ip,
        s.disk,
        filewrite_inode device f w t
            ∙ write_inode_runs f s (ground (arith, small_n)) e
            ∙ ap
                (λ b.
                  some
                    (of_file (if b then some n else none) (record f { off = s.off }) s.ip s.disk))
                same,
        v,
      )
