-- ===== src/Fs/Trunc.antt =====
-- itrunc frees the blocks of a file, position by position.
use eafitos.Base.{
  List, length, ◌/◌, ℕ, zero, suc, ◌+◌, ◌-◌, ◌%◌, ◌≤◌, ◌≡◌, ◌≢◌, inl, inr, refl, sym, ap, ◌∙◌,
  subst, false, ◌==◌, arith, some, update_ne, Bool-cases,
}
use eafitos.Log.{log_blocks}
use eafitos.Fs.Logged.{log_block-takes}
use eafitos.Fs.Dinode.{IsOnDisk, iupdate-IsOnDisk}
use eafitos.Fs.{Disk, SuperBlock, bpb, bblock, bfree, log_block, added, in_use}
use eafitos.Fs.Used.{used, IsFs}
use eafitos.Fs.Inode.{
  Inode, ndirect, nindirect, entry, with_addr, free_slots, free_entries, free_indirect, itrunc,
  iupdate, iblock, emptied,
}
use eafitos.Fs.File.{positions, at, IsBlock, IsFile, at_direct, at_last, at_none, at-entry}
use eafitos.Fs.Stage.{
  Stage, Stage-zero, Stage-room, Stage-empty, Stage-free, Stage-skip, Cut, cut, cut_none,
}

module _ (sb : SuperBlock) (owner : ℕ → ℕ) (d : Disk) (ip : Inode) (fs : IsFs sb d)
    (file : IsFile sb owner d ip) (lh0 : List ℕ)
    (room : length lh0 + sb.size / bpb + 2 ≤ log_blocks) where
  free_slots-Stage :
      (k i : ℕ) (ip' : Inode) (lh : List ℕ) (d' : Disk)
      → i + k ≡ ndirect
      → Cut sb owner d ip fs file lh0 room i ip'
      → Stage sb owner d ip fs file lh0 room i lh d'
      → (ip2 : Inode) × (lh2 : List ℕ) × (d2 : Disk) × (free_slots sb lh d' ip' i k
          ≡ some (ip2, lh2, d2))
        × Cut sb owner d ip fs file lh0 room ndirect ip2
        × Stage sb owner d ip fs file lh0 room ndirect lh2 d2
  unfolding free_slots
  free_slots-Stage zero i ip' lh d' e c s =
      let q : i ≡ ndirect = omega (arith, e) in
      (
        ip',
        lh,
        d',
        refl,
        subst (λ x. Cut sb owner d ip fs file lh0 room x ip') q c,
        subst (λ x. Stage sb owner d ip fs file lh0 room x lh d') q s,
      )
  free_slots-Stage (suc k) i ip' lh d' e c s =
      let here : ip'.addrs i ≡ at d ip i =
        c.left i (omega arith) ∙ sym (at_direct d ip i (omega (arith, e))) in
      elim (Bool-cases (ip'.addrs i == 0)) [
        | inl h ↦
            let z : at d ip i ≡ 0 = sym here ∙ ground (arith, h) in
            let (ip2, lh2, d2, f, c2, s2) =
              free_slots-Stage k (i + 1) ip' lh d' (omega (arith, e))
                (cut_none sb owner d ip fs file lh0 room i ip'
                  (sym (c.left i (omega arith)) ∙ here ∙ z) c)
                (Stage-empty sb owner d ip fs file lh0 room i lh d' z s) in
            (ip2, lh2, d2, rw (h, free_slots) f, c2, s2)
        | inr h ↦
            let nz : ip'.addrs i ≢ 0 = ground (arith, h) in
            let (lh1, d1, g, s1) =
              Stage-free sb owner d ip fs file lh0 room i lh d' (omega (arith, e))
                (λ z. nz (here ∙ z)) s in
            let (ip2, lh2, d2, f, c2, s2) =
              free_slots-Stage k (i + 1) (with_addr ip' i 0) lh1 d1 (omega (arith, e))
                (cut sb owner d ip fs file lh0 room i ip' c) s1 in
            let g' : bfree sb lh d' (ip'.addrs i) ≡ some (lh1, d1) = ap (bfree sb lh d') here ∙ g in
            (ip2, lh2, d2, rw (h, free_slots) (rw g' f), c2, s2)
      ]

  module _ (has : ip.addrs ndirect ≢ 0) where
    last-IsBlock : IsBlock sb owner d positions (ip.addrs ndirect)
    last-IsBlock =
        subst (IsBlock sb owner d positions) (at_last d ip)
          (file positions (omega arith) (λ e. has (sym (at_last d ip) ∙ e)))

    free_entries-Stage :
        (k j : ℕ) (lh : List ℕ) (d' : Disk)
        → j + k ≡ nindirect
        → Stage sb owner d ip fs file lh0 room (ndirect + j) lh d'
        → (lh2 : List ℕ) × (d2 : Disk) × (free_entries sb lh d' (ip.addrs ndirect) j k
            ≡ some (lh2, d2))
          × Stage sb owner d ip fs file lh0 room positions lh2 d2
    unfolding free_entries
    free_entries-Stage zero j lh d' e s =
        let q : ndirect + j ≡ positions = omega (arith, e) in
        (lh, d', refl, subst (λ x. Stage sb owner d ip fs file lh0 room x lh d') q s)
    free_entries-Stage (suc k) j lh d' e s =
        let block = ip.addrs ndirect in
        let here : entry (d' block) j ≡ at d ip (ndirect + j) =
          ap (λ f. entry f j) (s.frame block last-IsBlock.apart)
          ∙ sym (at-entry d ip j (omega (arith, e)) has) in
        let more : ndirect + j + 1 ≡ ndirect + (j + 1) = omega arith in
        elim (Bool-cases (entry (d' block) j == 0)) [
          | inl h ↦
              let z : at d ip (ndirect + j) ≡ 0 = sym here ∙ ground (arith, h) in
              let s1 =
                subst (λ x. Stage sb owner d ip fs file lh0 room x lh d') more
                  (Stage-empty sb owner d ip fs file lh0 room (ndirect + j) lh d' z s) in
              let (lh2, d2, f, s2) = free_entries-Stage k (j + 1) lh d' (omega (arith, e)) s1 in
              (lh2, d2, rw (h, free_entries) f, s2)
          | inr h ↦
              let nz : entry (d' block) j ≢ 0 = ground (arith, h) in
              let (lh1, d1, g, s1) =
                Stage-free sb owner d ip fs file lh0 room (ndirect + j) lh d' (omega (arith, e))
                  (λ z. nz (here ∙ z)) s in
              let (lh2, d2, f, s2) =
                free_entries-Stage k (j + 1) lh1 d1 (omega (arith, e))
                  (subst (λ x. Stage sb owner d ip fs file lh0 room x lh1 d1) more s1) in
              let g' : bfree sb lh d' (entry (d' block) j) ≡ some (lh1, d1) =
                ap (bfree sb lh d') here ∙ g in
              (lh2, d2, rw (h, free_entries) (rw g' f), s2)
        ]

  free_indirect-Stage :
      (ip' : Inode) (lh : List ℕ) (d' : Disk)
      → Cut sb owner d ip fs file lh0 room ndirect ip'
      → Stage sb owner d ip fs file lh0 room ndirect lh d'
      → (ip2 : Inode) × (lh2 : List ℕ) × (d2 : Disk) × (free_indirect sb lh d' ip'
          ≡ some (ip2, lh2, d2))
        × Cut sb owner d ip fs file lh0 room (ndirect + 1) ip2
        × Stage sb owner d ip fs file lh0 room (positions + 1) lh2 d2
  unfolding free_indirect
  free_indirect-Stage ip' lh d' c s =
      let same : ip'.addrs ndirect ≡ ip.addrs ndirect = c.left ndirect (omega arith) in
      elim (Bool-cases (ip'.addrs ndirect == 0)) [
        | inl h ↦
            let z : ip.addrs ndirect ≡ 0 = sym same ∙ ground (arith, h) in
            (
              ip',
              lh,
              d',
              rw (h, free_indirect) refl,
              cut_none sb owner d ip fs file lh0 room ndirect ip' z c,
              Stage-empty sb owner d ip fs file lh0 room positions lh d' (at_last d ip ∙ z) (
                  Stage-skip sb owner d ip fs file lh0 room nindirect ndirect lh d'
                    (λ q l m.
                      let e : ndirect + (q - ndirect) ≡ q = omega (arith, l) in
                      subst (λ x. at d ip x ≡ 0) e
                        (at_none d ip (q - ndirect) (omega (arith, l, m)) z))
                    s),
            )
        | inr h ↦
            let nz' : ip'.addrs ndirect ≢ 0 = ground (arith, h) in
            let nz : ip.addrs ndirect ≢ 0 = λ z. nz' (same ∙ z) in
            let (lh1, d1, f, s1) = free_entries-Stage nz nindirect 0 lh d' refl s in
            let (lh2, d2, g, s2) =
              Stage-free sb owner d ip fs file lh0 room positions lh1 d1 (omega arith)
                (λ z. nz (sym (at_last d ip) ∙ z)) s1 in
            let f' : free_entries sb lh d' (ip'.addrs ndirect) 0 nindirect ≡ some (lh1, d1) =
              ap (λ x. free_entries sb lh d' x 0 nindirect) same ∙ f in
            let g' : bfree sb lh1 d1 (ip'.addrs ndirect) ≡ some (lh2, d2) =
              ap (bfree sb lh1 d1) (same ∙ sym (at_last d ip)) ∙ g in
            (
              with_addr ip' ndirect 0,
              lh2,
              d2,
              rw (h, free_indirect) (rw f' (rw g' refl)),
              cut sb owner d ip fs file lh0 room ndirect ip' c,
              s2,
            )
      ]

  iupdate-used :
      (d' : Disk) (ip' : Inode) (c : ℕ)
      → bblock sb c ≢ iblock sb ip'.inum
      → used sb (iupdate sb d' ip') c ≡ used sb d' c
  unfolding iupdate in_use
  iupdate-used d' ip' c ne =
      ap (λ f. in_use (λ x. f) (bblock sb c) (c % bpb))
        (update_ne d' (iblock sb ip'.inum) _ (bblock sb c) ne)

  itrunc_runs :
      (ip1 ip2 : Inode) (lh1 lh2 lh3 : List ℕ) (d1 d2 : Disk)
      → free_slots sb lh0 d ip 0 ndirect ≡ some (ip1, lh1, d1)
      → free_indirect sb lh1 d1 ip1 ≡ some (ip2, lh2, d2)
      → log_block lh2 (iblock sb ip.inum) ≡ some lh3
      → itrunc sb lh0 d ip ≡ some (emptied sb ip2, lh3, iupdate sb d2 (emptied sb ip2))
  unfolding itrunc
  itrunc_runs ip1 ip2 lh1 lh2 lh3 d1 d2 e f g = rw (e, itrunc) (rw f (rw g refl))

  -- On a disk of at most 2 ^ 31 - 8192 blocks whose boot block and bitmap are in use, for a file
  -- whose blocks are in range, in use, outside the bitmap and all different, and whose inode is not
  -- in the bitmap, where the header of the log has room for the blocks of the bitmap, one more and
  -- the inode's: `itrunc` does not panic, and neither does any `log_write` that it comes to. It
  -- frees the blocks of the file, the indirect block included, and no others, and leaves an inode
  -- of size 0 with no blocks, whose fields the dinode on the disk holds.
  pub itrunc-frees :
      ((c : ℕ) → bblock sb c ≢ iblock sb ip.inum)
      → (ip' : Inode) × (lh : List ℕ) × (d' : Disk) × (itrunc sb lh0 d ip ≡ some (ip', lh, d'))
        × (ip'.size ≡ 0)
        × ((j : ℕ) → j ≤ ndirect → ip'.addrs j ≡ 0)
        × IsOnDisk sb ip' d'
        × ((p : ℕ) → p ≤ positions → at d ip p ≢ 0 → used sb d' (at d ip p) ≡ false)
        × ((c : ℕ) → ((p : ℕ) → p ≤ positions → at d ip p ≢ c) → used sb d' c ≡ used sb d c)
  itrunc-frees far =
      let start : Cut sb owner d ip fs file lh0 room 0 ip = record {
        gone = λ j h. absurd (omega (arith, h));
        left = λ j h. refl;
        same_inum = refl;
      } in
      let (ip1, lh1, d1, e, c1, s1) =
        free_slots-Stage ndirect 0 ip lh0 d refl start
          (Stage-zero sb owner d ip fs file lh0 room) in
      let (ip2, lh2, d2, f, c2, s2) = free_indirect-Stage ip1 lh1 d1 c1 s1 in
      let g =
        log_block-takes lh2 (iblock sb ip.inum)
          (Stage-room sb owner d ip fs file lh0 room (positions + 1) lh2 d2 s2) in
      let keep : (c : ℕ) → used sb (iupdate sb d2 (emptied sb ip2)) c ≡ used sb d2 c =
        λ c. iupdate-used d2 (emptied sb ip2) c (λ z. far c (z ∙ ap (iblock sb) c2.same_inum)) in
      (
        emptied sb ip2,
        added lh2 (iblock sb ip.inum),
        iupdate sb d2 (emptied sb ip2),
        itrunc_runs ip1 ip2 lh1 lh2 (added lh2 (iblock sb ip.inum)) d1 d2 e f g,
        refl,
        λ j h. c2.gone j (omega (arith, h)),
        iupdate-IsOnDisk sb d2 (emptied sb ip2),
        λ p h nz. keep (at d ip p) ∙ s2.freed p (omega (arith, h)) nz,
        λ c h. keep c ∙ s2.rest c (λ q l. h q (omega (arith, l))),
      )
