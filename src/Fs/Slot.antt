-- ===== src/Fs/Slot.antt =====
-- A new block at a direct position, or as the indirect block.
use eafitos.Base.{
  ℕ, ◌+◌, ◌<◌, ◌≤◌, ◌≡◌, ◌≢◌, inl, inr, refl, sym, ap, ◌∙◌, subst, true, false, ◌==◌, arith,
  ℕ_discrete, update, update_self, update_ne, Bool-cases,
}
use eafitos.Fs.{Disk, SuperBlock}
use eafitos.Fs.Used.{used, IsFs}
use eafitos.Fs.Alloc.{Taken, balloc-Taken}
use eafitos.Fs.Inode.{Inode, ndirect, entry, with_addr, fill_slot}
use eafitos.Fs.Entry.{entry_zero}
use eafitos.Fs.File.{
  positions, at, IsFile, grow-IsFile, at_direct, at_last, at_none, at-entry, Place, direct,
  indirect, last, place,
}

-- What a new block r at the slot i, which was empty, leaves at other positions.
module _ (d d' : Disk) (ip : Inode) (i r : ℕ) (nz : r ≢ 0)
    (keep : ip.addrs ndirect ≢ 0 → d' (ip.addrs ndirect) ≡ d (ip.addrs ndirect))
    (was : ip.addrs i ≡ 0) (zeros : (j : ℕ) → d' r j ≡ 0) where
  abbrev ip' : Inode
  ip' = with_addr ip i r

  direct_same : i < ndirect → (q : ℕ) → q ≢ i → Place q → at d' ip' q ≡ at d ip q
  direct_same lt q ne (direct _ h) =
      at_direct d' ip' q h ∙ update_ne ip.addrs i r q ne ∙ sym (at_direct d ip q h)
  direct_same lt q ne (indirect j h) =
      let same = update_ne ip.addrs i r ndirect (omega arith) in
      elim (ℕ_discrete (ip.addrs ndirect) 0) [
        | yes z ↦ at_none d' ip' j h (same ∙ z) ∙ sym (at_none d ip j h z)
        | no z ↦
            at-entry d' ip' j h (λ e. z (sym same ∙ e))
            ∙ ap (λ x. entry (d' x) j) same
            ∙ ap (λ x. entry x j) (keep z)
            ∙ sym (at-entry d ip j h z)
      ]
  direct_same lt q ne last =
      at_last d' ip' ∙ update_ne ip.addrs i r ndirect (omega arith) ∙ sym (at_last d ip)

  last_same : i ≡ ndirect → (q : ℕ) → q ≢ positions → Place q → at d' ip' q ≡ at d ip q
  last_same e q ne (direct _ h) =
      at_direct d' ip' q h ∙ update_ne ip.addrs i r q (omega arith) ∙ sym (at_direct d ip q h)
  last_same e q ne (indirect j h) =
      let here : ip'.addrs ndirect ≡ r =
        ap (update ip.addrs i r) (sym e) ∙ update_self ip.addrs i r in
      at-entry d' ip' j h (λ z. nz (sym here ∙ z))
      ∙ ap (λ x. entry (d' x) j) here
      ∙ entry_zero (d' r) j zeros
      ∙ sym (at_none d ip j h (ap ip.addrs (sym e) ∙ was))
  last_same e q ne last = absurd (ne refl)

-- The slot i stands at the position p.
pub data SlotAt : ℕ → ℕ → Type 0 where
  direct_slot : (i : ℕ) → i < ndirect → SlotAt i i
  last_slot : SlotAt ndirect positions

pub at_slot : (d : Disk) (ip : Inode) (i p : ℕ) → SlotAt i p → at d ip p ≡ ip.addrs i
at_slot d ip i p (direct_slot _ h) = at_direct d ip i h
at_slot d ip i p last_slot = at_last d ip

slot_le : (i p : ℕ) → SlotAt i p → p ≤ positions
slot_le i p (direct_slot _ h) = omega arith
slot_le i p last_slot = omega arith

slot_same :
    (d d' : Disk) (ip : Inode) (i r p : ℕ)
    → r ≢ 0
    → (ip.addrs ndirect ≢ 0 → d' (ip.addrs ndirect) ≡ d (ip.addrs ndirect))
    → ip.addrs i ≡ 0
    → ((j : ℕ) → d' r j ≡ 0)
    → SlotAt i p
    → (q : ℕ) → q ≤ positions
    → q ≢ p
    → at d' (with_addr ip i r) q ≡ at d ip q
slot_same d d' ip i r p nz keep was zeros (direct_slot _ h) q le ne =
    direct_same d d' ip i r nz keep was zeros h q ne (place q le)
slot_same d d' ip i r p nz keep was zeros last_slot q le ne =
    last_same d d' ip i r nz keep was zeros refl q ne (place q le)

module _ (sb : SuperBlock) where
  -- The block b is at the position p now, and the positions below n read as before, but for p.
  pub record Mapped (owner : ℕ → ℕ) (d : Disk) (ip : Inode) (p n b : ℕ) (ip' : Inode) (d' : Disk)
      : Type 0 where
    pub owner' : ℕ → ℕ
    pub fs : IsFs sb d'
    pub file : IsFile sb owner' d' ip'
    pub here : at d' ip' p ≡ b
    pub same_inum : ip'.inum ≡ ip.inum
    pub same_size : ip'.size ≡ ip.size
    pub others : (q : ℕ) → q < n → q ≢ p → at d' ip' q ≡ at d ip q
    pub old : at d ip p ≢ 0 → b ≡ at d ip p
    pub fresh : at d ip p ≡ 0 → b ≢ 0 → (used sb d b ≡ false) × ((i : ℕ) → d' b i ≡ 0)
    pub full : b ≡ 0 → (c : ℕ) → c < sb.size → used sb d' c ≡ true
    pub keeps_owner : (c : ℕ) → c < sb.size → used sb d c ≡ true → owner' c ≡ owner c
    pub grows : (c : ℕ) → c < sb.size → used sb d c ≡ true → used sb d' c ≡ true
    pub contents : (q : ℕ) → q < n → at d ip q ≢ 0 → d' (at d ip q) ≡ d (at d ip q)

  pub Taken-grows :
      (d d' : Disk) (r : ℕ)
      → Taken sb d d' r
      → (c : ℕ) → c < sb.size
      → used sb d c ≡ true
      → used sb d' c ≡ true
  Taken-grows d d' r t c h u = elim (ℕ_discrete c r) [
    | yes e ↦ ap (used sb d') e ∙ t.now
    | no ne ↦ t.others c h ne ∙ u
  ]

  module _ (owner : ℕ → ℕ) (d : Disk) (ip : Inode) (fs : IsFs sb d)
      (file : IsFile sb owner d ip) where
    -- Blocks of the file are not what `balloc` changes.
    pub frame-file :
        (d' : Disk) (r q : ℕ)
        → Taken sb d d' r
        → q ≤ positions
        → at d ip q ≢ 0
        → d' (at d ip q) ≡ d (at d ip q)
    frame-file d' r q t le nz =
        let b = file q le nz in
        t.frame (at d ip q) (λ z. (let a = sym b.taken ∙ ap (used sb d) z ∙ t.was in cc))
          (b.apart r t.below)

    module _ (i p : ℕ) (slot : SlotAt i p) where
      slot_new :
          (d' : Disk) (r : ℕ)
          → ip.addrs i ≡ 0
          → Taken sb d d' r
          → Mapped owner d ip p (positions + 1) r (with_addr ip i r) d'
      slot_new d' r was t =
          let here = at_slot d' (with_addr ip i r) i p slot ∙ update_self ip.addrs i r in
          let keep : ip.addrs ndirect ≢ 0 → d' (ip.addrs ndirect) ≡ d (ip.addrs ndirect) = λ z.
            subst (λ x. d' x ≡ d x) (at_last d ip)
              (frame-file d' r positions t (omega arith) (λ e. z (sym (at_last d ip) ∙ e))) in
          let same : (q : ℕ) → q ≤ positions → q ≢ p → at d' (with_addr ip i r) q ≡ at d ip q =
            slot_same d d' ip i r p t.nonzero keep was t.zeroed slot in
          record {
            owner' = update owner r p;
            fs = t.fs;
            file =
                grow-IsFile sb owner d d' ip (with_addr ip i r) p r fs t.below t.was t.now t.others
                  here same file;
            here = here;
            same_inum = refl;
            same_size = refl;
            others = λ q h ne. same q (omega (arith, h)) ne;
            old = λ nz. absurd (nz (at_slot d ip i p slot ∙ was));
            fresh = λ z nz. (t.was, t.zeroed);
            full = λ z. absurd (t.nonzero z);
            keeps_owner = λ c h u.
                update_ne owner r p c (λ e. (let a = sym u ∙ ap (used sb d) e ∙ t.was in cc));
            grows = Taken-grows d d' r t;
            contents = λ q h nz. frame-file d' r q t (omega (arith, h)) nz;
          }

      -- Nothing changes.
      slot_old :
          (b : ℕ)
          → at d ip p ≡ b
          → (b ≡ 0 → (c : ℕ) → c < sb.size → used sb d c ≡ true)
          → Mapped owner d ip p (positions + 1) b ip d
      slot_old b e full = record {
        owner' = owner;
        fs = fs;
        file = file;
        here = e;
        same_inum = refl;
        same_size = refl;
        others = λ q h ne. refl;
        old = λ nz. sym e;
        fresh = λ z nz. absurd (nz (sym e ∙ z));
        full = full;
        keeps_owner = λ c h u. refl;
        grows = λ c h u. u;
        contents = λ q h nz. refl;
      }

      pub fill_slot-Mapped :
          (b : ℕ) × (ip' : Inode) × (d' : Disk) × (fill_slot sb d ip i ≡ (b, ip', d'))
          × Mapped owner d ip p (positions + 1) b ip' d'
      unfolding fill_slot
      fill_slot-Mapped = elim (Bool-cases (ip.addrs i == 0)) [
        | inr h ↦
            let nz : ip.addrs i ≢ 0 = ground (arith, h) in
            (
              ip.addrs i,
              ip,
              d,
              rw h refl,
              slot_old (ip.addrs i) (at_slot d ip i p slot) (λ z. absurd (nz z)),
            )
        | inl h ↦
            let was : ip.addrs i ≡ 0 = ground (arith, h) in
            elim (balloc-Taken sb d fs) [
              | inl (all, e) ↦
                  (0, ip, d, rw (h, e) refl, slot_old 0 (at_slot d ip i p slot ∙ was) (λ z. all))
              | inr (r, d', e, t) ↦
                  let z : (r == 0) ≡ false = ground (arith, t.nonzero) in
                  (r, with_addr ip i r, d', rw (h, e) (rw z refl), slot_new d' r was t)
            ]
      ]
