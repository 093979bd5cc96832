-- ===== src/Bcache/Inv.antt =====
-- `bget` on every branch, and one buffer for a block.
use eafitos.Base.{
  ℕ, ◌+◌, ◌%◌, ◌^◌, ◌≡◌, ◌≢◌, inl, inr, refl, sym, ap, ◌∙◌, subst, true, false, ◌&&◌, Option, none,
  some, arith, update_cases, ◌==◌, Option-cases,
}
use eafitos.Bcache.{Buf, Bcache, put, holds, cached, unused, one_more, recycled, bget}
use eafitos.Bcache.Order.{In, Behind, cached_some, cached_none, unused_none, unused_some}

-- How `bget` ends: with the buffer that holds the block, or with the last unused one in the order of
-- use, where no buffer holds it, or in a panic.
pub data Got (s : Bcache) (dev blockno : ℕ) (r : Option (ℕ × Bcache)) : Type 0 where
  hit :
      (b : ℕ) (v : Buf)
      → r ≡ some (b, put s b v)
      → v ≡ record (s.buf b) { refcnt = ((s.buf b).refcnt + 1) % 2 ^ 32 }
      → In b s.order
      → holds (s.buf b) dev blockno ≡ true
      → Got s dev blockno r
  miss :
      (b : ℕ) (v : Buf)
      → r ≡ some (b, put s b v)
      → v ≡ record {
        valid = false;
        dev = dev;
        blockno = blockno;
        refcnt = 1;
        bytes = (s.buf b).bytes;
      }
      → ((c : ℕ) → In c s.order → holds (s.buf c) dev blockno ≡ false)
      → In b s.order
      → (s.buf b).refcnt ≡ 0
      → Behind s.buf b s.order
      → Got s dev blockno r
  no_buffers :
      r ≡ none
      → ((c : ℕ) → In c s.order → holds (s.buf c) dev blockno ≡ false)
      → ((c : ℕ) → In c s.order → (s.buf c).refcnt ≢ 0)
      → Got s dev blockno r

panics :
    (s : Bcache) (dev blockno : ℕ)
    → cached s.buf dev blockno s.order ≡ none
    → unused s.buf s.order ≡ none
    → bget s dev blockno ≡ none
unfolding bget
panics s dev blockno e f = rw (e, bget) (rw f refl)

-- `bget` returns the buffer of the list that holds the block, with one reference more; where there
-- is none, it gives the block to the unused buffer behind which all of the list are in use, with one
-- reference and not valid; and it panics only where every buffer is in use and none holds the block.
-- No other buffer changes.
pub bget-Got : (s : Bcache) (dev blockno : ℕ) → Got s dev blockno (bget s dev blockno)
unfolding bget
bget-Got s dev blockno = elim (Option-cases (cached s.buf dev blockno s.order)) [
  | inr (b, e) ↦
      let (i, h) = cached_some s.buf dev blockno s.order b e in
      hit b (one_more (s.buf b)) (rw (e, bget) refl) refl i h
  | inl e ↦
      let absent = cached_none s.buf dev blockno s.order e in
      elim (Option-cases (unused s.buf s.order)) [
        | inr (b, f) ↦
            let (i, z, k) = unused_some s.buf s.order b f in
            miss b (recycled (s.buf b) dev blockno) (rw (e, bget) (rw f refl)) refl absent i z k
        | inl f ↦ no_buffers (panics s dev blockno e f) absent (unused_none s.buf s.order f)
      ]
]

-- At most one buffer of the list holds a block. Device 0 is none.
abbrev pub IsUnique : Bcache → Type 0
IsUnique s =
    (i j dev blockno : ℕ)
    → In i s.order
    → In j s.order
    → dev ≢ 0
    → holds (s.buf i) dev blockno ≡ true
    → holds (s.buf j) dev blockno ≡ true
    → i ≡ j

same_block :
    (s : Bcache) (b : ℕ) (v : Buf)
    → v.dev ≡ (s.buf b).dev
    → v.blockno ≡ (s.buf b).blockno
    → (i dev blockno : ℕ) → holds ((put s b v).buf i) dev blockno ≡ holds (s.buf i) dev blockno
same_block s b v d n i dev blockno = elim (update_cases s.buf b v i) [
  | inr (ne, e) ↦ ap (λ x. holds x dev blockno) e
  | inl (q, e) ↦
      ap (λ x. holds x dev blockno) e
      ∙ ap (λ x. x == dev && v.blockno == blockno) d
      ∙ ap (λ x. (s.buf b).dev == dev && x == blockno) n
      ∙ ap (λ x. holds (s.buf x) dev blockno) (sym q)
]

-- A buffer that keeps its block.
pub put-IsUnique :
    (s : Bcache) (b : ℕ) (v : Buf)
    → v.dev ≡ (s.buf b).dev
    → v.blockno ≡ (s.buf b).blockno
    → IsUnique s
    → IsUnique (put s b v)
put-IsUnique s b v d n u i j dev blockno p q nz h k =
    u i j dev blockno p q nz (sym (same_block s b v d n i dev blockno) ∙ h)
      (sym (same_block s b v d n j dev blockno) ∙ k)

holds_block :
    (v : Buf) (d n dev blockno : ℕ)
    → holds v d n ≡ true
    → holds v dev blockno ≡ true
    → (dev ≡ d) × (blockno ≡ n)
holds_block v d n dev blockno h k = (ground (arith, h, k), ground (arith, h, k))

-- A buffer that gets a block which none of the list holds.
pub recycle-IsUnique :
    (s : Bcache) (b d n : ℕ)
    → ((c : ℕ) → In c s.order → holds (s.buf c) d n ≡ false)
    → IsUnique s
    → IsUnique (put s b (recycled (s.buf b) d n))
recycle-IsUnique s b d n absent u i j dev blockno p q nz h k =
    elim (update_cases s.buf b (recycled (s.buf b) d n) i) [
      | inl (e, f) ↦ elim (update_cases s.buf b (recycled (s.buf b) d n) j) [
        | inl (e', f') ↦ e ∙ sym e'
        | inr (ne', f') ↦ absurd (
            clash j q (ap (λ x. holds x dev blockno) (sym f) ∙ h)
              (ap (λ x. holds x dev blockno) (sym f') ∙ k))
      ]
      | inr (ne, f) ↦ elim (update_cases s.buf b (recycled (s.buf b) d n) j) [
        | inl (e', f') ↦ absurd (
            clash i p (ap (λ x. holds x dev blockno) (sym f') ∙ k)
              (ap (λ x. holds x dev blockno) (sym f) ∙ h))
        | inr (ne', f') ↦
            u i j dev blockno p q nz (ap (λ x. holds x dev blockno) (sym f) ∙ h)
              (ap (λ x. holds x dev blockno) (sym f') ∙ k)
      ]
    ]
  where
    clash :
        (c : ℕ)
        → In c s.order
        → holds (recycled (s.buf b) d n) dev blockno ≡ true
        → holds (s.buf c) dev blockno ≡ true
        → ⊥
    clash c l x y =
        let dd : d ≡ dev = ground (arith, x) in
        let nn : n ≡ blockno = ground (arith, x) in
        let z = absent c l in
        let z' =
          subst (λ g. holds (s.buf c) g blockno ≡ false) dd
            (subst (λ g. holds (s.buf c) d g ≡ false) nn z) in
        let w = sym y ∙ z' in cc
