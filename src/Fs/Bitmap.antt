-- ===== src/Fs/Bitmap.antt =====
-- The bitmap of blocks as a set of blocks in use.
use eafitos.Base.{
  ℕ, ◌/◌, ◌%◌, ◌<◌, ◌≡◌, ◌≢◌, inl, inr, sym, ap, ◌∙◌, subst, Bool, true, false, not, ◌==◌, arith,
  if◌then◌else◌, ℕ_discrete, update, update_self, update_ne, update_cases, ==_refl, ==_of_ne,
}
use eafitos.Fs.{Disk, in_use, mark, clear}
use eafitos.Fs.Bits.{clear_bit, or_byte, or_bit, and_byte, and_bit}

abbrev pub IsBytes : Disk → Type 0
IsBytes d = (b i : ℕ) → d b i < 256

-- The two ways to write a byte of the bitmap.
module _ (d : Disk) (bytes : IsBytes d) (bm bi : ℕ) where
  update-IsBytes :
      (d' : Disk) (b i v : ℕ) → IsBytes d' → v < 256 → IsBytes (update d' b (update (d' b) i v))
  update-IsBytes d' b i v h lt c j = elim (update_cases d' b (update (d' b) i v) c) [
    | inr (ne, e) ↦ subst (λ f. f j < 256) (sym e) (h c j)
    | inl (q, e) ↦
        subst (λ f. f j < 256) (sym e)
          (elim (update_cases (d' b) i v j) [
            | inr (ne, f) ↦ subst (λ x. x < 256) (sym f) (h b j)
            | inl (r, f) ↦ subst (λ x. x < 256) (sym f) lt
          ])
  ]

  pub mark-IsBytes : IsBytes (mark d bm bi)
  unfolding mark
  mark-IsBytes =
      update-IsBytes d bm (bi / 8) _ bytes
        (or_byte (d bm (bi / 8)) (bi % 8) (bytes bm (bi / 8)) (omega arith))

  pub clear-IsBytes : IsBytes (clear d bm bi)
  unfolding clear
  clear-IsBytes =
      update-IsBytes d bm (bi / 8) _ bytes
        (and_byte (d bm (bi / 8)) (bi % 8) (bytes bm (bi / 8)) (omega arith))

  pub clear-frame : (c : ℕ) → c ≢ bm → clear d bm bi c ≡ d c
  unfolding clear
  clear-frame c ne = update_ne d bm (update (d bm) (bi / 8) _) c ne

  -- One byte of the block bm is v.
  abbrev put_byte : ℕ → Disk
  put_byte v = update d bm (update (d bm) (bi / 8) v)

  in_use_same_byte :
      (v bj : ℕ) → bj / 8 ≡ bi / 8 → in_use (put_byte v) bm bj ≡ not (clear_bit v (bj % 8))
  unfolding in_use
  in_use_same_byte v bj e =
      ap (λ f. not (clear_bit (f (bj / 8)) (bj % 8))) (update_self d bm (update (d bm) (bi / 8) v))
      ∙ ap (λ x. not (clear_bit (update (d bm) (bi / 8) v x) (bj % 8))) e
      ∙ ap (λ x. not (clear_bit x (bj % 8))) (update_self (d bm) (bi / 8) v)

  in_use_other_byte : (v bj : ℕ) → bj / 8 ≢ bi / 8 → in_use (put_byte v) bm bj ≡ in_use d bm bj
  unfolding in_use
  in_use_other_byte v bj ne =
      ap (λ f. not (clear_bit (f (bj / 8)) (bj % 8))) (update_self d bm (update (d bm) (bi / 8) v))
      ∙ ap (λ x. not (clear_bit x (bj % 8))) (update_ne (d bm) (bi / 8) v (bj / 8) ne)

  -- A change of the bit bi alone.
  in_use_bit :
      (v : ℕ) (set : Bool)
      → ((j : ℕ)
          → j < 8
          → clear_bit v j ≡ (if bi % 8 == j then set else clear_bit (d bm (bi / 8)) j))
      → (bj : ℕ) → in_use (put_byte v) bm bj ≡ (if bi == bj then not set else in_use d bm bj)
  unfolding in_use
  in_use_bit v set h bj = elim (ℕ_discrete (bj / 8) (bi / 8)) [
    | no ne ↦
        in_use_other_byte v bj ne
        ∙ ap (λ c. if c then not set else in_use d bm bj)
            (sym (==_of_ne bi bj (λ e. ne (omega arith))))
    | yes e ↦
        in_use_same_byte v bj e ∙ ap not (h (bj % 8) (omega arith)) ∙ elim (ℕ_discrete bi bj) [
          | yes q ↦
              ap (λ c. not (if c then set else clear_bit (d bm (bi / 8)) (bj % 8)))
                (ap (λ x. bi % 8 == x % 8) (sym q) ∙ ==_refl (bi % 8))
              ∙ ap (λ c. if c then not set else in_use d bm bj)
                  (sym (ap (λ x. bi == x) (sym q) ∙ ==_refl bi))
          | no n ↦
              ap (λ c. not (if c then set else clear_bit (d bm (bi / 8)) (bj % 8)))
                (==_of_ne (bi % 8) (bj % 8) (λ q. n (omega arith)))
              ∙ ap (λ x. not (clear_bit (d bm x) (bj % 8))) (sym e)
              ∙ ap (λ c. if c then not set else in_use d bm bj) (sym (==_of_ne bi bj n))
        ]
  ]

  pub in_use-mark :
      (bj : ℕ) → in_use (mark d bm bi) bm bj ≡ (if bi == bj then true else in_use d bm bj)
  unfolding mark
  in_use-mark =
      in_use_bit _ false (or_bit (d bm (bi / 8)) (bi % 8) (bytes bm (bi / 8)) (omega arith))

  pub in_use-clear :
      (bj : ℕ) → in_use (clear d bm bi) bm bj ≡ (if bi == bj then false else in_use d bm bj)
  unfolding clear
  in_use-clear =
      in_use_bit _ true (and_bit (d bm (bi / 8)) (bi % 8) (bytes bm (bi / 8)) (omega arith))
