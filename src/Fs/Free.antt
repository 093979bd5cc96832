-- ===== src/Fs/Free.antt =====
-- bfree gives one block back.
use eafitos.Base.{
  ℕ, List, length, ◌<◌, ◌%◌, ◌≡◌, ◌≢◌, ◌⊎◌, inl, inr, refl, ap, ◌∙◌, true, false, if◌then◌else◌,
  none, some, Bool-cases, ==_refl,
}
use eafitos.Fs.{Disk, SuperBlock, bpb, clear, bblock, bfree, added}
use eafitos.Fs.Logged.{log_block-takes}
use eafitos.Log.{log_blocks}
use eafitos.Fs.Bitmap.{IsBytes, clear-frame, clear-IsBytes, in_use-clear}
use eafitos.Fs.Used.{used, used-clear}

module _ (sb : SuperBlock) where
  -- The block b is given back.
  pub record Given (d d' : Disk) (b : ℕ) : Type 0 where
    pub now : used sb d' b ≡ false
    pub others : (c : ℕ) → c ≢ b → used sb d' c ≡ used sb d c
    pub frame : (c : ℕ) → c ≢ bblock sb b → d' c ≡ d c
    pub bytes : IsBytes d'

  -- With room in the log, `bfree` of a block that is not in use panics. Of a block in use it marks this block free and
  -- changes no other bit of the bitmap and no block but the one that holds the bit.
  pub bfree-Given :
      (lh : List ℕ) (d : Disk) (b : ℕ)
      → length lh < log_blocks
      → IsBytes d
      → ((used sb d b ≡ false) × (bfree sb lh d b ≡ none))
        ⊎ ((used sb d b ≡ true)
            × (d' : Disk) × (bfree sb lh d b ≡ some (added lh (bblock sb b), d'))
            × Given d d' b)
  unfolding bfree
  bfree-Given lh d b few bytes = elim (Bool-cases (used sb d b)) [
    | inr h ↦ inl (h, rw h refl)
    | inl h ↦ inr (
      h,
      clear d (bblock sb b) (b % bpb),
      rw h (rw (log_block-takes lh (bblock sb b) few) refl),
      record {
        now =
            in_use-clear d bytes (bblock sb b) (b % bpb) (b % bpb)
            ∙ ap (λ x. if x then false else used sb d b) (==_refl (b % bpb));
        others = λ c ne. used-clear sb d b c bytes ne;
        frame = λ c ne. clear-frame d bytes (bblock sb b) (b % bpb) c ne;
        bytes = clear-IsBytes d bytes (bblock sb b) (b % bpb);
      },
    )
  ]
