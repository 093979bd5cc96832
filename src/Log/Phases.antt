-- ===== src/Log/Phases.antt =====
-- The writes that the loops of `write_log` and `install_trans` make.
use eafitos.Base.{
  ℕ, zero, suc, ◌+◌, ◌≤◌, ◌<◌, ◌≡◌, refl, ap, ◌∙◌, ◌⊎◌, inl, inr, Bool, List, [], ◌∷◌, arith,
  update, update_self, update_ne, subst, length, ℕ_discrete,
}
use eafitos.Log.{
  Disk, Write, Log, LogHeader, log_blocks, install_one, install_from, log_one, log_from,
}
use eafitos.Log.Writes.{
  apply, apply-Avoids, Avoids, Touches, Carries, Issues, Issues-refl, Issues-trans, Issues-log_one,
  Issues-install_one,
}

-- A block outside of the log area.
abbrev pub IsHome : ℕ → ℕ → Type 0
IsHome st b = (b < st) ⊎ (st + log_blocks < b)

module _ (st : ℕ) (blk : ℕ → ℕ) (c : Disk) where
  -- Blocks i, i + 1, … of the transaction go to their log blocks.
  abbrev pub copies : ℕ → ℕ → List Write
  copies i zero = []
  copies i (suc k) = (st + i + 1, c (blk i)) ∷ copies (i + 1) k

  -- They go to their home blocks.
  abbrev pub installs : ℕ → ℕ → List Write
  installs i zero = []
  installs i (suc k) = (blk i, c (blk i)) ∷ installs (i + 1) k

  pub length-copies : (i k : ℕ) → length (copies i k) ≡ k
  length-copies i zero = refl
  length-copies i (suc k) = ap suc (length-copies (i + 1) k)

  pub length-installs : (i k : ℕ) → length (installs i k) ≡ k
  length-installs i zero = refl
  length-installs i (suc k) = ap suc (length-installs (i + 1) k)

  pub installs-Carries : (i k : ℕ) → Carries c (installs i k)
  installs-Carries i zero = tt
  installs-Carries i (suc k) = (refl, installs-Carries (i + 1) k)

  pub copies-Avoids : (i k b : ℕ) → (b < st + i + 1) ⊎ (st + i + k < b) → Avoids b (copies i k)
  copies-Avoids i zero b h = tt
  copies-Avoids i (suc k) b h = (omega arith, copies-Avoids (i + 1) k b (omega arith))

  -- The log block of index j ends with the block that the transaction has there.
  pub apply-copies :
      (d : Disk) (i k j : ℕ) → i ≤ j → j < i + k → apply d (copies i k) (st + j + 1) ≡ c (blk j)
  apply-copies d i zero j p q = absurd (omega arith)
  apply-copies d i (suc k) j p q = elim (ℕ_discrete i j) [
    | yes e ↦
        apply-Avoids (update d (st + i + 1) (c (blk i))) (copies (i + 1) k) (st + j + 1)
          (copies-Avoids (i + 1) k (st + j + 1) (inl (omega arith)))
        ∙ subst (λ m. update d (st + i + 1) (c (blk i)) (st + m + 1) ≡ c (blk m)) e
            (update_self d (st + i + 1) (c (blk i)))
    | no ne ↦
        apply-copies (update d (st + i + 1) (c (blk i))) (i + 1) k j (omega arith) (omega arith)
  ]

  pub installs-Touches : (i k j : ℕ) → i ≤ j → j < i + k → Touches (blk j) (installs i k)
  installs-Touches i zero j p q = absurd (omega arith)
  installs-Touches i (suc k) j p q = elim (ℕ_discrete j i) [
    | yes e ↦ inl (ap blk e)
    | no ne ↦ inr (installs-Touches (i + 1) k j (omega arith) (omega arith))
  ]

  -- `write_log`, where the cache holds `c` at the home blocks.
  pub Issues-log_from :
      (n : ℕ)
      → n ≤ log_blocks
      → ((j : ℕ) → j < n → IsHome st (blk j))
      → (s : Log) (i k : ℕ) → i + k ≡ n
      → s.start ≡ st
      → s.lh.block ≡ blk
      → ((j : ℕ) → j < n → s.cache (blk j) ≡ c (blk j))
      → Issues s (log_from s i k) (copies i k)
  unfolding log_from
  Issues-log_from n hn homes s i zero e es eb ec = Issues-refl s
  Issues-log_from n hn homes s i (suc k) e es eb ec = Issues-trans first (
      Issues-log_from n hn homes (log_one s i) (i + 1) k (omega arith) (first.start ∙ es)
        (ap (λ (h : LogHeader). h.block) first.lh ∙ eb) kept)
    where
      value : s.cache (s.lh.block i) ≡ c (blk i)
      value = ap (λ f. s.cache (f i)) eb ∙ ec i (omega arith)

      first : Issues s (log_one s i) ((st + i + 1, c (blk i)) ∷ [])
      first =
          subst (λ w. Issues s (log_one s i) (w ∷ [])) (λ t. (es t + i + 1, value t))
            (Issues-log_one s i)

      kept : (j : ℕ) → j < n → (log_one s i).cache (blk j) ≡ c (blk j)
      kept j hj =
          ap (λ d. d (blk j)) first.cache
          ∙ update_ne s.cache (st + i + 1) (c (blk i)) (blk j) (omega (arith, homes j hj))
          ∙ ec j hj

  -- `install_trans`, where the log blocks hold what `c` has at the home blocks.
  pub Issues-install_from :
      (n : ℕ)
      → n ≤ log_blocks
      → ((j : ℕ) → j < n → IsHome st (blk j))
      → (r : Bool) (s : Log) (i k : ℕ) → i + k ≡ n
      → s.start ≡ st
      → s.lh.block ≡ blk
      → ((j : ℕ) → j < n → s.cache (st + j + 1) ≡ c (blk j))
      → Issues s (install_from r s i k) (installs i k)
  unfolding install_from
  Issues-install_from n hn homes r s i zero e es eb ec = Issues-refl s
  Issues-install_from n hn homes r s i (suc k) e es eb ec = Issues-trans first (
      Issues-install_from n hn homes r (install_one r s i) (i + 1) k (omega arith)
        (first.start ∙ es) (ap (λ (h : LogHeader). h.block) first.lh ∙ eb) kept)
    where
      value : s.cache (s.start + i + 1) ≡ c (blk i)
      value = ap (λ m. s.cache (m + i + 1)) es ∙ ec i (omega arith)

      first : Issues s (install_one r s i) ((blk i, c (blk i)) ∷ [])
      first =
          subst (λ w. Issues s (install_one r s i) (w ∷ [])) (λ t. (eb t i, value t))
            (Issues-install_one r s i)

      kept : (j : ℕ) → j < n → (install_one r s i).cache (st + j + 1) ≡ c (blk j)
      kept j hj =
          ap (λ d. d (st + j + 1)) first.cache
          ∙ update_ne s.cache (blk i) (c (blk i)) (st + j + 1)
              (omega (arith, homes i (omega arith)))
          ∙ ec j hj
