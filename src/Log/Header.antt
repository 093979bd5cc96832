-- ===== src/Log/Header.antt =====
-- What `write_head` puts into the header block, `read_head` takes out again.
use eafitos.Base.{
  ℕ, zero, suc, ◌+◌, ◌≤◌, ◌<◌, ◌≡◌, ◌∙◌, subst, arith, update, update_self, update_ne, ℕ_discrete,
  refl, ap,
}
use eafitos.Log.{Block, Log, LogHeader, head_block, read_head, read_entries, write_entries}

write_entries-before :
    (block : ℕ → ℕ) (hb : Block) (i k j : ℕ) → j ≤ i → write_entries block hb i k j ≡ hb j
unfolding write_entries
write_entries-before block hb i zero j h = refl
write_entries-before block hb i (suc k) j h =
    write_entries-before block (update hb (i + 1) (block i)) (i + 1) k j (omega arith)
    ∙ update_ne hb (i + 1) (block i) j (omega arith)

write_entries-at :
    (block : ℕ → ℕ) (hb : Block) (i k j : ℕ)
    → i ≤ j
    → j < i + k
    → write_entries block hb i k (j + 1) ≡ block j
unfolding write_entries
write_entries-at block hb i zero j p q = absurd (omega arith)
write_entries-at block hb i (suc k) j p q = elim (ℕ_discrete i j) [
  | yes e ↦
      write_entries-before block (update hb (i + 1) (block i)) (i + 1) k (j + 1) (omega arith)
      ∙ subst (λ m. update hb (i + 1) (block i) (m + 1) ≡ block m) e
          (update_self hb (i + 1) (block i))
  | no ne ↦
      write_entries-at block (update hb (i + 1) (block i)) (i + 1) k j (omega arith) (omega arith)
]

read_entries-before :
    (hb : Block) (block : ℕ → ℕ) (i k j : ℕ) → j < i → read_entries hb block i k j ≡ block j
unfolding read_entries
read_entries-before hb block i zero j h = refl
read_entries-before hb block i (suc k) j h =
    read_entries-before hb (update block i (hb (i + 1))) (i + 1) k j (omega arith)
    ∙ update_ne block i (hb (i + 1)) j (omega arith)

pub read_entries-at :
    (hb : Block) (block : ℕ → ℕ) (i k j : ℕ)
    → i ≤ j
    → j < i + k
    → read_entries hb block i k j ≡ hb (j + 1)
unfolding read_entries
read_entries-at hb block i zero j p q = absurd (omega arith)
read_entries-at hb block i (suc k) j p q = elim (ℕ_discrete i j) [
  | yes e ↦
      read_entries-before hb (update block i (hb (i + 1))) (i + 1) k j (omega arith)
      ∙ subst (λ m. update block i (hb (i + 1)) m ≡ hb (m + 1)) e (update_self block i (hb (i + 1)))
  | no ne ↦ read_entries-at hb (update block i (hb (i + 1))) (i + 1) k j (omega arith) (omega arith)
]

pub head_block-count : (lh : LogHeader) (hb : Block) → head_block lh hb 0 ≡ lh.n
unfolding head_block
head_block-count lh hb =
    write_entries-before lh.block (update hb 0 lh.n) 0 lh.n 0 (omega arith) ∙ update_self hb 0 lh.n

pub head_block-at :
    (lh : LogHeader) (hb : Block) (j : ℕ) → j < lh.n → head_block lh hb (j + 1) ≡ lh.block j
unfolding head_block
head_block-at lh hb j h =
    write_entries-at lh.block (update hb 0 lh.n) 0 lh.n j (omega arith) (omega arith)

-- A header that `write_head` wrote is read back by `read_head`: the count, and every entry below it.
pub read_head-head_block :
    (s : Log) (lh : LogHeader) (hb : Block)
    → s.cache s.start ≡ head_block lh hb
    → ((read_head s).lh.n ≡ lh.n) × ((j : ℕ) → j < lh.n → (read_head s).lh.block j ≡ lh.block j)
unfolding read_head
read_head-head_block s lh hb e = (
  count,
  λ j h.
      read_entries-at (s.cache s.start) s.lh.block 0 (s.cache s.start 0) j (omega arith)
        (omega (arith, count))
      ∙ ap (λ (b : Block). b (j + 1)) e
      ∙ head_block-at lh hb j h,
)
  where
    count : s.cache s.start 0 ≡ lh.n
    count = ap (λ (b : Block). b 0) e ∙ head_block-count lh hb
