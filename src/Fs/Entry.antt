-- ===== src/Fs/Entry.antt =====
-- The entries of an indirect block as numbers.
use eafitos.Base.{
  ℕ, ◌+◌, ◌*◌, ◌/◌, ◌%◌, ◌^◌, ◌<◌, ◌≡◌, ◌≢◌, ◌∙◌, arith, update, update_self, update_ne,
  update_cases, inl, inr,
}
use eafitos.Fs.Inode.{entry, put_entry, get32, put32, put16}

module _ (blk : ℕ → ℕ) (i v : ℕ) where
  abbrev b0 : ℕ → ℕ
  b0 = update blk i (v % 2 ^ 8)

  abbrev b1 : ℕ → ℕ
  b1 = update b0 (i + 1) (v / 2 ^ 8 % 2 ^ 8)

  abbrev b2 : ℕ → ℕ
  b2 = update b1 (i + 2) (v / 2 ^ 16 % 2 ^ 8)

  pub put32_other : (k : ℕ) → k ≢ i → k ≢ i + 1 → k ≢ i + 2 → k ≢ i + 3 → put32 blk i v k ≡ blk k
  put32_other k n0 n1 n2 n3 =
      update_ne b2 (i + 3) (v / 2 ^ 24 % 2 ^ 8) k n3
      ∙ update_ne b1 (i + 2) (v / 2 ^ 16 % 2 ^ 8) k n2
      ∙ update_ne b0 (i + 1) (v / 2 ^ 8 % 2 ^ 8) k n1
      ∙ update_ne blk i (v % 2 ^ 8) k n0

  pub put32_0 : put32 blk i v i ≡ v % 2 ^ 8
  put32_0 =
      update_ne b2 (i + 3) (v / 2 ^ 24 % 2 ^ 8) i (omega arith)
      ∙ update_ne b1 (i + 2) (v / 2 ^ 16 % 2 ^ 8) i (omega arith)
      ∙ update_ne b0 (i + 1) (v / 2 ^ 8 % 2 ^ 8) i (omega arith)
      ∙ update_self blk i (v % 2 ^ 8)

  pub put32_1 : put32 blk i v (i + 1) ≡ v / 2 ^ 8 % 2 ^ 8
  put32_1 =
      update_ne b2 (i + 3) (v / 2 ^ 24 % 2 ^ 8) (i + 1) (omega arith)
      ∙ update_ne b1 (i + 2) (v / 2 ^ 16 % 2 ^ 8) (i + 1) (omega arith)
      ∙ update_self b0 (i + 1) (v / 2 ^ 8 % 2 ^ 8)

  pub put32_2 : put32 blk i v (i + 2) ≡ v / 2 ^ 16 % 2 ^ 8
  put32_2 =
      update_ne b2 (i + 3) (v / 2 ^ 24 % 2 ^ 8) (i + 2) (omega arith)
      ∙ update_self b1 (i + 2) (v / 2 ^ 16 % 2 ^ 8)

  pub put32_3 : put32 blk i v (i + 3) ≡ v / 2 ^ 24 % 2 ^ 8
  put32_3 = update_self b2 (i + 3) (v / 2 ^ 24 % 2 ^ 8)

  get32-put32 : v < 2 ^ 32 → get32 (put32 blk i v) i ≡ v
  get32-put32 h = omega (arith, put32_0, put32_1, put32_2, put32_3)

pub entry-put_entry : (blk : ℕ → ℕ) (j v : ℕ) → v < 2 ^ 32 → entry (put_entry blk j v) j ≡ v
unfolding entry put_entry
entry-put_entry blk j v h = get32-put32 blk (4 * j) v h

pub entry-put_other : (blk : ℕ → ℕ) (j v k : ℕ) → k ≢ j → entry (put_entry blk j v) k ≡ entry blk k
unfolding entry put_entry
entry-put_other blk j v k ne =
    let o = put32_other blk (4 * j) v in
    omega (
      arith,
      o (4 * k) (omega arith) (omega arith) (omega arith) (omega arith),
      o (4 * k + 1) (omega arith) (omega arith) (omega arith) (omega arith),
      o (4 * k + 2) (omega arith) (omega arith) (omega arith) (omega arith),
      o (4 * k + 3) (omega arith) (omega arith) (omega arith) (omega arith),
    )

pub entry_zero : (blk : ℕ → ℕ) (j : ℕ) → ((i : ℕ) → blk i ≡ 0) → entry blk j ≡ 0
unfolding entry
entry_zero blk j h = omega (arith, h (4 * j), h (4 * j + 1), h (4 * j + 2), h (4 * j + 3))

update_byte :
    (f : ℕ → ℕ) (i v : ℕ) → ((k : ℕ) → f k < 256) → v < 256 → (k : ℕ) → update f i v k < 256
update_byte f i v h lt k = elim (update_cases f i v k) [
  | inl (e, q) ↦ omega (arith, q, lt)
  | inr (ne, q) ↦ omega (arith, q, h k)
]

pub put16-byte : (blk : ℕ → ℕ) (i v : ℕ) → ((k : ℕ) → blk k < 256) → (k : ℕ) → put16 blk i v k < 256
put16-byte blk i v h =
    update_byte (update blk i (v % 2 ^ 8)) (i + 1) (v / 2 ^ 8 % 2 ^ 8)
      (update_byte blk i (v % 2 ^ 8) h (omega arith)) (omega arith)

pub put32-byte : (blk : ℕ → ℕ) (i v : ℕ) → ((k : ℕ) → blk k < 256) → (k : ℕ) → put32 blk i v k < 256
put32-byte blk i v h =
    update_byte (update (put16 blk i v) (i + 2) (v / 2 ^ 16 % 2 ^ 8)) (i + 3) (v / 2 ^ 24 % 2 ^ 8)
      (update_byte (put16 blk i v) (i + 2) (v / 2 ^ 16 % 2 ^ 8) (put16-byte blk i v h)
        (omega arith))
      (omega arith)

pub put_entry-byte :
    (blk : ℕ → ℕ) (j v : ℕ) → ((k : ℕ) → blk k < 256) → (k : ℕ) → put_entry blk j v k < 256
unfolding put_entry
put_entry-byte blk j v h = put32-byte blk (4 * j) v h
