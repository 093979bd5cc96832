-- ===== src/Fs/Logged.antt =====
-- The header of the log as a list of blocks: how many it can hold of a range.
use eafitos.Base.{
  ℕ, zero, suc, ◌+◌, ◌<◌, ◌≤◌, ◌≡◌, inl, inr, refl, subst, true, false, ◌==◌, leb, arith,
  if◌then◌else◌, ℕ_discrete, Bool-cases, ==_refl, some, List, [], ◌∷◌, length,
}
use eafitos.Log.{log_blocks}
use eafitos.Fs.{logged, added, log_block, log_all}

-- How many of the m blocks from lo on are in the header.
pub hits : ℕ → List ℕ → ℕ → ℕ
hits lo lh zero = 0
hits lo lh (suc m) = hits lo lh m + (if logged (m + lo) lh then 1 else 0)

pub hits-le : (lo : ℕ) (lh : List ℕ) (m : ℕ) → hits lo lh m ≤ m
unfolding hits
hits-le lo lh zero = omega arith
hits-le lo lh (suc m) = ground (arith, hits-le lo lh m)

logged-more : (b c : ℕ) (lh : List ℕ) → logged c lh ≡ true → logged c (b ∷ lh) ≡ true
unfolding logged
logged-more b c lh h = elim (Bool-cases (b == c)) [ inl e ↦ rw e refl | inr e ↦ rw e h ]

logged_new : (b : ℕ) (lh : List ℕ) → logged b (b ∷ lh) ≡ true
unfolding logged
logged_new b lh = rw (==_refl b) refl

hits-more : (lo b : ℕ) (lh : List ℕ) (m : ℕ) → hits lo lh m ≤ hits lo (b ∷ lh) m
unfolding hits
hits-more lo b lh zero = omega arith
hits-more lo b lh (suc m) = elim (Bool-cases (logged (m + lo) lh)) [
  | inl h ↦ rw (h, hits) (rw (logged-more b (m + lo) lh h) (omega (arith, hits-more lo b lh m)))
  | inr h ↦ rw (h, hits) (ground (arith, hits-more lo b lh m))
]

-- A new block of the range is one hit more.
hits-new :
    (lo i : ℕ) (lh : List ℕ) (m : ℕ)
    → i < m
    → logged (i + lo) lh ≡ false
    → hits lo lh m + 1 ≤ hits lo ((i + lo) ∷ lh) m
unfolding hits
hits-new lo i lh zero lt h = absurd (omega (arith, lt))
hits-new lo i lh (suc m) lt h = elim (ℕ_discrete i m) [
  | yes e ↦
      let a : logged (m + lo) lh ≡ false = subst (λ x. logged (x + lo) lh ≡ false) e h in
      let b : logged (m + lo) ((i + lo) ∷ lh) ≡ true =
        subst (λ x. logged (x + lo) ((i + lo) ∷ lh) ≡ true) e (logged_new (i + lo) lh) in
      rw (a, hits) (rw b (omega (arith, hits-more lo (i + lo) lh m)))
  | no ne ↦
      let r = hits-new lo i lh m (omega (arith, lt, ne)) h in
      elim (Bool-cases (logged (m + lo) lh)) [
        | inl k ↦ rw (k, hits) (rw (logged-more (i + lo) (m + lo) lh k) (omega (arith, r)))
        | inr k ↦ rw (k, hits) (ground (arith, r))
      ]
]

-- A header that holds at most n0 blocks outside the m blocks from lo on.
abbrev pub Few : ℕ → ℕ → ℕ → List ℕ → Type 0
Few n0 lo m lh = length lh ≤ n0 + hits lo lh m

pub added-Few :
    (n0 lo m i : ℕ) (lh : List ℕ) → i < m → Few n0 lo m lh → Few n0 lo m (added lh (i + lo))
added-Few n0 lo m i lh lt f = elim (Bool-cases (logged (i + lo) lh)) [
  | inl h ↦ rw h f
  | inr h ↦ rw h (omega (arith, f, hits-new lo i lh m lt h))
]

pub log_block-takes :
    (lh : List ℕ) (b : ℕ) → length lh < log_blocks → log_block lh b ≡ some (added lh b)
unfolding log_block
log_block-takes lh b h = let q : leb log_blocks (length lh) ≡ false = ground (arith, h) in rw q refl

pub added-length : (lh : List ℕ) (b : ℕ) → length (added lh b) ≤ length lh + 1
added-length lh b = elim (Bool-cases (logged b lh)) [
  | inl h ↦ rw h (omega arith)
  | inr h ↦ rw h (omega arith)
]

-- The header has room for each of the calls.
pub log_all-takes :
    (lh bs : List ℕ)
    → length lh + length bs ≤ log_blocks
    → (lh' : List ℕ) × (log_all lh bs ≡ some lh') × (length lh' ≤ length lh + length bs)
unfolding log_all
log_all-takes lh [] h = (lh, refl, omega arith)
log_all-takes lh (b ∷ bs) h =
    let (lh', e, k) = log_all-takes (added lh b) bs (omega (arith, h, added-length lh b)) in
    (
      lh',
      rw (log_block-takes lh b (omega (arith, h)), log_all) e,
      omega (arith, k, added-length lh b),
    )
