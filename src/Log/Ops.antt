-- ===== src/Log/Ops.antt =====
-- kernel/log.c: `begin_op`, `log_write` and `end_op`, the calls of the file system operations.
use eafitos.Base.{
  ℕ, zero, suc, ◌+◌, ◌-◌, ◌*◌, ◌<◌, ◌≡◌, ◌≢◌, ◌⊎◌, inl, inr, Bool, true, false, Option, none, some,
  refl, arith, ltb, leb, ◌==◌, if◌then◌else◌, update, update_self, update_ne, update_cases, sym,
  ◌∙◌, ap, Bool-cases, ℕ_discrete, subst, ne_of_==, ==_of_ne, ==_refl,
}
use eafitos.Log.{Block, Log, LogHeader, max_op_blocks, log_blocks, bpin, modify, commit}
use eafitos.Log.Phases.{IsHome}
use eafitos.Log.Commit.{Ready}

-- `below_zero` stands for a negative `log.outstanding`, which the type of the field leaves out.
pub data Panic : Type 0 where
  too_big outside_transaction log_committing below_zero : Panic

pub data Result (A : Type 0) : Type 0 where
  ok : A → Result A
  panic : Panic → Result A

-- One round of the loop: `none` is a sleep on `&log`, after which the round is made again.
unfoldable pub begin_op : Log → Option Log
begin_op s =
    if s.committing
    then none
    else if ltb log_blocks (s.lh.n + (s.outstanding + 1) * max_op_blocks)
    then none
    else some (record s { outstanding = s.outstanding + 1 })

-- The index at which the loop of `log_write` stops, from index i with k entries left.
pub absorb : (ℕ → ℕ) → ℕ → ℕ → ℕ → ℕ
absorb block b i zero = i
absorb block b i (suc k) = let rest = absorb block b (i + 1) k in if block i == b then i else rest

pub put : Log → ℕ → ℕ → Log
unfolding bpin
put s b i =
    let lh : LogHeader = record { n = s.lh.n; block = update s.lh.block i b } in
    if i == s.lh.n
    then record (bpin s b) { lh = record lh { n = s.lh.n + 1 } }
    else record s { lh = lh }

unfoldable pub log_write : Log → ℕ → Result Log
log_write s b =
    if leb log_blocks s.lh.n
    then panic too_big
    else if ltb s.outstanding 1
    then panic outside_transaction
    else ok (put s b (absorb s.lh.block b 0 s.lh.n))

-- The first critical section of `end_op`, with `do_commit`.
unfoldable pub end_op : Log → Result (Log × Bool)
end_op s =
    if s.outstanding == 0
    then panic below_zero
    else if s.committing
    then panic log_committing
    else if s.outstanding - 1 == 0
    then ok (record s { outstanding = 0; committing = true }, true)
    else ok (record s { outstanding = s.outstanding - 1 }, false)

-- The rest of `end_op` where `do_commit` is set.
unfoldable pub finish_op : Log → Log
finish_op s = let s' = commit s in record s' { committing = false }

-- Where the loop stops: past the entries, none of which is b, or at an entry that is b.
pub absorb_cases :
    (block : ℕ → ℕ) (b i k n : ℕ)
    → i + k ≡ n
    → ((j : ℕ) → j < i → block j ≢ b)
    → ((absorb block b i k ≡ n) × ((j : ℕ) → j < n → block j ≢ b))
      ⊎ ((absorb block b i k < n) × (block (absorb block b i k) ≡ b))
unfolding absorb
absorb_cases block b i zero n e out = inl (omega arith, λ j p. out j (omega arith))
absorb_cases block b i (suc k) n e out = elim (Bool-cases (block i == b)) [
  | inl hit ↦ rw hit (inr (omega arith, ground arith))
  | inr miss ↦ rw miss (
      absorb_cases block b (i + 1) k n (omega arith) (λ j p. elim (ℕ_discrete j i) [
        | yes q ↦ subst (λ m. block m ≢ b) (sym q) (ne_of_== (block i) b miss)
        | no q ↦ out j (omega arith)
      ]))
]

-- `bp->data` of block b is changed and `log_write` called, while operations are in progress.
module _ (s : Log) (r : Ready s) (b : ℕ) (v : Block) (home : IsHome s.start b) where
  -- A block that is in the log already.
  module _ (i : ℕ) (p : i < s.lh.n) (e : s.lh.block i ≡ b) where
    kept : (j : ℕ) → update s.lh.block i b j ≡ s.lh.block j
    kept j = elim (update_cases s.lh.block i b j) [
      | inl (q, u) ↦ u ∙ sym e ∙ ap s.lh.block (sym q)
      | inr (_, u) ↦ u
    ]

    put-old-Ready : Ready (put (modify s b v) b i)
    unfolding put
    put-old-Ready = rw (==_of_ne i s.lh.n (omega arith)) (record {
      few = r.few;
      homes = λ j q. subst (IsHome s.start) (sym (kept j)) (r.homes j q);
      clean = λ a ha out.
          update_ne s.cache b v a (λ q. out i p (q ∙ sym (update_self s.lh.block i b)))
          ∙ r.clean a ha (λ j q h. out j q (h ∙ sym (kept j)));
      empty = r.empty;
    })

  -- A new block.
  put-new-Ready : s.lh.n < log_blocks → Ready (put (modify s b v) b s.lh.n)
  unfolding put bpin
  put-new-Ready p = rw (==_refl s.lh.n) (record {
    few = omega arith;
    homes = λ j q. elim (update_cases s.lh.block s.lh.n b j) [
      | inl (_, u) ↦ subst (IsHome s.start) (sym u) home
      | inr (ne, u) ↦ subst (IsHome s.start) (sym u) (r.homes j (omega arith))
    ];
    clean = λ a ha out.
        update_ne s.cache b v a
          (λ q. out s.lh.n (omega arith) (q ∙ sym (update_self s.lh.block s.lh.n b)))
        ∙ r.clean a ha (λ j q h.
          out j (omega arith) (h ∙ sym (update_ne s.lh.block s.lh.n b j (omega arith))));
    empty = r.empty;
  })

  -- What `log_write` does to the transaction: it stays ready to commit, it holds b, and it has at most
  -- one block more.
  pub record Logged (t : Log) : Type 0 where
    pub ready : Ready t
    pub start : t.start ≡ s.start
    pub outstanding : t.outstanding ≡ s.outstanding
    pub committing : t.committing ≡ s.committing
    pub place : ℕ
    pub listed : (place < t.lh.n) × (t.lh.block place ≡ b)
    pub cached : t.cache b ≡ v
    pub size : (t.lh.n ≡ s.lh.n) ⊎ (t.lh.n ≡ s.lh.n + 1)

  put-new-Logged : s.lh.n < log_blocks → Logged (put (modify s b v) b s.lh.n)
  unfolding put bpin
  put-new-Logged p = record {
    ready = put-new-Ready p;
    start = rw (==_refl s.lh.n);
    outstanding = rw (==_refl s.lh.n);
    committing = rw (==_refl s.lh.n);
    place = s.lh.n;
    listed = rw (==_refl s.lh.n) (omega arith, update_self s.lh.block s.lh.n b);
    cached = rw (==_refl s.lh.n) (update_self s.cache b v);
    size = rw (==_refl s.lh.n) (inr refl);
  }

  put-old-Logged : (i : ℕ) → i < s.lh.n → s.lh.block i ≡ b → Logged (put (modify s b v) b i)
  unfolding put
  put-old-Logged i p e = record {
    ready = put-old-Ready i p e;
    start = rw differs;
    outstanding = rw differs;
    committing = rw differs;
    place = i;
    listed = rw differs (p, update_self s.lh.block i b);
    cached = rw differs (update_self s.cache b v);
    size = rw differs (inl refl);
  }
    where
      differs : (i == s.lh.n) ≡ false
      differs = ==_of_ne i s.lh.n (omega arith)

  -- With room in the log and an operation in progress, `log_write` succeeds.
  pub log_write-Logged :
      s.lh.n < log_blocks
      → 0 < s.outstanding
      → (t : Log) × (log_write (modify s b v) b ≡ ok t) × Logged t
  unfolding log_write
  log_write-Logged p q = (put (modify s b v) b (absorb s.lh.block b 0 s.lh.n), ground arith, logged)
    where
      logged : Logged (put (modify s b v) b (absorb s.lh.block b 0 s.lh.n))
      logged =
          elim (absorb_cases s.lh.block b 0 s.lh.n s.lh.n (omega arith)
            (λ j h. absurd (omega arith))) [
              | inl (e, _) ↦ subst (λ m. Logged (put (modify s b v) b m)) (sym e) (put-new-Logged p)
              | inr (h, e) ↦ put-old-Logged (absorb s.lh.block b 0 s.lh.n) h e
            ]
