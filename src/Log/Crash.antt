-- ===== src/Log/Crash.antt =====
-- A crash at any point of `commit`: the device has a prefix of the writes, and recovery runs on it.
use eafitos.Base.{
  ℕ, zero, suc, ◌+◌, ◌-◌, ◌≤◌, ◌<◌, ◌≡◌, ◌≢◌, ◌∙◌, ◌⊎◌, inl, inr, sym, subst, arith, refl, ap,
  false, [], ◌∷◌, ◌++◌, update_ne, List, take, take-append_left, take-append_right, take-all,
  take-nil, length-append, update, ℕ_discrete, dec_lt, update_self, ltb,
}
use eafitos.Log.{Block, Disk, Log, Write, initlog, commit}
use eafitos.Log.Writes.{apply, Avoids, Touches, Carries, apply-Avoids, apply-Carries, apply-append}
use eafitos.Log.Phases.{
  IsHome, installs, copies-Avoids, apply-copies, installs-Carries, installs-Touches, length-copies,
  length-installs,
}
use eafitos.Log.Header.{head_block-count, head_block-at}
use eafitos.Log.Recover.{boot, Holds, Listed, recovered}
use eafitos.Log.Commit.{
  Ready, to_log, to_homes, header, cleared, cleared-count, commit_writes, issued-commit,
  disk-commit, lh-commit, cache-commit, length-commit_writes,
}

pub Avoids-take : (k b : ℕ) (ws : List Write) → Avoids b ws → Avoids b (take k ws)
Avoids-take zero b ws h = tt
Avoids-take (suc k) b [] h = tt
Avoids-take (suc k) b (w ∷ ws) h = (h.0, Avoids-take k b ws h.1)

pub Carries-take : (k : ℕ) (c : Disk) (ws : List Write) → Carries c ws → Carries c (take k ws)
Carries-take zero c ws h = tt
Carries-take (suc k) c [] h = tt
Carries-take (suc k) c (w ∷ ws) h = (h.0, Carries-take k c ws h.1)

pub installs-Avoids :
    (blk : ℕ → ℕ) (st : ℕ) (c : Disk) (b i k : ℕ)
    → ((j : ℕ) → j < i + k → b ≢ blk j)
    → Avoids b (installs st blk c i k)
installs-Avoids blk st c b i zero h = tt
installs-Avoids blk st c b i (suc k) h =
    (h i (omega arith), installs-Avoids blk st c b (i + 1) k (λ j p. h j (omega arith)))

find_block :
    (blk : ℕ → ℕ) (b n : ℕ) → ((j : ℕ) × (j < n) × (b ≡ blk j)) ⊎ ((j : ℕ) → j < n → b ≢ blk j)
find_block blk b zero = inr (λ j p. absurd (omega arith))
find_block blk b (suc n) = elim (ℕ_discrete b (blk n)) [
  | yes e ↦ inl (n, omega arith, e)
  | no ne ↦ elim (find_block blk b n) [
    | inl (j, p, e) ↦ inl (j, omega arith, e)
    | inr out ↦ inr (λ j p. elim (ℕ_discrete j n) [
      | yes e ↦ subst (λ m. b ≢ blk m) (sym e) ne
      | no q ↦ out j (omega arith)
    ])
  ]
]

module _ (s : Log) (r : Ready s) where
  -- The device when k of the writes of `commit` are done.
  pub stopped : ℕ → Disk
  stopped k = apply s.disk (take k (commit_writes s r))

  known :
      (b : ℕ)
      → IsHome s.start b
      → ((j : ℕ) × (j < s.lh.n) × (b ≡ s.lh.block j)) ⊎ (s.disk b ≡ s.cache b)
  known b hb = elim (find_block s.lh.block b s.lh.n) [
    | inl found ↦ inl found
    | inr out ↦ inr (sym (r.clean b hb out))
  ]

  -- Before the header is written, only log blocks have changed.
  module _ (k : ℕ) (h : k ≤ s.lh.n) where
    early : stopped k ≡ apply s.disk (take k (to_log s r))
    unfolding stopped commit_writes to_log
    early = ap (apply s.disk) (
        take-append_left k (to_log s r) _
          (omega (arith, length-copies s.start s.lh.block s.cache 0 s.lh.n)))

    early_same : (b : ℕ) → (b ≡ s.start) ⊎ IsHome s.start b → stopped k b ≡ s.disk b
    unfolding to_log
    early_same b hb =
        ap (λ d. d b) early
        ∙ apply-Avoids s.disk (take k (to_log s r)) b (
            Avoids-take k b (to_log s r)
              (copies-Avoids s.start s.lh.block s.cache 0 s.lh.n b (omega (arith, r.few))))

    early_zero : stopped k s.start 0 ≡ 0
    early_zero = ap (λ (v : Block). v 0) (early_same s.start (inl refl)) ∙ r.empty

    early_Holds : Holds s.start (stopped k) (stopped k)
    early_Holds = record {
      few = omega (arith, early_zero);
      homes = λ j p. absurd (omega (arith, early_zero));
      copied = λ j p. absurd (omega (arith, early_zero));
    }

    pub early_recovers :
        (b : ℕ) → IsHome s.start b → (initlog s.start (boot (stopped k))).disk b ≡ s.disk b
    early_recovers b hb =
        recovered s.start (stopped k) (stopped k) early_Holds b hb (inl refl)
        ∙ early_same b (inr hb)

  -- The device once the header is written.
  headed : Disk
  headed = update (apply s.disk (to_log s r)) s.start (header s r)

  tail : List Write
  tail = to_homes s r ++ (s.start, cleared s r) ∷ []

  late : (m : ℕ) → stopped (s.lh.n + suc m) ≡ apply headed (take m tail)
  unfolding stopped commit_writes tail headed to_log
  late m =
      ap (λ n. apply s.disk (take (n + suc m) (commit_writes s r)))
        (sym (length-copies s.start s.lh.block s.cache 0 s.lh.n))
      ∙ ap (apply s.disk) (take-append_right (suc m) (to_log s r) _)
      ∙ apply-append s.disk (to_log s r) _

  homes-Avoid :
      (b : ℕ)
      → (b ≡ s.start) ⊎ ((j : ℕ) × (j < s.lh.n) × (b ≡ s.start + j + 1))
      → Avoids b (to_homes s r)
  unfolding to_homes
  homes-Avoid b hb =
      installs-Avoids s.lh.block s.start s.cache b 0 s.lh.n
        (λ j p. apart hb (r.homes j (omega arith)))
    where
      apart :
          {a : ℕ}
          → (b ≡ s.start) ⊎ ((j : ℕ) × (j < s.lh.n) × (b ≡ s.start + j + 1))
          → IsHome s.start a
          → b ≢ a
      apart (inl e) h = omega arith
      apart (inr (j, p, e)) h = omega (arith, r.few)

  -- Whatever part of the installation is done, a home block that is right stays right.
  installing :
      (m b : ℕ)
      → IsHome s.start b
      → s.disk b ≡ s.cache b
      → apply headed (take m (to_homes s r)) b ≡ s.cache b
  unfolding headed to_homes to_log
  installing m b hb e =
      apply-Carries s.cache headed (take m (to_homes s r)) b
        (Carries-take m s.cache (to_homes s r)
          (installs-Carries s.start s.lh.block s.cache 0 s.lh.n))
        (inl (
          update_ne (apply s.disk (to_log s r)) s.start (header s r) b (omega arith)
          ∙ apply-Avoids s.disk (to_log s r) b
              (copies-Avoids s.start s.lh.block s.cache 0 s.lh.n b (omega (arith, r.few)))
          ∙ e))

  module _ (m : ℕ) (h : m ≤ s.lh.n) where
    partly : Disk
    partly = apply headed (take m (to_homes s r))

    stopped-partly : stopped (s.lh.n + suc m) ≡ partly
    unfolding partly tail to_homes
    stopped-partly =
        late m
        ∙ ap (apply headed) (
            take-append_left m (to_homes s r) _
              (omega (arith, length-installs s.start s.lh.block s.cache 0 s.lh.n)))

    partly-header : partly s.start ≡ header s r
    unfolding partly headed
    partly-header =
        apply-Avoids headed (take m (to_homes s r)) s.start
          (Avoids-take m s.start (to_homes s r) (homes-Avoid s.start (inl refl)))
        ∙ update_self (apply s.disk (to_log s r)) s.start (header s r)

    count : partly s.start 0 ≡ s.lh.n
    unfolding header
    count = ap (λ (v : Block). v 0) partly-header ∙ head_block-count s.lh (s.cache s.start)

    entry : (j : ℕ) → j < s.lh.n → partly s.start (j + 1) ≡ s.lh.block j
    unfolding header
    entry j p =
        ap (λ (v : Block). v (j + 1)) partly-header ∙ head_block-at s.lh (s.cache s.start) j p

    slot : (j : ℕ) → j < s.lh.n → partly (s.start + j + 1) ≡ s.cache (s.lh.block j)
    unfolding partly headed to_log
    slot j p =
        apply-Avoids headed (take m (to_homes s r)) (s.start + j + 1) (
          Avoids-take m (s.start + j + 1) (to_homes s r)
            (homes-Avoid (s.start + j + 1) (inr (j, p, refl))))
        ∙ update_ne (apply s.disk (to_log s r)) s.start (header s r) (s.start + j + 1) (omega arith)
        ∙ apply-copies s.start s.lh.block s.cache s.disk 0 s.lh.n j (omega arith) (omega arith)

    partly-Holds : Holds s.start s.cache partly
    partly-Holds = record {
      few = omega (arith, count, r.few);
      homes = λ j p.
          subst (IsHome s.start) (sym (entry j (omega (arith, count))))
            (r.homes j (omega (arith, count)));
      copied =
          λ j p. slot j (omega (arith, count)) ∙ ap s.cache (sym (entry j (omega (arith, count))));
    }

    partly_known : (b : ℕ) → IsHome s.start b → (partly b ≡ s.cache b) ⊎ Listed s.start partly b
    unfolding partly
    partly_known b hb = elim (known b hb) [
      | inl (j, p, e) ↦ inr (j, omega (arith, count), e ∙ sym (entry j p))
      | inr e ↦ inl (installing m b hb e)
    ]

    pub middle_recovers :
        (b : ℕ)
        → IsHome s.start b
        → (initlog s.start (boot (stopped (s.lh.n + suc m)))).disk b ≡ s.cache b
    middle_recovers b hb =
        ap (λ d. (initlog s.start (boot d)).disk b) stopped-partly
        ∙ recovered s.start s.cache partly partly-Holds b hb (partly_known b hb)

  module _ (m : ℕ) (h : s.lh.n < m) where
    whole : stopped (s.lh.n + suc m) ≡ update (apply headed (to_homes s r)) s.start (cleared s r)
    unfolding tail to_homes
    whole =
        late m
        ∙ ap (apply headed) (
            take-all m tail (
              omega (
                arith,
                length-append (to_homes s r) ((s.start, cleared s r) ∷ []),
                length-installs s.start s.lh.block s.cache 0 s.lh.n,
              )))
        ∙ apply-append headed (to_homes s r) ((s.start, cleared s r) ∷ [])

    finished : (b : ℕ) → IsHome s.start b → apply headed (to_homes s r) b ≡ s.cache b
    unfolding to_homes
    finished b hb = elim (known b hb) [
      | inl (j, p, e) ↦
          apply-Carries s.cache headed (to_homes s r) b
            (installs-Carries s.start s.lh.block s.cache 0 s.lh.n)
            (inr (
              subst (λ a. Touches a (to_homes s r)) (sym e)
                (installs-Touches s.start s.lh.block s.cache 0 s.lh.n j (omega arith)
                  (omega arith))))
      | inr e ↦
          ap (λ ws. apply headed ws b)
            (sym (
              take-all m (to_homes s r)
                (omega (arith, length-installs s.start s.lh.block s.cache 0 s.lh.n))))
          ∙ installing m b hb e
    ]

    whole_right : (b : ℕ) → IsHome s.start b → stopped (s.lh.n + suc m) b ≡ s.cache b
    unfolding to_homes
    whole_right b hb =
        ap (λ d. d b) whole
        ∙ update_ne (apply headed (to_homes s r)) s.start (cleared s r) b (omega arith)
        ∙ finished b hb

    whole_zero : stopped (s.lh.n + suc m) s.start 0 ≡ 0
    whole_zero =
        ap (λ d. d s.start 0) whole
        ∙ ap (λ (v : Block). v 0) (update_self (apply headed (to_homes s r)) s.start (cleared s r))
        ∙ cleared-count s r

    whole_Holds : Holds s.start s.cache (stopped (s.lh.n + suc m))
    whole_Holds = record {
      few = omega (arith, whole_zero);
      homes = λ j p. absurd (omega (arith, whole_zero));
      copied = λ j p. absurd (omega (arith, whole_zero));
    }

    pub whole_recovers :
        (b : ℕ)
        → IsHome s.start b
        → (initlog s.start (boot (stopped (s.lh.n + suc m)))).disk b ≡ s.cache b
    whole_recovers b hb =
        recovered s.start s.cache (stopped (s.lh.n + suc m)) whole_Holds b hb
          (inl (whole_right b hb))

  pub late_recovers :
      (k : ℕ)
      → s.lh.n < k
      → (b : ℕ) → IsHome s.start b
      → (initlog s.start (boot (stopped k))).disk b ≡ s.cache b
  late_recovers k h b hb =
      subst (λ x. (initlog s.start (boot (stopped x))).disk b ≡ s.cache b) place
        (elim (dec_lt s.lh.n (k - s.lh.n - 1)) [
          | yes past ↦ whole_recovers (k - s.lh.n - 1) past b hb
          | no within ↦ middle_recovers (k - s.lh.n - 1) (omega arith) b hb
        ])
    where
      place : s.lh.n + suc (k - s.lh.n - 1) ≡ k
      place = omega arith

-- The device after a crash that lets `commit` make its first k writes.
unfoldable pub crash : Log → ℕ → Disk
crash s k = apply s.disk (take k (commit (record s { issued = [] })).issued)

quiet : {s : Log} → Ready s → Ready (record s { issued = [] })
quiet r = record { few = r.few; homes = r.homes; clean = r.clean; empty = r.empty }

crash-stopped :
    (s : Log) (r : Ready s) (k : ℕ)
    → 0 < s.lh.n
    → crash s k ≡ stopped (record s { issued = [] }) (quiet r) k
unfolding crash stopped
crash-stopped s r k p =
    ap (λ ws. apply s.disk (take k ws)) (issued-commit (record s { issued = [] }) (quiet r) p)

crash-empty : (s : Log) (k : ℕ) → s.lh.n ≡ 0 → crash s k ≡ s.disk
unfolding crash commit
crash-empty s k e = rw no_blocks (ap (apply s.disk) (take-nil k))
  where
    no_blocks : ltb 0 s.lh.n ≡ false
    no_blocks = ground arith

-- Let a transaction be ready to commit, and let the machine crash after the first k device writes of
-- `commit`. The recovery at the next start leaves every home block as it was on the device before
-- `commit` if the header write was not among them (k ≤ n), and as the transaction left it in the
-- cache otherwise: the transaction takes effect wholly or not at all.
pub commit_atomic :
    (s : Log)
    → Ready s
    → (k b : ℕ) → IsHome s.start b
    → (k ≤ s.lh.n → (initlog s.start (boot (crash s k))).disk b ≡ s.disk b)
      × (s.lh.n < k → (initlog s.start (boot (crash s k))).disk b ≡ s.cache b)
commit_atomic s r k b hb = elim (dec_lt 0 s.lh.n) [
  | yes p ↦ rw (crash-stopped s r k p) (
    λ h. early_recovers (record s { issued = [] }) (quiet r) k h b hb,
    λ h. late_recovers (record s { issued = [] }) (quiet r) k h b hb,
  )
  | no z ↦
      rw (crash-empty s k (omega arith))
        (λ h. idle, λ h. idle ∙ sym (r.clean b hb (λ j p. absurd (omega arith))))
]
  where
    idle : (initlog s.start (boot s.disk)).disk b ≡ s.disk b
    idle =
        recovered s.start s.disk s.disk
          (record {
            few = omega (arith, r.empty);
            homes = λ j p. absurd (omega (arith, r.empty));
            copied = λ j p. absurd (omega (arith, r.empty));
          })
          b hb (inl refl)

-- A commit that is not interrupted leaves the log empty, on the device too, and every home block on
-- the device as the transaction has it in the cache.
pub commit_done :
    (s : Log)
    → Ready s
    → ((commit s).lh.n ≡ 0)
      × ((commit s).disk s.start 0 ≡ 0)
      × ((b : ℕ) → IsHome s.start b → (commit s).disk b ≡ s.cache b)
commit_done s r = elim (dec_lt 0 s.lh.n) [
  | yes p ↦ (
    lh-commit s r p,
    ap (λ d. d s.start 0) (disk-commit s r p ∙ all) ∙ whole_zero s r (suc s.lh.n) (omega arith),
    λ b hb.
        ap (λ d. d b) (disk-commit s r p ∙ all) ∙ whole_right s r (suc s.lh.n) (omega arith) b hb,
  )
  | no z ↦
      unfold commit in
      rw (not_pos z)
        (omega arith, r.empty, λ b hb. sym (r.clean b hb (λ j p. absurd (omega arith))))
]
  where
    not_pos : ¬ (0 < s.lh.n) → ltb 0 s.lh.n ≡ false
    not_pos z = ground arith

    all : apply s.disk (commit_writes s r) ≡ stopped s r (s.lh.n + suc (suc s.lh.n))
    all =
        unfold stopped in
        ap (apply s.disk) (
          sym (
            take-all (s.lh.n + suc (suc s.lh.n)) (commit_writes s r)
              (omega (arith, length-commit_writes s r))))

-- The cached home blocks are left alone.
pub commit-cache : (s : Log) → Ready s → (b : ℕ) → IsHome s.start b → (commit s).cache b ≡ s.cache b
unfolding to_log to_homes commit_writes
commit-cache s r b hb = elim (dec_lt 0 s.lh.n) [
  | yes p ↦
      ap (λ d. d b) (cache-commit s r p)
      ∙ ap (λ d. d b) (apply-append s.cache (to_log s r) _)
      ∙ ap (λ d. d b) (apply-append in_log (to_homes s r) ((s.start, cleared s r) ∷ []))
      ∙ update_ne (apply in_log (to_homes s r)) s.start (cleared s r) b (omega arith)
      ∙ apply-Carries s.cache in_log (to_homes s r) b
          (installs-Carries s.start s.lh.block s.cache 0 s.lh.n)
          (inl (
            update_ne (apply s.cache (to_log s r)) s.start (header s r) b (omega arith)
            ∙ apply-Avoids s.cache (to_log s r) b
                (copies-Avoids s.start s.lh.block s.cache 0 s.lh.n b (omega (arith, r.few)))))
  | no z ↦ unfold commit in rw (not_pos z)
]
  where
    in_log : Disk
    in_log = update (apply s.cache (to_log s r)) s.start (header s r)

    not_pos : ¬ (0 < s.lh.n) → ltb 0 s.lh.n ≡ false
    not_pos z = ground arith
