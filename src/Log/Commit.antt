-- ===== src/Log/Commit.antt =====
-- The device writes of `commit`, in order.
use eafitos.Base.{
  ℕ, suc, ◌+◌, ◌≤◌, ◌<◌, ◌≡◌, ◌≢◌, ◌∙◌, inl, sym, subst, arith, refl, ap, false, [], ◌∷◌, ◌++◌,
  update_ne, List, lt→ltb, ltb, dec_lt, length, length-append, append_assoc,
}
use eafitos.Log.{
  Block, Disk, Log, Write, LogHeader, log_blocks, head_block, erase, install_trans, install_from,
  write_log, write_head, commit, bwrite,
}
use eafitos.Log.Writes.{apply, Issues, Issues-trans, Issues-write_head, apply-Avoids, apply-append}
use eafitos.Log.Phases.{
  IsHome, copies, installs, Issues-log_from, Issues-install_from, apply-copies, copies-Avoids,
  length-copies, length-installs,
}
use eafitos.Log.Header.{head_block-count}

-- A transaction that can be committed: it fits the log, its blocks are home blocks, every other home
-- block is as on the device, and the log on the device is empty.
pub record Ready (s : Log) : Type 0 where
  pub few : s.lh.n ≤ log_blocks
  pub homes : (j : ℕ) → j < s.lh.n → IsHome s.start (s.lh.block j)
  pub clean :
      (b : ℕ) → IsHome s.start b → ((j : ℕ) → j < s.lh.n → b ≢ s.lh.block j) → s.cache b ≡ s.disk b
  pub empty : s.disk s.start 0 ≡ 0

module _ (s : Log) (r : Ready s) where
  logged : Log
  logged = write_log s

  unfoldable pub to_log : List Write
  to_log = copies s.start s.lh.block s.cache 0 s.lh.n

  unfoldable pub to_homes : List Write
  to_homes = installs s.start s.lh.block s.cache 0 s.lh.n

  issued-logged : Issues s logged to_log
  unfolding logged write_log to_log
  issued-logged =
      Issues-log_from s.start s.lh.block s.cache s.lh.n r.few r.homes s 0 s.lh.n (omega arith) refl
        refl (λ j p. refl)

  -- The header block that commits the transaction.
  unfoldable pub header : Block
  header = head_block s.lh (s.cache s.start)

  headed : Log
  headed = write_head logged

  cache-logged : logged.cache s.start ≡ s.cache s.start
  cache-logged =
      ap (λ d. d s.start) issued-logged.cache
      ∙ apply-Avoids s.cache to_log s.start (
          unfold to_log in
          copies-Avoids s.start s.lh.block s.cache 0 s.lh.n s.start (inl (omega arith)))

  issued-headed : Issues s headed (to_log ++ (s.start, header) ∷ [])
  unfolding headed header
  issued-headed = Issues-trans issued-logged (
      subst (λ w. Issues logged (write_head logged) (w ∷ []))
        (λ i. (issued-logged.start i, head_block (issued-logged.lh i) (p i)))
        (Issues-write_head logged))
    where
      p : logged.cache logged.start ≡ s.cache s.start
      p = ap logged.cache issued-logged.start ∙ cache-logged

  copied : (j : ℕ) → j < s.lh.n → headed.cache (s.start + j + 1) ≡ s.cache (s.lh.block j)
  copied j p =
      ap (λ d. d (s.start + j + 1)) issued-headed.cache
      ∙ ap (λ d. d (s.start + j + 1)) (apply-append s.cache to_log ((s.start, header) ∷ []))
      ∙ update_ne (apply s.cache to_log) s.start header (s.start + j + 1) (omega arith)
      ∙ (unfold to_log in
          apply-copies s.start s.lh.block s.cache s.cache 0 s.lh.n j (omega arith) (omega arith))

  installed : Log
  installed = install_trans false headed

  issued-installed : Issues headed installed to_homes
  unfolding installed install_trans to_homes
  issued-installed =
      subst (λ m. Issues headed (install_from false headed 0 m) to_homes)
        (sym (ap (λ (h : LogHeader). h.n) issued-headed.lh))
        (Issues-install_from s.start s.lh.block s.cache s.lh.n r.few r.homes false headed 0 s.lh.n
          (omega arith) issued-headed.start (ap (λ (h : LogHeader). h.block) issued-headed.lh)
          copied)

  before_erase : Issues s installed ((to_log ++ (s.start, header) ∷ []) ++ to_homes)
  before_erase = Issues-trans issued-headed issued-installed

  emptied : LogHeader
  emptied = record { n = 0; block = installed.lh.block }

  -- The header block that ends the transaction.
  pub cleared : Block
  cleared = head_block emptied (installed.cache installed.start)

  pub cleared-count : cleared 0 ≡ 0
  unfolding cleared
  cleared-count = unfold emptied in head_block-count emptied (installed.cache installed.start)

  -- The log copies, the header, the home blocks, the empty header.
  unfoldable pub commit_writes : List Write
  commit_writes = to_log ++ ((s.start, header) ∷ (to_homes ++ (s.start, cleared) ∷ []))

  pub length-commit_writes : length commit_writes ≡ s.lh.n + suc (suc s.lh.n)
  unfolding commit_writes to_log to_homes
  length-commit_writes = omega (
    arith,
    length-append to_log ((s.start, header) ∷ (to_homes ++ (s.start, cleared) ∷ [])),
    length-append to_homes ((s.start, cleared) ∷ []),
    length-copies s.start s.lh.block s.cache 0 s.lh.n,
    length-installs s.start s.lh.block s.cache 0 s.lh.n,
  )

  commit_pos : 0 < s.lh.n → commit s ≡ erase installed
  unfolding commit installed headed logged
  commit_pos p = rw (lt→ltb 0 s.lh.n p)

  joined :
      ((to_log ++ (s.start, header) ∷ []) ++ to_homes) ++ (s.start, cleared) ∷ [] ≡ commit_writes
  unfolding commit_writes
  joined =
      append_assoc (to_log ++ (s.start, header) ∷ []) to_homes ((s.start, cleared) ∷ [])
      ∙ append_assoc to_log ((s.start, header) ∷ []) (to_homes ++ (s.start, cleared) ∷ [])

  erased : Issues (record installed { lh = emptied }) (erase installed) ((s.start, cleared) ∷ [])
  unfolding erase emptied cleared
  erased =
      subst (λ a. Issues (record installed { lh = emptied }) (erase installed) ((a, cleared) ∷ []))
        before_erase.start (Issues-write_head (record installed { lh = emptied }))

  pub issued-commit : 0 < s.lh.n → (commit s).issued ≡ s.issued ++ commit_writes
  issued-commit p =
      ap (λ (t : Log). t.issued) (commit_pos p)
      ∙ erased.issued
      ∙ ap (λ l. l ++ (s.start, cleared) ∷ []) before_erase.issued
      ∙ append_assoc s.issued ((to_log ++ (s.start, header) ∷ []) ++ to_homes)
          ((s.start, cleared) ∷ [])
      ∙ ap (λ l. s.issued ++ l) joined

  module _ (d : Disk) (t : Disk) where
    all_applied :
        t ≡ apply d ((to_log ++ (s.start, header) ∷ []) ++ to_homes)
        → apply t ((s.start, cleared) ∷ []) ≡ apply d commit_writes
    all_applied e =
        ap (λ x. apply x ((s.start, cleared) ∷ [])) e
        ∙ sym (
            apply-append d ((to_log ++ (s.start, header) ∷ []) ++ to_homes)
              ((s.start, cleared) ∷ []))
        ∙ ap (apply d) joined

  pub disk-commit : 0 < s.lh.n → (commit s).disk ≡ apply s.disk commit_writes
  disk-commit p =
      ap (λ (t : Log). t.disk) (commit_pos p)
      ∙ erased.disk
      ∙ all_applied s.disk installed.disk before_erase.disk

  pub cache-commit : 0 < s.lh.n → (commit s).cache ≡ apply s.cache commit_writes
  cache-commit p =
      ap (λ (t : Log). t.cache) (commit_pos p)
      ∙ erased.cache
      ∙ all_applied s.cache installed.cache before_erase.cache

  pub lh-commit : 0 < s.lh.n → (commit s).lh.n ≡ 0
  unfolding erase write_head bwrite
  lh-commit p = ap (λ (t : Log). t.lh.n) (commit_pos p)

-- `commit` leaves the place of the log alone.
pub start-commit : (s : Log) → Ready s → (commit s).start ≡ s.start
start-commit s r = elim (dec_lt 0 s.lh.n) [
  | yes p ↦
      ap (λ (t : Log). t.start) (commit_pos s r p) ∙ (erased s r).start ∙ (before_erase s r).start
  | no z ↦ unfold commit in rw (not_pos z)
]
  where
    not_pos : ¬ (0 < s.lh.n) → ltb 0 s.lh.n ≡ false
    not_pos z = ground arith

pub outstanding-commit : (s : Log) → Ready s → (commit s).outstanding ≡ s.outstanding
outstanding-commit s r = elim (dec_lt 0 s.lh.n) [
  | yes p ↦
      ap (λ (t : Log). t.outstanding) (commit_pos s r p)
      ∙ (erased s r).outstanding
      ∙ (before_erase s r).outstanding
  | no z ↦ unfold commit in rw (not_pos z)
]
  where
    not_pos : ¬ (0 < s.lh.n) → ltb 0 s.lh.n ≡ false
    not_pos z = ground arith
