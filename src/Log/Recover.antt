-- ===== src/Log/Recover.antt =====
-- What recovery makes of a disk.
use eafitos.Base.{
  ℕ, ◌+◌, ◌≤◌, ◌<◌, ◌≡◌, ◌∙◌, ◌⊎◌, inl, inr, sym, subst, arith, refl, ap, true, false, [], ◌∷◌,
  ◌++◌, update_ne, update, update_self,
}
use eafitos.Log.{
  Block, Disk, Log, LogHeader, log_blocks, head_block, read_head, read_entries, erase,
  install_trans, recover_from_log, initlog,
}
use eafitos.Log.Writes.{apply, apply-append, Touches, Issues, Issues-write_head, apply-Carries}
use eafitos.Log.Phases.{IsHome, installs, installs-Carries, installs-Touches, Issues-install_from}
use eafitos.Log.Header.{read_entries-at, head_block-count}

-- The log as it is when the machine starts: static data is zero, and no block is cached.
abbrev pub boot : Disk → Log
boot d = record {
  start = 0;
  outstanding = 0;
  committing = false;
  lh = record { n = 0; block = λ _. 0 };
  cache = d;
  disk = d;
  pins = λ _. 0;
  issued = [];
}

-- The disk `d` holds a log that stands for the home blocks of `c`.
pub record Holds (st : ℕ) (c d : Disk) : Type 0 where
  pub few : d st 0 ≤ log_blocks
  pub homes : (j : ℕ) → j < d st 0 → IsHome st (d st (j + 1))
  pub copied : (j : ℕ) → j < d st 0 → d (st + j + 1) ≡ c (d st (j + 1))

-- A block is listed in the header of `d`.
abbrev pub Listed : ℕ → Disk → ℕ → Type 0
Listed st d b = (j : ℕ) × (j < d st 0) × (b ≡ d st (j + 1))

module _ (st : ℕ) (c d : Disk) (h : Holds st c d) where
  -- The entries that `read_head` reads.
  pub blk : ℕ → ℕ
  unfolding read_entries
  blk = read_entries (d st) (λ _. 0) 0 (d st 0)

  pub blk-at : (j : ℕ) → j < d st 0 → blk j ≡ d st (j + 1)
  unfolding blk
  blk-at j p = read_entries-at (d st) (λ _. 0) 0 (d st 0) j (omega arith) (omega arith)

  started : Log
  started = read_head (record (boot d) { start = st })

  issued-started : Issues started (install_trans true started) (installs st blk c 0 (d st 0))
  unfolding install_trans started read_head blk
  issued-started =
      Issues-install_from st blk c (d st 0) h.few
        (λ j p. subst (IsHome st) (sym (blk-at j p)) (h.homes j p)) true started 0 (d st 0)
        (omega arith) refl refl (λ j p. h.copied j p ∙ ap c (sym (blk-at j p)))

  installed : Log
  installed = install_trans true started

  emptied : LogHeader
  emptied = record { n = 0; block = installed.lh.block }

  -- The header block that ends recovery.
  pub header : Block
  header = head_block emptied (installed.cache installed.start)

  header-erased : (erase installed).disk ≡ update installed.disk installed.start header
  unfolding erase header emptied
  header-erased = (Issues-write_head (record installed { lh = emptied })).disk

  pub header-count : header 0 ≡ 0
  unfolding header emptied
  header-count = head_block-count emptied (installed.cache installed.start)

  disk-installed : installed.disk ≡ apply d (installs st blk c 0 (d st 0))
  unfolding installed started read_head
  disk-installed = issued-started.disk

  start-installed : installed.start ≡ st
  unfolding installed started read_head
  start-installed = issued-started.start

  -- Recovery leaves a home block as `c` has it, if it is right on `d` or listed there.
  pub recovered :
      (b : ℕ) → IsHome st b → (d b ≡ c b) ⊎ Listed st d b → (initlog st (boot d)).disk b ≡ c b
  unfolding initlog recover_from_log installed started
  recovered b hb hl =
      ap (λ e. e b) header-erased
      ∙ update_ne installed.disk installed.start header b (omega (arith, start-installed))
      ∙ ap (λ e. e b) disk-installed
      ∙ apply-Carries c d (installs st blk c 0 (d st 0)) b (installs-Carries st blk c 0 (d st 0))
          (right hl)
    where
      right : (d b ≡ c b) ⊎ Listed st d b → (d b ≡ c b) ⊎ Touches b (installs st blk c 0 (d st 0))
      right (inl e) = inl e
      right (inr (j, p, e)) = inr (
          subst (λ a. Touches a (installs st blk c 0 (d st 0))) (blk-at j p ∙ sym e)
            (installs-Touches st blk c 0 (d st 0) j (omega arith) (omega arith)))

  -- Afterwards the log is empty.
  pub recovered-empty : (initlog st (boot d)).disk st 0 ≡ 0
  unfolding initlog recover_from_log installed started
  recovered-empty =
      ap (λ e. e st 0) header-erased
      ∙ ap (λ (b : Block). b 0)
          (subst (λ a. update installed.disk installed.start header a ≡ header) start-installed
            (update_self installed.disk installed.start header))
      ∙ header-count

  -- The device writes of recovery.
  pub issued-recovery :
      (initlog st (boot d)).issued ≡ installs st blk c 0 (d st 0) ++ (st, header) ∷ []
  unfolding initlog recover_from_log erase header emptied installed started read_head
  issued-recovery =
      (Issues-write_head (record installed { lh = emptied })).issued
      ∙ ap (λ l. l ++ (installed.start, header) ∷ []) issued-started.issued
      ∙ ap (λ a. installs st blk c 0 (d st 0) ++ (a, header) ∷ []) start-installed

  pub disk-recovery :
      (initlog st (boot d)).disk ≡ apply d (installs st blk c 0 (d st 0) ++ (st, header) ∷ [])
  unfolding initlog recover_from_log installed started
  disk-recovery =
      header-erased
      ∙ ap (λ a. update installed.disk a header) start-installed
      ∙ ap (λ x. update x st header) disk-installed
      ∙ sym (apply-append d (installs st blk c 0 (d st 0)) ((st, header) ∷ []))
