-- ===== src/Log/Restart.antt =====
-- A crash in the middle of recovery.
use eafitos.Base.{
  ℕ, ◌+◌, ◌≤◌, ◌<◌, ◌≡◌, ◌≢◌, ◌∙◌, ◌⊎◌, inl, inr, sym, subst, arith, refl, ap, [], ◌∷◌, List, take,
  take-append_left, take-all, length, length-append, dec_lt,
}
use eafitos.Log.{Block, Disk, Write, initlog}
use eafitos.Log.Writes.{apply, Avoids, apply-Avoids, apply-Carries}
use eafitos.Log.Phases.{IsHome, installs, installs-Carries, length-installs}
use eafitos.Log.Recover.{
  boot, Holds, Listed, recovered, recovered-empty, blk, blk-at, issued-recovery, disk-recovery,
  header,
}
use eafitos.Log.Crash.{Avoids-take, Carries-take, installs-Avoids}

-- The device when recovery from the disk `d` has made its first k writes.
pub stopped_recovery : ℕ → Disk → ℕ → Disk
stopped_recovery st d k = apply d (take k (initlog st (boot d)).issued)

module _ (st : ℕ) (c d : Disk) (h : Holds st c d) (k : ℕ) where
  ws : List Write
  ws = installs st (blk st c d h) c 0 (d st 0)

  length-ws : length ws ≡ d st 0
  unfolding ws
  length-ws = length-installs st (blk st c d h) c 0 (d st 0)

  ws-Avoids : (b : ℕ) → (b ≡ st) ⊎ ((j : ℕ) × (j < d st 0) × (b ≡ st + j + 1)) → Avoids b ws
  unfolding ws
  ws-Avoids b hb = installs-Avoids (blk st c d h) st c b 0 (d st 0) (λ j p.
      apart hb
        (subst (IsHome st) (sym (blk-at st c d h j (omega arith))) (h.homes j (omega arith))))
    where
      apart : {a : ℕ} → (b ≡ st) ⊎ ((j : ℕ) × (j < d st 0) × (b ≡ st + j + 1)) → IsHome st a → b ≢ a
      apart (inl e) q = omega arith
      apart (inr (j, p, e)) q = omega (arith, h.few)

  -- While blocks are being installed, the log on the device stays as it is.
  module _ (p : k ≤ d st 0) where
    partly : Disk
    partly = apply d (take k ws)

    stopped-partly : stopped_recovery st d k ≡ partly
    unfolding stopped_recovery partly ws
    stopped-partly =
        ap (λ l. apply d (take k l)) (issued-recovery st c d h)
        ∙ ap (apply d) (take-append_left k ws _ (omega (arith, length-ws)))

    same : (b : ℕ) → (b ≡ st) ⊎ ((j : ℕ) × (j < d st 0) × (b ≡ st + j + 1)) → partly b ≡ d b
    unfolding partly
    same b hb = apply-Avoids d (take k ws) b (Avoids-take k b ws (ws-Avoids b hb))

    same-header : partly st ≡ d st
    same-header = same st (inl refl)

    word : (j : ℕ) → partly st j ≡ d st j
    word j = ap (λ (v : Block). v j) same-header

    partly-Holds : Holds st c partly
    partly-Holds = record {
      few = omega (arith, word 0, h.few);
      homes = λ j q. subst (IsHome st) (sym (word (j + 1))) (h.homes j (omega (arith, word 0)));
      copied = λ j q.
          same (st + j + 1) (inr (j, omega (arith, word 0), refl))
          ∙ h.copied j (omega (arith, word 0))
          ∙ ap c (sym (word (j + 1)));
    }

    partly_known : (b : ℕ) → (d b ≡ c b) ⊎ Listed st d b → (partly b ≡ c b) ⊎ Listed st partly b
    unfolding partly ws
    partly_known b (inl e) = inl (
        apply-Carries c d (take k ws) b
          (Carries-take k c ws (installs-Carries st (blk st c d h) c 0 (d st 0))) (inl e))
    partly_known b (inr (j, q, e)) = inr (j, omega (arith, word 0), e ∙ sym (word (j + 1)))

    partly_recovers :
        (b : ℕ)
        → IsHome st b
        → (d b ≡ c b) ⊎ Listed st d b
        → (initlog st (boot (stopped_recovery st d k))).disk b ≡ c b
    partly_recovers b hb hl =
        ap (λ x. (initlog st (boot x)).disk b) stopped-partly
        ∙ recovered st c partly partly-Holds b hb (partly_known b hl)

  module _ (p : d st 0 < k) where
    whole : stopped_recovery st d k ≡ (initlog st (boot d)).disk
    unfolding stopped_recovery
    whole =
        ap (apply d) (
          take-all k (initlog st (boot d)).issued (
            omega (
              arith,
              ap length (issued-recovery st c d h),
              length-append (installs st (blk st c d h) c 0 (d st 0)) ((st, header st c d h) ∷ []),
              length-installs st (blk st c d h) c 0 (d st 0),
            )))
        ∙ ap (apply d) (issued-recovery st c d h)
        ∙ sym (disk-recovery st c d h)

    zero_left : stopped_recovery st d k st 0 ≡ 0
    zero_left = ap (λ x. x st 0) whole ∙ recovered-empty st c d h

    whole-Holds : Holds st c (stopped_recovery st d k)
    whole-Holds = record {
      few = omega (arith, zero_left);
      homes = λ j q. absurd (omega (arith, zero_left));
      copied = λ j q. absurd (omega (arith, zero_left));
    }

    whole_recovers :
        (b : ℕ)
        → IsHome st b
        → (d b ≡ c b) ⊎ Listed st d b
        → (initlog st (boot (stopped_recovery st d k))).disk b ≡ c b
    whole_recovers b hb hl =
        recovered st c (stopped_recovery st d k) whole-Holds b hb
          (inl (ap (λ x. x b) whole ∙ recovered st c d h b hb hl))

  -- Let the device hold a log that stands for the blocks of `c`, and let the machine crash after the
  -- first k writes of recovery. The recovery at the next start still leaves `c b` in every home block
  -- b that is listed in the log or was right before: recovery can be interrupted and started again.
  pub recovery_restarts :
      (b : ℕ)
      → IsHome st b
      → (d b ≡ c b) ⊎ Listed st d b
      → (initlog st (boot (stopped_recovery st d k))).disk b ≡ c b
  recovery_restarts b hb hl = elim (dec_lt (d st 0) k) [
    | yes past ↦ whole_recovers past b hb hl
    | no within ↦ partly_recovers (omega arith) b hb hl
  ]
