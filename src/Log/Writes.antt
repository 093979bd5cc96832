-- ===== src/Log/Writes.antt =====
-- Sequences of device writes, and those that each phase of kernel/log.c makes.
use eafitos.Base.{
  ℕ, ◌+◌, ◌≡◌, ◌≢◌, refl, ap, ◌∙◌, ◌⊎◌, inl, inr, Bool, true, false, List, [], ◌∷◌, ◌++◌,
  append_assoc, append-nil, update, update_self, update_ne, update_cases, sym,
}
use eafitos.Log.{
  Block, Disk, Write, Log, modify, bwrite, install_one, log_one, write_head, head_block,
}

-- The disk after a sequence of writes.
abbrev pub apply : Disk → List Write → Disk
apply d [] = d
apply d ((b, v) ∷ ws) = apply (update d b v) ws

pub apply-append : (d : Disk) (ws us : List Write) → apply d (ws ++ us) ≡ apply (apply d ws) us
apply-append d [] us = refl
apply-append d ((b, v) ∷ ws) us = apply-append (update d b v) ws us

abbrev pub Avoids : ℕ → List Write → Type 0
Avoids b [] = Unit {0}
Avoids b ((a, v) ∷ ws) = (b ≢ a) × Avoids b ws

abbrev pub Touches : ℕ → List Write → Type 0
Touches b [] = ⊥
Touches b ((a, v) ∷ ws) = (b ≡ a) ⊎ Touches b ws

-- Every write carries what `c` holds.
abbrev pub Carries : Disk → List Write → Type 0
Carries c [] = Unit {0}
Carries c ((a, v) ∷ ws) = (v ≡ c a) × Carries c ws

pub apply-Avoids : (d : Disk) (ws : List Write) (b : ℕ) → Avoids b ws → apply d ws b ≡ d b
apply-Avoids d [] b h = refl
apply-Avoids d ((a, v) ∷ ws) b h = apply-Avoids (update d a v) ws b h.1 ∙ update_ne d a v b h.0

-- Where every write carries what `c` holds, a block that `d` has right, or that is written, ends right.
pub apply-Carries :
    (c d : Disk) (ws : List Write) (b : ℕ)
    → Carries c ws
    → (d b ≡ c b) ⊎ Touches b ws
    → apply d ws b ≡ c b
apply-Carries c d [] b h (inl e) = e
apply-Carries c d [] b h (inr e) = absurd e
apply-Carries c d ((a, v) ∷ ws) b h (inr (inr t)) = apply-Carries c (update d a v) ws b h.1 (inr t)
apply-Carries c d ((a, v) ∷ ws) b h (inr (inl e)) =
    apply-Carries c (update d a v) ws b h.1 (inl (rw e (update_self d a v ∙ h.0)))
apply-Carries c d ((a, v) ∷ ws) b h (inl e) =
    apply-Carries c (update d a v) ws b h.1 (inl (keep (update_cases d a v b)))
  where
    keep :
        ((b ≡ a) × (update d a v b ≡ v)) ⊎ ((b ≢ a) × (update d a v b ≡ d b)) → update d a v b ≡ c b
    keep (inl (f, u)) = u ∙ h.0 ∙ ap c (sym f)
    keep (inr (_, u)) = u ∙ e

-- From `s` to `t` the device writes `ws` were made, of blocks that were changed in the cache alike.
pub record Issues (s t : Log) (ws : List Write) : Type 0 where
  pub issued : t.issued ≡ s.issued ++ ws
  pub disk : t.disk ≡ apply s.disk ws
  pub cache : t.cache ≡ apply s.cache ws
  pub start : t.start ≡ s.start
  pub outstanding : t.outstanding ≡ s.outstanding
  pub lh : t.lh ≡ s.lh

pub Issues-refl : (s : Log) → Issues s s []
Issues-refl s = record {
  issued = sym (append-nil s.issued);
  disk = refl;
  cache = refl;
  start = refl;
  outstanding = refl;
  lh = refl;
}

pub Issues-trans :
    {s t u : Log} {ws us : List Write} → Issues s t ws → Issues t u us → Issues s u (ws ++ us)
Issues-trans {s} {t} {u} {ws} {us} p q = record {
  issued = q.issued ∙ ap (λ l. l ++ us) p.issued ∙ append_assoc s.issued ws us;
  disk = q.disk ∙ ap (λ d. apply d us) p.disk ∙ sym (apply-append s.disk ws us);
  cache = q.cache ∙ ap (λ d. apply d us) p.cache ∙ sym (apply-append s.cache ws us);
  start = q.start ∙ p.start;
  outstanding = q.outstanding ∙ p.outstanding;
  lh = q.lh ∙ p.lh;
}

-- `memmove(bp->data, v, BSIZE); bwrite(bp);`
pub Issues-bwrite : (s : Log) (b : ℕ) (v : Block) → Issues s (bwrite (modify s b v) b) ((b, v) ∷ [])
unfolding bwrite
Issues-bwrite s b v = record {
  issued = ap (λ w. s.issued ++ (b, w) ∷ []) (update_self s.cache b v);
  disk = ap (update s.disk b) (update_self s.cache b v);
  cache = refl;
  start = refl;
  outstanding = refl;
  lh = refl;
}

pub Issues-log_one :
    (s : Log) (i : ℕ) → Issues s (log_one s i) ((s.start + i + 1, s.cache (s.lh.block i)) ∷ [])
unfolding log_one
Issues-log_one s i = Issues-bwrite s (s.start + i + 1) (s.cache (s.lh.block i))

pub Issues-install_one :
    (r : Bool) (s : Log) (i : ℕ)
    → Issues s (install_one r s i) ((s.lh.block i, s.cache (s.start + i + 1)) ∷ [])
unfolding install_one
Issues-install_one true s i = Issues-bwrite s (s.lh.block i) (s.cache (s.start + i + 1))
Issues-install_one false s i =
    let p = Issues-bwrite s (s.lh.block i) (s.cache (s.start + i + 1)) in
    record {
      issued = p.issued;
      disk = p.disk;
      cache = p.cache;
      start = refl;
      outstanding = refl;
      lh = refl;
    }

pub Issues-write_head :
    (s : Log) → Issues s (write_head s) ((s.start, head_block s.lh (s.cache s.start)) ∷ [])
unfolding write_head
Issues-write_head s = Issues-bwrite s s.start (head_block s.lh (s.cache s.start))
