-- ===== src/Pipe/Write.antt =====
-- Runs of `pipewrite` append to the bytes that the pipe holds.
use eafitos.Base.{
  ℕ, zero, suc, ◌+◌, ◌<◌, ◌≡◌, refl, ap, ◌∙◌, sym, subst, List, [], ◌∷◌, ◌++◌, arith, length, ◌⊎◌,
  inl, inr, Bool, true, false, Option, none, some, append_assoc, append-nil, Bool-cases,
  Option-cases, not, ◌||◌,
}
use eafitos.Pipe.{Pipe, pipe_size, push, full, Outcome, returns, fails, sleeps, write_loop}
use eafitos.Pipe.Window.{window, held, contents, IsValid, window-update, full_iff, not-full}

module _ (p : Pipe) (c : ℕ) (v : IsValid p) (h : held p < pipe_size) where
  pub push-held : held (push p c) ≡ suc (held p)
  unfolding push
  push-held = omega arith

  pub push-IsValid : IsValid (push p c)
  unfolding push
  push-IsValid = omega arith

  pub contents-push : contents (push p c) ≡ contents p ++ c ∷ []
  contents-push = ap (window (push p c).data_at (push p c).nread) push-held ∙ unfolded
    where
      unfolded : window (push p c).data_at (push p c).nread (suc (held p)) ≡ contents p ++ c ∷ []
      unfolded =
          unfold push in
          window-update p.data_at c p.nread (held p) p.nwrite h v.read_fits (omega arith)

-- The bytes are those that `copyin` reads from address a on.
abbrev pub Reads : (ℕ → Option ℕ) → ℕ → List ℕ → Type 0
Reads copyin a [] = Unit {0}
Reads copyin a (c ∷ cs) = (copyin a ≡ some c) × Reads copyin (a + 1) cs

module _ (copyin : ℕ → Option ℕ) (killed : ℕ → Bool) (addr : ℕ) where
  -- Why a run of `pipewrite` from round i with k bytes left ends after m bytes.
  abbrev pub WriteEnds : ℕ → ℕ → ℕ → Pipe → Outcome → Type 0
  WriteEnds i k m p (returns j) = (j ≡ i + m) × ((m ≡ k) ⊎ ((m < k) × (copyin (addr + j) ≡ none)))
  WriteEnds i k m p fails = (m < k) × ((p.readopen ≡ false) ⊎ (killed (i + m) ≡ true))
  WriteEnds i k m p (sleeps j) = (j ≡ i + m) × (m < k) × (held p ≡ pipe_size) × (p.readopen ≡ true)

  -- What a run has done: it has appended bytes of the user's buffer to the pipe.
  pub record Wrote (i k : ℕ) (p : Pipe) (o : Outcome) (q : Pipe) : Type 0 where
    pub sent : List ℕ
    pub source : Reads copyin (addr + i) sent
    pub valid : IsValid q
    pub bytes : contents q ≡ contents p ++ sent
    pub readers : (q.nread ≡ p.nread) × (q.readopen ≡ p.readopen) × (q.writeopen ≡ p.writeopen)
    pub ends : WriteEnds i k (length sent) q o

  nothing : (i k : ℕ) (p : Pipe) (o : Outcome) → IsValid p → WriteEnds i k 0 p o → Wrote i k p o p
  nothing i k p o v e = record {
    sent = [];
    source = tt;
    valid = v;
    bytes = sym (append-nil (contents p));
    readers = (refl, refl, refl);
    ends = e;
  }

  later :
      (i k m : ℕ) (q : Pipe) (o : Outcome)
      → WriteEnds (i + 1) k m q o
      → WriteEnds i (suc k) (suc m) q o
  later i k m q (returns j) e = ground arith
  later i k m q (sleeps j) e = ground arith
  later i k m q fails (h, inl closed) = (omega arith, inl closed)
  later i k m q fails (h, inr dead) =
      (omega arith, inr (subst (λ x. killed x ≡ true) (omega arith) dead))

  one_more :
      (i k c : ℕ) (p q : Pipe) (o : Outcome)
      → IsValid p
      → held p < pipe_size
      → copyin (addr + i) ≡ some c
      → Wrote (i + 1) k (push p c) o q
      → Wrote i (suc k) p o q
  unfolding push
  one_more i k c p q o v h e w = record {
    sent = c ∷ w.sent;
    source = (e, subst (λ a. Reads copyin a w.sent) (omega arith) w.source);
    valid = w.valid;
    bytes =
        w.bytes
        ∙ ap (λ l. l ++ w.sent) (contents-push p c v h)
        ∙ append_assoc (contents p) (c ∷ []) w.sent;
    readers = w.readers;
    ends = later i k (length w.sent) q o w.ends;
  }

  blocked :
      (p : Pipe) (i : ℕ)
      → (not p.readopen || killed i) ≡ true
      → (p.readopen ≡ false) ⊎ (killed (i + 0) ≡ true)
  blocked p i h = elim (Bool-cases p.readopen) [
    | inl open_end ↦
        let e : i ≡ i + 0 = omega arith in
        let dead : killed i ≡ true = ground (arith, open_end) in
        inr (subst (λ x. killed x ≡ true) e dead)
    | inr closed ↦ inl closed
  ]

  not_closed : (p : Pipe) (i : ℕ) → (not p.readopen || killed i) ≡ false → p.readopen ≡ true
  not_closed p i h = ground arith

  -- A run of `pipewrite` keeps the pipe valid and appends to it, in order, the next bytes of the
  -- user's buffer. It returns when all are written or `copyin` fails, fails when the read end is
  -- closed or the process is killed, and sleeps only on a full pipe with an open read end.
  pub write_loop-Wrote :
      (i k : ℕ) (p : Pipe)
      → IsValid p
      → let (o, q) = write_loop copyin killed addr i k p in Wrote i k p o q
  unfolding write_loop
  write_loop-Wrote i zero p v = nothing i zero p (returns i) v (omega arith, inl refl)
  write_loop-Wrote i (suc k) p v = elim (Bool-cases (not p.readopen || killed i)) [
    | inl stop ↦ rw (stop, write_loop) (nothing i (suc k) p fails v (omega arith, blocked p i stop))
    | inr on ↦ elim (Bool-cases (full p)) [
      | inl f ↦
          rw (on, f, write_loop)
            (nothing i (suc k) p (sleeps i) v
              (omega arith, omega arith, full_iff p v f, not_closed p i on))
      | inr g ↦ elim (Option-cases (copyin (addr + i))) [
        | inl n ↦
            rw (on, g, n, write_loop)
              (nothing i (suc k) p (returns i) v (omega arith, inr (omega arith, n)))
        | inr (c, e) ↦
            rw (on, g, e, write_loop)
              (one_more i k c p _ _ v (not-full p v g) e
                (write_loop-Wrote (i + 1) k (push p c) (push-IsValid p c v (not-full p v g))))
      ]
    ]
  ]
