-- ===== src/Pipe/Read.antt =====
-- Runs of `piperead` take from the front of the bytes that the pipe holds.
use eafitos.Base.{
  ℕ, zero, suc, ◌+◌, ◌%◌, ◌<◌, ◌≡◌, ◌≢◌, refl, ap, ◌∙◌, subst, List, [], ◌∷◌, ◌++◌, arith, length,
  ◌⊎◌, inl, inr, if◌then◌else◌, Bool, true, false, Bool-cases, ◌==◌, ne_of_==, ==_iff,
}
use eafitos.Pipe.{Pipe, pipe_size, u32, Outcome, returns, fails, sleeps, read_loop}
use eafitos.Pipe.Window.{window, held, contents, IsValid}

-- The bytes were accepted by `copyout` for the addresses from a on.
abbrev pub Accepts : (ℕ → ℕ → Bool) → ℕ → List ℕ → Type 0
Accepts copyout a [] = Unit {0}
Accepts copyout a (c ∷ cs) = (copyout a c ≡ true) × Accepts copyout (a + 1) cs

pop-held :
    (p : Pipe)
    → IsValid p
    → p.nread ≢ p.nwrite
    → held p ≡ suc (held (record p { nread = u32 (p.nread + 1) }))
pop-held p v h = omega arith

pop-IsValid :
    (p : Pipe) → IsValid p → p.nread ≢ p.nwrite → IsValid (record p { nread = u32 (p.nread + 1) })
pop-IsValid p v h = omega arith

contents-pop :
    (p : Pipe)
    → IsValid p
    → p.nread ≢ p.nwrite
    → contents p
      ≡ p.data_at (p.nread % pipe_size) ∷ contents (record p { nread = u32 (p.nread + 1) })
contents-pop p v h = ap (window p.data_at p.nread) (pop-held p v h)

pub contents_empty : (p : Pipe) → p.nread ≡ p.nwrite → contents p ≡ []
contents_empty p e = let z : held p ≡ 0 = omega arith in ap (window p.data_at p.nread) z

module _ (copyout : ℕ → ℕ → Bool) (addr : ℕ) where
  -- Why the copying loop of `piperead` from round i with k bytes asked for ends after m bytes.
  abbrev pub ReadEnds : ℕ → ℕ → ℕ → Pipe → Outcome → Type 0
  ReadEnds i k m p (returns j) =
      (j ≡ i + m)
      × ((m ≡ k)
          ⊎ ((m < k) × (contents p ≡ []))
          ⊎ ((m < k) × (0 < j) × (copyout (addr + j) (p.data_at (p.nread % pipe_size)) ≡ false)))
  ReadEnds i k m p fails =
      (i ≡ 0) × (m ≡ 0) × (copyout addr (p.data_at (p.nread % pipe_size)) ≡ false)
  ReadEnds i k m p (sleeps j) = ⊥

  -- What the loop has done: it has taken bytes off the front of the pipe.
  pub record Took (i k : ℕ) (p : Pipe) (o : Outcome) (out : List ℕ) (q : Pipe) : Type 0 where
    pub accepted : Accepts copyout (addr + i) out
    pub valid : IsValid q
    pub bytes : contents p ≡ out ++ contents q
    pub writers : (q.nwrite ≡ p.nwrite) × (q.readopen ≡ p.readopen) × (q.writeopen ≡ p.writeopen)
    pub ends : ReadEnds i k (length out) q o

  stays : (i k : ℕ) (p : Pipe) (o : Outcome) → IsValid p → ReadEnds i k 0 p o → Took i k p o [] p
  stays i k p o v e = record {
    accepted = tt;
    valid = v;
    bytes = refl;
    writers = (refl, refl, refl);
    ends = e;
  }

  ended :
      (i k m : ℕ) (q : Pipe) (o : Outcome)
      → ReadEnds (i + 1) k m q o
      → ReadEnds i (suc k) (suc m) q o
  ended i k m q (returns j) e = ground arith
  ended i k m q fails e = absurd (omega (arith, e.0))
  ended i k m q (sleeps j) e = e

  refused :
      (i k : ℕ) (p : Pipe)
      → copyout (addr + i) (p.data_at (p.nread % pipe_size)) ≡ false
      → ReadEnds i (suc k) 0 p (if i == 0 then fails else returns i)
  refused zero k p e =
      let a : addr + 0 ≡ addr = omega arith in
      (refl, refl, subst (λ x. copyout x (p.data_at (p.nread % pipe_size)) ≡ false) a e)
  refused (suc i) k p e =
      let more : (suc i == 0) ≡ false = ground arith in
      rw more (omega arith, inr (inr (omega arith, omega arith, e)))

  taken :
      (i k : ℕ) (p q : Pipe) (o : Outcome) (out : List ℕ)
      → IsValid p
      → p.nread ≢ p.nwrite
      → copyout (addr + i) (p.data_at (p.nread % pipe_size)) ≡ true
      → Took (i + 1) k (record p { nread = u32 (p.nread + 1) }) o out q
      → Took i (suc k) p o (p.data_at (p.nread % pipe_size) ∷ out) q
  taken i k p q o out v ne e t = record {
    accepted = (e, subst (λ a. Accepts copyout a out) (omega arith) t.accepted);
    valid = t.valid;
    bytes = contents-pop p v ne ∙ ap (λ l. p.data_at (p.nread % pipe_size) ∷ l) t.bytes;
    writers = t.writers;
    ends = ended i k (length out) q o t.ends;
  }

  -- The loop of `piperead` keeps the pipe valid and takes bytes off it, oldest first, for `copyout`.
  -- It stops when enough are copied, the pipe is empty, or `copyout` fails; the call fails if that is
  -- at the first byte, which then stays in the pipe.
  pub read_loop-Took :
      (i k : ℕ) (p : Pipe)
      → IsValid p
      → let (o, out, q) = read_loop copyout addr i k p in Took i k p o out q
  unfolding read_loop
  read_loop-Took i zero p v = stays i zero p (returns i) v (omega arith, inl refl)
  read_loop-Took i (suc k) p v = elim (Bool-cases (p.nread == p.nwrite)) [
    | inl e ↦
        rw (e, read_loop)
          (stays i (suc k) p (returns i) v (
            omega arith,
            inr (inl (omega arith, contents_empty p ((==_iff p.nread p.nwrite).0 e))),
          ))
    | inr ne ↦ elim (Bool-cases (copyout (addr + i) (p.data_at (p.nread % pipe_size)))) [
      | inr bad ↦ rw (ne, bad, read_loop) (stays i (suc k) p _ v (refused i k p bad))
      | inl good ↦
          rw (ne, good, read_loop)
            (taken i k p _ _ _ v (ne_of_== p.nread p.nwrite ne) good (
              read_loop-Took (i + 1) k (record p { nread = u32 (p.nread + 1) })
                (pop-IsValid p v (ne_of_== p.nread p.nwrite ne))))
    ]
  ]
