-- ===== src/Pipe/Fifo.antt =====
-- Writers and readers of one pipe, in any order.
use eafitos.Base.{
  ℕ, suc, ◌+◌, ◌-◌, ◌%◌, ◌^◌, ◌≡◌, refl, ap, ◌∙◌, sym, subst, List, [], ◌∷◌, ◌++◌, arith, length,
  ◌⊎◌, inl, inr, Bool, true, false, Option, some, append_assoc, append-nil, length-append,
  Bool-cases, ◌==◌, not, ◌&&◌, ◌||◌,
}
use eafitos.Pipe.{
  Pipe, pipealloc, Outcome, fails, write_loop, read_loop, piperead, pipeclose, wakes_readers, full,
  push,
}
use eafitos.Pipe.Window.{held, contents, IsValid, length-window}
use eafitos.Pipe.Write.{Wrote, write_loop-Wrote, Reads, contents-push}
use eafitos.Pipe.Read.{Took, read_loop-Took}

-- A pipe with what has been copied in from writers and out to readers, oldest first.
pub record Traffic : Type 0 where
  pub pipe : Pipe
  pub sent : List ℕ
  pub received : List ℕ

-- A run of a write, a read or a close. The bytes that a write has sent are those of the user's buffer
-- from its round on, as many as the write counter has moved.
pub data Step (s t : Traffic) : Type 0 where
  write :
      (copyin : ℕ → Option ℕ) (killed : ℕ → Bool) (addr i k : ℕ) (bytes : List ℕ)
      → Reads copyin (addr + i) bytes
      → length bytes
        ≡ ((write_loop copyin killed addr i k s.pipe).1.nwrite + 2 ^ 32 - s.pipe.nwrite) % 2 ^ 32
      → t ≡ record s { pipe = (write_loop copyin killed addr i k s.pipe).1; sent = s.sent ++ bytes }
      → Step s t
  read :
      (copyout : ℕ → ℕ → Bool) (killed : Bool) (addr n : ℕ)
      → t ≡ record s {
        pipe = (piperead copyout addr killed n s.pipe).2;
        received = s.received ++ (piperead copyout addr killed n s.pipe).1;
      }
      → Step s t
  close : (writable : Bool) → t ≡ record s { pipe = (pipeclose s.pipe writable).0 } → Step s t

pub data Reach (s : Traffic) : Traffic → Type 0 where
  here : Reach s s
  next : {t u : Traffic} → Reach s t → Step t u → Reach s u

pub record Inv (s : Traffic) : Type 0 where
  pub valid : IsValid s.pipe
  pub order : s.sent ≡ s.received ++ contents s.pipe

some_inj : {a b : ℕ} → some a ≡ some b → a ≡ b
some_inj e = cc

Reads-unique :
    (copyin : ℕ → Option ℕ) (a : ℕ) (xs ys : List ℕ)
    → Reads copyin a xs
    → Reads copyin a ys
    → length xs ≡ length ys
    → xs ≡ ys
Reads-unique copyin a [] [] p q e = refl
Reads-unique copyin a [] (y ∷ ys) p q e = absurd (omega arith)
Reads-unique copyin a (x ∷ xs) [] p q e = absurd (omega arith)
Reads-unique copyin a (x ∷ xs) (y ∷ ys) p q e =
    λ i. some_inj (sym p.0 ∙ q.0) i ∷ Reads-unique copyin (a + 1) xs ys p.1 q.1 (omega arith) i

-- The write counter moves by the number of bytes appended.
counter_moves :
    (p q : Pipe) (bytes : List ℕ)
    → IsValid p
    → IsValid q
    → q.nread ≡ p.nread
    → contents q ≡ contents p ++ bytes
    → length bytes ≡ (q.nwrite + 2 ^ 32 - p.nwrite) % 2 ^ 32
counter_moves p q bytes v w e h = omega (
  arith,
  ap length h,
  length-append (contents p) bytes,
  length-window p.data_at p.nread (held p),
  length-window q.data_at q.nread (held q),
)

write-Inv :
    (s : Traffic) (copyin : ℕ → Option ℕ) (killed : ℕ → Bool) (addr i k : ℕ) (bytes : List ℕ)
    (o : Outcome) (q : Pipe)
    → Inv s
    → Wrote copyin killed addr i k s.pipe o q
    → Reads copyin (addr + i) bytes
    → length bytes ≡ (q.nwrite + 2 ^ 32 - s.pipe.nwrite) % 2 ^ 32
    → Inv (record s { pipe = q; sent = s.sent ++ bytes })
write-Inv s copyin killed addr i k bytes o q v w src e = record {
  valid = w.valid;
  order =
      ap (λ l. l ++ bytes) v.order
      ∙ append_assoc s.received (contents s.pipe) bytes
      ∙ ap (λ l. s.received ++ (contents s.pipe ++ l)) same
      ∙ ap (λ l. s.received ++ l) (sym w.bytes);
}
  where
    same : bytes ≡ w.sent
    same =
        Reads-unique copyin (addr + i) bytes w.sent src w.source
          (e ∙ sym (counter_moves s.pipe q w.sent v.valid w.valid w.readers.0 w.bytes))

-- A run of `piperead` that copies nothing, or its loop.
piperead_cases :
    (copyout : ℕ → ℕ → Bool) (addr : ℕ) (killed : Bool) (n : ℕ) (p : Pipe)
    → (((piperead copyout addr killed n p).1 ≡ []) × ((piperead copyout addr killed n p).2 ≡ p))
      ⊎ (piperead copyout addr killed n p ≡ read_loop copyout addr 0 n p)
unfolding piperead
piperead_cases copyout addr killed n p = elim (Bool-cases (p.nread == p.nwrite && p.writeopen)) [
  | inl e ↦ elim (Bool-cases killed) [
    | inl k ↦ rw (e, k) (inl (refl, refl))
    | inr k ↦ rw (e, k) (inl (refl, refl))
  ]
  | inr e ↦ rw e (inr refl)
]

read-Inv :
    (s : Traffic) (copyout : ℕ → ℕ → Bool) (addr : ℕ) (killed : Bool) (n : ℕ)
    → Inv s
    → Inv (record s {
      pipe = (piperead copyout addr killed n s.pipe).2;
      received = s.received ++ (piperead copyout addr killed n s.pipe).1;
    })
read-Inv s copyout addr killed n v = elim (piperead_cases copyout addr killed n s.pipe) [
  | inl (e, f) ↦ rw (e, f, append-nil) (record { valid = v.valid; order = v.order })
  | inr e ↦ rw e (record {
    valid = took.valid;
    order =
        v.order
        ∙ ap (λ l. s.received ++ l) took.bytes
        ∙ sym (append_assoc s.received _ (contents (read_loop copyout addr 0 n s.pipe).2));
  })
]
  where
    took :
        Took copyout addr 0 n s.pipe
          (read_loop copyout addr 0 n s.pipe).0
          (read_loop copyout addr 0 n s.pipe).1
          (read_loop copyout addr 0 n s.pipe).2
    took = read_loop-Took copyout addr 0 n s.pipe v.valid

close-Inv :
    (s : Traffic) (writable : Bool)
    → Inv s
    → Inv (record s { pipe = (pipeclose s.pipe writable).0 })
unfolding pipeclose
close-Inv s true v = record { valid = omega (arith, v.valid); order = v.order }
close-Inv s false v = record { valid = omega (arith, v.valid); order = v.order }

Step-Inv : {s t : Traffic} → Step s t → Inv s → Inv t
Step-Inv {s} (write copyin killed addr i k bytes src e r) v = subst Inv (sym r) (
    write-Inv s copyin killed addr i k bytes _ _ v
      (write_loop-Wrote copyin killed addr i k s.pipe v.valid) src e)
Step-Inv {s} (read copyout killed addr n r) v =
    subst Inv (sym r) (read-Inv s copyout addr killed n v)
Step-Inv {s} (close writable r) v = subst Inv (sym r) (close-Inv s writable v)

-- Through any sequence of runs of writers, readers and closes, wrap-arounds of the counters included,
-- the pipe stays valid, and the bytes sent are those received followed by those in the pipe: no byte
-- is lost, doubled or overtaken.
pub Traffic-Inv : {s t : Traffic} → Inv s → Reach s t → Inv t
Traffic-Inv v here = v
Traffic-Inv v (next r st) = Step-Inv st (Traffic-Inv v r)

pub pipealloc-Inv :
    (page : ℕ → ℕ) → Inv (record { pipe = pipealloc page; sent = []; received = [] })
unfolding pipealloc
pipealloc-Inv page = record { valid = omega arith; order = refl }

-- A writer that is killed between two bytes returns without a wakeup: on an empty pipe, where a
-- reader may be asleep, the first byte is left in the pipe and no reader is woken.
pub killed_writer_wakes_nobody :
    (copyin : ℕ → Option ℕ) (killed : ℕ → Bool) (addr k c : ℕ) (p : Pipe)
    → IsValid p
    → contents p ≡ []
    → p.readopen ≡ true
    → copyin (addr + 0) ≡ some c
    → killed 0 ≡ false
    → killed 1 ≡ true
    → let (o, q) = write_loop copyin killed addr 0 (suc (suc k)) p in
      (contents q ≡ c ∷ []) × (o ≡ fails) × (wakes_readers o ≡ false)
unfolding write_loop wakes_readers
killed_writer_wakes_nobody copyin killed addr k c p v z ro e k0 k1 =
    rw (ro, k0, not_full, e, write_loop) (rw (again, write_loop) (held_now, refl, refl))
  where
    nothing_held : held p ≡ 0
    nothing_held = sym (length-window p.data_at p.nread (held p)) ∙ ap length z

    not_full : full p ≡ false
    not_full = unfold full in ground (arith, nothing_held)

    again : (not (push p c).readopen || killed (0 + 1)) ≡ true
    again = unfold push in ground arith

    held_now : contents (push p c) ≡ c ∷ []
    held_now = contents-push p c v (omega (arith, nothing_held)) ∙ ap (λ l. l ++ c ∷ []) z
