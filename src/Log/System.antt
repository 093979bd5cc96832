-- ===== src/Log/System.antt =====
-- The log under file system operations that run side by side.
use eafitos.Base.{
  ℕ, zero, suc, ◌+◌, ◌-◌, ◌*◌, ◌≤◌, ◌<◌, ◌≡◌, ◌⊎◌, Bool, true, false, some, arith, sym, ◌∙◌, ap,
  List, [], ◌∷◌, ◌++◌, length, length-append, subst, ◌==◌, Bool-cases,
}
use eafitos.Log.{Block, Log, max_op_blocks, log_blocks, modify, commit}
use eafitos.Log.Phases.{IsHome}
use eafitos.Log.Commit.{Ready, start-commit, outstanding-commit}
use eafitos.Log.Crash.{commit_done, commit-cache}
use eafitos.Log.Ops.{begin_op, log_write, end_op, finish_op, ok, Logged, log_write-Logged}

-- `ops` has an entry for each operation between its `begin_op` and its `end_op`: how many more blocks
-- it may add to the log.
pub record System : Type 0 where
  pub log : Log
  pub ops : List ℕ

-- One critical section of one of the processes.
pub data Step (s t : System) : Type 0 where
  begin :
      {l : Log}
      → begin_op s.log ≡ some l
      → t ≡ record { log = l; ops = max_op_blocks ∷ s.ops }
      → Step s t
  write :
      (before after : List ℕ) (k k' b : ℕ) (v : Block) {l : Log}
      → s.ops ≡ before ++ (suc k ∷ after)
      → IsHome s.log.start b
      → log_write (modify s.log b v) b ≡ ok l
      → ((l.lh.n ≡ s.log.lh.n) × (k' ≡ suc k)) ⊎ ((l.lh.n ≡ s.log.lh.n + 1) × (k' ≡ k))
      → t ≡ record { log = l; ops = before ++ (k' ∷ after) }
      → Step s t
  end :
      (before after : List ℕ) (k : ℕ) {l : Log} {last : Bool}
      → s.ops ≡ before ++ (k ∷ after)
      → end_op s.log ≡ ok (l, last)
      → t ≡ record { log = l; ops = before ++ after }
      → Step s t
  finish : s.log.committing ≡ true → t ≡ record { log = finish_op s.log; ops = s.ops } → Step s t

pub data Reach (s : System) : System → Type 0 where
  here : Reach s s
  next : {t u : System} → Reach s t → Step t u → Reach s u

abbrev pub sum : List ℕ → ℕ
sum [] = 0
sum (k ∷ ks) = k + sum ks

sum-append : (ks ls : List ℕ) → sum (ks ++ ls) ≡ sum ks + sum ls
sum-append [] ls = omega arith
sum-append (k ∷ ks) ls = omega (arith, sum-append ks ls)

abbrev Few : List ℕ → Type 0
Few [] = Unit {0}
Few (k ∷ ks) = (k ≤ max_op_blocks) × Few ks

Few-append : (ks ls : List ℕ) → Few ks → Few ls → Few (ks ++ ls)
Few-append [] ls p q = q
Few-append (k ∷ ks) ls p q = (p.0, Few-append ks ls p.1 q)

Few-left : (ks ls : List ℕ) → Few (ks ++ ls) → Few ks
Few-left [] ls p = tt
Few-left (k ∷ ks) ls p = (p.0, Few-left ks ls p.1)

Few-right : (ks ls : List ℕ) → Few (ks ++ ls) → Few ls
Few-right [] ls p = p
Few-right (k ∷ ks) ls p = Few-right ks ls p.1

sum-Few : (ks : List ℕ) → Few ks → sum ks ≤ length ks * max_op_blocks
sum-Few [] p = omega arith
sum-Few (k ∷ ks) p = omega (arith, sum-Few ks p.1)

-- Operations in progress are counted, what they may still add fits the log, nothing is in progress
-- during a commit, and the transaction can be committed.
pub record Inv (s : System) : Type 0 where
  pub count : s.log.outstanding ≡ length s.ops
  pub few : Few s.ops
  pub room : s.log.lh.n + sum s.ops ≤ log_blocks
  pub calm : s.log.committing ≡ true → s.log.outstanding ≡ 0
  pub ready : Ready s.log

begin_op_lem :
    (s : Log) {l : Log}
    → begin_op s ≡ some l
    → (s.committing ≡ false)
      × (s.lh.n + (s.outstanding + 1) * max_op_blocks ≤ log_blocks)
      × (record s { outstanding = s.outstanding + 1 } ≡ l)
unfolding begin_op
begin_op_lem s e = ground arith

end_op_lem :
    (s : Log) {l : Log} {last : Bool}
    → end_op s ≡ ok (l, last)
    → (0 < s.outstanding)
      × (s.committing ≡ false)
      × (record s { outstanding = s.outstanding - 1; committing = last } ≡ l)
      × (last ≡ true → s.outstanding ≡ 1)
unfolding end_op
end_op_lem s e = ground arith

begin-Inv :
    {s : System} {l : Log}
    → Inv s
    → begin_op s.log ≡ some l
    → Inv (record { log = l; ops = max_op_blocks ∷ s.ops })
begin-Inv {s} {l} v e =
    subst (λ m. Inv (record { log = m; ops = max_op_blocks ∷ s.ops })) (begin_op_lem s.log e).2
      (record {
        count = omega (arith, v.count);
        few = (omega arith, v.few);
        room = omega (arith, sum-Few s.ops v.few, (begin_op_lem s.log e).1, v.count);
        calm = λ p. absurd (cc (p, (begin_op_lem s.log e).0));
        ready = record {
          few = v.ready.few;
          homes = v.ready.homes;
          clean = v.ready.clean;
          empty = v.ready.empty;
        };
      })

end-Inv :
    {s : System} {l : Log} {last : Bool} (before after : List ℕ) (k : ℕ)
    → Inv s
    → s.ops ≡ before ++ (k ∷ after)
    → end_op s.log ≡ ok (l, last)
    → Inv (record { log = l; ops = before ++ after })
end-Inv {s} {l} {last} before after k v split e =
    subst (λ m. Inv (record { log = m; ops = before ++ after })) (end_op_lem s.log e).2
      (record {
        count = omega (
          arith,
          v.count,
          ap length split,
          length-append before (k ∷ after),
          length-append before after,
        );
        few =
            Few-append before after (Few-left before (k ∷ after) all)
              (Few-right before (k ∷ after) all).1;
        room =
            omega
              (arith, v.room, ap sum split, sum-append before (k ∷ after), sum-append before after);
        calm = λ p. omega (arith, (end_op_lem s.log e).3 p);
        ready = record {
          few = v.ready.few;
          homes = v.ready.homes;
          clean = v.ready.clean;
          empty = v.ready.empty;
        };
      })
  where
    all : Few (before ++ (k ∷ after))
    all = subst Few split v.few

-- Where an operation may still add a block, the log has room and counts the operation.
room_left :
    {s : System} (before after : List ℕ) (k : ℕ)
    → Inv s
    → s.ops ≡ before ++ (suc k ∷ after)
    → (s.log.lh.n < log_blocks) × (0 < s.log.outstanding)
room_left before after k v split = (
  omega (arith, v.room, ap sum split, sum-append before (suc k ∷ after)),
  omega (arith, v.count, ap length split, length-append before (suc k ∷ after)),
)

ok_inj : {a b : Log} → ok a ≡ ok b → a ≡ b
ok_inj e = cc

write-Inv :
    {s : System} {l : Log} (before after : List ℕ) (k k' b : ℕ) (v : Block)
    → Inv s
    → s.ops ≡ before ++ (suc k ∷ after)
    → IsHome s.log.start b
    → log_write (modify s.log b v) b ≡ ok l
    → ((l.lh.n ≡ s.log.lh.n) × (k' ≡ suc k)) ⊎ ((l.lh.n ≡ s.log.lh.n + 1) × (k' ≡ k))
    → Inv (record { log = l; ops = before ++ (k' ∷ after) })
write-Inv {s} {l} before after k k' b v inv split home e spent = record {
  count = omega (
    arith,
    inv.count,
    logged.outstanding,
    ap length split,
    length-append before (suc k ∷ after),
    length-append before (k' ∷ after),
  );
  few = Few-append before (k' ∷ after) (Few-left before (suc k ∷ after) all) (
    omega (arith, (Few-right before (suc k ∷ after) all).0),
    (Few-right before (suc k ∷ after) all).1,
  );
  room = omega (
    arith,
    inv.room,
    ap sum split,
    sum-append before (suc k ∷ after),
    sum-append before (k' ∷ after),
  );
  calm = λ p. logged.outstanding ∙ inv.calm (sym logged.committing ∙ p);
  ready = logged.ready;
}
  where
    all : Few (before ++ (suc k ∷ after))
    all = subst Few split inv.few

    done : (t : Log) × (log_write (modify s.log b v) b ≡ ok t) × Logged s.log inv.ready b v home t
    done =
        log_write-Logged s.log inv.ready b v home (room_left before after k inv split).0
          (room_left before after k inv split).1

    logged : Logged s.log inv.ready b v home l
    logged = subst (Logged s.log inv.ready b v home) (ok_inj (sym done.1 ∙ e)) done.2

finish-Inv :
    {s : System}
    → Inv s
    → s.log.committing ≡ true
    → Inv (record { log = finish_op s.log; ops = s.ops })
unfolding finish_op
finish-Inv {s} v e = record {
  count = outstanding-commit s.log v.ready ∙ v.count;
  few = v.few;
  room = omega (arith, v.room, (commit_done s.log v.ready).0);
  calm = λ p. absurd (cc p);
  ready = record {
    few = omega (arith, (commit_done s.log v.ready).0);
    homes = λ j p. absurd (omega (arith, (commit_done s.log v.ready).0));
    clean = λ b hb out.
        commit-cache s.log v.ready b (at hb) ∙ sym ((commit_done s.log v.ready).2 b (at hb));
    empty =
        ap (λ a. (commit s.log).disk a 0) (start-commit s.log v.ready)
        ∙ (commit_done s.log v.ready).1;
  };
}
  where
    at : {b : ℕ} → IsHome (commit s.log).start b → IsHome s.log.start b
    at {b} h = subst (λ a. IsHome a b) (start-commit s.log v.ready) h

Step-Inv : {s t : System} → Step s t → Inv s → Inv t
Step-Inv (begin e r) v = subst Inv (sym r) (begin-Inv v e)
Step-Inv (write before after k k' b d split home e spent r) v =
    subst Inv (sym r) (write-Inv before after k k' b d v split home e spent)
Step-Inv (end before after k split e r) v = subst Inv (sym r) (end-Inv before after k v split e)
Step-Inv (finish e r) v = subst Inv (sym r) (finish-Inv v e)

-- However operations begin, write, end and commit side by side, the transaction can be committed at
-- every moment, what is in it and what the operations may still add fits the log, and during a commit
-- no operation is in progress.
pub Reach-Inv : {s t : System} → Inv s → Reach s t → Inv t
Reach-Inv v here = v
Reach-Inv v (next r st) = Step-Inv st (Reach-Inv v r)

ends :
    {s : System} (before after : List ℕ) (k : ℕ)
    → Inv s
    → s.ops ≡ before ++ (k ∷ after)
    → (l : Log) × (last : Bool) × (end_op s.log ≡ ok (l, last))
unfolding end_op
ends {s} before after k v split = (
  record s.log { outstanding = s.log.outstanding - 1; committing = s.log.outstanding == 1 },
  s.log.outstanding == 1,
  ground (
    arith,
    v.count,
    ap length split,
    length-append before (k ∷ after),
    v.calm,
    Bool-cases s.log.committing,
  ),
)

-- While the invariant holds, an operation that may still add a block is not stopped by a panic in
-- `log_write`, nor is any operation in progress stopped by one in `end_op`.
pub calls_succeed :
    {s : System} (before after : List ℕ) (k b : ℕ) (v : Block)
    → Inv s
    → s.ops ≡ before ++ (k ∷ after)
    → IsHome s.log.start b
    → (0 < k → (l : Log) × (log_write (modify s.log b v) b ≡ ok l))
      × ((l : Log) × (last : Bool) × (end_op s.log ≡ ok (l, last)))
calls_succeed {s} before after zero b v inv split home =
    (λ p. absurd (omega arith), ends before after zero inv split)
calls_succeed {s} before after (suc k) b v inv split home =
    (λ p. writes, ends before after (suc k) inv split)
  where
    room : (s.log.lh.n < log_blocks) × (0 < s.log.outstanding)
    room = room_left before after k inv split

    writes : (l : Log) × (log_write (modify s.log b v) b ≡ ok l)
    writes =
        let done : (t : Log) × (log_write (modify s.log b v) b ≡ ok t)
            × Logged s.log inv.ready b v home t =
          log_write-Logged s.log inv.ready b v home room.0 room.1 in
        (done.0, done.1)
