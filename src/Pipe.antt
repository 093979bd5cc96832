-- ===== src/Pipe.antt =====
-- kernel/pipe.c: a pipe as a ring of 512 bytes with 32-bit read and write counters.
--
-- The pipe's lock is held from one sleep to the next, so a call is a sequence of runs, each a function
-- on the pipe: from the entry or a wakeup up to a sleep or the return. `copyin` and `copyout` move a
-- byte from and to user memory (kernel/vm.c) and can fail; `killed i` is what `killed(pr)` says in the
-- round of index i. A run also says which sleepers it wakes.
pub mod Window
pub mod Write
pub mod Read
pub mod Fifo
mod Tests
use eafitos.Base.{
  ℕ, zero, suc, ◌+◌, ◌%◌, ◌^◌, Bool, true, false, not, ◌&&◌, ◌||◌, Option, none, some, List, [],
  ◌∷◌, ◌==◌, if◌then◌else◌, update,
}

abbrev pub pipe_size : ℕ
pipe_size = 512

-- `uint` arithmetic
abbrev pub u32 : ℕ → ℕ
u32 n = n % 2 ^ 32

pub record Pipe : Type 0 where
  pub data_at : ℕ → ℕ
  pub nread : ℕ
  pub nwrite : ℕ
  pub readopen : Bool
  pub writeopen : Bool

-- The pipe that `pipealloc` sets up.
unfoldable pub pipealloc : (ℕ → ℕ) → Pipe
pipealloc page = record { data_at = page; nread = 0; nwrite = 0; readopen = true; writeopen = true }

-- How a run ends: `returns` and `fails` (-1) leave the call, `sleeps i` goes on at round i.
pub data Outcome : Type 0 where
  returns : ℕ → Outcome
  fails : Outcome
  sleeps : ℕ → Outcome

-- `pi->data[pi->nwrite++ % PIPESIZE] = ch`
unfoldable pub push : Pipe → ℕ → Pipe
push p ch = record p {
  data_at = update p.data_at (p.nwrite % pipe_size) ch;
  nwrite = u32 (p.nwrite + 1);
}

unfoldable pub full : Pipe → Bool
full p = p.nwrite == u32 (p.nread + pipe_size)

module _ (copyin : ℕ → Option ℕ) (killed : ℕ → Bool) (addr : ℕ) where
  -- The loop of `pipewrite` from round i, with k bytes left.
  unfoldable pub write_loop : ℕ → ℕ → Pipe → Outcome × Pipe
  write_loop i zero p = (returns i, p)
  write_loop i (suc k) p = elim (not p.readopen || killed i) [
    | true ↦ (fails, p)
    | false ↦ elim (full p) [
      | true ↦ (sleeps i, p)
      | false ↦ elim (copyin (addr + i)) [
        | none ↦ (returns i, p)
        | some ch ↦ write_loop (i + 1) k (push p ch)
      ]
    ]
  ]

-- `wakeup(&pi->nread)` comes before a sleep and before the return, and not before `return -1`.
unfoldable pub wakes_readers : Outcome → Bool
wakes_readers fails = false
wakes_readers _ = true

module _ (copyout : ℕ → ℕ → Bool) (addr : ℕ) where
  -- The copying loop of `piperead` from round i, with k bytes asked for: the result (-1 is `fails`),
  -- the bytes copied out, and the pipe.
  unfoldable pub read_loop : ℕ → ℕ → Pipe → Outcome × List ℕ × Pipe
  read_loop i zero p = (returns i, [], p)
  read_loop i (suc k) p =
      let ch = p.data_at (p.nread % pipe_size) in
      elim (p.nread == p.nwrite) [
        | true ↦ (returns i, [], p)
        | false ↦ elim (copyout (addr + i) ch) [
          | false ↦ ((if i == 0 then fails else returns i), [], p)
          | true ↦
              let (o, out, p') = read_loop (i + 1) k (record p { nread = u32 (p.nread + 1) }) in
              (o, ch ∷ out, p')
        ]
      ]

  -- A run of `piperead` for n bytes, up to its return or its sleep on `&pi->nread`.
  unfoldable pub piperead : Bool → ℕ → Pipe → Outcome × List ℕ × Pipe
  piperead killed n p =
      if p.nread == p.nwrite && p.writeopen
      then if killed then (fails, [], p) else (sleeps 0, [], p)
      else read_loop 0 n p

-- `pipeclose`: the pipe, and whether its page is freed.
unfoldable pub pipeclose : Pipe → Bool → Pipe × Bool
pipeclose p writable =
    let q = if writable then record p { writeopen = false } else record p { readopen = false } in
    (q, not q.readopen && not q.writeopen)
