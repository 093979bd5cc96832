-- ===== src/Pipe/Tests.antt =====
-- Runs of a pipe whose counters are about to wrap, and the theorems at concrete inputs.
use eafitos.Base.{
  ℕ, ◌+◌, ◌-◌, ◌^◌, ◌≡◌, refl, Bool, true, false, Option, none, some, [], ◌∷◌, arith, ◌==◌,
  if◌then◌else◌, update, ltb,
}
use eafitos.Pipe.{
  Pipe, pipealloc, full, push, returns, fails, write_loop, read_loop, piperead, wakes_readers,
}
use eafitos.Pipe.Window.{contents, IsValid}
use eafitos.Pipe.Fifo.{
  Traffic, Step, Reach, Inv, Traffic-Inv, pipealloc-Inv, killed_writer_wakes_nobody,
}

-- The bytes 7 and 8 are in the pipe, and the write counter has wrapped.
abbrev wrapped : Pipe
wrapped = record {
  data_at = λ i. if i == 511 then 7 else 8;
  nread = 2 ^ 32 - 1;
  nwrite = 1;
  readopen = true;
  writeopen = true;
}

-- The user's buffer is mapped below address 3.
abbrev buffer : ℕ → Option ℕ
buffer a = if ltb a 3 then some (a + 60) else none

abbrev alive : ℕ → Bool
alive i = false

wrapped-IsValid : IsValid wrapped
wrapped-IsValid = omega arith

contents-wrapped : contents wrapped ≡ 7 ∷ 8 ∷ []
contents-wrapped = refl

write_stops_at_fault : (write_loop buffer alive 1 0 5 wrapped).0 ≡ returns 2
unfolding write_loop full push
write_stops_at_fault = refl

written : contents (write_loop buffer alive 1 0 5 wrapped).1 ≡ 7 ∷ 8 ∷ 61 ∷ 62 ∷ []
unfolding write_loop full push update
written = refl

read_back : (piperead (λ a c. true) 0 false 9 wrapped).1 ≡ 7 ∷ 8 ∷ []
unfolding piperead read_loop
read_back = refl

abbrev page : ℕ → ℕ
page i = 5

abbrev quiet : Traffic
quiet = record { pipe = pipealloc page; sent = []; received = [] }

abbrev loaded : Traffic
loaded = record {
  pipe = (write_loop buffer alive 1 0 2 (pipealloc page)).1;
  sent = 61 ∷ 62 ∷ [];
  received = [];
}

loaded-Reach : Reach quiet loaded
unfolding write_loop full push pipealloc
loaded-Reach =
    Reach.next Reach.here
      (Step.write buffer alive 1 0 2 (61 ∷ 62 ∷ []) (refl, (refl, tt)) refl refl)

Traffic-Inv_example : Inv loaded
Traffic-Inv_example = Traffic-Inv (pipealloc-Inv page) loaded-Reach

abbrev doomed : ℕ → Bool
doomed i = ltb 0 i

killed_writer_wakes_nobody_example :
    let (o, q) = write_loop buffer doomed 1 0 2 (pipealloc page) in
    (contents q ≡ 61 ∷ []) × (o ≡ fails) × (wakes_readers o ≡ false)
unfolding pipealloc
killed_writer_wakes_nobody_example =
    killed_writer_wakes_nobody buffer doomed 1 0 61 (pipealloc page) (omega arith) refl refl refl
      refl refl
