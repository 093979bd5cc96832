-- ===== src/Console/Tests.antt =====
-- Tests and an example of the console's ring, across the wrap of its indices.
use eafitos.Base.{◌^◌, ◌-◌, ◌≡◌, refl, ◌==◌, if◌then◌else◌, true, false, [], ◌∷◌, arith}
use eafitos.Console.{Cons, kill_line, consoleintr, read_loop}
use eafitos.Console.Read.{Took, read_loop-takes}
use eafitos.Console.Edit.{line, IsValid, edit, Edited, consoleintr-edits}

-- "l" is ready and "ho" is being typed.
abbrev typing : Cons
typing = record {
  buf = λ i. if i == 0 then 111 else if i == 126 then 10 else 104;
  r = 2 ^ 32 - 2;
  w = 2 ^ 32 - 1;
  e = 1;
}

typing-IsValid : IsValid typing
typing-IsValid = record {
  read_fits = omega arith;
  write_fits = omega arith;
  edit_fits = omega arith;
  bounded = omega arith;
  unfinished = (omega arith, (omega arith, tt));
}

killed : line (consoleintr typing 21).0 ≡ []
unfolding consoleintr kill_line
killed = refl

consoleintr-edits_example : Edited (edit (10 ∷ []) (104 ∷ 111 ∷ []) 13) (consoleintr typing 13).0
consoleintr-edits_example = consoleintr-edits typing 13 typing-IsValid

read_loop-takes_example : Took 5 5 (λ i. true) false typing (read_loop 5 (λ i. true) false 5 typing)
read_loop-takes_example = read_loop-takes 5 (λ i. true) false 5 typing typing-IsValid (omega arith)
