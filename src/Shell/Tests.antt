-- ===== src/Shell/Tests.antt =====
-- Tests and examples of the shell.
use eafitos.Base.{ℕ, ◌≡◌, ◌≢◌, refl, List, [], ◌∷◌, ◌++◌, some, arith, take, replicate}
use eafitos.Shell.Text.{Text, Input, codes, is_blank, rstrip_newlines}
use eafitos.Shell.Words.{parse_line}
use eafitos.Shell.Words.Tokens.{tokens, join, parse_line-tokens, parse_line-join}
use eafitos.Shell.History.{no_history, history_print}
use eafitos.Shell.History.Recent.{rows, last_ten, numbered, history_of, history_print-last_ten}
use eafitos.Shell.Ui.{default_ui}
use eafitos.Shell.Ui.Bounds.{IsValid}
use eafitos.Shell.Loop.{Shell, initial, round, run_rounds, prints, prompt}
use eafitos.Shell.Loop.Run.{Reach, begin, again, recorded, Shell_state, end_of_input_never_exits}

abbrev typed : Text → Input
typed [] = []
typed (c ∷ s) = some c ∷ typed s

abbrev sum_line : Text
sum_line = codes "  calc 2 +  40 "

parse_line-tokens_example : parse_line sum_line 32 ≡ take 31 (tokens sum_line)
parse_line-tokens_example = parse_line-tokens sum_line 32

nonempty : (c : ℕ) (w : Text) → c ∷ w ≢ []
nonempty c w = ground arith

abbrev sum_words : List Text
sum_words = codes "calc" ∷ codes "2" ∷ []

parse_line-join_example : parse_line (join sum_words) 32 ≡ sum_words
parse_line-join_example =
    parse_line-join sum_words 32
      (
        (nonempty 99 (codes "alc"), (refl, (refl, (refl, (refl, tt))))),
        ((nonempty 50 [], (refl, tt)), tt),
      )
      (omega arith)

abbrev twelve : List Text
twelve =
    codes "a"
    ∷ codes "b"
    ∷ []
    ∷ codes "c"
    ∷ codes "d"
    ∷ codes "e"
    ∷ codes "f"
    ∷ codes "g"
    ∷ codes "h"
    ∷ codes "i"
    ∷ codes "j"
    ∷ codes "k"
    ∷ codes "l"
    ∷ []

history_print-last_ten_example :
    history_print (history_of no_history twelve) ≡ numbered 0 (last_ten (rows twelve))
history_print-last_ten_example = history_print-last_ten twelve

abbrev session : Input
session = typed (codes "prompt x" ++ 10 ∷ [])

second :
    Reach session (round initial session).0.shell (round initial session).1 ([] ++ recorded session)
unfolding round is_blank eafitos.Shell.Loop.run_line rstrip_newlines eafitos.Shell.Text.rstrip_from
    eafitos.Shell.Text.gets eafitos.Shell.Text.until_nul eafitos.Shell.Text.gets_loop
    eafitos.Shell.Loop.dispatch parse_line eafitos.Shell.Words.parse_words
    eafitos.Shell.Words.skip_blanks eafitos.Shell.Words.skip_word eafitos.Shell.Loop.find_command
    eafitos.Shell.Loop.commands eafitos.Shell.Text.streq eafitos.Shell.Words.word
    eafitos.Shell.Loop.run_command
second = again begin refl refl refl refl

Shell_state_example :
    IsValid (round initial session).0.shell.ui
    × (history_print (round initial session).0.shell.history
        ≡ numbered 0 (last_ten (rows (recorded session))))
Shell_state_example = Shell_state second

end_of_input_never_exits_example :
    run_rounds 3 initial [] ≡ prints initial (replicate 3 (prompt default_ui))
end_of_input_never_exits_example = end_of_input_never_exits 3 initial
