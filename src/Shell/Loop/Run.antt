-- ===== src/Shell/Loop/Run.antt =====
-- The states that the loop of main reaches, and its behaviour at the end of the input.
use eafitos.Base.{
  Option, none, some, ℕ, zero, suc, ◌≡◌, refl, sym, ap, ◌∙◌, subst, append-nil, replicate, false,
  List, [], ◌∷◌, ◌++◌, if◌then◌else◌, Bool-cases, Option-cases, inl, inr,
}
use eafitos.Shell.Text.{
  Text, Input, rstrip_newlines, rstrip_from, is_blank, gets, gets_loop, until_nul,
}
use eafitos.Shell.Words.{parse_line}
use eafitos.Shell.History.{History, no_history, history_add, history_print, max_line}
use eafitos.Shell.History.Recent.{rows, last_ten, numbered, history_of, history_print-last_ten}
use eafitos.Shell.Ui.Bounds.{
  IsValid, default_ui-IsValid, cmd_prompt-IsValid, cmd_tema-IsValid, cmd_resetui-IsValid,
}
use eafitos.Shell.Loop.{
  Shell, prompt, run_rounds, Command, find_command, commands, prints, run_command, dispatch,
  run_line, round, initial, max_args, leer, calc, ayuda, pf, tema, resetui, set_prompt,
}

-- A command leaves the history alone and keeps the prompt within its buffers.
record Keeps (sh sh' : Shell) : Type 0 where
  same : sh'.history ≡ sh.history
  valid : IsValid sh.ui → IsValid sh'.ui

unchanged : (sh : Shell) → Keeps sh sh
unchanged sh = record { same = refl; valid = λ v. v }

run_command-Keeps :
    (c : Command) (sh : Shell) (args : List Text) → Keeps sh (run_command c sh args).shell
unfolding run_command
run_command-Keeps leer sh [] = unchanged sh
run_command-Keeps leer sh (a ∷ []) = unchanged sh
run_command-Keeps leer sh (a ∷ b ∷ args) = unchanged sh
run_command-Keeps calc sh [] = unchanged sh
run_command-Keeps calc sh (a ∷ []) = unchanged sh
run_command-Keeps calc sh (a ∷ b ∷ []) = unchanged sh
run_command-Keeps calc sh (a ∷ b ∷ c ∷ []) = unchanged sh
run_command-Keeps calc sh (a ∷ b ∷ c ∷ d ∷ args) = unchanged sh
run_command-Keeps ayuda sh [] = unchanged sh
run_command-Keeps ayuda sh (a ∷ []) = unchanged sh
run_command-Keeps ayuda sh (a ∷ b ∷ args) = unchanged sh
run_command-Keeps pf sh [] = unchanged sh
run_command-Keeps pf sh (a ∷ []) = unchanged sh
run_command-Keeps pf sh (a ∷ b ∷ args) = unchanged sh
run_command-Keeps set_prompt sh args = record {
  same = refl;
  valid = λ v. cmd_prompt-IsValid sh.ui v args;
}
run_command-Keeps tema sh args = record { same = refl; valid = λ v. cmd_tema-IsValid sh.ui v args }
run_command-Keeps resetui sh args = record { same = refl; valid = λ v. cmd_resetui-IsValid sh.ui v }
run_command-Keeps _ sh args = unchanged sh

dispatch-Keeps : (sh : Shell) (argv : List Text) → Keeps sh (dispatch sh argv).shell
unfolding dispatch
dispatch-Keeps sh [] = unchanged sh
dispatch-Keeps sh (name ∷ args) = elim (Option-cases (find_command name commands)) [
  | inl e ↦ rw (e, dispatch) (unchanged sh)
  | inr (c, e) ↦ rw (e, dispatch) (run_command-Keeps c sh args)
]

-- The text that a pointer points to.
abbrev buffer_of : Option Text → Text
buffer_of none = []
buffer_of (some buffer) = buffer

-- The line of a round, once its newlines are off.
unfoldable pub read_line : Input → Text
read_line inp = rstrip_newlines (buffer_of (gets max_line inp).0)

-- `gets` gives no null pointer, so that a round reads a line whatever the input is.
round_reads :
    (sh : Shell) (inp : Input) → (round sh inp).0.shell ≡ (run_line sh (read_line inp)).shell
unfolding round read_line gets
round_reads sh inp = refl

-- The line of a round, if the loop records it.
unfoldable pub recorded : Input → List Text
recorded inp = if is_blank (read_line inp) then [] else read_line inp ∷ []

-- The loop is at the start of a round, after the recorded lines.
pub data Reach (start : Input) : Shell → Input → List Text → Type 0 where
  begin : Reach start initial start []
  again :
      {sh sh' : Shell} {inp inp' : Input} {seen seen' : List Text}
      → Reach start sh inp seen
      → (round sh inp).0.should_exit ≡ false
      → sh' ≡ (round sh inp).0.shell
      → inp' ≡ (round sh inp).1
      → seen' ≡ seen ++ recorded inp
      → Reach start sh' inp' seen'

record Inv (sh : Shell) (seen : List Text) : Type 0 where
  valid : IsValid sh.ui
  history : sh.history ≡ history_of no_history seen

history_of-snoc :
    (h : History) (seen : List Text) (line : Text)
    → history_of h (seen ++ line ∷ []) ≡ history_add (history_of h seen) line
history_of-snoc h [] line = refl
history_of-snoc h (l ∷ seen) line = history_of-snoc (history_add h l) seen line

dispatch-Inv :
    (sh : Shell) (argv : List Text) (seen : List Text)
    → Inv sh seen
    → Inv (dispatch sh argv).shell seen
dispatch-Inv sh argv seen v =
    let k = dispatch-Keeps sh argv in
    record { valid = k.valid v.valid; history = k.same ∙ v.history }

run_line-Inv :
    (sh : Shell) (line : Text) (seen : List Text)
    → Inv sh seen
    → Inv (run_line sh line).shell (seen ++ (if is_blank line then [] else line ∷ []))
unfolding run_line
run_line-Inv sh line seen v = elim (Bool-cases (is_blank line)) [
  | inl b ↦ rw b (subst (λ s. Inv sh s) (sym (append-nil seen)) v)
  | inr b ↦
      let logged : Shell = record sh { history = history_add sh.history line } in
      rw b (
        dispatch-Inv logged (parse_line line max_args) (seen ++ line ∷ []) (record {
          valid = v.valid;
          history =
              ap (λ h. history_add h line) v.history ∙ sym (history_of-snoc no_history seen line);
        }))
]

round-Inv :
    (sh : Shell) (inp : Input) (seen : List Text)
    → Inv sh seen
    → Inv (round sh inp).0.shell (seen ++ recorded inp)
unfolding recorded
round-Inv sh inp seen v =
    subst (λ s. Inv s (seen ++ recorded inp)) (sym (round_reads sh inp))
      (run_line-Inv sh (read_line inp) seen v)

Reach-Inv_lem :
    {start inp : Input} {sh : Shell} {seen : List Text} → Reach start sh inp seen → Inv sh seen
Reach-Inv_lem begin = record { valid = default_ui-IsValid; history = refl }
Reach-Inv_lem (again {sh = sh} {inp = inp} {seen = seen} {seen' = seen'} r on e1 e2 e3) =
    let v = round-Inv sh inp seen (Reach-Inv_lem r) in
    subst (λ s. Inv s seen') (sym e1) (subst (λ s. Inv (round sh inp).0.shell s) (sym e3) v)

-- Whatever the input is, at the start of every round the prompt and its colour fit their buffers,
-- and `historial` would print the last ten recorded lines, oldest first and numbered from 1.
pub Shell_state :
    {start inp : Input} {sh : Shell} {seen : List Text}
    → Reach start sh inp seen
    → IsValid sh.ui × (history_print sh.history ≡ numbered 0 (last_ten (rows seen)))
Shell_state {seen = seen} r =
    let v = Reach-Inv_lem r in (v.valid, ap history_print v.history ∙ history_print-last_ten seen)

end_of_input : (sh : Shell) → round sh [] ≡ (prints sh (prompt sh.ui ∷ []), [])
unfolding round run_line is_blank gets gets_loop rstrip_newlines rstrip_from until_nul
end_of_input sh = refl

-- At the end of the input the loop does not end, although a null pointer from `gets` would end it:
-- however many rounds it runs, each prints the prompt and nothing else, and the state stays as it is.
pub end_of_input_never_exits :
    (n : ℕ) (sh : Shell) → run_rounds n sh [] ≡ prints sh (replicate n (prompt sh.ui))
unfolding run_rounds
end_of_input_never_exits zero sh = refl
end_of_input_never_exits (suc n) sh = rw (end_of_input sh) (rw (end_of_input_never_exits n sh) refl)
