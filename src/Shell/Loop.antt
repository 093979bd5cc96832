-- ===== src/Shell/Loop.antt =====
-- user/eafitos.c, main: the loop that reads a line, records it and runs its command.
--
-- What a command does outside the shell (a file it reads, a program it runs, a system call whose
-- result it prints) is named by an `Output` and left to the kernel.
pub mod Run
use eafitos.Base.{
  ℕ, zero, suc, ◌+◌, ◌≡◌, Bool, true, false, List, [], ◌∷◌, ◌++◌, map, Option, none, some,
  if◌then◌else◌,
}
use eafitos.Shell.Text.{Text, Input, codes, streq, rstrip_newlines, is_blank, gets}
use eafitos.Shell.Words.{parse_line}
use eafitos.Shell.History.{History, no_history, history_add, history_print, max_line}
use eafitos.Shell.Ui.{Ui, Reply, usage, default_ui, cmd_prompt, cmd_tema, cmd_resetui}

abbrev pub max_args : ℕ
max_args = 32

pub record Shell : Type 0 where
  pub ui : Ui
  pub history : History

pub data Output : Type 0 where
  reply : Reply → Output
  lines : List (ℕ × Text) → Output
  run_program : Text → List Text → Output
  show_file : Text → Output
  calculate : Text → Text → Text → Output
  list_directory show_uptime list_commands clear_screen show_process show_directory : Output
  not_found : Text → Output
  prompt : Ui → Output
  line_break : Output

-- The functions of the table.
pub data Command : Type 0 where
  listar leer tiempo calc ayuda historial limpiar usuario directorio pf sbrkpf sbrklazy lazy mmapsim
        tema resetui salir set_prompt :
      Command

unfoldable pub commands : List (Text × Command)
commands =
    (codes "listar", listar)
    ∷ (codes "leer", leer)
    ∷ (codes "tiempo", tiempo)
    ∷ (codes "calc", calc)
    ∷ (codes "ayuda", ayuda)
    ∷ (codes "historial", historial)
    ∷ (codes "limpiar", limpiar)
    ∷ (codes "usuario", usuario)
    ∷ (codes "directorio", directorio)
    ∷ (codes "pf", pf)
    ∷ (codes "sbrkpf", sbrkpf)
    ∷ (codes "sbrklazy", sbrklazy)
    ∷ (codes "lazy", lazy)
    ∷ (codes "mmapsim", mmapsim)
    ∷ (codes "prompt", set_prompt)
    ∷ (codes "tema", tema)
    ∷ (codes "resetui", resetui)
    ∷ (codes "salir", salir)
    ∷ []

-- The loop of `dispatch` over the table.
unfoldable pub find_command : Text → List (Text × Command) → Option Command
find_command name [] = none
find_command name ((known, command) ∷ table) =
    if streq name known then some command else find_command name table

-- The state after a command, whether the shell is to end, and what the command prints.
pub record Outcome : Type 0 where
  pub shell : Shell
  pub should_exit : Bool
  pub printed : List Output

abbrev pub prints : Shell → List Output → Outcome
prints sh out = record { shell = sh; should_exit = false; printed = out }

abbrev with_ui : Shell → Ui → List Reply → Outcome
with_ui sh ui replies = prints (record sh { ui = ui }) (map reply replies)

-- `COMMANDS[i].fn(argc, argv)`, on the arguments after argv[0].
unfoldable pub run_command : Command → Shell → List Text → Outcome
run_command listar sh args = prints sh (list_directory ∷ [])
run_command leer sh (file ∷ []) = prints sh (show_file file ∷ [])
run_command leer sh args = prints sh (reply (usage (codes "leer")) ∷ [])
run_command tiempo sh args = prints sh (show_uptime ∷ [])
run_command calc sh (a ∷ op ∷ b ∷ []) = prints sh (calculate a op b ∷ [])
run_command calc sh args = prints sh (reply (usage (codes "calc")) ∷ [])
run_command ayuda sh [] = prints sh (list_commands ∷ [])
run_command ayuda sh (command ∷ []) = prints sh (reply (usage command) ∷ [])
run_command ayuda sh args = prints sh (reply (usage (codes "ayuda")) ∷ [])
run_command historial sh args = prints sh (lines (history_print sh.history) ∷ [])
run_command limpiar sh args = prints sh (clear_screen ∷ [])
run_command usuario sh args = prints sh (show_process ∷ [])
run_command directorio sh args = prints sh (show_directory ∷ [])
run_command pf sh (mode ∷ []) = prints sh (run_program (codes "tpf") (codes "tpf" ∷ mode ∷ []) ∷ [])
run_command pf sh args = prints sh (reply (usage (codes "pf")) ∷ [])
run_command sbrkpf sh args = prints sh (run_program (codes "tsbrkpf") (codes "tsbrkpf" ∷ []) ∷ [])
run_command sbrklazy sh args =
    prints sh (run_program (codes "tsbrklazy") (codes "tsbrklazy" ∷ []) ∷ [])
run_command lazy sh args = prints sh (run_program (codes "tlazy") (codes "tlazy" ∷ []) ∷ [])
run_command mmapsim sh args =
    prints sh (run_program (codes "tmmap_sim") (codes "tmmap_sim" ∷ []) ∷ [])
run_command set_prompt sh args =
    with_ui sh (cmd_prompt sh.ui args).1 ((cmd_prompt sh.ui args).0 ∷ [])
run_command tema sh args = with_ui sh (cmd_tema sh.ui args).1 (cmd_tema sh.ui args).0
run_command resetui sh args = with_ui sh (cmd_resetui sh.ui).1 ((cmd_resetui sh.ui).0 ∷ [])
run_command salir sh args = record { shell = sh; should_exit = true; printed = [] }

unfoldable pub dispatch : Shell → List Text → Outcome
dispatch sh [] = prints sh []
dispatch sh (name ∷ args) = elim (find_command name commands) [
  | some command ↦ run_command command sh args
  | none ↦ prints sh (not_found name ∷ [])
]

-- A round once a line has been read, its newlines taken off.
unfoldable pub run_line : Shell → Text → Outcome
run_line sh line =
    if is_blank line
    then prints sh []
    else dispatch (record sh { history = history_add sh.history line }) (parse_line line max_args)

-- What a round makes of the pointer that `gets` returns: a null pointer ends the loop.
abbrev pub answer : Shell → Option Text → Outcome
answer sh none = record { shell = sh; should_exit = true; printed = line_break ∷ [] }
answer sh (some buffer) = run_line sh (rstrip_newlines buffer)

-- One round of the loop of `main`, and the input that it leaves.
unfoldable pub round : Shell → Input → Outcome × Input
round sh inp =
    let out = answer sh (gets max_line inp).0 in
    (record out { printed = prompt sh.ui ∷ out.printed }, (gets max_line inp).1)

abbrev pub initial : Shell
initial = record { ui = default_ui; history = no_history }

-- The loop, for at most n rounds. `should_exit` tells whether it has ended within them.
unfoldable pub run_rounds : ℕ → Shell → Input → Outcome
run_rounds zero sh inp = prints sh []
run_rounds (suc n) sh inp =
    let first = (round sh inp).0 in
    let rest = run_rounds n first.shell (round sh inp).1 in
    if first.should_exit then first else record rest { printed = first.printed ++ rest.printed }
