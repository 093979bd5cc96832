-- ===== src/Shell/Ui.antt =====
-- user/eafitos.c: the prompt and its colour, and the commands that change them.
pub mod Prompt
pub mod Bounds
use eafitos.Base.{
  ℕ, zero, suc, ◌+◌, ◌≡◌, Bool, true, false, ◌||◌, List, [], ◌∷◌, ◌++◌, Option, none, some, ltb,
  leb, if◌then◌else◌, length,
}
use eafitos.Shell.Text.{Text, codes, streq, safe_copy, safe_cat, space}

abbrev pub max_prompt : ℕ
max_prompt = 64

-- sizeof(prompt_color)
abbrev pub color_size : ℕ
color_size = 16

pub record Ui : Type 0 where
  pub prompt_text : Text
  pub prompt_color : Text

-- ESC, and the codes of a colour
abbrev pub escape : Text → Text
escape s = 27 ∷ s

unfoldable pub default_ui : Ui
default_ui = record { prompt_text = codes "EAFITos"; prompt_color = escape (codes "[1;36m") }

unfoldable pub reset_ui : Ui → Ui
reset_ui ui = record {
  prompt_text = (safe_copy max_prompt ui.prompt_text (codes "EAFITos")).1;
  prompt_color = (safe_copy color_size ui.prompt_color (escape (codes "[1;36m"))).1;
}

abbrev pub set_color : Ui → Text → Bool × Ui
set_color ui color =
    let copied = safe_copy color_size ui.prompt_color color in
    (copied.0, record ui { prompt_color = copied.1 })

unfoldable pub set_theme_color : Ui → Text → Bool × Ui
set_theme_color ui name =
    if streq name (codes "default") || streq name (codes "cyan")
    then set_color ui (escape (codes "[1;36m"))
    else if streq name (codes "verde")
    then set_color ui (escape (codes "[1;32m"))
    else if streq name (codes "azul")
    then set_color ui (escape (codes "[1;34m"))
    else if streq name (codes "rojo")
    then set_color ui (escape (codes "[1;31m"))
    else if streq name (codes "amarillo")
    then set_color ui (escape (codes "[1;33m"))
    else if streq name (codes "magenta")
    then set_color ui (escape (codes "[1;35m"))
    else if streq name (codes "blanco")
    then set_color ui (escape (codes "[1;37m"))
    else (false, ui)

-- What a command prints.
pub data Reply : Type 0 where
  usage error info : Text → Reply

-- The loop of `cmd_prompt` at argument i: the buffer, or `none` where the text is too long.
unfoldable pub join_args : ℕ → Text → List Text → Option Text
join_args i buf [] = some buf
join_args i buf (arg ∷ args) =
    let spaced = if ltb 1 i then safe_cat max_prompt buf (codes " ") else (true, buf) in
    let added = safe_cat max_prompt spaced.1 arg in
    let rest = join_args (i + 1) added.1 args in
    if spaced.0 then if added.0 then rest else none else none

-- `cmd_prompt` on argv[1], .. `argv[argc - 1]`
unfoldable pub cmd_prompt : Ui → List Text → Reply × Ui
cmd_prompt ui [] = (usage (codes "prompt"), ui)
cmd_prompt ui (arg ∷ args) = elim (join_args 1 [] (arg ∷ args)) [
  | none ↦ (error (codes "prompt: texto demasiado largo"), ui)
  | some buf ↦
      let copied = safe_copy max_prompt ui.prompt_text buf in
      (
        if copied.0
            then info (codes "Prompt actualizado.")
            else error (codes "prompt: no se pudo cambiar"),
        record ui { prompt_text = copied.1 },
      )
]

unfoldable pub cmd_tema : Ui → List Text → List Reply × Ui
cmd_tema ui (name ∷ []) =
    let set = set_theme_color ui name in
    if set.0
    then (info (codes "Tema actualizado.") ∷ [], set.1)
    else (error (codes "tema: opcion no valida") ∷ usage (codes "tema") ∷ [], set.1)
cmd_tema ui args = (usage (codes "tema") ∷ [], ui)

unfoldable pub cmd_resetui : Ui → Reply × Ui
cmd_resetui ui = (info (codes "Interfaz restaurada."), reset_ui ui)
