-- ===== src/Shell/Ui/Bounds.antt =====
-- The bounds of prompt_text and prompt_color.
use eafitos.Base.{
  ℕ, ◌<◌, sym, subst, Bool, true, false, ◌||◌, List, [], ◌∷◌, arith, leb, if◌then◌else◌, Bool-cases,
  inl, inr, length,
}
use eafitos.Shell.Text.{Text, codes, streq, safe_copy}
use eafitos.Shell.Ui.Prompt.{cmd_prompt_sets}
use eafitos.Shell.Ui.{
  set_color, Ui, max_prompt, color_size, escape, Reply, default_ui, reset_ui, set_theme_color,
  cmd_prompt, cmd_tema, cmd_resetui,
}

-- Both texts and their NULs fit their buffers.
pub record IsValid (ui : Ui) : Type 0 where
  pub prompt_fits : length ui.prompt_text < max_prompt
  pub color_fits : length ui.prompt_color < color_size

safe_copy_bound : (n : ℕ) (dst src : Text) → length dst < n → length (safe_copy n dst src).1 < n
unfolding safe_copy
safe_copy_bound n dst src h = elim (Bool-cases (leb n (length src))) [
  | inl t ↦ rw t h
  | inr t ↦ rw t (ground (arith, t))
]

if_either {ℓ κ} :
    {A : Type ℓ} (P : A → Type κ) (b : Bool) (x y : A) → P x → P y → P (if b then x else y)
if_either P true x y p q = p
if_either P false x y p q = q

record Fine (r : Bool × Ui) : Type 0 where
  valid : IsValid r.1

module _ (ui : Ui) (v : IsValid ui) where
  colored :
      (s : Text) → IsValid (record ui { prompt_color = (safe_copy color_size ui.prompt_color s).1 })
  colored s = record {
    prompt_fits = v.prompt_fits;
    color_fits = safe_copy_bound color_size ui.prompt_color s v.color_fits;
  }

  pick : (b : Bool) (s : Text) (r : Bool × Ui) → Fine r → Fine (if b then set_color ui s else r)
  pick true s r h = record { valid = colored s }
  pick false s r h = h

  theme : (name : Text) → Fine (set_theme_color ui name)
  unfolding set_theme_color
  theme name =
      pick (streq name (codes "default") || streq name (codes "cyan")) (escape (codes "[1;36m")) _ (
        pick (streq name (codes "verde")) (escape (codes "[1;32m")) _ (
          pick (streq name (codes "azul")) (escape (codes "[1;34m")) _ (
            pick (streq name (codes "rojo")) (escape (codes "[1;31m")) _ (
              pick (streq name (codes "amarillo")) (escape (codes "[1;33m")) _ (
                pick (streq name (codes "magenta")) (escape (codes "[1;35m")) _ (
                  pick (streq name (codes "blanco")) (escape (codes "[1;37m")) (false, ui)
                    (record { valid = v })))))))

  set_theme_color-IsValid : (name : Text) → IsValid (set_theme_color ui name).1
  set_theme_color-IsValid name = (theme name).valid

  reset_ui-IsValid : IsValid (reset_ui ui)
  unfolding reset_ui
  reset_ui-IsValid = record {
    prompt_fits = safe_copy_bound max_prompt ui.prompt_text (codes "EAFITos") v.prompt_fits;
    color_fits = safe_copy_bound color_size ui.prompt_color (escape (codes "[1;36m")) v.color_fits;
  }

  pub cmd_resetui-IsValid : IsValid (cmd_resetui ui).1
  unfolding cmd_resetui
  cmd_resetui-IsValid = reset_ui-IsValid

  pub cmd_tema-IsValid : (args : List Text) → IsValid (cmd_tema ui args).1
  unfolding cmd_tema
  cmd_tema-IsValid [] = v
  cmd_tema-IsValid (name ∷ []) =
      if_either {A = List Reply × Ui} (λ r. IsValid r.1) (set_theme_color ui name).0 _ _
        (set_theme_color-IsValid name) (set_theme_color-IsValid name)
  cmd_tema-IsValid (name ∷ arg ∷ args) = v

  pub cmd_prompt-IsValid : (args : List Text) → IsValid (cmd_prompt ui args).1
  unfolding cmd_prompt
  cmd_prompt-IsValid [] = v
  cmd_prompt-IsValid (arg ∷ args) = elim (cmd_prompt_sets ui arg args) [
    | inl (h, e) ↦
        subst (λ r. IsValid r.1) (sym e) (record { prompt_fits = h; color_fits = v.color_fits })
    | inr (_, e) ↦ subst (λ r. IsValid r.1) (sym e) v
  ]

pub default_ui-IsValid : IsValid default_ui
unfolding default_ui
default_ui-IsValid = record { prompt_fits = omega arith; color_fits = omega arith }
