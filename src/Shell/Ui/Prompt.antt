-- ===== src/Shell/Ui/Prompt.antt =====
-- The prompt: what cmd_prompt makes of its arguments, and the bounds of both buffers.
use eafitos.Base.{
  ℕ, ◌+◌, ◌≤◌, ◌<◌, ◌≡◌, refl, sym, ap, ◌∙◌, true, false, List, [], ◌∷◌, ◌++◌, none, some, arith,
  leb, inl, inr, length, length-append, append-nil, dec_lt, lt→ltb, subst, ◌⊎◌, append_assoc,
}
use eafitos.Shell.Text.{Text, codes, safe_copy, safe_cat, space}
use eafitos.Shell.Ui.{Ui, max_prompt, error, info, join_args, cmd_prompt}

-- Each argument after a space.
abbrev pub spaced : List Text → Text
spaced [] = []
spaced (arg ∷ args) = space ∷ arg ++ spaced args

safe_cat_fits :
    (n : ℕ) (dst src : Text) → length dst + length src < n → safe_cat n dst src ≡ (true, dst ++ src)
unfolding safe_cat
safe_cat_fits n dst src h =
    let t : leb n (length dst + length src) ≡ false = ground arith in rw t refl

safe_cat_full :
    (n : ℕ) (dst src : Text) → n ≤ length dst + length src → safe_cat n dst src ≡ (false, dst)
unfolding safe_cat
safe_cat_full n dst src h =
    let t : leb n (length dst + length src) ≡ true = ground arith in rw t refl

safe_copy_fits : (n : ℕ) (dst src : Text) → length src < n → safe_copy n dst src ≡ (true, src)
unfolding safe_copy
safe_copy_fits n dst src h = let t : leb n (length src) ≡ false = ground arith in rw t refl

spaced_assoc :
    (buf arg : Text) (args : List Text)
    → ((buf ++ space ∷ []) ++ arg) ++ spaced args ≡ buf ++ spaced (arg ∷ args)
spaced_assoc buf arg args =
    append_assoc (buf ++ space ∷ []) arg (spaced args)
    ∙ append_assoc buf (space ∷ []) (arg ++ spaced args)

join_fits :
    (args : List Text) (i : ℕ) (buf : Text)
    → 1 < i
    → length (buf ++ spaced args) < max_prompt
    → join_args i buf args ≡ some (buf ++ spaced args)
unfolding join_args
join_fits [] i buf h k = ap some (sym (append-nil buf))
join_fits (arg ∷ args) i buf h k =
    let n1 = length-append buf (space ∷ arg ++ spaced args) in
    let n2 = length-append arg (spaced args) in
    let n3 = length-append buf (space ∷ []) in
    let e = safe_cat_fits max_prompt buf (space ∷ []) (omega (arith, k, n1)) in
    let f = safe_cat_fits max_prompt (buf ++ space ∷ []) arg (omega (arith, k, n1, n2, n3)) in
    rw (lt→ltb 1 i h) (
      rw e (
        rw f (
          join_fits args (i + 1) ((buf ++ space ∷ []) ++ arg) (omega arith)
            (subst (λ t. length t < max_prompt) (sym (spaced_assoc buf arg args)) k)
          ∙ ap some (spaced_assoc buf arg args))))

join_long :
    (args : List Text) (i : ℕ) (buf : Text)
    → 1 < i
    → length buf < max_prompt
    → max_prompt ≤ length (buf ++ spaced args)
    → join_args i buf args ≡ none
unfolding join_args
join_long [] i buf h b k = absurd (omega (arith, k, length-append buf []))
join_long (arg ∷ args) i buf h b k = elim (dec_lt (length buf + 1) max_prompt) [
  | no n ↦
      rw (lt→ltb 1 i h) (rw (safe_cat_full max_prompt buf (space ∷ []) (omega (arith, n))) refl)
  | yes y ↦
      let n3 = length-append buf (space ∷ []) in
      let e = safe_cat_fits max_prompt buf (space ∷ []) (omega (arith, y)) in
      elim (dec_lt (length (buf ++ space ∷ []) + length arg) max_prompt) [
        | no n ↦
            let f = safe_cat_full max_prompt (buf ++ space ∷ []) arg (omega (arith, n)) in
            rw (lt→ltb 1 i h) (rw e (rw f refl))
        | yes z ↦
            let f = safe_cat_fits max_prompt (buf ++ space ∷ []) arg z in
            rw (lt→ltb 1 i h) (
              rw e (
                rw f (
                  join_long args (i + 1) ((buf ++ space ∷ []) ++ arg) (omega arith)
                    (omega (arith, z, length-append (buf ++ space ∷ []) arg))
                    (subst (λ t. max_prompt ≤ length t) (sym (spaced_assoc buf arg args)) k))))
      ]
]

-- The first argument goes into the empty buffer, without a space.
first_fits :
    (arg : Text) (args : List Text)
    → length arg < max_prompt
    → join_args 1 [] (arg ∷ args) ≡ join_args 2 arg args
unfolding join_args
first_fits arg args k = rw (safe_cat_fits max_prompt [] arg (omega (arith, k))) refl

first_long :
    (arg : Text) (args : List Text) → max_prompt ≤ length arg → join_args 1 [] (arg ∷ args) ≡ none
unfolding join_args
first_long arg args k = rw (safe_cat_full max_prompt [] arg (omega (arith, k))) refl

-- `cmd_prompt` with arguments sets the prompt to them with one space between, if that is shorter
-- than 64 bytes, and says so; otherwise it reports an error and leaves the prompt as it was. It never
-- touches the colour.
pub cmd_prompt_sets :
    (ui : Ui) (arg : Text) (args : List Text)
    → ((length (arg ++ spaced args) < max_prompt)
        × (cmd_prompt ui (arg ∷ args)
            ≡ (info (codes "Prompt actualizado."), record ui { prompt_text = arg ++ spaced args })))
      ⊎ ((max_prompt ≤ length (arg ++ spaced args))
          × (cmd_prompt ui (arg ∷ args) ≡ (error (codes "prompt: texto demasiado largo"), ui)))
unfolding cmd_prompt
cmd_prompt_sets ui arg args = elim (dec_lt (length (arg ++ spaced args)) max_prompt) [
  | yes y ↦ inl (
    y,
    rw (fits y, cmd_prompt)
        (rw (safe_copy_fits max_prompt ui.prompt_text (arg ++ spaced args) y) refl),
  )
  | no n ↦ inr (omega (arith, n), rw (too_long (omega (arith, n)), cmd_prompt) refl)
]
  where
    fits :
        length (arg ++ spaced args) < max_prompt
        → join_args 1 [] (arg ∷ args) ≡ some (arg ++ spaced args)
    fits k =
        first_fits arg args (omega (arith, k, length-append arg (spaced args)))
        ∙ join_fits args 2 arg (omega arith) k

    too_long : max_prompt ≤ length (arg ++ spaced args) → join_args 1 [] (arg ∷ args) ≡ none
    too_long k = elim (dec_lt (length arg) max_prompt) [
      | yes y ↦ first_fits arg args y ∙ join_long args 2 arg (omega arith) y k
      | no n ↦ first_long arg args (omega (arith, n))
    ]
