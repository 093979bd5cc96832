-- ===== src/Shell/Words/Tokens.antt =====
-- parse_line against a description of words that reads the line once, from its end.
use eafitos.Base.{
  ℕ, zero, suc, ◌-◌, ◌<◌, ◌≡◌, ◌≢◌, refl, sym, ap, ◌∙◌, false, List, [], ◌∷◌, ◌++◌, arith,
  if◌then◌else◌, Bool-cases, ◌⊎◌, inl, inr, length, take, take-all, All,
}
use eafitos.Shell.Text.{Text, space}
use eafitos.Shell.Words.{blank, skip_blanks, word, skip_word, parse_words, parse_line}

abbrev pub extend : ℕ → List Text → List Text
extend c [] = (c ∷ []) ∷ []
extend c (w ∷ ws) = (c ∷ w) ∷ ws

-- A byte of a word before the text s, whose words are given.
abbrev pub put : ℕ → Text → List Text → List Text
put c [] ws = (c ∷ []) ∷ ws
put c (d ∷ s) ws = if blank d then (c ∷ []) ∷ ws else extend c ws

-- The longest stretches without a blank.
unfoldable pub tokens : Text → List Text
tokens [] = []
tokens (c ∷ s) = if blank c then tokens s else put c s (tokens s)

tokens-skip_blanks : (p : Text) → tokens (skip_blanks p) ≡ tokens p
unfolding tokens skip_blanks
tokens-skip_blanks [] = refl
tokens-skip_blanks (c ∷ p) = elim (Bool-cases (blank c)) [
  | inl b ↦ rw b (tokens-skip_blanks p)
  | inr b ↦ rw b (rw b refl)
]

abbrev after : Text → Text
after [] = []
after (d ∷ r) = r

-- After a byte of a word, the first word goes on as far as there is no blank.
put_word : (c : ℕ) (p : Text) → put c p (tokens p) ≡ (c ∷ word p) ∷ tokens (after (skip_word p))
unfolding tokens word skip_word
put_word c [] = refl
put_word c (d ∷ p) = elim (Bool-cases (blank d)) [
  | inl bd ↦ rw bd refl
  | inr bd ↦ rw bd (ap (extend c) (put_word d p))
]

parse_words-after :
    (k : ℕ) (p : Text) → parse_words k (after p) ≡ elim p [ [] ↦ [] | _ ∷ r ↦ parse_words k r ]
unfolding parse_words skip_blanks
parse_words-after zero [] = refl
parse_words-after (suc k) [] = refl
parse_words-after k (d ∷ r) = refl

skip_blanks-cases :
    (p : Text)
    → (skip_blanks p ≡ []) ⊎ ((c : ℕ) × (q : Text) × (skip_blanks p ≡ c ∷ q) × (blank c ≡ false))
unfolding skip_blanks
skip_blanks-cases [] = inl refl
skip_blanks-cases (c ∷ p) = elim (Bool-cases (blank c)) [
  | inl b ↦ rw b (skip_blanks-cases p)
  | inr b ↦ inr (c, p, rw b refl, b)
]

tokens_first :
    (p : Text) (c : ℕ) (q : Text)
    → skip_blanks p ≡ c ∷ q
    → blank c ≡ false
    → tokens p ≡ (c ∷ word q) ∷ tokens (after (skip_word q))
unfolding tokens
tokens_first p c q e b = sym (tokens-skip_blanks p) ∙ ap tokens e ∙ at_byte
  where
    at_byte : tokens (c ∷ q) ≡ (c ∷ word q) ∷ tokens (after (skip_word q))
    at_byte = rw b (put_word c q)

parse_words-tokens : (k : ℕ) (p : Text) → parse_words k p ≡ take k (tokens p)
unfolding parse_words word skip_word tokens
parse_words-tokens zero p = refl
parse_words-tokens (suc k) p = elim (skip_blanks-cases p) [
  | inl e ↦ rw (e, parse_words) (ap (take (suc k)) (sym (sym (tokens-skip_blanks p) ∙ ap tokens e)))
  | inr (c, q, e, b) ↦
      rw (e, parse_words)
        (rw (b, word, skip_word)
          (sym (
            ap (take (suc k)) (tokens_first p c q e b)
            ∙ ap (λ ws. (c ∷ word q) ∷ ws)
                (sym (parse_words-tokens k (after (skip_word q)))
                  ∙ parse_words-after k (skip_word q)))))
]

-- A word as `parse_line` can give it.
abbrev pub IsWord : Text → Type 0
IsWord w = (w ≢ []) × All (λ c. blank c ≡ false) w

-- The words with one space between them.
abbrev pub join : List Text → Text
join [] = []
join (w ∷ []) = w
join (w ∷ v ∷ ws) = w ++ space ∷ join (v ∷ ws)

put-append :
    (c : ℕ) (w s : Text)
    → All (λ d. blank d ≡ false) w
    → put c (w ++ space ∷ s) (tokens (w ++ space ∷ s)) ≡ (c ∷ w) ∷ tokens s
unfolding tokens
put-append c [] s h = refl
put-append c (d ∷ w) s h = rw h.0 (ap (extend c) (put-append d w s h.1))

put_last : (c : ℕ) (w : Text) → All (λ d. blank d ≡ false) w → put c w (tokens w) ≡ (c ∷ w) ∷ []
unfolding tokens
put_last c [] h = refl
put_last c (d ∷ w) h = rw h.0 (ap (extend c) (put_last d w h.1))

tokens-join : (ws : List Text) → All IsWord ws → tokens (join ws) ≡ ws
unfolding tokens
tokens-join [] h = refl
tokens-join ([] ∷ ws) h = absurd ((h.0).0 refl)
tokens-join ((c ∷ w) ∷ []) h = rw (h.0).1.0 (put_last c w (h.0).1.1)
tokens-join ((c ∷ w) ∷ v ∷ ws) h =
    rw (h.0).1.0
      (put-append c w (join (v ∷ ws)) (h.0).1.1 ∙ ap (λ l. (c ∷ w) ∷ l) (tokens-join (v ∷ ws) h.1))

-- `parse_line` finds the longest stretches without a space or tab, in order, up to as many as argv
-- has room for before the null pointer that ends it, whatever the line is.
pub parse_line-tokens :
    (line : Text) (max_args : ℕ) → parse_line line max_args ≡ take (max_args - 1) (tokens line)
unfolding parse_line
parse_line-tokens line max_args = parse_words-tokens (max_args - 1) line

-- Words that are not empty and have no space or tab, fewer than argv has entries, are parsed to the
-- same words when they are joined by single spaces.
pub parse_line-join :
    (ws : List Text) (max_args : ℕ)
    → All IsWord ws
    → length ws < max_args
    → parse_line (join ws) max_args ≡ ws
unfolding parse_line
parse_line-join ws max_args h k =
    parse_words-tokens (max_args - 1) (join ws)
    ∙ ap (take (max_args - 1)) (tokens-join ws h)
    ∙ take-all (max_args - 1) ws (omega (arith, k))
