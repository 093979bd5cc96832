-- ===== src/Shell/Words.antt =====
-- user/eafitos.c, parse_line: a line cut into the words between its spaces and tabs.
pub mod Tokens
use eafitos.Base.{ℕ, zero, suc, ◌-◌, Bool, true, false, ◌||◌, List, [], ◌∷◌, ◌==◌, if◌then◌else◌}
use eafitos.Shell.Text.{Text, space, tab}

abbrev pub blank : ℕ → Bool
blank c = c == space || c == tab

-- `while (*p == ' ' || *p == '\t') p++`
unfoldable pub skip_blanks : Text → Text
skip_blanks [] = []
skip_blanks (c ∷ p) = if blank c then skip_blanks p else c ∷ p

-- The word at p, which the NUL written after it ends.
unfoldable pub word : Text → Text
word [] = []
word (c ∷ p) = if blank c then [] else c ∷ word p

-- `while (*p && *p != ' ' && *p != '\t') p++`
unfoldable pub skip_word : Text → Text
skip_word [] = []
skip_word (c ∷ p) = if blank c then c ∷ p else skip_word p

-- The loop of `parse_line` at p, with so many entries of argv left before the null pointer.
unfoldable pub parse_words : ℕ → Text → List Text
parse_words zero p = []
parse_words (suc k) p = elim (skip_blanks p) [
  | [] ↦ []
  | c ∷ q ↦ word (c ∷ q) ∷ elim (skip_word (c ∷ q)) [ [] ↦ [] | _ ∷ r ↦ parse_words k r ]
]

-- `argv[0]`, .. `argv[argc - 1]`
unfoldable pub parse_line : Text → ℕ → List Text
parse_line line max_args = parse_words (max_args - 1) line
