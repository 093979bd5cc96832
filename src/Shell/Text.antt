-- ===== src/Shell/Text.antt =====
-- user/eafitos.c, the helpers on C strings, and gets of user/ulib.c.
--
-- A text is the bytes of a C string before its NUL. No caller passes a null pointer or a buffer of no
-- size, and those tests are left out.
use eafitos.Base.{
  ℕ, zero, suc, ◌+◌, ◌-◌, Bool, true, false, not, ◌&&◌, ◌||◌, List, [], ◌∷◌, ◌++◌, Option, none,
  some, leb, ◌==◌, if◌then◌else◌, length, take, get_elem?,
}
use Prim.Native.String.{String}
use Prim.Native.Char.{code}

abbrev pub Text : Type 0
Text = List ℕ

abbrev pub codes : String → Text
codes String.[] = []
codes (String.◌∷◌ c s) = code c ∷ codes s

abbrev pub newline : ℕ
newline = 10

abbrev pub carriage_return : ℕ
carriage_return = 13

abbrev pub space : ℕ
space = 32

abbrev pub tab : ℕ
tab = 9

unfoldable pub streq : Text → Text → Bool
streq [] [] = true
streq [] (c ∷ b) = false
streq (c ∷ a) [] = false
streq (c ∷ a) (d ∷ b) = c == d && streq a b

abbrev pub is_newline : ℕ → Bool
is_newline c = c == newline || c == carriage_return

-- The loop of `rstrip_newlines`, at n.
unfoldable pub rstrip_from : ℕ → Text → Text
rstrip_from zero s = s
rstrip_from (suc n) s =
    let rest = rstrip_from n (take n s) in
    elim (get_elem? s n) [ none ↦ s | some c ↦ if is_newline c then rest else s ]

unfoldable pub rstrip_newlines : Text → Text
rstrip_newlines s = rstrip_from (length s) s

unfoldable pub is_blank : Text → Bool
is_blank [] = true
is_blank (c ∷ s) =
    if not (c == space) && not (c == tab) && not (c == newline) && not (c == carriage_return)
    then false
    else is_blank s

-- Whether the copy is made, and what the buffer of dsz bytes holds afterwards.
unfoldable pub safe_copy : ℕ → Text → Text → Bool × Text
safe_copy dsz dst src = if leb dsz (length src) then (false, dst) else (true, src)

unfoldable pub safe_cat : ℕ → Text → Text → Bool × Text
safe_cat dsz dst src =
    if leb dsz (length dst + length src) then (false, dst) else (true, dst ++ src)

-- What the calls of `read(0, &c, 1)` give: a byte, or `none` for a result below 1. After the last
-- entry every call gives such a result.
abbrev pub Input : Type 0
Input = List (Option ℕ)

-- `gets`, with room for so many bytes before the NUL: the bytes and the input that is left.
unfoldable pub gets_loop : ℕ → Input → Text × Input
gets_loop zero inp = ([], inp)
gets_loop (suc k) [] = ([], [])
gets_loop (suc k) (none ∷ inp) = ([], inp)
gets_loop (suc k) (some c ∷ inp) =
    let rest = gets_loop k inp in if is_newline c then (c ∷ [], inp) else (c ∷ rest.0, rest.1)

-- The C string at the start of a buffer.
unfoldable pub until_nul : Text → Text
until_nul [] = []
until_nul (c ∷ s) = if c == 0 then [] else c ∷ until_nul s

-- `gets` gives the text in its buffer, for the pointer that it returns, and the input that is left;
-- `none` is the null pointer.
unfoldable pub gets : ℕ → Input → Option Text × Input
gets max inp = (some (until_nul (gets_loop (max - 1) inp).0), (gets_loop (max - 1) inp).1)
