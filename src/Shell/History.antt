-- ===== src/Shell/History.antt =====
-- user/eafitos.c, the history: a ring of the last ten lines.
pub mod Recent
use eafitos.Base.{
  ℕ, zero, suc, ◌+◌, ◌-◌, ◌%◌, Bool, true, false, List, [], ◌∷◌, ltb, leb, if◌then◌else◌, length,
  take, update,
}
use eafitos.Shell.Text.{Text}

abbrev pub hist_size : ℕ
hist_size = 10

abbrev pub max_line : ℕ
max_line = 256

pub record History : Type 0 where
  pub hist : ℕ → Text
  pub hist_count : ℕ
  pub hist_next : ℕ

abbrev pub no_history : History
no_history = record { hist = λ i. []; hist_count = 0; hist_next = 0 }

-- What one row of `hist` keeps of a line.
abbrev pub row : Text → Text
row line = take (if leb max_line (length line) then max_line - 1 else length line) line

unfoldable pub history_add : History → Text → History
history_add h [] = h
history_add h (c ∷ line) = record {
  hist = update h.hist h.hist_next (row (c ∷ line));
  hist_count = if ltb h.hist_count hist_size then suc h.hist_count else h.hist_count;
  hist_next = (h.hist_next + 1) % hist_size;
}

-- The loop of `history_print`, over n lines from i on: the numbers and the lines printed.
unfoldable pub print_rows : (ℕ → Text) → ℕ → ℕ → ℕ → List (ℕ × Text)
print_rows hist start i zero = []
print_rows hist start i (suc n) =
    (i + 1, hist ((start + i) % hist_size)) ∷ print_rows hist start (i + 1) n

-- `int` arithmetic, where hist_next - hist_count + HIST_SIZE is never negative.
unfoldable pub history_print : History → List (ℕ × Text)
history_print h =
    print_rows h.hist ((h.hist_next + hist_size - h.hist_count) % hist_size) 0 h.hist_count
