-- ===== src/Shell/History/Recent.antt =====
-- The history against the list of all lines.
use eafitos.Base.{
  ℕ, zero, suc, ◌+◌, ◌-◌, ◌%◌, ◌≤◌, ◌<◌, ◌≡◌, refl, sym, ap, ◌∙◌, List, [], ◌∷◌, ◌++◌, arith, ltb,
  leb, Bool-cases, inl, inr, length, take, drop, length-append, length-drop, take-all, subst,
  append-nil, append_assoc, min, ltb→lt, update, update_self, update_ne,
}
use eafitos.Shell.Text.{Text}
use eafitos.Shell.History.{
  History, hist_size, max_line, no_history, row, history_add, print_rows, history_print,
}

-- The rows that lines leave, empty lines aside.
abbrev pub rows : List Text → List Text
rows [] = []
rows ([] ∷ lines) = rows lines
rows ((c ∷ line) ∷ lines) = take 255 (c ∷ line) ∷ rows lines

abbrev pub last_ten : List Text → List Text
last_ten xs = drop (length xs - hist_size) xs

-- Numbered from i + 1 on.
abbrev pub numbered : ℕ → List Text → List (ℕ × Text)
numbered i [] = []
numbered i (x ∷ xs) = (i + 1, x) ∷ numbered (i + 1) xs

abbrev pub history_of : History → List Text → History
history_of h [] = h
history_of h (line ∷ lines) = history_of (history_add h line) lines

-- The n rows from s on, around the ring.
abbrev window : (ℕ → Text) → ℕ → ℕ → List Text
window d s zero = []
window d s (suc n) = d (s % hist_size) ∷ window d (s + 1) n

abbrev start : History → ℕ
start h = (h.hist_next + hist_size - h.hist_count) % hist_size

-- The ring holds the last ten of the rows xs.
record Holds (h : History) (xs : List Text) : Type 0 where
  next_fits : h.hist_next < hist_size
  count_fits : h.hist_count ≤ hist_size
  held : window h.hist (start h) h.hist_count ≡ last_ten xs

print_rows-numbered :
    (d : ℕ → Text) (s i n : ℕ) → print_rows d s i n ≡ numbered i (window d (s + i) n)
unfolding print_rows
print_rows-numbered d s i zero = refl
print_rows-numbered d s i (suc n) =
    let e : s + (i + 1) ≡ s + i + 1 = omega arith in
    ap (λ l. (i + 1, d ((s + i) % hist_size)) ∷ l)
      (print_rows-numbered d s (i + 1) n ∙ ap (λ k. numbered (i + 1) (window d k n)) e)

length-window : (d : ℕ → Text) (s n : ℕ) → length (window d s n) ≡ n
length-window d s zero = refl
length-window d s (suc n) = ap suc (length-window d (s + 1) n)

window-mod :
    (d : ℕ → Text) (s t n : ℕ) → s % hist_size ≡ t % hist_size → window d s n ≡ window d t n
window-mod d s t zero h = refl
window-mod d s t (suc n) h = λ i. d (h i) ∷ window-mod d (s + 1) (t + 1) n (omega (arith, h)) i

-- A write at the row after a window that is not full extends it.
window-update :
    (d : ℕ → Text) (l : Text) (s n w : ℕ)
    → n < hist_size
    → w ≡ (s + n) % hist_size
    → window (update d w l) s (suc n) ≡ window d s n ++ l ∷ []
window-update d l s zero w h e =
    let q : s % hist_size ≡ w = omega (arith, e) in rw q (ap (λ x. x ∷ []) (update_self d w l))
window-update d l s (suc n) w h e = λ i.
    update_ne d w l (s % hist_size) (omega (arith, e)) i
    ∷ window-update d l (s + 1) n w (omega arith) (omega (arith, e)) i

drop_all : (xs ys : List Text) (k : ℕ) → k ≤ length xs → drop k (xs ++ ys) ≡ drop k xs ++ ys
drop_all xs ys zero h = refl
drop_all [] ys (suc k) h = absurd (omega (arith, h))
drop_all (x ∷ xs) ys (suc k) h = drop_all xs ys k (omega (arith, h))

drop_tail : (k : ℕ) (xs : List Text) → drop (suc k) xs ≡ drop 1 (drop k xs)
drop_tail zero xs = refl
drop_tail (suc k) [] = refl
drop_tail (suc k) (x ∷ xs) = drop_tail k xs

last_ten_short :
    (xs : List Text) (l : Text)
    → length xs < hist_size
    → last_ten (xs ++ l ∷ []) ≡ last_ten xs ++ l ∷ []
last_ten_short xs l h =
    let a : length (xs ++ l ∷ []) - hist_size ≡ 0 = omega (arith, length-append xs (l ∷ [])) in
    let b : length xs - hist_size ≡ 0 = omega arith in
    ap (λ k. drop k (xs ++ l ∷ [])) a ∙ ap (λ k. drop k xs ++ l ∷ []) (sym b)

last_ten_long :
    (xs : List Text) (l : Text)
    → hist_size ≤ length xs
    → last_ten (xs ++ l ∷ []) ≡ drop 1 (last_ten xs) ++ l ∷ []
last_ten_long xs l h =
    let k : ℕ = length xs - hist_size in
    let a : length (xs ++ l ∷ []) - hist_size ≡ suc k = omega (arith, length-append xs (l ∷ [])) in
    ap (λ j. drop j (xs ++ l ∷ [])) a
    ∙ drop_all xs (l ∷ []) (suc k) (omega arith)
    ∙ ap (λ ys. ys ++ l ∷ []) (drop_tail k xs)

-- How many rows are counted: all, up to ten.
count_rows : (h : History) (xs : List Text) → Holds h xs → h.hist_count ≡ min (length xs) hist_size
count_rows h xs v = omega (
  arith,
  length-window h.hist (start h) h.hist_count,
  ap length v.held,
  length-drop (length xs - hist_size) xs,
)

module _ (h : History) (xs : List Text) (l : Text) (v : Holds h xs) where
  grown : ℕ → Text
  grown = update h.hist h.hist_next l

  held_short :
      h.hist_count < hist_size
      → window grown
          (((h.hist_next + 1) % hist_size + hist_size - suc h.hist_count) % hist_size)
          (suc h.hist_count)
        ≡ last_ten (xs ++ l ∷ [])
  unfolding grown
  held_short k =
      window-mod grown (((h.hist_next + 1) % hist_size + hist_size - suc h.hist_count) % hist_size)
        (start h) (suc h.hist_count) (omega (arith, v.next_fits, v.count_fits))
      ∙ window-update h.hist l (start h) h.hist_count h.hist_next k
          (omega (arith, v.next_fits, v.count_fits))
      ∙ ap (λ ys. ys ++ l ∷ []) v.held
      ∙ sym (last_ten_short xs l (omega (arith, count_rows h xs v)))

  held_long :
      h.hist_count ≡ hist_size
      → window grown
          (((h.hist_next + 1) % hist_size + hist_size - h.hist_count) % hist_size)
          h.hist_count
        ≡ last_ten (xs ++ l ∷ [])
  unfolding grown
  held_long q =
      ap (window grown (((h.hist_next + 1) % hist_size + hist_size - h.hist_count) % hist_size)) q
      ∙ window-mod grown (((h.hist_next + 1) % hist_size + hist_size - h.hist_count) % hist_size)
          (start h + 1) 10 (omega (arith, v.next_fits))
      ∙ window-update h.hist l (start h + 1) 9 h.hist_next (omega arith)
          (omega (arith, v.next_fits))
      ∙ ap (λ ys. drop 1 ys ++ l ∷ []) (ap (window h.hist (start h)) (sym q) ∙ v.held)
      ∙ sym (last_ten_long xs l (omega (arith, count_rows h xs v)))

Holds-add :
    (h : History) (xs : List Text) (c : ℕ) (line : Text)
    → Holds h xs
    → Holds (history_add h (c ∷ line)) (xs ++ row (c ∷ line) ∷ [])
unfolding history_add grown
Holds-add h xs c line v = elim (Bool-cases (ltb h.hist_count hist_size)) [
  | inl t ↦ rw t (record {
    next_fits = omega arith;
    count_fits = ltb→lt h.hist_count hist_size t;
    held = held_short h xs (row (c ∷ line)) v (ltb→lt h.hist_count hist_size t);
  })
  | inr t ↦ rw t (record {
    next_fits = omega arith;
    count_fits = v.count_fits;
    held = held_long h xs (row (c ∷ line)) v (ground (arith, v.count_fits, t));
  })
]

row_short : (line : Text) → row line ≡ take 255 line
row_short line = elim (Bool-cases (leb max_line (length line))) [
  | inl t ↦ rw t refl
  | inr t ↦
      rw t (take-all (length line) line (omega arith) ∙ sym (take-all 255 line (ground (arith, t))))
]

Holds-history_of :
    (lines : List Text) (h : History) (xs : List Text)
    → Holds h xs
    → Holds (history_of h lines) (xs ++ rows lines)
unfolding history_add
Holds-history_of [] h xs v = subst (λ ys. Holds h ys) (sym (append-nil xs)) v
Holds-history_of ([] ∷ lines) h xs v = Holds-history_of lines h xs v
Holds-history_of ((c ∷ line) ∷ lines) h xs v =
    subst (λ ys. Holds (history_of (history_add h (c ∷ line)) lines) ys)
      (append_assoc xs (row (c ∷ line) ∷ []) (rows lines)
        ∙ ap (λ r. xs ++ r ∷ rows lines) (row_short (c ∷ line)))
      (Holds-history_of lines (history_add h (c ∷ line)) (xs ++ row (c ∷ line) ∷ [])
        (Holds-add h xs c line v))

no_history-Holds : Holds no_history []
no_history-Holds = record { next_fits = omega arith; count_fits = omega arith; held = refl }

-- After any sequence of lines, from the empty history on, `history_print` prints the last ten of
-- the lines that are not empty, oldest first, numbered from 1 and each cut to 255 bytes.
pub history_print-last_ten :
    (lines : List Text)
    → history_print (history_of no_history lines) ≡ numbered 0 (last_ten (rows lines))
unfolding history_print
history_print-last_ten lines =
    let h = history_of no_history lines in
    let v : Holds h (rows lines) = Holds-history_of lines no_history [] no_history-Holds in
    let e : start h + 0 ≡ start h = omega arith in
    print_rows-numbered h.hist (start h) 0 h.hist_count
    ∙ ap (λ s. numbered 0 (window h.hist s h.hist_count)) e
    ∙ ap (numbered 0) v.held
