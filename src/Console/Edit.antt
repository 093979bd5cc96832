-- ===== src/Console/Edit.antt =====
-- The handler against the lines that a reader can have and the line that is being typed.
use eafitos.Base.{
  ℕ, zero, suc, ◌+◌, ◌%◌, ◌^◌, ◌≤◌, ◌<◌, ◌≡◌, ◌≢◌, refl, sym, ap, ◌∙◌, subst, true, not, ◌&&◌, ◌||◌,
  List, [], ◌∷◌, ◌++◌, All, arith, ltb, ◌==◌, ==_of_ne, if◌then◌else◌, Bool-cases, inl, inr,
  ℕ_discrete, update, update_self, length,
}
use eafitos.Console.{
  Cons, input_buf_size, u32, minus, newline, control_d, kill_line, erase_byte, stored, commit_line,
  insert_byte, consoleintr,
}
use eafitos.Console.Ring.{window, length-window, window-suc, window-add, window-frame}

abbrev pub ready : Cons → List ℕ
ready c = window c.buf c.r (minus c.w c.r)

abbrev pub line : Cons → List ℕ
line c = window c.buf c.w (minus c.e c.w)

pub record IsValid (c : Cons) : Type 0 where
  pub read_fits : c.r < 2 ^ 32
  pub write_fits : c.w < 2 ^ 32
  pub edit_fits : c.e < 2 ^ 32
  pub bounded : minus c.w c.r + minus c.e c.w ≤ input_buf_size
  pub unfinished : All (λ ch. ch ≢ newline) (line c)

abbrev pub without_last : List ℕ → List ℕ
without_last [] = []
without_last (x ∷ []) = []
without_last (x ∷ y ∷ xs) = x ∷ without_last (y ∷ xs)

-- What a byte typed does to the lines that are ready and the line being typed.
abbrev pub edit : List ℕ → List ℕ → ℕ → List ℕ × List ℕ
edit ready line ch =
    if ch == 16
    then (ready, line)
    else if ch == 21
    then (ready, [])
    else if ch == 8 || ch == 127
    then (ready, without_last line)
    else if not (ch == 0) && ltb (length ready + length line) input_buf_size
    then (if stored ch == newline
          || stored ch == control_d
          || length ready + length line + 1 == input_buf_size
        then (ready ++ (line ++ stored ch ∷ []), [])
        else (ready, line ++ stored ch ∷ []))
    else (ready, line)

-- The handler keeps the ring valid and edits as given.
pub record Edited (to : List ℕ × List ℕ) (c' : Cons) : Type 0 where
  pub valid : IsValid c'
  pub now_ready : ready c' ≡ to.0
  pub now_line : line c' ≡ to.1

without_last-snoc : (xs : List ℕ) (x : ℕ) → without_last (xs ++ x ∷ []) ≡ xs
without_last-snoc [] x = refl
without_last-snoc (y ∷ []) x = refl
without_last-snoc (y ∷ z ∷ xs) x = ap (λ l. y ∷ l) (without_last-snoc (z ∷ xs) x)

All-left : (P : ℕ → Type 0) (xs ys : List ℕ) → All P (xs ++ ys) → All P xs
All-left P [] ys h = tt
All-left P (x ∷ xs) ys h = (h.0, All-left P xs ys h.1)

All-right : (P : ℕ → Type 0) (xs ys : List ℕ) → All P (xs ++ ys) → All P ys
All-right P [] ys h = h
All-right P (x ∷ xs) ys h = All-right P xs ys h.1

All-append : (P : ℕ → Type 0) (xs ys : List ℕ) → All P xs → All P ys → All P (xs ++ ys)
All-append P [] ys h k = k
All-append P (x ∷ xs) ys h k = (h.0, All-append P xs ys h.1 k)

unchanged : (c : Cons) → IsValid c → Edited (ready c, line c) c
unchanged c v = record { valid = v; now_ready = refl; now_line = refl }

-- One byte less in the line, where there is one.
module _ (c : Cons) (v : IsValid c) (ne : c.e ≢ c.w) where
  shorter : Cons
  shorter = record c { e = minus c.e 1 }

  line_snoc : line c ≡ line shorter ++ c.buf (minus c.e 1 % input_buf_size) ∷ []
  unfolding shorter
  line_snoc =
      let k : minus c.e c.w ≡ suc (minus (minus c.e 1) c.w) =
        omega (arith, v.write_fits, v.edit_fits, ne) in
      ap (window c.buf c.w) k
      ∙ window-suc c.buf c.w (minus (minus c.e 1) c.w) (minus c.e 1) v.write_fits
          (omega (arith, v.write_fits, v.edit_fits, ne))

  shorter-IsValid : IsValid shorter
  unfolding shorter
  shorter-IsValid = record {
    read_fits = v.read_fits;
    write_fits = v.write_fits;
    edit_fits = omega arith;
    bounded = omega (arith, v.write_fits, v.edit_fits, v.bounded, ne);
    unfinished =
        All-left (λ ch. ch ≢ newline) (line shorter) _
          (subst (All (λ ch. ch ≢ newline)) line_snoc v.unfinished);
  }

  shorter-line : line shorter ≡ without_last (line c)
  unfolding shorter
  shorter-line = sym (
      ap without_last line_snoc
      ∙ without_last-snoc (line shorter) (c.buf (minus c.e 1 % input_buf_size)))

  last_ne : c.buf (minus c.e 1 % input_buf_size) ≢ newline
  last_ne =
      (All-right (λ ch. ch ≢ newline) (line shorter) _
        (subst (All (λ ch. ch ≢ newline)) line_snoc v.unfinished)).0

no_line : (c : Cons) → IsValid c → c.e ≡ c.w → line c ≡ []
no_line c v q =
    let k : minus c.e c.w ≡ 0 = omega (arith, v.write_fits, q) in ap (window c.buf c.w) k

erase_byte-edits : (c : Cons) → IsValid c → Edited (ready c, without_last (line c)) (erase_byte c).0
unfolding erase_byte shorter
erase_byte-edits c v = elim (ℕ_discrete c.e c.w) [
  | yes q ↦
      let t : (c.e == c.w) ≡ true = ground (arith, q) in
      rw t (record {
        valid = v;
        now_ready = refl;
        now_line = no_line c v q ∙ sym (ap without_last (no_line c v q));
      })
  | no ne ↦
      rw (==_of_ne c.e c.w ne) (record {
        valid = shorter-IsValid c v ne;
        now_ready = refl;
        now_line = shorter-line c v ne;
      })
]

kill_line-edits :
    (n : ℕ) (c : Cons) → IsValid c → minus c.e c.w ≤ n → Edited (ready c, []) (kill_line n c).0
unfolding kill_line shorter
kill_line-edits zero c v h = record {
  valid = v;
  now_ready = refl;
  now_line = no_line c v (omega (arith, v.write_fits, v.edit_fits, h));
}
kill_line-edits (suc n) c v h = elim (ℕ_discrete c.e c.w) [
  | yes q ↦
      let t : (c.e == c.w) ≡ true = ground (arith, q) in
      rw t (record { valid = v; now_ready = refl; now_line = no_line c v q })
  | no ne ↦
      let rest =
        kill_line-edits n (shorter c v ne) (shorter-IsValid c v ne)
          (omega (arith, v.write_fits, v.edit_fits, h, ne)) in
      rw (==_of_ne c.e c.w ne) (
        rw (==_of_ne _ newline (last_ne c v ne))
          (record { valid = rest.valid; now_ready = rest.now_ready; now_line = rest.now_line }))
]

-- A byte stored at the edit index, where the ring has room.
module _ (c : Cons) (v : IsValid c) (ch : ℕ) (room : minus c.e c.r < input_buf_size) where
  grown : Cons
  grown = record c { buf = update c.buf (c.e % input_buf_size) ch; e = u32 (c.e + 1) }

  grown-ready : ready grown ≡ ready c
  unfolding grown
  grown-ready =
      window-frame c.buf ch c.r (minus c.w c.r) (minus c.e c.r) c.e
        (omega (arith, v.read_fits, v.write_fits, v.edit_fits, v.bounded)) room v.read_fits
        (omega (arith, v.read_fits, v.edit_fits))

  grown-line : line grown ≡ line c ++ ch ∷ []
  unfolding grown
  grown-line =
      let k : minus (u32 (c.e + 1)) c.w ≡ suc (minus c.e c.w) =
        omega (arith, v.read_fits, v.write_fits, v.edit_fits, v.bounded, room) in
      let w_e : c.e ≡ u32 (c.w + minus c.e c.w) = omega (arith, v.write_fits, v.edit_fits) in
      ap (window grown.buf c.w) k
      ∙ window-suc grown.buf c.w (minus c.e c.w) c.e v.write_fits w_e
      ∙ ap (λ l. l ++ grown.buf (c.e % input_buf_size) ∷ [])
          (window-frame c.buf ch c.w (minus c.e c.w) (minus c.e c.w) c.e (omega arith)
            (omega (arith, v.read_fits, v.write_fits, v.edit_fits, v.bounded, room)) v.write_fits
            w_e)
      ∙ ap (λ x. line c ++ x ∷ []) (update_self c.buf (c.e % input_buf_size) ch)

  all_ready : window grown.buf c.r (minus grown.e c.r) ≡ ready c ++ (line c ++ ch ∷ [])
  unfolding grown
  all_ready =
      let k : minus (u32 (c.e + 1)) c.r ≡ minus c.w c.r + minus (u32 (c.e + 1)) c.w =
        omega (arith, v.read_fits, v.write_fits, v.edit_fits, v.bounded, room) in
      ap (window grown.buf c.r) k
      ∙ sym (
          window-add grown.buf c.r (minus c.w c.r) (minus (u32 (c.e + 1)) c.w) c.w v.read_fits
            (omega (arith, v.read_fits, v.write_fits)))
      ∙ (λ i. grown-ready i ++ grown-line i)

  -- The byte ends the line, or fills the ring.
  committed : Edited (ready c ++ (line c ++ ch ∷ []), []) (record grown { w = grown.e })
  unfolding grown
  committed =
      let none_left : minus (u32 (c.e + 1)) (u32 (c.e + 1)) ≡ 0 = omega arith in
      let typed : window grown.buf (u32 (c.e + 1)) (minus (u32 (c.e + 1)) (u32 (c.e + 1))) ≡ [] =
        ap (window grown.buf (u32 (c.e + 1))) none_left in
      record {
        valid = record {
          read_fits = v.read_fits;
          write_fits = omega arith;
          edit_fits = omega arith;
          bounded = omega (arith, v.read_fits, v.edit_fits, room);
          unfinished = subst (All (λ x. x ≢ newline)) (sym typed) tt;
        };
        now_ready = all_ready;
        now_line = typed;
      }

  -- The line goes on.
  continued : ch ≢ newline → Edited (ready c, line c ++ ch ∷ []) grown
  unfolding grown
  continued ne = record {
    valid = record {
      read_fits = v.read_fits;
      write_fits = v.write_fits;
      edit_fits = omega arith;
      bounded = omega (arith, v.read_fits, v.write_fits, v.edit_fits, v.bounded, room);
      unfinished =
          subst (All (λ x. x ≢ newline)) (sym grown-line)
            (All-append (λ x. x ≢ newline) (line c) (ch ∷ []) v.unfinished (ne, tt));
    };
    now_ready = grown-ready;
    now_line = grown-line;
  }

  commit_line-edits :
      Edited
        (if ch == newline || ch == control_d || minus c.e c.r + 1 == input_buf_size
          then (ready c ++ (line c ++ ch ∷ []), [])
          else (ready c, line c ++ ch ∷ []))
        (commit_line grown ch).0
  unfolding commit_line grown
  commit_line-edits =
      let k : minus (u32 (c.e + 1)) c.r ≡ minus c.e c.r + 1 =
        omega (arith, v.read_fits, v.edit_fits, room) in
      rw k
        (elim (Bool-cases
          (ch == newline || ch == control_d || minus c.e c.r + 1 == input_buf_size)) [
            | inl t ↦ rw t committed
            | inr t ↦ rw t (continued (ground (arith, t)))
          ])

lengths : (c : Cons) → IsValid c → length (ready c) + length (line c) ≡ minus c.e c.r
lengths c v = omega (
  arith,
  length-window c.buf c.r (minus c.w c.r),
  length-window c.buf c.w (minus c.e c.w),
  v.read_fits,
  v.write_fits,
  v.edit_fits,
  v.bounded,
)

insert_byte-edits :
    (c : Cons) (ch : ℕ)
    → IsValid c
    → Edited
        (if not (ch == 0) && ltb (length (ready c) + length (line c)) input_buf_size
          then (if stored ch == newline
                || stored ch == control_d
                || length (ready c) + length (line c) + 1 == input_buf_size
              then (ready c ++ (line c ++ stored ch ∷ []), [])
              else (ready c, line c ++ stored ch ∷ []))
          else (ready c, line c))
        (insert_byte c ch).0
unfolding insert_byte grown
insert_byte-edits c ch v =
    let n = lengths c v in
    rw n (elim (Bool-cases (not (ch == 0) && ltb (minus c.e c.r) input_buf_size)) [
      | inl t ↦ rw t (commit_line-edits c v (stored ch) (ground (arith, t)))
      | inr t ↦ rw t (unchanged c v)
    ])

-- From a valid ring, for every byte that arrives, `consoleintr` keeps the ring valid and edits the
-- line being typed: erase takes its last byte, kill empties it, any other byte but 0 and C('P') is
-- appended if the ring has room, and a newline, an end of file or the last free place hands the
-- line to the reader. The lines handed over before stay as they are.
pub consoleintr-edits :
    (c : Cons) (ch : ℕ) → IsValid c → Edited (edit (ready c) (line c) ch) (consoleintr c ch).0
unfolding consoleintr
consoleintr-edits c ch v = elim (Bool-cases (ch == 16)) [
  | inl t ↦ rw t (unchanged c v)
  | inr t ↦ rw t (elim (Bool-cases (ch == 21)) [
    | inl u ↦ rw u (kill_line-edits (minus c.e c.w) c v (omega arith))
    | inr u ↦ rw u (elim (Bool-cases (ch == 8 || ch == 127)) [
      | inl x ↦ rw x (erase_byte-edits c v)
      | inr x ↦ rw x (insert_byte-edits c ch v)
    ])
  ])
]
