-- ===== src/Fs/Path.antt =====
-- kernel/fs.c: skipelem, over the bytes of a path before its NUL.
use eafitos.Base.{
  ℕ, zero, suc, ◌<◌, ◌≤◌, ◌≡◌, refl, sym, ap, ◌∙◌, subst, true, false, ◌==◌, arith, if◌then◌else◌,
  Option, none, some, List, [], ◌∷◌, map, take, length, Bool-cases, inl, inr,
}

abbrev pub dirsiz : ℕ
dirsiz = 14

abbrev pub slash : ℕ
slash = 47

-- `while(*path == '/') path++`
unfoldable pub skip_slashes : List ℕ → List ℕ
skip_slashes [] = []
skip_slashes (c ∷ s) = if c == slash then skip_slashes s else c ∷ s

-- The bytes before the next slash, and the rest from it on.
unfoldable pub element : List ℕ → List ℕ
element [] = []
element (c ∷ s) = if c == slash then [] else c ∷ element s

unfoldable pub after : List ℕ → List ℕ
after [] = []
after (c ∷ s) = if c == slash then c ∷ s else after s

-- The name that is copied, up to its NUL or DIRSIZ bytes, and the path that is left.
abbrev pub parts : List ℕ → Option (List ℕ × List ℕ)
parts [] = none
parts (c ∷ s) = some (take dirsiz (element (c ∷ s)), skip_slashes (after (c ∷ s)))

unfoldable pub skipelem : List ℕ → Option (List ℕ × List ℕ)
skipelem path = parts (skip_slashes path)

-- The names that the loop of `namex` meets in k rounds.
unfoldable pub names : ℕ → List ℕ → List (List ℕ)
names zero path = []
names (suc k) path = elim (skipelem path) [ none ↦ [] | some r ↦ r.0 ∷ names k r.1 ]

-- A path split at every slash.
abbrev push : ℕ → List (List ℕ) → List (List ℕ)
push c [] = (c ∷ []) ∷ []
push c (w ∷ ws) = (c ∷ w) ∷ ws

abbrev pub split : List ℕ → List (List ℕ)
split [] = [] ∷ []
split (c ∷ s) = if c == slash then [] ∷ split s else push c (split s)

abbrev pub non_empty : List (List ℕ) → List (List ℕ)
non_empty [] = []
non_empty ([] ∷ ws) = non_empty ws
non_empty ((c ∷ w) ∷ ws) = (c ∷ w) ∷ non_empty ws

-- The first part of a split, and the others.
rest_of : List ℕ → List (List ℕ)
rest_of [] = []
rest_of (c ∷ s) = if c == slash then split s else rest_of s

split_parts : (s : List ℕ) → split s ≡ element s ∷ rest_of s
unfolding element rest_of
split_parts [] = refl
split_parts (c ∷ s) = elim (Bool-cases (c == slash)) [
  | inl h ↦ rw h refl
  | inr h ↦ rw h (ap (push c) (split_parts s))
]

module _ (c : ℕ) (s : List ℕ) where
  skip_other : (c == slash) ≡ false → skip_slashes (c ∷ s) ≡ c ∷ s
  unfolding skip_slashes
  skip_other h = rw h refl

  skip_slash : (c == slash) ≡ true → skip_slashes (c ∷ s) ≡ skip_slashes s
  unfolding skip_slashes
  skip_slash h = rw h refl

  after-slash : (c == slash) ≡ true → after (c ∷ s) ≡ c ∷ s
  unfolding after
  after-slash h = rw h refl

  after_other : (c == slash) ≡ false → after (c ∷ s) ≡ after s
  unfolding after
  after_other h = rw h refl

  element_other : (c == slash) ≡ false → element (c ∷ s) ≡ c ∷ element s
  unfolding element
  element_other h = rw h refl

  rest_slash : (c == slash) ≡ true → rest_of (c ∷ s) ≡ split s
  unfolding rest_of
  rest_slash h = rw h refl

  rest_other : (c == slash) ≡ false → rest_of (c ∷ s) ≡ rest_of s
  unfolding rest_of
  rest_other h = rw h refl

  split-slash : (c == slash) ≡ true → split (c ∷ s) ≡ [] ∷ split s
  split-slash h = rw h refl

skip_nil : skip_slashes [] ≡ []
unfolding skip_slashes
skip_nil = refl

split_skip : (s : List ℕ) → non_empty (split (skip_slashes s)) ≡ non_empty (split s)
split_skip [] = ap (λ x. non_empty (split x)) skip_nil
split_skip (c ∷ s) = elim (Bool-cases (c == slash)) [
  | inl h ↦
      ap (λ x. non_empty (split x)) (skip_slash c s h)
      ∙ split_skip s
      ∙ sym (ap non_empty (split-slash c s h))
  | inr h ↦ ap (λ x. non_empty (split x)) (skip_other c s h)
]

split-after : (s : List ℕ) → non_empty (split (after s)) ≡ non_empty (rest_of s)
unfolding after rest_of
split-after [] = refl
split-after (c ∷ s) = elim (Bool-cases (c == slash)) [
  | inl h ↦
      ap (λ x. non_empty (split x)) (after-slash c s h)
      ∙ ap non_empty (split-slash c s h)
      ∙ sym (ap non_empty (rest_slash c s h))
  | inr h ↦
      ap (λ x. non_empty (split x)) (after_other c s h)
      ∙ split-after s
      ∙ sym (ap non_empty (rest_other c s h))
]

skip-le : (s : List ℕ) → length (skip_slashes s) ≤ length s
unfolding skip_slashes
skip-le [] = omega arith
skip-le (c ∷ s) = elim (Bool-cases (c == slash)) [
  | inl h ↦ rw h (omega (arith, skip-le s))
  | inr h ↦ rw h (omega arith)
]

after-le : (s : List ℕ) → length (after s) ≤ length s
unfolding after
after-le [] = omega arith
after-le (c ∷ s) = elim (Bool-cases (c == slash)) [
  | inl h ↦ rw h (omega arith)
  | inr h ↦ rw h (omega (arith, after-le s))
]

-- A path without slashes in front starts with another byte.
starts : (s t : List ℕ) (c : ℕ) → skip_slashes s ≡ c ∷ t → (c == slash) ≡ false
unfolding skip_slashes
starts [] t c e = cc
starts (x ∷ s) t c e = elim (Bool-cases (x == slash)) [
  | inl h ↦ starts s t c (sym (rw h refl) ∙ e)
  | inr h ↦
      let f : x ∷ s ≡ c ∷ t = sym (rw h refl) ∙ e in
      let g : x ≡ c = cc in subst (λ y. (y == slash) ≡ false) g h
]

-- The names of a path whose slashes in front are skipped.
wanted : (path p : List ℕ) → skip_slashes path ≡ p → non_empty (split path) ≡ non_empty (split p)
wanted path p e = sym (split_skip path) ∙ ap (λ x. non_empty (split x)) e

wanted_first :
    (c : ℕ) (t : List ℕ)
    → (c == slash) ≡ false
    → non_empty (split (c ∷ t)) ≡ element (c ∷ t) ∷ non_empty (split (skip_slashes (after (c ∷ t))))
wanted_first c t h =
    ap non_empty (split_parts (c ∷ t))
    ∙ ap (λ w. non_empty (w ∷ rest_of (c ∷ t))) (element_other c t h)
    ∙ ap (λ w. w ∷ non_empty (rest_of (c ∷ t))) (sym (element_other c t h))
    ∙ ap (λ ws. element (c ∷ t) ∷ ws) (sym (split_skip (after (c ∷ t)) ∙ split-after (c ∷ t)))

names_step :
    (k : ℕ) (path p : List ℕ)
    → skip_slashes path ≡ p
    → names (suc k) path ≡ elim (parts p) [ none ↦ [] | some r ↦ r.0 ∷ names k r.1 ]
unfolding names skipelem
names_step k path p e = ap (λ q. elim (parts q) [ none ↦ [] | some r ↦ r.0 ∷ names k r.1 ]) e

shorter :
    (path t : List ℕ) (c : ℕ)
    → skip_slashes path ≡ c ∷ t
    → length (skip_slashes (after (c ∷ t))) < length path
shorter path t c e =
    let h = starts path t c e in
    let a = ap length (after_other c t h) in
    let b = ap length e in omega (arith, a, b, after-le t, skip-le path, skip-le (after (c ∷ t)))

names_from :
    (k : ℕ) (path p : List ℕ)
    → length path ≤ k
    → skip_slashes path ≡ p
    → names k path ≡ map (take dirsiz) (non_empty (split path))
unfolding names
names_from zero path [] le e = sym (ap (map (take dirsiz)) (wanted path [] e))
names_from zero path (c ∷ t) le e = absurd (omega (arith, skip-le path, le, ap length e))
names_from (suc k) path [] le e =
    names_step k path [] e ∙ sym (ap (map (take dirsiz)) (wanted path [] e))
names_from (suc k) path (c ∷ t) le e =
    let h = starts path t c e in
    let less = shorter path t c e in
    names_step k path (c ∷ t) e
    ∙ ap (λ ws. take dirsiz (element (c ∷ t)) ∷ ws)
        (names_from k (skip_slashes (after (c ∷ t))) (skip_slashes (skip_slashes (after (c ∷ t))))
          (omega (arith, less, le)) refl)
    ∙ sym (ap (map (take dirsiz)) (wanted path (c ∷ t) e ∙ wanted_first c t h))

-- As many rounds as the path has bytes are enough for `skipelem` to come to its end, and the names
-- that it gives are the non-empty parts between slashes, in order, each cut to its first 14 bytes.
pub names-split :
    (k : ℕ) (path : List ℕ)
    → length path ≤ k
    → names k path ≡ map (take dirsiz) (non_empty (split path))
names-split k path le = names_from k path (skip_slashes path) le refl
