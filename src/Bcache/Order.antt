-- ===== src/Bcache/Order.antt =====
-- The two searches of `bget`, and the list under `brelse`.
use eafitos.Base.{
  ℕ, ◌≡◌, ◌≢◌, ◌⊎◌, inl, inr, refl, sym, ◌∙◌, subst, true, false, none, some, List, [], ◌∷◌, arith,
  ◌==◌, Bool-cases, Option-cases,
}
use eafitos.Bcache.{Buf, holds, cached, unused, remove}

abbrev pub In : ℕ → List ℕ → Type 0
In a [] = ⊥
In a (x ∷ xs) = (a ≡ x) ⊎ In a xs

-- After the buffer b, all are in use.
abbrev pub Behind : (ℕ → Buf) → ℕ → List ℕ → Type 0
Behind buf b [] = ⊥
Behind buf b (x ∷ xs) = ((b ≡ x) × ((c : ℕ) → In c xs → (buf c).refcnt ≢ 0)) ⊎ Behind buf b xs

pub cached_some :
    (buf : ℕ → Buf) (dev blockno : ℕ) (xs : List ℕ) (b : ℕ)
    → cached buf dev blockno xs ≡ some b
    → In b xs × (holds (buf b) dev blockno ≡ true)
unfolding cached
cached_some buf dev blockno [] b e = cc
cached_some buf dev blockno (x ∷ xs) b e = elim (Bool-cases (holds (buf x) dev blockno)) [
  | inl h ↦
      let f : some x ≡ some b = sym (rw h refl) ∙ e in
      let g : x ≡ b = cc in (inl (sym g), subst (λ y. holds (buf y) dev blockno ≡ true) g h)
  | inr h ↦
      let f : cached buf dev blockno xs ≡ some b = sym (rw h refl) ∙ e in
      let (i, k) = cached_some buf dev blockno xs b f in (inr i, k)
]

pub cached_none :
    (buf : ℕ → Buf) (dev blockno : ℕ) (xs : List ℕ)
    → cached buf dev blockno xs ≡ none
    → (c : ℕ) → In c xs
    → holds (buf c) dev blockno ≡ false
unfolding cached
cached_none buf dev blockno [] e c i = absurd i
cached_none buf dev blockno (x ∷ xs) e c i = elim (Bool-cases (holds (buf x) dev blockno)) [
  | inl h ↦ let f : some x ≡ none = sym (rw h refl) ∙ e in cc
  | inr h ↦
      let f : cached buf dev blockno xs ≡ none = sym (rw h refl) ∙ e in
      elim i [
        | inl q ↦ subst (λ y. holds (buf y) dev blockno ≡ false) (sym q) h
        | inr j ↦ cached_none buf dev blockno xs f c j
      ]
]

pub unused_none :
    (buf : ℕ → Buf) (xs : List ℕ) → unused buf xs ≡ none → (c : ℕ) → In c xs → (buf c).refcnt ≢ 0
unfolding unused
unused_none buf [] e c i = absurd i
unused_none buf (x ∷ xs) e c i = elim (Option-cases (unused buf xs)) [
  | inr (d, h) ↦ let f : some d ≡ none = sym (rw h refl) ∙ e in cc
  | inl h ↦ elim (Bool-cases ((buf x).refcnt == 0)) [
    | inl z ↦ let f : some x ≡ none = sym (rw (h, z) refl) ∙ e in cc
    | inr z ↦ elim i [
      | inl q ↦ subst (λ y. (buf y).refcnt ≢ 0) (sym q) (ground (arith, z))
      | inr j ↦ unused_none buf xs h c j
    ]
  ]
]

pub unused_some :
    (buf : ℕ → Buf) (xs : List ℕ) (b : ℕ)
    → unused buf xs ≡ some b
    → In b xs × ((buf b).refcnt ≡ 0) × Behind buf b xs
unfolding unused
unused_some buf [] b e = cc
unused_some buf (x ∷ xs) b e = elim (Option-cases (unused buf xs)) [
  | inr (d, h) ↦
      let f : some d ≡ some b = sym (rw h refl) ∙ e in
      let g : unused buf xs ≡ some b = h ∙ f in
      let (i, z, k) = unused_some buf xs b g in (inr i, z, inr k)
  | inl h ↦ elim (Bool-cases ((buf x).refcnt == 0)) [
    | inl z ↦
        let f : some x ≡ some b = sym (rw (h, z) refl) ∙ e in
        let g : x ≡ b = cc in
        (
          inl (sym g),
          subst (λ y. (buf y).refcnt ≡ 0) g (ground (arith, z)),
          inl (sym g, unused_none buf xs h),
        )
    | inr z ↦ let f : none ≡ some b = sym (rw (h, z) refl) ∙ e in cc
  ]
]

-- `brelse` keeps the buffers of the list.
pub In-moved : (a b : ℕ) (xs : List ℕ) → In b xs → In a (b ∷ remove b xs) → In a xs
In-moved a b xs i (inl e) = subst (λ y. In y xs) (sym e) i
In-moved a b [] i (inr j) = absurd j
In-moved a b (x ∷ xs) i (inr j) = elim (Bool-cases (x == b)) [
  | inl z ↦ let r : remove b (x ∷ xs) ≡ xs = rw z refl in inr (subst (In a) r j)
  | inr z ↦
      let r : remove b (x ∷ xs) ≡ x ∷ remove b xs = rw z refl in
      let k : In a (x ∷ remove b xs) = subst (In a) r j in
      elim k [
        | inl e ↦ inl e
        | inr l ↦ elim i [
          | inl e ↦ absurd (ground (arith, z, e))
          | inr n ↦ inr (In-moved a b xs n (inr l))
        ]
      ]
]
