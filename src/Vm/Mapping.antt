-- ===== src/Vm/Mapping.antt =====
-- The map from addresses to leaf entries that a page table stands for.
use eafitos.Base.{
  ℕ, ◌+◌, ◌*◌, ◌≡◌, inl, inr, refl, sym, ap, ◌∙◌, subst, true, false, Option, none, some, List,
  arith, if◌then◌else◌, Bool-cases,
}
use eafitos.Memory.{Machine}
use eafitos.Vm.{valid, pte2pa, px0, px1, px2}
use eafitos.Vm.Tree.{Kind, top_table, mid_table, leaf_table, IsTable, child, Typed}

abbrev pub entry : (ℕ → ℕ) → ℕ → ℕ → ℕ
entry w t n = w (t + 8 * n)

-- The address of the leaf entry for va, where all tables above it are there.
abbrev pub leaf_slot : (ℕ → ℕ) → ℕ → ℕ → Option ℕ
leaf_slot w root va =
    let e2 = entry w root (px2 va) in
    let e1 = entry w (pte2pa e2) (px1 va) in
    if valid e2 then (if valid e1 then some (pte2pa e1 + 8 * px0 va) else none) else none

-- The leaf entry for va, or 0.
abbrev pub pte_at : (ℕ → ℕ) → ℕ → ℕ → ℕ
pte_at w root va = elim (leaf_slot w root va) [ none ↦ 0 | some s ↦ w s ]

module _ (w : ℕ → ℕ) (root va : ℕ) where
  pub slot_top : valid (entry w root (px2 va)) ≡ false → leaf_slot w root va ≡ none
  slot_top h = rw h refl

  pub slot_mid :
      (t1 : ℕ)
      → valid (entry w root (px2 va)) ≡ true
      → pte2pa (entry w root (px2 va)) ≡ t1
      → valid (entry w t1 (px1 va)) ≡ false
      → leaf_slot w root va ≡ none
  slot_mid t1 h p k =
      let k' = subst (λ t. valid (entry w t (px1 va)) ≡ false) (sym p) k in rw (h, k') refl

  pub slot_found :
      (t1 t0 : ℕ)
      → valid (entry w root (px2 va)) ≡ true
      → pte2pa (entry w root (px2 va)) ≡ t1
      → valid (entry w t1 (px1 va)) ≡ true
      → pte2pa (entry w t1 (px1 va)) ≡ t0
      → leaf_slot w root va ≡ some (t0 + 8 * px0 va)
  slot_found t1 t0 h p k q =
      let k' = subst (λ t. valid (entry w t (px1 va)) ≡ true) (sym p) k in
      let q' = subst (λ t. pte2pa (entry w t (px1 va)) ≡ t0) (sym p) q in
      rw (h, k') (ap (λ t. some (t + 8 * px0 va)) q')

  pub pte_none : leaf_slot w root va ≡ none → pte_at w root va ≡ 0
  pte_none e = rw (e, pte_at) refl

  pub pte_some : (s : ℕ) → leaf_slot w root va ≡ some s → pte_at w root va ≡ w s
  pte_some s e = rw (e, pte_at) refl

-- The three ways to look up an address.
pub data View (w : ℕ → ℕ) (kind : ℕ → Kind) (root va : ℕ) : Type 0 where
  no_top : valid (entry w root (px2 va)) ≡ false → View w kind root va
  no_mid :
      (t1 : ℕ)
      → valid (entry w root (px2 va)) ≡ true
      → pte2pa (entry w root (px2 va)) ≡ t1
      → kind t1 ≡ mid_table (root + 8 * px2 va)
      → valid (entry w t1 (px1 va)) ≡ false
      → View w kind root va
  found :
      (t1 t0 : ℕ)
      → valid (entry w root (px2 va)) ≡ true
      → pte2pa (entry w root (px2 va)) ≡ t1
      → kind t1 ≡ mid_table (root + 8 * px2 va)
      → valid (entry w t1 (px1 va)) ≡ true
      → pte2pa (entry w t1 (px1 va)) ≡ t0
      → kind t0 ≡ leaf_table (t1 + 8 * px1 va)
      → View w kind root va

pub is_table : (k k' : Kind) → k ≡ k' → IsTable k' → IsTable k
is_table k k' e h = subst IsTable (sym e) h

pub view :
    (m : Machine) (xs : List ℕ) (kind : ℕ → Kind) (root va : ℕ)
    → Typed m xs kind
    → kind root ≡ top_table
    → View m.word kind root va
view m xs kind root va w top = elim (Bool-cases (valid (entry m.word root (px2 va)))) [
  | inr f ↦ no_top f
  | inl h ↦
      let t1 = pte2pa (entry m.word root (px2 va)) in
      let k1 : kind t1 ≡ mid_table (root + 8 * px2 va) =
        w.entries root (px2 va) (is_table (kind root) top_table top tt) (omega arith) h
        ∙ ap (λ k. child k (root + 8 * px2 va)) top in
      elim (Bool-cases (valid (entry m.word t1 (px1 va)))) [
        | inr f ↦ no_mid t1 h refl k1 f
        | inl h1 ↦ found t1 (pte2pa (entry m.word t1 (px1 va))) h refl k1 h1 refl (
            w.entries t1 (px1 va) (is_table (kind t1) (mid_table (root + 8 * px2 va)) k1 tt)
              (omega arith) h1
            ∙ ap (λ k. child k (t1 + 8 * px1 va)) k1)
      ]
]
