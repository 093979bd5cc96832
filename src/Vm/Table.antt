-- ===== src/Vm/Table.antt =====
-- A new page table leaves what is mapped as it is.
use eafitos.Base.{
  ℕ, ◌+◌, ◌*◌, ◌%◌, ◌≤◌, ◌<◌, ◌≡◌, ◌≢◌, ◌⊎◌, refl, sym, ap, ◌∙◌, subst, Bool, true, false, List,
  arith, ℕ_discrete,
}
use eafitos.Memory.{Machine, page_size}
use eafitos.Vm.{valid, pte2pa, px0, px1, px2}
use eafitos.Vm.Tree.{
  Kind, vacant, top_table, mid_table, leaf_table, IsTable, child, Typed, entry_place,
  vacant-not_table,
}
use eafitos.Vm.Grow.{Keeps, Keeps-refl, Keeps-trans}
use eafitos.Vm.Mapping.{
  pte_at, slot_top, slot_mid, slot_found, pte_none, pte_some, no_top, no_mid, found, view, is_table,
}

-- Tables may have been added, and nothing else has changed.
pub record Grown (m m' : Machine) (kind kind' : ℕ → Kind) : Type 0 where
  pub keeps : Keeps m m' kind kind'
  pub valids :
      (u j : ℕ)
      → IsTable (kind u)
      → j < 512
      → valid (m.word (u + 8 * j)) ≡ true
      → m'.word (u + 8 * j) ≡ m.word (u + 8 * j)
  pub same : (root va : ℕ) → kind root ≡ top_table → pte_at m'.word root va ≡ pte_at m.word root va

pub Grown-refl : (m : Machine) (kind : ℕ → Kind) → Grown m m kind kind
Grown-refl m kind = record {
  keeps = Keeps-refl m kind;
  valids = λ u j h lt v. refl;
  same = λ root va h. refl;
}

pub top_used : (k : Kind) → k ≡ top_table → k ≢ vacant
top_used k e f = cc

pub Grown-trans :
    (m m1 m2 : Machine) (kind kind1 kind2 : ℕ → Kind)
    → Grown m m1 kind kind1
    → Grown m1 m2 kind1 kind2
    → Grown m m2 kind kind2
Grown-trans m m1 m2 kind kind1 kind2 f g = record {
  keeps = Keeps-trans m m1 m2 kind kind1 kind2 f.keeps g.keeps;
  valids = λ u j h lt v.
      let v1 = f.valids u j h lt v in
      let k1 = (f.keeps).kinds u (vacant-not_table (kind u) h) in
      g.valids u j (subst IsTable (sym k1) h) lt (ap valid v1 ∙ v) ∙ v1;
  same = λ root va h.
      g.same root va ((f.keeps).kinds root (top_used (kind root) h) ∙ h) ∙ f.same root va h;
}

-- The entry i of table t gets the new table x.
module _ (m m' : Machine) (xs : List ℕ) (kind : ℕ → Kind) (t i x : ℕ) (w : Typed m xs kind)
    (ht : IsTable (kind t)) (lt : i < 512) (upper : IsTable (child (kind t) (t + 8 * i)))
    (missing : valid (m.word (t + 8 * i)) ≡ false) (there : valid (m'.word (t + 8 * i)) ≡ true)
    (points : pte2pa (m'.word (t + 8 * i)) ≡ x)
    (empty : (j : ℕ) → j < 512 → m'.word (x + 8 * j) ≡ 0) (vac : kind x ≡ vacant)
    (al : x % page_size ≡ 0)
    (frame : (b : ℕ) → b ≢ t + 8 * i → (b < x) ⊎ (x + page_size ≤ b) → m'.word b ≡ m.word b) where
  old-ne : (u : ℕ) → IsTable (kind u) → u ≢ x
  old-ne u h e = subst IsTable (ap kind e ∙ vac) h

  entry_same :
      (u j : ℕ)
      → IsTable (kind u)
      → j < 512
      → u + 8 * j ≢ t + 8 * i
      → m'.word (u + 8 * j) ≡ m.word (u + 8 * j)
  entry_same u j h lj ne =
      let d = old-ne u h in frame (u + 8 * j) ne (omega (arith, w.aligned u h, al))

  kept :
      (u j : ℕ) (b : Bool)
      → IsTable (kind u)
      → j < 512
      → u + 8 * j ≢ t + 8 * i
      → valid (m.word (u + 8 * j)) ≡ b
      → valid (m'.word (u + 8 * j)) ≡ b
  kept u j b h lj ne e = ap valid (entry_same u j h lj ne) ∙ e

  -- A valid entry is another one.
  valid-ne : (a : ℕ) → valid (m.word a) ≡ true → a ≢ t + 8 * i
  valid-ne a v e = let v' = subst (λ y. valid (m.word y) ≡ true) e v in cc

  pub valid_same :
      (u j : ℕ)
      → IsTable (kind u)
      → j < 512
      → valid (m.word (u + 8 * j)) ≡ true
      → m'.word (u + 8 * j) ≡ m.word (u + 8 * j)
  valid_same u j h lj v = entry_same u j h lj (valid-ne (u + 8 * j) v)

  blank : (j : ℕ) → j < 512 → valid (m'.word (x + 8 * j)) ≡ false
  blank j lj = ap valid (empty j lj)

  linked : (a : ℕ) → a ≡ t + 8 * i → (valid (m'.word a) ≡ true) × (pte2pa (m'.word a) ≡ x)
  linked a e = (
    subst (λ y. valid (m'.word y) ≡ true) (sym e) there,
    subst (λ y. pte2pa (m'.word y) ≡ x) (sym e) points,
  )

  pub table_same :
      (root va : ℕ) → kind root ≡ top_table → pte_at m'.word root va ≡ pte_at m.word root va
  table_same root va top =
      let h2 = is_table (kind root) top_table top tt in
      let a2 = root + 8 * px2 va in
      elim (view m xs kind root va w top) [
        | no_top f ↦
            pte_none m'.word root va (elim (ℕ_discrete a2 (t + 8 * i)) [
              | yes e ↦
                  let (v, p) = linked a2 e in
                  slot_mid m'.word root va x v p (blank (px1 va) (omega arith))
              | no ne ↦ slot_top m'.word root va (kept root (px2 va) false h2 (omega arith) ne f)
            ])
            ∙ sym (pte_none m.word root va (slot_top m.word root va f))
        | no_mid t1 v p k f ↦
            let ne2 = valid-ne a2 v in
            let same2 = entry_same root (px2 va) h2 (omega arith) ne2 in
            let v' = ap valid same2 ∙ v in
            let p' = ap pte2pa same2 ∙ p in
            let h1 = is_table (kind t1) (mid_table a2) k tt in
            let a1 = t1 + 8 * px1 va in
            elim (ℕ_discrete a1 (t + 8 * i)) [
              | yes e ↦
                  let (v1, p1) = linked a1 e in
                  pte_some m'.word root va (x + 8 * px0 va)
                    (slot_found m'.word root va t1 x v' p' v1 p1)
                  ∙ empty (px0 va) (omega arith)
              | no ne ↦
                  pte_none m'.word root va (
                    slot_mid m'.word root va t1 v' p'
                      (kept t1 (px1 va) false h1 (omega arith) ne f))
            ]
            ∙ sym (pte_none m.word root va (slot_mid m.word root va t1 v p f))
        | found t1 t0 v p k v1 p1 k1 ↦
            let same2 = entry_same root (px2 va) h2 (omega arith) (valid-ne a2 v) in
            let h1 = is_table (kind t1) (mid_table a2) k tt in
            let a1 = t1 + 8 * px1 va in
            let same1 = entry_same t1 (px1 va) h1 (omega arith) (valid-ne a1 v1) in
            let h0 = is_table (kind t0) (leaf_table a1) k1 tt in
            let ne0 : t0 + 8 * px0 va ≢ t + 8 * i = λ e.
              let (e', _) =
                entry_place t0 (px0 va) t i (w.aligned t0 h0) (w.aligned t ht) (omega arith) lt e in
              subst (λ y. IsTable (child y (t + 8 * i))) (ap kind (sym e') ∙ k1) upper in
            pte_some m'.word root va (t0 + 8 * px0 va) (
              slot_found m'.word root va t1 t0 (ap valid same2 ∙ v) (ap pte2pa same2 ∙ p)
                (ap valid same1 ∙ v1) (ap pte2pa same1 ∙ p1))
            ∙ entry_same t0 (px0 va) h0 (omega arith) ne0
            ∙ sym (
                pte_some m.word root va (t0 + 8 * px0 va)
                  (slot_found m.word root va t1 t0 v p v1 p1))
      ]
