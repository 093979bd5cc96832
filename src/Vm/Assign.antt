-- ===== src/Vm/Assign.antt =====
-- `mappages` of one page: the map of one page table changes at one page.
use eafitos.Base.{
  ℕ, ◌+◌, ◌*◌, ◌/◌, ◌<◌, ◌≡◌, ◌≢◌, ◌⊎◌, inl, inr, sym, ap, ◌∙◌, some, List, arith, update,
  update_self, update_ne,
}
use eafitos.Memory.{Machine, page_size}
use eafitos.Vm.{valid, pte2pa, px0, px1, px2, max_va}
use eafitos.Vm.Tree.{Kind, top_table, mid_table, leaf_table, IsTable, Typed, entry_place}
use eafitos.Vm.Mapping.{
  entry, leaf_slot, pte_at, slot_top, slot_mid, slot_found, pte_none, pte_some, no_top, no_mid,
  found, view, is_table,
}

leaf_table_inj : (s t : ℕ) → leaf_table s ≡ leaf_table t → s ≡ t
leaf_table_inj s t e = ap address e
  where
    address : Kind → ℕ
    address (leaf_table a) = a
    address _ = 0

mid_table_inj : (s t : ℕ) → mid_table s ≡ mid_table t → s ≡ t
mid_table_inj s t e = ap address e
  where
    address : Kind → ℕ
    address (mid_table a) = a
    address _ = 0

same_page :
    (a b : ℕ)
    → a < max_va
    → b < max_va
    → px0 a ≡ px0 b
    → px1 a ≡ px1 b
    → px2 a ≡ px2 b
    → a / page_size ≡ b / page_size
same_page a b h k p q r = omega arith

-- The map changes to v at the page of va in the table root, and nowhere else.
pub record Assigned (m m' : Machine) (kind : ℕ → Kind) (root va v : ℕ) : Type 0 where
  pub here : pte_at m'.word root va ≡ v
  pub elsewhere :
      (r a : ℕ)
      → kind r ≡ top_table
      → a < max_va
      → (r ≢ root) ⊎ (a / page_size ≢ va / page_size)
      → pte_at m'.word r a ≡ pte_at m.word r a

-- A write of the leaf entry for va.
module _ (m : Machine) (xs : List ℕ) (kind : ℕ → Kind) (root va t1 t0 v : ℕ) (w : Typed m xs kind)
    (lt : va < max_va) (top : kind root ≡ top_table) (k1 : kind t1 ≡ mid_table (root + 8 * px2 va))
    (k0 : kind t0 ≡ leaf_table (t1 + 8 * px1 va))
    (there : leaf_slot m.word root va ≡ some (t0 + 8 * px0 va)) where
  abbrev s0 : ℕ
  s0 = t0 + 8 * px0 va

  abbrev after : ℕ → ℕ
  after = update m.word s0 v

  is0 : IsTable (kind t0)
  is0 = is_table (kind t0) (leaf_table (t1 + 8 * px1 va)) k0 tt

  is1 : IsTable (kind t1)
  is1 = is_table (kind t1) (mid_table (root + 8 * px2 va)) k1 tt

  upper_same : (u j : ℕ) → IsTable (kind u) → u ≢ t0 → j < 512 → entry after u j ≡ entry m.word u j
  upper_same u j h ne lj = update_ne m.word s0 v (u + 8 * j) (λ e.
      ne (entry_place u j t0 (px0 va) (w.aligned u h) (w.aligned t0 is0) lj (omega arith) e).0)

  slot_same : (r a : ℕ) → kind r ≡ top_table → leaf_slot after r a ≡ leaf_slot m.word r a
  slot_same r a rt =
      let same2 =
        upper_same r (px2 a) (is_table (kind r) top_table rt tt)
          (λ e. let c = sym rt ∙ ap kind e ∙ k0 in cc) (omega arith) in
      elim (view m xs kind r a w rt) [
        | no_top f ↦ slot_top after r a (ap valid same2 ∙ f) ∙ sym (slot_top m.word r a f)
        | no_mid u1 b p k f ↦
            let same1 =
              upper_same u1 (px1 a) (is_table (kind u1) (mid_table (r + 8 * px2 a)) k tt)
                (λ e. let c = sym k ∙ ap kind e ∙ k0 in cc) (omega arith) in
            slot_mid after r a u1 (ap valid same2 ∙ b) (ap pte2pa same2 ∙ p) (ap valid same1 ∙ f)
            ∙ sym (slot_mid m.word r a u1 b p f)
        | found u1 u0 b p k b1 p1 q ↦
            let same1 =
              upper_same u1 (px1 a) (is_table (kind u1) (mid_table (r + 8 * px2 a)) k tt)
                (λ e. let c = sym k ∙ ap kind e ∙ k0 in cc) (omega arith) in
            slot_found after r a u1 u0 (ap valid same2 ∙ b) (ap pte2pa same2 ∙ p)
              (ap valid same1 ∙ b1) (ap pte2pa same1 ∙ p1)
            ∙ sym (slot_found m.word r a u1 u0 b p b1 p1)
      ]

  -- The entry is found from its own address only.
  own_slot :
      (r a u1 u0 : ℕ)
      → a < max_va
      → kind r ≡ top_table
      → kind u1 ≡ mid_table (r + 8 * px2 a)
      → kind u0 ≡ leaf_table (u1 + 8 * px1 a)
      → u0 + 8 * px0 a ≡ s0
      → (r ≡ root) × (a / page_size ≡ va / page_size)
  own_slot r a u1 u0 la rt j1 j0 e =
      let h0 = is_table (kind u0) (leaf_table (u1 + 8 * px1 a)) j0 tt in
      let (e0, i0) =
        entry_place u0 (px0 a) t0 (px0 va) (w.aligned u0 h0) (w.aligned t0 is0) (omega arith)
          (omega arith) e in
      let f0 = leaf_table_inj (u1 + 8 * px1 a) (t1 + 8 * px1 va) (sym j0 ∙ ap kind e0 ∙ k0) in
      let h1 = is_table (kind u1) (mid_table (r + 8 * px2 a)) j1 tt in
      let (e1, i1) =
        entry_place u1 (px1 a) t1 (px1 va) (w.aligned u1 h1) (w.aligned t1 is1) (omega arith)
          (omega arith) f0 in
      let f1 = mid_table_inj (r + 8 * px2 a) (root + 8 * px2 va) (sym j1 ∙ ap kind e1 ∙ k1) in
      let (e2, i2) =
        entry_place r (px2 a) root (px2 va) (w.aligned r (is_table (kind r) top_table rt tt))
          (w.aligned root (is_table (kind root) top_table top tt)) (omega arith) (omega arith) f1 in
      (e2, same_page a va la lt i0 i1 i2)

  pub store-Assigned : Assigned m (record m { word = after }) kind root va v
  store-Assigned = record {
    here = pte_some after root va s0 (slot_same root va top ∙ there) ∙ update_self m.word s0 v;
    elsewhere = λ r a rt la apart. elim (view m xs kind r a w rt) [
      | no_top f ↦
          let e = slot_top m.word r a f in
          pte_none after r a (slot_same r a rt ∙ e) ∙ sym (pte_none m.word r a e)
      | no_mid u1 b p k f ↦
          let e = slot_mid m.word r a u1 b p f in
          pte_none after r a (slot_same r a rt ∙ e) ∙ sym (pte_none m.word r a e)
      | found u1 u0 b p k b1 p1 q ↦
          let e = slot_found m.word r a u1 u0 b p b1 p1 in
          pte_some after r a (u0 + 8 * px0 a) (slot_same r a rt ∙ e)
          ∙ update_ne m.word s0 v (u0 + 8 * px0 a) (λ z.
            let (x, y) = own_slot r a u1 u0 la rt k q z in elim apart [ inl n ↦ n x | inr n ↦ n y ])
          ∙ sym (pte_some m.word r a (u0 + 8 * px0 a) e)
    ];
  }
