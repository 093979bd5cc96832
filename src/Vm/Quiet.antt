-- ===== src/Vm/Quiet.antt =====
-- Memory that changes only within pages that are not tables keeps what is mapped.
use eafitos.Base.{ℕ, ◌+◌, ◌*◌, ◌%◌, ◌<◌, ◌≤◌, ◌≡◌, ◌≢◌, ◌⊎◌, sym, ap, ◌∙◌, subst, List, arith}
use eafitos.Memory.{Machine, page_size}
use eafitos.Vm.{valid, pte2pa, px0, px1, px2}
use eafitos.Vm.Tree.{Kind, top_table, mid_table, leaf_table, IsTable, Typed}
use eafitos.Vm.Mapping.{
  pte_at, slot_top, slot_mid, slot_found, pte_none, pte_some, no_top, no_mid, found, view, is_table,
}

module _ (m m' : Machine) (xs : List ℕ) (kind : ℕ → Kind) (x : ℕ) (w : Typed m xs kind)
    (al : x % page_size ≡ 0) (no : IsTable (kind x) → ⊥)
    (frame : (a : ℕ) → (a < x) ⊎ (x + page_size ≤ a) → m'.word a ≡ m.word a) where
  pub quiet_entries :
      (u j : ℕ) → IsTable (kind u) → j < 512 → m'.word (u + 8 * j) ≡ m.word (u + 8 * j)
  quiet_entries u j h lj =
      let ne : u ≢ x = λ e. no (subst (λ y. IsTable (kind y)) e h) in
      frame (u + 8 * j) (omega (arith, w.aligned u h, al, ne))

  pub quiet_same :
      (root va : ℕ) → kind root ≡ top_table → pte_at m'.word root va ≡ pte_at m.word root va
  quiet_same root va top =
      let same2 =
        quiet_entries root (px2 va) (is_table (kind root) top_table top tt) (omega arith) in
      elim (view m xs kind root va w top) [
        | no_top f ↦
            pte_none m'.word root va (slot_top m'.word root va (ap valid same2 ∙ f))
            ∙ sym (pte_none m.word root va (slot_top m.word root va f))
        | no_mid t1 v p k f ↦
            let h1 = is_table (kind t1) (mid_table (root + 8 * px2 va)) k tt in
            let same1 = quiet_entries t1 (px1 va) h1 (omega arith) in
            pte_none m'.word root va (
              slot_mid m'.word root va t1 (ap valid same2 ∙ v) (ap pte2pa same2 ∙ p)
                (ap valid same1 ∙ f))
            ∙ sym (pte_none m.word root va (slot_mid m.word root va t1 v p f))
        | found t1 t0 v p k v1 p1 k1 ↦
            let h1 = is_table (kind t1) (mid_table (root + 8 * px2 va)) k tt in
            let same1 = quiet_entries t1 (px1 va) h1 (omega arith) in
            let h0 = is_table (kind t0) (leaf_table (t1 + 8 * px1 va)) k1 tt in
            pte_some m'.word root va (t0 + 8 * px0 va) (
              slot_found m'.word root va t1 t0 (ap valid same2 ∙ v) (ap pte2pa same2 ∙ p)
                (ap valid same1 ∙ v1) (ap pte2pa same1 ∙ p1))
            ∙ quiet_entries t0 (px0 va) h0 (omega arith)
            ∙ sym (
                pte_some m.word root va (t0 + 8 * px0 va)
                  (slot_found m.word root va t1 t0 v p v1 p1))
      ]
