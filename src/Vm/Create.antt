-- ===== src/Vm/Create.antt =====
-- `uvmcreate` on typed memory.
use eafitos.Base.{
  ℕ, ◌+◌, ◌*◌, ◌<◌, ◌≤◌, ◌≡◌, ◌⊎◌, inl, inr, refl, ap, ◌∙◌, subst, false, List, [], arith, update,
  update_self, update_ne, ◌==◌,
}
use eafitos.Memory.{Machine, ok, page_size, kalloc, fill}
use eafitos.Memory.Pages.{fill_in, fill_out, >>=_ok}
use eafitos.Vm.{valid, px2, uvmcreate}
use eafitos.Vm.Tree.{Kind, vacant, held, top_table, IsTable, Typed}
use eafitos.Vm.Grow.{Keeps-page, kalloc-Typed, fill-Typed}
use eafitos.Vm.Mapping.{pte_at, slot_top, pte_none}
use eafitos.Vm.Table.{Grown}
use eafitos.Vm.Quiet.{quiet_entries, quiet_same}

-- On memory whose pages and page tables agree, `uvmcreate` returns 0 and changes nothing where no
-- page is free, and otherwise returns a new page table in which no address is mapped; memory agrees
-- again, and no translation of another page table and no data has changed.
pub uvmcreate-creates :
    (m : Machine) (xs : List ℕ) (kind : ℕ → Kind)
    → Typed m xs kind
    → ((xs ≡ []) × (uvmcreate m ≡ ok (0, m)))
      ⊎ ((root : ℕ) × (m' : Machine) × (xs' : List ℕ) × (kind' : ℕ → Kind) × (uvmcreate m
            ≡ ok (root, m'))
          × Typed m' xs' kind'
          × (kind root ≡ vacant)
          × (kind' root ≡ top_table)
          × ((va : ℕ) → pte_at m'.word root va ≡ 0)
          × Grown m m' kind kind')
unfolding uvmcreate
uvmcreate-creates m xs kind w = elim (kalloc-Typed m xs kind w) [
  | inl (empty, e) ↦ inl (empty, >>=_ok kalloc _ m m 0 e)
  | inr (x, rest, m1, e, w1, page, vac, nz, frame) ↦
      let z : (x == 0) ≡ false = ground (arith, nz) in
      let kind1 = update kind x held in
      let kind' = update kind1 x top_table in
      let m2 : Machine = record m1 { word = fill m1.word x 0 } in
      let al = page.aligned in
      let far : (a : ℕ) → (a < x) ⊎ (x + page_size ≤ a) → m2.word a ≡ m.word a =
        λ a h. fill_out m1.word x 0 a h ∙ frame a h in
      let none : IsTable (kind x) → ⊥ = λ t. subst IsTable vac t in
      inr (
        x,
        m2,
        rest,
        kind',
        >>=_ok kalloc _ m m1 x e ∙ rw z refl,
        fill-Typed m1 rest kind1 x 0 top_table w1 (update_self kind x held) al (λ h. refl),
        vac,
        update_self kind1 x top_table,
        (λ va. pte_none m2.word x va (
            slot_top m2.word x va
              (ap valid (fill_in m1.word x 0 (x + 8 * px2 va) (omega arith) (omega arith))))),
        record {
          keeps =
              Keeps-page m m2 kind kind' x vac al
                (λ u d. update_ne kind1 x top_table u d ∙ update_ne kind x held u d) far;
          valids = λ u j h lj v. quiet_entries m m2 xs kind x w al none far u j h lj;
          same = quiet_same m m2 xs kind x w al none far;
        },
      )
]
