-- ===== src/Vm/Tests.antt =====
-- Examples of page-table entries and page tables.
use eafitos.Base.{ℕ, List, [], ◌⊎◌, ◌≡◌, refl, arith}
use eafitos.Memory.{Machine, ok, page_size}
use eafitos.Vm.Tree.{Kind, vacant, top_table, Typed}
use eafitos.Vm.Mapping.{pte_at}
use eafitos.Vm.Table.{Grown}
use eafitos.Vm.MapPage.{MapOutcome, mappages-MapOutcome}
use eafitos.Vm.Create.{uvmcreate-creates}
use eafitos.Vm.Sample.{
  memory, free_list, kinds, root, page_d, root-top_table, page_d-held, unmapped, memory-Typed,
}
use eafitos.Vm.{mappages, uvmcreate, leaf}

mappages-MapOutcome_example :
    MapOutcome memory kinds root 0x1000 page_d
      (leaf page_d 22)
      (mappages root 0x1000 page_size page_d 22 memory)
mappages-MapOutcome_example =
    mappages-MapOutcome memory kinds root 0x1000 page_d 22 root-top_table (omega arith) page_d-held
      refl (omega arith) unmapped free_list memory-Typed refl

uvmcreate-creates_example :
    ((free_list ≡ []) × (uvmcreate memory ≡ ok (0, memory)))
    ⊎ ((r : ℕ) × (m' : Machine) × (xs' : List ℕ) × (kind' : ℕ → Kind) × (uvmcreate memory
          ≡ ok (r, m'))
        × Typed m' xs' kind'
        × (kinds r ≡ vacant)
        × (kind' r ≡ top_table)
        × ((va : ℕ) → pte_at m'.word r va ≡ 0)
        × Grown memory m' kinds kind')
uvmcreate-creates_example = uvmcreate-creates memory free_list kinds memory-Typed
