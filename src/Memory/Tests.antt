-- ===== src/Memory/Tests.antt =====
-- Tests and examples of the page allocator, on a kernel that ends at 0x80021000.
use eafitos.Base.{ℕ, ◌+◌, ◌*◌, ◌≤◌, ◌<◌, ◌≡◌, ◌⊎◌, refl, List, [], ◌∷◌, arith}
use eafitos.Memory.{
  Machine, Result, ok, panic, kfree_bad_page, page_size, junk_alloc, kfree, kalloc, kinit, phys_top,
}
use eafitos.Memory.Boot.{pages_onto, kinit-Free}
use eafitos.Memory.FreeList.{IsPage, Free, kfree_pushes, kalloc_pops}

abbrev booted : Machine
booted = record { word = λ a. 0; freelist = 0; kernel_end = 0x80021000 }

abbrev page_a : ℕ
page_a = 0x80022000

abbrev page_b : ℕ
page_b = 0x80023000

abbrev with_page : Machine
with_page = record { word = λ a. 0; freelist = page_a; kernel_end = 0x80021000 }

booted-Free : Free booted []
booted-Free = record { kernel = omega arith; chain = refl; distinct = tt }

page_a-IsPage : IsPage 0x80021000 page_a
page_a-IsPage = record { aligned = refl; above = omega arith; below = omega arith }

page_b-IsPage : IsPage 0x80021000 page_b
page_b-IsPage = record { aligned = refl; above = omega arith; below = omega arith }

with_page-Free : Free with_page (page_a ∷ [])
with_page-Free = record {
  kernel = omega arith;
  chain = (refl, page_a-IsPage, refl);
  distinct = (tt, tt);
}

kfree_unaligned : kfree 0x80022008 booted ≡ panic kfree_bad_page
unfolding kfree eafitos.Memory.bad_page
kfree_unaligned = refl

kfree_pushes_example :
    (m' : Machine) × (kfree page_b with_page ≡ ok (tt, m'))
    × Free m' (page_b ∷ page_a ∷ [])
    × (m'.kernel_end ≡ 0x80021000)
    × ((a : ℕ) → (a < page_b) ⊎ (page_b + page_size ≤ a) → m'.word a ≡ 0)
kfree_pushes_example =
    kfree_pushes with_page (page_a ∷ []) page_b with_page-Free page_b-IsPage (omega arith, tt)

kalloc_pops_example :
    ((page_a ∷ [] ≡ []) × (kalloc with_page ≡ ok (0, with_page)))
    ⊎ ((x : ℕ) × (rest : List ℕ) × (m' : Machine) × (page_a ∷ [] ≡ x ∷ rest)
        × (kalloc with_page ≡ ok (x, m'))
        × Free m' rest
        × ((a : ℕ) → x ≤ a → a < x + page_size → m'.word a ≡ junk_alloc)
        × ((a : ℕ) → (a < x) ⊎ (x + page_size ≤ a) → m'.word a ≡ 0))
kalloc_pops_example = kalloc_pops with_page (page_a ∷ []) with_page-Free

abbrev high : Machine
high = record { word = λ a. 0; freelist = 0; kernel_end = 0x87ffdff8 }

kinit-Free_example :
    (m' : Machine) × (kinit high ≡ ok (tt, m'))
    × Free m' (pages_onto 0x87ffe000 2 [])
    × (0x87ffe000 + 2 * page_size ≡ phys_top)
kinit-Free_example = kinit-Free high (omega arith) (omega arith) refl
