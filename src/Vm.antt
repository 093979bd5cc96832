-- ===== src/Vm.antt =====
-- kernel/vm.c: the three-level page tables of Sv39, in the memory of `Memory`.
pub mod Bits
pub mod Entry
pub mod Tree
pub mod Grow
pub mod Mapping
pub mod Walk
pub mod Table
pub mod Round
pub mod Extend
pub mod Assign
pub mod MapPage
pub mod Quiet
pub mod Demand
pub mod Create
pub mod Sample
mod Tests
use eafitos.Base.{
  ℕ, zero, suc, ◌+◌, ◌-◌, ◌*◌, ◌/◌, ◌%◌, ◌^◌, Bool, true, false, Option, none, some, ◌&&◌, ◌||◌,
  not, ltb, leb, ◌==◌, if◌then◌else◌,
}
use Prim.Native.Nat.{bit_or}
use eafitos.Memory.{
  K, pure, stop, ◌>>=◌, ◌>>◌, load, store, memset_page, kalloc, kfree, page_size, page_round_up,
  page_round_down, walk_out_of_range, va_not_aligned, size_not_aligned, size_zero, remap,
  not_aligned,
}

abbrev pub max_va : ℕ
max_va = 2 ^ 38

abbrev pub pte_v : ℕ
pte_v = 1

abbrev pub pte_r : ℕ
pte_r = 2

abbrev pub pte_w : ℕ
pte_w = 4

abbrev pub pte_x : ℕ
pte_x = 8

abbrev pub pte_u : ℕ
pte_u = 16

-- `pte & (1L << k)`, as a test
abbrev pub flag : ℕ → ℕ → Bool
flag k pte = pte / 2 ^ k % 2 == 1

abbrev pub valid : ℕ → Bool
valid = flag 0

abbrev pub pa2pte : ℕ → ℕ
pa2pte pa = pa / 2 ^ 12 * 2 ^ 10

abbrev pub pte2pa : ℕ → ℕ
pte2pa pte = pte / 2 ^ 10 * 2 ^ 12

-- `PX(level, va)`
abbrev pub px0 : ℕ → ℕ
px0 va = va / 2 ^ 12 % 512

abbrev pub px1 : ℕ → ℕ
px1 va = va / 2 ^ 21 % 512

abbrev pub px2 : ℕ → ℕ
px2 va = va / 2 ^ 30 % 512

-- A new page-table page for the entry at `slot`; `none` where memory is out.
unfoldable pub new_table : ℕ → K (Option ℕ)
new_table slot = do
  page ← kalloc
  (if page == 0
      then pure none
      else (memset_page page 0 >> store slot (bit_or (pa2pte page) pte_v) >> pure (some page)))

-- The body of the loop of `walk`, at the entry `slot`: the table of the next level.
unfoldable pub next_table : ℕ → Bool → K (Option ℕ)
next_table slot alloc = do
  pte ← load slot
  if valid pte then pure (some (pte2pa pte)) else if alloc then new_table slot else pure none

-- `walk`: the address of the entry for va, `none` for a null pointer.
unfoldable pub walk : ℕ → ℕ → Bool → K (Option ℕ)
walk pagetable va alloc =
    if leb max_va va
    then stop walk_out_of_range
    else (next_table (pagetable + 8 * px2 va) alloc >>= elim [
      | none ↦ pure none
      | some t1 ↦
          next_table (t1 + 8 * px1 va) alloc
          >>= elim [ none ↦ pure none | some t0 ↦ pure (some (t0 + 8 * px0 va)) ]
    ])

unfoldable pub walkaddr : ℕ → ℕ → K ℕ
walkaddr pagetable va =
    if leb max_va va
    then pure 0
    else (walk pagetable va false >>= elim [
      | none ↦ pure 0
      | some slot ↦ do
        pte ← load slot
        if not (valid pte) then pure 0 else if not (flag 4 pte) then pure 0 else pure (pte2pa pte)
    ])

unfoldable pub ismapped : ℕ → ℕ → K Bool
ismapped pagetable va =
    walk pagetable va false
    >>= elim [ none ↦ pure false | some slot ↦ (do pte ← load slot; pure (valid pte)) ]

-- `PA2PTE(pa) | perm | PTE_V`
unfoldable pub leaf : ℕ → ℕ → ℕ
leaf pa perm = bit_or (bit_or (pa2pte pa) perm) pte_v

-- One round of the loop of `mappages`: `false` where `walk` finds no memory.
unfoldable pub map_page : ℕ → ℕ → ℕ → ℕ → K Bool
map_page pagetable a pa perm = walk pagetable a true >>= elim [
  | none ↦ pure false
  | some slot ↦ do
    pte ← load slot
    (if valid pte then stop remap else (store slot (leaf pa perm) >> pure true))
]

-- The loop, with k more pages after this one. `true` stands for 0 and `false` for -1.
unfoldable pub map_pages : ℕ → ℕ → ℕ → ℕ → ℕ → K Bool
map_pages pagetable a pa perm zero = map_page pagetable a pa perm
map_pages pagetable a pa perm (suc k) = do
  done ← map_page pagetable a pa perm
  let rest = map_pages pagetable (a + page_size) (pa + page_size) perm k
  if done then rest else pure false

unfoldable pub mappages : ℕ → ℕ → ℕ → ℕ → ℕ → K Bool
mappages pagetable va size pa perm =
    if not (va % page_size == 0)
    then stop va_not_aligned
    else if not (size % page_size == 0)
    then stop size_not_aligned
    else if size == 0
    then stop size_zero
    else map_pages pagetable va pa perm (size / page_size - 1)

-- 0 where memory is out.
unfoldable pub uvmcreate : K ℕ
uvmcreate = do
  pagetable ← kalloc
  if pagetable == 0 then pure 0 else (memset_page pagetable 0 >> pure pagetable)

-- The loop of `uvmunmap` over k pages from a on.
unfoldable pub unmap_pages : ℕ → ℕ → ℕ → Bool → K (Unit {0})
unmap_pages pagetable a zero do_free = pure tt
unmap_pages pagetable a (suc k) do_free =
    walk pagetable a false
    >>= elim [
      | none ↦ pure tt
      | some slot ↦ do
        pte ← load slot
        (if not (valid pte)
            then pure tt
            else ((if do_free then kfree (pte2pa pte) else pure tt) >> store slot 0))
    ]
    >>= λ _. unmap_pages pagetable (a + page_size) k do_free

unfoldable pub uvmunmap : ℕ → ℕ → ℕ → Bool → K (Unit {0})
uvmunmap pagetable va npages do_free =
    if not (va % page_size == 0) then stop not_aligned else unmap_pages pagetable va npages do_free

unfoldable pub uvmdealloc : ℕ → ℕ → ℕ → K ℕ
uvmdealloc pagetable oldsz newsz =
    if leb oldsz newsz
    then pure oldsz
    else if ltb (page_round_up newsz) (page_round_up oldsz)
    then (uvmunmap pagetable (page_round_up newsz)
          ((page_round_up oldsz - page_round_up newsz) / page_size) true
        >> pure newsz)
    else pure newsz

-- The loop of `uvmalloc`, for k more pages from a on, where it started at base.
unfoldable pub alloc_pages : ℕ → ℕ → ℕ → ℕ → ℕ → ℕ → K ℕ
alloc_pages pagetable base newsz xperm a zero = pure newsz
alloc_pages pagetable base newsz xperm a (suc k) =
    let rest = alloc_pages pagetable base newsz xperm (a + page_size) k in
    kalloc >>= λ mem.
    if mem == 0
    then (uvmdealloc pagetable a base >> pure 0)
    else (memset_page mem 0
        >> mappages pagetable a page_size mem (bit_or (bit_or pte_r pte_u) xperm)
        >>= λ done. if done then rest else (kfree mem >> uvmdealloc pagetable a base >> pure 0))

-- 0 where memory is out.
unfoldable pub uvmalloc : ℕ → ℕ → ℕ → ℕ → K ℕ
uvmalloc pagetable oldsz newsz xperm =
    if ltb newsz oldsz
    then pure oldsz
    else (let base = page_round_up oldsz in
        alloc_pages pagetable base newsz xperm base ((newsz + page_size - 1 - base) / page_size))

-- `vmfault` from its `kalloc` on, with the page table of the process.
unfoldable pub fault_in : ℕ → ℕ → K ℕ
fault_in own va = kalloc >>= λ mem.
    if mem == 0
    then pure 0
    else (memset_page mem 0
        >> mappages own va page_size mem (bit_or (bit_or pte_w pte_u) pte_r)
        >>= λ done. if done then pure mem else (kfree mem >> pure 0))

-- `vmfault`, where the process has page table `own` and size sz: 0, or the page that is mapped at va
-- now.
unfoldable pub vmfault : ℕ → ℕ → ℕ → ℕ → K ℕ
vmfault pagetable own sz va =
    if leb sz va
    then pure 0
    else (ismapped pagetable (page_round_down va) >>= λ mapped.
        if mapped then pure 0 else fault_in own (page_round_down va))
