-- ===== src/Traps/Service.antt =====
-- What a page fault does to the map of the process's page table.
use eafitos.Base.{
  ℕ, ◌+◌, ◌<◌, ◌≤◌, ◌≡◌, ◌⊎◌, inl, inr, refl, sym, ap, ◌∙◌, subst, Bool, true, false, List, arith,
  ◌==◌, leb, Bool-cases, if◌then◌else◌,
}
use eafitos.Memory.{Machine, Result, ok, page_size, page_round_down, pure, ◌>>=◌}
use eafitos.Memory.Pages.{>>=_ok}
use eafitos.Vm.{valid, max_va, leaf, ismapped, vmfault, fault_in}
use eafitos.Vm.Tree.{Kind, vacant, mapped, top_table, Typed}
use eafitos.Vm.Grow.{Keeps}
use eafitos.Vm.Mapping.{pte_at}
use eafitos.Vm.Walk.{ismapped_reads}
use eafitos.Vm.Table.{Grown, Grown-refl}
use eafitos.Vm.Assign.{Assigned}
use eafitos.Vm.Demand.{Few, Demanded, short, given, demand-Demanded}
use eafitos.Traps.{ProcMemory, trapframe_va, user_rw}
use eafitos.Traps.Fault.{doomed, count_fault, region_byte, region_fault, in_region, page_fault}

-- The process's memory and its region end below the trapframe.
pub record IsBounded (p : ProcMemory) : Type 0 where
  pub heap : p.sz ≤ trapframe_va
  pub region : p.region_start + p.region_size ≤ trapframe_va

-- The word that a page has at first.
abbrev pub filler : ProcMemory → ℕ → ℕ
filler p badva = if in_region p badva then region_byte else 0

-- The process is killed, since it has no page at badva, or one is mapped there, or memory is short;
-- or a page is mapped.
pub data Handled (m : Machine) (kind : ℕ → Kind) (p : ProcMemory) (badva : ℕ)
    (r : Result (ProcMemory × Machine)) : Type 0 where
  refused :
      (m' : Machine) (xs' : List ℕ) (kind' : ℕ → Kind)
      → r ≡ ok (doomed p, m')
      → Typed m' xs' kind'
      → ((in_region p badva ≡ false) × (p.sz ≤ badva))
        ⊎ ((valid (pte_at m.word p.pagetable (page_round_down badva)) ≡ true) ⊎ Few xs')
      → Grown m m' kind kind'
      → Handled m kind p badva r
  served :
      (x : ℕ) (m' : Machine) (xs' : List ℕ) (kind' : ℕ → Kind)
      → r ≡ ok (count_fault p, m')
      → Typed m' xs' kind'
      → (in_region p badva ≡ true) ⊎ (badva < p.sz)
      → valid (pte_at m.word p.pagetable (page_round_down badva)) ≡ false
      → Assigned m m' kind p.pagetable (page_round_down badva) (leaf x user_rw)
      → ((a : ℕ) → x ≤ a → a < x + page_size → m'.word a ≡ filler p badva)
      → Keeps m m' kind kind'
      → kind x ≡ vacant
      → kind' x ≡ mapped
      → Handled m kind p badva r

module _ (m : Machine) (xs : List ℕ) (kind : ℕ → Kind) (p : ProcMemory) (badva : ℕ)
    (w : Typed m xs kind) (top : kind p.pagetable ≡ top_table) where
  abbrev va : ℕ
  va = page_round_down badva

  region_served :
      in_region p badva ≡ true
      → va < max_va
      → valid (pte_at m.word p.pagetable va) ≡ false
      → Demanded m kind p.pagetable va region_byte user_rw
          (doomed p)
          (λ _. count_fault p)
          (region_fault va p m)
      → Handled m kind p badva (region_fault va p m)
  region_served inside lt un (short m' xs' kind' e w' few g) =
      refused m' xs' kind' e w' (inr (inr few)) g
  region_served inside lt un (given x m' xs' kind' e w' a full k v n nz) =
      served x m' xs' kind' e w' (inl inside) un a (λ c q s. full c q s ∙ rw (inside, filler) refl)
        k v n

  region_handled :
      in_region p badva ≡ true → va < max_va → Handled m kind p badva (region_fault va p m)
  unfolding region_fault
  region_handled inside lt = elim (Bool-cases (valid (pte_at m.word p.pagetable va))) [
    | inl h ↦
        refused m xs kind
          (>>=_ok (ismapped p.pagetable va) _ m m _ (ismapped_reads m p.pagetable va lt)
            ∙ rw h refl)
          w (inr (inl h)) (Grown-refl m kind)
    | inr h ↦ region_served inside lt h (
        subst (Demanded m kind p.pagetable va region_byte user_rw (doomed p) (λ _. count_fault p))
          (sym (
            >>=_ok (ismapped p.pagetable va) _ m m _ (ismapped_reads m p.pagetable va lt)
            ∙ rw h refl))
          (demand-Demanded (doomed p) (λ _. count_fault p) m xs kind p.pagetable va region_byte
            user_rw w top lt (omega arith) (omega arith) h))
  ]

  -- `vmfault` returned v.
  counted :
      (v : ℕ) (m' : Machine)
      → vmfault p.pagetable p.pagetable p.sz badva m ≡ ok (v, m')
      → (vmfault p.pagetable p.pagetable p.sz badva >>= λ mem.
            pure (if mem == 0 then doomed p else count_fault p))
          m
        ≡ ok (if v == 0 then doomed p else count_fault p, m')
  counted v m' e = >>=_ok (vmfault p.pagetable p.pagetable p.sz badva) _ m m' v e

  abbrev lazy : Result (ProcMemory × Machine)
  lazy =
      (vmfault p.pagetable p.pagetable p.sz badva >>= λ mem.
      pure (if mem == 0 then doomed p else count_fault p))
        m

  lazy_served :
      in_region p badva ≡ false
      → badva < p.sz
      → valid (pte_at m.word p.pagetable va) ≡ false
      → Demanded m kind p.pagetable va 0 user_rw 0
          (λ x. x)
          (vmfault p.pagetable p.pagetable p.sz badva m)
      → Handled m kind p badva lazy
  lazy_served outside inside un (short m' xs' kind' e w' few g) =
      refused m' xs' kind' (counted 0 m' e) w' (inr (inr few)) g
  lazy_served outside inside un (given x m' xs' kind' e w' a full k v n nz) =
      let z : (x == 0) ≡ false = ground (arith, nz) in
      served x m' xs' kind' (counted x m' e ∙ rw z refl) w' (inr inside) un a
        (λ c q s. full c q s ∙ rw (outside, filler) refl) k v n

  vmfault_mapped :
      badva < p.sz
      → va < max_va
      → (b : Bool) → valid (pte_at m.word p.pagetable va) ≡ b
      → vmfault p.pagetable p.pagetable p.sz badva m
        ≡ (if b then pure 0 else fault_in p.pagetable va) m
  unfolding vmfault
  vmfault_mapped inside lt b h =
      let z : leb p.sz badva ≡ false = ground (arith, inside) in
      rw z (
        >>=_ok (ismapped p.pagetable va) _ m m _ (ismapped_reads m p.pagetable va lt)
        ∙ ap (λ c. (if c then pure 0 else fault_in p.pagetable va) m) h)

  lazy_allocates :
      va < max_va
      → valid (pte_at m.word p.pagetable va) ≡ false
      → Demanded m kind p.pagetable va 0 user_rw 0 (λ x. x) (fault_in p.pagetable va m)
  unfolding fault_in
  lazy_allocates lt un =
      demand-Demanded 0 (λ x. x) m xs kind p.pagetable va 0 user_rw w top lt (omega arith)
        (omega arith) un

  beyond : p.sz ≤ badva → vmfault p.pagetable p.pagetable p.sz badva m ≡ ok (0, m)
  unfolding vmfault
  beyond h = let z : leb p.sz badva ≡ true = ground (arith, h) in rw z refl

  lazy_handled : in_region p badva ≡ false → p.sz ≤ trapframe_va → Handled m kind p badva lazy
  lazy_handled outside top_sz = elim (Bool-cases (leb p.sz badva)) [
    | inl h ↦
        let h' : p.sz ≤ badva = ground (arith, h) in
        refused m xs kind (counted 0 m (beyond h')) w (inl (outside, h')) (Grown-refl m kind)
    | inr h ↦
        let inside : badva < p.sz = ground (arith, h) in
        let lt : va < max_va = omega (arith, inside, top_sz) in
        elim (Bool-cases (valid (pte_at m.word p.pagetable va))) [
          | inl k ↦
              refused m xs kind (counted 0 m (vmfault_mapped inside lt true k)) w (inr (inl k))
                (Grown-refl m kind)
          | inr k ↦ lazy_served outside inside k (
              subst (Demanded m kind p.pagetable va 0 user_rw 0 (λ x. x))
                (sym (vmfault_mapped inside lt false k)) (lazy_allocates lt k))
        ]
  ]

  region_ends : in_region p badva ≡ true → badva < p.region_start + p.region_size
  region_ends h = ground (arith, h)

-- On memory whose pages and page tables agree, for a process whose memory and region end below the
-- trapframe, the handler of a page fault returns without a panic, and memory agrees again. Either
-- the process is killed, and then badva was outside its region and its size, or already mapped, or
-- at most one page is free, and no translation has changed; or the fault is counted, a page that was
-- free is mapped readable and writable at the page of badva, filled with 'A' in the region and with
-- 0 elsewhere, and no other translation of any process has changed, nor the contents of any page in
-- use.
pub page_fault-Handled :
    (m : Machine) (xs : List ℕ) (kind : ℕ → Kind) (p : ProcMemory) (badva : ℕ)
    → Typed m xs kind
    → kind p.pagetable ≡ top_table
    → IsBounded p
    → Handled m kind p badva (page_fault badva p m)
unfolding page_fault
page_fault-Handled m xs kind p badva w top b = elim (Bool-cases (in_region p badva)) [
  | inl h ↦
      let end = region_ends m xs kind p badva w top h in
      rw h (region_handled m xs kind p badva w top h (omega (arith, end, b.region)))
  | inr h ↦ rw h (lazy_handled m xs kind p badva w top h b.heap)
]
