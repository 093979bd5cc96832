-- ===== src/Traps/Return.antt =====
-- How `usertrap` ends after a page fault.
use eafitos.Base.{ℕ, ◌≡◌, ◌⊎◌, inl, inr, refl, ◌∙◌, true, false, List}
use eafitos.Memory.{Machine, ok, K, ◌>>=◌}
use eafitos.Memory.Pages.{>>=_ok}
use eafitos.Vm.Tree.{Kind, top_table, Typed}
use eafitos.Traps.{ProcMemory}
use eafitos.Traps.Fault.{doomed, count_fault, page_fault, End, exits, returns, finish, usertrap}
use eafitos.Traps.Service.{IsBounded, Handled, refused, served, page_fault-Handled}

-- The process exits where the fault was refused, and runs on where it was served.
abbrev pub Ended : ProcMemory → End → ProcMemory → Type 0
Ended q e p' = ((e ≡ exits) × (p' ≡ doomed q)) ⊎ ((e ≡ returns) × (p' ≡ count_fault q))

module _ (call : ProcMemory → K ProcMemory) (scause stval sepc : ℕ) (m : Machine) (xs : List ℕ)
    (kind : ℕ → Kind) (p : ProcMemory) (fault : (scause ≡ 13) ⊎ (scause ≡ 15))
    (alive : p.killed ≡ false) where
  abbrev q : ProcMemory
  q = record p { epc = sepc }

  enters : usertrap call true scause stval sepc 0 p m ≡ (page_fault stval q >>= finish 0) m
  unfolding usertrap
  enters = elim fault [ inl e ↦ rw e refl | inr e ↦ rw e refl ]

  ends :
      Handled m kind q stval (page_fault stval q m)
      → (e : End) × (p' : ProcMemory) × (m' : Machine) × (usertrap call true scause stval sepc 0 p m
          ≡ ok ((e, p'), m'))
        × (page_fault stval q m ≡ ok (p', m'))
        × Ended q e p'
  unfolding finish
  ends (refused m' xs' kind' e w why g) =
      (exits, doomed q, m', enters ∙ >>=_ok (page_fault stval q) _ m m' _ e, e, inl (refl, refl))
  ends (served x m' xs' kind' e w inside un a full k v n) = (
    returns,
    count_fault q,
    m',
    enters ∙ >>=_ok (page_fault stval q) _ m m' _ e ∙ rw alive refl,
    e,
    inr (refl, refl),
  )

-- On memory whose pages and page tables agree, a trap from user space for a load or store page fault
-- of a process that is not killed, and whose memory and region end below the trapframe, ends after
-- its page fault is handled, without a panic: in the exit of the process where the fault was refused,
-- and in a return to user space where it was served.
pub usertrap-Ended :
    (call : ProcMemory → K ProcMemory) (scause stval sepc : ℕ) (m : Machine) (xs : List ℕ)
    (kind : ℕ → Kind) (p : ProcMemory)
    → (scause ≡ 13) ⊎ (scause ≡ 15)
    → p.killed ≡ false
    → Typed m xs kind
    → kind p.pagetable ≡ top_table
    → IsBounded p
    → (e : End) × (p' : ProcMemory) × (m' : Machine) × (usertrap call true scause stval sepc 0 p m
        ≡ ok ((e, p'), m'))
      × (page_fault stval (record p { epc = sepc }) m ≡ ok (p', m'))
      × Ended (record p { epc = sepc }) e p'
usertrap-Ended call scause stval sepc m xs kind p fault alive w top b =
    ends call scause stval sepc m xs kind p fault alive (
      page_fault-Handled m xs kind (record p { epc = sepc }) stval w top
        (record { heap = b.heap; region = b.region }))
