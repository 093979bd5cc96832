-- ===== src/Vm/Sample.antt =====
-- A memory with an empty page table, three free pages and one that is held, for the examples.
use eafitos.Base.{
  ℕ, ◌+◌, ◌*◌, ◌/◌, ◌%◌, ◌<◌, ◌≤◌, ◌≡◌, ◌≢◌, inl, inr, refl, sym, ap, ◌∙◌, subst, true, false, List,
  [], ◌∷◌, arith, update, update_self, update_ne, update_cases,
}
use eafitos.Memory.{Machine, page_size}
use eafitos.Memory.FreeList.{IsPage, Free}
use eafitos.Vm.{valid}
use eafitos.Vm.Tree.{Kind, vacant, held, mapped, top_table, IsTable, All, Typed}
use eafitos.Vm.Mapping.{pte_at}

abbrev pub root : ℕ
root = 0x80024000

abbrev page_a : ℕ
page_a = 0x80025000

abbrev page_b : ℕ
page_b = 0x80026000

abbrev page_c : ℕ
page_c = 0x80027000

abbrev pub page_d : ℕ
page_d = 0x80028000

abbrev pub memory : Machine
memory = record {
  word = update (update (λ a. 0) page_a page_b) page_b page_c;
  freelist = page_a;
  kernel_end = 0x80021000;
}

abbrev pub free_list : List ℕ
free_list = page_a ∷ page_b ∷ page_c ∷ []

abbrev pub kinds : ℕ → Kind
kinds =
    update
      (update (update (update (update (λ a. mapped) page_d held) page_a vacant) page_b vacant)
        page_c vacant)
      root top_table

memory-Free : Free memory free_list
unfolding eafitos.Base.update
memory-Free = record {
  kernel = omega arith;
  chain = (
    refl,
    record { aligned = refl; above = omega arith; below = omega arith },
    (
      refl,
      record { aligned = refl; above = omega arith; below = omega arith },
      (refl, record { aligned = refl; above = omega arith; below = omega arith }, refl),
    ),
  );
  distinct = ((omega arith, (omega arith, tt)), ((omega arith, tt), (tt, tt)));
}

pub root-top_table : kinds root ≡ top_table
unfolding eafitos.Base.update
root-top_table = refl

-- Only the root is a table, and only page_d is held.
abbrev IsPlain : (ℕ → Kind) → Type 0
IsPlain kind = (a : ℕ) → (IsTable (kind a) → a ≡ root) × (kind a ≡ held → a ≡ page_d)

update-IsPlain :
    (kind : ℕ → Kind) (x : ℕ) (k : Kind)
    → (IsTable k → x ≡ root)
    → (k ≡ held → x ≡ page_d)
    → IsPlain kind
    → IsPlain (update kind x k)
update-IsPlain kind x k t n plain a = elim (update_cases kind x k a) [
  | inl (e, f) ↦ (λ h. e ∙ t (subst IsTable f h), λ h. e ∙ n (sym f ∙ h))
  | inr (ne, f) ↦ (λ h. (plain a).0 (subst IsTable f h), λ h. (plain a).1 (sym f ∙ h))
]

kinds_cases : IsPlain kinds
kinds_cases =
    update-IsPlain _ root top_table (λ h. refl) (λ e. cc)
      (update-IsPlain _ page_c vacant (λ h. absurd h) (λ e. cc)
        (update-IsPlain _ page_b vacant (λ h. absurd h) (λ e. cc)
          (update-IsPlain _ page_a vacant (λ h. absurd h) (λ e. cc)
            (update-IsPlain _ page_d held (λ h. absurd h) (λ e. refl)
              (λ a. (λ h. absurd h, λ e. cc))))))

free_list-All : All kinds free_list
unfolding eafitos.Base.update
free_list-All = (refl, (refl, (refl, tt)))

pub memory-Typed : Typed memory free_list kinds
memory-Typed = record {
  free = memory-Free;
  vacants = free_list-All;
  pages = λ x h.
      subst (IsPage memory.kernel_end) (sym ((kinds_cases x).1 h))
        (record { aligned = refl; above = omega arith; below = omega arith });
  aligned = λ t h. subst (λ y. y % page_size ≡ 0) (sym ((kinds_cases t).0 h)) refl;
  entries = λ t i h lt v.
      let e = (kinds_cases t).0 h in
      let z : memory.word (t + 8 * i) ≡ 0 =
        update_ne (update (λ a. 0) page_a page_b) page_b page_c (t + 8 * i) (omega (arith, e, lt))
        ∙ update_ne (λ a. 0) page_a page_b (t + 8 * i) (omega (arith, e, lt)) in
      let no = sym v ∙ ap valid z in cc;
}

pub page_d-held : kinds page_d ≡ held
unfolding eafitos.Base.update
page_d-held = refl

pub unmapped : valid (pte_at memory.word root 0x1000) ≡ false
unfolding eafitos.Base.update
unmapped = refl
