-- ===== src/Vm/Walk.antt =====
-- `walk` from the results of its rounds, and as a lookup.
use eafitos.Base.{
  ℕ, ◌+◌, ◌*◌, ◌<◌, ◌≡◌, refl, sym, ap, ◌∙◌, Bool, true, false, Option, none, some, arith,
  Bool-cases, leb, inl, inr,
}
use eafitos.Memory.{Machine, ok}
use eafitos.Memory.Pages.{>>=_ok}
use eafitos.Vm.{valid, pte2pa, px0, px1, px2, max_va, walk, next_table, new_table, ismapped}
use eafitos.Vm.Mapping.{leaf_slot, pte_at, slot_top, slot_mid, slot_found, pte_none, pte_some}

module _ (slot : ℕ) (m : Machine) where
  pub next_here :
      (alloc : Bool)
      → valid (m.word slot) ≡ true
      → next_table slot alloc m ≡ ok (some (pte2pa (m.word slot)), m)
  unfolding next_table
  next_here alloc h = rw h refl

  pub next_none : valid (m.word slot) ≡ false → next_table slot false m ≡ ok (none, m)
  unfolding next_table
  next_none h = rw h refl

  pub next_new : valid (m.word slot) ≡ false → next_table slot true m ≡ new_table slot m
  unfolding next_table
  next_new h = rw h refl

module _ (root va : ℕ) (alloc : Bool) (m m1 : Machine) (lt : va < max_va) where
  in_range : leb max_va va ≡ false
  in_range = ground (arith, lt)

  pub walk_no_top :
      next_table (root + 8 * px2 va) alloc m ≡ ok (none, m1) → walk root va alloc m ≡ ok (none, m1)
  unfolding walk
  walk_no_top e = rw in_range (>>=_ok (next_table (root + 8 * px2 va) alloc) _ m m1 none e)

  module _ (t1 : ℕ) (m2 : Machine)
      (e : next_table (root + 8 * px2 va) alloc m ≡ ok (some t1, m1)) where
    pub walk_no_mid :
        next_table (t1 + 8 * px1 va) alloc m1 ≡ ok (none, m2) → walk root va alloc m ≡ ok (none, m2)
    unfolding walk
    walk_no_mid f = rw in_range (
        >>=_ok (next_table (root + 8 * px2 va) alloc) _ m m1 (some t1) e
        ∙ >>=_ok (next_table (t1 + 8 * px1 va) alloc) _ m1 m2 none f)

    pub walk_found :
        (t0 : ℕ)
        → next_table (t1 + 8 * px1 va) alloc m1 ≡ ok (some t0, m2)
        → walk root va alloc m ≡ ok (some (t0 + 8 * px0 va), m2)
    unfolding walk
    walk_found t0 f = rw in_range (
        >>=_ok (next_table (root + 8 * px2 va) alloc) _ m m1 (some t1) e
        ∙ >>=_ok (next_table (t1 + 8 * px1 va) alloc) _ m1 m2 (some t0) f)

-- `walk` without `alloc` only looks the entry up.
pub walk_reads :
    (m : Machine) (root va : ℕ)
    → va < max_va
    → walk root va false m ≡ ok (leaf_slot m.word root va, m)
walk_reads m root va lt =
    let s2 = root + 8 * px2 va in
    let t1 = pte2pa (m.word s2) in
    let s1 = t1 + 8 * px1 va in
    elim (Bool-cases (valid (m.word s2))) [
      | inr f ↦
          walk_no_top root va false m m lt (next_none s2 m f)
          ∙ ap (λ o. ok (o, m)) (sym (slot_top m.word root va f))
      | inl h ↦ elim (Bool-cases (valid (m.word s1))) [
        | inr k ↦
            walk_no_mid root va false m m lt t1 m (next_here s2 m false h) (next_none s1 m k)
            ∙ ap (λ o. ok (o, m)) (sym (slot_mid m.word root va t1 h refl k))
        | inl k ↦
            walk_found root va false m m lt t1 m (next_here s2 m false h) (pte2pa (m.word s1))
              (next_here s1 m false k)
            ∙ ap (λ o. ok (o, m))
                (sym (slot_found m.word root va t1 (pte2pa (m.word s1)) h refl k refl))
      ]
    ]

ismapped_from :
    (m : Machine) (root va : ℕ) (o : Option ℕ)
    → leaf_slot m.word root va ≡ o
    → walk root va false m ≡ ok (o, m)
    → ismapped root va m ≡ ok (valid (pte_at m.word root va), m)
unfolding ismapped
ismapped_from m root va none e w =
    >>=_ok (walk root va false) _ m m none w
    ∙ ap (λ x. ok (valid x, m)) (sym (pte_none m.word root va e))
ismapped_from m root va (some s) e w =
    >>=_ok (walk root va false) _ m m (some s) w
    ∙ ap (λ x. ok (valid x, m)) (sym (pte_some m.word root va s e))

-- `ismapped` is whether the leaf entry is valid.
pub ismapped_reads :
    (m : Machine) (root va : ℕ)
    → va < max_va
    → ismapped root va m ≡ ok (valid (pte_at m.word root va), m)
ismapped_reads m root va lt =
    ismapped_from m root va (leaf_slot m.word root va) refl (walk_reads m root va lt)
