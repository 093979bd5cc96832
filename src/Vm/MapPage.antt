-- ===== src/Vm/MapPage.antt =====
-- `mappages` of one held page on typed memory.
use eafitos.Base.{
  ℕ, ◌+◌, ◌*◌, ◌%◌, ◌<◌, ◌≤◌, ◌≡◌, ◌≢◌, ◌⊎◌, inl, inr, refl, sym, ap, ◌∙◌, subst, Bool, true, false,
  Option, none, some, List, [], arith, update, update_self, update_ne, update_cases, ◌==◌,
}
use eafitos.Memory.{Machine, Result, ok, page_size}
use eafitos.Memory.Pages.{>>=_ok}
use eafitos.Vm.{valid, pte2pa, px0, px1, px2, max_va, walk, leaf, map_page, map_pages, mappages}
use eafitos.Vm.Entry.{leaf_decodes}
use eafitos.Vm.Tree.{
  Kind, vacant, held, mapped, top_table, mid_table, leaf_table, IsTable, child, All-Absent,
  All-update, Typed, Typed-store, Typed-page,
}
use eafitos.Vm.Grow.{Keeps-store}
use eafitos.Vm.Mapping.{leaf_slot, pte_at, pte_some, is_table}
use eafitos.Vm.Table.{Grown, top_used}
use eafitos.Vm.Extend.{Slot, missing, at, walk-Walked}
use eafitos.Vm.Assign.{Assigned, store-Assigned}

-- The page mem becomes mapped; other pages in use keep their kinds, and data its contents.
pub record Mapped (m m' : Machine) (kind kind' : ℕ → Kind) (mem : ℕ) : Type 0 where
  pub now : kind' mem ≡ mapped
  pub others : (u : ℕ) → u ≢ mem → kind u ≢ vacant → kind' u ≡ kind u
  pub contents :
      (u a : ℕ)
      → (kind u ≡ held) ⊎ (kind u ≡ mapped)
      → u % page_size ≡ 0
      → u ≤ a
      → a < u + page_size
      → m'.word a ≡ m.word a

-- What `mappages` of the page leaves: memory was out, or the page is mapped.
pub data MapOutcome (m : Machine) (kind : ℕ → Kind) (root va mem v : ℕ)
    (r : Result (Bool × Machine)) : Type 0 where
  no_memory :
      (m' : Machine) (xs' : List ℕ) (kind' : ℕ → Kind)
      → r ≡ ok (false, m')
      → Typed m' xs' kind'
      → xs' ≡ []
      → Grown m m' kind kind'
      → MapOutcome m kind root va mem v r
  done :
      (m' : Machine) (xs' : List ℕ) (kind' : ℕ → Kind)
      → r ≡ ok (true, m')
      → Typed m' xs' kind'
      → Assigned m m' kind root va v
      → Mapped m m' kind kind' mem
      → MapOutcome m kind root va mem v r

pub held_used : (k : Kind) → k ≡ held → k ≢ vacant
held_used k e f = cc

one_page :
    (root va mem perm : ℕ) (m : Machine)
    → va % page_size ≡ 0
    → mappages root va page_size mem perm m ≡ map_page root va mem perm m
unfolding mappages map_pages
one_page root va mem perm m al =
    let z : (va % page_size == 0) ≡ true = ground (arith, al) in rw z refl

no_slot :
    (root va mem perm : ℕ) (m m' : Machine)
    → walk root va true m ≡ ok (none, m')
    → map_page root va mem perm m ≡ ok (false, m')
unfolding map_page
no_slot root va mem perm m m' e = >>=_ok (walk root va true) _ m m' none e

slot_stored :
    (root va mem perm s : ℕ) (m m' : Machine)
    → walk root va true m ≡ ok (some s, m')
    → valid (m'.word s) ≡ false
    → map_page root va mem perm m ≡ ok (true, record m' { word = update m'.word s (leaf mem perm) })
unfolding map_page
slot_stored root va mem perm s m m' e f = >>=_ok (walk root va true) _ m m' (some s) e ∙ rw f refl

module _ (m : Machine) (kind : ℕ → Kind) (root va mem perm : ℕ) (top : kind root ≡ top_table)
    (lt : va < max_va) (hold : kind mem ≡ held) (al : mem % page_size ≡ 0) (small : perm < 1024)
    (unmapped : valid (pte_at m.word root va) ≡ false) where
  mapped_at :
      (t1 t0 : ℕ) (m1 : Machine) (xs1 : List ℕ) (kind1 : ℕ → Kind)
      → walk root va true m ≡ ok (some (t0 + 8 * px0 va), m1)
      → Typed m1 xs1 kind1
      → Grown m m1 kind kind1
      → kind1 t1 ≡ mid_table (root + 8 * px2 va)
      → kind1 t0 ≡ leaf_table (t1 + 8 * px1 va)
      → leaf_slot m1.word root va ≡ some (t0 + 8 * px0 va)
      → MapOutcome m kind root va mem (leaf mem perm) (map_page root va mem perm m)
  mapped_at t1 t0 m1 xs1 kind1 e w g k1 k0 there =
      done m2 xs1 kind2 (slot_stored root va mem perm s0 m m1 e invalid)
        (Typed-store m1 xs1 kind2 t0 (px0 va) v w2 is0 (omega arith) good) assigned
        (record {
          now = update_self kind1 mem mapped;
          others = λ u ne h. update_ne kind1 mem mapped u ne ∙ (g.keeps).kinds u h;
          contents = λ u a h hu p q.
              (Keeps-store m1 kind2 t0 (px0 va) v is0 (w.aligned t0 old0) (omega arith)).contents u
                a (data2 u h) hu p q
              ∙ (g.keeps).contents u a h hu p q;
        })
    where
      s0 : ℕ
      s0 = t0 + 8 * px0 va

      v : ℕ
      v = leaf mem perm

      m2 : Machine
      m2 = record m1 { word = update m1.word s0 v }

      kind2 : ℕ → Kind
      kind2 = update kind1 mem mapped

      hold1 : kind1 mem ≡ held
      hold1 = (g.keeps).kinds mem (held_used (kind mem) hold) ∙ hold

      old0 : IsTable (kind1 t0)
      old0 = is_table (kind1 t0) (leaf_table (t1 + 8 * px1 va)) k0 tt

      ne0 : t0 ≢ mem
      ne0 z = let c = sym k0 ∙ ap kind1 z ∙ hold1 in cc

      kt0 : kind2 t0 ≡ kind1 t0
      kt0 = update_ne kind1 mem mapped t0 ne0

      is0 : IsTable (kind2 t0)
      is0 = subst IsTable (sym kt0) old0

      decoded : pte2pa v ≡ mem
      decoded = (leaf_decodes mem perm al small).1

      invalid : valid (m1.word s0) ≡ false
      invalid = ap valid (sym (pte_some m1.word root va s0 there) ∙ g.same root va top) ∙ unmapped

      w2 : Typed m1 xs1 kind2
      w2 =
          Typed-page m1 m1 xs1 xs1 kind1 mem mapped w (inr hold1) al refl (λ e. cc) w.free
            (All-update kind1 mem mapped xs1
              (All-Absent kind1 mem xs1 (held_used (kind1 mem) hold1) w.vacants) w.vacants)
            (λ a h. refl) (λ h. absurd h)

      good : valid v ≡ true → kind2 (pte2pa v) ≡ child (kind2 t0) s0
      good h =
          ap kind2 decoded ∙ update_self kind1 mem mapped ∙ ap (λ k. child k s0) (sym (kt0 ∙ k0))

      assigned : Assigned m m2 kind root va v
      assigned =
          let a =
            store-Assigned m1 xs1 kind1 root va t1 t0 v w lt
              ((g.keeps).kinds root (top_used (kind root) top) ∙ top) k1 k0 there in
          record {
            here = a.here;
            elsewhere = λ r b rt lb apart.
                a.elsewhere r b ((g.keeps).kinds r (top_used (kind r) rt) ∙ rt) lb apart
                ∙ g.same r b rt;
          }

      data2 : (u : ℕ) → (kind u ≡ held) ⊎ (kind u ≡ mapped) → (kind2 u ≡ held) ⊎ (kind2 u ≡ mapped)
      data2 u h = elim (update_cases kind1 mem mapped u) [
        | inl (_, f) ↦ inr f
        | inr (_, f) ↦ elim h [
          | inl k ↦ inl (f ∙ (g.keeps).kinds u (held_used (kind u) k) ∙ k)
          | inr k ↦ inr (f ∙ (g.keeps).kinds u (λ z. cc) ∙ k)
        ]
      ]

  by_slot :
      (o : Option ℕ) (m1 : Machine) (xs1 : List ℕ) (kind1 : ℕ → Kind)
      → walk root va true m ≡ ok (o, m1)
      → Typed m1 xs1 kind1
      → Grown m m1 kind kind1
      → Slot m1 xs1 kind1 root va o
      → MapOutcome m kind root va mem (leaf mem perm) (map_page root va mem perm m)
  by_slot none m1 xs1 kind1 e w g (missing z) =
      no_memory m1 xs1 kind1 (no_slot root va mem perm m m1 e) w z g
  by_slot (some _) m1 xs1 kind1 e w g (at t1 t0 k1 k0 there) =
      mapped_at t1 t0 m1 xs1 kind1 e w g k1 k0 there

  -- On memory whose pages and page tables agree, where va is a page below MAXVA that the table does
  -- not map and mem is a page that the kernel holds, `mappages` of the page returns without a panic,
  -- and memory agrees again. Either it returns -1, no page is free any more, and no translation has
  -- changed; or it returns 0, the entry for va in this table is that of mem with the permissions, no
  -- other translation of any page table has changed, mem counts as mapped, and all other pages in
  -- use keep their kinds and their data.
  pub mappages-MapOutcome :
      (xs : List ℕ)
      → Typed m xs kind
      → va % page_size ≡ 0
      → MapOutcome m kind root va mem (leaf mem perm) (mappages root va page_size mem perm m)
  mappages-MapOutcome xs w page =
      let r = walk-Walked m kind root va top lt xs w in
      subst (MapOutcome m kind root va mem (leaf mem perm)) (sym (one_page root va mem perm m page))
        (by_slot r.o r.m' r.xs' r.kind' r.result r.typed r.grown r.slot)
