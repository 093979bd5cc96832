-- ===== src/Traps/Panics.antt =====
-- Arguments of `map_ro` and `shmem` that reach a panic of the page tables.
use eafitos.Base.{
  ℕ, ◌+◌, ◌*◌, ◌%◌, ◌<◌, ◌≤◌, ◌≡◌, ◌≢◌, ◌⊎◌, inl, inr, refl, sym, ap, ◌∙◌, subst, true, false, some,
  List, ◌∷◌, arith, ◌==◌, ==_iff, ne_of_==, leb, Bool-cases, update, update_self, update_ne,
}
use eafitos.Memory.{
  Machine, ok, panic, page_size, page_round_down, walk_out_of_range, va_not_aligned, remap, ◌>>=◌,
  kalloc, fill,
}
use eafitos.Memory.Pages.{>>=_ok}
use eafitos.Vm.{valid, pte2pa, px0, px1, px2, max_va, walk, ismapped, mappages, map_page, map_pages}
use eafitos.Vm.Tree.{Kind, held, vacant, top_table, IsTable, Typed}
use eafitos.Vm.Grow.{kalloc-Typed, fill-Typed}
use eafitos.Vm.Mapping.{
  pte_at, slot_top, slot_mid, slot_found, pte_none, pte_some, no_top, no_mid, found, view,
}
use eafitos.Vm.Quiet.{quiet_same}
use eafitos.Vm.Walk.{next_here, walk_found}
use eafitos.Memory.Pages.{fill_out}
use eafitos.Traps.{ProcMemory, user_rw, share_page, sys_map_ro, sys_shmem}

-- `map_ro` of an address whose page is at or past MAXVA panics in `walk`, whatever the state.
pub map_ro_out_of_range :
    (addr : ℕ) (p : ProcMemory) (m : Machine)
    → max_va ≤ page_round_down addr
    → sys_map_ro addr p m ≡ panic walk_out_of_range
unfolding sys_map_ro ismapped walk
map_ro_out_of_range addr p m h =
    let z : leb max_va (page_round_down addr) ≡ true = ground (arith, h) in rw z refl

-- A mapped address has all its tables.
present :
    (m : Machine) (xs : List ℕ) (kind : ℕ → Kind) (root va : ℕ)
    → Typed m xs kind
    → kind root ≡ top_table
    → valid (pte_at m.word root va) ≡ true
    → (t1 : ℕ) × (t0 : ℕ) × (valid (m.word (root + 8 * px2 va)) ≡ true)
      × (pte2pa (m.word (root + 8 * px2 va)) ≡ t1)
      × (valid (m.word (t1 + 8 * px1 va)) ≡ true)
      × (pte2pa (m.word (t1 + 8 * px1 va)) ≡ t0)
      × (valid (m.word (t0 + 8 * px0 va)) ≡ true)
present m xs kind root va w top h = elim (view m xs kind root va w top) [
  | no_top f ↦ let e = sym h ∙ ap valid (pte_none m.word root va (slot_top m.word root va f)) in cc
  | no_mid t1 v q k f ↦
      let e = sym h ∙ ap valid (pte_none m.word root va (slot_mid m.word root va t1 v q f)) in cc
  | found t1 t0 v q k v1 q1 k1 ↦ (
    t1,
    t0,
    v,
    q,
    v1,
    q1,
    ap valid (
          sym
            (pte_some m.word root va (t0 + 8 * px0 va) (slot_found m.word root va t1 t0 v q v1 q1)))
        ∙ h,
  )
]

remaps_at :
    (root va mem perm s : ℕ) (m : Machine)
    → walk root va true m ≡ ok (some s, m)
    → valid (m.word s) ≡ true
    → map_page root va mem perm m ≡ panic remap
unfolding map_page
remaps_at root va mem perm s m e v = >>=_ok (walk root va true) _ m m (some s) e ∙ rw v refl

-- `mappages` of a page that is mapped panics.
remaps :
    (m : Machine) (xs : List ℕ) (kind : ℕ → Kind) (root va mem perm : ℕ)
    → Typed m xs kind
    → kind root ≡ top_table
    → va % page_size ≡ 0
    → va < max_va
    → valid (pte_at m.word root va) ≡ true
    → mappages root va page_size mem perm m ≡ panic remap
unfolding mappages map_pages
remaps m xs kind root va mem perm w top al lt h =
    let z : (va % page_size == 0) ≡ true = ground (arith, al) in
    let (t1, t0, v, q, v1, q1, v0) = present m xs kind root va w top h in
    let here2 = next_here (root + 8 * px2 va) m true v ∙ ap (λ t. ok (some t, m)) q in
    let here1 = next_here (t1 + 8 * px1 va) m true v1 ∙ ap (λ t. ok (some t, m)) q1 in
    rw z (
      remaps_at root va mem perm (t0 + 8 * px0 va) m
        (walk_found root va true m m lt t1 m here2 t0 here1) v0)

unaligned :
    (m : Machine) (root va mem perm : ℕ)
    → va % page_size ≢ 0
    → mappages root va page_size mem perm m ≡ panic va_not_aligned
unfolding mappages
unaligned m root va mem perm h =
    let z : (va % page_size == 0) ≡ false = ground (arith, h) in rw z refl

share_fails :
    (mem other va : ℕ) (p : ProcMemory) (m : Machine)
    → mappages p.pagetable va page_size mem user_rw m ≡ panic remap
    → share_page mem other va p m ≡ panic remap
unfolding share_page
share_fails mem other va p m e = rw (e, ◌>>=◌) refl

share_unaligned :
    (mem other va : ℕ) (p : ProcMemory) (m : Machine)
    → mappages p.pagetable va page_size mem user_rw m ≡ panic va_not_aligned
    → share_page mem other va p m ≡ panic va_not_aligned
unfolding share_page
share_unaligned mem other va p m e = rw (e, ◌>>=◌) refl

apart : (k : Kind) → k ≡ vacant → k ≡ top_table → ⊥
apart k e f = cc

-- On memory whose pages and page tables agree and where a page is free, `shmem` with the pid of a
-- process panics in `mappages` at every address that is not a page's, and at every page that the
-- caller has mapped.
pub shmem_panics :
    (m : Machine) (x : ℕ) (xs : List ℕ) (kind : ℕ → Kind) (other va : ℕ) (p : ProcMemory)
    → Typed m (x ∷ xs) kind
    → kind p.pagetable ≡ top_table
    → va < max_va
    → (va % page_size ≢ 0) ⊎ (valid (pte_at m.word p.pagetable va) ≡ true)
    → (sys_shmem (some other) va p m ≡ panic va_not_aligned)
      ⊎ (sys_shmem (some other) va p m ≡ panic remap)
unfolding sys_shmem
shmem_panics m x xs kind other va p w top lt h = elim (kalloc-Typed m (x ∷ xs) kind w) [
  | inl (empty, e) ↦ cc
  | inr (y, rest, m1, e, w1, page, vac, nz, frame) ↦
      let z : (y == 0) ≡ false = ground (arith, nz) in
      let m2 = record m1 { word = fill m1.word y 0 } in
      let enter = >>=_ok kalloc _ m m1 y e in
      elim (Bool-cases (va % page_size == 0)) [
        | inr rest_of ↦
            let odd : va % page_size ≢ 0 = ne_of_== (va % page_size) 0 rest_of in
            inl (
              enter
              ∙ rw z (share_unaligned y other va p m2 (unaligned m2 p.pagetable va y user_rw odd)))
        | inl even ↦
            let kind1 = update kind y held in
            let used : p.pagetable ≢ y = λ c. apart (kind y) vac (ap kind (sym c) ∙ top) in
            let top2 =
              update_ne kind1 y held p.pagetable used
              ∙ update_ne kind y held p.pagetable used
              ∙ top in
            let w2 =
              fill-Typed m1 rest kind1 y 0 held w1 (update_self kind y held) page.aligned
                (λ t. absurd t) in
            let same =
              quiet_same m m2 (x ∷ xs) kind y w page.aligned (λ t. subst IsTable vac t)
                (λ a far. fill_out m1.word y 0 a far ∙ frame a far) p.pagetable va top in
            let al : va % page_size ≡ 0 = (==_iff (va % page_size) 0).0 even in
            let is : valid (pte_at m.word p.pagetable va) ≡ true = elim h [
              | inl odd ↦ absurd (odd al)
              | inr v ↦ v
            ] in
            inr (
              enter
              ∙ rw z (
                  share_fails y other va p m2 (
                    remaps m2 rest (update kind1 y held) p.pagetable va y user_rw w2 top2 al lt
                      (ap valid same ∙ is))))
      ]
]
