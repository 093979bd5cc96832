-- ===== src/Vm/Extend.antt =====
-- `walk` with `alloc` on typed memory: it finds the leaf entry or memory is out, and only adds tables.
use eafitos.Base.{ℕ, ◌+◌, ◌*◌, ◌<◌, ◌≡◌, ap, ◌∙◌, subst, true, Option, none, some, List, [], arith}
use eafitos.Memory.{Machine, ok}
use eafitos.Vm.{valid, pte2pa, px0, px1, px2, max_va, next_table, walk}
use eafitos.Vm.Tree.{Kind, top_table, mid_table, leaf_table, child, Typed}
use eafitos.Vm.Mapping.{leaf_slot, slot_found, is_table}
use eafitos.Vm.Walk.{walk_no_top, walk_no_mid, walk_found}
use eafitos.Vm.Table.{Grown, Grown-trans}
use eafitos.Vm.Round.{Step, stuck, next, round}

-- What `walk` with `alloc` gives: no memory, or the leaf entry.
pub data Slot (m' : Machine) (xs' : List ℕ) (kind' : ℕ → Kind) (root va : ℕ)
    : Option ℕ → Type 0 where
  missing : xs' ≡ [] → Slot m' xs' kind' root va none
  at :
      (t1 t0 : ℕ)
      → kind' t1 ≡ mid_table (root + 8 * px2 va)
      → kind' t0 ≡ leaf_table (t1 + 8 * px1 va)
      → leaf_slot m'.word root va ≡ some (t0 + 8 * px0 va)
      → Slot m' xs' kind' root va (some (t0 + 8 * px0 va))

pub record Walked (m : Machine) (kind : ℕ → Kind) (root va : ℕ) : Type 0 where
  pub o : Option ℕ
  pub m' : Machine
  pub xs' : List ℕ
  pub kind' : ℕ → Kind
  pub result : walk root va true m ≡ ok (o, m')
  pub typed : Typed m' xs' kind'
  pub grown : Grown m m' kind kind'
  pub slot : Slot m' xs' kind' root va o

module _ (m : Machine) (kind : ℕ → Kind) (root va : ℕ) (top : kind root ≡ top_table)
    (lt : va < max_va) where
  abbrev s2 : ℕ
  s2 = root + 8 * px2 va

  second :
      (t1 : ℕ) (o : Option ℕ) (m1 m2 : Machine) (kind1 kind2 : ℕ → Kind) (xs2 : List ℕ)
      → next_table s2 true m ≡ ok (some t1, m1)
      → Grown m m1 kind kind1
      → valid (m1.word s2) ≡ true
      → pte2pa (m1.word s2) ≡ t1
      → kind1 t1 ≡ mid_table s2
      → next_table (t1 + 8 * px1 va) true m1 ≡ ok (o, m2)
      → Typed m2 xs2 kind2
      → Grown m1 m2 kind1 kind2
      → Step m2 xs2 kind2 (t1 + 8 * px1 va) (leaf_table (t1 + 8 * px1 va)) o
      → Walked m kind root va
  second t1 none m1 m2 kind1 kind2 xs2 e g v p k f w h (stuck z) = record {
    o = none;
    m' = m2;
    xs' = xs2;
    kind' = kind2;
    result = walk_no_mid root va true m m1 lt t1 m2 e f;
    typed = w;
    grown = Grown-trans m m1 m2 kind kind1 kind2 g h;
    slot = missing z;
  }
  second t1 (some _) m1 m2 kind1 kind2 xs2 e g v p k f w h (next c v0 p0 k0) =
      let top1 = (g.keeps).kinds root (λ z. cc) ∙ top in
      let same = h.valids root (px2 va) (is_table (kind1 root) top_table top1 tt) (omega arith) v in
      record {
        o = some (c + 8 * px0 va);
        m' = m2;
        xs' = xs2;
        kind' = kind2;
        result = walk_found root va true m m1 lt t1 m2 e c f;
        typed = w;
        grown = Grown-trans m m1 m2 kind kind1 kind2 g h;
        slot =
            at t1 c ((h.keeps).kinds t1 (λ z. cc) ∙ k) k0
              (slot_found m2.word root va t1 c (ap valid same ∙ v) (ap pte2pa same ∙ p) v0 p0);
      }

  first :
      (o : Option ℕ) (m1 : Machine) (kind1 : ℕ → Kind) (xs1 : List ℕ)
      → next_table s2 true m ≡ ok (o, m1)
      → Typed m1 xs1 kind1
      → Grown m m1 kind kind1
      → Step m1 xs1 kind1 s2 (mid_table s2) o
      → Walked m kind root va
  first none m1 kind1 xs1 e w g (stuck z) = record {
    o = none;
    m' = m1;
    xs' = xs1;
    kind' = kind1;
    result = walk_no_top root va true m m1 lt e;
    typed = w;
    grown = g;
    slot = missing z;
  }
  first (some _) m1 kind1 xs1 e w g (next c v p k) =
      let s1 = c + 8 * px1 va in
      let r =
        round m1 xs1 kind1 c (px1 va) w (is_table (kind1 c) (mid_table s2) k tt) (omega arith)
          (is_table (child (kind1 c) s1) (leaf_table s1) (ap (λ y. child y s1) k) tt) in
      second c r.o m1 r.m' kind1 r.kind' r.xs' e g v p k r.result r.typed r.grown
        (subst (λ y. Step r.m' r.xs' r.kind' s1 y r.o) (ap (λ y. child y s1) k) r.step)

  pub walk-Walked : (xs : List ℕ) → Typed m xs kind → Walked m kind root va
  walk-Walked xs w =
      let r =
        round m xs kind root (px2 va) w (is_table (kind root) top_table top tt) (omega arith)
          (is_table (child (kind root) s2) (mid_table s2) (ap (λ y. child y s2) top) tt) in
      first r.o r.m' r.kind' r.xs' r.result r.typed r.grown
        (subst (λ y. Step r.m' r.xs' r.kind' s2 y r.o) (ap (λ y. child y s2) top) r.step)
