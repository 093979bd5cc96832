-- ===== src/Vm/Tree.antt =====
-- What the pages of memory are for, and that the entries of page tables agree with it.
use eafitos.Base.{
  ℕ, ◌+◌, ◌*◌, ◌%◌, ◌≤◌, ◌<◌, ◌≡◌, ◌≢◌, ◌⊎◌, inl, inr, sym, ap, ◌∙◌, subst, true, false, List, [],
  ◌∷◌, arith, update, update_ne, update_cases,
}
use eafitos.Memory.{Machine, page_size}
use eafitos.Memory.FreeList.{IsPage, Absent, Free, Chain-frame}
use eafitos.Vm.{valid, pte2pa}

-- A page is on the free list, held by the kernel, mapped, or a page table. A table below the top is
-- found at one entry only, whose address is its parameter.
pub data Kind : Type 0 where
  vacant held mapped top_table : Kind
  mid_table leaf_table : ℕ → Kind

abbrev pub IsTable : Kind → Type 0
IsTable vacant = ⊥
IsTable held = ⊥
IsTable mapped = ⊥
IsTable top_table = Unit {0}
IsTable (mid_table s) = Unit {0}
IsTable (leaf_table s) = Unit {0}

-- What the entry at address s of a table refers to.
abbrev pub child : Kind → ℕ → Kind
child vacant s = vacant
child held s = vacant
child mapped s = vacant
child top_table s = mid_table s
child (mid_table t) s = leaf_table s
child (leaf_table t) s = mapped

abbrev pub All : (ℕ → Kind) → List ℕ → Type 0
All kind [] = Unit {0}
All kind (x ∷ xs) = (kind x ≡ vacant) × All kind xs

pub record Typed (m : Machine) (xs : List ℕ) (kind : ℕ → Kind) : Type 0 where
  pub free : Free m xs
  pub vacants : All kind xs
  pub pages : (x : ℕ) → kind x ≡ held → IsPage m.kernel_end x
  pub aligned : (t : ℕ) → IsTable (kind t) → t % page_size ≡ 0
  pub entries :
      (t i : ℕ)
      → IsTable (kind t)
      → i < 512
      → valid (m.word (t + 8 * i)) ≡ true
      → kind (pte2pa (m.word (t + 8 * i))) ≡ child (kind t) (t + 8 * i)

pub vacant-not_table : (k : Kind) → IsTable k → k ≢ vacant
vacant-not_table vacant h = absurd h
vacant-not_table held h = absurd h
vacant-not_table mapped h = absurd h
vacant-not_table top_table h = λ e. cc
vacant-not_table (mid_table s) h = λ e. cc
vacant-not_table (leaf_table s) h = λ e. cc

held-not_table : (k : Kind) → IsTable k → k ≢ held
held-not_table vacant h = absurd h
held-not_table held h = absurd h
held-not_table mapped h = absurd h
held-not_table top_table h = λ e. cc
held-not_table (mid_table s) h = λ e. cc
held-not_table (leaf_table s) h = λ e. cc

-- No entry refers to a page that is vacant or held.
child-used : (k : Kind) (s : ℕ) → IsTable k → (child k s ≢ vacant) × (child k s ≢ held)
child-used vacant s h = absurd h
child-used held s h = absurd h
child-used mapped s h = absurd h
child-used top_table s h = (λ e. cc, λ e. cc)
child-used (mid_table t) s h = (λ e. cc, λ e. cc)
child-used (leaf_table t) s h = (λ e. cc, λ e. cc)

pub All-Absent :
    (kind : ℕ → Kind) (t : ℕ) (xs : List ℕ) → kind t ≢ vacant → All kind xs → Absent t xs
All-Absent kind t [] h a = tt
All-Absent kind t (x ∷ xs) h a =
    (λ e. h (subst (λ y. kind y ≡ vacant) e a.0), All-Absent kind t xs h a.1)

pub All-update :
    (kind : ℕ → Kind) (x : ℕ) (k : Kind) (xs : List ℕ)
    → Absent x xs
    → All kind xs
    → All (update kind x k) xs
All-update kind x k [] out a = tt
All-update kind x k (y ∷ xs) out a =
    (update_ne kind x k y out.0 ∙ a.0, All-update kind x k xs out.1 a.1)

-- An entry of an aligned table is at one place.
pub entry_place :
    (t i u j : ℕ)
    → t % page_size ≡ 0
    → u % page_size ≡ 0
    → i < 512
    → j < 512
    → t + 8 * i ≡ u + 8 * j
    → (t ≡ u) × (i ≡ j)
entry_place t i u j p q h k e = (omega arith, omega arith)

-- A write of the entry i of table t.
pub Typed-store :
    (m : Machine) (xs : List ℕ) (kind : ℕ → Kind) (t i v : ℕ)
    → Typed m xs kind
    → IsTable (kind t)
    → i < 512
    → (valid v ≡ true → kind (pte2pa v) ≡ child (kind t) (t + 8 * i))
    → Typed (record m { word = update m.word (t + 8 * i) v }) xs kind
Typed-store m xs kind t i v w h lt good = record {
  free = record {
    kernel = (w.free).kernel;
    chain =
        Chain-frame m.word (update m.word (t + 8 * i) v) m.kernel_end t m.freelist xs
          (w.aligned t h)
          (λ x hx ne. update_ne m.word (t + 8 * i) v x (omega (arith, w.aligned t h)))
          (All-Absent kind t xs (vacant-not_table (kind t) h) w.vacants) (w.free).chain;
    distinct = (w.free).distinct;
  };
  vacants = w.vacants;
  pages = w.pages;
  aligned = w.aligned;
  entries = λ u j hu lj. elim (update_cases m.word (t + 8 * i) v (u + 8 * j)) [
    | inl (e, f) ↦
        let (a, b) = entry_place t i u j (w.aligned t h) (w.aligned u hu) lt lj (sym e) in
        subst (λ x. valid x ≡ true → kind (pte2pa x) ≡ child (kind u) (u + 8 * j)) (sym f)
          (subst (λ y. valid v ≡ true → kind (pte2pa v) ≡ child (kind y) (u + 8 * j)) a
            (subst (λ y. valid v ≡ true → kind (pte2pa v) ≡ child (kind t) y) (sym e) good))
    | inr (ne, f) ↦
        subst (λ x. valid x ≡ true → kind (pte2pa x) ≡ child (kind u) (u + 8 * j)) (sym f)
          (w.entries u j hu lj)
  ];
}

-- Memory changes only within the aligned page x, that no entry refers to, and the page gets another
-- kind.
pub Typed-page :
    (m m' : Machine) (xs xs' : List ℕ) (kind : ℕ → Kind) (x : ℕ) (k : Kind)
    → Typed m xs kind
    → (kind x ≡ vacant) ⊎ (kind x ≡ held)
    → x % page_size ≡ 0
    → m'.kernel_end ≡ m.kernel_end
    → (k ≡ held → IsPage m.kernel_end x)
    → Free m' xs'
    → All (update kind x k) xs'
    → ((a : ℕ) → (a < x) ⊎ (x + page_size ≤ a) → m'.word a ≡ m.word a)
    → (IsTable k → (i : ℕ) → i < 512 → valid (m'.word (x + 8 * i)) ≡ false)
    → Typed m' xs' (update kind x k)
Typed-page m m' xs xs' kind x k w old al low page free vacants same empty = record {
  free = free;
  vacants = vacants;
  pages = λ y h.
      subst (λ l. IsPage l y) (sym low)
        (elim (update_cases kind x k y) [
          | inl (e, f) ↦ subst (IsPage m.kernel_end) (sym e) (page (sym f ∙ h))
          | inr (ne, f) ↦ w.pages y (sym f ∙ h)
        ]);
  aligned = λ t h. elim (update_cases kind x k t) [
    | inl (e, f) ↦ subst (λ y. y % page_size ≡ 0) (sym e) al
    | inr (ne, f) ↦ w.aligned t (subst IsTable f h)
  ];
  entries = λ t i h lt v. elim (update_cases kind x k t) [
    | inl (e, f) ↦
        let none = empty (subst IsTable f h) i lt in
        let some = subst (λ y. valid (m'.word (y + 8 * i)) ≡ true) e v in cc
    | inr (ne, f) ↦
        let g = subst IsTable f h in
        let s = same (t + 8 * i) (omega (arith, w.aligned t g, al, ne, lt)) in
        let c = w.entries t i g lt (subst (λ y. valid y ≡ true) s v) in
        subst (λ y. update kind x k (pte2pa (m'.word (t + 8 * i))) ≡ child y (t + 8 * i)) (sym f)
          (subst (λ y. update kind x k (pte2pa y) ≡ child (kind t) (t + 8 * i)) (sym s)
            (update_ne kind x k (pte2pa (m.word (t + 8 * i))) (unused t i g c) ∙ c))
  ];
}
  where
    unused :
        (t i : ℕ)
        → IsTable (kind t)
        → kind (pte2pa (m.word (t + 8 * i))) ≡ child (kind t) (t + 8 * i)
        → pte2pa (m.word (t + 8 * i)) ≢ x
    unused t i g c e =
        let u = child-used (kind t) (t + 8 * i) g in
        let d = sym c ∙ ap kind e in elim old [ inl v ↦ u.0 (d ∙ v) | inr v ↦ u.1 (d ∙ v) ]
