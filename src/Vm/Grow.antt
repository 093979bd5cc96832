-- ===== src/Vm/Grow.antt =====
-- kalloc, kfree and the growth of page tables keep the kinds of pages.
use eafitos.Base.{
  ℕ, ◌+◌, ◌*◌, ◌%◌, ◌≤◌, ◌<◌, ◌≡◌, ◌≢◌, ◌⊎◌, inl, inr, refl, sym, ap, ◌∙◌, subst, false, List, [],
  ◌∷◌, arith, update, update_self, update_ne, ◌==◌, Bool-cases,
}
use eafitos.Memory.{Machine, Result, ok, panic, page_size, kalloc, kfree, fill}
use eafitos.Memory.FreeList.{IsPage, Free, kalloc_pops, kfree_pushes, fill_apart, Chain-frame}
use eafitos.Memory.Pages.{fill_in, fill_out}
use eafitos.Vm.{valid}
use eafitos.Vm.Tree.{
  Kind, vacant, held, mapped, top_table, mid_table, leaf_table, IsTable, All, All-Absent,
  All-update, Typed, Typed-page,
}

-- All pages that were in use keep their kinds, and those that hold data keep their contents.
pub record Keeps (m m' : Machine) (kind kind' : ℕ → Kind) : Type 0 where
  pub kinds : (u : ℕ) → kind u ≢ vacant → kind' u ≡ kind u
  pub contents :
      (u a : ℕ)
      → (kind u ≡ held) ⊎ (kind u ≡ mapped)
      → u % page_size ≡ 0
      → u ≤ a
      → a < u + page_size
      → m'.word a ≡ m.word a

pub Keeps-refl : (m : Machine) (kind : ℕ → Kind) → Keeps m m kind kind
Keeps-refl m kind = record { kinds = λ u h. refl; contents = λ u a h al p q. refl }

pub data_used : (k : Kind) → (k ≡ held) ⊎ (k ≡ mapped) → k ≢ vacant
data_used k (inl e) f = cc
data_used k (inr e) f = cc

pub Keeps-trans :
    (m m1 m2 : Machine) (kind kind1 kind2 : ℕ → Kind)
    → Keeps m m1 kind kind1
    → Keeps m1 m2 kind1 kind2
    → Keeps m m2 kind kind2
Keeps-trans m m1 m2 kind kind1 kind2 f g = record {
  kinds = λ u h. g.kinds u (λ e. h (sym (f.kinds u h) ∙ e)) ∙ f.kinds u h;
  contents = λ u a h al p q.
      g.contents u a
        (subst (λ k. (k ≡ held) ⊎ (k ≡ mapped)) (sym (f.kinds u (data_used (kind u) h))) h) al p q
      ∙ f.contents u a h al p q;
}

-- All that changes is a page that was vacant.
pub Keeps-page :
    (m m' : Machine) (kind kind' : ℕ → Kind) (x : ℕ)
    → kind x ≡ vacant
    → x % page_size ≡ 0
    → ((u : ℕ) → u ≢ x → kind' u ≡ kind u)
    → ((a : ℕ) → (a < x) ⊎ (x + page_size ≤ a) → m'.word a ≡ m.word a)
    → Keeps m m' kind kind'
Keeps-page m m' kind kind' x v al others same = record {
  kinds = λ u h. others u (λ e. h (ap kind e ∙ v));
  contents = λ u a h hu p q.
      let ne : u ≢ x = λ e. data_used (kind u) h (ap kind e ∙ v) in same a (omega arith);
}

table-not_data : (k : Kind) → IsTable k → (k ≡ held) ⊎ (k ≡ mapped) → ⊥
table-not_data vacant h e = h
table-not_data held h e = h
table-not_data mapped h e = h
table-not_data top_table h (inl e) = cc
table-not_data top_table h (inr e) = cc
table-not_data (mid_table s) h (inl e) = cc
table-not_data (mid_table s) h (inr e) = cc
table-not_data (leaf_table s) h (inl e) = cc
table-not_data (leaf_table s) h (inr e) = cc

-- A write of a table's entry.
pub Keeps-store :
    (m : Machine) (kind : ℕ → Kind) (t i v : ℕ)
    → IsTable (kind t)
    → t % page_size ≡ 0
    → i < 512
    → Keeps m (record m { word = update m.word (t + 8 * i) v }) kind kind
Keeps-store m kind t i v h al lt = record {
  kinds = λ u e. refl;
  contents = λ u a d hu p q.
      let ne : t ≢ u = λ e. table-not_data (kind u) (subst (λ y. IsTable (kind y)) e h) d in
      update_ne m.word (t + 8 * i) v a (omega arith);
}

abbrev end_of : {A : Type 0} → ℕ → Result (A × Machine) → ℕ
end_of d (ok r) = (r.1).kernel_end
end_of d (panic e) = d

kalloc_end : (m m' : Machine) (x : ℕ) → kalloc m ≡ ok (x, m') → m'.kernel_end ≡ m.kernel_end
unfolding kalloc
kalloc_end m m' x e = elim (Bool-cases (m.freelist == 0)) [
  | inl z ↦ sym (ap (end_of 0) e) ∙ rw z refl
  | inr z ↦ sym (ap (end_of 0) e) ∙ rw z refl
]

-- `kalloc` finds no page, or turns a vacant page into one that is held.
pub kalloc-Typed :
    (m : Machine) (xs : List ℕ) (kind : ℕ → Kind)
    → Typed m xs kind
    → ((xs ≡ []) × (kalloc m ≡ ok (0, m)))
      ⊎ ((x : ℕ) × (rest : List ℕ) × (m' : Machine) × (kalloc m ≡ ok (x, m'))
          × Typed m' rest (update kind x held)
          × IsPage m.kernel_end x
          × (kind x ≡ vacant)
          × (x ≢ 0)
          × ((a : ℕ) → (a < x) ⊎ (x + page_size ≤ a) → m'.word a ≡ m.word a))
kalloc-Typed m xs kind w = elim (kalloc_pops m xs w.free) [
  | inl r ↦ inl r
  | inr (x, rest, m', e, k, free, junk, same) ↦
      let old : Free m (x ∷ rest) = subst (λ ys. Free m ys) e w.free in
      let vac : All kind (x ∷ rest) = subst (λ ys. All kind ys) e w.vacants in
      let page : IsPage m.kernel_end x = (old.chain).1 in
      let low : m'.kernel_end ≡ m.kernel_end = kalloc_end m m' x k in
      inr (
        x,
        rest,
        m',
        k,
        Typed-page m m' xs rest kind x held w (inl vac.0) page.aligned low (λ h. page) free
            (All-update kind x held rest (old.distinct).0 vac.1) same (λ h. absurd h),
        page,
        vac.0,
        omega (arith, page.above, old.kernel),
        same,
      )
]

-- `kfree` takes back a page that is held.
pub kfree-Typed :
    (m : Machine) (xs : List ℕ) (kind : ℕ → Kind) (x : ℕ)
    → Typed m xs kind
    → kind x ≡ held
    → (m' : Machine) × (kfree x m ≡ ok (tt, m'))
      × Typed m' (x ∷ xs) (update kind x vacant)
      × ((a : ℕ) → (a < x) ⊎ (x + page_size ≤ a) → m'.word a ≡ m.word a)
kfree-Typed m xs kind x w h =
    let page = w.pages x h in
    let out = All-Absent kind x xs (λ e. cc) w.vacants in
    let (m', k, free, low, same) = kfree_pushes m xs x w.free page out in
    (
      m',
      k,
      Typed-page m m' xs (x ∷ xs) kind x vacant w (inr h) page.aligned low (λ e. page) free
          (update_self kind x vacant, All-update kind x vacant xs out w.vacants) same
          (λ t. absurd t),
      same,
    )

-- A held page is filled.
pub fill-Typed :
    (m : Machine) (xs : List ℕ) (kind : ℕ → Kind) (x v : ℕ) (k : Kind)
    → Typed m xs kind
    → kind x ≡ held
    → x % page_size ≡ 0
    → (IsTable k → valid v ≡ false)
    → Typed (record m { word = fill m.word x v }) xs (update kind x k)
fill-Typed m xs kind x v k w h al zero =
    let out = All-Absent kind x xs (λ e. cc) w.vacants in
    Typed-page m (record m { word = fill m.word x v }) xs xs kind x k w (inr h) al refl
      (λ e. w.pages x h)
      (record {
        kernel = (w.free).kernel;
        chain =
            Chain-frame m.word (fill m.word x v) m.kernel_end x m.freelist xs al
              (λ y hy ne. fill_apart m.word x v y al hy ne) out (w.free).chain;
        distinct = (w.free).distinct;
      })
      (All-update kind x k xs out w.vacants) (fill_out m.word x v)
      (λ t i lt.
        subst (λ y. valid y ≡ false)
          (sym (fill_in m.word x v (x + 8 * i) (omega arith) (omega (arith, lt)))) (zero t))
