-- ===== src/Vm/Demand.antt =====
-- A page that is allocated, filled and mapped on demand, as page faults do.
use eafitos.Base.{
  ℕ, ◌+◌, ◌*◌, ◌%◌, ◌<◌, ◌≤◌, ◌≡◌, ◌≢◌, ◌⊎◌, inl, inr, sym, ap, ◌∙◌, subst, Bool, true, false, List,
  [], ◌∷◌, arith, update, update_self, update_ne, ◌==◌, if◌then◌else◌,
}
use eafitos.Memory.{
  Machine, Result, ok, page_size, K, pure, ◌>>=◌, ◌>>◌, memset_page, kalloc, kfree, fill,
}
use eafitos.Memory.FreeList.{IsPage}
use eafitos.Memory.Pages.{fill_in, fill_out, >>=_ok}
use eafitos.Vm.{valid, max_va, leaf, mappages}
use eafitos.Vm.Tree.{Kind, vacant, held, mapped, top_table, IsTable, Typed}
use eafitos.Vm.Grow.{Keeps, Keeps-page, kalloc-Typed, kfree-Typed, fill-Typed, data_used}
use eafitos.Vm.Mapping.{pte_at}
use eafitos.Vm.Table.{Grown, Grown-refl, top_used}
use eafitos.Vm.Quiet.{quiet_entries, quiet_same}
use eafitos.Vm.Assign.{Assigned}
use eafitos.Vm.MapPage.{held_used, no_memory, done, mappages-MapOutcome}

-- Allocate a page, fill it with the word b, map it at va.
abbrev pub demand : {A : Type 0} → A → (ℕ → A) → ℕ → ℕ → ℕ → ℕ → K A
demand out good b root va perm = kalloc >>= λ mem.
    if mem == 0
    then pure out
    else (memset_page mem b >> mappages root va page_size mem perm >>= λ ready.
        if ready then pure (good mem) else (kfree mem >> pure out))

-- At most one page is free.
abbrev pub Few : List ℕ → Type 0
Few xs = (xs ≡ []) ⊎ ((x : ℕ) × (xs ≡ x ∷ []))

-- Memory is short and nothing has changed but for tables, or a vacant page full of b is mapped at
-- va, and nothing else has changed.
pub data Demanded {A : Type 0} (m : Machine) (kind : ℕ → Kind) (root va b perm : ℕ) (out : A)
    (good : ℕ → A) (r : Result (A × Machine)) : Type 0 where
  short :
      (m' : Machine) (xs' : List ℕ) (kind' : ℕ → Kind)
      → r ≡ ok (out, m')
      → Typed m' xs' kind'
      → Few xs'
      → Grown m m' kind kind'
      → Demanded m kind root va b perm out good r
  given :
      (x : ℕ) (m' : Machine) (xs' : List ℕ) (kind' : ℕ → Kind)
      → r ≡ ok (good x, m')
      → Typed m' xs' kind'
      → Assigned m m' kind root va (leaf x perm)
      → ((a : ℕ) → x ≤ a → a < x + page_size → m'.word a ≡ b)
      → Keeps m m' kind kind'
      → kind x ≡ vacant
      → kind' x ≡ mapped
      → x ≢ 0
      → Demanded m kind root va b perm out good r

module _ {A : Type 0} (out : A) (good : ℕ → A) (m : Machine) (xs : List ℕ) (kind : ℕ → Kind)
    (root va b perm : ℕ) (w : Typed m xs kind) (top : kind root ≡ top_table) (lt : va < max_va)
    (page : va % page_size ≡ 0) (small : perm < 1024)
    (unmapped : valid (pte_at m.word root va) ≡ false) where
  -- The page x has been allocated.
  module _ (x : ℕ) (rest : List ℕ) (m1 : Machine) (e : kalloc m ≡ ok (x, m1))
      (w1 : Typed m1 rest (update kind x held)) (ok_page : IsPage m.kernel_end x)
      (vac : kind x ≡ vacant) (nz : x ≢ 0)
      (frame1 : (a : ℕ) → (a < x) ⊎ (x + page_size ≤ a) → m1.word a ≡ m.word a) where
    abbrev kind2 : ℕ → Kind
    kind2 = update (update kind x held) x held

    abbrev m2 : Machine
    m2 = record m1 { word = fill m1.word x b }

    al : x % page_size ≡ 0
    al = ok_page.aligned

    hold2 : kind2 x ≡ held
    hold2 = update_self (update kind x held) x held

    w2 : Typed m2 rest kind2
    w2 =
        fill-Typed m1 rest (update kind x held) x b held w1 (update_self kind x held) al
          (λ h. absurd h)

    ne_of_used : (u : ℕ) → kind u ≢ vacant → u ≢ x
    ne_of_used u h z = h (ap kind z ∙ vac)

    kinds2 : (u : ℕ) → u ≢ x → kind2 u ≡ kind u
    kinds2 u d = update_ne (update kind x held) x held u d ∙ update_ne kind x held u d

    frame2 : (a : ℕ) → (a < x) ⊎ (x + page_size ≤ a) → m2.word a ≡ m.word a
    frame2 a far = fill_out m1.word x b a far ∙ frame1 a far

    no_table : IsTable (kind x) → ⊥
    no_table h = subst IsTable vac h

    top2 : (r : ℕ) → kind r ≡ top_table → kind2 r ≡ top_table
    top2 r h = kinds2 r (ne_of_used r (top_used (kind r) h)) ∙ h

    same2 : (r a : ℕ) → kind r ≡ top_table → pte_at m2.word r a ≡ pte_at m.word r a
    same2 = quiet_same m m2 xs kind x w al no_table frame2

    keeps2 : Keeps m m2 kind kind2
    keeps2 = Keeps-page m m2 kind kind2 x vac al kinds2 frame2

    z : (x == 0) ≡ false
    z = ground (arith, nz)

    runs :
        (ready : Bool) (m3 : Machine)
        → mappages root va page_size x perm m2 ≡ ok (ready, m3)
        → demand out good b root va perm m
          ≡ (if ready then pure (good x) else (kfree x >> pure out)) m3
    runs ready m3 f =
        >>=_ok kalloc _ m m1 x e ∙ rw z (>>=_ok (mappages root va page_size x perm) _ m2 m3 ready f)

    given_back :
        (m3 m4 : Machine) (kind3 : ℕ → Kind) (rest4 : List ℕ)
        → rest4 ≡ []
        → mappages root va page_size x perm m2 ≡ ok (false, m3)
        → Typed m3 rest4 kind3
        → Grown m2 m3 kind2 kind3
        → kfree x m3 ≡ ok (tt, m4)
        → Typed m4 (x ∷ rest4) (update kind3 x vacant)
        → ((a : ℕ) → (a < x) ⊎ (x + page_size ≤ a) → m4.word a ≡ m3.word a)
        → Demanded m kind root va b perm out good (demand out good b root va perm m)
    given_back m3 m4 kind3 rest4 none f w3 g k w4 frame4 =
        short m4 (x ∷ rest4) (update kind3 x vacant)
          (runs false m3 f ∙ >>=_ok (kfree x) _ m3 m4 tt k) w4 (inr (x, ap (λ ys. x ∷ ys) none))
          (record {
            keeps = record {
              kinds = λ u h.
                  update_ne kind3 x vacant u (ne_of_used u h)
                  ∙ (g.keeps).kinds u (λ v. h (sym (keeps2.kinds u h) ∙ v))
                  ∙ keeps2.kinds u h;
              contents = λ u a h hu p q.
                  let used = data_used (kind u) h in
                  let d = ne_of_used u used in
                  frame4 a (omega (arith, d, hu, al, p, q))
                  ∙ (g.keeps).contents u a
                      (subst (λ y. (y ≡ held) ⊎ (y ≡ mapped)) (sym (keeps2.kinds u used)) h) hu p q
                  ∙ keeps2.contents u a h hu p q;
            };
            valids = λ u j h lj v.
                let e2 = quiet_entries m m2 xs kind x w al no_table frame2 u j h lj in
                let d : u ≢ x = λ y. no_table (subst (λ i. IsTable (kind i)) y h) in
                frame4 (u + 8 * j) (omega (arith, d, lj, al, w.aligned u h))
                ∙ g.valids u j (subst IsTable (sym (kinds2 u d)) h) lj (ap valid e2 ∙ v)
                ∙ e2;
            same = λ r a h.
                quiet_same m3 m4 rest4 kind3 x w3 al (λ t. subst IsTable hold3 t) frame4 r a
                  ((g.keeps).kinds r (top_used (kind2 r) (top2 r h)) ∙ top2 r h)
                ∙ g.same r a (top2 r h)
                ∙ same2 r a h;
          })
      where
        hold3 : kind3 x ≡ held
        hold3 = (g.keeps).kinds x (held_used (kind2 x) hold2) ∙ hold2

    allocated : Demanded m kind root va b perm out good (demand out good b root va perm m)
    allocated =
        elim (mappages-MapOutcome m2 kind2 root va x perm (top2 root top) lt hold2 al small
          (ap valid (same2 root va top) ∙ unmapped) rest w2 page) [
            | no_memory m3 rest3 kind3 f w3 none g ↦
                let (m4, k, w4, frame4) =
                  kfree-Typed m3 rest3 kind3 x w3
                    ((g.keeps).kinds x (held_used (kind2 x) hold2) ∙ hold2) in
                given_back m3 m4 kind3 rest3 none f w3 g k w4 frame4
            | done m3 rest3 kind3 f w3 a q ↦
                given x m3 rest3 kind3 (runs true m3 f) w3
                  (record {
                    here = a.here;
                    elsewhere = λ r c h lc apart. a.elsewhere r c (top2 r h) lc apart ∙ same2 r c h;
                  })
                  (λ c p s. q.contents x c (inl hold2) al p s ∙ fill_in m1.word x b c p s)
                  (record {
                    kinds = λ u h.
                        let d = ne_of_used u h in
                        q.others u d (λ v. h (sym (kinds2 u d) ∙ v)) ∙ kinds2 u d;
                    contents = λ u c h hu p s.
                        let used = data_used (kind u) h in
                        q.contents u c
                          (subst (λ y. (y ≡ held) ⊎ (y ≡ mapped)) (sym (keeps2.kinds u used)) h) hu
                          p s
                        ∙ keeps2.contents u c h hu p s;
                  })
                  vac q.now nz
          ]

  pub demand-Demanded : Demanded m kind root va b perm out good (demand out good b root va perm m)
  demand-Demanded = elim (kalloc-Typed m xs kind w) [
    | inl (none, e) ↦ short m xs kind (>>=_ok kalloc _ m m 0 e) w (inl none) (Grown-refl m kind)
    | inr (x, rest, m1, e, w1, ok_page, vac, nz, frame1) ↦
        allocated x rest m1 e w1 ok_page vac nz frame1
  ]
