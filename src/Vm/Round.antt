-- ===== src/Vm/Round.antt =====
-- A round of `walk` with `alloc` on typed memory: it finds a table, adds one, or memory is out.
use eafitos.Base.{
  ℕ, ◌+◌, ◌*◌, ◌/◌, ◌%◌, ◌<◌, ◌≤◌, ◌≡◌, ◌≢◌, ◌⊎◌, inl, inr, refl, sym, ap, ◌∙◌, subst, true, false,
  Option, none, some, List, [], arith, update, update_self, update_ne, ◌==◌, Bool-cases,
}
use Prim.Native.Nat.{bit_or}
use eafitos.Memory.{Machine, Result, ok, page_size, kalloc, fill}
use eafitos.Memory.FreeList.{IsPage}
use eafitos.Memory.Pages.{fill_in, fill_out, >>=_ok}
use eafitos.Vm.{valid, pte2pa, pa2pte, pte_v, new_table, next_table}
use eafitos.Vm.Bits.{bit_or_one}
use eafitos.Vm.Tree.{Kind, vacant, held, IsTable, child, Typed, Typed-store}
use eafitos.Vm.Grow.{Keeps-trans, Keeps-page, Keeps-store, kalloc-Typed, fill-Typed}
use eafitos.Vm.Walk.{next_here, next_new}
use eafitos.Vm.Table.{Grown, Grown-refl, table_same, valid_same}

-- The entry of a table refers to it.
abbrev pointer : ℕ → ℕ
pointer page = bit_or (pa2pte page) pte_v

pointer_decodes :
    (x : ℕ) → x % page_size ≡ 0 → (valid (pointer x) ≡ true) × (pte2pa (pointer x) ≡ x)
pointer_decodes x al =
    let e = bit_or_one (pa2pte x) in
    let d : pointer x / 1 % 2 ≡ 1 = omega (arith, e) in (ap (λ y. y == 1) d, omega (arith, e, al))

-- What a round of `walk` at the entry i of table t leaves, where it returns o.
pub data Step (m' : Machine) (xs' : List ℕ) (kind' : ℕ → Kind) (slot : ℕ) (k : Kind)
    : Option ℕ → Type 0 where
  stuck : xs' ≡ [] → Step m' xs' kind' slot k none
  next :
      (c : ℕ)
      → valid (m'.word slot) ≡ true
      → pte2pa (m'.word slot) ≡ c
      → kind' c ≡ k
      → Step m' xs' kind' slot k (some c)

pub record Outcome (m : Machine) (kind : ℕ → Kind) (slot : ℕ) (k : Kind)
    (r : Result (Option ℕ × Machine)) : Type 0 where
  pub o : Option ℕ
  pub m' : Machine
  pub xs' : List ℕ
  pub kind' : ℕ → Kind
  pub result : r ≡ ok (o, m')
  pub typed : Typed m' xs' kind'
  pub grown : Grown m m' kind kind'
  pub step : Step m' xs' kind' slot k o

module _ (m : Machine) (xs : List ℕ) (kind : ℕ → Kind) (t i : ℕ) (w : Typed m xs kind)
    (ht : IsTable (kind t)) (lt : i < 512) (upper : IsTable (child (kind t) (t + 8 * i))) where
  abbrev slot : ℕ
  slot = t + 8 * i

  made :
      (x : ℕ) (rest : List ℕ) (m1 : Machine)
      → valid (m.word (t + 8 * i)) ≡ false
      → kalloc m ≡ ok (x, m1)
      → Typed m1 rest (update kind x held)
      → IsPage m.kernel_end x
      → kind x ≡ vacant
      → x ≢ 0
      → ((a : ℕ) → (a < x) ⊎ (x + page_size ≤ a) → m1.word a ≡ m.word a)
      → Outcome m kind (t + 8 * i) (child (kind t) (t + 8 * i)) (new_table (t + 8 * i) m)
  unfolding new_table
  made x rest m1 missing e w1 page vac nz same = record {
    o = some x;
    m' = m3;
    xs' = rest;
    kind' = kind2;
    result = >>=_ok kalloc _ m m1 x e ∙ rw z refl;
    typed = Typed-store m2 rest kind2 t i (pointer x) w2 h2 lt (λ v.
        ap kind2 pd.1 ∙ update_self (update kind x held) x k ∙ ap (λ y. child y slot) (sym kt));
    grown = record {
      keeps =
          Keeps-trans m m2 m3 kind kind2 kind2 (Keeps-page m m2 kind kind2 x vac al others frame)
            (Keeps-store m2 kind2 t i (pointer x) h2 (w.aligned t ht) lt);
      valids =
          valid_same m m3 xs kind t i x w ht lt upper missing (ap valid written ∙ pd.0)
            (ap pte2pa written ∙ pd.1) empty vac al apart;
      same =
          table_same m m3 xs kind t i x w ht lt upper missing (ap valid written ∙ pd.0)
            (ap pte2pa written ∙ pd.1) empty vac al apart;
    };
    step =
        next x (ap valid written ∙ pd.0) (ap pte2pa written ∙ pd.1)
          (update_self (update kind x held) x k);
  }
    where
      k : Kind
      k = child (kind t) slot

      al : x % page_size ≡ 0
      al = page.aligned

      z : (x == 0) ≡ false
      z = ground (arith, nz)

      pd : (valid (pointer x) ≡ true) × (pte2pa (pointer x) ≡ x)
      pd = pointer_decodes x al

      kind2 : ℕ → Kind
      kind2 = update (update kind x held) x k

      m2 : Machine
      m2 = record m1 { word = fill m1.word x 0 }

      m3 : Machine
      m3 = record m2 { word = update m2.word slot (pointer x) }

      w2 : Typed m2 rest kind2
      w2 = fill-Typed m1 rest (update kind x held) x 0 k w1 (update_self kind x held) al (λ h. refl)

      ne : t ≢ x
      ne e = subst IsTable (ap kind e ∙ vac) ht

      others : (u : ℕ) → u ≢ x → kind2 u ≡ kind u
      others u d = update_ne (update kind x held) x k u d ∙ update_ne kind x held u d

      kt : kind2 t ≡ kind t
      kt = others t ne

      h2 : IsTable (kind2 t)
      h2 = subst IsTable (sym kt) ht

      frame : (a : ℕ) → (a < x) ⊎ (x + page_size ≤ a) → m2.word a ≡ m.word a
      frame a out = fill_out m1.word x 0 a out ∙ same a out

      apart : (a : ℕ) → a ≢ slot → (a < x) ⊎ (x + page_size ≤ a) → m3.word a ≡ m.word a
      apart a d out = update_ne m2.word slot (pointer x) a d ∙ frame a out

      written : m3.word slot ≡ pointer x
      written = update_self m2.word slot (pointer x)

      empty : (j : ℕ) → j < 512 → m3.word (x + 8 * j) ≡ 0
      empty j lj =
          update_ne m2.word slot (pointer x) (x + 8 * j)
            (omega (arith, ne, al, lt, lj, w.aligned t ht))
          ∙ fill_in m1.word x 0 (x + 8 * j) (omega arith) (omega arith)

  out_of_memory : kalloc m ≡ ok (0, m) → new_table (t + 8 * i) m ≡ ok (none, m)
  unfolding new_table
  out_of_memory e = >>=_ok kalloc _ m m 0 e

  -- A round of `walk` above the leaves.
  pub round :
      Outcome m kind (t + 8 * i) (child (kind t) (t + 8 * i)) (next_table (t + 8 * i) true m)
  round = elim (Bool-cases (valid (m.word (t + 8 * i)))) [
    | inl h ↦ record {
      o = some (pte2pa (m.word slot));
      m' = m;
      xs' = xs;
      kind' = kind;
      result = next_here slot m true h;
      typed = w;
      grown = Grown-refl m kind;
      step = next (pte2pa (m.word slot)) h refl (w.entries t i ht lt h);
    }
    | inr f ↦
        subst (Outcome m kind slot (child (kind t) slot)) (sym (next_new slot m f))
          (elim (kalloc-Typed m xs kind w) [
            | inl (z, e) ↦ record {
              o = none;
              m' = m;
              xs' = xs;
              kind' = kind;
              result = out_of_memory e;
              typed = w;
              grown = Grown-refl m kind;
              step = stuck z;
            }
            | inr (x, rest, m1, e, w1, page, vac, nz, same) ↦ made x rest m1 f e w1 page vac nz same
          ])
  ]
