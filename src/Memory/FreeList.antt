-- ===== src/Memory/FreeList.antt =====
-- The free list as a stack of pages.
use eafitos.Base.{
  ℕ, ◌+◌, ◌%◌, ◌≤◌, ◌<◌, ◌≡◌, ◌≢◌, ◌⊎◌, inl, inr, refl, sym, ◌∙◌, subst, true, false, List, [], ◌∷◌,
  arith, update, update_self, update_ne, ◌==◌,
}
use eafitos.Memory.{
  Machine, ok, page_size, phys_top, fill, junk_free, junk_alloc, bad_page, kfree, kalloc,
}
use eafitos.Memory.Pages.{fill_in, fill_out}

-- A page that the allocator may hold.
pub record IsPage (low x : ℕ) : Type 0 where
  pub aligned : x % page_size ≡ 0
  pub above : low ≤ x
  pub below : x < phys_top

-- The pages are linked from h on, each through its first word.
abbrev pub Chain : (ℕ → ℕ) → ℕ → ℕ → List ℕ → Type 0
Chain w low h [] = h ≡ 0
Chain w low h (x ∷ xs) = (h ≡ x) × IsPage low x × Chain w low (w x) xs

abbrev pub Absent : ℕ → List ℕ → Type 0
Absent a [] = Unit {0}
Absent a (x ∷ xs) = (x ≢ a) × Absent a xs

abbrev pub Distinct : List ℕ → Type 0
Distinct [] = Unit {0}
Distinct (x ∷ xs) = Absent x xs × Distinct xs

-- The free pages, the next to be handed out first.
pub record Free (m : Machine) (xs : List ℕ) : Type 0 where
  pub kernel : 0 < m.kernel_end
  pub chain : Chain m.word m.kernel_end m.freelist xs
  pub distinct : Distinct xs

-- Memory that differs only within the page a keeps a chain that is without a.
pub Chain-frame :
    (w w' : ℕ → ℕ) (low a h : ℕ) (xs : List ℕ)
    → a % page_size ≡ 0
    → ((x : ℕ) → x % page_size ≡ 0 → x ≢ a → w' x ≡ w x)
    → Absent a xs
    → Chain w low h xs
    → Chain w' low h xs
Chain-frame w w' low a h [] ha same out c = c
Chain-frame w w' low a h (x ∷ xs) ha same out c = (
  c.0,
  c.1,
  subst (λ y. Chain w' low y xs) (sym (same x (c.1).aligned out.0))
      (Chain-frame w w' low a (w x) xs ha same out.1 c.2),
)

-- Aligned words other than the first of the page are out of it.
pub fill_apart :
    (w : ℕ → ℕ) (a v x : ℕ) → a % page_size ≡ 0 → x % page_size ≡ 0 → x ≢ a → fill w a v x ≡ w x
fill_apart w a v x ha hx ne = fill_out w a v x (omega arith)

not-bad : (m : Machine) (x : ℕ) → IsPage m.kernel_end x → bad_page m x ≡ false
unfolding bad_page
not-bad m x h = ground arith

-- Where the free list links the distinct pages xs, `kfree` of a page of the allocator's range that
-- is not among them does not panic: it pushes the page, and leaves all memory outside the page
-- alone.
pub kfree_pushes :
    (m : Machine) (xs : List ℕ) (x : ℕ)
    → Free m xs
    → IsPage m.kernel_end x
    → Absent x xs
    → (m' : Machine) × (kfree x m ≡ ok (tt, m'))
      × Free m' (x ∷ xs)
      × (m'.kernel_end ≡ m.kernel_end)
      × ((a : ℕ) → (a < x) ⊎ (x + page_size ≤ a) → m'.word a ≡ m.word a)
unfolding kfree
kfree_pushes m xs x f p out = (
  freed,
  rw (not-bad m x p),
  record { kernel = f.kernel; chain = (refl, p, linked); distinct = (out, f.distinct) },
  refl,
  apart,
)
  where
    word : ℕ → ℕ
    word = update (fill m.word x junk_free) x m.freelist

    freed : Machine
    freed = record m { word = word; freelist = x }

    same : (y : ℕ) → y % page_size ≡ 0 → y ≢ x → word y ≡ m.word y
    same y hy ne =
        update_ne (fill m.word x junk_free) x m.freelist y ne
        ∙ fill_apart m.word x junk_free y p.aligned hy ne

    linked : Chain word m.kernel_end (word x) xs
    linked =
        subst (λ h. Chain word m.kernel_end h xs)
          (sym (update_self (fill m.word x junk_free) x m.freelist))
          (Chain-frame m.word word m.kernel_end x m.freelist xs p.aligned same out f.chain)

    apart : (a : ℕ) → (a < x) ⊎ (x + page_size ≤ a) → word a ≡ m.word a
    apart a h =
        update_ne (fill m.word x junk_free) x m.freelist a (omega arith)
        ∙ fill_out m.word x junk_free a h

-- Where the free list links the distinct pages xs, `kalloc` does not panic. If xs is empty it
-- returns 0 and changes nothing; otherwise it pops the page that was freed last, fills it with
-- junk, and leaves all memory outside the page alone.
pub kalloc_pops :
    (m : Machine) (xs : List ℕ)
    → Free m xs
    → ((xs ≡ []) × (kalloc m ≡ ok (0, m)))
      ⊎ ((x : ℕ) × (rest : List ℕ) × (m' : Machine) × (xs ≡ x ∷ rest)
          × (kalloc m ≡ ok (x, m'))
          × Free m' rest
          × ((a : ℕ) → x ≤ a → a < x + page_size → m'.word a ≡ junk_alloc)
          × ((a : ℕ) → (a < x) ⊎ (x + page_size ≤ a) → m'.word a ≡ m.word a))
unfolding kalloc
kalloc_pops m [] f = let z : (m.freelist == 0) ≡ true = ground (arith, f.chain) in inl (refl, rw z)
kalloc_pops m (x ∷ xs) f = inr (
  x,
  xs,
  popped,
  refl,
  taken,
  record { kernel = f.kernel; chain = linked; distinct = f.distinct.1 },
  fill_in m.word x junk_alloc,
  fill_out m.word x junk_alloc,
)
  where
    popped : Machine
    popped = record m { word = fill m.word x junk_alloc; freelist = m.word x }

    page : IsPage m.kernel_end x
    page = f.chain.1

    taken : kalloc m ≡ ok (x, popped)
    taken =
        let z : (m.freelist == 0) ≡ false = ground (arith, f.chain.0, page.above, f.kernel) in
        rw z (λ i. ok (
          f.chain.0 i,
          record m { word = fill m.word (f.chain.0 i) junk_alloc; freelist = m.word (f.chain.0 i) },
        ))

    linked : Chain (fill m.word x junk_alloc) m.kernel_end (m.word x) xs
    linked =
        Chain-frame m.word (fill m.word x junk_alloc) m.kernel_end x (m.word x) xs page.aligned
          (λ y hy ne. fill_apart m.word x junk_alloc y page.aligned hy ne) f.distinct.0 f.chain.2
