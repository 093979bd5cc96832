-- ===== src/Memory/Boot.antt =====
-- kinit: what the allocator holds when the kernel starts.
use eafitos.Base.{
  ℕ, zero, suc, ◌+◌, ◌-◌, ◌*◌, ◌/◌, ◌%◌, ◌≤◌, ◌<◌, ◌≡◌, refl, ◌∙◌, List, [], ◌∷◌, arith,
}
use eafitos.Memory.{
  Machine, ok, page_size, phys_top, kfree, free_pages, freerange, kinit, page_round_up,
}
use eafitos.Memory.FreeList.{IsPage, Absent, Free, kfree_pushes}
use eafitos.Memory.Pages.{>>=_ok}

-- The k pages from p on, put before the others in the order they are freed.
abbrev pub pages_onto : ℕ → ℕ → List ℕ → List ℕ
pages_onto p zero xs = xs
pages_onto p (suc k) xs = pages_onto (p + page_size) k (p ∷ xs)

abbrev Under : ℕ → List ℕ → Type 0
Under p [] = Unit {0}
Under p (x ∷ xs) = (x < p) × Under p xs

Under-Absent : (p : ℕ) (xs : List ℕ) → Under p xs → Absent p xs
Under-Absent p [] u = tt
Under-Absent p (x ∷ xs) u = (omega (arith, u.0), Under-Absent p xs u.1)

Under-weaken : (p q : ℕ) (xs : List ℕ) → p ≤ q → Under p xs → Under q xs
Under-weaken p q [] h u = tt
Under-weaken p q (x ∷ xs) h u = (omega (arith, u.0), Under-weaken p q xs h u.1)

free_pages-Free :
    (k p : ℕ) (m : Machine) (xs : List ℕ)
    → Free m xs
    → Under p xs
    → p % page_size ≡ 0
    → m.kernel_end ≤ p
    → p + k * page_size ≤ phys_top
    → (m' : Machine) × (free_pages p k m ≡ ok (tt, m')) × Free m' (pages_onto p k xs)
unfolding free_pages
free_pages-Free zero p m xs f u al lo hi = (m, refl, f)
free_pages-Free (suc k) p m xs f u al lo hi =
    let page : IsPage m.kernel_end p = record {
      aligned = al;
      above = lo;
      below = omega (arith, hi);
    } in
    let (m1, e1, f1, low, _) = kfree_pushes m xs p f page (Under-Absent p xs u) in
    let (m2, e2, f2) =
      free_pages-Free k (p + page_size) m1 (p ∷ xs) f1
        (omega arith, Under-weaken p (p + page_size) xs (omega arith) u) (omega (arith, al))
        (omega (arith, low, lo)) (omega (arith, hi)) in
    (m2, >>=_ok (kfree p) (λ _. free_pages (p + page_size) k) m m1 tt e1 ∙ e2, f2)

-- On a machine whose kernel ends within memory and whose free list is empty, `kinit` returns
-- without a panic, and the free list then holds the distinct pages from the end of the kernel,
-- rounded up, to the top of memory and no others, the highest first.
pub kinit-Free :
    (m : Machine)
    → 0 < m.kernel_end
    → m.kernel_end ≤ phys_top
    → m.freelist ≡ 0
    → let p = page_round_up m.kernel_end in
      let k = (phys_top - p) / page_size in
      (m' : Machine) × (kinit m ≡ ok (tt, m'))
      × Free m' (pages_onto p k [])
      × (p + k * page_size ≡ phys_top)
unfolding kinit freerange
kinit-Free m z lo none =
    let p = page_round_up m.kernel_end in
    let k = (phys_top - p) / page_size in
    let f : Free m [] = record { kernel = z; chain = none; distinct = tt } in
    let (m', e, f') =
      free_pages-Free k p m [] f tt (omega arith) (omega arith) (omega (arith, lo)) in
    (m', e, f', omega (arith, lo))
