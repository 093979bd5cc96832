-- ===== src/Traps/Bounds.antt =====
-- Where the memory of a process ends after the system calls that set its size and its region.
use eafitos.Base.{
  ℕ, ◌+◌, ◌-◌, ◌%◌, ◌^◌, ◌<◌, ◌≤◌, ◌≡◌, ◌⊎◌, inl, inr, refl, true, false, arith, ◌==◌, leb, ltb,
  Bool-cases, ◌||◌,
}
use eafitos.Memory.{Machine, ok, page_size}
use eafitos.Traps.{
  ProcMemory, trapframe_va, minus_one, negative, add_int, mapzero_start, round_up_int, sys_sbrk,
  sys_mapzero,
}
use eafitos.Traps.Service.{IsBounded}

add_positive : (a n : ℕ) → n < 2 ^ 31 → a ≤ trapframe_va → add_int a n ≡ a + n
add_positive a n h k = let z : negative n ≡ false = ground (arith, h) in rw z (omega arith)

sum_of_small :
    (size : ℕ)
    → size ≤ 2 ^ 31 - page_size
    → (add_int mapzero_start (round_up_int size) ≡ mapzero_start + round_up_int size)
      × (round_up_int size % page_size ≡ 0)
      × (size ≤ round_up_int size)
      × (round_up_int size < size + page_size)
sum_of_small size h = (
  add_positive mapzero_start (round_up_int size) (omega (arith, h)) (omega arith),
  omega (arith, h),
  omega (arith, h),
  omega (arith, h),
)

-- The sum with a page wraps to a negative number.
sum_of_large :
    (size : ℕ)
    → 2 ^ 31 - page_size < size
    → (negative size || size == 0) ≡ false
    → add_int mapzero_start (round_up_int size) ≡ 2 ^ 64 - 0x10000000
sum_of_large size h k =
    let top : size < 2 ^ 31 = ground (arith, k) in
    let e : round_up_int size ≡ 2 ^ 31 = omega (arith, h, top) in rw e refl

-- Where the process's memory ends below the trapframe and n is not negative, `sbrk(n)` maps
-- nothing: it returns -1 and changes nothing where the memory would pass the trapframe, and
-- otherwise returns the old size and adds n to it, which leaves it below the trapframe.
pub sbrk_grows :
    (n : ℕ) (p : ProcMemory) (m : Machine)
    → n < 2 ^ 31
    → IsBounded p
    → ((sys_sbrk n p m ≡ ok ((minus_one, p), m)) × (trapframe_va < p.sz + n))
      ⊎ ((sys_sbrk n p m ≡ ok ((p.sz, record p { sz = p.sz + n }), m))
          × IsBounded (record p { sz = p.sz + n }))
unfolding sys_sbrk
sbrk_grows n p m small b =
    let z : negative n ≡ false = ground (arith, small) in
    let s : (p.sz + n) % 2 ^ 64 ≡ p.sz + n = omega (arith, small, b.heap) in
    let y : ltb (p.sz + n) p.sz ≡ false = ground arith in
    elim (Bool-cases (ltb trapframe_va (p.sz + n))) [
      | inl h ↦ inl (rw (z, s, y, h) refl, ground (arith, h))
      | inr h ↦ inr (rw (z, s, y, h) refl, record { heap = ground (arith, h); region = b.region })
    ]

-- The process with the region of s bytes that `mapzero` makes.
abbrev pub with_region : ProcMemory → ℕ → ProcMemory
with_region p s = record p { has_region = true; region_start = mapzero_start; region_size = s }

-- Where the process's memory and region end below the trapframe, `mapzero` returns -1 and changes
-- nothing, or gives a process that has no region one of whole pages at 0x70000000, which holds the
-- size that was asked for, is less than a page longer, and ends below the trapframe; it is refused
-- only to a size that is not positive, to a process that has a region, or where the size's sum with
-- a page is no int.
pub mapzero_region :
    (size : ℕ) (p : ProcMemory) (m : Machine)
    → size < 2 ^ 32
    → IsBounded p
    → ((sys_mapzero size p m ≡ ok ((minus_one, p), m))
        × ((size ≡ 0) ⊎ ((p.has_region ≡ true) ⊎ (2 ^ 31 - page_size < size))))
      ⊎ ((s : ℕ) × (sys_mapzero size p m ≡ ok ((mapzero_start, with_region p s), m))
          × IsBounded (with_region p s)
          × (p.has_region ≡ false)
          × (s % page_size ≡ 0)
          × (size ≤ s)
          × (s < size + page_size))
unfolding sys_mapzero
mapzero_region size p m word b = elim (Bool-cases (negative size || size == 0)) [
  | inl h ↦ inl (rw h refl, ground (arith, h, word))
  | inr h ↦ elim (Bool-cases p.has_region) [
    | inl r ↦ inl (rw (h, r) refl, inr (inl r))
    | inr r ↦ elim (Bool-cases (ltb (2 ^ 31 - page_size) size)) [
      | inl k ↦
          let wrap = sum_of_large size (ground (arith, k)) h in
          let t1 : ltb (add_int mapzero_start (round_up_int size)) mapzero_start ≡ false =
            ground (arith, wrap) in
          let t2 : leb trapframe_va (add_int mapzero_start (round_up_int size)) ≡ true =
            ground (arith, wrap) in
          inl (rw (h, r, t1, t2) refl, inr (inr (ground (arith, k))))
      | inr k ↦
          let up : size ≤ 2 ^ 31 - page_size = ground (arith, k) in
          let (sum, whole, low, high) = sum_of_small size up in
          let t1 : ltb (add_int mapzero_start (round_up_int size)) mapzero_start ≡ false =
            ground (arith, sum) in
          let t2 : leb trapframe_va (add_int mapzero_start (round_up_int size)) ≡ false =
            ground (arith, sum, up, high) in
          inr (
            round_up_int size,
            rw (h, r, t1, t2) refl,
            record { heap = b.heap; region = omega (arith, up, high) },
            r,
            whole,
            low,
            high,
          )
    ]
  ]
]
