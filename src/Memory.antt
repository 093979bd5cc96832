-- ===== src/Memory.antt =====
-- kernel/kalloc.c: the free list of physical pages, threaded through the pages themselves.
--
-- Physical memory is the function from an address to the 64-bit word that stands there; words are at
-- multiples of 8. The kernel's functions are commands on the machine, which can panic.
pub mod Pages
pub mod FreeList
pub mod Boot
mod Tests
use eafitos.Base.{
  ℕ, zero, suc, ◌+◌, ◌-◌, ◌*◌, ◌/◌, ◌%◌, ◌^◌, Bool, true, false, ◌&&◌, ◌||◌, not, ltb, leb, ◌==◌,
  if◌then◌else◌, update,
}

pub record Machine : Type 0 where
  pub word : ℕ → ℕ
  pub freelist : ℕ
  -- the linker's `end`
  pub kernel_end : ℕ

pub data Panic : Type 0 where
  kfree_bad_page walk_out_of_range va_not_aligned size_not_aligned size_zero remap not_aligned leaf
        not_from_user :
      Panic

pub data Result {ℓ} (A : Type ℓ) : Type ℓ where
  ok : A → Result A
  panic : Panic → Result A

abbrev pub K : Type 0 → Type 0
K A = Machine → Result (A × Machine)

module _ {A : Type 0} where
  abbrev pub pure : A → K A
  pure a m = ok (a, m)

  abbrev pub stop : Panic → K A
  stop e m = panic e

infixl 5 ◌>>=◌ ◌>>◌
abbrev pub ◌>>=◌ : {A B : Type 0} → K A → (A → K B) → K B
◌>>=◌ c f m = elim (c m) [ ok (a, m') ↦ f a m' | panic e ↦ panic e ]

abbrev pub ◌>>◌ : {A : Type 0} {B : Type 0} → K A → K B → K B
c >> d = c >>= λ _. d

abbrev pub page_size : ℕ
page_size = 4096

abbrev pub phys_top : ℕ
phys_top = 0x80000000 + 128 * 1024 * 1024

-- `memset(pa, c, PGSIZE)`, where v is the word of eight bytes c.
unfoldable pub fill : (ℕ → ℕ) → ℕ → ℕ → ℕ → ℕ
fill w pa v a = if leb pa a && ltb a (pa + page_size) then v else w a

abbrev pub load : ℕ → K ℕ
load a m = ok (m.word a, m)

abbrev pub store : ℕ → ℕ → K (Unit {0})
store a v m = ok (tt, record m { word = update m.word a v })

abbrev pub memset_page : ℕ → ℕ → K (Unit {0})
memset_page pa v m = ok (tt, record m { word = fill m.word pa v })

-- eight bytes 1, and eight bytes 5
abbrev pub junk_free : ℕ
junk_free = 0x0101010101010101

abbrev pub junk_alloc : ℕ
junk_alloc = 0x0505050505050505

-- The panic's condition in `kfree`.
unfoldable pub bad_page : Machine → ℕ → Bool
bad_page m pa = not (pa % page_size == 0) || ltb pa m.kernel_end || leb phys_top pa

unfoldable pub kfree : ℕ → K (Unit {0})
kfree pa m =
    if bad_page m pa
    then panic kfree_bad_page
    else ok (tt, record m { word = update (fill m.word pa junk_free) pa m.freelist; freelist = pa })

-- 0 where no page is left.
unfoldable pub kalloc : K ℕ
kalloc m =
    if m.freelist == 0
    then ok (0, m)
    else ok (
      m.freelist,
      record m { word = fill m.word m.freelist junk_alloc; freelist = m.word m.freelist },
    )

-- The loop of `freerange` over k pages from p on.
unfoldable pub free_pages : ℕ → ℕ → K (Unit {0})
free_pages p zero = pure tt
free_pages p (suc k) = kfree p >> free_pages (p + page_size) k

-- `PGROUNDUP` and `PGROUNDDOWN`, for sums below 2 ^ 64
abbrev pub page_round_up : ℕ → ℕ
page_round_up a = (a + page_size - 1) / page_size * page_size

abbrev pub page_round_down : ℕ → ℕ
page_round_down a = a / page_size * page_size

-- As many rounds as there are pages between the bounds.
unfoldable pub freerange : ℕ → ℕ → K (Unit {0})
freerange from to = let p = page_round_up from in free_pages p ((to - p) / page_size)

unfoldable pub kinit : K (Unit {0})
kinit m = freerange m.kernel_end phys_top m
