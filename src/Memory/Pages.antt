-- ===== src/Memory/Pages.antt =====
-- Reads of memory after a page is filled.
use eafitos.Base.{ℕ, ◌+◌, ◌≤◌, ◌<◌, ◌≡◌, refl, ◌⊎◌, arith}
use eafitos.Memory.{Machine, K, ok, ◌>>=◌, page_size, fill}

pub fill_in : (w : ℕ → ℕ) (pa v a : ℕ) → pa ≤ a → a < pa + page_size → fill w pa v a ≡ v
unfolding fill
fill_in w pa v a h k = ground arith

pub fill_out : (w : ℕ → ℕ) (pa v a : ℕ) → (a < pa) ⊎ (pa + page_size ≤ a) → fill w pa v a ≡ w a
unfolding fill
fill_out w pa v a h = ground arith

-- A command that returns a hands it on.
pub >>=_ok :
    {A B : Type 0} (c : K A) (f : A → K B) (m m' : Machine) (a : A)
    → c m ≡ ok (a, m')
    → (c >>= f) m ≡ f a m'
>>=_ok c f m m' a e = rw (e, ◌>>=◌) refl
