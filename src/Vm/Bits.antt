-- ===== src/Vm/Bits.antt =====
-- What the flags and the page number of an entry built by `|` are.
use eafitos.Base.{ℕ, zero, suc, ◌+◌, ◌*◌, ◌/◌, ◌%◌, ◌^◌, ◌≤◌, ◌<◌, ◌≡◌, refl, ap, ◌∙◌, arith}
use Prim.Native.Nat.{bit_or, bit_or-bitwise, digits, max}
use native.Mathlib.Nat.{pow-suc}

abbrev or_digits : ℕ → ℕ → ℕ → ℕ
or_digits n a b = digits (λ b. b) max n a b

or_digits_fuel : (n m a b : ℕ) → a ≤ n → a ≤ m → or_digits n a b ≡ or_digits m a b
or_digits_fuel zero zero a b p q = refl
or_digits_fuel zero (suc m) zero b p q = refl
or_digits_fuel zero (suc m) (suc a) b p q = absurd (omega arith)
or_digits_fuel (suc n) zero zero b p q = refl
or_digits_fuel (suc n) zero (suc a) b p q = absurd (omega arith)
or_digits_fuel (suc n) (suc m) zero b p q = refl
or_digits_fuel (suc n) (suc m) (suc a) b p q =
    omega (arith, or_digits_fuel n m (suc a / 2) (b / 2) (omega arith) (omega arith))

zero-bit_or : (b : ℕ) → bit_or 0 b ≡ b
zero-bit_or b = bit_or-bitwise 0 b

pub bit_or_step : (a b : ℕ) → bit_or a b ≡ bit_or (a / 2) (b / 2) * 2 + max (a % 2) (b % 2)
bit_or_step zero b = omega (arith, zero-bit_or b, zero-bit_or (b / 2))
bit_or_step (suc a) b = omega (
  arith,
  bit_or-bitwise (suc a) b,
  bit_or-bitwise (suc a / 2) (b / 2),
  or_digits_fuel a (suc a / 2) (suc a / 2) (b / 2) (omega arith) (omega arith),
)

zero_right : (n a : ℕ) → a ≤ n → bit_or a 0 ≡ a
zero_right n zero h = zero-bit_or 0
zero_right zero (suc a) h = absurd (omega arith)
zero_right (suc n) (suc a) h =
    let ih = zero_right n (suc a / 2) (omega arith) in omega (arith, bit_or_step (suc a) 0, ih)

pub bit_or_zero : (a : ℕ) → bit_or a 0 ≡ a
bit_or_zero a = zero_right a a (omega arith)

-- Bits below 2 ^ k beside a multiple of it.
pub bit_or_beside : (k q p : ℕ) → p < 2 ^ k → bit_or (q * 2 ^ k) p ≡ q * 2 ^ k + p
bit_or_beside zero q p h =
    let e : p ≡ 0 = omega arith in rw e (bit_or_zero (q * 2 ^ 0) ∙ omega arith)
bit_or_beside (suc k) q p h =
    let e : q * 2 ^ suc k ≡ 2 * (q * 2 ^ k) = ap (λ x. q * x) (pow-suc 2 k) ∙ omega arith in
    let b : p / 2 < 2 ^ k = omega (arith, pow-suc 2 k) in
    let half : 2 * (q * 2 ^ k) / 2 ≡ q * 2 ^ k = omega arith in
    rw e (
      bit_or_step (2 * (q * 2 ^ k)) p
      ∙ ap (λ x. bit_or x (p / 2) * 2 + max (2 * (q * 2 ^ k) % 2) (p % 2)) half
      ∙ ap (λ x. x * 2 + max (2 * (q * 2 ^ k) % 2) (p % 2)) (bit_or_beside k q (p / 2) b)
      ∙ omega arith)

pub bit_or_one : (a : ℕ) → bit_or a 1 ≡ a / 2 * 2 + 1
bit_or_one a = omega (arith, bit_or_step a 1, bit_or_zero (a / 2))
