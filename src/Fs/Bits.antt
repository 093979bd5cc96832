-- ===== src/Fs/Bits.antt =====
-- The bits of a byte under `|=` and `&= ~`, by going through all bytes.
use eafitos.Base.{
  ℕ, zero, suc, ◌^◌, ◌<◌, ◌≡◌, refl, sym, subst, Bool, true, false, not, ◌&&◌, ◌==◌, ltb, ltb→lt,
  arith, if◌then◌else◌, ℕ_discrete,
}
use Prim.Native.Nat.{bit_or, bit_and, bit_xor}

-- A test on all numbers below n.
abbrev every : ℕ → (ℕ → Bool) → Bool
every zero p = true
every (suc n) p = p n && every n p

and_left : (a b : Bool) → (a && b) ≡ true → a ≡ true
and_left true b h = refl
and_left false b h = h

and_right : (a b : Bool) → (a && b) ≡ true → b ≡ true
and_right true b h = h
and_right false b h = cc

every_at : (n : ℕ) (p : ℕ → Bool) (i : ℕ) → every n p ≡ true → i < n → p i ≡ true
every_at zero p i h lt = absurd (omega arith)
every_at (suc n) p i h lt = elim (ℕ_discrete i n) [
  | yes e ↦ subst (λ j. p j ≡ true) (sym e) (and_left (p n) (every n p) h)
  | no ne ↦ every_at n p i (and_right (p n) (every n p) h) (omega arith)
]

abbrev pub clear_bit : ℕ → ℕ → Bool
clear_bit x j = bit_and x (2 ^ j) == 0

abbrev same : Bool → Bool → Bool
same true b = b
same false b = not b

same_eq : (a b : Bool) → same a b ≡ true → a ≡ b
same_eq true true h = refl
same_eq true false h = cc
same_eq false true h = cc
same_eq false false h = refl

-- What `|= m` does to the bit j of x, and `&= ~m`.
abbrev or_at : ℕ → ℕ → ℕ → Bool
or_at x i j = same (clear_bit (bit_or x (2 ^ i)) j) (if i == j then false else clear_bit x j)

abbrev and_at : ℕ → ℕ → ℕ → Bool
and_at x i j =
    same (clear_bit (bit_and x (bit_xor 255 (2 ^ i))) j) (if i == j then true else clear_bit x j)

abbrev or_all : ℕ → ℕ → Bool
or_all x i = ltb (bit_or x (2 ^ i)) 256 && every 8 (or_at x i)

abbrev and_all : ℕ → ℕ → Bool
and_all x i = ltb (bit_and x (bit_xor 255 (2 ^ i))) 256 && every 8 (and_at x i)

abbrev or_byte_row : ℕ → Bool
or_byte_row x = every 8 (or_all x)

abbrev and_byte_row : ℕ → Bool
and_byte_row x = every 8 (and_all x)

or_table : every 256 or_byte_row ≡ true
or_table = refl

and_table : every 256 and_byte_row ≡ true
and_table = refl

module _ (x i : ℕ) (hx : x < 256) (hi : i < 8) where
  or_row : or_all x i ≡ true
  or_row = every_at 8 (or_all x) i (every_at 256 or_byte_row x or_table hx) hi

  and_row : and_all x i ≡ true
  and_row = every_at 8 (and_all x) i (every_at 256 and_byte_row x and_table hx) hi

  pub or_byte : bit_or x (2 ^ i) < 256
  or_byte =
      ltb→lt (bit_or x (2 ^ i)) 256
        (and_left (ltb (bit_or x (2 ^ i)) 256) (every 8 (or_at x i)) or_row)

  pub and_byte : bit_and x (bit_xor 255 (2 ^ i)) < 256
  and_byte =
      ltb→lt (bit_and x (bit_xor 255 (2 ^ i))) 256
        (and_left (ltb (bit_and x (bit_xor 255 (2 ^ i))) 256) (every 8 (and_at x i)) and_row)

  pub or_bit :
      (j : ℕ) → j < 8 → clear_bit (bit_or x (2 ^ i)) j ≡ (if i == j then false else clear_bit x j)
  or_bit j hj = same_eq (clear_bit (bit_or x (2 ^ i)) j) (if i == j then false else clear_bit x j) (
      every_at 8 (or_at x i) j (and_right (ltb (bit_or x (2 ^ i)) 256) (every 8 (or_at x i)) or_row)
        hj)

  pub and_bit :
      (j : ℕ)
      → j < 8
      → clear_bit (bit_and x (bit_xor 255 (2 ^ i))) j ≡ (if i == j then true else clear_bit x j)
  and_bit j hj =
      same_eq (clear_bit (bit_and x (bit_xor 255 (2 ^ i))) j)
        (if i == j then true else clear_bit x j)
        (every_at 8 (and_at x i) j
          (and_right (ltb (bit_and x (bit_xor 255 (2 ^ i))) 256) (every 8 (and_at x i)) and_row) hj)
