-- ===== src/Vm/Entry.antt =====
-- A leaf entry keeps the page and the permissions it is made of.
use eafitos.Base.{ℕ, ◌+◌, ◌*◌, ◌/◌, ◌%◌, ◌^◌, ◌<◌, ◌≡◌, ap, ◌∙◌, true, ◌==◌, arith}
use Prim.Native.Nat.{bit_or}
use eafitos.Memory.{page_size}
use eafitos.Vm.{leaf, valid, flag, pa2pte, pte2pa}
use eafitos.Vm.Bits.{bit_or_beside, bit_or_one}

leaf_value : (pa perm : ℕ) → perm < 1024 → leaf pa perm ≡ (pa / 4096 * 1024 + perm) / 2 * 2 + 1
unfolding leaf
leaf_value pa perm h =
    bit_or_one (bit_or (pa2pte pa) perm)
    ∙ ap (λ a. a / 2 * 2 + 1) (bit_or_beside 10 (pa / 4096) perm h)

flag_ap : (k a b : ℕ) → a / 2 ^ k % 2 ≡ b / 2 ^ k % 2 → flag k a ≡ flag k b
flag_ap k a b e = ap (λ d. d == 1) e

-- The entry that `mappages` writes for an aligned page and permissions below 2 ^ 10 is valid,
-- refers to that page, and has the read, write, execute and user bits of the permissions.
pub leaf_decodes :
    (pa perm : ℕ)
    → pa % page_size ≡ 0
    → perm < 1024
    → (valid (leaf pa perm) ≡ true)
      × (pte2pa (leaf pa perm) ≡ pa)
      × (flag 1 (leaf pa perm) ≡ flag 1 perm)
      × (flag 2 (leaf pa perm) ≡ flag 2 perm)
      × (flag 3 (leaf pa perm) ≡ flag 3 perm)
      × (flag 4 (leaf pa perm) ≡ flag 4 perm)
leaf_decodes pa perm al h =
    let e = leaf_value pa perm h in
    (
      flag_ap 0 (leaf pa perm) 1 (omega (arith, e)),
      omega (arith, e, al),
      flag_ap 1 (leaf pa perm) perm (omega (arith, e)),
      flag_ap 2 (leaf pa perm) perm (omega (arith, e)),
      flag_ap 3 (leaf pa perm) perm (omega (arith, e)),
      flag_ap 4 (leaf pa perm) perm (omega (arith, e)),
    )
