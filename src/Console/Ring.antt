-- ===== src/Console/Ring.antt =====
-- The bytes between two indices of the ring.
use eafitos.Base.{
  ℕ, zero, suc, ◌+◌, ◌%◌, ◌^◌, ◌≤◌, ◌<◌, ◌≡◌, refl, ap, ◌∙◌, List, [], ◌∷◌, ◌++◌, arith, update,
  update_ne, length,
}
use eafitos.Console.{input_buf_size, u32}

-- The k bytes from index r on.
abbrev pub window : (ℕ → ℕ) → ℕ → ℕ → List ℕ
window d r zero = []
window d r (suc k) = d (r % input_buf_size) ∷ window d (u32 (r + 1)) k

pub length-window : (d : ℕ → ℕ) (r k : ℕ) → length (window d r k) ≡ k
length-window d r zero = refl
length-window d r (suc k) = ap suc (length-window d (u32 (r + 1)) k)

-- The last byte of a window.
pub window-suc :
    (d : ℕ → ℕ) (r k w : ℕ)
    → r < 2 ^ 32
    → w ≡ u32 (r + k)
    → window d r (suc k) ≡ window d r k ++ d (w % input_buf_size) ∷ []
window-suc d r zero w h e = let q : w ≡ r = omega (arith, h, e) in rw q refl
window-suc d r (suc k) w h e =
    ap (λ l. d (r % input_buf_size) ∷ l)
      (window-suc d (u32 (r + 1)) k w (omega arith) (omega (arith, h, e)))

-- Two windows one after the other.
pub window-add :
    (d : ℕ → ℕ) (r j k w : ℕ)
    → r < 2 ^ 32
    → w ≡ u32 (r + j)
    → window d r j ++ window d w k ≡ window d r (j + k)
window-add d r zero k w h e =
    let q : w ≡ r = omega (arith, h, e) in
    let n : k ≡ 0 + k = omega arith in ap (λ x. window d x k) q ∙ ap (window d r) n
window-add d r (suc j) k w h e =
    let n : suc (j + k) ≡ suc j + k = omega arith in
    ap (λ l. d (r % input_buf_size) ∷ l)
      (window-add d (u32 (r + 1)) j k w (omega arith) (omega (arith, h, e)))
    ∙ ap (window d r) n

-- A store past the end of a window of fewer than 128 bytes does not change it.
pub window-frame :
    (d : ℕ → ℕ) (c r k n w : ℕ)
    → k ≤ n
    → n < input_buf_size
    → r < 2 ^ 32
    → w ≡ u32 (r + n)
    → window (update d (w % input_buf_size) c) r k ≡ window d r k
window-frame d c r zero n w hk hn hr e = refl
window-frame d c r (suc k) zero w hk hn hr e = absurd (omega arith)
window-frame d c r (suc k) (suc n) w hk hn hr e = λ i.
    update_ne d (w % input_buf_size) c (r % input_buf_size) (omega (arith, e)) i
    ∷ window-frame d c (u32 (r + 1)) k n w (omega arith) (omega arith) (omega arith)
        (omega (arith, e)) i
