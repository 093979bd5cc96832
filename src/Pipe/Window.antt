-- ===== src/Pipe/Window.antt =====
-- The bytes that a pipe holds, oldest first.
use eafitos.Base.{
  ℕ, zero, suc, ◌+◌, ◌-◌, ◌%◌, ◌^◌, ◌≤◌, ◌<◌, ◌≡◌, refl, ap, List, [], ◌∷◌, ◌++◌, arith, update,
  update_self, update_ne, length, true, false,
}
use eafitos.Pipe.{Pipe, pipe_size, u32, full}

-- The k bytes from counter r on.
abbrev pub window : (ℕ → ℕ) → ℕ → ℕ → List ℕ
window d r zero = []
window d r (suc k) = d (r % pipe_size) ∷ window d (u32 (r + 1)) k

-- How many bytes are in the pipe: `nwrite - nread` on `uint`.
abbrev pub held : Pipe → ℕ
held p = (p.nwrite + 2 ^ 32 - p.nread) % 2 ^ 32

abbrev pub contents : Pipe → List ℕ
contents p = window p.data_at p.nread (held p)

pub record IsValid (p : Pipe) : Type 0 where
  pub read_fits : p.nread < 2 ^ 32
  pub write_fits : p.nwrite < 2 ^ 32
  pub bounded : held p ≤ pipe_size

pub length-window : (d : ℕ → ℕ) (r k : ℕ) → length (window d r k) ≡ k
length-window d r zero = refl
length-window d r (suc k) = ap suc (length-window d (u32 (r + 1)) k)

-- A write past the end of a window of fewer than 512 bytes extends it.
pub window-update :
    (d : ℕ → ℕ) (c r k w : ℕ)
    → k < pipe_size
    → r < 2 ^ 32
    → w ≡ u32 (r + k)
    → window (update d (w % pipe_size) c) r (suc k) ≡ window d r k ++ c ∷ []
window-update d c r zero w hk hr e =
    let q : w ≡ r = omega arith in rw q (ap (λ x. x ∷ []) (update_self d (r % pipe_size) c))
window-update d c r (suc k) w hk hr e = λ i.
    update_ne d (w % pipe_size) c (r % pipe_size) (omega arith) i
    ∷ window-update d c (u32 (r + 1)) k w (omega arith) (omega arith) (omega arith) i

pub full_iff : (p : Pipe) → IsValid p → full p ≡ true → held p ≡ pipe_size
unfolding full
full_iff p v h = ground arith

pub not-full : (p : Pipe) → IsValid p → full p ≡ false → held p < pipe_size
unfolding full
not-full p v h = ground arith
