-- ===== src/Base/Store.antt =====
-- Arrays and memories as functions of an index, with a write at one index.
use Prim.Native.Nat.{ℕ}
use mathlib.Core.Path.{◌≡◌, sym, subst}
use mathlib.Core.Logic.{◌≢◌, ◌⊎◌, inl, inr}
use native.Mathlib.Omega.{arith}
use native.Mathlib.Decide.{ℕ_discrete}
use eafitos.Base.Tests.{◌==◌, if◌then◌else◌}

module _ {ℓ} {A : Type ℓ} where
  unfoldable pub update : (ℕ → A) → ℕ → A → ℕ → A
  update f i v j = if j == i then v else f j

  pub update_self : (f : ℕ → A) (i : ℕ) (v : A) → update f i v i ≡ v
  unfolding update
  update_self f i v = ground arith

  pub update_ne : (f : ℕ → A) (i : ℕ) (v : A) (j : ℕ) → j ≢ i → update f i v j ≡ f j
  unfolding update
  update_ne f i v j h = ground arith

  pub update_cases :
      (f : ℕ → A) (i : ℕ) (v : A) (j : ℕ)
      → ((j ≡ i) × (update f i v j ≡ v)) ⊎ ((j ≢ i) × (update f i v j ≡ f j))
  update_cases f i v j = elim (ℕ_discrete j i) [
    | yes e ↦ inl (e, subst (λ k. update f i v k ≡ v) (sym e) (update_self f i v))
    | no ne ↦ inr (ne, update_ne f i v j ne)
  ]
