-- ===== src/Bcache/Life.antt =====
-- The block cache under any sequence of its operations.
use eafitos.Base.{
  ℕ, ◌≡◌, ◌≢◌, inl, inr, refl, sym, subst, true, Option, none, some, arith, ◌==◌, Bool-cases,
  Option-cases, if◌then◌else◌,
}
use eafitos.Bcache.{Bcache, binit, put, one_less, bget, bread, brelse, bpin, bunpin}
use eafitos.Bcache.Order.{In, In-moved}
use eafitos.Bcache.Inv.{
  Got, hit, miss, no_buffers, bget-Got, IsUnique, put-IsUnique, recycle-IsUnique,
}

-- The operations, with a device other than 0. A caller releases a buffer of the list.
pub data Step (s t : Bcache) : Type 0 where
  gets : (dev blockno b : ℕ) → dev ≢ 0 → bget s dev blockno ≡ some (b, t) → Step s t
  reads :
      (disk : ℕ → ℕ → ℕ) (dev blockno b : ℕ)
      → dev ≢ 0
      → bread disk s dev blockno ≡ some (b, t)
      → Step s t
  releases : (b : ℕ) → In b s.order → brelse true s b ≡ some t → Step s t
  pins : (b : ℕ) → t ≡ bpin s b → Step s t
  unpins : (b : ℕ) → t ≡ bunpin s b → Step s t

pub data Reach : Bcache → Type 0 where
  started : Reach binit
  step : (s t : Bcache) → Reach s → Step s t → Reach t

abbrev state_or : Bcache → Option (ℕ × Bcache) → Bcache
state_or d none = d
state_or d (some r) = r.1

abbrev cache_or : Bcache → Option Bcache → Bcache
cache_or d none = d
cache_or d (some t) = t

Got-IsUnique :
    (s : Bcache) (dev blockno : ℕ) (r : Option (ℕ × Bcache))
    → IsUnique s
    → Got s dev blockno r
    → IsUnique (state_or s r)
Got-IsUnique s dev blockno r u (hit b v e w i h) =
    subst (λ x. IsUnique (state_or s x)) (sym e)
      (subst (λ y. IsUnique (put s b y)) (sym w) (put-IsUnique s b _ refl refl u))
Got-IsUnique s dev blockno r u (miss b v e w absent i z k) =
    subst (λ x. IsUnique (state_or s x)) (sym e)
      (subst (λ y. IsUnique (put s b y)) (sym w) (recycle-IsUnique s b dev blockno absent u))
Got-IsUnique s dev blockno r u (no_buffers e absent full) =
    subst (λ x. IsUnique (state_or s x)) (sym e) u

bget-IsUnique :
    (s : Bcache) (dev blockno : ℕ) → IsUnique s → IsUnique (state_or s (bget s dev blockno))
bget-IsUnique s dev blockno u = Got-IsUnique s dev blockno _ u (bget-Got s dev blockno)

-- The buffer's contents are read where they are not valid.
abbrev read_in : (ℕ → ℕ → ℕ) → ℕ × Bcache → Bcache
read_in disk r =
    let v = (r.1).buf r.0 in
    if v.valid then r.1 else put r.1 r.0 (record v { bytes = disk v.blockno; valid = true })

read_in-IsUnique :
    (disk : ℕ → ℕ → ℕ) (b : ℕ) (s : Bcache) → IsUnique s → IsUnique (read_in disk (b, s))
read_in-IsUnique disk b s u = elim (Bool-cases (s.buf b).valid) [
  | inl h ↦ rw h u
  | inr h ↦ rw h (put-IsUnique s b _ refl refl u)
]

read_done :
    (disk : ℕ → ℕ → ℕ) (s : Bcache) (dev blockno : ℕ) (r : ℕ × Bcache)
    → bget s dev blockno ≡ some r
    → bread disk s dev blockno ≡ some (r.0, read_in disk r)
unfolding bread
read_done disk s dev blockno r e = rw (e, bread) refl

read_fails :
    (disk : ℕ → ℕ → ℕ) (s : Bcache) (dev blockno : ℕ)
    → bget s dev blockno ≡ none
    → bread disk s dev blockno ≡ none
unfolding bread
read_fails disk s dev blockno e = rw (e, bread) refl

bread-IsUnique :
    (disk : ℕ → ℕ → ℕ) (s : Bcache) (dev blockno : ℕ)
    → IsUnique s
    → IsUnique (state_or s (bread disk s dev blockno))
bread-IsUnique disk s dev blockno u = elim (Option-cases (bget s dev blockno)) [
  | inl e ↦ subst (λ x. IsUnique (state_or s x)) (sym (read_fails disk s dev blockno e)) u
  | inr (r, e) ↦
      let v = subst (λ x. IsUnique (state_or s x)) e (bget-IsUnique s dev blockno u) in
      subst (λ x. IsUnique (state_or s x)) (sym (read_done disk s dev blockno r e))
        (read_in-IsUnique disk r.0 r.1 v)
]

brelse-IsUnique :
    (s : Bcache) (b : ℕ) → In b s.order → IsUnique s → IsUnique (cache_or s (brelse true s b))
unfolding brelse
brelse-IsUnique s b i u =
    let v = put-IsUnique s b (one_less (s.buf b)) refl refl u in
    elim (Bool-cases (((put s b (one_less (s.buf b))).buf b).refcnt == 0)) [
      | inl h ↦ rw h (λ i' j dev blockno p q nz x y.
          v i' j dev blockno (In-moved i' b s.order i p) (In-moved j b s.order i q) nz x y)
      | inr h ↦ rw h v
    ]

Step-IsUnique : (s t : Bcache) → Step s t → IsUnique s → IsUnique t
unfolding bpin bunpin
Step-IsUnique s t (gets dev blockno b nz e) u =
    subst (λ x. IsUnique (state_or s x)) e (bget-IsUnique s dev blockno u)
Step-IsUnique s t (reads disk dev blockno b nz e) u =
    subst (λ x. IsUnique (state_or s x)) e (bread-IsUnique disk s dev blockno u)
Step-IsUnique s t (releases b i e) u =
    subst (λ x. IsUnique (cache_or s x)) e (brelse-IsUnique s b i u)
Step-IsUnique s t (pins b e) u = subst IsUnique (sym e) (put-IsUnique s b _ refl refl u)
Step-IsUnique s t (unpins b e) u = subst IsUnique (sym e) (put-IsUnique s b _ refl refl u)

binit-IsUnique : IsUnique binit
binit-IsUnique i j dev blockno p q nz h k = absurd (nz (ground (arith, h)))

-- In every state that `bget`, `bread`, `brelse`, `bpin` and `bunpin` lead to from the one that
-- `binit` leaves, where devices are not 0, two buffers of the list that hold the same block of a
-- device are the same buffer.
pub Reach-IsUnique : (s : Bcache) → Reach s → IsUnique s
Reach-IsUnique s started = binit-IsUnique
Reach-IsUnique s (step q t r e) = Step-IsUnique q t e (Reach-IsUnique q r)
