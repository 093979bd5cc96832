-- ===== src/Files/References.antt =====
-- The counts against the references that descriptors hold.
use eafitos.Base.{
  ℕ, zero, suc, ◌+◌, ◌-◌, ◌≤◌, ◌<◌, ◌≡◌, ◌≢◌, refl, sym, ap, ◌∙◌, subst, true, false, Option, none,
  some, List, [], ◌∷◌, arith, ltb, ◌==◌, if◌then◌else◌, inl, inr, ◌⊎◌, ℕ_discrete, update,
  update_cases,
}
use eafitos.Files.{
  nfile, FileType, File, Ftable, fd_none, fd_pipe, fd_inode, fd_device, with_ref, alloc_from,
  filealloc, filedup, Release, pipe_close, inode_put, no_release, release, fileclose,
}

-- How many of the references held are to f.
abbrev pub count : ℕ → List ℕ → ℕ
count f [] = 0
count f (g ∷ held) = if g == f then suc (count f held) else count f held

-- One reference to f less.
abbrev pub remove : ℕ → List ℕ → List ℕ
remove f [] = []
remove f (g ∷ held) = if g == f then held else g ∷ remove f held

-- Every count is the number of references held.
abbrev pub Counted : Ftable → List ℕ → Type 0
Counted t held = (f : ℕ) → (t f).ref ≡ count f held

count_self : (f : ℕ) (held : List ℕ) → count f (f ∷ held) ≡ suc (count f held)
count_self f held = let t : (f == f) ≡ true = ground arith in rw t refl

count_other : (f g : ℕ) (held : List ℕ) → f ≢ g → count f (g ∷ held) ≡ count f held
count_other f g held ne = let t : (g == f) ≡ false = ground arith in rw t refl

remove_self :
    (f : ℕ) (held : List ℕ) → 0 < count f held → count f held ≡ suc (count f (remove f held))
remove_self f [] h = absurd (omega (arith, h))
remove_self f (g ∷ held) h = elim (ℕ_discrete g f) [
  | yes e ↦ let t : (g == f) ≡ true = ground (arith, e) in rw t refl
  | no ne ↦
      let t : (g == f) ≡ false = ground (arith, ne) in
      rw t
        (rw t (remove_self f held (subst (λ k. 0 < k) (count_other f g held (λ e. ne (sym e))) h)))
]

remove_other : (f g : ℕ) (held : List ℕ) → f ≢ g → count f (remove g held) ≡ count f held
remove_other f g [] ne = refl
remove_other f g (x ∷ held) ne = elim (ℕ_discrete x g) [
  | yes e ↦
      let t : (x == g) ≡ true = ground (arith, e) in
      let u : (x == f) ≡ false = ground (arith, e, ne) in rw t (rw u refl)
  | no n ↦
      let t : (x == g) ≡ false = ground (arith, n) in
      rw t (ap (λ k. if x == f then suc k else k) (remove_other f g held ne))
]

-- A write at f that accounts for the new references to f.
Counted-update :
    (t : Ftable) (held held' : List ℕ) (f : ℕ) (new : File)
    → Counted t held
    → new.ref ≡ count f held'
    → ((g : ℕ) → g ≢ f → count g held' ≡ count g held)
    → Counted (update t f new) held'
Counted-update t held held' f new c own others g = elim (update_cases t f new g) [
  | inl (e, q) ↦ ap (λ x. x.ref) q ∙ own ∙ ap (λ k. count k held') (sym e)
  | inr (ne, q) ↦ ap (λ x. x.ref) q ∙ c g ∙ sym (others g ne)
]

Counted-add :
    (t : Ftable) (held : List ℕ) (f n : ℕ)
    → Counted t held
    → n ≡ suc (count f held)
    → Counted (with_ref t f n) (f ∷ held)
Counted-add t held f n c e =
    Counted-update t held (f ∷ held) f (record (t f) { ref = n }) c (e ∙ sym (count_self f held))
      (λ g ne. count_other g f held ne)

alloc_from-cases :
    (left f : ℕ) (t : Ftable)
    → ((g : ℕ) × (alloc_from left f t ≡ (some g, with_ref t g 1))
        × (f ≤ g)
        × (g < f + left)
        × ((t g).ref ≡ 0))
      ⊎ ((alloc_from left f t ≡ (none, t)) × ((g : ℕ) → f ≤ g → g < f + left → 0 < (t g).ref))
unfolding alloc_from
alloc_from-cases zero f t = inr (refl, λ g a b. absurd (omega (arith, a, b)))
alloc_from-cases (suc left) f t = elim (ℕ_discrete (t f).ref 0) [
  | yes e ↦
      let b : ((t f).ref == 0) ≡ true = ground (arith, e) in
      inl (f, rw b refl, omega arith, omega arith, e)
  | no ne ↦
      let b : ((t f).ref == 0) ≡ false = ground (arith, ne) in
      elim (alloc_from-cases left (f + 1) t) [
        | inl (g, q, lo, hi, z) ↦ inl (g, rw b q, omega (arith, lo), omega (arith, hi), z)
        | inr (q, all) ↦ inr (
          rw b q,
          λ g lo hi. elim (ℕ_discrete g f) [
            | yes e ↦ subst (λ k. 0 < (t k).ref) (sym e) (omega (arith, ne))
            | no n ↦ all g (omega (arith, lo, n)) (omega (arith, hi))
          ],
        )
      ]
]

-- With counts that are the references held, `filealloc` gives a file that nobody refers to and counts
-- the new reference; it fails, and changes nothing, only if each of the 100 files is referred to.
pub filealloc_fresh :
    (t : Ftable) (held : List ℕ)
    → Counted t held
    → ((f : ℕ) × (t' : Ftable) × (filealloc t ≡ (some f, t'))
        × (f < nfile)
        × (count f held ≡ 0)
        × Counted t' (f ∷ held))
      ⊎ ((filealloc t ≡ (none, t)) × ((f : ℕ) → f < nfile → 0 < count f held))
unfolding filealloc
filealloc_fresh t held c = elim (alloc_from-cases nfile 0 t) [
  | inl (f, q, _, hi, z) ↦
      let n : count f held ≡ 0 = sym (c f) ∙ z in
      inl (f, with_ref t f 1, q, omega (arith, hi), n, Counted-add t held f 1 c (omega (arith, n)))
  | inr (q, all) ↦ inr (q, λ f h. subst (λ k. 0 < k) (c f) (all f (omega arith) (omega (arith, h))))
]

-- With counts that are the references held, `filedup` of a file that is referred to does not panic,
-- and counts the new reference.
pub filedup_counts :
    (t : Ftable) (held : List ℕ) (f : ℕ)
    → Counted t held
    → 0 < count f held
    → (t' : Ftable) × (filedup f t ≡ some t') × Counted t' (f ∷ held)
unfolding filedup
filedup_counts t held f c h =
    let b : ltb (t f).ref 1 ≡ false = ground (arith, c f, h) in
    (
      with_ref t f ((t f).ref + 1),
      rw b refl,
      Counted-add t held f ((t f).ref + 1) c (omega (arith, c f)),
    )

-- What the last reference to a file calls for.
pub data Owes (v : File) : Release → Type 0 where
  pipe_end : v.type ≡ fd_pipe → Owes v (pipe_close v.pipe v.writable)
  inode_held : (v.type ≡ fd_inode) ⊎ (v.type ≡ fd_device) → Owes v (inode_put v.ip)
  nothing_held : v.type ≡ fd_none → Owes v no_release

release-Owes : (v : File) → Owes v (release v)
unfolding release
release-Owes v = elim (type_cases v.type) [
  | inl e ↦ rw e (nothing_held refl)
  | inr (inl e) ↦ rw e (pipe_end refl)
  | inr (inr (inl e)) ↦ rw e (inode_held (inl refl))
  | inr (inr (inr e)) ↦ rw e (inode_held (inr refl))
]
  where
    type_cases :
        (x : FileType) → (x ≡ fd_none) ⊎ ((x ≡ fd_pipe) ⊎ ((x ≡ fd_inode) ⊎ (x ≡ fd_device)))
    type_cases fd_none = inl refl
    type_cases fd_pipe = inr (inl refl)
    type_cases fd_inode = inr (inr (inl refl))
    type_cases fd_device = inr (inr (inr refl))

-- With counts that are the references held, `fileclose` of a file that is referred to does not
-- panic and gives one reference up. The last reference to the file, and no other, closes the end of a
-- pipe or puts the inode of a file or device, as the file's type says.
pub fileclose_counts :
    (t : Ftable) (held : List ℕ) (f : ℕ)
    → Counted t held
    → 0 < count f held
    → (t' : Ftable) × (freed : Option Release) × (fileclose f t ≡ some (t', freed))
      × Counted t' (remove f held)
      × (((count f (remove f held) ≡ 0) × (r : Release) × (freed ≡ some r) × Owes (t f) r)
          ⊎ ((0 < count f (remove f held)) × (freed ≡ none)))
unfolding fileclose
fileclose_counts t held f c h =
    let less = remove_self f held h in
    let b : ltb (t f).ref 1 ≡ false = ground (arith, c f, h) in
    let closed : (new : File)
        → new.ref ≡ count f (remove f held)
        → Counted (update t f new) (remove f held) =
      λ new e. Counted-update t held (remove f held) f new c e (λ g ne. remove_other g f held ne) in
    elim (ℕ_discrete (count f (remove f held)) 0) [
      | yes z ↦
          let l : ltb 0 ((t f).ref - 1) ≡ false = ground (arith, c f, less, z) in
          (
            update t f (record (t f) { type = fd_none; ref = 0 }),
            some (release (t f)),
            rw b (rw l refl),
            closed (record (t f) { type = fd_none; ref = 0 }) (sym z),
            inl (z, release (t f), refl, release-Owes (t f)),
          )
      | no n ↦
          let l : ltb 0 ((t f).ref - 1) ≡ true = ground (arith, c f, less, n) in
          (
            with_ref t f ((t f).ref - 1),
            none,
            rw b (rw l refl),
            closed (record (t f) { ref = (t f).ref - 1 }) (omega (arith, c f, less)),
            inr (omega (arith, n), refl),
          )
    ]
