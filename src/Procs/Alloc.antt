-- ===== src/Procs/Alloc.antt =====
-- allocproc: a free entry is named, or freed again where memory is out.
use eafitos.Base.{
  ℕ, ◌+◌, ◌%◌, ◌^◌, ◌<◌, ◌≡◌, ◌≢◌, refl, sym, ap, ◌∙◌, subst, true, false, Option, none, some,
  arith, ◌==◌, Bool-cases, inl, inr, ◌⊎◌, update_self, update_ne,
}
use eafitos.Procs.{nproc, used, is_unused, Proc, Services, Kernel}
use eafitos.Procs.Ops.{freed, freeproc, named, with_trapframe, with_pagetable, alloc_at, allocproc}
use eafitos.Procs.Loops.{first_from-cases}
use eafitos.Procs.Inv.{Closed, Blank}

-- Only entry i changes, and a pid is used up.
pub record Allocated {M : Type 0} (i : ℕ) (k k' : Kernel M) : Type 0 where
  pub others : (j : ℕ) → j ≢ i → k'.proc j ≡ k.proc j
  pub next : k'.nextpid ≡ (k.nextpid + 1) % 2 ^ 32
  pub init : k'.initproc ≡ k.initproc

-- A free entry as `allocproc` returns it.
pub record Fresh (next : ℕ) (old p : Proc) : Type 0 where
  pub pid : p.pid ≡ next
  pub state : p.state ≡ used
  pub killed : p.killed ≡ old.killed
  pub parent : p.parent ≡ old.parent
  pub ofile : p.ofile ≡ old.ofile
  pub cwd : p.cwd ≡ old.cwd
  pub has_memory : (p.trapframe ≢ 0) × (p.pagetable ≢ 0)

pub freed-Blank : (p : Proc) → Closed p → Blank (freed p)
freed-Blank p c = record {
  pid = refl;
  parent = refl;
  pagetable = refl;
  trapframe = refl;
  closed = record { files = c.files; cwd = c.cwd };
}

module _ {M : Type 0} (s : Services M) (i : ℕ) (k : Kernel M) where
  frame : ℕ × M
  frame = s.kalloc k.rest

  table : ℕ × M
  table = s.proc_pagetable frame.0 frame.1

  k1 : Kernel M
  k1 = with_trapframe i frame.0 frame.1 (named i k)

  k2 : Kernel M
  k2 = with_pagetable i table.0 table.1 k1

  named_entry : Proc
  named_entry = record (k.proc i) {
    pid = k.nextpid;
    state = used;
    trace_mask = 0;
    page_faults = 0;
    has_region = false;
    region_start = 0;
    region_size = 0;
  }

  k1_entry : k1.proc i ≡ record named_entry { trapframe = frame.0 }
  unfolding k1 named_entry
  k1_entry =
      update_self (named i k).proc i (record ((named i k).proc i) { trapframe = frame.0 })
      ∙ ap (λ (x : Proc). record x { trapframe = frame.0 }) (update_self k.proc i named_entry)

  k2_entry : k2.proc i ≡ record named_entry { trapframe = frame.0; pagetable = table.0 }
  unfolding k2
  k2_entry =
      update_self k1.proc i (record (k1.proc i) { pagetable = table.0 })
      ∙ ap (λ (x : Proc). record x { pagetable = table.0 }) k1_entry

  k1-Allocated : Allocated i k k1
  unfolding k1
  k1-Allocated = record {
    others = λ j n.
        update_ne (named i k).proc i (record ((named i k).proc i) { trapframe = frame.0 }) j n
        ∙ update_ne k.proc i _ j n;
    next = refl;
    init = refl;
  }

  k2-Allocated : Allocated i k k2
  unfolding k2
  k2-Allocated = record {
    others = λ j n.
        update_ne k1.proc i (record (k1.proc i) { pagetable = table.0 }) j n
        ∙ k1-Allocated.others j n;
    next = k1-Allocated.next;
    init = k1-Allocated.init;
  }

  pub freed-Allocated : (k' : Kernel M) → Allocated i k k' → Allocated i k (freeproc s i k')
  unfolding freeproc
  freed-Allocated k' a = record {
    others = λ j n. update_ne k'.proc i (freed (k'.proc i)) j n ∙ a.others j n;
    next = a.next;
    init = a.init;
  }

  pub freed_entry : (k' : Kernel M) → (freeproc s i k').proc i ≡ freed (k'.proc i)
  unfolding freeproc
  freed_entry k' = update_self k'.proc i (freed (k'.proc i))

  -- How `allocproc` ends once it has found entry i.
  abbrev pub Ends : Option ℕ × Kernel M → Type 0
  Ends r =
      Allocated i k r.1
      × (((r.0 ≡ none) × (is_unused (r.1.proc i).state ≡ true) × Blank (r.1.proc i))
          ⊎ ((r.0 ≡ some i) × Fresh k.nextpid (k.proc i) (r.1.proc i)))

  given_up : (k' : Kernel M) → Allocated i k k' → Closed (k'.proc i) → Ends (none, freeproc s i k')
  given_up k' a c = (
    freed-Allocated k' a,
    inl (
      refl,
      subst (λ x. is_unused x.state ≡ true) (sym (freed_entry k')) refl,
      subst Blank (sym (freed_entry k')) (freed-Blank (k'.proc i) c),
    ),
  )

  alloc_at-Ends : Closed (k.proc i) → Ends (alloc_at s i k)
  unfolding alloc_at k1 k2 frame table named_entry
  alloc_at-Ends c = elim (Bool-cases (frame.0 == 0)) [
    | inl t ↦ rw t (
        given_up k1 k1-Allocated
          (subst Closed (sym k1_entry) (record { files = c.files; cwd = c.cwd })))
    | inr t ↦ rw t (elim (Bool-cases (table.0 == 0)) [
      | inl u ↦ rw u (
          given_up k2 k2-Allocated
            (subst Closed (sym k2_entry) (record { files = c.files; cwd = c.cwd })))
      | inr u ↦ rw u (
        k2-Allocated,
        inr (
          refl,
          subst (Fresh k.nextpid (k.proc i)) (sym k2_entry) (record {
            pid = refl;
            state = refl;
            killed = refl;
            parent = refl;
            ofile = refl;
            cwd = refl;
            has_memory = (ground (arith, t), ground (arith, u));
          }),
        ),
      )
    ])
  ]

-- `allocproc` finds no free entry, or takes the first one.
pub allocproc-cases :
    {M : Type 0} (s : Services M) (k : Kernel M)
    → ((i : ℕ) → is_unused (k.proc i).state ≡ true → Closed (k.proc i))
    → ((allocproc s k ≡ (none, k)) × ((j : ℕ) → j < nproc → is_unused (k.proc j).state ≡ false))
      ⊎ ((i : ℕ) × (i < nproc)
          × (is_unused (k.proc i).state ≡ true)
          × ((j : ℕ) → j < i → is_unused (k.proc j).state ≡ false)
          × Ends s i k (allocproc s k))
unfolding allocproc
allocproc-cases s k c = elim (first_from-cases (λ p. is_unused p.state) k.proc nproc 0) [
  | inr (e, all) ↦ inl (rw (e, allocproc) refl, λ j h. all j (omega arith) (omega (arith, h)))
  | inl (i, e, lo, hi, u, before) ↦ inr (
    i,
    omega (arith, hi),
    u,
    (λ j h. before j (omega arith) h),
    rw (e, allocproc) (alloc_at-Ends s i k (c i u)),
  )
]
