-- ===== src/Procs/Fork.antt =====
-- kfork: the child, and the table afterwards.
use eafitos.Base.{
  ℕ, zero, suc, ◌+◌, ◌^◌, ◌≤◌, ◌<◌, ◌≡◌, ◌≢◌, refl, sym, ap, ◌∙◌, subst, true, false, Option, none,
  some, arith, ◌==◌, Bool-cases, inl, inr, ℕ_discrete, update, update_self, update_ne,
}
use eafitos.Procs.{nproc, nofile, runnable, running, is_unused, Proc, Services, Kernel}
use eafitos.Procs.Ops.{freeproc, allocproc, dup_files, child_of, fork_into, kfork}
use eafitos.Procs.Inv.{is_live, InUse, IsLive, Closed, Blank, Inv}
use eafitos.Procs.Change.{New, Inv-freed, Inv-new, unused-not-live, live-in_use}
use eafitos.Procs.Alloc.{
  Allocated, Fresh, allocproc-cases, freed-Allocated, freed_entry, freed-Blank,
}
use eafitos.Procs.Keep.{IsOk}

-- The child of p, which takes over what p has.
pub record Child (p next : ℕ) (parent c : Proc) : Type 0 where
  pub pid : c.pid ≡ next
  pub adopted : c.parent ≡ some p
  pub state : c.state ≡ runnable
  pub sz : c.sz ≡ parent.sz
  pub ofile : (fd : ℕ) → fd < nofile → c.ofile fd ≡ parent.ofile fd
  pub cwd : c.cwd ≡ parent.cwd
  pub name : c.name ≡ parent.name
  pub region :
      (c.has_region ≡ parent.has_region)
      × (c.region_start ≡ parent.region_start)
      × (c.region_size ≡ parent.region_size)
  pub trace_mask : c.trace_mask ≡ parent.trace_mask
  pub page_faults : c.page_faults ≡ parent.page_faults

pub data Forks {M : Type 0} (p : ℕ) (k : Kernel M) (r : Option ℕ × Kernel M) : Type 0 where
  none_made : r.0 ≡ none → ((j : ℕ) → InUse (k.proc j) → r.1.proc j ≡ k.proc j) → Forks p k r
  made :
      (i : ℕ)
      → i < nproc
      → is_unused (k.proc i).state ≡ true
      → ((j : ℕ) → j < i → is_unused (k.proc j).state ≡ false)
      → r.0 ≡ some k.nextpid
      → Child p k.nextpid (k.proc p) (r.1.proc i)
      → (r.1.proc i).killed ≡ (k.proc i).killed
      → ((j : ℕ) → j ≢ i → r.1.proc j ≡ k.proc j)
      → Forks p k r

Inv-next : (proc : ℕ → Proc) (n init : ℕ) → n + 1 < 2 ^ 31 → Inv proc n init → Inv proc (n + 1) init
Inv-next proc n init h v = record {
  pids = h;
  inside = v.inside;
  blank = v.blank;
  closed = v.closed;
  pid_low = v.pid_low;
  pid_high = λ i u. omega (arith, v.pid_high i u);
  distinct = v.distinct;
  parent_live = v.parent_live;
  has_parent = v.has_parent;
  init_live = v.init_live;
  told = v.told;
}

module _ {M : Type 0} (s : Services M) where
  dup_files-before :
      (left fd i : ℕ) (from to : ℕ → ℕ) (m : M)
      → i < fd
      → (dup_files s left fd from to m).0 i ≡ to i
  unfolding dup_files
  dup_files-before zero fd i from to m h = refl
  dup_files-before (suc left) fd i from to m h = elim (Bool-cases (from fd == 0)) [
    | inl t ↦ rw t (dup_files-before left (fd + 1) i from to m (omega arith))
    | inr t ↦ rw t (
        dup_files-before left (fd + 1) i from (update to fd (from fd)) (s.filedup (from fd) m)
          (omega arith)
        ∙ update_ne to fd (from fd) i (omega arith))
  ]

  -- Files that were not open in the child are those of the parent.
  dup_files-copies :
      (left fd i : ℕ) (from to : ℕ → ℕ) (m : M)
      → fd ≤ i
      → i < fd + left
      → to i ≡ 0
      → (dup_files s left fd from to m).0 i ≡ from i
  unfolding dup_files
  dup_files-copies zero fd i from to m a b z = absurd (omega (arith, a, b))
  dup_files-copies (suc left) fd i from to m a b z = elim (ℕ_discrete i fd) [
    | yes e ↦ elim (Bool-cases (from fd == 0)) [
      | inl t ↦
          let f : from i ≡ 0 = ap from e ∙ ground (arith, t) in
          rw t (dup_files-before left (fd + 1) i from to m (omega (arith, e)) ∙ z ∙ sym f)
      | inr t ↦ rw t (
          dup_files-before left (fd + 1) i from (update to fd (from fd)) (s.filedup (from fd) m)
            (omega (arith, e))
          ∙ ap (update to fd (from fd)) e
          ∙ update_self to fd (from fd)
          ∙ ap from (sym e))
    ]
    | no n ↦ elim (Bool-cases (from fd == 0)) [
      | inl t ↦
          rw t
            (dup_files-copies left (fd + 1) i from to m (omega (arith, a, n)) (omega (arith, b)) z)
      | inr t ↦ rw t (
          dup_files-copies left (fd + 1) i from (update to fd (from fd)) (s.filedup (from fd) m)
            (omega (arith, a, n)) (omega (arith, b)) (update_ne to fd (from fd) i n ∙ z))
    ]
  ]

  module _ (k : Kernel M) (v : IsOk k) (fits : k.nextpid + 1 < 2 ^ 31) (p : ℕ)
      (here : (k.proc p).state ≡ running) where
    -- The table once entry i, which was free, is free again.
    freed_again :
        (k' : Kernel M) (i : ℕ)
        → is_unused (k.proc i).state ≡ true
        → Allocated i k k'
        → is_unused (k'.proc i).state ≡ true
        → Blank (k'.proc i)
        → IsOk k' × Forks p k (none, k')
    freed_again k' i u a free blank = (
      subst (λ n. Inv k'.proc n k'.initproc) (sym (a.next ∙ omega (arith, fits)))
          (subst (Inv k'.proc (k.nextpid + 1)) (sym a.init) (
            Inv-next k'.proc k.nextpid k.initproc fits (
              Inv-freed k.proc k'.proc k.nextpid k.initproc i v (unused-not-live (k.proc i).state u)
                a.others free blank))),
      none_made refl (λ j w. a.others j (λ e. cc (subst (λ x. InUse (k.proc x)) e w, u))),
    )

    -- The call once `allocproc` has given entry i.
    module _ (k1 : Kernel M) (i : ℕ) (slot : i < nproc) (u : is_unused (k.proc i).state ≡ true)
        (before : (j : ℕ) → j < i → is_unused (k.proc j).state ≡ false) (a : Allocated i k k1)
        (f : Fresh k.nextpid (k.proc i) (k1.proc i)) where
      closed : Closed (k1.proc i)
      closed =
          let c = (v.blank i u).closed in
          record { files = λ fd h. ap (λ g. g fd) f.ofile ∙ c.files fd h; cwd = f.cwd ∙ c.cwd }

      not_p : p ≢ i
      not_p e = cc (ap (λ x. is_unused (k.proc x).state) e, ap is_unused here, u)

      IsLive-p : IsLive (k.proc p)
      IsLive-p = ap is_live here

      moved_next :
          (proc' : ℕ → Proc)
          → Inv proc' (k.nextpid + 1) k.initproc
          → Inv proc' k1.nextpid k1.initproc
      moved_next proc' w =
          subst (λ n. Inv proc' n k1.initproc) (sym (a.next ∙ omega (arith, fits)))
            (subst (Inv proc' (k.nextpid + 1)) (sym a.init) w)

      module _ (files : ℕ → ℕ) where
        child : Proc
        child = child_of p (k1.proc p) (k1.proc i) files

        at_i : update k1.proc i child i ≡ child
        at_i = update_self k1.proc i child

        others : (j : ℕ) → j ≢ i → update k1.proc i child j ≡ k.proc j
        others j n = update_ne k1.proc i child j n ∙ a.others j n

        child-New : New k.nextpid k.initproc k.proc child
        unfolding child
        child-New = record {
          pid = f.pid;
          live = refl;
          parent = p;
          child_of = refl;
          parent_live = IsLive-p;
        }

        child-Inv : 0 < k.nextpid → Inv (update k1.proc i child) k1.nextpid k1.initproc
        child-Inv low = moved_next (update k1.proc i child) (
            Inv-new k.proc (update k1.proc i child) k.nextpid k.initproc i v
              (unused-not-live (k.proc i).state u) others
              (subst (New k.nextpid k.initproc k.proc) (sym at_i) child-New) low fits slot)

        child-Child :
            ((fd : ℕ) → fd < nofile → files fd ≡ (k1.proc p).ofile fd)
            → Child p k.nextpid (k.proc p) (update k1.proc i child i)
        unfolding child
        child-Child dup =
            subst (λ x. Child p k.nextpid x (update k1.proc i child i)) (a.others p not_p)
              (subst (Child p k.nextpid (k1.proc p)) (sym at_i) (record {
                pid = f.pid;
                adopted = refl;
                state = refl;
                sz = refl;
                ofile = dup;
                cwd = refl;
                name = refl;
                region = (refl, refl, refl);
                trace_mask = refl;
                page_faults = refl;
              }))

        kept_mark : (update k1.proc i child i).killed ≡ (k.proc i).killed
        unfolding child
        kept_mark = ap (λ x. x.killed) at_i ∙ f.killed

      failed :
          (m : M)
          → IsOk (freeproc s i (record k1 { rest = m }))
            × Forks p k (none, freeproc s i (record k1 { rest = m }))
      failed m =
          let k2 : Kernel M = record k1 { rest = m } in
          let a2 : Allocated i k k2 = record { others = a.others; next = a.next; init = a.init } in
          let e = freed_entry s i k k2 in
          freed_again (freeproc s i k2) i u (freed-Allocated s i k k2 a2)
            (subst (λ x. is_unused x.state ≡ true) (sym e) refl)
            (subst Blank (sym e) (freed-Blank (k1.proc i) closed))

      positive : 0 < k.nextpid
      positive =
          let w = live-in_use (k.proc p).state IsLive-p in
          omega (arith, v.pid_low p w, v.pid_high p w)

      fork_into_lem : IsOk (fork_into s p i k1).1 × Forks p k (fork_into s p i k1)
      unfolding fork_into child
      fork_into_lem =
          let parent = k1.proc p in
          let copied = s.uvmcopy parent.pagetable (k1.proc i).pagetable parent.sz k1.rest in
          let framed = s.copy_trapframe parent.trapframe (k1.proc i).trapframe copied.1 in
          let files = (dup_files s nofile 0 parent.ofile (k1.proc i).ofile framed).0 in
          let dup : (fd : ℕ) → fd < nofile → files fd ≡ parent.ofile fd = λ fd h.
            dup_files-copies nofile 0 fd parent.ofile (k1.proc i).ofile framed (omega arith)
              (omega (arith, h)) (closed.files fd h) in
          elim (Bool-cases copied.0) [
            | inl t ↦ rw t (
              child-Inv files positive,
              made i slot u before (ap some f.pid) (child-Child files dup) (kept_mark files)
                  (others files),
            )
            | inr t ↦ rw t (failed copied.1)
          ]

    pub kfork_makes : IsOk (kfork s p k).1 × Forks p k (kfork s p k)
    unfolding kfork
    kfork_makes = elim (allocproc-cases s k (λ i u. (v.blank i u).closed)) [
      | inl (e, full) ↦
          rw (e, kfork)
            (subst (λ x. IsOk x × Forks p k (none, x))
              (sym (ap (λ (x : Option ℕ × Kernel M). x.1) e)) (v, none_made refl (λ j w. refl)))
      | inr (i, slot, u, before, (a, inl (e, free, blank))) ↦
          rw (e, kfork) (freed_again (allocproc s k).1 i u a free blank)
      | inr (i, slot, u, before, (a, inr (e, f))) ↦
          rw (e, kfork) (fork_into_lem (allocproc s k).1 i slot u before a f)
    ]
