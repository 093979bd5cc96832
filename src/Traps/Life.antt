-- ===== src/Traps/Life.antt =====
-- A process that grows, asks for a region and faults, in any order.
use eafitos.Base.{ℕ, ◌+◌, ◌%◌, ◌^◌, ◌<◌, ◌≡◌, inl, inr, refl, ap, ◌∙◌, true, List, [], ◌∷◌}
use eafitos.Memory.{Machine, Result, ok, K, pure, ◌>>=◌}
use eafitos.Memory.Pages.{>>=_ok}
use eafitos.Vm.Tree.{Kind, top_table, Typed}
use eafitos.Vm.Table.{top_used}
use eafitos.Traps.{ProcMemory, sys_sbrk, sys_mapzero, sys_trace, sys_resetpfaults}
use eafitos.Traps.Fault.{page_fault}
use eafitos.Traps.Service.{IsBounded, Handled, refused, served, page_fault-Handled}
use eafitos.Traps.Bounds.{with_region, sbrk_grows, mapzero_region}

-- What the process does: a load or store that faults at an address, or a system call.
pub data Event : Type 0 where
  faults : ℕ → Event
  sbrk : (n : ℕ) → n < 2 ^ 31 → Event
  mapzero : (size : ℕ) → size < 2 ^ 32 → Event
  trace : ℕ → Event
  resetpfaults : Event

abbrev pub happen : Event → ProcMemory → K ProcMemory
happen (faults badva) p = page_fault badva p
happen (sbrk n h) p = sys_sbrk n p >>= λ r. pure r.1
happen (mapzero size h) p = sys_mapzero size p >>= λ r. pure r.1
happen (trace mask) p = sys_trace mask p >>= λ r. pure r.1
happen resetpfaults p = sys_resetpfaults p >>= λ r. pure r.1

abbrev pub run_events : List Event → ProcMemory → K ProcMemory
run_events [] p = pure p
run_events (e ∷ es) p = happen e p >>= λ q. run_events es q

-- The command returns, and the invariant holds after it.
pub record Lives (kind : ℕ → Kind) (p : ProcMemory) (r : Result (ProcMemory × Machine))
    : Type 0 where
  pub p' : ProcMemory
  pub m' : Machine
  pub xs' : List ℕ
  pub kind' : ℕ → Kind
  pub returns_ok : r ≡ ok (p', m')
  pub typed : Typed m' xs' kind'
  pub table : p'.pagetable ≡ p.pagetable
  pub top : kind' p'.pagetable ≡ top_table
  pub bounded : IsBounded p'
  -- the page tables of all processes stay
  pub tops : (root : ℕ) → kind root ≡ top_table → kind' root ≡ top_table

module _ (m : Machine) (xs : List ℕ) (kind : ℕ → Kind) (p : ProcMemory) (w : Typed m xs kind)
    (top : kind p.pagetable ≡ top_table) (b : IsBounded p) where
  fault-Lives :
      (badva : ℕ)
      → Handled m kind p badva (page_fault badva p m)
      → Lives kind p (page_fault badva p m)
  fault-Lives badva (refused m' xs' kind' e w' why g) =
      let tops : (root : ℕ) → kind root ≡ top_table → kind' root ≡ top_table =
        λ root h. (g.keeps).kinds root (top_used (kind root) h) ∙ h in
      record {
        p' = record p { killed = true };
        m' = m';
        xs' = xs';
        kind' = kind';
        returns_ok = e;
        typed = w';
        table = refl;
        top = tops p.pagetable top;
        bounded = record { heap = b.heap; region = b.region };
        tops = tops;
      }
  fault-Lives badva (served x m' xs' kind' e w' inside un a full k v n) =
      let tops : (root : ℕ) → kind root ≡ top_table → kind' root ≡ top_table =
        λ root h. k.kinds root (top_used (kind root) h) ∙ h in
      record {
        p' = record p { page_faults = (p.page_faults + 1) % 2 ^ 32 };
        m' = m';
        xs' = xs';
        kind' = kind';
        returns_ok = e;
        typed = w';
        table = refl;
        top = tops p.pagetable top;
        bounded = record { heap = b.heap; region = b.region };
        tops = tops;
      }

  -- A call that leaves memory alone.
  call-Lives :
      (p' : ProcMemory) (r : Result (ProcMemory × Machine))
      → r ≡ ok (p', m)
      → p'.pagetable ≡ p.pagetable
      → IsBounded p'
      → Lives kind p r
  call-Lives p' r e same b' = record {
    p' = p';
    m' = m;
    xs' = xs;
    kind' = kind;
    returns_ok = e;
    typed = w;
    table = same;
    top = ap kind same ∙ top;
    bounded = b';
    tops = λ root h. h;
  }

  happen-Lives : (e : Event) → Lives kind p (happen e p m)
  unfolding sys_trace sys_resetpfaults
  happen-Lives (faults badva) = fault-Lives badva (page_fault-Handled m xs kind p badva w top b)
  happen-Lives (sbrk n h) = elim (sbrk_grows n p m h b) [
    | inl (e, past) ↦ call-Lives p _ (>>=_ok (sys_sbrk n p) _ m m _ e) refl b
    | inr (e, b') ↦ call-Lives _ _ (>>=_ok (sys_sbrk n p) _ m m _ e) refl b'
  ]
  happen-Lives (mapzero size h) = elim (mapzero_region size p m h b) [
    | inl (e, why) ↦ call-Lives p _ (>>=_ok (sys_mapzero size p) _ m m _ e) refl b
    | inr (s, e, b', fresh, whole, low, high) ↦
        call-Lives (with_region p s) _ (>>=_ok (sys_mapzero size p) _ m m _ e) refl b'
  ]
  happen-Lives (trace mask) =
      call-Lives (record p { trace_mask = mask }) _ refl refl
        (record { heap = b.heap; region = b.region })
  happen-Lives resetpfaults =
      call-Lives (record p { page_faults = 0 }) _ refl refl
        (record { heap = b.heap; region = b.region })

-- On memory whose pages and page tables agree, any sequence of page faults, of `sbrk` with a number
-- that is not negative, and of `mapzero`, `trace` and `resetpfaults` by a process runs to its end
-- without a panic; memory agrees again, all page tables are still page tables, and the process's
-- memory and region still end below the trapframe.
pub run_events-Lives :
    (es : List Event) (m : Machine) (xs : List ℕ) (kind : ℕ → Kind) (p : ProcMemory)
    → Typed m xs kind
    → kind p.pagetable ≡ top_table
    → IsBounded p
    → Lives kind p (run_events es p m)
run_events-Lives [] m xs kind p w top b = call-Lives m xs kind p w top b p _ refl refl b
run_events-Lives (e ∷ es) m xs kind p w top b =
    let l = happen-Lives m xs kind p w top b e in
    let r = run_events-Lives es l.m' l.xs' l.kind' l.p' l.typed l.top l.bounded in
    record {
      p' = r.p';
      m' = r.m';
      xs' = r.xs';
      kind' = r.kind';
      returns_ok = >>=_ok (happen e p) _ m l.m' l.p' l.returns_ok ∙ r.returns_ok;
      typed = r.typed;
      table = r.table ∙ l.table;
      top = r.top;
      bounded = r.bounded;
      tops = λ root h. r.tops root (l.tops root h);
    }
