-- ===== src/Kernel/Memory/Fault/Laws.antt =====
-- Page faults of kernel/memory.c that are resolved.
use mathlib.Core.Path.{subst}
use codex_for_ipad.Prelude.{
  ℕ, ◌+◌, ◌-◌, ◌*◌, ◌<◌, ◌≡◌, refl, sym, ap, ◌∙◌, inl, inr, Bool, true, false, Option, none, some,
  arith, ◌==◌, Bool-cases, Option-cases,
}
use codex_for_ipad.Prelude.Errno.{Errno, Result, ok, err}
use codex_for_ipad.Kernel.Memory.{Flags, PtEntry, Mem, Space, Host, page_size, mem_pages, mem_pt}
use codex_for_ipad.Kernel.Memory.Count.{IsSpace}
use codex_for_ipad.Kernel.Memory.Mapping.{pt_map, pt_map_nothing}
use codex_for_ipad.Kernel.Memory.Mapping.Map.{pt_map-exact, map_nothing-pt_map}
use codex_for_ipad.Kernel.Memory.Fault.{
  Access, is_writing, writable, below_stack, stack_flags, copy_page, finish_copy, copy_on_write,
  write_flags, grown, resolve_write, resolve_entry, mem_resolve_fault,
}

-- Only this page may have changed, and the reference counts are exact.
pub record Touched (extra : ℕ → ℕ) (page : ℕ) (s t : Space) : Type 0 where
  pub others : (j : ℕ) → (j == page) ≡ false → mem_pt t.mem j ≡ mem_pt s.mem j
  pub space : IsSpace extra t

-- The page is mapped, and may be written in place if that is asked for.
abbrev pub IsReady : Access → ℕ → Mem → Type 0
IsReady type page m =
    (entry : PtEntry) × (mem_pt m page ≡ some entry)
    × (is_writing type ≡ true → writable entry.flags ≡ true)

pub Touched-trans :
    (extra : ℕ → ℕ) (page : ℕ) (s t u : Space)
    → Touched extra page s t
    → Touched extra page t u
    → Touched extra page s u
Touched-trans extra page s t u a b = record {
  others = λ j e. b.others j e ∙ a.others j e;
  space = b.space;
}

-- A new block at one page.
pub map_one :
    (h : Host) (extra : ℕ → ℕ) (page : ℕ) (memory : Option ℕ) (flags : Flags) (s t : Space)
    → page < mem_pages
    → IsSpace extra s
    → pt_map h page 1 memory 0 flags s ≡ ok t
    → ((entry : PtEntry) × (mem_pt t.mem page ≡ some entry) × (entry.flags ≡ flags))
      × Touched extra page s t
map_one h extra page memory flags s t lt v e =
    let done = pt_map-exact h extra page 1 memory 0 flags s t (omega arith) v e in
    let here : PtEntry = record { block = s.store.next; offset = 0; flags = flags } in
    (
      (record here { offset = 0 + (page - page) * page_size }, ground (arith, done.0 page), refl),
      record { others = λ j other. ground (arith, done.0 j); space = done.1 },
    )

pub copied-IsSpace :
    (extra : ℕ → ℕ) (copy : ℕ) (entry : PtEntry) (s : Space)
    → IsSpace extra s
    → IsSpace extra (record s { store = copy_page copy entry s.store })
unfolding copy_page
copied-IsSpace extra copy entry s v = record { counted = v.counted; fresh = v.fresh }

-- A page that may be written in place, and what else the fault has changed.
abbrev Writes : (ℕ → ℕ) → ℕ → Space → Space → Type 0
Writes extra page s t =
    ((entry : PtEntry) × (mem_pt t.mem page ≡ some entry) × (writable entry.flags ≡ true))
    × Touched extra page s t

finish_copy-inverse :
    (copy : ℕ) (s t : Space) (r : Result Space) → finish_copy copy s r ≡ (t, none) → r ≡ ok t
unfolding finish_copy
finish_copy-inverse copy s t (ok u) e = ap ok (ap (λ (p : Space × Option Errno). p.0) e)
finish_copy-inverse copy s t (err x) e = absurd (ground (arith, e))

copy_on_write-Writes :
    (h : Host) (mmap : ℕ → Option ℕ) (extra : ℕ → ℕ) (page : ℕ) (flags : Flags) (entry : PtEntry)
    (s t : Space)
    → page < mem_pages
    → IsSpace extra s
    → flags.write ≡ true
    → copy_on_write h mmap page flags entry s ≡ (t, none)
    → Writes extra page s t
unfolding copy_on_write copy_page
copy_on_write-Writes h mmap extra page flags entry s t lt v w e =
    elim (Option-cases (mmap s.store.next)) [
      | inl failed ↦ absurd (ground (arith, e))
      | inr (copy, given) ↦
          let s' : Space = record s { store = copy_page copy entry s.store } in
          let run : finish_copy copy s'
                (pt_map h page 1 (some copy) 0 (record flags { cow = false }) s')
              ≡ (t, none) =
            rw (given, copy_on_write) at e in
          let done =
            map_one h extra page (some copy) (record flags { cow = false }) s' t lt
              (copied-IsSpace extra copy entry s v) (finish_copy-inverse copy s' t _ run) in
          (
            (done.0.0, done.0.1, ground (arith, done.0.2, w)),
            record { others = λ j o. done.1.others j o; space = done.1.space },
          )
    ]

resolve_write-Writes :
    (h : Host) (mmap : ℕ → Option ℕ) (extra : ℕ → ℕ) (page : ℕ) (ptrace_copy : Bool)
    (entry : PtEntry) (s t : Space)
    → page < mem_pages
    → IsSpace extra s
    → mem_pt s.mem page ≡ some entry
    → resolve_write h mmap page ptrace_copy entry s ≡ (t, none)
    → Writes extra page s t
unfolding resolve_write
resolve_write-Writes h mmap extra page ptrace_copy entry s t lt v m e =
    let flags = write_flags ptrace_copy entry.flags in
    elim (Bool-cases flags.write) [
      | inr refused ↦ absurd (ground (arith, e))
      | inl writes ↦ elim (Bool-cases flags.cow) [
        | inl copies ↦
            copy_on_write-Writes h mmap extra page flags entry s t lt v writes
              (sym (rw (writes, copies) refl) ∙ e)
        | inr in_place ↦
            let same : s ≡ t = ground (arith, e) in
            subst (Writes extra page s) same
              ((entry, m, ground arith), record { others = λ j o. refl; space = v })
      ]
    ]

-- Behind a fault that was resolved the page is ready.
abbrev pub Resolved : Access → (ℕ → ℕ) → ℕ → Space → Space → Type 0
Resolved type extra page s t = IsReady type page t.mem × Touched extra page s t

resolve_entry-Resolved :
    (h : Host) (mmap : ℕ → Option ℕ) (extra : ℕ → ℕ) (page : ℕ) (type : Access) (ptrace_copy : Bool)
    (entry : PtEntry) (s t : Space)
    → page < mem_pages
    → IsSpace extra s
    → mem_pt s.mem page ≡ some entry
    → resolve_entry h mmap page type ptrace_copy entry s ≡ (t, none)
    → Resolved type extra page s t
unfolding resolve_entry
resolve_entry-Resolved h mmap extra page type ptrace_copy entry s t lt v m e =
    elim (Bool-cases (is_writing type)) [
      | inl writes ↦
          let done =
            resolve_write-Writes h mmap extra page ptrace_copy entry s t lt v m
              (ground (arith, e)) in
          ((done.0.0, done.0.1, λ w. done.0.2), done.1)
      | inr reads ↦
          let same : s ≡ t = ground (arith, e) in
          subst (Resolved type extra page s) same
            ((entry, m, λ w. absurd (ground arith)), record { others = λ j o. refl; space = v })
    ]

grown-Resolved :
    (h : Host) (mmap : ℕ → Option ℕ) (extra : ℕ → ℕ) (page : ℕ) (type : Access) (ptrace_copy : Bool)
    (s t : Space) (r : Result Space)
    → page < mem_pages
    → IsSpace extra s
    → pt_map_nothing h page 1 (mmap s.store.next) stack_flags s ≡ r
    → grown h mmap page type ptrace_copy s r ≡ (t, none)
    → Resolved type extra page s t
unfolding grown
grown-Resolved h mmap extra page type ptrace_copy s t (err x) lt v m e = absurd (ground (arith, e))
grown-Resolved h mmap extra page type ptrace_copy s t (ok u) lt v m e =
    let ((entry, mapped, flags), touched) =
      map_one h extra page (mmap s.store.next) (record stack_flags { anonymous = true }) s u lt v
        (sym (map_nothing-pt_map h page 1 (mmap s.store.next) stack_flags s (omega arith)) ∙ m) in
    let (ready, touched') =
      resolve_entry-Resolved h mmap extra page type ptrace_copy entry u t lt touched.space mapped
        (sym (rw (mapped, grown) refl) ∙ e) in
    (ready, Touched-trans extra page s u t touched touched')

pub fault-Resolved :
    (h : Host) (mmap : ℕ → Option ℕ) (extra : ℕ → ℕ) (page : ℕ) (type : Access) (ptrace_copy : Bool)
    (s t : Space)
    → page < mem_pages
    → IsSpace extra s
    → mem_resolve_fault h mmap page type ptrace_copy s ≡ (t, none)
    → Resolved type extra page s t
unfolding mem_resolve_fault
fault-Resolved h mmap extra page type ptrace_copy s t lt v e =
    elim (Option-cases (mem_pt s.mem page)) [
      | inr (entry, m) ↦
          resolve_entry-Resolved h mmap extra page type ptrace_copy entry s t lt v m
            (sym (rw (m, mem_resolve_fault) refl) ∙ e)
      | inl free ↦ elim (Bool-cases (below_stack s.mem page)) [
        | inr outside ↦ absurd (ground (arith, e))
        | inl stack ↦
            grown-Resolved h mmap extra page type ptrace_copy s t _ lt v refl
              (sym (rw (free, mem_resolve_fault, stack) refl) ∙ e)
      ]
    ]
