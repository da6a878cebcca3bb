-- ===== src/Kernel/Memory/Fault/Touched.antt =====
-- What page faults of kernel/memory.c leave alone, resolved or not.
use codex_for_ipad.Prelude.{
  ℕ, ◌<◌, ◌≡◌, refl, sym, ◌∙◌, inl, inr, Bool, true, false, Option, some, arith, Bool-cases,
  Option-cases,
}
use codex_for_ipad.Prelude.Errno.{Result, ok, err}
use codex_for_ipad.Kernel.Memory.{Flags, PtEntry, Space, Host, mem_pages, mem_pt}
use codex_for_ipad.Kernel.Memory.Count.{IsSpace}
use codex_for_ipad.Kernel.Memory.Mapping.{pt_map, pt_map_nothing}
use codex_for_ipad.Kernel.Memory.Mapping.Map.{map_nothing-pt_map}
use codex_for_ipad.Kernel.Memory.Fault.{
  Access, is_writing, below_stack, stack_flags, copy_page, finish_copy, copy_on_write, write_flags,
  grown, resolve_write, resolve_entry, mem_resolve_fault,
}
use codex_for_ipad.Kernel.Memory.Fault.Laws.{Touched, Touched-trans, map_one, copied-IsSpace}

pub Touched-self : (extra : ℕ → ℕ) (page : ℕ) (s : Space) → IsSpace extra s → Touched extra page s s
Touched-self extra page s v = record { others = λ j o. refl; space = v }

copy_on_write-Touched :
    (h : Host) (mmap : ℕ → Option ℕ) (extra : ℕ → ℕ) (page : ℕ) (flags : Flags) (entry : PtEntry)
    (s : Space)
    → page < mem_pages
    → IsSpace extra s
    → Touched extra page s (copy_on_write h mmap page flags entry s).0
unfolding copy_on_write copy_page finish_copy
copy_on_write-Touched h mmap extra page flags entry s lt v =
    elim (Option-cases (mmap s.store.next)) [
      | inl failed ↦ rw (failed, copy_on_write) (Touched-self extra page s v)
      | inr (copy, given) ↦
          rw (given, copy_on_write)
            (finished copy
              (pt_map h page 1 (some copy) 0 (record flags { cow = false }) (with_copy copy)) refl)
    ]
  where
    with_copy : ℕ → Space
    with_copy copy = record s { store = copy_page copy entry s.store }

    finished :
        (copy : ℕ) (r : Result Space)
        → pt_map h page 1 (some copy) 0 (record flags { cow = false }) (with_copy copy) ≡ r
        → Touched extra page s (finish_copy copy (with_copy copy) r).0
    finished copy (ok u) e =
        let done =
          map_one h extra page (some copy) (record flags { cow = false }) (with_copy copy) u lt
            (copied-IsSpace extra copy entry s v) e in
        record { others = λ j o. done.1.others j o; space = done.1.space }
    finished copy (err x) e = record {
      others = λ j o. refl;
      space = record { counted = v.counted; fresh = v.fresh };
    }

entry-Touched :
    (h : Host) (mmap : ℕ → Option ℕ) (extra : ℕ → ℕ) (page : ℕ) (type : Access) (ptrace_copy : Bool)
    (entry : PtEntry) (s : Space)
    → page < mem_pages
    → IsSpace extra s
    → Touched extra page s (resolve_entry h mmap page type ptrace_copy entry s).0
unfolding resolve_entry resolve_write
entry-Touched h mmap extra page type ptrace_copy entry s lt v =
    let flags = write_flags ptrace_copy entry.flags in
    elim (Bool-cases (is_writing type)) [
      | inr reads ↦ rw reads (Touched-self extra page s v)
      | inl writes ↦ elim (Bool-cases flags.write) [
        | inr refused ↦ rw (writes, refused) (Touched-self extra page s v)
        | inl granted ↦ elim (Bool-cases flags.cow) [
          | inr in_place ↦ rw (writes, granted, in_place) (Touched-self extra page s v)
          | inl copies ↦
              rw (writes, granted, copies)
                (copy_on_write-Touched h mmap extra page flags entry s lt v)
        ]
      ]
    ]

grown-Touched :
    (h : Host) (mmap : ℕ → Option ℕ) (extra : ℕ → ℕ) (page : ℕ) (type : Access) (ptrace_copy : Bool)
    (s : Space) (r : Result Space)
    → page < mem_pages
    → IsSpace extra s
    → pt_map_nothing h page 1 (mmap s.store.next) stack_flags s ≡ r
    → Touched extra page s (grown h mmap page type ptrace_copy s r).0
unfolding grown
grown-Touched h mmap extra page type ptrace_copy s (err x) lt v m = Touched-self extra page s v
grown-Touched h mmap extra page type ptrace_copy s (ok u) lt v m =
    let ((entry, mapped, flags), touched) =
      map_one h extra page (mmap s.store.next) (record stack_flags { anonymous = true }) s u lt v
        (sym (map_nothing-pt_map h page 1 (mmap s.store.next) stack_flags s (omega arith)) ∙ m) in
    rw (mapped, grown)
      (Touched-trans extra page s u _ touched
        (entry-Touched h mmap extra page type ptrace_copy entry u lt touched.space))

pub fault-Touched :
    (h : Host) (mmap : ℕ → Option ℕ) (extra : ℕ → ℕ) (page : ℕ) (type : Access) (ptrace_copy : Bool)
    (s : Space)
    → page < mem_pages
    → IsSpace extra s
    → Touched extra page s (mem_resolve_fault h mmap page type ptrace_copy s).0
unfolding mem_resolve_fault
fault-Touched h mmap extra page type ptrace_copy s lt v = elim (Option-cases (mem_pt s.mem page)) [
  | inr (entry, m) ↦
      rw (m, mem_resolve_fault) (entry-Touched h mmap extra page type ptrace_copy entry s lt v)
  | inl free ↦ elim (Bool-cases (below_stack s.mem page)) [
    | inr outside ↦ rw (free, mem_resolve_fault, outside) (Touched-self extra page s v)
    | inl stack ↦
        rw (free, mem_resolve_fault, stack)
          (grown-Touched h mmap extra page type ptrace_copy s _ lt v refl)
  ]
]
