-- ===== src/Kernel/Memory/Fault/Granted.antt =====
-- When `mem_ptr` of kernel/memory.c returns a pointer.
use codex_for_ipad.Prelude.{
  ℕ, suc, ◌+◌, ◌%◌, ◌^◌, ◌/◌, ◌<◌, ◌≡◌, refl, ap, ◌⊎◌, inl, inr, Bool, true, false, not, Option,
  none, some, ◌&&◌, ◌||◌, arith, if◌then◌else◌, Bool-cases,
}
use codex_for_ipad.Kernel.Memory.{PtEntry, Space, Host, page_size, mem_pages, mem_pt}
use codex_for_ipad.Kernel.Memory.Count.{IsSpace}
use codex_for_ipad.Kernel.Memory.Fault.{
  Access, is_write, is_ptrace, is_writing, writable, mem_ptr_nofault, mem_resolve_fault, invalidate,
  found, again, look, turn, mem_ptr,
}
use codex_for_ipad.Kernel.Memory.Fault.Laws.{IsReady, fault-Resolved}
use codex_for_ipad.Kernel.Memory.Mapping.Map.{pt_map-succeeds}
use codex_for_ipad.Kernel.Memory.Fault.Returns.{nofault-pointer, look-ready, loop-step}
use codex_for_ipad.Kernel.Memory.Fault.Laws.{fault-Resolved}
use codex_for_ipad.Kernel.Memory.{Flags}
use codex_for_ipad.Kernel.Memory.Fault.{
  mem_read, mem_write, mem_write_ptrace, resolve_write, resolve_entry, copy_on_write, finish_copy,
  copy_page, write_flags, writable, is_write,
}

-- A copy succeeds if the host gives memory for it.
copies :
    (h : Host) (mmap : ℕ → Option ℕ) (page copy : ℕ) (flags : Flags) (entry : PtEntry) (s : Space)
    → h.malloc ≡ true
    → mmap s.store.next ≡ some copy
    → (copy_on_write h mmap page flags entry s).1 ≡ none
unfolding copy_on_write finish_copy
copies h mmap page copy flags entry s room given =
    let made =
      pt_map-succeeds h page 1 copy 0 (record flags { cow = false })
        (record s { store = copy_page copy entry s.store }) room in
    rw (given, copy_on_write, made.1) refl

write_resolves :
    (h : Host) (mmap : ℕ → Option ℕ) (page copy : ℕ) (ptrace_copy : Bool) (entry : PtEntry)
    (s : Space)
    → h.malloc ≡ true
    → mmap s.store.next ≡ some copy
    → (write_flags ptrace_copy entry.flags).write ≡ true
    → (resolve_write h mmap page ptrace_copy entry s).1 ≡ none
unfolding resolve_write
write_resolves h mmap page copy ptrace_copy entry s room given writes =
    let flags = write_flags ptrace_copy entry.flags in
    elim (Bool-cases flags.cow) [
      | inl e ↦ rw (writes, e) (copies h mmap page copy flags entry s room given)
      | inr e ↦ rw (writes, e) refl
    ]

resolves :
    (h : Host) (mmap : ℕ → Option ℕ) (page copy : ℕ) (type : Access) (entry : PtEntry) (s : Space)
    → h.malloc ≡ true
    → mmap s.store.next ≡ some copy
    → mem_pt s.mem page ≡ some entry
    → (is_write type ≡ true → entry.flags.write ≡ true)
    → (mem_resolve_fault h mmap page type (is_ptrace type) s).1 ≡ none
unfolding mem_resolve_fault resolve_entry
resolves h mmap page copy mem_read entry s room given e w = rw (e, mem_resolve_fault) refl
resolves h mmap page copy mem_write entry s room given e w =
    rw (e, mem_resolve_fault) (write_resolves h mmap page copy false entry s room given (w refl))
resolves h mmap page copy mem_write_ptrace entry s room given e w =
    rw (e, mem_resolve_fault) (write_resolves h mmap page copy true entry s room given refl)

look-granted :
    (type : Access) (ptrace_copy : Bool) (addr : ℕ) (entry : PtEntry) (s : Space)
    → mem_pt s.mem (addr / page_size) ≡ some entry
    → (is_write type ≡ true → entry.flags.write ≡ true)
    → (look type ptrace_copy addr s ≡ again)
      ⊎ ((look type ptrace_copy addr s
            ≡ found
                (if is_writing type then invalidate (addr / page_size) s else s)
                (mem_ptr_nofault s.mem addr type))
          × IsReady type (addr / page_size) s.mem)
unfolding look
look-granted type ptrace_copy addr entry s e w =
    elim (Bool-cases (not ptrace_copy && (not (is_writing type) || writable entry.flags))) [
      | inl fine ↦ inr (rw (e, look, fine) refl, (entry, e, λ u. ground arith))
      | inr bad ↦
          let fault : is_write type && not entry.flags.write ≡ false = ground (arith, w) in
          inl (rw (e, look, bad, fault) refl)
    ]

-- The call has returned a pointer.
abbrev IsGranted : Option (Space × Option (ℕ × ℕ)) → Type 0
IsGranted result = (t : Space) × (b : ℕ) × (o : ℕ) × (result ≡ some (t, some (b, o)))

-- A pointer to the page as it now is.
pointed :
    (type : Access) (addr : ℕ) (s t : Space)
    → IsReady type (addr / page_size) s.mem
    → IsGranted (some (t, mem_ptr_nofault s.mem addr type))
pointed type addr s t (entry, e, w) = (
  t,
  entry.block,
  entry.offset + addr % page_size,
  rw (nofault-pointer type addr entry s.mem e w) refl,
)

-- `mem_ptr` to a page that is mapped returns a pointer and not a null pointer, for a read, for a write to a
-- page that may be written to, and for any write by a debugger, if the host has memory for a copy.
-- Two turns of its loop are enough.
pub mem_ptr_granted :
    (h : Host) (mmap : ℕ → Option ℕ) (extra : ℕ → ℕ) (addr k copy : ℕ) (type : Access)
    (entry : PtEntry) (s : Space)
    → addr < 2 ^ 32
    → IsSpace extra s
    → h.malloc ≡ true
    → mmap s.store.next ≡ some copy
    → mem_pt s.mem (addr / page_size) ≡ some entry
    → (is_write type ≡ true → entry.flags.write ≡ true)
    → (t : Space) × (b : ℕ) × (o : ℕ) × (mem_ptr (suc (suc k)) h mmap addr type s
        ≡ some (t, some (b, o)))
unfolding mem_ptr turn
mem_ptr_granted h mmap extra addr k copy type entry s small v room given e w =
    let page = addr / page_size in
    let lt : page < mem_pages = omega arith in
    let resolved = mem_resolve_fault h mmap page type (is_ptrace type) s in
    let fine : resolved.1 ≡ none = resolves h mmap page copy type entry s room given e w in
    elim (look-granted type (is_ptrace type) addr entry s e w) [
      | inr (plain, ready) ↦
          rw (loop-step h mmap type (is_ptrace type) addr (suc k) s, plain)
            (pointed type addr s _ ready)
      | inl retry ↦
          let ready =
            (fault-Resolved h mmap extra page type (is_ptrace type) s resolved.0 lt v
              (ap (λ o. (resolved.0, o)) fine)).0 in
          rw
            (
              loop-step h mmap type (is_ptrace type) addr (suc k) s,
              retry,
              fine,
              loop-step h mmap type false addr k resolved.0,
              look-ready type addr resolved.0 ready,
            )
            (pointed type addr resolved.0 _ ready)
    ]
