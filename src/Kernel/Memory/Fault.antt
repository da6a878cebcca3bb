-- ===== src/Kernel/Memory/Fault.antt =====
-- kernel/memory.c: pointers into an address space, with the page faults that the kernel resolves. The
-- argument `mmap` tells which host memory a call of `mmap` for the block of that number returns.
pub mod Laws
pub mod Touched
pub mod Returns
pub mod Granted
use codex_for_ipad.Prelude.{
  ℕ, zero, suc, ◌+◌, ◌-◌, ◌*◌, ◌%◌, ◌/◌, Bool, true, false, not, ◌&&◌, ◌||◌, Option, none, some,
  ◌∷◌, ltb, if◌then◌else◌,
}
use codex_for_ipad.Prelude.Errno.{Errno, efault, Result, ok, err}
use codex_for_ipad.Kernel.Memory.{
  Flags, PtEntry, Mem, Store, Space, Host, page_size, mem_pages, update, mem_pt,
}
use codex_for_ipad.Kernel.Memory.Mapping.{pt_map, pt_map_nothing}

-- MEM_READ, MEM_WRITE, MEM_WRITE_PTRACE
pub data Access : Type 0 where
  mem_read mem_write mem_write_ptrace : Access

abbrev pub is_write : Access → Bool
is_write mem_read = false
is_write mem_write = true
is_write mem_write_ptrace = false

abbrev pub is_ptrace : Access → Bool
is_ptrace mem_read = false
is_ptrace mem_write = false
is_ptrace mem_write_ptrace = true

abbrev pub is_writing : Access → Bool
is_writing type = is_write type || is_ptrace type

-- P_WRITABLE
abbrev pub writable : Flags → Bool
writable flags = flags.write && not flags.cow

-- A pointer into host memory, by the block and the offset in it.
pub mem_ptr_nofault : Mem → ℕ → Access → Option (ℕ × ℕ)
mem_ptr_nofault m addr type = elim (mem_pt m (addr / page_size)) [
  | none ↦ none
  | some entry ↦
      if is_write type && not (writable entry.flags)
      then none
      else some (entry.block, entry.offset + addr % page_size)
]

-- The first page from `page` on that is mapped, or the end.
pub next_mapped : ℕ → Mem → ℕ → ℕ
next_mapped zero m page = page
next_mapped (suc k) m page =
    let rest = next_mapped k m (page + 1) in
    elim (mem_pt m page) [ none ↦ rest | some entry ↦ page ]

-- Whether the mapping behind an unmapped page is a stack.
pub below_stack : Mem → ℕ → Bool
below_stack m page = elim (mem_pt m (next_mapped (mem_pages - (page + 1)) m (page + 1))) [
  | none ↦ false
  | some entry ↦ entry.flags.growsdown
]

abbrev pub stack_flags : Flags
stack_flags = record {
  read = false;
  write = true;
  exec = false;
  growsdown = true;
  cow = false;
  anonymous = false;
  shared = false;
}

-- `memcpy` of one page.
pub copy_page : ℕ → PtEntry → Store → Store
copy_page copy entry s = record s {
  bytes = update s.bytes copy (λ o.
      if ltb o page_size
      then s.bytes (s.blocks entry.block).memory (entry.offset + o)
      else s.bytes copy o);
}

-- A copy that could not be mapped is given back.
pub finish_copy : ℕ → Space → Result Space → Space × Option Errno
finish_copy copy s (ok t) = (t, none)
finish_copy copy s (err e) =
    (record s { store = record (s.store) { munmapped = copy ∷ s.store.munmapped } }, some e)

pub copy_on_write : Host → (ℕ → Option ℕ) → ℕ → Flags → PtEntry → Space → Space × Option Errno
copy_on_write h mmap page flags entry s = elim (mmap s.store.next) [
  | none ↦ (s, some h.errno)
  | some copy ↦
      let s' = record s { store = copy_page copy entry s.store } in
      finish_copy copy s' (pt_map h page 1 (some copy) 0 (record flags { cow = false }) s')
]

-- `flags |= P_WRITE | P_COW`, for a write by a debugger.
abbrev pub write_flags : Bool → Flags → Flags
write_flags ptrace_copy flags =
    if ptrace_copy then record flags { write = true; cow = true } else flags

-- The part of `mem_resolve_fault` for a write to a page with an entry.
pub resolve_write : Host → (ℕ → Option ℕ) → ℕ → Bool → PtEntry → Space → Space × Option Errno
resolve_write h mmap page ptrace_copy entry s =
    let flags = write_flags ptrace_copy entry.flags in
    if not flags.write
    then (s, some efault)
    else if flags.cow
    then copy_on_write h mmap page flags entry s
    else (s, none)

pub resolve_entry :
    Host → (ℕ → Option ℕ) → ℕ → Access → Bool → PtEntry → Space → Space × Option Errno
resolve_entry h mmap page type ptrace_copy entry s =
    if is_writing type then resolve_write h mmap page ptrace_copy entry s else (s, none)

-- The page below a stack has been mapped, or could not be.
pub grown : Host → (ℕ → Option ℕ) → ℕ → Access → Bool → Space → Result Space → Space × Option Errno
grown h mmap page type ptrace_copy s (err e) = (s, some e)
grown h mmap page type ptrace_copy s (ok t) = elim (mem_pt t.mem page) [
  | none ↦ (t, none)
  | some entry ↦ resolve_entry h mmap page type ptrace_copy entry t
]

pub mem_resolve_fault : Host → (ℕ → Option ℕ) → ℕ → Access → Bool → Space → Space × Option Errno
mem_resolve_fault h mmap page type ptrace_copy s = elim (mem_pt s.mem page) [
  | some entry ↦ resolve_entry h mmap page type ptrace_copy entry s
  | none ↦
      if not (below_stack s.mem page)
      then (s, some efault)
      else grown h mmap page type ptrace_copy s
          (pt_map_nothing h page 1 (mmap s.store.next) stack_flags s)
]

abbrev pub invalidate : ℕ → Space → Space
invalidate page s = record s { mem = record (s.mem) { invalidated = page ∷ s.mem.invalidated } }

-- What the loop of `mem_ptr` does with a page: it returns, or resolves the fault and looks again.
pub data Look : Type 0 where
  found : Space → Option (ℕ × ℕ) → Look
  again : Look

pub look : Access → Bool → ℕ → Space → Look
look type ptrace_copy addr s = elim (mem_pt s.mem (addr / page_size)) [
  | none ↦ again
  | some entry ↦
      if not ptrace_copy && (not (is_writing type) || writable entry.flags)
      then found (if is_writing type then invalidate (addr / page_size) s else s)
          (mem_ptr_nofault s.mem addr type)
      else if is_write type && not entry.flags.write
      then found s none
      else again
]

-- How a turn of the loop ends; `rest` is the next turn.
pub turn :
    Look → Space × Option Errno → Option (Space × Option (ℕ × ℕ)) → Option (Space × Option (ℕ × ℕ))
turn (found u p) resolved rest = some (u, p)
turn again (t, none) rest = rest
turn again (t, some e) rest = some (t, none)

-- The loop, on fuel: `none` where the fuel runs out. Nothing else changes the space in between.
pub mem_ptr_loop :
    ℕ → Host → (ℕ → Option ℕ) → Access → Bool → ℕ → Space → Option (Space × Option (ℕ × ℕ))
mem_ptr_loop zero h mmap type ptrace_copy addr s = none
mem_ptr_loop (suc k) h mmap type ptrace_copy addr s =
    let resolved = mem_resolve_fault h mmap (addr / page_size) type ptrace_copy s in
    turn (look type ptrace_copy addr s) resolved (mem_ptr_loop k h mmap type false addr resolved.0)

pub mem_ptr : ℕ → Host → (ℕ → Option ℕ) → ℕ → Access → Space → Option (Space × Option (ℕ × ℕ))
mem_ptr fuel h mmap addr type s = mem_ptr_loop fuel h mmap type (is_ptrace type) addr s

-- SEGV_MAPERR_ 1, SEGV_ACCERR_ 2
pub mem_segv_reason : Mem → ℕ → ℕ
mem_segv_reason m addr = elim (mem_pt m (addr / page_size)) [ none ↦ 1 | some entry ↦ 2 ]
