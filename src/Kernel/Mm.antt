-- ===== src/Kernel/Mm.antt =====
-- The life of an address space: `mem_init` and `mem_destroy` of kernel/memory.c, and `mm_new` to `mm_release`
-- of kernel/mmap.c.
pub mod Life
mod Tests
use codex_for_ipad.Prelude.{
  ℕ, ◌+◌, ◌%◌, ◌^◌, Bool, true, false, Option, none, some, [], ◌∷◌, ◌==◌, if◌then◌else◌,
}
use codex_for_ipad.Kernel.Memory.{Mem, Store, Space, Host, mem_pages, inc, dec, pt_unmap_always}
use codex_for_ipad.Kernel.Memory.Mapping.{Fork, pt_copy_on_write}

abbrev pub mem_init : Mem
mem_init = record { pgdir = λ i. none; pgdir_used = 0; changes = 0; invalidated = [] }

-- The directories are freed as well, so that just the store remains.
pub mem_destroy : Host → Space → Store
mem_destroy h s = (pt_unmap_always h 0 mem_pages s).store

-- `struct mm`, with its address space and the file it executes.
pub record MmStruct : Type 0 where
  pub mem : Mem
  pub start_brk : ℕ
  pub brk : ℕ
  pub refcount : ℕ
  pub exefile : Option ℕ

abbrev pub fresh_mm : MmStruct
fresh_mm = record { mem = mem_init; start_brk = 0; brk = 0; refcount = 1; exefile = none }

pub mm_new : Host → Option MmStruct
mm_new h = if h.malloc then some fresh_mm else none

-- How `mm_copy` ends: out of memory, with the old and the new space, or in a crash, since `fd_retain` does not
-- take a null pointer.
pub data Copy : Type 0 where
  no_memory : Copy
  copied : MmStruct → MmStruct → Store → Copy
  crashed : Copy

abbrev pub retain_file : ℕ → Store → Store
retain_file fd s = record s { retained = fd ∷ s.retained }

pub mm_copy : Host → MmStruct → Store → Copy
mm_copy h mm s =
    if h.malloc
    then elim mm.exefile [
      | none ↦ crashed
      | some fd ↦
          let f =
            pt_copy_on_write h 0 mem_pages
              (record { src = mm.mem; dst = mem_init; store = retain_file fd s }) in
          copied (record mm { mem = f.src }) (record mm { mem = f.dst; refcount = 1 }) f.store
    ]
    else no_memory

abbrev pub mm_retain : MmStruct → MmStruct
mm_retain mm = record mm { refcount = inc mm.refcount }

abbrev pub close_file : Option ℕ → Store → Store
close_file none s = s
close_file (some fd) s = record s { closed = fd ∷ s.closed }

-- The space that remains, if any, and the store.
pub mm_release : Host → MmStruct → Store → Option MmStruct × Store
mm_release h mm s =
    let n = dec mm.refcount in
    if n == 0
    then (none, mem_destroy h (record { mem = mm.mem; store = close_file mm.exefile s }))
    else (some (record mm { refcount = n }), s)
