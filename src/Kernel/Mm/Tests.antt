-- ===== src/Kernel/Mm/Tests.antt =====
-- Runs of the calls on `struct mm`, and its theorems there.
use codex_for_ipad.Prelude.{ℕ, ◌<◌, ◌≡◌, refl, some}
use codex_for_ipad.Kernel.Memory.{Store, mem_pages, mem_pt}
use codex_for_ipad.Kernel.Memory.Mapping.Share.{IsFork, source_entry}
use codex_for_ipad.Kernel.Memory.Tests.{host, no_extra, two_pages, two_pages-IsSpace}
use codex_for_ipad.Kernel.Mm.{MmStruct, copied, mm_copy}
use codex_for_ipad.Kernel.Mm.Life.{mm_copy-IsFork}

abbrev program : MmStruct
program = record {
  mem = two_pages.mem;
  start_brk = 1048576;
  brk = 1056768;
  refcount = 1;
  exefile = some 3;
}

mm_copy-IsFork_example :
    (old : MmStruct) × (new : MmStruct) × (t : Store) × (mm_copy host program two_pages.store
      ≡ copied old new t)
    × (new.brk ≡ 1056768)
    × (new.refcount ≡ 1)
    × ((j : ℕ) → j < mem_pages → mem_pt old.mem j ≡ source_entry (mem_pt two_pages.mem j))
    × ((j : ℕ) → j < mem_pages → mem_pt new.mem j ≡ source_entry (mem_pt two_pages.mem j))
    × IsFork no_extra (record { src = old.mem; dst = new.mem; store = t })
mm_copy-IsFork_example =
    mm_copy-IsFork host no_extra program two_pages.store 3 two_pages-IsSpace refl refl
