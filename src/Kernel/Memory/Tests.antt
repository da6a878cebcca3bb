-- ===== src/Kernel/Memory/Tests.antt =====
-- Runs of kernel/memory.c in small address spaces, and its theorems there.
use mathlib.Core.Path.{subst}
use codex_for_ipad.Prelude.{
  ℕ, ◌+◌, ◌-◌, ◌*◌, ◌/◌, ◌<◌, ◌≤◌, ◌≡◌, ◌⊎◌, refl, true, false, Option, none, some, [], ◌∷◌, arith,
  ◌==◌, ltb, leb, ◌&&◌, if◌then◌else◌,
}
use codex_for_ipad.Prelude.Errno.{enomem, ok, err}
use codex_for_ipad.Kernel.Memory.{
  Flags, Space, Host, page_size, bad_page, mem_pt, mem_pt_new, put_pt, walk, mem_next_page,
  skip_dirs, unmap_page, is_mapped, unmap_entry, mem_pt_del, data_release, data_free, pt_find_hole,
  pt_unmap_always,
}
use codex_for_ipad.Kernel.Memory.Count.{refs, refs-none, refs-le, IsSpace}
use codex_for_ipad.Kernel.Memory.Mapping.{Fork, map_pages, assign_page, pt_map, pt_copy_on_write}
use codex_for_ipad.Kernel.Memory.Mapping.Map.{pt_map-exact}
use codex_for_ipad.Kernel.Memory.Mapping.Share.{
  IsFork, source_entry, copied_entry, copy_on_write-exact,
}
use codex_for_ipad.Kernel.Memory.Unmap.{unmap_always-exact}
use codex_for_ipad.Kernel.Memory.Freed.{times, IsFreed, IsExact, unmap_always-IsFreed}
use codex_for_ipad.Kernel.Memory.Hole.{IsFree, NoneFree, find_hole-highest}
use codex_for_ipad.Kernel.Memory.Fault.{mem_write, mem_ptr}
use codex_for_ipad.Kernel.Memory.Fault.Laws.{Touched}
use codex_for_ipad.Kernel.Memory.Fault.Granted.{mem_ptr_granted}
use codex_for_ipad.Kernel.Memory.Fault.Returns.{IsPointer, mem_ptr-Returned}

abbrev pub host : Host
host = record { vdso_data = 0; malloc = true; errno = enomem }

abbrev pub empty : Space
empty = record {
  mem = record { pgdir = λ i. none; pgdir_used = 0; changes = 0; invalidated = [] };
  store = record {
    blocks = λ b. record { memory = 0; size = 0; refcount = 0; fd = none; file_offset = 0 };
    next = 0;
    bytes = λ memory o. 0;
    freed = [];
    munmapped = [];
    closed = [];
    retained = [];
  };
}

abbrev pub no_extra : ℕ → ℕ
no_extra b = 0

empty-refs : (b : ℕ) → refs empty.mem b ≡ 0
unfolding mem_pt
empty-refs b = refs-none empty.mem b (λ j lt. refl)

pub empty-IsSpace : IsSpace no_extra empty
empty-IsSpace = record {
  counted = λ b. ground (arith, empty-refs b);
  fresh = λ b le. ground (arith, empty-refs b);
}

abbrev pub writes : Flags
writes = record {
  read = true;
  write = true;
  exec = false;
  growsdown = false;
  cow = false;
  anonymous = true;
  shared = false;
}

-- Pages 256 and 257 on one block.
abbrev pub two_pages : Space
two_pages = elim (pt_map host 256 2 (some 7) 0 writes empty) [ ok t ↦ t | err e ↦ empty ]

two_pages-run : pt_map host 256 2 (some 7) 0 writes empty ≡ ok two_pages
unfolding pt_map
two_pages-run = refl

pt_map-exact_example :
    ((j : ℕ)
      → mem_pt two_pages.mem j ≡ (
          if leb 256 j && ltb j 258
          then some (record { block = 0; offset = 0 + (j - 256) * page_size; flags = writes })
          else mem_pt empty.mem j))
    × IsSpace no_extra two_pages
pt_map-exact_example =
    pt_map-exact host no_extra 256 2 (some 7) 0 writes empty two_pages (omega arith) empty-IsSpace
      two_pages-run

pub two_pages-IsSpace : IsSpace no_extra two_pages
two_pages-IsSpace =
    (pt_map-exact host no_extra 256 2 (some 7) 0 writes empty two_pages (omega arith) empty-IsSpace
      two_pages-run).1

unmap_always-exact_example :
    ((j : ℕ)
      → mem_pt (pt_unmap_always host 257 9 two_pages).mem j
        ≡ (if leb 257 j && ltb j 266 then none else mem_pt two_pages.mem j))
    × IsSpace no_extra (pt_unmap_always host 257 9 two_pages)
unmap_always-exact_example =
    unmap_always-exact host no_extra 257 9 two_pages (omega arith) two_pages-IsSpace

find_hole-highest_example :
    ((pt_find_hole two_pages.mem 3 ≡ bad_page) × NoneFree two_pages.mem 3 262144)
    ⊎ ((262144 < pt_find_hole two_pages.mem 3)
        × (pt_find_hole two_pages.mem 3 + 3 ≤ 1015806)
        × IsFree two_pages.mem (pt_find_hole two_pages.mem 3) 3
        × NoneFree two_pages.mem 3 (pt_find_hole two_pages.mem 3))
find_hole-highest_example = find_hole-highest two_pages.mem 3 (omega arith)

mem_ptr-Returned_example :
    (t : Space) × (r : Option (ℕ × ℕ)) × (mem_ptr 2 host
        (λ n. some (n + 100))
        1048577
        mem_write
        two_pages
      ≡ some (t, r))
    × IsPointer mem_write 1048577 t.mem r
    × Touched no_extra (1048577 / page_size) two_pages t
mem_ptr-Returned_example =
    mem_ptr-Returned host (λ n. some (n + 100)) no_extra 1048577 0 mem_write two_pages (omega arith)
      two_pages-IsSpace

two_pages-facts :
    (two_pages.store.freed ≡ [])
    × ((two_pages.store.blocks 0).refcount ≡ 2)
    × (two_pages.store.next ≡ 1)
unfolding pt_map map_pages assign_page is_mapped mem_pt put_pt mem_pt_new
two_pages-facts = (refl, refl, refl)

first_block :
    times 0 two_pages.store.freed ≡ (if refs two_pages.mem 0 + no_extra 0 == 0 then 1 else 0)
first_block = rw two_pages-facts.0 (
    let mapped : (refs two_pages.mem 0 == 0) ≡ false =
      ground (arith, two_pages-IsSpace.counted 0, two_pages-facts.1) in
    ground (arith, mapped))

two_pages-IsExact : IsExact no_extra two_pages
two_pages-IsExact = record {
  space = two_pages-IsSpace;
  bounded = λ b. ground (arith, refs-le two_pages.mem b);
  freed = λ b le.
      let first : 0 ≡ b = omega (arith, le, two_pages-facts.2) in
      subst
        (λ c.
          times c two_pages.store.freed ≡ (if refs two_pages.mem c + no_extra c == 0 then 1 else 0))
        first first_block;
}

unmap_always-IsFreed_example : IsFreed no_extra (pt_unmap_always host 256 2 two_pages)
unmap_always-IsFreed_example =
    unmap_always-IsFreed host no_extra 256 2 two_pages (omega arith) two_pages-IsExact

unmap_run : (pt_unmap_always host 256 2 two_pages).store.munmapped ≡ 7 ∷ []
unfolding pt_unmap_always walk mem_next_page skip_dirs unmap_page mem_pt pt_map map_pages
    assign_page put_pt mem_pt_new is_mapped unmap_entry mem_pt_del data_release data_free
unmap_run = refl

abbrev pub read_only : Flags
read_only = record writes { write = false }

-- A fork into an empty space.
abbrev pub fork : Fork
fork = record { src = two_pages.mem; dst = empty.mem; store = two_pages.store }

pub fork-IsFork : IsFork no_extra fork
fork-IsFork = record {
  counted = λ b. ground (arith, two_pages-IsSpace.counted b, empty-refs b);
  fresh = λ b le. ground (arith, two_pages-IsSpace.fresh b, empty-refs b);
}

copy_on_write-exact_example :
    let t = pt_copy_on_write host 256 2 fork in
    ((j : ℕ)
      → mem_pt t.src j
        ≡ (if leb 256 j && ltb j 258 then source_entry (mem_pt fork.src j) else mem_pt fork.src j))
    × ((j : ℕ)
        → mem_pt t.dst j ≡ (
            if leb 256 j && ltb j 258
            then copied_entry (mem_pt fork.src j) (mem_pt fork.dst j)
            else mem_pt fork.dst j))
    × IsFork no_extra t
copy_on_write-exact_example = copy_on_write-exact host no_extra 256 2 fork (omega arith) fork-IsFork

mem_ptr_granted_example :
    (t : Space) × (b : ℕ) × (o : ℕ) × (mem_ptr 2 host
        (λ n. some (n + 100))
        1048577
        mem_write
        two_pages
      ≡ some (t, some (b, o)))
unfolding mem_pt pt_map map_pages assign_page put_pt mem_pt_new is_mapped
mem_ptr_granted_example =
    mem_ptr_granted host (λ n. some (n + 100)) no_extra 1048577 0 101 mem_write
      (record { block = 0; offset = 0; flags = writes }) two_pages (omega arith) two_pages-IsSpace
      refl refl refl (λ w. refl)
