-- ===== src/Kernel/Mmap/Tests.antt =====
-- Runs of kernel/mmap.c in small address spaces, and its theorems there.
use codex_for_ipad.Prelude.{◌+◌, ◌*◌, ◌≡◌, ◌⊎◌, refl, true, none, some, arith}
use codex_for_ipad.Prelude.Errno.{ok}
use codex_for_ipad.Kernel.Memory.{
  page_size, mem_pt, mem_pt_new, put_pt, is_mapped, find_hole_loop, pt_find_hole,
}
use codex_for_ipad.Kernel.Memory.Hole.{IsFree}
use codex_for_ipad.Kernel.Memory.Mapping.{pt_map_nothing, map_pages, assign_page, pt_map}
use codex_for_ipad.Kernel.Memory.Tests.{host, no_extra, two_pages, two_pages-IsSpace}
use codex_for_ipad.Kernel.Mmap.{Env, mmap_common, do_mmap, map_at, heap_flags, Mm, sys_brk}
use codex_for_ipad.Kernel.Mmap.Laws.{Mapped}
use codex_for_ipad.Kernel.Mmap.Heap.{brk-grows}

abbrev env : Env
env = record { host = host; mmap = λ n. some (n + 100); mprotect = λ page. true; file = λ fd. none }

-- MAP_PRIVATE | MAP_ANONYMOUS, 8192 bytes
mmap_run : (mmap_common env 0 8192 3 34 0 0 two_pages).1 ≡ ok (1015804 * page_size)
unfolding mmap_common pt_find_hole pt_map do_mmap find_hole_loop is_mapped mem_pt map_pages
    assign_page put_pt mem_pt_new map_at pt_map_nothing
mmap_run = refl

-- A hint at page 256, which is taken.
-- A heap of two pages from page 256 on.
abbrev heap : Mm
heap = record { space = two_pages; start_brk = 1048576; brk = 1056768 }

brk-grows_example :
    let t = (sys_brk env 1060000 heap).0 in
    ((sys_brk env 1060000 heap).1 ≡ t.brk)
    × ((t ≡ heap)
        ⊎ ((t.brk ≡ 1060000)
            × IsFree two_pages.mem 258 1
            × Mapped no_extra 258 1 heap_flags two_pages t.space))
brk-grows_example =
    brk-grows env no_extra 1060000 heap (omega arith) (omega arith) (omega arith) two_pages-IsSpace
