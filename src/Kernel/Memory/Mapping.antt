-- ===== src/Kernel/Memory/Mapping.antt =====
-- kernel/memory.c: the operations that map pages, set their flags and share them on a fork.
pub mod Map
pub mod Share
pub mod Flag
use codex_for_ipad.Prelude.{
  ◌%◌, ◌^◌, ℕ, zero, suc, ◌+◌, ◌*◌, Bool, true, false, not, ◌&&◌, ◌||◌, Option, none, some,
  if◌then◌else◌,
}
use codex_for_ipad.Prelude.Errno.{Errno, enomem, Result, ok, err}
use codex_for_ipad.Kernel.Memory.{
  span, Flags, PtEntry, Mem, Store, Space, Host, page_size, update, inc, mem_pt, mem_pt_new, put_pt,
  walk, mem_changed, is_mapped, set_refcount, pt_unmap_always,
}

-- Whether every page is mapped: the loops at the head of `pt_unmap` and `pt_set_flags`.
unfoldable pub all_mapped : Mem → ℕ → ℕ → Bool
all_mapped m start zero = true
all_mapped m start (suc pages) =
    let rest = all_mapped m (start + 1) pages in if is_mapped m start then rest else false

-- The value `none` is the return value -1.
pub pt_unmap : Host → ℕ → ℕ → Space → Option Space
pt_unmap h start pages s =
    if all_mapped s.mem start (span start pages)
    then some (pt_unmap_always h start pages s)
    else none

-- A page that is mapped is unmapped first; the result of that is not looked at.
abbrev pub clear_page : Host → ℕ → Space → Space
clear_page h page s = if is_mapped s.mem page then pt_unmap_always h page 1 s else s

-- `pt->data = data` and so on, in the entry of a page.
unfoldable pub assign_page : ℕ → PtEntry → Space → Space
assign_page page entry s = record s {
  mem = put_pt (mem_pt_new s.mem page) page (some entry);
  store = set_refcount s.store entry.block (inc (s.store.blocks entry.block).refcount);
}

-- The loop of `pt_map`: `k` pages from `page` on.
unfoldable pub map_pages : Host → ℕ → Flags → ℕ → ℕ → ℕ → Space → Space
map_pages h b flags zero page offset s = s
map_pages h b flags (suc k) page offset s =
    map_pages h b flags k (page + 1) (offset + page_size) (
      assign_page page (record { block = b; offset = offset; flags = flags }) (clear_page h page s))

-- A new block on the host's memory `memory`.
abbrev pub new_data : ℕ → ℕ → Store → Store
new_data memory size s = record s {
  blocks =
      update s.blocks s.next
        (record { memory = memory; size = size; refcount = 0; fd = none; file_offset = 0 });
  next = s.next + 1;
}

-- `none` is MAP_FAILED.
unfoldable pub pt_map : Host → ℕ → ℕ → Option ℕ → ℕ → Flags → Space → Result Space
pt_map h start pages none offset flags s = err h.errno
pt_map h start pages (some memory) offset flags s =
    if h.malloc
    then ok (
        map_pages h s.store.next flags (span start pages) start offset
          (record s { store = new_data memory (pages * page_size % 2 ^ 32 + offset) s.store }))
    else err enomem

-- `memory` is what the host's `mmap` returns.
unfoldable pub pt_map_nothing : Host → ℕ → ℕ → Option ℕ → Flags → Space → Result Space
pt_map_nothing h start zero memory flags s = ok s
pt_map_nothing h start (suc pages) memory flags s =
    pt_map h start (suc pages) memory 0 (record flags { anonymous = true }) s

abbrev pub with_flags : PtEntry → Flags → PtEntry
with_flags entry flags = record entry { flags = flags }

-- `flags & ~old_flags & (P_READ|P_WRITE)`
abbrev pub increases : Flags → Flags → Bool
increases flags old = (flags.read && not old.read) || (flags.write && not old.write)

-- The second loop of `pt_set_flags`; `mprotect page` tells whether the host's call for that page succeeds.
-- Behind the first loop every page has an entry.
unfoldable pub flag_pages : Host → (ℕ → Bool) → Flags → ℕ → ℕ → Mem → Mem × Option Errno
flag_pages h mprotect flags zero page m = (m, none)
flag_pages h mprotect flags (suc k) page m = elim (mem_pt m page) [
  | none ↦ flag_pages h mprotect flags k (page + 1) m
  | some entry ↦
      let m' = put_pt m page (some (with_flags entry flags)) in
      let rest = flag_pages h mprotect flags k (page + 1) m' in
      if increases flags entry.flags && not (mprotect page) then (m', some h.errno) else rest
]

unfoldable pub pt_set_flags : Host → (ℕ → Bool) → ℕ → ℕ → Flags → Mem → Mem × Option Errno
pt_set_flags h mprotect start pages flags m =
    if all_mapped m start (span start pages)
    then (let (m', r) = flag_pages h mprotect flags (span start pages) start m in
        elim r [ none ↦ (mem_changed m', none) | some e ↦ (m', some e) ])
    else (m, some enomem)

-- Two address spaces beside one store.
pub record Fork : Type 0 where
  pub src : Mem
  pub dst : Mem
  pub store : Store

unfoldable pub share : Flags → Flags
share flags = if flags.shared then flags else record flags { cow = true }

-- The body of the loop of `pt_copy_on_write`.
unfoldable pub share_page : Host → ℕ → Fork → Fork
share_page h page s = elim (mem_pt s.src page) [
  | none ↦ s
  | some entry ↦
      let shared = with_flags entry (share entry.flags) in
      let cleared = pt_unmap_always h page 1 (record { mem = s.dst; store = s.store }) in
      let copied = assign_page page shared cleared in
      record { src = put_pt s.src page (some shared); dst = copied.mem; store = copied.store }
]

unfoldable pub pt_copy_on_write : Host → ℕ → ℕ → Fork → Fork
pt_copy_on_write h start pages s =
    let t = walk (λ (f : Fork). f.src) (share_page h) pages start ((start + pages) % 2 ^ 32) s in
    record t { src = mem_changed t.src; dst = mem_changed t.dst }
