-- ===== src/Kernel/Mmap.antt =====
-- kernel/mmap.c: the system calls on an address space. What the file of a descriptor does with `mmap`,
-- and the host's calls, are arguments.
pub mod Laws
pub mod Heap
pub mod Protect
mod Tests
use codex_for_ipad.Prelude.{
  ℕ, zero, suc, ◌+◌, ◌-◌, ◌*◌, ◌%◌, ◌/◌, ◌^◌, Bool, true, false, not, ◌&&◌, ◌||◌, Option, none,
  some, ◌∷◌, ◌==◌, ltb, leb, if◌then◌else◌,
}
use codex_for_ipad.Prelude.Errno.{Errno, einval, enomem, ebadf, enodev, efault, Result, ok, err}
use codex_for_ipad.Kernel.Memory.{
  Flags, Mem, Space, Host, page_size, bad_page, update, mem_pt, pt_find_hole, pt_is_hole,
  pt_unmap_always,
}
use codex_for_ipad.Kernel.Memory.Mapping.{pt_map_nothing, pt_unmap, pt_set_flags, all_mapped}

-- `fd->ops->mmap`, on a page, a number of pages, an offset and flags.
abbrev pub FileMmap : Type 0
FileMmap = ℕ → ℕ → ℕ → Flags → Space → Result Space

-- The host; the host's `mmap` by the number of the block it is for; whether `mprotect` succeeds; and the file
-- of a descriptor with its `mmap`, if it has one.
pub record Env : Type 0 where
  pub host : Host
  pub mmap : ℕ → Option ℕ
  pub mprotect : ℕ → Bool
  pub file : ℕ → Option (ℕ × Option FileMmap)

-- Bit `k` of a word of flags.
abbrev pub bit : ℕ → ℕ → Bool
bit k flags = (flags / 2 ^ k) % 2 == 1

-- MMAP_SHARED 0x1, MMAP_PRIVATE 0x2, MMAP_FIXED 0x10, MMAP_ANONYMOUS 0x20
abbrev pub mmap_shared : ℕ → Bool
mmap_shared flags = bit 0 flags

abbrev pub mmap_private : ℕ → Bool
mmap_private flags = bit 1 flags

abbrev pub mmap_fixed : ℕ → Bool
mmap_fixed flags = bit 4 flags

abbrev pub mmap_anonymous : ℕ → Bool
mmap_anonymous flags = bit 5 flags

-- The page flags of a `prot` that has only P_READ, P_WRITE and P_EXEC.
abbrev pub prot_flags : ℕ → Flags
prot_flags prot = record {
  read = bit 0 prot;
  write = bit 1 prot;
  exec = bit 2 prot;
  growsdown = false;
  cow = false;
  anonymous = false;
  shared = false;
}

-- PAGE_ROUND_UP, on 32 bits.
abbrev pub page_round_up : ℕ → ℕ
page_round_up bytes = ((bytes + (page_size - 1)) % 2 ^ 32) / page_size

-- `mem_pt(current->mem, page)->data->fd = fd_retain(fd)` and the offset.
pub attach_file : ℕ → ℕ → ℕ → Space → Space
attach_file page fd offset s = elim (mem_pt s.mem page) [
  | none ↦ s
  | some entry ↦ record s {
    store = record (s.store) {
      blocks =
          update s.store.blocks entry.block
            (record (s.store.blocks entry.block) { fd = some fd; file_offset = offset });
      retained = fd ∷ s.store.retained;
    };
  }
]

-- The mapping of a file.
pub map_file : Env → ℕ → ℕ → ℕ → ℕ → Flags → Space → Space × Result ℕ
map_file env page pages fd_no offset prot s = elim (env.file fd_no) [
  | none ↦ (s, err ebadf)
  | some (fd, none) ↦ (s, err enodev)
  | some (fd, some op) ↦ elim (op page pages offset prot s) [
    | err e ↦ (s, err e)
    | ok t ↦ (attach_file page fd offset t, ok (page * page_size))
  ]
]

-- `do_mmap` with its page chosen.
pub map_at : Env → ℕ → ℕ → ℕ → ℕ → ℕ → ℕ → Space → Space × Result ℕ
map_at env page pages prot flags fd_no offset s =
    let prot' = record (prot_flags prot) { shared = mmap_shared flags } in
    if mmap_anonymous flags
    then elim (pt_map_nothing env.host page pages (env.mmap s.store.next) prot' s) [
      | err e ↦ (s, err e)
      | ok t ↦ (t, ok (page * page_size))
    ]
    else map_file env page pages fd_no offset prot' s

-- An address that is given and taken is set to 0, but the page that was computed from it stays.
pub do_mmap : Env → ℕ → ℕ → ℕ → ℕ → ℕ → ℕ → Space → Space × Result ℕ
do_mmap env addr len prot flags fd_no offset s =
    let pages = page_round_up len in
    if pages == 0
    then (s, err einval)
    else if not (addr == 0)
    then (if not (addr % page_size == 0)
        then (s, err einval)
        else (let page = addr / page_size in
            let addr' =
              if not (mmap_fixed flags) && not (pt_is_hole s.mem page pages) then 0 else addr in
            map_at env page pages prot flags fd_no offset s))
    else (let page = pt_find_hole s.mem pages in
        if page == bad_page
        then (s, err enomem)
        else map_at env page pages prot flags fd_no offset s)

pub mmap_common : Env → ℕ → ℕ → ℕ → ℕ → ℕ → ℕ → Space → Space × Result ℕ
mmap_common env addr len prot flags fd_no offset s =
    if len == 0
    then (s, err einval)
    else if not (prot / 8 == 0)
    then (s, err einval)
    else if mmap_private flags && mmap_shared flags
    then (s, err einval)
    else do_mmap env addr len prot flags fd_no offset s

pub sys_mmap2 : Env → ℕ → ℕ → ℕ → ℕ → ℕ → ℕ → Space → Space × Result ℕ
sys_mmap2 env addr len prot flags fd_no offset s =
    mmap_common env addr len prot flags fd_no (offset * page_size % 2 ^ 32) s

pub sys_munmap : Env → ℕ → ℕ → Space → Space × Result ℕ
sys_munmap env addr len s =
    if not (addr % page_size == 0)
    then (s, err einval)
    else if len == 0
    then (s, err einval)
    else (pt_unmap_always env.host (addr / page_size) (page_round_up len) s, ok 0)

pub flags_set : Space → Mem × Option Errno → Space × Result ℕ
flags_set s (m, none) = (record s { mem = m }, ok 0)
flags_set s (m, some e) = (record s { mem = m }, err e)

pub sys_mprotect : Env → ℕ → ℕ → ℕ → Space → Space × Result ℕ
sys_mprotect env addr len prot s =
    if not (addr % page_size == 0)
    then (s, err einval)
    else if not (prot / 8 == 0)
    then (s, err einval)
    else flags_set s (
        pt_set_flags env.host env.mprotect (addr / page_size) (page_round_up len) (prot_flags prot)
          s.mem)

pub grow_mapping : Env → ℕ → ℕ → ℕ → Flags → Space → Space × Result ℕ
grow_mapping env addr start pages flags s =
    if not (pt_is_hole s.mem start pages)
    then (s, err enomem)
    else elim (pt_map_nothing env.host start pages (env.mmap s.store.next) flags s) [
      | err e ↦ (s, err e)
      | ok t ↦ (t, ok addr)
    ]

-- MREMAP_MAYMOVE_ 1, MREMAP_FIXED_ 2; lengths are rounded down. The loop over the old pages reads the
-- flags of a page just if it has no entry: `none` is that access through a null pointer.
pub sys_mremap : Env → ℕ → ℕ → ℕ → ℕ → Space → Option (Space × Result ℕ)
sys_mremap env addr old_len new_len flags s =
    let page = addr / page_size in
    let old_pages = old_len / page_size in
    let new_pages = new_len / page_size in
    if not (addr % page_size == 0)
    then some (s, err einval)
    else if not (flags / 4 == 0) || bit 1 flags
    then some (s, err einval)
    else if leb new_pages old_pages
    then elim (pt_unmap env.host (page + new_pages) (old_pages - new_pages) s) [
      | none ↦ some (s, err efault)
      | some t ↦ some (t, ok addr)
    ]
    else elim (mem_pt s.mem page) [
      | none ↦ some (s, err efault)
      | some entry ↦
          if not (all_mapped s.mem page old_pages)
          then none
          else if not entry.flags.anonymous
          then some (s, err efault)
          else some (grow_mapping env addr (page + old_pages) (new_pages - old_pages) entry.flags s)
    ]

-- `struct mm`, with the store beside it.
pub record Mm : Type 0 where
  pub space : Space
  pub start_brk : ℕ
  pub brk : ℕ

abbrev pub heap_flags : Flags
heap_flags = record (prot_flags 0) { write = true }

pub grow_heap : Env → ℕ → Mm → Mm
grow_heap env new_brk m =
    let start = page_round_up m.brk in
    let size = (page_round_up new_brk + (2 ^ 32 - start)) % 2 ^ 32 in
    if not (pt_is_hole m.space.mem start size)
    then m
    else elim (pt_map_nothing env.host start size (env.mmap m.space.store.next) heap_flags
        m.space) [ err e ↦ m | ok t ↦ record m { space = t; brk = new_brk } ]

pub sys_brk : Env → ℕ → Mm → Mm × ℕ
sys_brk env new_brk m =
    let m' =
      if ltb new_brk m.start_brk
      then m
      else if ltb m.brk new_brk
      then grow_heap env new_brk m
      else if ltb new_brk m.brk
      then record m {
        space =
            pt_unmap_always env.host (new_brk / page_size) (m.brk / page_size - new_brk / page_size)
              m.space;
        brk = new_brk;
      }
      else record m { brk = new_brk } in
    (m', m'.brk)

-- `struct mmap_arg_struct`
pub record MmapArgs : Type 0 where
  pub addr : ℕ
  pub len : ℕ
  pub prot : ℕ
  pub flags : ℕ
  pub fd : ℕ
  pub offset : ℕ

-- `args` is what `user_get` finds at the address.
pub sys_mmap : Env → Option MmapArgs → Space → Space × Result ℕ
sys_mmap env none s = (s, err efault)
sys_mmap env (some args) s =
    mmap_common env args.addr args.len args.prot args.flags args.fd args.offset s
