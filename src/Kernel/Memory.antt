-- ===== src/Kernel/Memory.antt =====
-- kernel/memory.c and kernel/memory.h: page tables, and the blocks of host memory that their entries
-- share. Blocks and the host's memory are named by numbers. That `malloc` and the host's `mmap` succeed is
-- an argument; the host's `munmap` does.
pub mod Walk
pub mod Table
pub mod Mapping
pub mod Count
pub mod Unmap
pub mod Freed
pub mod Hole
pub mod Fault
pub mod Tests
use codex_for_ipad.Prelude.{
  ℕ, zero, suc, ◌+◌, ◌-◌, ◌*◌, ◌%◌, ◌/◌, ◌^◌, Bool, true, false, not, ◌&&◌, ◌||◌, Option, none,
  some, List, [], ◌∷◌, ◌==◌, ltb, leb, if◌then◌else◌,
}
use codex_for_ipad.Prelude.Errno.{Errno, enomem, efault, Result, ok, err}

-- A word of page flags by its bits P_READ to P_COW, P_ANONYMOUS and P_SHARED.
pub record Flags : Type 0 where
  pub read : Bool
  pub write : Bool
  pub exec : Bool
  pub growsdown : Bool
  pub cow : Bool
  pub anonymous : Bool
  pub shared : Bool

-- `struct pt_entry` whose `data` is the block of this number.
pub record PtEntry : Type 0 where
  pub block : ℕ
  pub offset : ℕ
  pub flags : Flags

-- `struct mem`: directories of entries, of which those with no block are `none`; the change count;
-- and the pages whose translated code has been thrown away.
pub record Mem : Type 0 where
  pub pgdir : ℕ → Option (ℕ → Option PtEntry)
  pub pgdir_used : ℕ
  pub changes : ℕ
  pub invalidated : List ℕ

-- `struct data`
pub record Data : Type 0 where
  pub memory : ℕ
  pub size : ℕ
  pub refcount : ℕ
  pub fd : Option ℕ
  pub file_offset : ℕ

-- The blocks, the first number that none has had, the bytes of the host's memory, the blocks that have been
-- freed, the host's memory that has been unmapped, and the files that have been closed with a block or
-- retained for one.
pub record Store : Type 0 where
  pub blocks : ℕ → Data
  pub next : ℕ
  pub bytes : ℕ → ℕ → ℕ
  pub freed : List ℕ
  pub munmapped : List ℕ
  pub closed : List ℕ
  pub retained : List ℕ

-- An address space beside the store.
pub record Space : Type 0 where
  pub mem : Mem
  pub store : Store

-- `vdso_data`, which was not mapped; whether `malloc` succeeds; what a failed call leaves in `errno`.
pub record Host : Type 0 where
  pub vdso_data : ℕ
  pub malloc : Bool
  pub errno : Errno

abbrev pub page_size : ℕ
page_size = 4096

abbrev pub mem_pages : ℕ
mem_pages = 2 ^ 20

abbrev pub update {ℓ} : {A : Type ℓ} → (ℕ → A) → ℕ → A → ℕ → A
update f k v j = if j == k then v else f j

-- `atomic_uint`
abbrev pub inc : ℕ → ℕ
inc n = (n + 1) % 2 ^ 32

abbrev pub dec : ℕ → ℕ
dec n = (n + (2 ^ 32 - 1)) % 2 ^ 32

abbrev pub pgdir_top : ℕ → ℕ
pgdir_top page = page / 1024

abbrev pub pgdir_bottom : ℕ → ℕ
pgdir_bottom page = page % 1024

unfoldable pub mem_pt : Mem → ℕ → Option PtEntry
mem_pt m page = elim (m.pgdir (pgdir_top page)) [ none ↦ none | some dir ↦ dir (pgdir_bottom page) ]

-- The directory for a page, made if there is none.
unfoldable pub mem_pt_new : Mem → ℕ → Mem
mem_pt_new m page = elim (m.pgdir (pgdir_top page)) [
  | none ↦ record m {
    pgdir = update m.pgdir (pgdir_top page) (some (λ i. none));
    pgdir_used = m.pgdir_used + 1;
  }
  | some dir ↦ m
]

-- An assignment through the pointer that `mem_pt` or `mem_pt_new` returned.
unfoldable pub put_pt : Mem → ℕ → Option PtEntry → Mem
put_pt m page entry = elim (m.pgdir (pgdir_top page)) [
  | none ↦ m
  | some dir ↦ record m {
    pgdir = update m.pgdir (pgdir_top page) (some (update dir (pgdir_bottom page) entry));
  }
]

unfoldable pub mem_pt_del : Mem → ℕ → Mem
mem_pt_del m page = elim (mem_pt m page) [ none ↦ m | some entry ↦ put_pt m page none ]

-- The loop of `mem_next_page`, on the number of directories.
unfoldable pub skip_dirs : ℕ → Mem → ℕ → ℕ
skip_dirs zero m page = page
skip_dirs (suc k) m page =
    let rest = skip_dirs k m (page - pgdir_bottom page + 1024) in
    if ltb page mem_pages
    then elim (m.pgdir (pgdir_top page)) [ none ↦ rest | some dir ↦ page ]
    else page

unfoldable pub mem_next_page : Mem → ℕ → ℕ
mem_next_page m page = if leb mem_pages (page + 1) then page + 1 else skip_dirs 1024 m (page + 1)

-- `for (page_t page = ...; page < end; mem_next_page(mem, &page))`
unfoldable pub walk {ℓ} : {S : Type ℓ} → (S → Mem) → (ℕ → S → S) → ℕ → ℕ → ℕ → S → S
walk mem body zero page end s = s
walk mem body (suc k) page end s =
    let s' = body page s in
    let rest = walk mem body k (mem_next_page (mem s') page) end s' in
    if ltb page end then rest else s

abbrev pub mem_changed : Mem → Mem
mem_changed m = record m { changes = m.changes + 1 }

unfoldable pub is_mapped : Mem → ℕ → Bool
is_mapped m page = elim (mem_pt m page) [ none ↦ false | some entry ↦ true ]

-- How many turns a loop over `page < start + pages` has, on 32 bits.
abbrev pub span : ℕ → ℕ → ℕ
span start pages = (start + pages) % 2 ^ 32 - start

-- The loop of `pt_is_hole`.
pub none_mapped : Mem → ℕ → ℕ → Bool
none_mapped m start zero = true
none_mapped m start (suc pages) =
    let rest = none_mapped m (start + 1) pages in if is_mapped m start then false else rest

pub pt_is_hole : Mem → ℕ → ℕ → Bool
pt_is_hole m start pages = none_mapped m start (span start pages)

-- BAD_PAGE
abbrev pub bad_page : ℕ
bad_page = 65536

-- The loop of `pt_find_hole` at the page 0x40000 + k.
unfoldable pub find_hole_loop : Mem → ℕ → ℕ → Bool → ℕ → ℕ
find_hole_loop m size zero in_hole hole_end = bad_page
find_hole_loop m size (suc k) in_hole hole_end =
    let page = 262144 + suc k in
    let hole_end' = if not in_hole && not (is_mapped m page) then page + 1 else hole_end in
    let behind = find_hole_loop m size k false hole_end' in
    let within = find_hole_loop m size k true hole_end' in
    if is_mapped m page then behind else if hole_end' - page == size then page else within

-- From 0xf7ffd down.
unfoldable pub pt_find_hole : Mem → ℕ → ℕ
pt_find_hole m size = find_hole_loop m size 753661 false 0

abbrev pub set_refcount : Store → ℕ → ℕ → Store
set_refcount s b n = record s { blocks = update s.blocks b (record (s.blocks b) { refcount = n }) }

-- The last reference to a block is gone.
unfoldable pub data_free : Host → ℕ → Store → Store
data_free h b s = record s {
  freed = b ∷ s.freed;
  munmapped =
      if (s.blocks b).memory == h.vdso_data then s.munmapped else (s.blocks b).memory ∷ s.munmapped;
  closed = elim (s.blocks b).fd [ none ↦ s.closed | some fd ↦ fd ∷ s.closed ];
}

unfoldable pub data_release : Host → ℕ → Store → Store
data_release h b s =
    let n = dec (s.blocks b).refcount in
    let s' = set_refcount s b n in if n == 0 then data_free h b s' else s'

-- A page that is mapped loses its entry and the reference that the entry held.
unfoldable pub unmap_entry : Host → ℕ → PtEntry → Space → Space
unmap_entry h page pt s = record {
  mem = mem_pt_del (record (s.mem) { invalidated = page ∷ s.mem.invalidated }) page;
  store = data_release h pt.block s.store;
}

-- The body of the loop of `pt_unmap_always`.
unfoldable pub unmap_page : Host → ℕ → Space → Space
unmap_page h page s = elim (mem_pt s.mem page) [ none ↦ s | some pt ↦ unmap_entry h page pt s ]

abbrev pub changed : Space → Space
changed s = record s { mem = mem_changed s.mem }

unfoldable pub pt_unmap_always : Host → ℕ → ℕ → Space → Space
pt_unmap_always h start pages s =
    changed (walk (λ (t : Space). t.mem) (unmap_page h) pages start ((start + pages) % 2 ^ 32) s)
