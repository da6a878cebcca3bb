-- ===== src/Kernel/Memory/Mapping/Map.antt =====
-- `pt_map` of kernel/memory.c.
use mathlib.Core.Path.{subst}
use codex_for_ipad.Prelude.{
  true, ℕ, zero, suc, ◌+◌, ◌-◌, ◌*◌, ◌%◌, ◌^◌, ◌<◌, ◌≤◌, ◌≡◌, refl, ap, inl, inr, false, Option,
  none, some, ◌&&◌, arith, ◌==◌, ltb, leb, if◌then◌else◌, Bool-cases,
}
use codex_for_ipad.Prelude.Errno.{ok}
use codex_for_ipad.Kernel.Memory.{
  span, Flags, PtEntry, Mem, Space, Host, page_size, mem_pages, mem_pt, is_mapped,
}
use codex_for_ipad.Kernel.Memory.Mapping.{
  clear_page, assign_page, map_pages, new_data, pt_map, pt_map_nothing,
}
use codex_for_ipad.Kernel.Memory.Table.{mem_pt-assign}
use codex_for_ipad.Kernel.Memory.Count.{refs-assign, IsSpace}
use codex_for_ipad.Kernel.Memory.Unmap.{unmap_always-exact, unmap_always-next}

not_mapped : (m : Mem) (page : ℕ) → is_mapped m page ≡ false → mem_pt m page ≡ none
unfolding is_mapped
not_mapped m page e = ground arith

-- A page is free before it is assigned; the other pages and the invariant are kept.
pub clear_page-exact :
    (h : Host) (extra : ℕ → ℕ) (page : ℕ) (s : Space)
    → page < mem_pages
    → IsSpace extra s
    → ((j : ℕ) → mem_pt (clear_page h page s).mem j ≡ (if j == page then none else mem_pt s.mem j))
      × IsSpace extra (clear_page h page s)
      × ((clear_page h page s).store.next ≡ s.store.next)
clear_page-exact h extra page s lt v = elim (Bool-cases (is_mapped s.mem page)) [
  | inl mapped ↦
      let done = unmap_always-exact h extra page 1 s (omega arith) v in
      rw mapped (λ j. ground (arith, done.0 j), done.1, unmap_always-next h page 1 s (omega arith))
  | inr free ↦ rw free (λ j. ground (arith, ap (mem_pt s.mem), not_mapped s.mem page free), v, refl)
]

pub assign_page-exact :
    (extra : ℕ → ℕ) (page : ℕ) (entry : PtEntry) (s : Space)
    → page < mem_pages
    → mem_pt s.mem page ≡ none
    → entry.block < s.store.next
    → IsSpace extra s
    → ((j : ℕ)
        → mem_pt (assign_page page entry s).mem j
          ≡ (if j == page then some entry else mem_pt s.mem j))
      × IsSpace extra (assign_page page entry s)
      × ((assign_page page entry s).store.next ≡ s.store.next)
unfolding assign_page
assign_page-exact extra page entry s lt e old v = (
  λ j. mem_pt-assign s.mem page j (some entry),
  record {
    counted = λ b. ground (arith, v.counted b, refs-assign s.mem page b entry lt e);
    fresh = λ b le. ground (arith, v.fresh b, refs-assign s.mem page b entry lt e);
  },
  refl,
)

map_pages-exact :
    (h : Host) (extra : ℕ → ℕ) (b : ℕ) (flags : Flags) (k page offset : ℕ) (s : Space)
    → page + k ≤ mem_pages
    → b < s.store.next
    → IsSpace extra s
    → ((j : ℕ)
        → mem_pt (map_pages h b flags k page offset s).mem j ≡ (
            if leb page j && ltb j (page + k)
            then some
                (record { block = b; offset = offset + (j - page) * page_size; flags = flags })
            else mem_pt s.mem j))
      × IsSpace extra (map_pages h b flags k page offset s)
unfolding map_pages
map_pages-exact h extra b flags zero page offset s inside old v = (λ j. ground arith, v)
map_pages-exact h extra b flags (suc k) page offset s inside old v =
    let entry : PtEntry = record { block = b; offset = offset; flags = flags } in
    let clear = clear_page-exact h extra page s (omega arith) v in
    let s' = clear_page h page s in
    let put =
      assign_page-exact extra page entry s' (omega arith) (ground (arith, clear.0 page))
        (ground (arith, clear.2)) clear.1 in
    let ih =
      map_pages-exact h extra b flags k (page + 1) (offset + page_size) (assign_page page entry s')
        (omega arith) (ground (arith, put.2, clear.2)) put.1 in
    (λ j. ground (arith, ih.0 j, put.0 j, clear.0 j), ih.1)

new_data-IsSpace :
    (extra : ℕ → ℕ) (memory size : ℕ) (s : Space)
    → IsSpace extra s
    → IsSpace extra (record s { store = new_data memory size s.store })
new_data-IsSpace extra memory size s v = record {
  counted = λ b. ground (arith, v.counted b, v.fresh b);
  fresh = λ b le. v.fresh b (omega arith);
}

-- `pt_map`, if it succeeds, maps exactly the pages of the range to one new block, each to its own part
-- of the host's memory behind the offset and with the flags given; every page outside keeps its entry,
-- and the reference counts stay exact. The range must lie inside the address space.
pub pt_map-exact :
    (h : Host) (extra : ℕ → ℕ) (start pages : ℕ) (memory : Option ℕ) (offset : ℕ) (flags : Flags)
    (s t : Space)
    → start + pages ≤ mem_pages
    → IsSpace extra s
    → pt_map h start pages memory offset flags s ≡ ok t
    → ((j : ℕ)
        → mem_pt t.mem j ≡ (
            if leb start j && ltb j (start + pages)
            then some (record {
              block = s.store.next;
              offset = offset + (j - start) * page_size;
              flags = flags;
            })
            else mem_pt s.mem j))
      × IsSpace extra t
unfolding pt_map
pt_map-exact h extra start pages none offset flags s t inside v e = absurd (ground arith)
pt_map-exact h extra start pages (some memory) offset flags s t inside v e =
    let s' = record s { store = new_data memory (pages * page_size % 2 ^ 32 + offset) s.store } in
    let whole : span start pages ≡ pages = omega arith in
    let made =
      map_pages-exact h extra s.store.next flags pages start offset s' inside (omega arith)
        (new_data-IsSpace extra memory (pages * page_size % 2 ^ 32 + offset) s v) in
    let same : map_pages h s.store.next flags pages start offset s' ≡ t =
      ground (arith, e, whole) in
    subst
      (λ u.
        ((j : ℕ)
          → mem_pt u.mem j ≡ (
              if leb start j && ltb j (start + pages)
              then some (record {
                block = s.store.next;
                offset = offset + (j - start) * page_size;
                flags = flags;
              })
              else mem_pt s.mem j))
        × IsSpace extra u)
      same made

pub map_nothing-pt_map :
    (h : Host) (start pages : ℕ) (memory : Option ℕ) (flags : Flags) (s : Space)
    → 0 < pages
    → pt_map_nothing h start pages memory flags s
      ≡ pt_map h start pages memory 0 (record flags { anonymous = true }) s
unfolding pt_map_nothing
map_nothing-pt_map h start zero memory flags s lt = absurd (omega arith)
map_nothing-pt_map h start (suc pages) memory flags s lt = refl

pub map_nothing-empty :
    (h : Host) (start : ℕ) (memory : Option ℕ) (flags : Flags) (s : Space)
    → pt_map_nothing h start 0 memory flags s ≡ ok s
unfolding pt_map_nothing
map_nothing-empty h start memory flags s = refl

pub pt_map-succeeds :
    (h : Host) (start pages memory offset : ℕ) (flags : Flags) (s : Space)
    → h.malloc ≡ true
    → (t : Space) × (pt_map h start pages (some memory) offset flags s ≡ ok t)
unfolding pt_map
pt_map-succeeds h start pages memory offset flags s e = rw (e, pt_map) (_, refl)
