-- ===== src/Kernel/Memory/Mapping/Share.antt =====
-- `pt_copy_on_write` of kernel/memory.c.
use codex_for_ipad.Prelude.{
  ◌||◌, not, Bool-cases, ◌%◌, ◌^◌, ℕ, ◌+◌, ◌-◌, ◌<◌, ◌≤◌, ◌≡◌, refl, ap, ◌∙◌, inl, inr, Option,
  none, some, ◌&&◌, arith, ◌==◌, ltb, leb, if◌then◌else◌, Option-cases,
}
use codex_for_ipad.Kernel.Memory.{
  Flags, PtEntry, Mem, Space, Host, mem_pages, mem_pt, mem_changed, pt_unmap_always,
}
use codex_for_ipad.Kernel.Memory.Mapping.{
  assign_page, with_flags, Fork, share, share_page, pt_copy_on_write,
}
use codex_for_ipad.Kernel.Memory.Mapping.Map.{assign_page-exact}
use codex_for_ipad.Kernel.Memory.Table.{mem_pt-put}
use codex_for_ipad.Kernel.Memory.Walk.{each, each-at, each-induction, walk-each}
use codex_for_ipad.Kernel.Memory.Count.{
  holds, refs, refs-put, refs-mem_pt_del, refs-mem_changed, IsSpace,
}
use codex_for_ipad.Kernel.Memory.Unmap.{unmap_always-exact, unmap_always-next}

-- An entry that is written to only after a copy, unless it is shared on purpose.
abbrev pub shared_entry : PtEntry → PtEntry
shared_entry entry =
    with_flags entry (record (entry.flags) { cow = entry.flags.cow || not entry.flags.shared })

share_cow : (flags : Flags) → share flags ≡ record flags { cow = flags.cow || not flags.shared }
unfolding share
share_cow flags = elim (Bool-cases flags.shared) [
  | inl e ↦ ground (arith, e)
  | inr e ↦ ground (arith, e)
]

-- What the source and the copy hold at a page that was `o` in the source and `d` in the copy.
abbrev pub source_entry : Option PtEntry → Option PtEntry
source_entry none = none
source_entry (some entry) = some (shared_entry entry)

abbrev pub copied_entry : Option PtEntry → Option PtEntry → Option PtEntry
copied_entry none d = d
copied_entry (some entry) d = some (shared_entry entry)

abbrev pub IsFork : (ℕ → ℕ) → Fork → Type 0
IsFork extra f = IsSpace (λ b. refs f.src b + extra b) (record { mem = f.dst; store = f.store })

share_page-idle :
    (h : Host) (page : ℕ) (f : Fork) → mem_pt f.src page ≡ none → share_page h page f ≡ f
unfolding share_page
share_page-idle h page f e = rw (e, share_page) refl

refs-pos :
    (m : Mem) (page : ℕ) (entry : PtEntry)
    → page < mem_pages
    → mem_pt m page ≡ some entry
    → 1 ≤ refs m entry.block
refs-pos m page entry lt e =
    let held : holds (mem_pt m page) entry.block ≡ 1 = rw e (ground arith) in
    omega (arith, refs-mem_pt_del m page entry.block lt, held)

-- What the loop has done when it comes to page `i`.
Shared : (ℕ → ℕ) → ℕ → Fork → ℕ → Fork → Type 0
Shared extra start f i t =
    ((j : ℕ)
      → mem_pt t.src j
        ≡ (if leb start j && ltb j i then source_entry (mem_pt f.src j) else mem_pt f.src j))
    × ((j : ℕ)
        → mem_pt t.dst j ≡ (
            if leb start j && ltb j i
            then copied_entry (mem_pt f.src j) (mem_pt f.dst j)
            else mem_pt f.dst j))
    × IsFork extra t

module _ (h : Host) (extra : ℕ → ℕ) (i : ℕ) (t : Fork) (entry : PtEntry) (lt : i < mem_pages)
    (e : mem_pt t.src i ≡ some entry) (v : IsFork extra t) where
  dst : Space
  dst = record { mem = t.dst; store = t.store }

  cleared : Space
  cleared = pt_unmap_always h i 1 dst

  cleared-exact :
      ((j : ℕ) → mem_pt cleared.mem j ≡ (if j == i then none else mem_pt t.dst j))
      × IsSpace (λ b. refs t.src b + extra b) cleared
      × (cleared.store.next ≡ t.store.next)
  unfolding cleared dst
  cleared-exact =
      let done = unmap_always-exact h (λ b. refs t.src b + extra b) i 1 dst (omega arith) v in
      (λ j. ground (arith, done.0 j), done.1, unmap_always-next h i 1 dst (omega arith))

  copied-exact :
      let copied = assign_page i (shared_entry entry) cleared in
      ((j : ℕ)
        → mem_pt copied.mem j ≡ (if j == i then some (shared_entry entry) else mem_pt t.dst j))
      × IsSpace (λ b. refs t.src b + extra b) copied
  copied-exact =
      let done =
        assign_page-exact (λ b. refs t.src b + extra b) i (shared_entry entry) cleared lt
          (ground (arith, cleared-exact.0 i))
          (ground (arith, cleared-exact.2, v.fresh entry.block, refs-pos t.src i entry lt e))
          cleared-exact.1 in
      (λ j. ground (arith, done.0 j, cleared-exact.0 j), done.1)

  shared-exact :
      let u = share_page h i t in
      ((j : ℕ) → mem_pt u.src j ≡ (if j == i then some (shared_entry entry) else mem_pt t.src j))
      × ((j : ℕ) → mem_pt u.dst j ≡ (if j == i then some (shared_entry entry) else mem_pt t.dst j))
      × IsFork extra u
  unfolding share_page cleared dst
  shared-exact =
      rw (e, share_page, share_cow entry.flags)
        (
          λ j. mem_pt-put t.src i j entry (some (shared_entry entry)) e,
          copied-exact.0,
          record {
            counted = λ b. ground (
              arith,
              copied-exact.1.counted b,
              refs-put t.src i b entry (shared_entry entry) lt e refl,
            );
            fresh = λ b le. ground (
              arith,
              copied-exact.1.fresh b,
              refs-put t.src i b entry (shared_entry entry) lt e refl,
            );
          },
        )

share-step :
    (h : Host) (extra : ℕ → ℕ) (start i : ℕ) (f t : Fork)
    → i < mem_pages
    → start ≤ i
    → Shared extra start f i t
    → Shared extra start f (i + 1) (share_page h i t)
unfolding Shared
share-step h extra start i f t lt from (src, dst, v) = elim (Option-cases (mem_pt t.src i)) [
  | inl e ↦
      let here : mem_pt f.src i ≡ none = ground (arith, src i) in
      rw (share_page-idle h i t e) (
        λ j. ground (arith, src j, here, ap (mem_pt f.src)),
        λ j. ground (arith, dst j, here, ap (mem_pt f.src), ap (mem_pt f.dst)),
        v,
      )
  | inr (entry, e) ↦
      let done = shared-exact h extra i t entry lt e v in
      let here : mem_pt f.src i ≡ some entry = ground (arith, src i) in
      (
        λ j. ground (arith, done.0 j, src j, here, ap (mem_pt f.src)),
        λ j. ground (arith, done.1 j, dst j, here, ap (mem_pt f.src)),
        done.2,
      )
]

write-each :
    (h : Host) (start pages : ℕ) (f : Fork)
    → start + pages ≤ mem_pages
    → pt_copy_on_write h start pages f ≡ (
        let t = each (share_page h) pages start f in
        record t { src = mem_changed t.src; dst = mem_changed t.dst })
unfolding pt_copy_on_write
write-each h start pages f inside =
    let whole : (start + pages) % 2 ^ 32 ≡ start + pages = omega arith in
    rw whole (
      ap (λ (t : Fork). record t { src = mem_changed t.src; dst = mem_changed t.dst })
        (walk-each (λ (t : Fork). t.src) (share_page h) (λ j t. share_page-idle h j t) pages start
            (start + pages) f (omega arith) inside
          ∙ each-at (share_page h) (start + pages - start) pages start start f (omega arith) refl))

changed-mem_pt : (m : Mem) (j : ℕ) → mem_pt (mem_changed m) j ≡ mem_pt m j
unfolding mem_pt
changed-mem_pt m j = refl

changed-IsFork :
    (extra : ℕ → ℕ) (t : Fork)
    → IsFork extra t
    → IsFork extra (record t { src = mem_changed t.src; dst = mem_changed t.dst })
changed-IsFork extra t v = record {
  counted = λ b. ground (arith, v.counted b, refs-mem_changed t.src b, refs-mem_changed t.dst b);
  fresh = λ b le. ground (arith, v.fresh b, refs-mem_changed t.src b, refs-mem_changed t.dst b);
}

-- `pt_copy_on_write`: every page that the source maps in the range is mapped to the same bytes in the copy,
-- on both sides to be copied before the next write unless it is a shared mapping; all other pages of
-- both stay as they are; and the reference counts, over both spaces, stay exact. The range must lie
-- inside the address space.
pub copy_on_write-exact :
    (h : Host) (extra : ℕ → ℕ) (start pages : ℕ) (f : Fork)
    → start + pages ≤ mem_pages
    → IsFork extra f
    → ((j : ℕ)
        → mem_pt (pt_copy_on_write h start pages f).src j ≡ (
            if leb start j && ltb j (start + pages)
            then source_entry (mem_pt f.src j)
            else mem_pt f.src j))
      × ((j : ℕ)
          → mem_pt (pt_copy_on_write h start pages f).dst j ≡ (
              if leb start j && ltb j (start + pages)
              then copied_entry (mem_pt f.src j) (mem_pt f.dst j)
              else mem_pt f.dst j))
      × IsFork extra (pt_copy_on_write h start pages f)
unfolding Shared
copy_on_write-exact h extra start pages f inside v =
    let t = each (share_page h) pages start f in
    let done =
      each-induction (Shared extra start f) (share_page h) pages start f
        (λ i u from below s. share-step h extra start i f u (omega arith) from s)
        (λ j. ground arith, λ j. ground arith, v) in
    rw (write-each h start pages f inside) (
      λ j. changed-mem_pt t.src j ∙ done.0 j,
      λ j. changed-mem_pt t.dst j ∙ done.1 j,
      changed-IsFork extra t done.2,
    )
