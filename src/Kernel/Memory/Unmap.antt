-- ===== src/Kernel/Memory/Unmap.antt =====
-- `pt_unmap_always` of kernel/memory.c.
use codex_for_ipad.Prelude.{
  ◌%◌, ◌^◌, ℕ, ◌+◌, ◌-◌, ◌<◌, ◌≤◌, ◌≡◌, refl, ◌∙◌, ap, inl, inr, none, some, ◌&&◌, List, ◌∷◌, arith,
  ◌==◌, ltb, leb, if◌then◌else◌, Option-cases,
}
use codex_for_ipad.Kernel.Memory.{
  Mem, PtEntry, Store, Space, Host, mem_pages, mem_pt, mem_pt_del, dec, data_free, data_release,
  unmap_entry, unmap_page, changed, pt_unmap_always,
}
use codex_for_ipad.Kernel.Memory.Table.{mem_pt-mem_pt_del}
use codex_for_ipad.Kernel.Memory.Walk.{each, each-at, each-induction, walk-each}
use codex_for_ipad.Kernel.Memory.Count.{
  holds, refs, refs-mem_pt_del, refs-mem_changed, refs-invalidated, IsSpace,
}

release-refcount :
    (h : Host) (c b : ℕ) (s : Store)
    → ((data_release h c s).blocks b).refcount
      ≡ (if b == c then dec (s.blocks c).refcount else (s.blocks b).refcount)
unfolding data_release data_free
release-refcount h c b s = ground arith

pub release-next : (h : Host) (c : ℕ) (s : Store) → (data_release h c s).next ≡ s.next
unfolding data_release data_free
release-next h c s = ground arith

unmap_page-idle :
    (h : Host) (page : ℕ) (s : Space) → mem_pt s.mem page ≡ none → unmap_page h page s ≡ s
unfolding unmap_page
unmap_page-idle h page s e = rw (e, unmap_page) refl

invalidated-mem_pt :
    (m : Mem) (l : List ℕ) (j : ℕ) → mem_pt (record m { invalidated = l }) j ≡ mem_pt m j
unfolding mem_pt
invalidated-mem_pt m l j = refl

unmap_page-lookup :
    (h : Host) (page j : ℕ) (s : Space)
    → mem_pt (unmap_page h page s).mem j ≡ (if j == page then none else mem_pt s.mem j)
unfolding unmap_page unmap_entry
unmap_page-lookup h page j s = elim (Option-cases (mem_pt s.mem page)) [
  | inl e ↦ rw (e, unmap_page) (ground (arith, ap (mem_pt s.mem)))
  | inr (entry, e) ↦
      rw (e, unmap_page)
        (mem_pt-mem_pt_del (record (s.mem) { invalidated = page ∷ s.mem.invalidated }) page j
          ∙ rw (invalidated-mem_pt s.mem (page ∷ s.mem.invalidated) j) refl)
]

-- A page table without one page: its block loses the reference.
pub unmapped-refs :
    (page b : ℕ) (m : Mem) (entry : PtEntry)
    → page < mem_pages
    → mem_pt m page ≡ some entry
    → refs (mem_pt_del (record m { invalidated = page ∷ m.invalidated }) page) b
        + holds (some entry) b
      ≡ refs m b
unmapped-refs page b m entry lt e =
    let m' = record m { invalidated = page ∷ m.invalidated } in
    let same = invalidated-mem_pt m (page ∷ m.invalidated) page in
    let held : holds (mem_pt m' page) b ≡ holds (some entry) b = rw (same, e) refl in
    omega (arith, refs-mem_pt_del m' page b lt, refs-invalidated m (page ∷ m.invalidated) b, held)

pub unmap_entry-IsSpace :
    (h : Host) (extra : ℕ → ℕ) (page : ℕ) (entry : PtEntry) (s : Space)
    → page < mem_pages
    → mem_pt s.mem page ≡ some entry
    → IsSpace extra s
    → IsSpace extra (unmap_entry h page entry s)
unfolding unmap_entry
unmap_entry-IsSpace h extra page entry s lt e v = record {
  counted = λ b. ground (
    arith,
    release-refcount h entry.block b s.store,
    v.counted b,
    unmapped-refs page b s.mem entry lt e,
  );
  fresh = λ b le.
      ground (
        arith,
        release-next h entry.block s.store,
        v.fresh b,
        unmapped-refs page b s.mem entry lt e,
      );
}

unmap_page-IsSpace :
    (h : Host) (extra : ℕ → ℕ) (page : ℕ) (s : Space)
    → page < mem_pages
    → IsSpace extra s
    → IsSpace extra (unmap_page h page s)
unfolding unmap_page
unmap_page-IsSpace h extra page s lt v = elim (Option-cases (mem_pt s.mem page)) [
  | inl e ↦ rw (e, unmap_page) v
  | inr (entry, e) ↦ rw (e, unmap_page) (unmap_entry-IsSpace h extra page entry s lt e v)
]

unmap_page-next :
    (h : Host) (page : ℕ) (s : Space) → (unmap_page h page s).store.next ≡ s.store.next
unfolding unmap_page unmap_entry
unmap_page-next h page s = elim (Option-cases (mem_pt s.mem page)) [
  | inl e ↦ rw (e, unmap_page) refl
  | inr (entry, e) ↦ rw (e, unmap_page) (release-next h entry.block s.store)
]

pub always-each :
    (h : Host) (start pages : ℕ) (s : Space)
    → start + pages ≤ mem_pages
    → pt_unmap_always h start pages s ≡ changed (each (unmap_page h) pages start s)
unfolding pt_unmap_always
always-each h start pages s inside =
    let whole : (start + pages) % 2 ^ 32 ≡ start + pages = omega arith in
    rw whole (
      ap changed (
        walk-each (λ (t : Space). t.mem) (unmap_page h) (λ j t. unmap_page-idle h j t) pages start
          (start + pages) s (omega arith) inside
        ∙ each-at (unmap_page h) (start + pages - start) pages start start s (omega arith) refl))

changed-mem_pt : (s : Space) (j : ℕ) → mem_pt (changed s).mem j ≡ mem_pt s.mem j
unfolding mem_pt
changed-mem_pt s j = refl

changed-IsSpace : (extra : ℕ → ℕ) (s : Space) → IsSpace extra s → IsSpace extra (changed s)
changed-IsSpace extra s v = record {
  counted = λ b. ground (arith, v.counted b, refs-mem_changed s.mem b);
  fresh = λ b le. ground (arith, v.fresh b, refs-mem_changed s.mem b);
}

pub unmap_always-next :
    (h : Host) (start pages : ℕ) (s : Space)
    → start + pages ≤ mem_pages
    → (pt_unmap_always h start pages s).store.next ≡ s.store.next
unmap_always-next h start pages s inside = rw (always-each h start pages s inside) (
    each-induction (λ i t. t.store.next ≡ s.store.next) (unmap_page h) pages start s
      (λ i t from below e. unmap_page-next h i t ∙ e) refl)

-- `pt_unmap_always` unmaps exactly the pages of the range, though it skips absent page directories,
-- and keeps every reference count equal to the number of entries that name the block plus the
-- references elsewhere. The range must lie inside the address space.
pub unmap_always-exact :
    (h : Host) (extra : ℕ → ℕ) (start pages : ℕ) (s : Space)
    → start + pages ≤ mem_pages
    → IsSpace extra s
    → ((j : ℕ)
        → mem_pt (pt_unmap_always h start pages s).mem j
          ≡ (if leb start j && ltb j (start + pages) then none else mem_pt s.mem j))
      × IsSpace extra (pt_unmap_always h start pages s)
unmap_always-exact h extra start pages s inside v = rw (always-each h start pages s inside) (
  λ j.
      changed-mem_pt (each (unmap_page h) pages start s) j
      ∙ each-induction
          (λ i t. mem_pt t.mem j ≡ (if leb start j && ltb j i then none else mem_pt s.mem j))
          (unmap_page h) pages start s
          (λ i t from below e. ground (arith, unmap_page-lookup h i j t, e)) (ground arith),
  changed-IsSpace extra (each (unmap_page h) pages start s) (
      each-induction (λ i t. IsSpace extra t) (unmap_page h) pages start s
        (λ i t from below w. unmap_page-IsSpace h extra i t (omega arith) w) v),
)
