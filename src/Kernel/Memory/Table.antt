-- ===== src/Kernel/Memory/Table.antt =====
-- The entries of a page table after the assignments of kernel/memory.c.
use codex_for_ipad.Prelude.{
  ℕ, ◌≡◌, refl, ap, inl, inr, true, false, Option, none, some, arith, ◌==◌, if◌then◌else◌,
  Bool-cases, Option-cases,
}
use codex_for_ipad.Kernel.Memory.{
  Mem, PtEntry, pgdir_top, pgdir_bottom, mem_pt, mem_pt_new, put_pt, mem_pt_del,
}

same_page :
    (i j : ℕ)
    → ((pgdir_top i == pgdir_top j) ≡ true)
    → ((pgdir_bottom i == pgdir_bottom j) ≡ true)
    → i ≡ j
same_page i j e e' = ground arith

-- Making a directory maps nothing.
pub mem_pt-mem_pt_new : (m : Mem) (page j : ℕ) → mem_pt (mem_pt_new m page) j ≡ mem_pt m j
unfolding mem_pt mem_pt_new
mem_pt-mem_pt_new m page j = elim (Option-cases (m.pgdir (pgdir_top page))) [
  | inr (dir, e) ↦ rw (e, mem_pt_new) refl
  | inl e ↦ elim (Bool-cases (pgdir_top j == pgdir_top page)) [
    | inl same ↦
        let top : pgdir_top j ≡ pgdir_top page = ground arith in ground (arith, ap m.pgdir top)
    | inr other ↦ ground arith
  ]
]

put_pt-lookup :
    (m : Mem) (page j : ℕ) (dir : ℕ → Option PtEntry) (e : Option PtEntry)
    → m.pgdir (pgdir_top page) ≡ some dir
    → mem_pt (put_pt m page e) j ≡ (if j == page then e else mem_pt m j)
unfolding mem_pt put_pt
put_pt-lookup m page j dir e d = elim (Bool-cases (pgdir_top j == pgdir_top page)) [
  | inl same ↦
      let top : pgdir_top j ≡ pgdir_top page = ground arith in
      elim (Bool-cases (pgdir_bottom j == pgdir_bottom page)) [
        | inl same' ↦
            let whole : j ≡ page = same_page j page same same' in
            let test : (j == page) ≡ true = ground arith in
            rw (d, put_pt, test, mem_pt, same, same') refl
        | inr other ↦
            let test : (j == page) ≡ false = ground arith in
            rw (d, put_pt, test, mem_pt, same, other, top, d) refl
      ]
  | inr other ↦
      let test : (j == page) ≡ false = ground arith in rw (d, put_pt, test, mem_pt, other) refl
]

new-directory :
    (m : Mem) (page : ℕ)
    → (dir : ℕ → Option PtEntry) × ((mem_pt_new m page).pgdir (pgdir_top page) ≡ some dir)
unfolding mem_pt_new
new-directory m page = elim (Option-cases (m.pgdir (pgdir_top page))) [
  | inr (dir, e) ↦ rw (e, mem_pt_new) (dir, e)
  | inl e ↦
      let test : (pgdir_top page == pgdir_top page) ≡ true = ground arith in
      rw (e, mem_pt_new, test) (_, refl)
]

mapped-directory :
    (m : Mem) (page : ℕ) (entry : PtEntry)
    → mem_pt m page ≡ some entry
    → (dir : ℕ → Option PtEntry) × (m.pgdir (pgdir_top page) ≡ some dir)
unfolding mem_pt
mapped-directory m page entry e = elim (Option-cases (m.pgdir (pgdir_top page))) [
  | inr found ↦ found
  | inl absent ↦ absurd (ground arith)
]

-- An entry made and assigned is found at its page, and all others are as before.
pub mem_pt-assign :
    (m : Mem) (page j : ℕ) (e : Option PtEntry)
    → mem_pt (put_pt (mem_pt_new m page) page e) j ≡ (if j == page then e else mem_pt m j)
mem_pt-assign m page j e =
    let (dir, d) = new-directory m page in
    rw (put_pt-lookup (mem_pt_new m page) page j dir e d, mem_pt-mem_pt_new m page j) refl

pub mem_pt-put :
    (m : Mem) (page j : ℕ) (entry : PtEntry) (e : Option PtEntry)
    → mem_pt m page ≡ some entry
    → mem_pt (put_pt m page e) j ≡ (if j == page then e else mem_pt m j)
mem_pt-put m page j entry e h =
    let (dir, d) = mapped-directory m page entry h in put_pt-lookup m page j dir e d

pub mem_pt-mem_pt_del :
    (m : Mem) (page j : ℕ) → mem_pt (mem_pt_del m page) j ≡ (if j == page then none else mem_pt m j)
unfolding mem_pt_del
mem_pt-mem_pt_del m page j = elim (Option-cases (mem_pt m page)) [
  | inl e ↦ ground (arith, ap (mem_pt m))
  | inr (entry, e) ↦ rw (e, mem_pt_del) (mem_pt-put m page j entry none e)
]
