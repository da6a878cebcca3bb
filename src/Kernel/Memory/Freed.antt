-- ===== src/Kernel/Memory/Freed.antt =====
-- When `pt_unmap_always` of kernel/memory.c gives blocks back.
use codex_for_ipad.Prelude.{
  ℕ, ◌+◌, ◌^◌, ◌<◌, ◌≤◌, ◌≡◌, inl, inr, List, [], ◌∷◌, arith, ◌==◌, if◌then◌else◌, Option-cases,
}
use codex_for_ipad.Kernel.Memory.{
  Store, Space, Host, mem_pages, mem_pt, dec, data_free, data_release, unmap_entry, unmap_page,
  pt_unmap_always,
}
use codex_for_ipad.Kernel.Memory.Walk.{each, each-induction}
use codex_for_ipad.Kernel.Memory.Count.{refs, refs-mem_changed, IsSpace}
use codex_for_ipad.Kernel.Memory.Unmap.{
  unmapped-refs, unmap_entry-IsSpace, release-next, always-each,
}

abbrev pub times : ℕ → List ℕ → ℕ
times b [] = 0
times b (c ∷ l) = (if c == b then 1 else 0) + times b l

-- A block has been freed once if nothing refers to it, and never if something does.
abbrev pub IsFreed : (ℕ → ℕ) → Space → Type 0
IsFreed extra s =
    (b : ℕ)
    → b < s.store.next
    → times b s.store.freed ≡ (if refs s.mem b + extra b == 0 then 1 else 0)

pub record IsExact (extra : ℕ → ℕ) (s : Space) : Type 0 where
  pub space : IsSpace extra s
  pub bounded : (b : ℕ) → refs s.mem b + extra b < 2 ^ 32
  pub freed : IsFreed extra s

release-freed :
    (h : Host) (c b : ℕ) (s : Store)
    → times b (data_release h c s).freed
      ≡ times b s.freed + (if dec (s.blocks c).refcount == 0 then (if c == b then 1 else 0) else 0)
unfolding data_release data_free
release-freed h c b s = ground arith

unmap_page-IsExact :
    (h : Host) (extra : ℕ → ℕ) (page : ℕ) (s : Space)
    → page < mem_pages
    → IsExact extra s
    → IsExact extra (unmap_page h page s)
unfolding unmap_page unmap_entry
unmap_page-IsExact h extra page s lt v = elim (Option-cases (mem_pt s.mem page)) [
  | inl e ↦ rw (e, unmap_page) v
  | inr (entry, e) ↦
      rw (e, unmap_page)
        (record {
          space = unmap_entry-IsSpace h extra page entry s lt e v.space;
          bounded = λ b. ground (arith, v.bounded b, unmapped-refs page b s.mem entry lt e);
          freed = λ b le. ground (
            arith,
            release-next h entry.block s.store,
            release-freed h entry.block b s.store,
            v.freed b,
            v.bounded b,
            v.space.counted b,
            unmapped-refs page b s.mem entry lt e,
          );
        })
]

-- `pt_unmap_always` frees a block exactly when it takes its last reference: if every block has been
-- freed once where nothing refers to it and never where something does, then that is so behind the
-- call as well. The range lies inside the address space, and no block has 2 ^ 32 references.
pub unmap_always-IsFreed :
    (h : Host) (extra : ℕ → ℕ) (start pages : ℕ) (s : Space)
    → start + pages ≤ mem_pages
    → IsExact extra s
    → IsFreed extra (pt_unmap_always h start pages s)
unmap_always-IsFreed h extra start pages s inside v =
    let t = each (unmap_page h) pages start s in
    let w =
      each-induction (λ i t. IsExact extra t) (unmap_page h) pages start s
        (λ i t from below u. unmap_page-IsExact h extra i t (omega arith) u) v in
    rw (always-each h start pages s inside)
      (λ b le. ground (arith, w.freed b, refs-mem_changed t.mem b))
