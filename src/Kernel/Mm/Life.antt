-- ===== src/Kernel/Mm/Life.antt =====
-- Copying and releasing the address spaces of kernel/mmap.c.
use codex_for_ipad.Prelude.{ℕ, ◌+◌, ◌-◌, ◌%◌, ◌^◌, ◌<◌, ◌≡◌, refl, true, Option, none, some, arith}
use codex_for_ipad.Kernel.Memory.{Mem, Store, Space, Host, mem_pages, mem_pt, pt_unmap_always}
use codex_for_ipad.Kernel.Memory.Count.{refs, refs-none, IsSpace}
use codex_for_ipad.Kernel.Memory.Unmap.{unmap_always-exact}
use codex_for_ipad.Kernel.Memory.Mapping.{Fork, pt_copy_on_write}
use codex_for_ipad.Kernel.Memory.Mapping.Share.{IsFork, source_entry, copy_on_write-exact}
use codex_for_ipad.Kernel.Mm.{
  mem_init, mem_destroy, MmStruct, retain_file, close_file, copied, mm_copy, mm_release,
}

init-refs : (b : ℕ) → refs mem_init b ≡ 0
unfolding mem_pt
init-refs b = refs-none mem_init b (λ j lt. refl)

-- `mm_copy` with memory and an executable: every page of the old space is mapped to the same bytes in the new
-- one, on both sides to be copied before the next write unless it is a shared mapping, the break is
-- the same, the new space has one owner, and the reference counts over both spaces are exact.
pub mm_copy-IsFork :
    (h : Host) (extra : ℕ → ℕ) (mm : MmStruct) (s : Store) (fd : ℕ)
    → IsSpace extra (record { mem = mm.mem; store = s })
    → h.malloc ≡ true
    → mm.exefile ≡ some fd
    → (old : MmStruct) × (new : MmStruct) × (t : Store) × (mm_copy h mm s ≡ copied old new t)
      × (new.brk ≡ mm.brk)
      × (new.refcount ≡ 1)
      × ((j : ℕ) → j < mem_pages → mem_pt old.mem j ≡ source_entry (mem_pt mm.mem j))
      × ((j : ℕ) → j < mem_pages → mem_pt new.mem j ≡ source_entry (mem_pt mm.mem j))
      × IsFork extra (record { src = old.mem; dst = new.mem; store = t })
unfolding mm_copy mem_pt
mm_copy-IsFork h extra mm s fd v room file =
    let f : Fork = record { src = mm.mem; dst = mem_init; store = retain_file fd s } in
    let start : IsFork extra f = record {
      counted = λ b. ground (arith, v.counted b, init-refs b);
      fresh = λ b le. ground (arith, v.fresh b, init-refs b);
    } in
    let shared = copy_on_write-exact h extra 0 mem_pages f (omega arith) start in
    let t = pt_copy_on_write h 0 mem_pages f in
    rw (room, file)
      (
        record mm { mem = t.src },
        record mm { mem = t.dst; refcount = 1 },
        t.store,
        refl,
        refl,
        refl,
        λ j lt. ground (arith, shared.0 j),
        λ j lt. ground (arith, shared.1 j),
        shared.2,
      )

closed-IsSpace :
    (extra : ℕ → ℕ) (m : Mem) (file : Option ℕ) (s : Store)
    → IsSpace extra (record { mem = m; store = s })
    → IsSpace extra (record { mem = m; store = close_file file s })
closed-IsSpace extra m none s v = v
closed-IsSpace extra m (some fd) s v = record { counted = v.counted; fresh = v.fresh }

destroy-counts :
    (h : Host) (extra : ℕ → ℕ) (s : Space) (b : ℕ)
    → IsSpace extra s
    → ((mem_destroy h s).blocks b).refcount ≡ extra b % 2 ^ 32
unfolding mem_destroy
destroy-counts h extra s b v =
    let done = unmap_always-exact h extra 0 mem_pages s (omega arith) v in
    let gone : refs (pt_unmap_always h 0 mem_pages s).mem b ≡ 0 =
      refs-none (pt_unmap_always h 0 mem_pages s).mem b (λ j lt. ground (arith, done.0 j)) in
    ground (arith, done.1.counted b, gone)

-- The last owner's `mm_release` gives back every reference that the space has held: what is left is counted by
-- the references from elsewhere alone.
pub release-last :
    (h : Host) (extra : ℕ → ℕ) (mm : MmStruct) (s : Store)
    → IsSpace extra (record { mem = mm.mem; store = s })
    → mm.refcount ≡ 1
    → ((mm_release h mm s).0 ≡ none)
      × ((b : ℕ) → ((mm_release h mm s).1.blocks b).refcount ≡ extra b % 2 ^ 32)
unfolding mm_release
release-last h extra mm s v one =
    let s' = close_file mm.exefile s in
    let last : (mm.refcount + (2 ^ 32 - 1)) % 2 ^ 32 ≡ 0 = omega arith in
    rw last (
      refl,
      λ b.
          destroy-counts h extra (record { mem = mm.mem; store = s' }) b
            (closed-IsSpace extra mm.mem mm.exefile s v),
    )
