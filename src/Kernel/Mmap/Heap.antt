-- ===== src/Kernel/Mmap/Heap.antt =====
-- `brk` of kernel/mmap.c.
use mathlib.Core.Path.{subst}
use codex_for_ipad.Prelude.{
  ℕ, zero, suc, ◌+◌, ◌-◌, ◌%◌, ◌/◌, ◌^◌, ◌<◌, ◌≤◌, ◌≡◌, refl, sym, ◌∙◌, ◌⊎◌, inl, inr, true, false,
  not, Option, none, arith, ltb, if◌then◌else◌, Bool-cases,
}
use codex_for_ipad.Prelude.Errno.{Result, ok, err}
use codex_for_ipad.Kernel.Memory.{Flags, Space, Host, page_size, mem_pages, mem_pt, pt_is_hole}
use codex_for_ipad.Kernel.Memory.Count.{IsSpace}
use codex_for_ipad.Kernel.Memory.Hole.{is_hole-IsFree, IsFree}
use codex_for_ipad.Kernel.Memory.Unmap.{unmap_always-exact}
use codex_for_ipad.Kernel.Memory.Mapping.{pt_map_nothing}
use codex_for_ipad.Kernel.Memory.Mapping.Map.{map_nothing-empty}
use codex_for_ipad.Kernel.Mmap.{Env, page_round_up, Mm, heap_flags, grow_heap, sys_brk}
use codex_for_ipad.Kernel.Mmap.Laws.{Mapped, nothing-Mapped}

-- No page at all may be asked for.
heap-Mapped :
    (h : Host) (extra : ℕ → ℕ) (page pages : ℕ) (memory : Option ℕ) (flags : Flags) (s t : Space)
    → page + pages ≤ mem_pages
    → IsSpace extra s
    → pt_map_nothing h page pages memory flags s ≡ ok t
    → Mapped extra page pages flags s t
heap-Mapped h extra page zero memory flags s t fits v e =
    let same : s ≡ t = ground (arith, sym (map_nothing-empty h page memory flags s) ∙ e) in
    subst (Mapped extra page zero flags s) same
      (record { inside = λ j lo hi. absurd (omega arith); outside = λ j o. refl; space = v })
heap-Mapped h extra page (suc pages) memory flags s t fits v e =
    nothing-Mapped h extra page (suc pages) memory flags s t (omega arith) fits v e

-- What the growth of the heap does: all or nothing.
HeapGrown : (ℕ → ℕ) → ℕ → Mm → Mm → Type 0
HeapGrown extra new_brk m t =
    let start = page_round_up m.brk in
    let pages = page_round_up new_brk - start in
    (t ≡ m)
    ⊎ ((t.brk ≡ new_brk)
        × IsFree m.space.mem start pages
        × Mapped extra start pages heap_flags m.space t.space)

grow-run :
    (env : Env) (new_brk n : ℕ) (m : Mm)
    → (page_round_up new_brk + (2 ^ 32 - page_round_up m.brk)) % 2 ^ 32 ≡ n
    → grow_heap env new_brk m ≡ (
        if not (pt_is_hole m.space.mem (page_round_up m.brk) n)
        then m
        else elim (pt_map_nothing env.host
            (page_round_up m.brk)
            n
            (env.mmap m.space.store.next)
            heap_flags
            m.space) [ err e ↦ m | ok t ↦ record m { space = t; brk = new_brk } ])
unfolding grow_heap
grow-run env new_brk n m e = rw (← e) refl

grow-HeapGrown :
    (env : Env) (extra : ℕ → ℕ) (new_brk : ℕ) (m : Mm)
    → m.brk < new_brk
    → new_brk + page_size ≤ 2 ^ 32
    → IsSpace extra m.space
    → HeapGrown extra new_brk m (grow_heap env new_brk m)
unfolding HeapGrown
grow-HeapGrown env extra new_brk m up small v =
    rw (grow-run env new_brk pages m (omega arith))
      (elim (Bool-cases (pt_is_hole m.space.mem start pages)) [
        | inr taken ↦ rw taken (inl refl)
        | inl free ↦ rw free (
            mapped (is_hole-IsFree m.space.mem start pages (omega arith) free)
              (pt_map_nothing env.host start pages (env.mmap m.space.store.next) heap_flags m.space)
              refl)
      ])
  where
    start : ℕ
    start = page_round_up m.brk

    pages : ℕ
    pages = page_round_up new_brk - start

    mapped :
        IsFree m.space.mem start pages
        → (r : Result Space)
        → pt_map_nothing env.host start pages (env.mmap m.space.store.next) heap_flags m.space ≡ r
        → HeapGrown extra new_brk m
            (elim r [ err e ↦ m | ok t ↦ record m { space = t; brk = new_brk } ])
    mapped hole (err x) e = inl refl
    mapped hole (ok t) e = inr (
      refl,
      hole,
      heap-Mapped env.host extra start pages (env.mmap m.space.store.next) heap_flags m.space t
          (omega arith) v e,
    )

brk-run :
    (env : Env) (new_brk : ℕ) (m : Mm)
    → m.start_brk ≤ new_brk
    → m.brk < new_brk
    → sys_brk env new_brk m ≡ (grow_heap env new_brk m, (grow_heap env new_brk m).brk)
unfolding sys_brk
brk-run env new_brk m low up =
    let test : ltb new_brk m.start_brk ≡ false = ground arith in
    let test' : ltb m.brk new_brk ≡ true = ground arith in rw (test, test') refl

-- `brk` above the present break and below the last page: it grows the heap by exactly the pages that the new
-- break needs, none of which was mapped, and returns the new break; or it changes nothing and
-- returns the old one.
pub brk-grows :
    (env : Env) (extra : ℕ → ℕ) (new_brk : ℕ) (m : Mm)
    → m.start_brk ≤ new_brk
    → m.brk < new_brk
    → new_brk + page_size ≤ 2 ^ 32
    → IsSpace extra m.space
    → let t = (sys_brk env new_brk m).0 in
      let start = page_round_up m.brk in
      let pages = page_round_up new_brk - start in
      ((sys_brk env new_brk m).1 ≡ t.brk)
      × ((t ≡ m)
          ⊎ ((t.brk ≡ new_brk)
              × IsFree m.space.mem start pages
              × Mapped extra start pages heap_flags m.space t.space))
unfolding HeapGrown
brk-grows env extra new_brk m low up small v =
    rw (brk-run env new_brk m low up) (refl, grow-HeapGrown env extra new_brk m up small v)

-- A bug: `brk` below the present break unmaps from the page of the new break on, when they are on different
-- pages, though the bytes of that page in front of the new break still belong to the heap.
pub brk_shrink_unmaps :
    (env : Env) (extra : ℕ → ℕ) (new_brk : ℕ) (m : Mm)
    → m.start_brk ≤ new_brk
    → new_brk / page_size < m.brk / page_size
    → m.brk < 2 ^ 32
    → IsSpace extra m.space
    → let t = (sys_brk env new_brk m).0 in
      (t.brk ≡ new_brk) × (mem_pt t.space.mem (new_brk / page_size) ≡ none)
unfolding sys_brk
brk_shrink_unmaps env extra new_brk m low down small v =
    let test : ltb new_brk m.start_brk ≡ false = ground arith in
    let test' : ltb m.brk new_brk ≡ false = ground arith in
    let test'' : ltb new_brk m.brk ≡ true = ground arith in
    let first = new_brk / page_size in
    let done =
      unmap_always-exact env.host extra first (m.brk / page_size - first) m.space (omega arith) v in
    rw (test, test', test'') (refl, ground (arith, done.0 first))
