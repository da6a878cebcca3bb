-- ===== src/Kernel/Memory/Mapping/Flag.antt =====
-- `pt_set_flags` of kernel/memory.c.
use mathlib.Core.Path.{subst}
use codex_for_ipad.Prelude.{
  ◌<◌, ◌^◌, ℕ, zero, suc, ◌+◌, ◌≡◌, refl, sym, ap, ◌∙◌, inl, inr, Bool, true, false, not, Option,
  none, some, ◌&&◌, arith, ltb, leb, if◌then◌else◌, Bool-cases, Option-cases,
}
use codex_for_ipad.Prelude.Errno.{Errno, enomem}
use codex_for_ipad.Kernel.Memory.{span, Flags, PtEntry, Mem, Host, mem_pt, put_pt, mem_changed}
use codex_for_ipad.Kernel.Memory.Mapping.{
  with_flags, increases, all_mapped, flag_pages, pt_set_flags,
}
use codex_for_ipad.Kernel.Memory.Table.{mem_pt-put}

abbrev pub flagged : Flags → Option PtEntry → Option PtEntry
flagged flags none = none
flagged flags (some entry) = some (with_flags entry flags)

abbrev pub Flagged : Flags → ℕ → ℕ → Mem → Mem → Type 0
Flagged flags start pages m t =
    (j : ℕ)
    → mem_pt t j
      ≡ (if leb start j && ltb j (start + pages) then flagged flags (mem_pt m j) else mem_pt m j)

abbrev flag_page : ℕ → PtEntry → Flags → Mem → Mem
flag_page page entry flags m = put_pt m page (some (with_flags entry flags))

step-free :
    (h : Host) (mprotect : ℕ → Bool) (flags : Flags) (k page : ℕ) (m : Mem)
    → mem_pt m page ≡ none
    → flag_pages h mprotect flags (suc k) page m ≡ flag_pages h mprotect flags k (page + 1) m
unfolding flag_pages
step-free h mprotect flags k page m e = rw (e, flag_pages) refl

step-mapped :
    (h : Host) (mprotect : ℕ → Bool) (flags : Flags) (k page : ℕ) (entry : PtEntry) (m : Mem)
    → mem_pt m page ≡ some entry
    → flag_pages h mprotect flags (suc k) page m ≡ (
        if increases flags entry.flags && not (mprotect page)
        then (flag_page page entry flags m, some h.errno)
        else flag_pages h mprotect flags k (page + 1) (flag_page page entry flags m))
unfolding flag_pages
step-mapped h mprotect flags k page entry m e = rw (e, flag_pages) refl

flag_pages-Flagged :
    (h : Host) (mprotect : ℕ → Bool) (flags : Flags) (k page : ℕ) (m t : Mem)
    → flag_pages h mprotect flags k page m ≡ (t, none)
    → Flagged flags page k m t
unfolding flag_pages
flag_pages-Flagged h mprotect flags zero page m t e = λ j. ground (arith, e, ap (λ u. mem_pt u j))
flag_pages-Flagged h mprotect flags (suc k) page m t e = elim (Option-cases (mem_pt m page)) [
  | inl free ↦
      let ih =
        flag_pages-Flagged h mprotect flags k (page + 1) m t
          (sym (step-free h mprotect flags k page m free) ∙ e) in
      λ j. ground (arith, ih j, ap (mem_pt m))
  | inr (entry, mapped) ↦
      let m' = flag_page page entry flags m in
      let step = sym (step-mapped h mprotect flags k page entry m mapped) ∙ e in
      elim (Bool-cases (increases flags entry.flags && not (mprotect page))) [
        | inl refused ↦ absurd (ground (arith, step))
        | inr accepted ↦
            let ih = flag_pages-Flagged h mprotect flags k (page + 1) m' t (ground (arith, step)) in
            λ j. ground (
              arith,
              ih j,
              mem_pt-put m page j entry (some (with_flags entry flags)) mapped,
              ap (mem_pt m),
            )
      ]
]

changed-mem_pt : (m : Mem) (j : ℕ) → mem_pt (mem_changed m) j ≡ mem_pt m j
unfolding mem_pt
changed-mem_pt m j = refl

-- What `pt_set_flags` makes of the end of its second loop.
finish_flags : Mem × Option Errno → Mem × Option Errno
finish_flags (m, none) = (mem_changed m, none)
finish_flags (m, some e) = (m, some e)

set_flags-mapped :
    (h : Host) (mprotect : ℕ → Bool) (start pages : ℕ) (flags : Flags) (m : Mem)
    → start + pages < 2 ^ 32
    → all_mapped m start pages ≡ true
    → pt_set_flags h mprotect start pages flags m
      ≡ finish_flags (flag_pages h mprotect flags pages start m)
unfolding pt_set_flags finish_flags
set_flags-mapped h mprotect start pages flags m fits =
    let whole : span start pages ≡ pages = omega arith in
    subst
      (λ n.
        all_mapped m start n ≡ true
        → pt_set_flags h mprotect start pages flags m
          ≡ finish_flags (flag_pages h mprotect flags n start m))
      whole (λ e. rw (e, pt_set_flags) refl)

finish-Flagged :
    (h : Host) (mprotect : ℕ → Bool) (start pages : ℕ) (flags : Flags) (m t : Mem)
    (r : Mem × Option Errno)
    → flag_pages h mprotect flags pages start m ≡ r
    → finish_flags r ≡ (t, none)
    → Flagged flags start pages m t
unfolding finish_flags
finish-Flagged h mprotect start pages flags m t (u, none) e f =
    let same : mem_changed u ≡ t = ap (λ (p : Mem × Option Errno). p.0) f in
    subst (Flagged flags start pages m) same
      (λ j. changed-mem_pt u j ∙ flag_pages-Flagged h mprotect flags pages start m u e j)
finish-Flagged h mprotect start pages flags m t (u, some x) e f = absurd (ground (arith, f))

-- `pt_set_flags`: if a page of the range is not mapped, it fails with ENOMEM and changes nothing; if it
-- succeeds, exactly the pages of the range have the new flags in place of all their old ones, on
-- the same blocks. The range does not pass 2 ^ 32.
pub set_flags-Flagged :
    (h : Host) (mprotect : ℕ → Bool) (start pages : ℕ) (flags : Flags) (m t : Mem)
    → start + pages < 2 ^ 32
    → (all_mapped m start pages ≡ false
        → pt_set_flags h mprotect start pages flags m ≡ (m, some enomem))
      × (pt_set_flags h mprotect start pages flags m ≡ (t, none) → Flagged flags start pages m t)
unfolding pt_set_flags
set_flags-Flagged h mprotect start pages flags m t fits = (
  λ e. let whole : span start pages ≡ pages = omega arith in rw (pt_set_flags, whole, e) refl,
  λ e. elim (Bool-cases (all_mapped m start pages)) [
    | inl mapped ↦
        finish-Flagged h mprotect start pages flags m t _ refl
          (sym (set_flags-mapped h mprotect start pages flags m fits mapped) ∙ e)
    | inr free ↦
        let whole : span start pages ≡ pages = omega arith in absurd (ground (arith, e, whole))
  ],
)
