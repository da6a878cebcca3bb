-- ===== src/Kernel/Mmap/Protect.antt =====
-- `mprotect` of kernel/mmap.c on pages that a fork has shared.
use codex_for_ipad.Prelude.{
  ℕ, ◌+◌, ◌/◌, ◌^◌, ◌<◌, ◌≤◌, ◌≡◌, refl, ap, true, false, Option, none, some, arith,
}
use codex_for_ipad.Prelude.Errno.{Errno, Result, ok}
use codex_for_ipad.Kernel.Memory.{PtEntry, Mem, Space, mem_pages, page_size, mem_pt}
use codex_for_ipad.Kernel.Memory.Mapping.{Fork, with_flags, pt_copy_on_write, pt_set_flags}
use codex_for_ipad.Kernel.Memory.Mapping.Flag.{set_flags-Flagged}
use codex_for_ipad.Kernel.Memory.Mapping.Share.{IsFork, shared_entry, copy_on_write-exact}
use codex_for_ipad.Kernel.Memory.Fault.{writable}
use codex_for_ipad.Kernel.Mmap.{Env, prot_flags, page_round_up, bit, flags_set, sys_mprotect}

set-inverse :
    (s t : Space) (r : ℕ) (p : Mem × Option Errno) → flags_set s p ≡ (t, ok r) → p ≡ (t.mem, none)
unfolding flags_set
set-inverse s t r (m, none) e = ap (λ (q : Space × Result ℕ). (q.0.mem, none)) e
set-inverse s t r (m, some x) e = absurd (ground (arith, e))

protect-inverse :
    (env : Env) (addr len prot : ℕ) (s t : Space) (r : ℕ)
    → sys_mprotect env addr len prot s ≡ (t, ok r)
    → pt_set_flags env.host env.mprotect
        (addr / page_size)
        (page_round_up len)
        (prot_flags prot)
        s.mem
      ≡ (t.mem, none)
unfolding sys_mprotect
protect-inverse env addr len prot s t r e = set-inverse s t r _ (ground (arith, e))

-- The entry of a page names this block and may be written in place.
abbrev pub WritesInto : Mem → ℕ → ℕ → Type 0
WritesInto m page b =
    (entry : PtEntry) × (mem_pt m page ≡ some entry)
    × (entry.block ≡ b)
    × (writable entry.flags ≡ true)

-- A bug: `mprotect` replaces all flags of a page, the one that asks for a copy before the next write
-- among them. When the copy of a space that a fork made gets write access by `mprotect`, its writes
-- go straight to the block that the source still maps. The page is in the range that was copied, inside
-- the address space, and is not a shared mapping.
pub mprotect_drops_cow :
    (env : Env) (extra : ℕ → ℕ) (f : Fork) (start pages page addr len prot r : ℕ) (entry : PtEntry)
    (u : Space)
    → IsFork extra f
    → mem_pt f.src page ≡ some entry
    → entry.flags.shared ≡ false
    → start + pages ≤ mem_pages
    → start ≤ page
    → page < start + pages
    → addr < 2 ^ 32
    → addr / page_size ≤ page
    → page < addr / page_size + page_round_up len
    → (bit 1 prot) ≡ true
    → let t = pt_copy_on_write env.host start pages f in
      sys_mprotect env addr len prot (record { mem = t.dst; store = t.store }) ≡ (u, ok r)
      → WritesInto u.mem page entry.block
        × ((other : PtEntry) × (mem_pt t.src page ≡ some other) × (other.block ≡ entry.block))
mprotect_drops_cow env extra f start pages page addr len prot r entry u v mapped private inside lo
      hi small from to writes e =
    let t = pt_copy_on_write env.host start pages f in
    let fork = copy_on_write-exact env.host extra start pages f inside v in
    let flags =
      (set_flags-Flagged env.host env.mprotect (addr / page_size) (page_round_up len)
          (prot_flags prot) t.dst u.mem (omega arith)).1
        (protect-inverse env addr len prot (record { mem = t.dst; store = t.store }) u r e) in
    let src : mem_pt t.src page ≡ some (shared_entry entry) = ground (arith, fork.0 page, mapped) in
    let dst : mem_pt t.dst page ≡ some (shared_entry entry) = ground (arith, fork.1 page, mapped) in
    let now : mem_pt u.mem page ≡ some (with_flags (shared_entry entry) (prot_flags prot)) =
      ground (arith, flags page, dst) in
    ((_, now, refl, ground (arith, writes)), (_, src, refl))
