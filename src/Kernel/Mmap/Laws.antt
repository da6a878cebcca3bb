-- ===== src/Kernel/Mmap/Laws.antt =====
-- `mmap` of kernel/mmap.c.
use codex_for_ipad.Prelude.{
  ℕ, ◌+◌, ◌-◌, ◌*◌, ◌<◌, ◌≤◌, ◌≡◌, refl, sym, ◌∙◌, ◌≢◌, inl, inr, true, false, ◌&&◌, Option, some,
  arith, ◌==◌, ltb, leb,
}
use codex_for_ipad.Prelude.Errno.{Result, ok, err}
use codex_for_ipad.Kernel.Memory.{
  Flags, Space, Host, page_size, mem_pages, bad_page, mem_pt, pt_find_hole,
}
use codex_for_ipad.Kernel.Memory.Count.{IsSpace}
use codex_for_ipad.Kernel.Memory.Hole.{IsFree, NoneFree, find_hole-highest}
use codex_for_ipad.Kernel.Memory.Mapping.{pt_map_nothing}
use codex_for_ipad.Kernel.Memory.Mapping.Map.{pt_map-exact, map_nothing-pt_map}
use codex_for_ipad.Kernel.Mmap.{
  Env, mmap_shared, mmap_private, mmap_fixed, mmap_anonymous, prot_flags, page_round_up, map_at,
  do_mmap, mmap_common,
}

-- New pages from `page` on, and nothing else changed.
pub record Mapped (extra : ℕ → ℕ) (page pages : ℕ) (flags : Flags) (s t : Space) : Type 0 where
  pub inside :
      (j : ℕ)
      → page ≤ j
      → j < page + pages
      → mem_pt t.mem j
        ≡ some (record {
          block = s.store.next;
          offset = 0 + (j - page) * page_size;
          flags = record flags { anonymous = true };
        })
  pub outside :
      (j : ℕ) → (leb page j && ltb j (page + pages)) ≡ false → mem_pt t.mem j ≡ mem_pt s.mem j
  pub space : IsSpace extra t

pub nothing-Mapped :
    (h : Host) (extra : ℕ → ℕ) (page pages : ℕ) (memory : Option ℕ) (flags : Flags) (s t : Space)
    → 0 < pages
    → page + pages ≤ mem_pages
    → IsSpace extra s
    → pt_map_nothing h page pages memory flags s ≡ ok t
    → Mapped extra page pages flags s t
nothing-Mapped h extra page pages memory flags s t some_pages fits v e =
    let done =
      pt_map-exact h extra page pages memory 0 (record flags { anonymous = true }) s t fits v
        (sym (map_nothing-pt_map h page pages memory flags s some_pages) ∙ e) in
    record {
      inside = λ j lo hi. ground (arith, done.0 j);
      outside = λ j o. ground (arith, done.0 j);
      space = done.1;
    }

-- What `map_at` does with an anonymous mapping.
map_at-inverse :
    (env : Env) (page pages prot flags fd_no offset : ℕ) (s t : Space) (a : ℕ)
    → mmap_anonymous flags ≡ true
    → map_at env page pages prot flags fd_no offset s ≡ (t, ok a)
    → (pt_map_nothing env.host page pages
          (env.mmap s.store.next)
          (record (prot_flags prot) { shared = mmap_shared flags })
          s
        ≡ ok t)
      × (a ≡ page * page_size)
unfolding map_at
map_at-inverse env page pages prot flags fd_no offset s t a anon e =
    ended (pt_map_nothing env.host page pages (env.mmap s.store.next) prot' s) refl
  where
    prot' : Flags
    prot' = record (prot_flags prot) { shared = mmap_shared flags }

    ended :
        (r : Result Space)
        → pt_map_nothing env.host page pages (env.mmap s.store.next) prot' s ≡ r
        → (pt_map_nothing env.host page pages (env.mmap s.store.next) prot' s ≡ ok t)
          × (a ≡ page * page_size)
    ended (ok u) m = (m ∙ ground (arith, e, m, anon), ground (arith, e, m, anon))
    ended (err x) m = absurd (ground (arith, e, m, anon))

common-inverse :
    (env : Env) (len prot flags fd_no offset : ℕ) (s t : Space) (a : ℕ)
    → mmap_common env 0 len prot flags fd_no offset s ≡ (t, ok a)
    → (0 < page_round_up len)
      × (pt_find_hole s.mem (page_round_up len) ≢ bad_page)
      × (map_at env
            (pt_find_hole s.mem (page_round_up len))
            (page_round_up len)
            prot
            flags
            fd_no
            offset
            s
          ≡ (t, ok a))
unfolding mmap_common do_mmap
common-inverse env len prot flags fd_no offset s t a e =
    (ground (arith, e), ground (arith, e), ground (arith, e))

-- An anonymous `mmap` without an address that succeeds returns the address of the highest free range that
-- is large enough; no page of it was mapped, all of them now are, to one new block and with the
-- protection asked for, every other page is as before, and the reference counts stay exact.
pub mmap-hole :
    (env : Env) (extra : ℕ → ℕ) (len prot flags fd_no offset : ℕ) (s t : Space) (a : ℕ)
    → IsSpace extra s
    → mmap_anonymous flags ≡ true
    → mmap_common env 0 len prot flags fd_no offset s ≡ (t, ok a)
    → let page = pt_find_hole s.mem (page_round_up len) in
      (a ≡ page * page_size)
      × IsFree s.mem page (page_round_up len)
      × NoneFree s.mem (page_round_up len) page
      × Mapped extra page
          (page_round_up len)
          (record (prot_flags prot) { shared = mmap_shared flags })
          s
          t
mmap-hole env extra len prot flags fd_no offset s t a v anon e =
    let page = pt_find_hole s.mem (page_round_up len) in
    let ran = common-inverse env len prot flags fd_no offset s t a e in
    let at = map_at-inverse env page (page_round_up len) prot flags fd_no offset s t a anon ran.2 in
    elim (find_hole-highest s.mem (page_round_up len) ran.0) [
      | inl (bad, free) ↦ absurd (ran.1 bad)
      | inr (above, below, hole, highest) ↦ (
        at.1,
        hole,
        highest,
        nothing-Mapped env.host extra page (page_round_up len) (env.mmap s.store.next) _ s t ran.0
            (omega (arith, below)) v at.0,
      )
    ]

-- A bug: with an address that is not null, MMAP_FIXED makes no difference. The code finds out that the
-- pages are taken, but then replaces them all the same.
pub mmap_fixed_ignored :
    (env : Env) (addr len prot flags fd_no offset : ℕ) (s : Space)
    → addr ≢ 0
    → mmap_fixed flags ≡ false
    → mmap_common env addr len prot flags fd_no offset s
      ≡ mmap_common env addr len prot (flags + 16) fd_no offset s
unfolding mmap_common do_mmap map_at
mmap_fixed_ignored env addr len prot flags fd_no offset s given plain =
    let kept : (mmap_shared (flags + 16) ≡ mmap_shared flags)
        × (mmap_private (flags + 16) ≡ mmap_private flags)
        × (mmap_anonymous (flags + 16) ≡ mmap_anonymous flags) =
      (ground arith, ground arith, ground arith) in
    let address : (addr == 0) ≡ false = ground arith in rw (kept.0, kept.1, kept.2, address) refl
