-- ===== src/Kernel/Memory/Fault/Returns.antt =====
-- What `mem_ptr` of kernel/memory.c returns.
use codex_for_ipad.Prelude.{
  ℕ, suc, ◌+◌, ◌%◌, ◌^◌, ◌/◌, ◌<◌, ◌≡◌, refl, ap, ◌∙◌, ◌⊎◌, inl, inr, Bool, true, false, not,
  Option, none, some, ◌∷◌, ◌&&◌, ◌||◌, arith, if◌then◌else◌, Bool-cases, Option-cases,
}
use codex_for_ipad.Prelude.Errno.{Errno}
use codex_for_ipad.Kernel.Memory.{PtEntry, Mem, Space, Host, page_size, mem_pages, mem_pt}
use codex_for_ipad.Kernel.Memory.Count.{refs-invalidated, IsSpace}
use codex_for_ipad.Kernel.Memory.Fault.{
  Access, is_write, is_ptrace, is_writing, writable, mem_ptr_nofault, mem_resolve_fault, invalidate,
  found, again, look, turn, mem_ptr_loop, mem_ptr,
}
use codex_for_ipad.Kernel.Memory.Fault.Laws.{Touched, IsReady, fault-Resolved}
use codex_for_ipad.Kernel.Memory.Fault.Touched.{Touched-self, fault-Touched}

-- What `mem_ptr` returns: a null pointer, or the address of the byte in the block that the page is
-- mapped to, which may be written in place if the pointer is for writing.
abbrev pub IsPointer : Access → ℕ → Mem → Option (ℕ × ℕ) → Type 0
IsPointer type addr m r =
    (r ≡ none)
    ⊎ ((entry : PtEntry) × (mem_pt m (addr / page_size) ≡ some entry)
        × (r ≡ some (entry.block, entry.offset + addr % page_size))
        × (is_writing type ≡ true → writable entry.flags ≡ true))

invalidate-exact :
    (type : Access) (extra : ℕ → ℕ) (page : ℕ) (s : Space)
    → IsSpace extra s
    → let t = if is_writing type then invalidate page s else s in
      ((j : ℕ) → mem_pt t.mem j ≡ mem_pt s.mem j) × IsSpace extra t
unfolding mem_pt
invalidate-exact type extra page s v = elim (Bool-cases (is_writing type)) [
  | inr reads ↦ rw reads (λ j. refl, v)
  | inl writes ↦ rw writes (
    λ j. refl,
    record {
      counted =
          λ b. ground (arith, v.counted b, refs-invalidated s.mem (page ∷ s.mem.invalidated) b);
      fresh =
          λ b le. ground (arith, v.fresh b, refs-invalidated s.mem (page ∷ s.mem.invalidated) b);
    },
  )
]

pub nofault-pointer :
    (type : Access) (addr : ℕ) (entry : PtEntry) (m : Mem)
    → mem_pt m (addr / page_size) ≡ some entry
    → (is_writing type ≡ true → writable entry.flags ≡ true)
    → mem_ptr_nofault m addr type ≡ some (entry.block, entry.offset + addr % page_size)
unfolding mem_ptr_nofault
nofault-pointer type addr entry m e w = rw (e, mem_ptr_nofault) (ground (arith, w))

-- The loop returns at a page that is ready.
pub look-ready :
    (type : Access) (addr : ℕ) (s : Space)
    → IsReady type (addr / page_size) s.mem
    → look type false addr s
      ≡ found
          (if is_writing type then invalidate (addr / page_size) s else s)
          (mem_ptr_nofault s.mem addr type)
unfolding look
look-ready type addr s (entry, e, w) =
    let test : not (is_writing type) || writable entry.flags ≡ true = ground (arith, w) in
    rw (e, look, test) refl

pub loop-step :
    (h : Host) (mmap : ℕ → Option ℕ) (type : Access) (ptrace_copy : Bool) (addr k : ℕ) (s : Space)
    → mem_ptr_loop (suc k) h mmap type ptrace_copy addr s
      ≡ turn
          (look type ptrace_copy addr s)
          (mem_resolve_fault h mmap (addr / page_size) type ptrace_copy s)
          (mem_ptr_loop k h mmap type false addr
            (mem_resolve_fault h mmap (addr / page_size) type ptrace_copy s).0)
unfolding mem_ptr_loop
loop-step h mmap type ptrace_copy addr k s = refl

-- A call that has returned, as `mem_ptr` promises it.
abbrev pub Returned : Access → (ℕ → ℕ) → ℕ → Space → Option (Space × Option (ℕ × ℕ)) → Type 0
Returned type extra addr s result =
    (t : Space) × (r : Option (ℕ × ℕ)) × (result ≡ some (t, r))
    × IsPointer type addr t.mem r
    × Touched extra (addr / page_size) s t

found-Returned :
    (type : Access) (extra : ℕ → ℕ) (addr : ℕ) (s t : Space)
    → IsReady type (addr / page_size) t.mem
    → Touched extra (addr / page_size) s t
    → Returned type extra addr s (
        some (
          if is_writing type then invalidate (addr / page_size) t else t,
          mem_ptr_nofault t.mem addr type,
        ))
found-Returned type extra addr s t (entry, e, w) touched =
    let done = invalidate-exact type extra (addr / page_size) t touched.space in
    (
      _,
      _,
      refl,
      inr (entry, done.0 (addr / page_size) ∙ e, nofault-pointer type addr entry t.mem e w, w),
      record { others = λ j o. done.0 j ∙ touched.others j o; space = done.1 },
    )

look-cases :
    (type : Access) (ptrace_copy : Bool) (addr : ℕ) (s : Space)
    → (look type ptrace_copy addr s ≡ again)
      ⊎ (look type ptrace_copy addr s ≡ found s none)
      ⊎ ((look type ptrace_copy addr s
            ≡ found
                (if is_writing type then invalidate (addr / page_size) s else s)
                (mem_ptr_nofault s.mem addr type))
          × IsReady type (addr / page_size) s.mem)
unfolding look
look-cases type ptrace_copy addr s = elim (Option-cases (mem_pt s.mem (addr / page_size))) [
  | inl free ↦ inl (rw (free, look) refl)
  | inr (entry, e) ↦
      elim (Bool-cases (not ptrace_copy && (not (is_writing type) || writable entry.flags))) [
        | inl fine ↦ inr (inr (rw (e, look, fine) refl, (entry, e, λ w. ground arith)))
        | inr bad ↦ elim (Bool-cases (is_write type && not entry.flags.write)) [
          | inl refused ↦ inr (inl (rw (e, look, bad, refused) refl))
          | inr fault ↦ inl (rw (e, look, bad, fault) refl)
        ]
      ]
]

resolved-Returned :
    (h : Host) (mmap : ℕ → Option ℕ) (extra : ℕ → ℕ) (addr k : ℕ) (type : Access) (s : Space)
    (r : Space × Option Errno)
    → Touched extra (addr / page_size) s r.0
    → (r.1 ≡ none → IsReady type (addr / page_size) r.0.mem)
    → Returned type extra addr s (turn again r (mem_ptr_loop (suc k) h mmap type false addr r.0))
unfolding turn
resolved-Returned h mmap extra addr k type s (t, none) touched ready =
    rw (loop-step h mmap type false addr k t, look-ready type addr t (ready refl))
      (found-Returned type extra addr s t (ready refl) touched)
resolved-Returned h mmap extra addr k type s (t, some e) touched ready =
    (t, none, refl, inl refl, touched)

-- `mem_ptr` ends: two turns of its loop are enough. It returns a null pointer, or the address of the byte
-- in the block that its page is mapped to, and for writing that page may then be written in place,
-- which no page that is to be copied first may. At most the page of the address has changed, and
-- the reference counts stay exact. Nothing else changes the space meanwhile.
pub mem_ptr-Returned :
    (h : Host) (mmap : ℕ → Option ℕ) (extra : ℕ → ℕ) (addr k : ℕ) (type : Access) (s : Space)
    → addr < 2 ^ 32
    → IsSpace extra s
    → (t : Space) × (r : Option (ℕ × ℕ)) × (mem_ptr (suc (suc k)) h mmap addr type s ≡ some (t, r))
      × IsPointer type addr t.mem r
      × Touched extra (addr / page_size) s t
unfolding mem_ptr turn
mem_ptr-Returned h mmap extra addr k type s small v =
    let page = addr / page_size in
    let lt : page < mem_pages = omega arith in
    let here : Touched extra page s s = Touched-self extra page s v in
    elim (look-cases type (is_ptrace type) addr s) [
      | inl retry ↦
          rw (loop-step h mmap type (is_ptrace type) addr (suc k) s, retry)
            (resolved-Returned h mmap extra addr k type s
              (mem_resolve_fault h mmap page type (is_ptrace type) s)
              (fault-Touched h mmap extra page type (is_ptrace type) s lt v)
              (λ e.
                (fault-Resolved h mmap extra page type (is_ptrace type) s _ lt v
                  (ap (λ o. ((mem_resolve_fault h mmap page type (is_ptrace type) s).0, o)) e)).0))
      | inr (inl refused) ↦
          rw (loop-step h mmap type (is_ptrace type) addr (suc k) s, refused)
            (s, none, refl, inl refl, here)
      | inr (inr (plain, ready)) ↦
          rw (loop-step h mmap type (is_ptrace type) addr (suc k) s, plain)
            (found-Returned type extra addr s s ready here)
    ]
