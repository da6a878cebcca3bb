-- ===== src/Fs/Fd/Calls.antt =====
-- The slots of a table of fs/fd.c after closing, duplicating and exec, and the end of a file.
use codex_for_ipad.Prelude.{
  ℕ, zero, suc, ◌+◌, ◌^◌, ◌<◌, ◌≡◌, refl, ◌≢◌, Bool, true, false, none, some, ◌∷◌, arith, ◌==◌,
  ==_iff, ltb, leb, if◌then◌else◌, length, get_or, inl, inr, Bool-cases, Option-cases, length-set,
  get_or-set, ◌&&◌,
}
use codex_for_ipad.Fs.Fd.{
  Sys, Env, slot, fd_close, clear_slot, close_slot, fdtable_close, close_marked, fdtable_do_cloexec,
}
use codex_for_ipad.Fs.Fd.Slots.{slot-lt, count, count-set}
use codex_for_ipad.Fs.Fd.Install.{IsEven, slot-ge}
use codex_for_ipad.Fs.Fd.Refs.{Counted}

-- Closing empties one slot.
pub close-slots :
    (env : Env) (f : ℕ) (s : Sys) (j : ℕ)
    → slot (fdtable_close env f s).0.files j ≡ (if j == f then none else slot s.files j)
unfolding fdtable_close close_slot fd_close clear_slot
close-slots env f s j = elim (Option-cases (slot s.files f)) [
  | inl e ↦ rw (e, fdtable_close) (ground arith)
  | inr (fd, e) ↦
      rw (e, fdtable_close)
        (ground (arith, get_or-set s.files f j none none (slot-lt s.files f fd e)))
]

pub close-IsEven : (env : Env) (f : ℕ) (s : Sys) → IsEven s → IsEven (fdtable_close env f s).0
unfolding fdtable_close close_slot fd_close clear_slot
close-IsEven env f s e = ground (arith, length-set s.files f none, length-set s.cloexec f false)

close-bits :
    (env : Env) (f : ℕ) (s : Sys) (j : ℕ)
    → IsEven s
    → j ≢ f
    → get_or (fdtable_close env f s).0.cloexec j false ≡ get_or s.cloexec j false
unfolding fdtable_close close_slot fd_close clear_slot
close-bits env f s j even n = elim (Option-cases (slot s.files f)) [
  | inl e ↦ rw (e, fdtable_close) refl
  | inr (fd, e) ↦
      rw (e, fdtable_close)
        (ground (arith, get_or-set s.cloexec f j false false (rw even (slot-lt s.files f fd e))))
]

close_if : Env → Bool → ℕ → Sys → Sys
close_if env b f s = if b then (fdtable_close env f s).0 else s

marked-step :
    (env : Env) (k f : ℕ) (s : Sys)
    → close_marked env (suc k) f s
      ≡ close_marked env k (f + 1) (close_if env (get_or s.cloexec f false) f s)
unfolding close_marked close_if
marked-step env k f s = refl

close_if-IsEven : (env : Env) (b : Bool) (f : ℕ) (s : Sys) → IsEven s → IsEven (close_if env b f s)
unfolding close_if
close_if-IsEven env true f s e = close-IsEven env f s e
close_if-IsEven env false f s e = e

close_if-bits :
    (env : Env) (b : Bool) (f : ℕ) (s : Sys) (j : ℕ)
    → IsEven s
    → j ≢ f
    → get_or (close_if env b f s).cloexec j false ≡ get_or s.cloexec j false
unfolding close_if
close_if-bits env true f s j e n = close-bits env f s j e n
close_if-bits env false f s j e n = refl

close_if-slots :
    (env : Env) (b : Bool) (f : ℕ) (s : Sys) (j : ℕ)
    → slot (close_if env b f s).files j ≡ (if b && j == f then none else slot s.files j)
unfolding close_if
close_if-slots env true f s j = close-slots env f s j
close_if-slots env false f s j = refl

marked-slots :
    (env : Env) (k f : ℕ) (s : Sys) (j : ℕ)
    → IsEven s
    → slot (close_marked env k f s).files j
      ≡ (if leb f j && ltb j (f + k) && get_or s.cloexec j false then none else slot s.files j)
unfolding close_marked
marked-slots env zero f s j e = ground arith
marked-slots env (suc k) f s j e =
    let t = close_if env (get_or s.cloexec f false) f s in
    let ih =
      marked-slots env k (f + 1) t j (close_if-IsEven env (get_or s.cloexec f false) f s e) in
    let slots = close_if-slots env (get_or s.cloexec f false) f s j in
    rw (marked-step env k f s, ih)
      (elim (Bool-cases (j == f)) [
        | inl here ↦ rw (slots, (==_iff j f).0 here) (ground arith)
        | inr there ↦
            rw (close_if-bits env (get_or s.cloexec f false) f s j e (ground arith), slots)
              (ground arith)
      ])

-- At exec exactly the descriptors with a close-on-exec bit are closed; all others keep their file.
pub do_cloexec-slots :
    (env : Env) (s : Sys) (j : ℕ)
    → IsEven s
    → slot (fdtable_do_cloexec env s).files j
      ≡ (if get_or s.cloexec j false then none else slot s.files j)
unfolding fdtable_do_cloexec
do_cloexec-slots env s j e = elim (Bool-cases (ltb j (length s.files))) [
  | inl inside ↦ rw (marked-slots env (length s.files) 0 s j e) (ground arith)
  | inr outside ↦ rw (marked-slots env (length s.files) 0 s j e) (ground (arith, slot-ge s.files j))
]

-- Closing an open descriptor empties its slot only, and destroys the file if and only if that was
-- the last of its references (of which there are fewer than 2 ^ 32).
pub close-last :
    (env : Env) (extra : ℕ → ℕ) (f fd : ℕ) (s : Sys)
    → Counted extra s
    → slot s.files f ≡ some fd
    → count fd s.files + extra fd < 2 ^ 32
    → ((j : ℕ) → slot (fdtable_close env f s).0.files j ≡ (if j == f then none else slot s.files j))
      × ((fdtable_close env f s).0.freed
          ≡ (if count fd s.files + extra fd == 1 then fd ∷ s.freed else s.freed))
unfolding fdtable_close close_slot fd_close clear_slot
close-last env extra f fd s c e small = (
  close-slots env f s,
  rw (e, fdtable_close)
      (ground (arith, c fd, count-set s.files f fd none (slot-lt s.files f fd e))),
)

pub close-room :
    (env : Env) (f : ℕ) (s : Sys) → length (fdtable_close env f s).0.files ≡ length s.files
unfolding fdtable_close close_slot fd_close clear_slot
close-room env f s = ground (arith, length-set s.files f none)
