-- ===== src/Fs/Fd/Fcntl/Laws.antt =====
-- Theorems on `sys_fcntl` of fs/fd.c.
use mathlib.Core.Path.{subst}
use codex_for_ipad.Prelude.{
  ℕ, ◌+◌, ◌^◌, ◌<◌, ◌≡◌, refl, ◌≢◌, ◌⊎◌, inl, inr, Bool, true, false, some, arith, ◌==◌, ltb,
  Option-cases, ◌||◌,
}
use codex_for_ipad.Prelude.Int.{ℤ, pos, negsuc, ltb_ℤ}
use codex_for_ipad.Fs.Lock.Flock.{Flock, Context}
use codex_for_ipad.Fs.Lock.Flock.Calls.{setlk_answers}
use codex_for_ipad.Fs.Fd.{Sys, Env, slot, fd_retain, f_install_start, put_slot}
use codex_for_ipad.Fs.Fd.Install.{Installed, Installs, install_start-Installs}
use codex_for_ipad.Fs.Fd.Refs.{one, Counted, IsTable, retain-Counted, install-Counted}
use codex_for_ipad.Fs.Fd.Fcntl.{
  Guest, Reply, reply, sleeping, setlk_file, widen, fcntl_getlk32, fcntl_getlk64, fcntl_setlk32,
  fcntl_setlk64, fcntl_open, fcntl_dupfd, sys_fcntl,
}

-- A duplicate of the file `fd` at the lowest free descriptor from `arg` on, or an error; the
-- references stay counted.
Dupfd : (ℕ → ℕ) → ℕ → ℕ → Sys → Reply → Type 0
Dupfd extra arg fd s r =
    ((n : ℕ) × (t : Sys) × (r ≡ reply t (pos n)) × Installed arg n fd s t × Counted extra t)
    ⊎ ((e : ℤ) × (t : Sys) × (r ≡ reply t e) × (ltb_ℤ e (pos 0) ≡ true) × Counted extra t)

retained-Installed :
    (start f fd : ℕ) (s t : Sys)
    → Installed start f fd (fd_retain fd s) t
    → Installed start f fd s t
unfolding fd_retain
retained-Installed start f fd s t i = record {
  from = i.from;
  empty = i.empty;
  lowest = i.lowest;
  slots = i.slots;
  bits = i.bits;
  limit = i.limit;
}

Installs-Dupfd :
    (env : Env) (extra : ℕ → ℕ) (arg fd : ℕ) (s : Sys) (r : Sys × ℤ)
    → Counted (λ i. extra i + one fd i) (fd_retain fd s)
    → Installs env arg fd (fd_retain fd s) r
    → Dupfd extra arg fd s (reply r.0 r.1)
unfolding Dupfd
Installs-Dupfd env extra arg fd s r c (inl (f, t, e, g, i)) =
    let counted = install-Counted env extra fd arg (fd_retain fd s) r (inl (f, t, e, g, i)) c in
    inl (
      f,
      put_slot f fd t,
      rw e refl,
      retained-Installed arg f fd s (put_slot f fd t) i,
      subst (λ (p : Sys × ℤ). Counted extra p.0) e counted,
    )
Installs-Dupfd env extra arg fd s r c (inr (e, neg)) =
    inr (r.1, r.0, refl, neg, install-Counted env extra fd arg (fd_retain fd s) r (inr (e, neg)) c)

dupfd-run :
    (env : Env) (c : Context) (g : Guest) (s : Sys) (f fd arg : ℕ)
    → slot s.files f ≡ some fd
    → arg < 2 ^ 31
    → sys_fcntl env c g s (pos f) 0 arg
      ≡ reply
          (f_install_start env fd arg (fd_retain fd s)).0
          (f_install_start env fd arg (fd_retain fd s)).1
unfolding sys_fcntl fcntl_open fcntl_dupfd
dupfd-run env c g s f fd arg e small =
    let below : ltb arg (2 ^ 31) ≡ true = ground arith in rw (e, sys_fcntl, fcntl_dupfd, below) refl

-- F_DUPFD on an open descriptor: the lowest free descriptor that is not below the argument names the
-- same file, not marked close-on-exec, no other descriptor changes, and the reference counts stay
-- exact; or the call fails, and they stay exact too. The argument must be below 2 ^ 31.
pub dupfd-lowest :
    (env : Env) (c : Context) (g : Guest) (extra : ℕ → ℕ) (s : Sys) (f fd arg : ℕ)
    → IsTable extra s
    → slot s.files f ≡ some fd
    → arg < 2 ^ 31
    → ((n : ℕ) × (t : Sys) × (sys_fcntl env c g s (pos f) 0 arg ≡ reply t (pos n))
        × Installed arg n fd s t
        × Counted extra t)
      ⊎ ((e : ℤ) × (t : Sys) × (sys_fcntl env c g s (pos f) 0 arg ≡ reply t e)
          × (ltb_ℤ e (pos 0) ≡ true)
          × Counted extra t)
unfolding Dupfd fd_retain
dupfd-lowest env c g extra s f fd arg v e small = rw (dupfd-run env c g s f fd arg e small) (
    Installs-Dupfd env extra arg fd s (f_install_start env fd arg (fd_retain fd s))
      (retain-Counted extra fd s v.counted)
      (install_start-Installs env fd arg (fd_retain fd s) v.even v.limit small v.size))

setlk_file-answers :
    (c : Context) (g : Guest) (s : Sys) (fd : ℕ) (l : Flock)
    → setlk_file c g s fd l false ≢ sleeping
unfolding setlk_file
setlk_file-answers c g s fd l = elim (Option-cases (s.fds fd).inode) [
  | inl e ↦ ground arith
  | inr (i, e) ↦
      ground
        (arith, setlk_answers (record c { files = s.table }) (s.fds fd).flags (s.locks i) l g.waits)
]

setlk32-answers :
    (c : Context) (g : Guest) (s : Sys) (fd cmd : ℕ)
    → ((cmd == 6) || (cmd == 7)) ≡ true
    → fcntl_setlk32 c g s fd cmd ≢ sleeping
unfolding fcntl_setlk32
setlk32-answers c g s fd cmd h =
    let other : (cmd == 14) ≡ false = ground arith in
    elim (Option-cases g.flock32) [
      | inl e ↦ ground arith
      | inr (l, e) ↦ rw (e, fcntl_setlk32, other) (setlk_file-answers c g s fd (widen l))
    ]

setlk64-answers :
    (c : Context) (g : Guest) (s : Sys) (fd cmd : ℕ)
    → ((cmd == 13) || (cmd == 14)) ≡ true
    → fcntl_setlk64 c g s fd cmd ≢ sleeping
unfolding fcntl_setlk64
setlk64-answers c g s fd cmd h =
    let other : (cmd == 7) ≡ false = ground arith in
    elim (Option-cases g.flock) [
      | inl e ↦ ground arith
      | inr (l, e) ↦ rw (e, fcntl_setlk64, other) (setlk_file-answers c g s fd l)
    ]

getlk-answers :
    (c : Context) (g : Guest) (s : Sys) (fd : ℕ)
    → (fcntl_getlk32 c g s fd ≢ sleeping) × (fcntl_getlk64 c g s fd ≢ sleeping)
unfolding fcntl_getlk32 fcntl_getlk64
getlk-answers c g s fd = (ground arith, ground arith)

dupfd-answers :
    (env : Env) (s : Sys) (fd arg : ℕ) (mark : Bool) → fcntl_dupfd env s fd arg mark ≢ sleeping
unfolding fcntl_dupfd
dupfd-answers env s fd arg mark = ground arith

open-answers :
    (env : Env) (c : Context) (g : Guest) (s : Sys) (f fd cmd arg : ℕ)
    → fcntl_open env c g s f fd cmd arg ≢ sleeping
unfolding fcntl_open
open-answers env c g s f fd cmd arg = ground (
  arith,
  dupfd-answers env s fd arg false,
  dupfd-answers env s fd arg true,
  getlk-answers c g s fd,
  setlk32-answers c g s fd cmd,
  setlk64-answers c g s fd cmd,
)

-- A bug: F_SETLKW and F_SETLKW64 are meant to wait for a lock that is held, but each hands on the test
-- for the other's command, so that no call of `fcntl` ever waits.
pub fcntl_never_waits :
    (env : Env) (c : Context) (g : Guest) (s : Sys) (f : ℤ) (cmd arg : ℕ)
    → sys_fcntl env c g s f cmd arg ≢ sleeping
unfolding sys_fcntl
fcntl_never_waits env c g s (negsuc n) cmd arg = ground arith
fcntl_never_waits env c g s (pos f) cmd arg = elim (Option-cases (slot s.files f)) [
  | inl e ↦ ground arith
  | inr (fd, e) ↦ rw (e, sys_fcntl) (open-answers env c g s f fd cmd arg)
]
