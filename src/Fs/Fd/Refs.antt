-- ===== src/Fs/Fd/Refs.antt =====
-- The reference counts of fs/fd.c: a file's count is the number of its slots in the table plus the
-- references that are held elsewhere, modulo 2 ^ 32.
use codex_for_ipad.Prelude.{
  ℕ, zero, suc, ◌+◌, ◌%◌, ◌^◌, ◌<◌, ◌≡◌, refl, ◌∙◌, Bool, true, false, none, some, arith, ◌==◌,
  if◌then◌else◌, length, get_or, inl, inr, Option-cases, ◌⊎◌,
}
use codex_for_ipad.Prelude.Int.{ℤ, pos, negsuc}
use codex_for_ipad.Fs.Fd.{
  Sys, Env, slot, fd_retain, fd_close, put_slot, f_install_start, f_install, apply_flags,
  clear_slot, close_slot, fdtable_close, sys_close, close_marked, fdtable_do_cloexec, sys_dup,
  fdtable_get,
}
use codex_for_ipad.Fs.Fd.Slots.{slot-lt, count, count-set}
use codex_for_ipad.Fs.Fd.Install.{Grown, IsEven, Installs, install_start-Installs}

-- One reference to `fd`.
abbrev pub one : ℕ → ℕ → ℕ
one fd i = if fd == i then 1 else 0

abbrev pub Counted : (ℕ → ℕ) → Sys → Type 0
Counted extra s = (i : ℕ) → (s.fds i).refcount ≡ (count i s.files + extra i) % 2 ^ 32

pub retain-Counted :
    (extra : ℕ → ℕ) (fd : ℕ) (s : Sys)
    → Counted extra s
    → Counted (λ i. extra i + one fd i) (fd_retain fd s)
unfolding fd_retain
retain-Counted extra fd s c i = ground (arith, c i)

release-Counted :
    (env : Env) (extra : ℕ → ℕ) (fd : ℕ) (s : Sys)
    → Counted (λ i. extra i + one fd i) s
    → Counted extra (fd_close env fd s).0
unfolding fd_close
release-Counted env extra fd s c i = ground (arith, c i)

put-Counted :
    (extra : ℕ → ℕ) (f fd : ℕ) (s : Sys)
    → f < length s.files
    → slot s.files f ≡ none
    → Counted (λ i. extra i + one fd i) s
    → Counted extra (put_slot f fd s)
unfolding put_slot
put-Counted extra f fd s h e c i = ground (arith, c i, count-set s.files f i (some fd) h)

close_slot-Counted :
    (env : Env) (extra : ℕ → ℕ) (f fd : ℕ) (s : Sys)
    → slot s.files f ≡ some fd
    → Counted extra s
    → Counted extra (close_slot env f fd s).0
unfolding close_slot fd_close clear_slot
close_slot-Counted env extra f fd s e c i =
    ground (arith, c i, count-set s.files f i none (slot-lt s.files f fd e))

pub close-Counted :
    (env : Env) (extra : ℕ → ℕ) (f : ℕ) (s : Sys)
    → Counted extra s
    → Counted extra (fdtable_close env f s).0
unfolding fdtable_close
close-Counted env extra f s c = elim (Option-cases (slot s.files f)) [
  | inl e ↦ rw (e, fdtable_close) c
  | inr (fd, e) ↦ rw (e, fdtable_close) (close_slot-Counted env extra f fd s e c)
]

close_if-Counted :
    (env : Env) (extra : ℕ → ℕ) (b : Bool) (f : ℕ) (s : Sys)
    → Counted extra s
    → Counted extra (if b then (fdtable_close env f s).0 else s)
close_if-Counted env extra true f s c = close-Counted env extra f s c
close_if-Counted env extra false f s c = c

marked-Counted :
    (env : Env) (extra : ℕ → ℕ) (k f : ℕ) (s : Sys)
    → Counted extra s
    → Counted extra (close_marked env k f s)
unfolding close_marked
marked-Counted env extra zero f s c = c
marked-Counted env extra (suc k) f s c =
    marked-Counted env extra k (f + 1) _
      (close_if-Counted env extra (get_or s.cloexec f false) f s c)

pub Grown-Counted :
    (extra : ℕ → ℕ) (f : ℕ) (s t : Sys) → Grown f s t → Counted extra s → Counted extra t
Grown-Counted extra f s t g c i = rw (g.fds, g.counts i) (c i)

pub install-Counted :
    (env : Env) (extra : ℕ → ℕ) (fd start : ℕ) (s : Sys) (r : Sys × ℤ)
    → Installs env start fd s r
    → Counted (λ i. extra i + one fd i) s
    → Counted extra r.0
install-Counted env extra fd start s r (inl (f, t, e, g, i)) c = rw e (
    put-Counted extra f fd t g.room (g.slots f ∙ i.empty)
      (Grown-Counted (λ i. extra i + one fd i) f s t g c))
install-Counted env extra fd start s r (inr (e, neg)) c = rw e (release-Counted env extra fd s c)

apply-Counted :
    (extra : ℕ → ℕ) (fd f flags : ℕ) (s : Sys)
    → Counted extra s
    → Counted extra (apply_flags fd f flags s)
unfolding apply_flags
apply-Counted extra fd f flags s c i = ground (arith, c i)

f_install-cases :
    (env : Env) (fd flags : ℕ) (s : Sys)
    → ((f_install env fd flags s).0 ≡ (f_install_start env fd 0 s).0)
      ⊎ ((f : ℕ) × ((f_install env fd flags s).0
            ≡ apply_flags fd f flags (f_install_start env fd 0 s).0))
unfolding f_install
f_install-cases env fd flags s = go (f_install_start env fd 0 s).1 refl
  where
    go :
        (r : ℤ)
        → (f_install_start env fd 0 s).1 ≡ r
        → ((f_install env fd flags s).0 ≡ (f_install_start env fd 0 s).0)
          ⊎ ((f : ℕ) × ((f_install env fd flags s).0
                ≡ apply_flags fd f flags (f_install_start env fd 0 s).0))
    go (pos f) e = inr (f, rw (e, f_install))
    go (negsuc n) e = inl (rw (e, f_install))

f_install-Counted :
    (env : Env) (extra : ℕ → ℕ) (fd flags : ℕ) (s : Sys)
    → IsEven s
    → s.nofile < 2 ^ 32
    → length s.files < 2 ^ 31
    → Counted (λ i. extra i + one fd i) s
    → Counted extra (f_install env fd flags s).0
f_install-Counted env extra fd flags s even limit size c =
    let started =
      install-Counted env extra fd 0 s (f_install_start env fd 0 s)
        (install_start-Installs env fd 0 s even limit (omega arith) size) c in
    elim (f_install-cases env fd flags s) [
      | inl e ↦ rw e started
      | inr (f, e) ↦ rw e (apply-Counted extra fd f flags _ started)
    ]

-- A table and the store around it, as the kernel keeps them: slots and bits in step, and sizes and
-- limits that a descriptor can name.
pub record IsTable (extra : ℕ → ℕ) (s : Sys) : Type 0 where
  pub even : IsEven s
  pub limit : s.nofile < 2 ^ 32
  pub size : length s.files < 2 ^ 31
  pub counted : Counted extra s

-- `dup`, `close` and the closing of marked descriptors by exec keep every file's reference count equal
-- to the number of its descriptors plus the references held elsewhere, whether they succeed or fail.
pub calls-Counted :
    (env : Env) (extra : ℕ → ℕ) (f : ℤ) (s : Sys)
    → IsTable extra s
    → Counted extra (sys_dup env f s).0
      × Counted extra (sys_close env f s).0
      × Counted extra (fdtable_do_cloexec env s)
unfolding sys_dup sys_close fdtable_do_cloexec fd_retain
calls-Counted env extra f s t =
    (dup, close f, marked-Counted env extra (length s.files) 0 s t.counted)
  where
    dup : Counted extra (sys_dup env f s).0
    dup = elim (Option-cases (fdtable_get s f)) [
      | inl e ↦ rw (e, sys_dup) t.counted
      | inr (fd, e) ↦
          rw (e, sys_dup)
            (f_install-Counted env extra fd 0 (fd_retain fd s) t.even t.limit t.size
              (retain-Counted extra fd s t.counted))
    ]

    close : (g : ℤ) → Counted extra (sys_close env g s).0
    close (pos g) = close-Counted env extra g s t.counted
    close (negsuc g) = t.counted
