-- ===== src/Fs/Fd/Tests.antt =====
-- Runs of fs/fd.c at concrete tables, and its theorems there.
use codex_for_ipad.Prelude.{
  ℕ, ◌^◌, ◌≡◌, refl, true, false, none, some, [], ◌∷◌, arith, ◌==◌, if◌then◌else◌,
}
use codex_for_ipad.Prelude.Int.{pos}
use codex_for_ipad.Fs.Fd.{
  Fd, Sys, Env, find_slot, f_install_start, f_install, sys_close, fdtable_do_cloexec, sys_dup,
}
use codex_for_ipad.Fs.Fd.Install.{Placed, f_install-lowest}
use codex_for_ipad.Fs.Fd.Refs.{Counted, IsTable, calls-Counted}

-- File 7 is open as 0 and 2, file 8 as 1 and marked; each has no other reference.
abbrev opened : ℕ → Fd
opened i = record {
  refcount = if i == 7 then 2 else if i == 8 then 1 else 0;
  flags = 0;
  inode = none;
}

abbrev start : Sys
start = record {
  fds = opened;
  locks = λ i. [];
  freed = [];
  table = 1;
  users = 1;
  files = some 7 ∷ some 8 ∷ some 7 ∷ none ∷ [];
  cloexec = false ∷ true ∷ false ∷ false ∷ [];
  nofile = 1024;
}

abbrev env : Env
env = record { close = λ fd. pos 0; allocates = λ n. true }

abbrev no_extra : ℕ → ℕ
no_extra i = 0

start-IsTable : IsTable no_extra start
start-IsTable = record {
  even = refl;
  limit = omega arith;
  size = omega arith;
  counted = λ i. ground arith;
}

install_run : (f_install env 9 (2 ^ 19) start).1 ≡ pos 3
unfolding f_install f_install_start find_slot
install_run = refl

f_install-lowest_example : Placed (2 ^ 19) 3 9 start (f_install env 9 (2 ^ 19) start).0
unfolding f_install f_install_start find_slot
f_install-lowest_example =
    f_install-lowest env 9 (2 ^ 19) start (f_install env 9 (2 ^ 19) start).0 3 refl (omega arith)
      (omega arith) refl

calls-Counted_example :
    Counted no_extra (sys_dup env (pos 0) start).0
    × Counted no_extra (sys_close env (pos 0) start).0
    × Counted no_extra (fdtable_do_cloexec env start)
calls-Counted_example = calls-Counted env no_extra (pos 0) start start-IsTable
