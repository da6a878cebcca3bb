-- ===== src/Kernel/Futex/Tests.antt =====
-- Runs of the calls of kernel/futex.c, and its theorems there.
use codex_for_ipad.Prelude.{
  ℕ, ◌+◌, ◌-◌, ◌*◌, ◌<◌, ◌≡◌, refl, true, false, none, some, [], ◌∷◌, arith,
}
use codex_for_ipad.Prelude.Int.{ℤ, pos}
use codex_for_ipad.Kernel.Futex.{
  Table, Caller, zero_time, returned, until, futex_wait, wait_got, wait_loaded, futex_get_unlocked,
  get_found, find_futex, futex_wait_end, futex_put, list_remove,
}
use codex_for_ipad.Kernel.Futex.Calls.{
  futex_wakelike, matches, match_any, sys_futex, futex_switch, read_timeout,
}
use codex_for_ipad.Kernel.Futex.Invariant.{IsTable}
use codex_for_ipad.Kernel.Futex.Safety.{
  no_refs, table, Reaches, here, call, wait_end, Reaches-IsTable, no_futexes, no_futexes-IsTable,
  no_futex_left,
}
use codex_for_ipad.Kernel.Futex.Wake.{IsWake, futex_wakelike-IsWake}
use codex_for_ipad.Kernel.Futex.Wait.{IsWaited, futex_wait-IsWaited, until-exact}
use codex_for_ipad.Kernel.Futex.Requeue.Moved.{IsRequeue, futex_wakelike-IsRequeue}

-- A task in the address space 1, where every word is 7.
abbrev task : ℕ → Caller
task w = record {
  mem = 1;
  wait = w;
  room = true;
  room2 = true;
  load = λ addr. some 7;
  user_get = λ addr. none;
  clock_gettime = λ realtime. zero_time;
}

-- The tasks 4, 5 and 6 wait at the address 16 for the value 7 to change.
waits_for : ℕ → Table → Table
waits_for w s = table (sys_futex (task w) 16 0 7 0 0 0 s)

three_wait : Table
unfolding waits_for sys_futex futex_switch read_timeout futex_wait wait_got wait_loaded
    futex_get_unlocked get_found find_futex
three_wait = waits_for 6 (waits_for 5 (waits_for 4 no_futexes))

three_reached : Reaches no_futexes three_wait
unfolding three_wait waits_for sys_futex futex_switch read_timeout futex_wait wait_got wait_loaded
    futex_get_unlocked get_found find_futex
three_reached =
    call
      (call (call here (task 4) 16 0 7 0 0 0 (refl, omega arith)) (task 5) 16 0 7 0 0 0
        (refl, omega arith))
      (task 6) 16 0 7 0 0 0 (refl, omega arith)

three_queue : (three_wait.futexes 0).queue ≡ 4 ∷ 5 ∷ 6 ∷ []
unfolding three_wait waits_for sys_futex futex_switch read_timeout futex_wait wait_got wait_loaded
    futex_get_unlocked get_found find_futex
three_queue = refl

Reaches-IsTable_example : IsTable no_refs three_wait
Reaches-IsTable_example = Reaches-IsTable three_reached no_futexes-IsTable

-- A task that comes and goes.
one_waits : Table
one_waits = waits_for 4 no_futexes

one_gone : Reaches no_futexes (futex_wait_end 4 one_waits)
unfolding one_waits waits_for sys_futex futex_switch read_timeout futex_wait wait_got wait_loaded
    futex_get_unlocked get_found find_futex
one_gone = wait_end (call here (task 4) 16 0 7 0 0 0 (refl, omega arith)) 4 (omega arith)

one_idle : (futex_wait_end 4 one_waits).live ≡ []
unfolding one_waits waits_for sys_futex futex_switch read_timeout futex_wait wait_got wait_loaded
    futex_get_unlocked get_found find_futex futex_wait_end futex_put list_remove
one_idle = refl

no_futex_left_example :
    ((futex_wait_end 4 one_waits).chain ≡ []) × ((futex_wait_end 4 one_waits).asserts ≡ true)
no_futex_left_example = no_futex_left one_gone one_idle

futex_wakelike-IsWake_example :
    (t : Table) × (r : ℤ) × (futex_wakelike (task 7) 1 16 2 0 0 match_any three_wait ≡ returned t r)
    × IsWake (matches three_wait match_any) 2 1 16 three_wait t r
futex_wakelike-IsWake_example =
    futex_wakelike-IsWake (task 7) 1 16 2 match_any three_wait (λ e. absurd (omega arith)) refl
      (omega arith) Reaches-IsTable_example

futex_wait-IsWaited_example :
    IsWaited
      (task 4)
      16
      7
      no_futexes
      (futex_wait (task 4) 16 7 none match_any false false no_futexes)
futex_wait-IsWaited_example =
    futex_wait-IsWaited (task 4) 16 7 none match_any false false no_futexes refl (refl, omega arith)
      no_futexes-IsTable

futex_wakelike-IsRequeue_example :
    (t : Table) × (r : ℤ) × (futex_wakelike (task 7) 3 16 1 1 32 match_any three_wait
      ≡ returned t r)
    × IsRequeue (matches three_wait match_any) 1 1 1 16 32 three_wait t r
futex_wakelike-IsRequeue_example =
    futex_wakelike-IsRequeue (task 7) 16 32 1 1 match_any three_wait (λ e. absurd (omega arith))
      refl refl (omega arith) Reaches-IsTable_example

until-exact_example :
    let r =
      until
        (record { tv_sec = pos 5; tv_nsec = pos 900000000 })
        (record { tv_sec = pos 7; tv_nsec = pos 100000000 }) in
    (s : ℕ) × (n : ℕ) × (r ≡ record { tv_sec = pos s; tv_nsec = pos n })
    × (n < 1000000000)
    × (s * 1000000000 + n ≡ 7 * 1000000000 + 100000000 - (5 * 1000000000 + 900000000))
until-exact_example = until-exact 5 900000000 7 100000000 (omega arith) (omega arith)

abbrev no_addr : ℕ
no_addr = 0
