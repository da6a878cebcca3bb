-- ===== src/Kernel/Futex/Counts.antt =====
-- How often a number is in a list, how many waits are on a futex, and the searches of kernel/futex.c.
use codex_for_ipad.Prelude.{
  ℕ, ◌+◌, ◌-◌, ◌≤◌, ◌<◌, ◌≡◌, refl, none, some, List, [], ◌∷◌, ◌++◌, arith, ◌==◌, if◌then◌else◌,
  length,
}
use codex_for_ipad.Kernel.Memory.{update}
use codex_for_ipad.Kernel.Futex.{Futex, FutexWait, list_remove, find_futex}
use codex_for_ipad.Kernel.Futex.Calls.{next_entry, first_entry}

abbrev pub one_if : ℕ → ℕ → ℕ
one_if x y = if x == y then 1 else 0

abbrev pub times : ℕ → List ℕ → ℕ
times w [] = 0
times w (x ∷ xs) = one_if x w + times w xs

-- The waits of a list that are on the futex `p`.
abbrev pub users : (ℕ → FutexWait) → List ℕ → ℕ → ℕ
users waits [] p = 0
users waits (w ∷ ws) p = one_if (waits w).futex p + users waits ws p

pub times-append : (w : ℕ) (xs ys : List ℕ) → times w (xs ++ ys) ≡ times w xs + times w ys
times-append w [] ys = omega arith
times-append w (x ∷ xs) ys = omega (arith, times-append w xs ys)

pub times-remove :
    (w x : ℕ) (xs : List ℕ)
    → times x (list_remove w xs) ≡ (if w == x then times x xs - 1 else times x xs)
unfolding list_remove
times-remove w x [] = ground arith
times-remove w x (y ∷ ys) = ground (arith, times-remove w x ys)

pub times-none : (xs : List ℕ) → ((w : ℕ) → times w xs ≡ 0) → xs ≡ []
times-none [] h = refl
times-none (x ∷ xs) h = absurd (ground (arith, h x))

pub users-le : (waits : ℕ → FutexWait) (ws : List ℕ) (p : ℕ) → users waits ws p ≤ length ws
users-le waits [] p = omega arith
users-le waits (w ∷ ws) p = ground (arith, users-le waits ws p)

-- A live wait is on a futex that has users.
pub used_none :
    (waits : ℕ → FutexWait) (w : ℕ) (ws : List ℕ) (p : ℕ)
    → users waits ws p ≡ 0
    → (if (waits w).futex == p then times w ws else 0) ≡ 0
used_none waits w [] p h = ground arith
used_none waits w (x ∷ xs) p h = ground (arith, used_none waits w xs p)

pub users-positive :
    (waits : ℕ → FutexWait) (w : ℕ) (ws : List ℕ) (p : ℕ)
    → (waits w).futex ≡ p
    → 0 < times w ws
    → 0 < users waits ws p
users-positive waits w [] p e h = absurd (omega arith)
users-positive waits w (x ∷ xs) p e h = ground (arith, users-positive waits w xs p)

-- A wait that is in a list counts among those on its futex.
pub users-remove :
    (waits : ℕ → FutexWait) (w : ℕ) (ws : List ℕ) (p : ℕ)
    → 0 < times w ws
    → users waits (list_remove w ws) p + one_if (waits w).futex p ≡ users waits ws p
unfolding list_remove
users-remove waits w [] p h = absurd (omega arith)
users-remove waits w (x ∷ xs) p h = ground (arith, users-remove waits w xs p)

pub users-update :
    (waits : ℕ → FutexWait) (w : ℕ) (v : FutexWait) (ws : List ℕ) (p : ℕ)
    → users (update waits w v) ws p + (if (waits w).futex == p then times w ws else 0)
      ≡ users waits ws p + (if v.futex == p then times w ws else 0)
users-update waits w v [] p = ground arith
users-update waits w v (x ∷ xs) p = ground (arith, users-update waits w v xs p)

pub find_futex-found :
    (futexes : ℕ → Futex) (mem addr p : ℕ) (chain : List ℕ)
    → find_futex futexes mem addr chain ≡ some p
    → (0 < times p chain) × ((futexes p).mem ≡ mem) × ((futexes p).addr ≡ addr)
unfolding find_futex
find_futex-found futexes mem addr p [] h = cc
find_futex-found futexes mem addr p (x ∷ xs) h =
    ground (arith, find_futex-found futexes mem addr p xs)

pub find_futex-missing :
    (futexes : ℕ → Futex) (mem addr p : ℕ) (chain : List ℕ)
    → find_futex futexes mem addr chain ≡ none
    → (futexes p).mem ≡ mem
    → (futexes p).addr ≡ addr
    → times p chain ≡ 0
unfolding find_futex
find_futex-missing futexes mem addr p [] h m a = refl
find_futex-missing futexes mem addr p (x ∷ xs) h m a =
    ground (arith, find_futex-missing futexes mem addr p xs)

-- The entry behind one that is in a list once is another entry.
pub next_entry-times :
    (w y : ℕ) (ws : List ℕ)
    → next_entry w ws ≡ some y
    → times w ws ≤ 1
    → 0 < times y (list_remove w ws)
unfolding next_entry list_remove
next_entry-times w y [] e h = cc
next_entry-times w y (x ∷ []) e h = cc
next_entry-times w y (x ∷ z ∷ ws) e h = ground (arith, next_entry-times w y (z ∷ ws))

pub first_entry-times : (y : ℕ) (ws : List ℕ) → first_entry ws ≡ some y → 0 < times y ws
first_entry-times y [] e = cc
first_entry-times y (x ∷ xs) e = ground arith
