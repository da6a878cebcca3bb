-- ===== src/Fs/Lock/Flock/Calls.antt =====
-- The calls of fs/lock.c: ranges, and F_GETLK against F_SETLK.
use codex_for_ipad.Prelude.{
  ℕ, ◌%◌, ◌≡◌, refl, sym, ◌∙◌, ◌≢◌, true, false, none, some, List, [], ◌∷◌, arith, if◌then◌else◌,
  Bool-cases, inl, inr, Option-cases,
}
use codex_for_ipad.Prelude.Int.{
  ℤ, pos, negsuc, ◌+ℤ◌, ◌-ℤ◌, ◌≤ℤ◌, ltb_ℤ, eqb_ℤ, +ℤ_parts, -ℤ_parts, eq_of_parts, int_laws,
}
use codex_for_ipad.Prelude.Errno.{eagain, Result, ok, err}
use codex_for_ipad.Fs.Lock.{
  LockType, rdlck, wrlck, unlck, FileLock, file_lock_test, file_lock_acquire, acquire_loop,
  off_t_max, off_t_min, off_t,
}
use codex_for_ipad.Fs.Lock.Held.{same_type-eq}
use codex_for_ipad.Fs.Lock.Flock.{
  Flock, lock_type, lock_word, Context, base_offset, range, file_lock_from_flock,
  flock_from_file_lock, fcntl_getlk, mode_allows, locked, failed, setlk_loop, fcntl_setlk, waiting,
}

off_t_id : (z : ℤ) → off_t_min ≤ℤ z → z ≤ℤ off_t_max → off_t z ≡ z
unfolding off_t
off_t_id z lo hi = ground arith

back_to_end : (s e : ℤ) → s +ℤ (e -ℤ s +ℤ pos 1) -ℤ pos 1 ≡ e
back_to_end s e = omega int_laws

length-pos : (s e : ℤ) → s ≤ℤ e → ltb_ℤ (pos 0) (e -ℤ s +ℤ pos 1) ≡ true
length-pos s e h = ground (arith, +ℤ_parts (e -ℤ s) (pos 1), -ℤ_parts e s)

-- A length that reaches up to the last byte, or 0 for the end of the file.
range-from :
    (s e : ℤ)
    → pos 0 ≤ℤ s
    → s ≤ℤ e
    → e ≤ℤ off_t_max
    → range s (if eqb_ℤ e off_t_max then pos 0 else off_t (off_t (e -ℤ s) +ℤ pos 1)) ≡ (s, e)
unfolding range
range-from s e h k m = elim (Bool-cases (eqb_ℤ e off_t_max)) [
  | inl top ↦ rw top (ground (arith, eq_of_parts off_t_max e))
  | inr inside ↦
      let size : off_t (e -ℤ s) ≡ e -ℤ s = off_t_id (e -ℤ s) (omega int_laws) (omega int_laws) in
      let whole : off_t (e -ℤ s +ℤ pos 1) ≡ e -ℤ s +ℤ pos 1 =
        off_t_id (e -ℤ s +ℤ pos 1) (omega int_laws)
          (ground (arith, inside, +ℤ_parts (e -ℤ s) (pos 1), -ℤ_parts e s)) in
      rw (inside, size, whole, length-pos s e k, back_to_end s e) (rw (off_t_id e (omega arith) m))
]

zero_base : (s : ℤ) → s +ℤ pos 0 ≡ s
zero_base s = omega int_laws

-- The lock that F_GETLK describes is the range that F_SETLK reads from that description: first and
-- last byte survive the way out and back in, up to the end of the file.
pub file_lock_from_flock-flock_from_file_lock :
    (c : Context) (lock : FileLock)
    → pos 0 ≤ℤ lock.start
    → lock.start ≤ℤ lock.end
    → lock.end ≤ℤ off_t_max
    → file_lock_from_flock c (flock_from_file_lock lock) lock.type
      ≡ ok (record lock { pid = c.pid; owner = c.files })
unfolding file_lock_from_flock flock_from_file_lock base_offset
file_lock_from_flock-flock_from_file_lock c lock h k m = rw (
  zero_base lock.start,
  off_t_id lock.start (omega arith) (omega arith),
  range-from lock.start lock.end h k m,
)

-- A negative length names the bytes in front of the start, as long as no sum leaves `off_t`.
pub range_negative :
    (s len : ℤ)
    → off_t_min ≤ℤ s +ℤ len
    → s ≤ℤ off_t_max
    → len ≤ℤ negsuc 0
    → range s len ≡ (s +ℤ len, s -ℤ pos 1)
unfolding range
range_negative s len h k m =
    let less : ltb_ℤ (pos 0) len ≡ false = ground arith in
    let more : ltb_ℤ len (pos 0) ≡ true = ground arith in
    let e : off_t (s -ℤ pos 1) ≡ s -ℤ pos 1 = off_t_id _ (omega int_laws) (omega int_laws) in
    let total : s -ℤ pos 1 +ℤ len +ℤ pos 1 ≡ s +ℤ len = omega int_laws in
    rw (less, more, e, total) (rw (off_t_id (s +ℤ len) h (omega int_laws)))

-- The table holds no entry that stands for an unlock.
abbrev pub NoUnlock : List FileLock → Type 0
NoUnlock [] = Unit {0}
NoUnlock (l ∷ ls) = (l.type ≢ unlck) × NoUnlock ls

test-NoUnlock :
    (ls : List FileLock) (r : FileLock) (l : FileLock)
    → NoUnlock ls
    → file_lock_test ls r ≡ some l
    → l.type ≢ unlck
unfolding file_lock_test
test-NoUnlock [] r l n h = cc
test-NoUnlock (k ∷ ls) r l n h = ground (arith, test-NoUnlock ls r l n.1, n.0)

lock_word-unlck : (t : LockType) → lock_word t ≡ 2 → t ≡ unlck
lock_word-unlck rdlck h = absurd (omega arith)
lock_word-unlck wrlck h = absurd (omega arith)
lock_word-unlck unlck h = refl

flock_word : (l : FileLock) → (flock_from_file_lock l).type ≡ lock_word l.type
unfolding flock_from_file_lock
flock_word l = refl

-- What F_GETLK reports for a request.
getlk_answer : List FileLock → Flock → FileLock → Flock
getlk_answer locks flock request = elim (file_lock_test locks request) [
  | some lock ↦ flock_from_file_lock lock
  | none ↦ record flock { type = 2 }
]

from_flock-type :
    (c : Context) (flock : Flock) (t : LockType) (request : FileLock)
    → file_lock_from_flock c flock t ≡ ok request
    → request.type ≡ t
unfolding file_lock_from_flock base_offset
from_flock-type c flock t request h = ground arith

getlk-answer :
    (c : Context) (locks : List FileLock) (flock : Flock) (t : LockType) (request : FileLock)
    → lock_type flock.type ≡ some t
    → t ≢ unlck
    → file_lock_from_flock c flock t ≡ ok request
    → fcntl_getlk c locks flock ≡ ok (getlk_answer locks flock request)
unfolding fcntl_getlk getlk_answer
getlk-answer c locks flock rdlck request e n h = ground arith
getlk-answer c locks flock wrlck request e n h = ground arith
getlk-answer c locks flock unlck request e n h = absurd (n refl)

setlk-answer :
    (c : Context) (flags : ℕ) (locks : List FileLock) (flock : Flock) (t : LockType)
    (request : FileLock)
    → lock_type flock.type ≡ some t
    → mode_allows (flags % 4) t ≡ true
    → file_lock_from_flock c flock t ≡ ok request
    → fcntl_setlk c flags false locks flock [] ≡ setlk_loop false locks request []
unfolding fcntl_setlk
setlk-answer c flags locks flock t request e m h = ground arith

acquire-test :
    (locks : List FileLock) (request : FileLock)
    → request.type ≢ unlck
    → file_lock_acquire locks request ≡ (elim (file_lock_test locks request) [
      | some _ ↦ err eagain
      | none ↦ ok (acquire_loop false request locks)
    ])
unfolding file_lock_acquire
acquire-test locks request n = ground (arith, same_type-eq request.type unlck)

-- F_GETLK foretells F_SETLK: for a request that both accept, on a table without entries for
-- unlocks, F_GETLK answers; if it answers F_UNLCK then F_SETLK takes the lock, and if it answers
-- anything else then F_SETLK fails with EAGAIN.
pub getlk-setlk :
    (c : Context) (flags : ℕ) (locks : List FileLock) (flock : Flock) (t : LockType)
    (request : FileLock)
    → lock_type flock.type ≡ some t
    → t ≢ unlck
    → mode_allows (flags % 4) t ≡ true
    → file_lock_from_flock c flock t ≡ ok request
    → NoUnlock locks
    → (answer : Flock) × (fcntl_getlk c locks flock ≡ ok answer)
      × (answer.type ≡ 2
          → fcntl_setlk c flags false locks flock []
            ≡ locked (acquire_loop false request locks).0 (acquire_loop false request locks).1)
      × (answer.type ≢ 2 → fcntl_setlk c flags false locks flock [] ≡ failed eagain)
unfolding getlk_answer setlk_loop
getlk-setlk c flags locks flock t request e n m h clean = (
  getlk_answer locks flock request,
  getlk-answer c locks flock t request e n h,
  λ free. rw (setlk-answer c flags locks flock t request e m h) (granted free),
  λ taken. rw (setlk-answer c flags locks flock t request e m h) (refused taken),
)
  where
    wanted : request.type ≢ unlck
    wanted k = n (sym (from_flock-type c flock t request h) ∙ k)

    granted :
        (getlk_answer locks flock request).type ≡ 2
        → setlk_loop false locks request []
          ≡ locked (acquire_loop false request locks).0 (acquire_loop false request locks).1
    granted free = elim (Option-cases (file_lock_test locks request)) [
      | inl clear ↦ ground (arith, acquire-test locks request wanted)
      | inr (l, hit) ↦ absurd (
          test-NoUnlock locks request l clean hit
            (lock_word-unlck l.type (ground (arith, flock_word l))))
    ]

    refused :
        (getlk_answer locks flock request).type ≢ 2
        → setlk_loop false locks request [] ≡ failed eagain
    refused taken = ground (arith, acquire-test locks request wanted)

loop_answers :
    (locks : List FileLock) (a : FileLock) (w : List (Result (List FileLock)))
    → setlk_loop false locks a w ≢ waiting
unfolding setlk_loop
loop_answers locks a [] = ground arith
loop_answers locks a (ok t ∷ w) = ground arith
loop_answers locks a (err e ∷ w) = ground arith

-- A request that does not block is answered.
pub setlk_answers :
    (c : Context) (flags : ℕ) (locks : List FileLock) (l : Flock)
    (w : List (Result (List FileLock)))
    → fcntl_setlk c flags false locks l w ≢ waiting
unfolding fcntl_setlk
setlk_answers c flags locks l w = elim (Option-cases (lock_type l.type)) [
  | inl e ↦ ground arith
  | inr (t, e) ↦ elim (Bool-cases (mode_allows (flags % 4) t)) [
    | inr m ↦ ground arith
    | inl m ↦ rw (e, fcntl_setlk, m) (made (file_lock_from_flock c l t))
  ]
]
  where
    made :
        (r : Result FileLock)
        → elim r [ err e ↦ failed e | ok a ↦ setlk_loop false locks a w ] ≢ waiting
    made (ok a) = loop_answers locks a w
    made (err e) = ground arith
