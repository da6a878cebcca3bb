-- ===== src/Fs/Lock/Invariant.antt =====
-- The invariants of a lock table of fs/lock.c: it is grouped by owner, and no write lock stands on
-- a byte that another owner has locked.
use mathlib.Core.Path.{subst}
use codex_for_ipad.Prelude.{
  ℕ, ◌≡◌, refl, sym, ap, ◌∙◌, ◌≢◌, ◌⊎◌, inl, inr, Bool, true, false, none, some, List, [], ◌∷◌,
  ◌++◌, arith, ◌==◌, ==_iff, Bool-cases, if◌then◌else◌,
}
use codex_for_ipad.Prelude.Int.{ℤ}
use codex_for_ipad.Prelude.Errno.{ok}
use codex_for_ipad.Fs.Lock.{
  wrlck, unlck, same_type, FileLock, file_locks_overlap, file_locks_conflict, subtract, absorb,
  place, acquire_loop, file_lock_acquire, file_lock_test, file_lock_remove_owned_by,
}
use codex_for_ipad.Fs.Lock.Held.{HasBefore, covers, held, Absent, Block, Grouped, same_type-eq}
use codex_for_ipad.Fs.Lock.Acquire.{
  loop-mine, loop-behind, loop-ahead, loop-end, absorb-owner, Block-stop, acquire-ok, HaveBefore,
  acquire-held,
}

-- All locks of a list belong to owner `o`.
abbrev Owned : ℕ → List FileLock → Type 0
Owned o [] = Unit {0}
Owned o (l ∷ ls) = (l.owner ≡ o) × Owned o ls

kept-Owned : (r l : FileLock) (o : ℕ) → l.owner ≡ o → Owned o (absorb r l).1
unfolding absorb subtract
kept-Owned r l o e = ground arith

Absent-append :
    (o p : ℕ) (xs ys : List FileLock) → Owned p xs → p ≢ o → Absent o ys → Absent o (xs ++ ys)
Absent-append o p [] ys h n a = a
Absent-append o p (x ∷ xs) ys h n a = ((λ e. n (sym h.0 ∙ e)), Absent-append o p xs ys h.1 n a)

Block-append : (o : ℕ) (xs ys : List FileLock) → Owned o xs → Block o ys → Block o (xs ++ ys)
Block-append o [] ys h b = b
Block-append o (x ∷ xs) ys h b = inl (h.0, Block-append o xs ys h.1 b)

Grouped-append :
    (o : ℕ) (xs ys : List FileLock) → Owned o xs → Block o ys → Grouped ys → Grouped (xs ++ ys)
Grouped-append o [] ys h b g = g
Grouped-append o (x ∷ xs) ys h b g =
    (rw h.0 (Block-append o xs ys h.1 b), Grouped-append o xs ys h.1 b g)

Absent-place :
    (o : ℕ) (r : FileLock) (ls : List FileLock) → r.owner ≢ o → Absent o ls → Absent o (place r ls)
unfolding place
Absent-place o r ls n a = ground arith

Absent-Block : (o : ℕ) (ls : List FileLock) → Absent o ls → Block o ls
Absent-Block o [] a = tt
Absent-Block o (l ∷ ls) a = inr a

place-Grouped :
    (r : FileLock) (ls : List FileLock)
    → Absent r.owner ls
    → Grouped ls
    → Block r.owner (place r ls) × Grouped (place r ls)
unfolding place
place-Grouped r ls a g = elim (Bool-cases (same_type r.type unlck)) [
  | inl e ↦ rw e (Absent-Block r.owner ls a, g)
  | inr e ↦ rw e (inl (refl, Absent-Block r.owner ls a), (Absent-Block r.owner ls a, g))
]

-- No lock of another owner appears.
loop-Absent :
    (found : Bool) (r : FileLock) (o : ℕ) (ls : List FileLock)
    → r.owner ≢ o
    → Absent o ls
    → Absent o (acquire_loop found r ls).0
loop-Absent found r o [] n a = rw (loop-end found r) (Absent-place o r [] n a)
loop-Absent found r o (l ∷ ls) n a = elim (Bool-cases (l.owner == r.owner)) [
  | inl mine ↦ rw (loop-mine found r l ls mine) (
      Absent-append o l.owner (absorb r l).1 _ (kept-Owned r l l.owner refl) a.0
        (loop-Absent true (absorb r l).0 o ls (λ e. n (sym (absorb-owner r l).0 ∙ e)) a.1))
  | inr other ↦ others found other (loop-Absent false r o ls n a.1)
]
  where
    others :
        (found : Bool)
        → (l.owner == r.owner) ≡ false
        → Absent o (acquire_loop false r ls).0
        → Absent o (acquire_loop found r (l ∷ ls)).0
    others true other ih = rw (loop-behind r l ls other) (Absent-place o r (l ∷ ls) n a)
    others false other ih = rw (loop-ahead r l ls other) (a.0, ih)

-- Inside our group the rest of the table stays grouped, our locks first.
loop_inside :
    (r : FileLock) (o : ℕ) (ls : List FileLock)
    → r.owner ≡ o
    → Block o ls
    → Grouped ls
    → Block o (acquire_loop true r ls).0 × Grouped (acquire_loop true r ls).0
loop_inside r o [] e b g = rw (loop-end true r) (rw (← e) (place-Grouped r [] tt tt))
loop_inside r o (l ∷ ls) e b g = elim (Bool-cases (l.owner == r.owner)) [
  | inl mine ↦
      let e' : l.owner ≡ o = (==_iff l.owner r.owner).0 mine ∙ e in
      let ih = loop_inside (absorb r l).0 o ls ((absorb-owner r l).0 ∙ e) (rw (← e') g.0) g.1 in
      let kept = kept-Owned r l o e' in
      rw (loop-mine true r l ls mine) (
        Block-append o (absorb r l).1 _ kept ih.0,
        Grouped-append o (absorb r l).1 _ kept ih.0 ih.1,
      )
  | inr other ↦ rw (loop-behind r l ls other) (
      subst (λ k. Block k (place r (l ∷ ls)) × Grouped (place r (l ∷ ls))) e
        (place-Grouped r (l ∷ ls)
          (subst (λ k. Absent k (l ∷ ls)) (sym e) (Block-stop o l ls b (ground arith))) g))
]

-- Before our group.
loop-Block :
    (r : FileLock) (o : ℕ) (ls : List FileLock)
    → r.owner ≢ o
    → Block o ls
    → Block o (acquire_loop false r ls).0
loop-Block r o [] n b = Absent-Block o _ (loop-Absent false r o [] n tt)
loop-Block r o (l ∷ ls) n (inr a) = Absent-Block o _ (loop-Absent false r o (l ∷ ls) n a)
loop-Block r o (l ∷ ls) n (inl (e, b)) =
    rw (loop-ahead r l ls (ground arith)) (inl (e, loop-Block r o ls n b))

loop-Grouped :
    (r : FileLock) (ls : List FileLock) → Grouped ls → Grouped (acquire_loop false r ls).0
loop-Grouped r [] g = rw (loop-end false r) (place-Grouped r [] tt tt).1
loop-Grouped r (l ∷ ls) g = elim (Bool-cases (l.owner == r.owner)) [
  | inl mine ↦
      let e = (==_iff l.owner r.owner).0 mine in
      let ih = loop_inside (absorb r l).0 r.owner ls (absorb-owner r l).0 (rw (← e) g.0) g.1 in
      rw (loop-mine false r l ls mine)
        (Grouped-append r.owner (absorb r l).1 _ (kept-Owned r l r.owner e) ih.0 ih.1)
  | inr other ↦
      rw (loop-ahead r l ls other)
        (loop-Block r l.owner ls (ground arith) g.0, loop-Grouped r ls g.1)
]

-- A table stays grouped by owner under every request that succeeds.
pub acquire-Grouped :
    (ls : List FileLock) (r : FileLock) (ls' : List FileLock) (notified : Bool)
    → Grouped ls
    → file_lock_acquire ls r ≡ ok (ls', notified)
    → Grouped ls'
acquire-Grouped ls r ls' notified g h = rw (ap (λ p. p.0) (acquire-ok ls r h)) (loop-Grouped r ls g)

-- Where one owner has a write lock, no other owner has a lock.
abbrev pub IsExclusive : List FileLock → Type 0
IsExclusive ls = (a b : ℕ) (x : ℤ) → a ≢ b → held ls a x ≡ some wrlck → held ls b x ≡ none

-- A request that passes the test meets, on its bytes, no lock of another owner that conflicts.
test-clear :
    (ls : List FileLock) (r : FileLock) (o : ℕ) (x : ℤ)
    → file_lock_test ls r ≡ none
    → covers r x ≡ true
    → o ≢ r.owner
    → (held ls o x ≢ some wrlck) × (r.type ≡ wrlck → held ls o x ≡ none)
unfolding file_lock_test file_locks_conflict file_locks_overlap
test-clear [] r o x t c n = (λ e. cc, λ e. refl)
test-clear (l ∷ ls) r o x t c n = ground (arith, test-clear ls r o x)

acquire-tested :
    (ls : List FileLock) (r : FileLock) (ls' : List FileLock) (notified : Bool)
    → file_lock_acquire ls r ≡ ok (ls', notified)
    → (r.type ≡ unlck) ⊎ (file_lock_test ls r ≡ none)
unfolding file_lock_acquire
acquire-tested ls r ls' notified h = ground (arith, same_type-eq r.type unlck)

-- On a table that is grouped by owner, a request that succeeds keeps write locks exclusive: it
-- never leaves a write lock of one owner on a byte that another owner has locked. The request and the locks start
-- at values of `off_t` above the lowest, -2 ^ 63.
pub acquire-IsExclusive :
    (ls : List FileLock) (r : FileLock) (ls' : List FileLock) (notified : Bool)
    → HasBefore r
    → HaveBefore ls
    → Grouped ls
    → IsExclusive ls
    → file_lock_acquire ls r ≡ ok (ls', notified)
    → IsExclusive ls'
acquire-IsExclusive ls r ls' notified u v g ex h a b x n w = ground (
  arith,
  acquire-held ls r ls' notified a x u v g h,
  acquire-held ls r ls' notified b x u v g h,
  acquire-tested ls r ls' notified h,
  test-clear ls r a x,
  test-clear ls r b x,
  ex a b x n,
)

-- Dropping an owner's locks.
removed-Absent :
    (o p : ℕ) (ls : List FileLock) → Absent o ls → Absent o (file_lock_remove_owned_by ls p)
unfolding file_lock_remove_owned_by
removed-Absent o p [] a = tt
removed-Absent o p (l ∷ ls) a = elim (Bool-cases (l.owner == p)) [
  | inl e ↦ rw e (removed-Absent o p ls a.1)
  | inr e ↦ rw e (a.0, removed-Absent o p ls a.1)
]

removed-Block :
    (o p : ℕ) (ls : List FileLock) → Block o ls → Block o (file_lock_remove_owned_by ls p)
unfolding file_lock_remove_owned_by
removed-Block o p [] b = tt
removed-Block o p (l ∷ ls) (inr a) = Absent-Block o _ (removed-Absent o p (l ∷ ls) a)
removed-Block o p (l ∷ ls) (inl (e, b)) = elim (Bool-cases (l.owner == p)) [
  | inl m ↦ rw m (removed-Block o p ls b)
  | inr m ↦ rw m (inl (e, removed-Block o p ls b))
]

removed-Grouped :
    (p : ℕ) (ls : List FileLock) → Grouped ls → Grouped (file_lock_remove_owned_by ls p)
unfolding file_lock_remove_owned_by
removed-Grouped p [] g = tt
removed-Grouped p (l ∷ ls) g = elim (Bool-cases (l.owner == p)) [
  | inl m ↦ rw m (removed-Grouped p ls g.1)
  | inr m ↦ rw m (removed-Block l.owner p ls g.0, removed-Grouped p ls g.1)
]

removed-held :
    (p o : ℕ) (x : ℤ) (ls : List FileLock)
    → held (file_lock_remove_owned_by ls p) o x ≡ (if o == p then none else held ls o x)
unfolding file_lock_remove_owned_by
removed-held p o x [] = ground arith
removed-held p o x (l ∷ ls) = ground (arith, removed-held p o x ls)

-- Closing a descriptor drops all locks of the file table on the inode and no others, and the table
-- stays grouped.
pub remove_owned_by-held :
    (ls : List FileLock) (p : ℕ)
    → Grouped ls
    → Grouped (file_lock_remove_owned_by ls p)
      × ((o : ℕ) (x : ℤ)
          → held (file_lock_remove_owned_by ls p) o x ≡ (if o == p then none else held ls o x))
remove_owned_by-held ls p g = (removed-Grouped p ls g, λ o x. removed-held p o x ls)
