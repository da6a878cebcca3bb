-- ===== src/Fs/Lock/Acquire.antt =====
-- `file_lock_acquire` of fs/lock.c as an update of the map from owners and bytes to locks.
use mathlib.Core.Path.{subst}
use codex_for_ipad.Prelude.{
  ℕ, ◌≡◌, refl, sym, ap, ◌∙◌, ◌≢◌, inl, inr, Bool, true, false, not, ◌&&◌, Option, none, List, [],
  ◌∷◌, ◌++◌, arith, ◌==◌, ==_iff, Bool-cases, if◌then◌else◌,
}
use codex_for_ipad.Prelude.Int.{ℤ}
use codex_for_ipad.Prelude.Errno.{ok}
use codex_for_ipad.Fs.Lock.{
  LockType, unlck, same_type, FileLock, file_locks_overlap, file_locks_adjacent, extend, subtract,
  absorb, place, visit, acquire_loop, file_lock_acquire,
}
use codex_for_ipad.Fs.Lock.Held.{
  HasBefore, effect, covers, held_or, held, Absent, Block, Grouped, same_type-eq, covers-extend,
  apart, held-subtract,
}

held_or-append :
    (d : Option LockType) (xs ys : List FileLock) (o : ℕ) (x : ℤ)
    → held_or d (xs ++ ys) o x ≡ held_or (held_or d ys o x) xs o x
held_or-append d [] ys o x = refl
held_or-append d (l ∷ xs) ys o x = ground (arith, held_or-append d xs ys o x)

held-Absent : (o : ℕ) (ls : List FileLock) (x : ℤ) → Absent o ls → held ls o x ≡ none
held-Absent o [] x h = refl
held-Absent o (l ∷ ls) x h = ground (arith, held-Absent o ls x h.1)

pub absorb-owner :
    (r l : FileLock) → ((absorb r l).0.owner ≡ r.owner) × ((absorb r l).0.type ≡ r.type)
unfolding absorb extend
absorb-owner r l = ground arith

absorb-held :
    (r l : FileLock) (d : Option LockType) (o : ℕ) (x : ℤ)
    → HasBefore r
    → HasBefore l
    → (l.owner == o) ≡ true
    → held_or (if covers (absorb r l).0 x then effect r.type else d) (absorb r l).1 o x
      ≡ (if covers r x then effect r.type else if covers l x then effect l.type else d)
unfolding absorb
absorb-held r l d o x u v e = elim (Bool-cases (same_type r.type l.type)) [
  | inl same ↦ elim (Bool-cases (not (file_locks_overlap l r) && not (file_locks_adjacent r l))) [
    | inl far ↦ rw (same, far) (ground (arith, apart r l x))
    | inr near ↦
        rw (same, near)
          (ground
            (arith, covers-extend r l x u v near, ap effect (same_type-eq r.type l.type same)))
  ]
  | inr differ ↦ elim (Bool-cases (file_locks_overlap l r)) [
    | inl over ↦
        rw (differ, over)
          (ground (arith, held-subtract r l (if covers r x then effect r.type else d) o x over e))
    | inr far ↦ rw (differ, far) (ground (arith, apart r l x far))
  ]
]

-- The request grows by locks whose first bytes have one before.
absorb-HasBefore : (r l : FileLock) → HasBefore r → HasBefore l → HasBefore (absorb r l).0
unfolding absorb extend
absorb-HasBefore r l u v = ground (arith, u.0, u.1, v.0, v.1)

abbrev pub HaveBefore : List FileLock → Type 0
HaveBefore [] = Unit {0}
HaveBefore (l ∷ ls) = HasBefore l × HaveBefore ls

held-place :
    (r : FileLock) (ls : List FileLock) (o : ℕ) (x : ℤ)
    → held (place r ls) o x ≡ (
        if r.owner == o && covers r x
        then (if same_type r.type unlck then held ls o x else effect r.type)
        else held ls o x)
unfolding place
held-place r ls o x = ground arith

Absent-tail : (o : ℕ) (l : FileLock) (ls : List FileLock) → Absent o (l ∷ ls) → Absent o ls
Absent-tail o l ls h = h.1

pub Block-stop :
    (o : ℕ) (l : FileLock) (ls : List FileLock)
    → Block o (l ∷ ls)
    → (l.owner == o) ≡ false
    → Absent o (l ∷ ls)
Block-stop o l ls (inl (e, _)) h = ground arith
Block-stop o l ls (inr a) h = a

Block-next :
    (o : ℕ) (l : FileLock) (ls : List FileLock)
    → Block o (l ∷ ls)
    → (l.owner == o) ≡ true
    → Block o ls
Block-next o l ls (inl (_, b)) h = b
Block-next o l ls (inr a) h = absurd (a.0 ((==_iff l.owner o).0 h))

-- The three turns of the loop.
pub loop-mine :
    (found : Bool) (r l : FileLock) (ls : List FileLock)
    → (l.owner == r.owner) ≡ true
    → (acquire_loop found r (l ∷ ls)).0 ≡ (absorb r l).1 ++ (acquire_loop true (absorb r l).0 ls).0
unfolding acquire_loop visit
loop-mine found r l ls e = ground arith

pub loop-behind :
    (r l : FileLock) (ls : List FileLock)
    → (l.owner == r.owner) ≡ false
    → (acquire_loop true r (l ∷ ls)).0 ≡ place r (l ∷ ls)
unfolding acquire_loop visit
loop-behind r l ls e = ground arith

pub loop-ahead :
    (r l : FileLock) (ls : List FileLock)
    → (l.owner == r.owner) ≡ false
    → (acquire_loop false r (l ∷ ls)).0 ≡ l ∷ (acquire_loop false r ls).0
unfolding acquire_loop visit
loop-ahead r l ls e = ground arith

pub loop-end : (found : Bool) (r : FileLock) → (acquire_loop found r []).0 ≡ place r []
unfolding acquire_loop
loop-end found r = refl

module _ (x : ℤ) where
  -- After the loop over `ls` the request has its bytes, and the others are as before.
  abbrev Taken : Bool → FileLock → ℕ → List FileLock → Type 0
  Taken found r o ls =
      held (acquire_loop found r ls).0 o x ≡ (if covers r x then effect r.type else held ls o x)

  own_step :
      (found : Bool) (r l : FileLock) (o : ℕ) (ls : List FileLock)
      → HasBefore r
      → HasBefore l
      → (l.owner == r.owner) ≡ true
      → r.owner ≡ o
      → Taken true (absorb r l).0 o ls
      → Taken found r o (l ∷ ls)
  own_step found r l o ls u v mine e ih =
      rw
        (
          loop-mine found r l ls mine,
          held_or-append none (absorb r l).1 (acquire_loop true (absorb r l).0 ls).0 o x,
          ih,
          (absorb-owner r l).1,
        )
        (ground (arith, absorb-held r l (held ls o x) o x u v))

  own_bytes :
      (found : Bool) (r : FileLock) (o : ℕ) (ls : List FileLock)
      → HasBefore r
      → HaveBefore ls
      → r.owner ≡ o
      → (found ≡ true → Block o ls)
      → Grouped ls
      → Taken found r o ls
  own_bytes found r o [] u v e b g =
      rw (loop-end found r) (ground (arith, held-place r [] o x, same_type-eq r.type unlck))
  own_bytes found r o (l ∷ ls) u v e b g = elim (Bool-cases (l.owner == r.owner)) [
    | inl mine ↦ own_step found r l o ls u v.0 mine e (
        own_bytes true (absorb r l).0 o ls (absorb-HasBefore r l u v.0) v.1
          ((absorb-owner r l).0 ∙ e)
          (λ _. subst (λ k. Block k ls) ((==_iff l.owner r.owner).0 mine ∙ e) g.0) g.1)
    | inr other ↦ others found b other (own_bytes false r o ls u v.1 e (λ h. cc) g.1)
  ]
    where
      others :
          (found : Bool)
          → (found ≡ true → Block o (l ∷ ls))
          → (l.owner == r.owner) ≡ false
          → Taken false r o ls
          → Taken found r o (l ∷ ls)
      others true b other ih =
          let gone = held-Absent o (l ∷ ls) x (Block-stop o l ls (b refl) (ground arith)) in
          rw (loop-behind r l ls other, held-place r (l ∷ ls) o x, gone)
            (ground (arith, same_type-eq r.type unlck))
      others false b other ih = rw (loop-ahead r l ls other) (ground (arith, ih))

  absorb_foreign :
      (r l : FileLock) (d : Option LockType) (o : ℕ)
      → (l.owner == o) ≡ false
      → held_or d (absorb r l).1 o x ≡ d
  unfolding absorb subtract
  absorb_foreign r l d o h = ground arith

  -- Other owners keep what they have.
  foreign_bytes :
      (found : Bool) (r : FileLock) (o : ℕ) (ls : List FileLock)
      → r.owner ≢ o
      → held (acquire_loop found r ls).0 o x ≡ held ls o x
  foreign_bytes found r o [] n = rw (loop-end found r) (ground (arith, held-place r [] o x))
  foreign_bytes found r o (l ∷ ls) n = elim (Bool-cases (l.owner == r.owner)) [
    | inl mine ↦
        rw
          (
            loop-mine found r l ls mine,
            held_or-append none (absorb r l).1 (acquire_loop true (absorb r l).0 ls).0 o x,
          )
          (ground (
            arith,
            foreign_bytes true (absorb r l).0 o ls (λ e. n (sym (absorb-owner r l).0 ∙ e)),
            absorb_foreign r l (held ls o x) o,
          ))
    | inr other ↦ others found other (foreign_bytes false r o ls n)
  ]
    where
      others :
          (found : Bool)
          → (l.owner == r.owner) ≡ false
          → held (acquire_loop false r ls).0 o x ≡ held ls o x
          → held (acquire_loop found r (l ∷ ls)).0 o x ≡ held (l ∷ ls) o x
      others true other ih = rw (loop-behind r l ls other, held-place r (l ∷ ls) o x) (ground arith)
      others false other ih = rw (loop-ahead r l ls other) (ground (arith, ih))

pub acquire-ok :
    (ls : List FileLock) (r : FileLock) {res : List FileLock × Bool}
    → file_lock_acquire ls r ≡ ok res
    → res ≡ acquire_loop false r ls
unfolding file_lock_acquire
acquire-ok ls r h = ground arith

-- On a table that is grouped by owner, a request that succeeds changes just the bytes that it
-- names, for its owner: they get its type (none by an unlock), whatever locks of the owner had to be
-- merged, cut or split. All other bytes and all other owners are as before. The request and the locks start at
-- values of `off_t` above the lowest, -2 ^ 63.
pub acquire-held :
    (ls : List FileLock) (r : FileLock) (ls' : List FileLock) (notified : Bool) (o : ℕ) (x : ℤ)
    → HasBefore r
    → HaveBefore ls
    → Grouped ls
    → file_lock_acquire ls r ≡ ok (ls', notified)
    → held ls' o x ≡ (if o == r.owner && covers r x then effect r.type else held ls o x)
acquire-held ls r ls' notified o x u v g h = elim (Bool-cases (o == r.owner)) [
  | inl mine ↦
      let e : r.owner ≡ o = ground arith in
      rw (mine, ap (λ p. p.0) (acquire-ok ls r h)) (own_bytes x false r o ls u v e (λ f. cc) g)
  | inr other ↦
      rw (other, ap (λ p. p.0) (acquire-ok ls r h)) (foreign_bytes x false r o ls (ground arith))
]
