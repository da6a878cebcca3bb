-- ===== src/Fs/Lock/Held.antt =====
-- What a lock table of fs/lock.c means: for each owner and each byte, the lock that it holds there.
use codex_for_ipad.Prelude.{
  ℕ, ◌≡◌, refl, ◌≢◌, ◌⊎◌, Bool, true, false, not, ◌&&◌, ◌||◌, Option, none, some, List, [], ◌∷◌,
  arith, ◌==◌, if◌then◌else◌,
}
use codex_for_ipad.Prelude.Int.{ℤ, pos, ◌+ℤ◌, ◌-ℤ◌, ltb_ℤ, leb_ℤ, +ℤ_parts, -ℤ_parts}
use codex_for_ipad.Fs.Lock.{
  LockType, rdlck, wrlck, unlck, same_type, FileLock, file_locks_overlap, file_locks_adjacent,
  extend, subtract, off_t, off_t_min, off_t_max,
}

-- An unlock stands for no lock.
abbrev pub effect : LockType → Option LockType
effect rdlck = some rdlck
effect wrlck = some wrlck
effect unlck = none

abbrev pub covers : FileLock → ℤ → Bool
covers lock x = leb_ℤ lock.start x && leb_ℤ x lock.end

-- The first lock of owner `o` on byte `x` counts, and `d` where there is none.
abbrev pub held_or : Option LockType → List FileLock → ℕ → ℤ → Option LockType
held_or d [] o x = d
held_or d (lock ∷ locks) o x =
    if lock.owner == o && covers lock x then effect lock.type else held_or d locks o x

abbrev pub held : List FileLock → ℕ → ℤ → Option LockType
held = held_or none

abbrev pub Absent : ℕ → List FileLock → Type 0
Absent o [] = Unit {0}
Absent o (lock ∷ locks) = (lock.owner ≢ o) × Absent o locks

-- The locks of owner `o` stand at the front.
abbrev pub Block : ℕ → List FileLock → Type 0
Block o [] = Unit {0}
Block o (lock ∷ locks) = ((lock.owner ≡ o) × Block o locks) ⊎ Absent o (lock ∷ locks)

-- The locks are grouped by owner.
abbrev pub Grouped : List FileLock → Type 0
Grouped [] = Unit {0}
Grouped (lock ∷ locks) = Block lock.owner locks × Grouped locks

pub same_type-eq : (t u : LockType) → same_type t u ≡ true → t ≡ u
same_type-eq rdlck rdlck h = refl
same_type-eq rdlck wrlck h = cc
same_type-eq rdlck unlck h = cc
same_type-eq wrlck rdlck h = cc
same_type-eq wrlck wrlck h = refl
same_type-eq wrlck unlck h = cc
same_type-eq unlck rdlck h = cc
same_type-eq unlck wrlck h = cc
same_type-eq unlck unlck h = refl

le-pred : (a x : ℤ) → leb_ℤ x (a -ℤ pos 1) ≡ not (leb_ℤ a x)
le-pred a x = ground (arith, -ℤ_parts a (pos 1))

suc-le : (a x : ℤ) → leb_ℤ (a +ℤ pos 1) x ≡ not (leb_ℤ x a)
suc-le a x = ground (arith, +ℤ_parts a (pos 1))

-- The first byte of a lock is an offset that another one precedes.
abbrev pub HasBefore : FileLock → Type 0
HasBefore lock = (ltb_ℤ off_t_min lock.start ≡ true) × (leb_ℤ lock.start off_t_max ≡ true)

before-id : (l : FileLock) → HasBefore l → off_t (l.start -ℤ pos 1) ≡ l.start -ℤ pos 1
unfolding off_t
before-id l h = ground (arith, -ℤ_parts l.start (pos 1), h.0, h.1)

-- No byte lies between two locks that overlap or touch.
abbrev NoGap : FileLock → FileLock → ℤ → Type 0
NoGap a b x = leb_ℤ x a.end ≡ false → leb_ℤ b.start x ≡ false → ⊥

no_gap :
    (r l : FileLock) (x : ℤ)
    → HasBefore r
    → HasBefore l
    → (not (file_locks_overlap l r) && not (file_locks_adjacent r l)) ≡ false
    → leb_ℤ r.start x ≡ true
    → leb_ℤ x l.end ≡ true
    → NoGap r l x
unfolding file_locks_overlap file_locks_adjacent
no_gap r l x u v h a d c b =
    ground (arith, before-id r u, before-id l v, -ℤ_parts l.start (pos 1), -ℤ_parts r.start (pos 1))

gap_free :
    (r l : FileLock) (x : ℤ)
    → HasBefore r
    → HasBefore l
    → (not (file_locks_overlap l r) && not (file_locks_adjacent r l)) ≡ false
    → leb_ℤ l.start x ≡ true
    → leb_ℤ x r.end ≡ true
    → NoGap l r x
unfolding file_locks_overlap file_locks_adjacent
gap_free r l x u v h a d c b =
    ground (arith, before-id r u, before-id l v, -ℤ_parts l.start (pos 1), -ℤ_parts r.start (pos 1))

start-extend :
    (r l : FileLock) (x : ℤ) → leb_ℤ (extend r l).start x ≡ (leb_ℤ r.start x || leb_ℤ l.start x)
unfolding extend
start-extend r l x = ground arith

end-extend : (r l : FileLock) (x : ℤ) → leb_ℤ x (extend r l).end ≡ (leb_ℤ x r.end || leb_ℤ x l.end)
unfolding extend
end-extend r l x = ground arith

join_ranges :
    (a b c d : Bool)
    → (a ≡ true → d ≡ true → c ≡ false → b ≡ false → ⊥)
    → (b ≡ true → c ≡ true → d ≡ false → a ≡ false → ⊥)
    → ((a || b) && (c || d)) ≡ ((a && c) || (b && d))
join_ranges true true true d p q = refl
join_ranges true true false d p q = refl
join_ranges true false true d p q = refl
join_ranges true false false true p q = absurd (p refl refl refl refl)
join_ranges true false false false p q = refl
join_ranges false true true true p q = refl
join_ranges false true true false p q = absurd (q refl refl refl refl)
join_ranges false true false d p q = refl
join_ranges false false c d p q = refl

-- Merging two locks that overlap or touch covers just the bytes of both.
pub covers-extend :
    (r l : FileLock) (x : ℤ)
    → HasBefore r
    → HasBefore l
    → (not (file_locks_overlap l r) && not (file_locks_adjacent r l)) ≡ false
    → covers (extend r l) x ≡ (covers r x || covers l x)
covers-extend r l x u v h =
    rw (start-extend r l x, end-extend r l x)
      (join_ranges (leb_ℤ r.start x) (leb_ℤ l.start x) (leb_ℤ x r.end) (leb_ℤ x l.end)
        (no_gap r l x u v h) (gap_free r l x u v h))

pub apart :
    (r l : FileLock) (x : ℤ)
    → file_locks_overlap l r ≡ false
    → covers r x ≡ true
    → covers l x ≡ false
unfolding file_locks_overlap
apart r l x h c = ground arith

-- A byte of the request is in no piece that is left of the lock; its other bytes are.
pub held-subtract :
    (r l : FileLock) (d : Option LockType) (o : ℕ) (x : ℤ)
    → file_locks_overlap l r ≡ true
    → (l.owner == o) ≡ true
    → held_or d (subtract r l) o x
      ≡ (if covers r x then d else if covers l x then effect l.type else d)
unfolding file_locks_overlap subtract
held-subtract r l d o x h e = ground (arith, le-pred r.start x, suc-le r.end x)
