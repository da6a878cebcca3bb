-- ===== src/Util/Fifo/Bytes.antt =====
-- Reads at an index behind the copies of util/fifo.c.
use codex_for_ipad.Prelude.{
  ℕ, zero, suc, ◌+◌, ◌-◌, ◌%◌, ◌<◌, ◌≤◌, ◌≡◌, refl, ap, ◌&&◌, List, [], ◌∷◌, ◌++◌, arith, ltb, leb,
  if◌then◌else◌, length, get_or, set, take, drop, length-set, Bool-cases, inl, inr, get_or-set,
}
use codex_for_ipad.Util.Fifo.{blit}

pub length-blit : (buf : List ℕ) (at : ℕ) (bs : List ℕ) → length (blit buf at bs) ≡ length buf
unfolding blit
length-blit buf at [] = refl
length-blit buf at (b ∷ bs) =
    omega (arith, length-blit (set buf at b) (at + 1) bs, length-set buf at b)

-- What is read behind a copy into the buffer.
pub get_or-blit :
    (buf : List ℕ) (at : ℕ) (bs : List ℕ) (j : ℕ)
    → at + length bs ≤ length buf
    → get_or (blit buf at bs) j 0
      ≡ (if leb at j && ltb j (at + length bs) then get_or bs (j - at) 0 else get_or buf j 0)
unfolding blit
get_or-blit buf at [] j h = ground arith
get_or-blit buf at (b ∷ bs) j h =
    rw (get_or-blit (set buf at b) (at + 1) bs j (omega (arith, length-set buf at b))) (
      rw (get_or-set buf at j b 0 (omega arith)) (elim (Bool-cases (leb (at + 1) j)) [
        | inl later ↦ let e : j - at ≡ suc (j - (at + 1)) = ground arith in rw e (ground arith)
        | inr sooner ↦ ground arith
      ]))

pub get_or-take : (n : ℕ) (xs : List ℕ) (i : ℕ) → i < n → get_or (take n xs) i 0 ≡ get_or xs i 0
get_or-take zero xs i h = elim h [ ]
get_or-take (suc n) [] i h = refl
get_or-take (suc n) (x ∷ xs) zero h = refl
get_or-take (suc n) (x ∷ xs) (suc i) h = get_or-take n xs i (omega arith)

pub get_or-drop : (n : ℕ) (xs : List ℕ) (i : ℕ) → get_or (drop n xs) i 0 ≡ get_or xs (n + i) 0
get_or-drop zero xs i = ap (λ k. get_or xs k 0) (omega arith)
get_or-drop (suc n) [] i = refl
get_or-drop (suc n) (x ∷ xs) i =
    let e : suc n + i ≡ suc (n + i) = omega arith in rw e (get_or-drop n xs i)

pub get_or-append :
    (xs ys : List ℕ) (i : ℕ)
    → get_or (xs ++ ys) i 0
      ≡ (if ltb i (length xs) then get_or xs i 0 else get_or ys (i - length xs) 0)
get_or-append [] ys i = let e : i - 0 ≡ i = omega arith in rw e (ground arith)
get_or-append (x ∷ xs) ys zero = ground arith
get_or-append (x ∷ xs) ys (suc i) = ground (arith, get_or-append xs ys i)

pub wrap_lt : (a c : ℕ) → a < c → a % c ≡ a
wrap_lt a c h = grind arith

pub wrap_ge : (a c : ℕ) → c ≤ a → a < c + c → a % c ≡ a - c
wrap_ge a c h k = grind arith
