-- ===== src/Util/Fifo/Cells.antt =====
-- The cells of a ring buffer of util/fifo.c behind the two copies of a write.
use Prim.Native.Nat.{min}
use codex_for_ipad.Prelude.{
  ℕ, ◌+◌, ◌-◌, ◌%◌, ◌^◌, ◌<◌, ◌≤◌, ◌≡◌, refl, ◌∙◌, ◌&&◌, List, arith, ltb, leb, if◌then◌else◌,
  length, get_or, take, drop, length-take, length-drop, Bool-cases, inl, inr, ◌⊎◌,
}
use codex_for_ipad.Util.Fifo.{Fifo, blit}
use codex_for_ipad.Util.Fifo.Bytes.{
  length-blit, get_or-blit, get_or-take, get_or-drop, wrap_lt, wrap_ge,
}

pub record IsFifo (f : Fifo) : Type 0 where
  pub room : length f.buf ≡ f.capacity
  pub start : f.start < f.capacity
  pub size : f.size ≤ f.capacity
  pub word : f.capacity < 2 ^ 63

-- Byte `i` of the queue, the oldest first.
abbrev pub byte : Fifo → ℕ → ℕ
byte f i = get_or f.buf ((f.start + i) % f.capacity) 0

-- Two times round at most.
abbrev pub Wraps : ℕ → ℕ → ℕ → Type 0
Wraps a c r = ((a < c) × (r ≡ a)) ⊎ ((c ≤ a) × (r + c ≡ a))

pub wrap : (a c : ℕ) → a < c + c → Wraps a c (a % c)
wrap a c h = elim (Bool-cases (ltb a c)) [
  | inl low ↦ inl (ground arith, wrap_lt a c (ground arith))
  | inr high ↦ inr (ground arith, ground (arith, wrap_ge a c (ground arith) h))
]

module _ (buf : List ℕ) (tail : ℕ) (bytes : List ℕ) where
  -- The first copy, and the two copies.
  abbrev pub front : ℕ
  front = min (length buf - tail) (length bytes)

  unfoldable pub once : List ℕ
  once = blit buf tail (take front bytes)

  unfoldable pub twice : List ℕ
  unfolding once
  twice = blit once 0 (drop front bytes)

  pub length-once : length once ≡ length buf
  unfolding once
  length-once = length-blit buf tail (take front bytes)

  pub length-twice : length twice ≡ length buf
  unfolding twice
  length-twice = length-blit once 0 (drop front bytes) ∙ length-once

  -- Where a byte of the buffer comes from.
  read_once :
      (j : ℕ)
      → tail ≤ length buf
      → get_or once j 0
        ≡ (if leb tail j && ltb j (tail + front) then get_or bytes (j - tail) 0 else get_or buf j 0)
  unfolding once
  read_once j h = ground (
    arith,
    get_or-blit buf tail (take front bytes) j (omega (arith, length-take front bytes)),
    length-take front bytes,
    get_or-take front bytes (j - tail),
  )

  read_twice :
      (j : ℕ)
      → length bytes ≤ length buf
      → get_or twice j 0
        ≡ (if ltb j (length bytes - front) then get_or bytes (front + j) 0 else get_or once j 0)
  unfolding twice
  read_twice j h = ground (
    arith,
    get_or-blit once 0 (drop front bytes) j (omega (arith, length-drop front bytes, length-once)),
    length-drop front bytes,
    get_or-drop front bytes j,
  )

  -- The cells of the queue `start` to `start + size`, and those behind it, after the copies.
  pub read_cell :
      (start size i j : ℕ)
      → size + length bytes ≤ length buf
      → start < length buf
      → Wraps (start + size) (length buf) tail
      → i < size + length bytes
      → Wraps (start + i) (length buf) j
      → get_or twice j 0 ≡ (if ltb i size then get_or buf j 0 else get_or bytes (i - size) 0)
  read_cell start size i j room inside t h w = elim (Bool-cases (ltb i size)) [
    | inl old ↦
        let o : i < size = ground arith in
        let behind : length bytes - front ≤ j = omega arith in
        let outside : (j < tail) ⊎ (tail + front ≤ j) = omega arith in
        rw (read_twice j (omega arith), read_once j (omega arith)) (ground arith)
    | inr new ↦
        let o : size ≤ i = ground arith in
        rw (read_twice j (omega arith), read_once j (omega arith))
          (elim (Bool-cases (ltb j (length bytes - front))) [
            | inl low ↦
                let l : j < length bytes - front = ground arith in
                let e : front + j ≡ i - size = omega arith in rw (low, new, e) refl
            | inr high ↦
                let l : length bytes - front ≤ j = ground arith in
                let e : j - tail ≡ i - size = omega arith in
                let within : (tail ≤ j) × (j < tail + front) = omega arith in
                rw (high, new, e) (ground arith)
          ])
  ]
