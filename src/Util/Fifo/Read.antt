-- ===== src/Util/Fifo/Read.antt =====
-- Reads of a ring buffer of util/fifo.c: the oldest bytes, and the newest by FIFO_LAST.
use Prim.Native.Nat.{min}
use codex_for_ipad.Prelude.{
  ℕ, ◌+◌, ◌-◌, ◌%◌, ◌<◌, ◌≤◌, ◌≡◌, refl, ap, true, false, not, List, ◌++◌, arith, ltb,
  if◌then◌else◌, length, get_or, take, drop, length-take, length-drop, Bool-cases, inl, inr, none,
  some, length-append,
}
use codex_for_ipad.Util.Fifo.{Fifo, bit0, bit1, copy_out, ret, fault, fifo_read}
use codex_for_ipad.Util.Fifo.Bytes.{get_or-take, get_or-drop, get_or-append, wrap_lt, wrap_ge}
use codex_for_ipad.Util.Fifo.Cells.{IsFifo, byte}
use codex_for_ipad.Util.Fifo.Queue.{shifted, dropped-IsFifo, dropped-byte}

-- The bytes that two copies take from a buffer.
copied : List ℕ → ℕ → ℕ → ℕ → List ℕ
copied buf at first n = take first (drop at buf) ++ take (n - first) (drop 0 buf)

length-copied :
    (buf : List ℕ) (at first n : ℕ)
    → at + first ≤ length buf
    → n - first ≤ length buf
    → first ≤ n
    → length (copied buf at first n) ≡ n
unfolding copied
length-copied buf at first n h k m = omega (
  arith,
  length-append (take first (drop at buf)) (take (n - first) (drop 0 buf)),
  length-take first (drop at buf),
  length-drop at buf,
  length-take (n - first) (drop 0 buf),
)

get_or-copied :
    (buf : List ℕ) (at first n i : ℕ)
    → at + first ≤ length buf
    → i < n
    → get_or (copied buf at first n) i 0
      ≡ (if ltb i first then get_or buf (at + i) 0 else get_or buf (i - first) 0)
unfolding copied
get_or-copied buf at first n i h k = ground (
  arith,
  get_or-append (take first (drop at buf)) (take (n - first) (drop 0 buf)) i,
  length-take first (drop at buf),
  length-drop at buf,
  get_or-take first (drop at buf) i,
  get_or-drop at buf i,
  get_or-take (n - first) (drop 0 buf) (i - first),
)

copy_out-some :
    (buf : List ℕ) (at n : ℕ)
    → at + n ≤ length buf
    → copy_out buf at n ≡ some (take n (drop at buf))
unfolding copy_out
copy_out-some buf at n h = ground arith

copy_out-none : (buf : List ℕ) (at n : ℕ) → length buf < at + n → copy_out buf at n ≡ none
unfolding copy_out
copy_out-none buf at n h = ground arith

-- How `fifo_read` ends when both copies stay in the buffer.
read_copies :
    (f : Fifo) (n flags at : ℕ)
    → n ≤ f.size
    → (if bit1 flags then (f.start + (f.size - n)) % f.capacity else f.start) ≡ at
    → at + min (f.capacity - f.start) n ≤ length f.buf
    → n - min (f.capacity - f.start) n ≤ length f.buf
    → fifo_read f n flags
      ≡ ret 0
          (if not (bit0 flags)
            then record f { start = (at + n) % f.capacity; size = f.size - n }
            else f)
          (copied f.buf at (min (f.capacity - f.start) n) n)
unfolding fifo_read copied
read_copies f n flags at h e k m = ground (
  arith,
  copy_out-some f.buf at (min (f.capacity - f.start) n) k,
  copy_out-some f.buf 0 (n - min (f.capacity - f.start) n) (omega arith),
)

-- The cells that a read from the front takes.
module _ (f : Fifo) (n : ℕ) (v : IsFifo f) (enough : n ≤ f.size) where
  front_size : ℕ
  front_size = min (f.capacity - f.start) n

  oldest : List ℕ
  unfolding front_size
  oldest = copied f.buf f.start front_size n

  length-oldest : length oldest ≡ n
  unfolding oldest
  length-oldest =
      length-copied f.buf f.start front_size n (omega (arith, v.room, v.start))
        (omega (arith, v.room, v.size)) (omega arith)

  read_oldest : (i : ℕ) → i < n → get_or oldest i 0 ≡ byte f i
  unfolding oldest
  read_oldest i h =
      rw (get_or-copied f.buf f.start front_size n i (omega (arith, v.room, v.start)) h)
        (elim (Bool-cases (ltb i front_size)) [
          | inl low ↦
              let l : i < front_size = ground arith in
              rw (low, wrap_lt (f.start + i) f.capacity (omega (arith, v.start))) refl
          | inr high ↦
              let l : front_size ≤ i = ground arith in
              let e : i - front_size ≡ f.start + i - f.capacity = omega (arith, v.start, v.size) in
              rw
                (
                  high,
                  wrap_ge (f.start + i) f.capacity (omega (arith, v.start, v.size))
                      (omega (arith, v.start, v.size)),
                  e,
                )
                refl
        ])

-- A read of `n` bytes without FIFO_LAST, of which the buffer has at least `n`: it returns 0 and the
-- `n` oldest bytes in order. With FIFO_PEEK the buffer is as before; without it these bytes are gone
-- from the front, and the others follow as before.
pub fifo_read-oldest :
    (f : Fifo) (n flags : ℕ)
    → IsFifo f
    → n ≤ f.size
    → bit1 flags ≡ false
    → (g : Fifo) × (out : List ℕ) × (fifo_read f n flags ≡ ret 0 g out)
      × (length out ≡ n)
      × ((i : ℕ) → i < n → get_or out i 0 ≡ byte f i)
      × (bit0 flags ≡ true → g ≡ f)
      × (bit0 flags ≡ false
          → IsFifo g
            × (g.size + n ≡ f.size)
            × ((i : ℕ) → i + n < f.size → byte g i ≡ byte f (i + n)))
unfolding oldest shifted
fifo_read-oldest f n flags v h plain = (
  if not (bit0 flags) then record f { start = shifted f v n h; size = f.size - n } else f,
  oldest f n v h,
  read_copies f n flags f.start h (rw plain) (omega (arith, v.room, v.start))
      (omega (arith, v.room, v.size)),
  length-oldest f n v h,
  read_oldest f n v h,
  λ peek. rw peek,
  λ takes. rw takes (dropped-IsFifo f v n h, omega arith, dropped-byte f v n h),
)

-- A bug: with FIFO_LAST the length of the first copy is computed from the start of the queue and not
-- from the bytes that are read. Where the newest `n` bytes wrap round and `n` still fits between the
-- start of the queue and the end of the buffer, the first copy runs past the end of the buffer.
pub fifo_read_last_overrun :
    (f : Fifo) (n flags : ℕ)
    → IsFifo f
    → n ≤ f.size
    → bit1 flags ≡ true
    → n ≤ f.capacity - f.start
    → f.capacity < (f.start + (f.size - n)) % f.capacity + n
    → fifo_read f n flags ≡ fault
unfolding fifo_read
fifo_read_last_overrun f n flags v h last long wraps =
    let whole : min (f.capacity - f.start) n ≡ n = omega arith in
    ground (
      arith,
      whole,
      ap (λ k. copy_out f.buf ((f.start + (f.size - n)) % f.capacity) k) whole,
      copy_out-none f.buf ((f.start + (f.size - n)) % f.capacity) n (omega (arith, v.room)),
    )
