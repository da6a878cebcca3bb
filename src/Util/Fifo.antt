-- ===== src/Util/Fifo.antt =====
-- util/fifo.c: a ring buffer of bytes. The source calls `memcpy` with the addresses that the model
-- writes out; `fault` is a copy that leaves the buffer.
pub mod Bytes
pub mod Cells
pub mod Queue
pub mod Read
mod Tests
use Prim.Native.Nat.{min}
use codex_for_ipad.Prelude.{
  ℕ, zero, suc, ◌+◌, ◌-◌, ◌%◌, ◌^◌, ◌/◌, Bool, true, false, not, Option, none, some, List, [], ◌∷◌,
  ◌++◌, ltb, leb, ◌==◌, if◌then◌else◌, length, set, take, drop,
}

pub record Fifo : Type 0 where
  pub buf : List ℕ
  pub capacity : ℕ
  pub size : ℕ
  pub start : ℕ

pub fifo_remaining : Fifo → ℕ
fifo_remaining f = f.capacity - f.size

-- FIFO_OVERWRITE and FIFO_PEEK are bit 0 of their words, FIFO_LAST is bit 1.
abbrev pub bit0 : ℕ → Bool
bit0 flags = flags % 2 == 1

abbrev pub bit1 : ℕ → Bool
bit1 flags = flags / 2 % 2 == 1

-- `memcpy` into the buffer.
pub blit : List ℕ → ℕ → List ℕ → List ℕ
blit buf at [] = buf
blit buf at (b ∷ bs) = blit (set buf at b) (at + 1) bs

pub copy_in : List ℕ → ℕ → List ℕ → Option (List ℕ)
copy_in buf at bs = if leb (at + length bs) (length buf) then some (blit buf at bs) else none

-- `memcpy` out of the buffer.
pub copy_out : List ℕ → ℕ → ℕ → Option (List ℕ)
copy_out buf at n = if leb (at + n) (length buf) then some (take n (drop at buf)) else none

-- The value that the call returns, the buffer afterwards, and what `fifo_read` has copied.
pub data Ret : Type 0 where
  ret : ℕ → Fifo → List ℕ → Ret
  fault : Ret

-- The two copies of `fifo_write`: up to the end of the buffer, and the rest to its front.
pub put : Fifo → List ℕ → Ret
put f bytes =
    let tail = (f.start + f.size) % f.capacity in
    let first = min (f.capacity - tail) (length bytes) in
    elim (copy_in f.buf tail (take first bytes)) [
      | none ↦ fault
      | some buf ↦ elim (copy_in buf 0 (drop first bytes)) [
        | none ↦ fault
        | some buf' ↦ ret 0 (record f { buf = buf'; size = (f.size + length bytes) % 2 ^ 64 }) []
      ]
    ]

-- The oldest bytes make room; `size_t` wraps.
pub drop_oldest : Fifo → ℕ → Fifo
drop_oldest f excess = record f {
  start = (f.start + excess) % f.capacity;
  size = (f.size + 2 ^ 64 - excess) % 2 ^ 64;
}

pub fifo_write : Fifo → List ℕ → ℕ → Ret
fifo_write f bytes flags =
    if ltb (fifo_remaining f) (length bytes)
    then (if not (bit0 flags)
        then ret 1 f []
        else put (drop_oldest f (length bytes - fifo_remaining f)) bytes)
    else put f bytes

-- The length of the first copy is computed from `fifo->start`, also for FIFO_LAST.
pub fifo_read : Fifo → ℕ → ℕ → Ret
fifo_read f n flags =
    if ltb f.size n
    then ret 1 f []
    else let start = if bit1 flags then (f.start + (f.size - n)) % f.capacity else f.start in
      let first = min (f.capacity - f.start) n in
      elim (copy_out f.buf start first) [
        | none ↦ fault
        | some front ↦ elim (copy_out f.buf 0 (n - first)) [
          | none ↦ fault
          | some back ↦
              ret 0
                (if not (bit0 flags)
                  then record f { start = (start + n) % f.capacity; size = f.size - n }
                  else f)
                (front ++ back)
        ]
      ]

pub fifo_flush : Fifo → Fifo
fifo_flush f = record f { size = 0 }
