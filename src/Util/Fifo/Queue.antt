-- ===== src/Util/Fifo/Queue.antt =====
-- A ring buffer of util/fifo.c as the queue of its bytes: writing, overwriting and reading.
use Prim.Native.Nat.{min}
use native.Mathlib.Nat.{mod-add-mod}
use codex_for_ipad.Prelude.{
  ℕ, ◌+◌, ◌-◌, ◌%◌, ◌^◌, ◌<◌, ◌≤◌, ◌≡◌, refl, ◌∙◌, ap, true, false, List, [], arith, ltb,
  if◌then◌else◌, length, get_or, take, drop, length-take, length-drop, Bool-cases, inl, inr, ◌⊎◌,
  some,
}
use codex_for_ipad.Util.Fifo.{
  Fifo, fifo_remaining, bit0, blit, copy_in, Ret, ret, put, drop_oldest, fifo_write,
}
use codex_for_ipad.Util.Fifo.Cells.{
  IsFifo, byte, Wraps, wrap, once, twice, length-once, length-twice, read_cell,
}

-- The queue `g` is the queue `f` without its `excess` oldest bytes, and `bytes` behind it.
pub record Appended (excess : ℕ) (f : Fifo) (bytes : List ℕ) (g : Fifo) : Type 0 where
  pub valid : IsFifo g
  pub capacity : g.capacity ≡ f.capacity
  pub size : g.size + excess ≡ f.size + length bytes
  pub kept : (i : ℕ) → i + excess < f.size → byte g i ≡ byte f (i + excess)
  pub added : (i : ℕ) → i < length bytes → byte g (f.size - excess + i) ≡ get_or bytes i 0

module _ (f : Fifo) (bytes : List ℕ) (v : IsFifo f)
    (fits : f.size + length bytes ≤ f.capacity) where
  tail : ℕ
  tail = (f.start + f.size) % f.capacity

  written : Fifo
  unfolding tail
  written = record f { buf = twice f.buf tail bytes; size = f.size + length bytes }

  tail-Wraps : Wraps (f.start + f.size) (length f.buf) tail
  unfolding tail
  tail-Wraps = rw v.room (wrap (f.start + f.size) f.capacity (omega (arith, v.start, v.size)))

  whole : (f.size + length bytes) % 2 ^ 64 ≡ f.size + length bytes
  whole = omega (arith, v.word)

  -- Both copies stay in the buffer.
  first_copy :
      copy_in f.buf tail (take (min (f.capacity - tail) (length bytes)) bytes)
      ≡ some (once f.buf tail bytes)
  unfolding copy_in once
  first_copy = ground (
    arith,
    v.room,
    tail-Wraps,
    length-take (min (f.capacity - tail) (length bytes)) bytes,
    ap (λ (n : ℕ). blit f.buf tail (take (min (n - tail) (length bytes)) bytes)) v.room,
  )

  second_copy :
      copy_in (once f.buf tail bytes) 0 (drop (min (f.capacity - tail) (length bytes)) bytes)
      ≡ some (twice f.buf tail bytes)
  unfolding copy_in twice
  second_copy = ground (
    arith,
    v.room,
    length-once f.buf tail bytes,
    length-drop (min (f.capacity - tail) (length bytes)) bytes,
    ap (λ (n : ℕ). blit (once f.buf tail bytes) 0 (drop (min (n - tail) (length bytes)) bytes))
        v.room,
  )

  put-written : put f bytes ≡ ret 0 written []
  unfolding put tail written
  put-written = ground (arith, first_copy, second_copy, whole)

  written-byte :
      (i : ℕ)
      → i < f.size + length bytes
      → byte written i ≡ (if ltb i f.size then byte f i else get_or bytes (i - f.size) 0)
  unfolding written
  written-byte i h =
      read_cell f.buf tail bytes f.start f.size i ((f.start + i) % f.capacity)
        (omega (arith, v.room)) (omega (arith, v.room, v.start)) tail-Wraps h
        (rw v.room (wrap (f.start + i) f.capacity (omega (arith, v.start))))

  pub put-Appended : (g : Fifo) × (put f bytes ≡ ret 0 g []) × Appended 0 f bytes g
  unfolding written
  put-Appended = (
    written,
    put-written,
    record {
      valid = record {
        room = length-twice f.buf tail bytes ∙ v.room;
        start = v.start;
        size = fits;
        word = v.word;
      };
      capacity = refl;
      size = omega arith;
      kept = λ i h. ground (arith, written-byte i (omega arith));
      added = λ i h. ground (arith, written-byte (f.size + i) (omega arith));
    },
  )

-- Making room at the front.
module _ (f : Fifo) (v : IsFifo f) (excess : ℕ) (some_left : excess ≤ f.size) where
  unfoldable pub shifted : ℕ
  shifted = (f.start + excess) % f.capacity

  drop_oldest_lem : drop_oldest f excess ≡ record f { start = shifted; size = f.size - excess }
  unfolding drop_oldest shifted
  drop_oldest_lem =
      let e : (f.size + 2 ^ 64 - excess) % 2 ^ 64 ≡ f.size - excess =
        omega (arith, v.size, v.word) in
      rw e

  pub dropped-IsFifo : IsFifo (record f { start = shifted; size = f.size - excess })
  unfolding shifted
  dropped-IsFifo = record {
    room = v.room;
    start = omega (arith, v.start);
    size = omega (arith, v.size);
    word = v.word;
  }

  pub dropped-byte :
      (i : ℕ)
      → i + excess < f.size
      → byte (record f { start = shifted; size = f.size - excess }) i ≡ byte f (i + excess)
  unfolding shifted
  dropped-byte i h =
      let order : f.start + (i + excess) ≡ f.start + excess + i = omega arith in
      rw (order, mod-add-mod (f.start + excess) f.capacity i)

  overwritten-Appended :
      (bytes : List ℕ) (g : Fifo)
      → Appended 0 (record f { start = shifted; size = f.size - excess }) bytes g
      → Appended excess f bytes g
  overwritten-Appended bytes g a = record {
    valid = a.valid;
    capacity = a.capacity;
    size = omega (arith, a.size);
    kept = λ i h.
        let none_more : i + 0 ≡ i = omega arith in
        (rw none_more at (a.kept i (omega arith))) ∙ dropped-byte i h;
    added = λ i h.
        let none_more : f.size - excess - 0 + i ≡ f.size - excess + i = omega arith in
        rw none_more at (a.added i h);
  }

  pub overwrite-Appended :
      (bytes : List ℕ)
      → f.size - excess + length bytes ≤ f.capacity
      → (g : Fifo) × (put (drop_oldest f excess) bytes ≡ ret 0 g []) × Appended excess f bytes g
  overwrite-Appended bytes fits =
      let p = put-Appended _ bytes dropped-IsFifo fits in
      rw drop_oldest_lem (p.0, p.1, overwritten-Appended bytes p.0 p.2)

abbrev Writes : Fifo → List ℕ → Ret → Type 0
Writes f bytes r =
    (g : Fifo) × (r ≡ ret 0 g []) × Appended (f.size + length bytes - f.capacity) f bytes g

write-over :
    (f : Fifo) (bytes : List ℕ)
    → IsFifo f
    → length bytes ≤ f.capacity
    → f.capacity < f.size + length bytes
    → Writes f bytes (put (drop_oldest f (length bytes - fifo_remaining f)) bytes)
unfolding fifo_remaining
write-over f bytes v small over =
    let e : length bytes - (f.capacity - f.size) ≡ f.size + length bytes - f.capacity =
      omega (arith, v.size) in
    rw e (
      overwrite-Appended f v (f.size + length bytes - f.capacity) (omega arith) bytes
        (omega (arith, v.size)))

write-fits :
    (f : Fifo) (bytes : List ℕ)
    → IsFifo f
    → f.size + length bytes ≤ f.capacity
    → Writes f bytes (put f bytes)
write-fits f bytes v fits =
    let e : f.size + length bytes - f.capacity ≡ 0 = omega arith in
    rw e (put-Appended f bytes v fits)

-- Writing `bytes` to a buffer that can hold them: with FIFO_OVERWRITE the oldest bytes make room
-- where they are in the way; without it the bytes have to fit. The call returns 0, and the queue
-- is the old one without the bytes that had to go, with the new ones behind it. In the one case
-- left, too many bytes and no FIFO_OVERWRITE, the call returns 1 and changes nothing.
pub fifo_write-Appended :
    (f : Fifo) (bytes : List ℕ) (flags : ℕ)
    → IsFifo f
    → length bytes ≤ f.capacity
    → ((bit0 flags ≡ true) ⊎ (f.size + length bytes ≤ f.capacity)
        → (g : Fifo) × (fifo_write f bytes flags ≡ ret 0 g [])
          × Appended (f.size + length bytes - f.capacity) f bytes g)
      × (bit0 flags ≡ false
          → f.capacity < f.size + length bytes
          → fifo_write f bytes flags ≡ ret 1 f [])
unfolding fifo_write fifo_remaining
fifo_write-Appended f bytes flags v small = (accept, λ plain over. ground (arith, v.size))
  where
    accept :
        (bit0 flags ≡ true) ⊎ (f.size + length bytes ≤ f.capacity)
        → Writes f bytes (fifo_write f bytes flags)
    accept allowed = elim (Bool-cases (ltb (f.capacity - f.size) (length bytes))) [
      | inl over ↦
          let flag : bit0 flags ≡ true = ground (arith, v.size) in
          rw (over, flag) (write-over f bytes v small (ground (arith, v.size)))
      | inr under ↦ rw under (write-fits f bytes v (ground (arith, v.size)))
    ]
