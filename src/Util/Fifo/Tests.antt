-- ===== src/Util/Fifo/Tests.antt =====
-- Runs of util/fifo.c at concrete buffers, and its theorems there.
use codex_for_ipad.Prelude.{
  ℕ, ◌+◌, ◌<◌, ◌≡◌, refl, true, false, List, [], ◌∷◌, arith, length, get_or, inl,
}
use codex_for_ipad.Util.Fifo.{
  Fifo, fifo_remaining, bit0, blit, copy_in, copy_out, ret, fault, put, drop_oldest, fifo_write,
  fifo_read,
}
use codex_for_ipad.Util.Fifo.Cells.{IsFifo, byte}
use codex_for_ipad.Util.Fifo.Queue.{Appended, fifo_write-Appended}
use codex_for_ipad.Util.Fifo.Read.{fifo_read-oldest}

-- The queue 10, 11, 12 in four cells, wrapped round.
abbrev wrapped : Fifo
wrapped = record { buf = 12 ∷ 0 ∷ 10 ∷ 11 ∷ []; capacity = 4; size = 3; start = 2 }

wrapped-IsFifo : IsFifo wrapped
wrapped-IsFifo = record { room = refl; start = omega arith; size = omega arith; word = omega arith }

-- Two bytes do not fit; with FIFO_OVERWRITE the oldest goes.
refused_run : fifo_write wrapped (13 ∷ 14 ∷ []) 0 ≡ ret 1 wrapped []
unfolding fifo_write fifo_remaining
refused_run = refl

overwrite_run :
    fifo_write wrapped (13 ∷ 14 ∷ []) 1
    ≡ ret 0 (record { buf = 12 ∷ 13 ∷ 14 ∷ 11 ∷ []; capacity = 4; size = 4; start = 3 }) []
unfolding fifo_write fifo_remaining drop_oldest put copy_in blit
overwrite_run = refl

read_run : fifo_read wrapped 3 1 ≡ ret 0 wrapped (10 ∷ 11 ∷ 12 ∷ [])
unfolding fifo_read copy_out
read_run = refl

fifo_write-Appended_example :
    (g : Fifo) × (fifo_write wrapped (13 ∷ 14 ∷ []) 1 ≡ ret 0 g [])
    × Appended 1 wrapped (13 ∷ 14 ∷ []) g
fifo_write-Appended_example =
    (fifo_write-Appended wrapped (13 ∷ 14 ∷ []) 1 wrapped-IsFifo (omega arith)).0 (inl refl)

fifo_read-oldest_example :
    (g : Fifo) × (out : List ℕ) × (fifo_read wrapped 2 1 ≡ ret 0 g out)
    × (length out ≡ 2)
    × ((i : ℕ) → i < 2 → get_or out i 0 ≡ byte wrapped i)
    × (bit0 1 ≡ true → g ≡ wrapped)
    × (bit0 1 ≡ false
        → IsFifo g × (g.size + 2 ≡ 3) × ((i : ℕ) → i + 2 < 3 → byte g i ≡ byte wrapped (i + 2)))
fifo_read-oldest_example = fifo_read-oldest wrapped 2 1 wrapped-IsFifo (omega arith) refl

-- The newest two of 10, 11, 12 lie in the cells 3 and 0; the call reads the cells 3 and 4.
overrun_run : fifo_read wrapped 2 3 ≡ fault
unfolding fifo_read copy_out
overrun_run = refl
