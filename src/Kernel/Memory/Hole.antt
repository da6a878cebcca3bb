-- ===== src/Kernel/Memory/Hole.antt =====
-- `pt_find_hole` of kernel/memory.c.
use mathlib.Core.Path.{subst}
use codex_for_ipad.Prelude.{
  ◌^◌, ℕ, zero, suc, ◌+◌, ◌-◌, ◌<◌, ◌≤◌, ◌≡◌, refl, ap, ◌↔◌, ◌≢◌, ◌⊎◌, inl, inr, Bool, true, false,
  not, ◌&&◌, none, arith, ◌==◌, if◌then◌else◌, Bool-cases,
}
use codex_for_ipad.Kernel.Memory.{
  span, none_mapped, pt_is_hole, Mem, mem_pt, is_mapped, bad_page, find_hole_loop, pt_find_hole,
  pt_is_hole,
}

-- No page of the range is mapped.
abbrev pub IsFree : Mem → ℕ → ℕ → Type 0
IsFree m start pages = (j : ℕ) → start ≤ j → j < start + pages → mem_pt m j ≡ none

-- Pages above `low` and up to 0xf7ffd have no hole of this size.
abbrev pub NoneFree : Mem → ℕ → ℕ → Type 0
NoneFree m size low = (p : ℕ) → low < p → p + size ≤ 1015806 → (IsFree m p size → ⊥)

-- The hole that the loop is in: pages that are not mapped, with a mapped page or the end behind.
record Within (m : Mem) (size low hole_end : ℕ) : Type 0 where
  pub empty : (j : ℕ) → low < j → j < hole_end → mem_pt m j ≡ none
  pub small : hole_end < low + 1 + size
  pub below : low + 1 ≤ hole_end
  pub top : hole_end ≤ 1015806
  pub edge : (hole_end ≡ 1015806) ⊎ (mem_pt m hole_end ≢ none)

-- What the loop returns.
abbrev Found : Mem → ℕ → ℕ → Type 0
Found m size r =
    ((r ≡ bad_page) × NoneFree m size 262144)
    ⊎ ((262144 < r) × (r + size ≤ 1015806) × IsFree m r size × NoneFree m size r)

-- What the loop knows when it comes to the page `page`.
record Scanned (m : Mem) (size page : ℕ) (in_hole : Bool) (hole_end : ℕ) : Type 0 where
  pub none_above : NoneFree m size page
  pub within : in_hole ≡ true → Within m size page hole_end
  pub outside : in_hole ≡ false → (page + 1 ≡ 1015806) ⊎ (mem_pt m (page + 1) ≢ none)

-- The hole from `page` on, when that page is not mapped.
record Candidate (m : Mem) (size page hole_end : ℕ) : Type 0 where
  pub empty : (j : ℕ) → page ≤ j → j < hole_end → mem_pt m j ≡ none
  pub small : hole_end ≤ page + size
  pub below : page + 1 ≤ hole_end
  pub top : hole_end ≤ 1015806
  pub edge : (hole_end ≡ 1015806) ⊎ (mem_pt m hole_end ≢ none)

mapped_iff : (m : Mem) (page : ℕ) → (is_mapped m page ≡ false) ↔ (mem_pt m page ≡ none)
unfolding is_mapped
mapped_iff m page = ground arith

scan-Candidate :
    (m : Mem) (size page : ℕ) (in_hole : Bool) (hole_end : ℕ)
    → 0 < size
    → page < 1015806
    → is_mapped m page ≡ false
    → Scanned m size page in_hole hole_end
    → Candidate m size page (if not in_hole && not (is_mapped m page) then page + 1 else hole_end)
scan-Candidate m size page true hole_end pos_size lt e s =
    let w = s.within refl in
    record {
      empty = λ j lo hi. elim (Bool-cases (j == page)) [
        | inl here ↦ ground (arith, mapped_iff m page, ap (mem_pt m))
        | inr behind ↦ w.empty j (ground arith) hi
      ];
      small = omega (arith, w.small);
      below = w.below;
      top = w.top;
      edge = w.edge;
    }
scan-Candidate m size page false hole_end pos_size lt e s = rw e record {
  empty = λ j lo hi. ground (arith, mapped_iff m page, ap (mem_pt m));
  small = omega arith;
  below = omega arith;
  top = omega arith;
  edge = s.outside refl;
}

-- A hole may not start at a page that is mapped.
mapped-NoneFree :
    (m : Mem) (size page : ℕ)
    → 0 < size
    → is_mapped m (page + 1) ≡ true
    → NoneFree m size (page + 1)
    → NoneFree m size page
mapped-NoneFree m size page pos_size e above p lo hi hole = elim (Bool-cases (p == page + 1)) [
  | inl here ↦
      let empty : mem_pt m (page + 1) ≡ none = hole (page + 1) (ground arith) (ground arith) in
      ground (arith, mapped_iff m (page + 1))
  | inr behind ↦ above p (ground arith) hi hole
]

-- Nor may it start at a page whose hole ends too early.
short-NoneFree :
    (m : Mem) (size page hole_end : ℕ)
    → Candidate m size (page + 1) hole_end
    → hole_end < page + 1 + size
    → NoneFree m size (page + 1)
    → NoneFree m size page
short-NoneFree m size page hole_end c short above p lo hi hole = elim (Bool-cases (p == page + 1)) [
  | inl here ↦ elim c.edge [
    | inl at_top ↦ absurd (ground arith)
    | inr mapped ↦ mapped (hole hole_end (ground (arith, c.below)) (ground arith))
  ]
  | inr behind ↦ above p (ground arith) hi hole
]

-- The end of the hole that the loop is in at `page`.
abbrev end_at : Mem → ℕ → Bool → ℕ → ℕ
end_at m page in_hole hole_end =
    if not in_hole && not (is_mapped m page) then page + 1 else hole_end

loop-cases :
    (m : Mem) (size k : ℕ) (in_hole : Bool) (hole_end : ℕ)
    → let page = 262144 + suc k in
      let end' = end_at m page in_hole hole_end in
      find_hole_loop m size (suc k) in_hole hole_end ≡ (
        if is_mapped m page
        then find_hole_loop m size k false end'
        else if end' - page == size
        then page
        else find_hole_loop m size k true end')
unfolding find_hole_loop
loop-cases m size k in_hole hole_end = refl

loop-fits :
    (m : Mem) (size k : ℕ) (in_hole : Bool) (hole_end : ℕ)
    → is_mapped m (262144 + suc k) ≡ false
    → (end_at m (262144 + suc k) in_hole hole_end - (262144 + suc k) == size) ≡ true
    → find_hole_loop m size (suc k) in_hole hole_end ≡ 262144 + suc k
loop-fits m size k in_hole hole_end e fits = ground (arith, loop-cases m size k in_hole hole_end)

loop-short :
    (m : Mem) (size k : ℕ) (in_hole : Bool) (hole_end : ℕ)
    → is_mapped m (262144 + suc k) ≡ false
    → (end_at m (262144 + suc k) in_hole hole_end - (262144 + suc k) == size) ≡ false
    → find_hole_loop m size (suc k) in_hole hole_end
      ≡ find_hole_loop m size k true (end_at m (262144 + suc k) in_hole hole_end)
loop-short m size k in_hole hole_end e short = ground (arith, loop-cases m size k in_hole hole_end)

scan-Found :
    (m : Mem) (size k : ℕ) (in_hole : Bool) (hole_end : ℕ)
    → 0 < size
    → k ≤ 753661
    → Scanned m size (262144 + k) in_hole hole_end
    → Found m size (find_hole_loop m size k in_hole hole_end)
unfolding find_hole_loop
scan-Found m size zero in_hole hole_end pos_size lt s = inl (refl, s.none_above)
scan-Found m size (suc k) in_hole hole_end pos_size lt s =
    let page = 262144 + suc k in
    let next = 262144 + k in
    let above : NoneFree m size (next + 1) = λ p lo hi hole. s.none_above p (omega arith) hi hole in
    elim (Bool-cases (is_mapped m page)) [
      | inl e ↦
          let here : is_mapped m (next + 1) ≡ true = ground (arith, ap (is_mapped m)) in
          rw e (
            scan-Found m size k false _ pos_size (omega arith) (record {
              none_above = mapped-NoneFree m size next pos_size here above;
              within = λ f. absurd (ground arith);
              outside = λ f. inr (λ g. ground (arith, mapped_iff m (next + 1)));
            }))
      | inr e ↦
          let end' = end_at m page in_hole hole_end in
          let c : Candidate m size page end' =
            scan-Candidate m size page in_hole hole_end pos_size (omega arith) e s in
          elim (Bool-cases (end' - page == size)) [
            | inl fits ↦ rw (loop-fits m size k in_hole hole_end e fits) (
                inr (
                  omega arith,
                  ground (arith, c.top, c.below),
                  λ j lo hi. c.empty j lo (ground (arith, c.below)),
                  s.none_above,
                ))
            | inr short ↦
                let less : end' < page + size = ground (arith, c.below, c.small) in
                rw (loop-short m size k in_hole hole_end e short) (
                  scan-Found m size k true end' pos_size (omega arith) (record {
                    none_above =
                        short-NoneFree m size next end'
                          (record {
                            empty = λ j lo hi. c.empty j (omega arith) hi;
                            small = omega (arith, c.small);
                            below = omega (arith, c.below);
                            top = c.top;
                            edge = c.edge;
                          })
                          (omega (arith, less)) above;
                    within = λ f. record {
                      empty = λ j lo hi. c.empty j (omega arith) hi;
                      small = omega (arith, less);
                      below = omega (arith, c.below);
                      top = c.top;
                      edge = c.edge;
                    };
                    outside = λ f. absurd (ground arith);
                  }))
          ]
    ]

-- `pt_find_hole` returns the highest hole of this size above page 0x40000 and below 0xf7ffe, none of
-- whose pages is mapped, or BAD_PAGE exactly if there is none. The size is not 0.
pub find_hole-highest :
    (m : Mem) (size : ℕ)
    → 0 < size
    → ((pt_find_hole m size ≡ bad_page) × NoneFree m size 262144)
      ⊎ ((262144 < pt_find_hole m size)
          × (pt_find_hole m size + size ≤ 1015806)
          × IsFree m (pt_find_hole m size) size
          × NoneFree m size (pt_find_hole m size))
unfolding pt_find_hole
find_hole-highest m size pos_size =
    scan-Found m size 753661 false 0 pos_size (omega arith) (record {
      none_above = λ p lo hi hole. omega arith;
      within = λ f. absurd (ground arith);
      outside = λ f. inl refl;
    })

none_mapped-IsFree : (m : Mem) (k start : ℕ) → none_mapped m start k ≡ true → IsFree m start k
unfolding none_mapped
none_mapped-IsFree m zero start e j lo hi = absurd (omega arith)
none_mapped-IsFree m (suc k) start e j lo hi = elim (Bool-cases (is_mapped m start)) [
  | inl mapped ↦ absurd (ground (arith, e))
  | inr free ↦ elim (Bool-cases (j == start)) [
    | inl here ↦ ground (arith, mapped_iff m start, ap (mem_pt m))
    | inr behind ↦
        none_mapped-IsFree m k (start + 1) (ground (arith, e)) j (ground arith) (ground arith)
  ]
]

pub is_hole-IsFree :
    (m : Mem) (start pages : ℕ)
    → start + pages < 2 ^ 32
    → pt_is_hole m start pages ≡ true
    → IsFree m start pages
unfolding pt_is_hole
is_hole-IsFree m start pages fits e =
    let whole : span start pages ≡ pages = omega arith in
    none_mapped-IsFree m pages start (subst (λ n. none_mapped m start n ≡ true) whole e)
