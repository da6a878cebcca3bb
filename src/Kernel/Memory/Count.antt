-- ===== src/Kernel/Memory/Count.antt =====
-- References of kernel/memory.c: the entries of a page table that name a block, and the invariant that the
-- reference counts are exact.
use codex_for_ipad.Prelude.{
  ℕ, zero, suc, ◌+◌, ◌%◌, ◌^◌, ◌<◌, ◌≤◌, ◌≡◌, refl, inl, inr, Option, none, some, List, arith, ◌==◌,
  if◌then◌else◌, Bool-cases,
}
use codex_for_ipad.Kernel.Memory.{
  Mem, PtEntry, Space, mem_pages, mem_pt, mem_pt_new, put_pt, mem_pt_del, mem_changed,
}
use codex_for_ipad.Kernel.Memory.Table.{mem_pt-assign, mem_pt-put, mem_pt-mem_pt_del}

abbrev pub holds : Option PtEntry → ℕ → ℕ
holds none b = 0
holds (some entry) b = if entry.block == b then 1 else 0

count : (ℕ → Option PtEntry) → ℕ → ℕ → ℕ
count f zero b = 0
count f (suc n) b = count f n b + holds (f n) b

count-same :
    (f g : ℕ → Option PtEntry) (n b : ℕ) → ((j : ℕ) → j < n → g j ≡ f j) → count g n b ≡ count f n b
unfolding count
count-same f g zero b h = refl
count-same f g (suc n) b h =
    rw (h n (omega arith), count-same f g n b (λ j lt. h j (omega arith))) refl

-- An entry changes: its old block loses a reference and its new one gains one.
count-update :
    (f g : ℕ → Option PtEntry) (n p b : ℕ) (e : Option PtEntry)
    → p < n
    → ((j : ℕ) → g j ≡ (if j == p then e else f j))
    → count g n b + holds (f p) b ≡ count f n b + holds e b
unfolding count
count-update f g zero p b e lt h = absurd (omega arith)
count-update f g (suc n) p b e lt h = elim (Bool-cases (n == p)) [
  | inl last ↦
      let same : n ≡ p = ground arith in
      let new : g n ≡ e = ground (arith, h n) in
      let rest = count-same f g n b (λ j below. ground (arith, h j)) in
      rw (new, rest, ← same) (omega arith)
  | inr inner ↦
      let old : g n ≡ f n = ground (arith, h n) in
      rw old (omega (arith, count-update f g n p b e (ground arith) h))
]

count-none : (f : ℕ → Option PtEntry) (n b : ℕ) → ((j : ℕ) → j < n → f j ≡ none) → count f n b ≡ 0
unfolding count
count-none f zero b h = refl
count-none f (suc n) b h = rw (h n (omega arith), count-none f n b (λ j lt. h j (omega arith))) refl

count-le : (f : ℕ → Option PtEntry) (n b : ℕ) → count f n b ≤ n
unfolding count
count-le f zero b = omega arith
count-le f (suc n) b = ground (arith, count-le f n b)

pub refs : Mem → ℕ → ℕ
refs m b = count (mem_pt m) mem_pages b

pub refs-none : (m : Mem) (b : ℕ) → ((j : ℕ) → j < mem_pages → mem_pt m j ≡ none) → refs m b ≡ 0
unfolding refs
refs-none m b h = count-none (mem_pt m) mem_pages b h

-- A space refers to a block at most once from each page.
pub refs-le : (m : Mem) (b : ℕ) → refs m b ≤ mem_pages
unfolding refs
refs-le m b = count-le (mem_pt m) mem_pages b

pub refs-mem_changed : (m : Mem) (b : ℕ) → refs (mem_changed m) b ≡ refs m b
unfolding refs mem_pt
refs-mem_changed m b = refl

pub refs-invalidated :
    (m : Mem) (l : List ℕ) (b : ℕ) → refs (record m { invalidated = l }) b ≡ refs m b
unfolding refs mem_pt
refs-invalidated m l b = refl

pub refs-mem_pt_del :
    (m : Mem) (page b : ℕ)
    → page < mem_pages
    → refs (mem_pt_del m page) b + holds (mem_pt m page) b ≡ refs m b
unfolding refs
refs-mem_pt_del m page b lt = omega (
  arith,
  count-update (mem_pt m) (mem_pt (mem_pt_del m page)) mem_pages page b none lt
      (mem_pt-mem_pt_del m page),
)

pub refs-assign :
    (m : Mem) (page b : ℕ) (entry : PtEntry)
    → page < mem_pages
    → mem_pt m page ≡ none
    → refs (put_pt (mem_pt_new m page) page (some entry)) b ≡ refs m b + holds (some entry) b
unfolding refs
refs-assign m page b entry lt e =
    let step =
      count-update (mem_pt m) (mem_pt (put_pt (mem_pt_new m page) page (some entry))) mem_pages page
        b (some entry) lt (λ j. mem_pt-assign m page j (some entry)) in
    let nothing : holds (mem_pt m page) b ≡ 0 = rw e refl in omega (arith, step, nothing)

pub refs-put :
    (m : Mem) (page b : ℕ) (entry entry' : PtEntry)
    → page < mem_pages
    → mem_pt m page ≡ some entry
    → entry.block ≡ entry'.block
    → refs (put_pt m page (some entry')) b ≡ refs m b
unfolding refs
refs-put m page b entry entry' lt e same =
    let step =
      count-update (mem_pt m) (mem_pt (put_pt m page (some entry'))) mem_pages page b (some entry')
        lt (λ j. mem_pt-put m page j entry (some entry') e) in
    let kept : holds (mem_pt m page) b ≡ holds (some entry') b = rw (e, same) refl in
    omega (arith, step, kept)

-- Every block's count is the number of its entries here, plus its references elsewhere.
abbrev pub Counted : (ℕ → ℕ) → Space → Type 0
Counted extra s = (b : ℕ) → (s.store.blocks b).refcount ≡ (refs s.mem b + extra b) % 2 ^ 32

-- Numbers that no block has had yet are not referred to.
pub record IsSpace (extra : ℕ → ℕ) (s : Space) : Type 0 where
  pub counted : Counted extra s
  pub fresh : (b : ℕ) → s.store.next ≤ b → refs s.mem b + extra b ≡ 0
