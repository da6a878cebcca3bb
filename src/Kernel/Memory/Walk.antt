-- ===== src/Kernel/Memory/Walk.antt =====
-- The loops of kernel/memory.c that skip absent page directories.
use mathlib.Core.Path.{subst}
use codex_for_ipad.Prelude.{
  ℕ, zero, suc, ◌+◌, ◌-◌, ◌<◌, ◌≤◌, ◌≡◌, refl, ◌∙◌, sym, ap, inl, inr, none, arith, ltb, leb,
  Bool-cases, Option-cases,
}
use codex_for_ipad.Kernel.Memory.{
  Mem, mem_pages, pgdir_top, pgdir_bottom, mem_pt, skip_dirs, mem_next_page, walk,
}

mem_pt-absent : (m : Mem) (page : ℕ) → m.pgdir (pgdir_top page) ≡ none → mem_pt m page ≡ none
unfolding mem_pt
mem_pt-absent m page e = rw (e, mem_pt) refl

-- From one page to another the table is empty.
pub IsEmpty : Mem → ℕ → ℕ → Type 0
IsEmpty m from to = (j : ℕ) → from ≤ j → j < to → j < mem_pages → mem_pt m j ≡ none

skip_dirs-IsEmpty :
    (k : ℕ) (m : Mem) (page : ℕ) → (page ≤ skip_dirs k m page) × IsEmpty m page (skip_dirs k m page)
unfolding skip_dirs IsEmpty
skip_dirs-IsEmpty zero m page = (omega arith, λ j lo hi in_range. absurd (omega arith))
skip_dirs-IsEmpty (suc k) m page = elim (Bool-cases (ltb page mem_pages)) [
  | inr out ↦ rw out (omega arith, λ j lo hi in_range. absurd (omega arith))
  | inl inside ↦ elim (Option-cases (m.pgdir (pgdir_top page))) [
    | inr (dir, e) ↦ rw (inside, e) (omega arith, λ j lo hi in_range. absurd (omega arith))
    | inl e ↦
        let ih = skip_dirs-IsEmpty k m (page - pgdir_bottom page + 1024) in
        rw (inside, e)
          (
            omega (arith, ih.0),
            λ j lo hi in_range. elim (Bool-cases (ltb j (page - pgdir_bottom page + 1024))) [
              | inl near ↦
                  let same : pgdir_top j ≡ pgdir_top page = ground arith in
                  mem_pt-absent m j (rw same e)
              | inr far ↦ ih.1 j (ground arith) hi in_range
            ],
          )
  ]
]

-- `mem_next_page` goes forward, over empty pages only.
next_page-IsEmpty :
    (m : Mem) (page : ℕ)
    → (page < mem_next_page m page) × IsEmpty m (page + 1) (mem_next_page m page)
unfolding mem_next_page IsEmpty
next_page-IsEmpty m page = elim (Bool-cases (leb mem_pages (page + 1))) [
  | inl last ↦ rw last (omega arith, λ j lo hi in_range. absurd (omega arith))
  | inr more ↦
      let skipped = skip_dirs-IsEmpty 1024 m (page + 1) in
      rw more (omega (arith, skipped.0), skipped.1)
]

module _ {ℓ} {S : Type ℓ} where
  -- The body at every page in turn: `k` pages from `page` on.
  pub each : (ℕ → S → S) → ℕ → ℕ → S → S
  each body zero page s = s
  each body (suc k) page s = each body k (page + 1) (body page s)

  pub each-at :
      (body : ℕ → S → S) (a b page q : ℕ) (s : S)
      → a ≡ b
      → page ≡ q
      → each body a page s ≡ each body b q s
  each-at body a b page q s e e' = ap (λ n. each body n page s) e ∙ ap (λ p. each body b p s) e'

  -- Pages at which the body does nothing may be left out.
  each-skip :
      (body : ℕ → S → S) (n k page : ℕ) (s : S)
      → ((j : ℕ) → page ≤ j → j < page + n → body j s ≡ s)
      → each body (n + k) page s ≡ each body k (page + n) s
  unfolding each
  each-skip body zero k page s h =
      each-at body (0 + k) k page (page + 0) s (omega arith) (omega arith)
  each-skip body (suc n) k page s h =
      each-at body (suc n + k) (suc (n + k)) page page s (omega arith) refl
      ∙ ap (each body (n + k) (page + 1)) (h page (omega arith) (omega arith))
      ∙ each-skip body n k (page + 1) s (λ j lo hi. h j (omega arith) (omega arith))
      ∙ each-at body k k (page + 1 + n) (page + suc n) s refl (omega arith)

  each-none : (body : ℕ → S → S) (b p q : ℕ) (s : S) → 0 ≡ b → each body 0 p s ≡ each body b q s
  unfolding each
  each-none body b p q s e = ap (λ n. each body n q s) e

  each-cut :
      (body : ℕ → S → S) (a b page q : ℕ) (s : S)
      → page ≤ q
      → ((j : ℕ) → page ≤ j → j < q → j < page + a → body j s ≡ s)
      → b ≡ page + a - q
      → each body a page s ≡ each body b q s
  each-cut body a b page q s le h e = elim (Bool-cases (leb q (page + a))) [
    | inl short ↦
        each-at body a (q - page + b) page page s (ground arith) refl
        ∙ each-skip body (q - page) b page s (λ j lo hi. h j lo (ground arith) (ground arith))
        ∙ each-at body b b (page + (q - page)) q s refl (omega arith)
    | inr long ↦
        each-at body a (a + 0) page page s (omega arith) refl
        ∙ each-skip body a 0 page s (λ j lo hi. h j lo (ground arith) hi)
        ∙ each-none body b (page + a) q s (ground arith)
  ]

  -- A walk that skips absent directories does what a walk over all pages does, if the body does
  -- nothing at a page that is not mapped. As many steps as there are pages are enough.
  pub walk-each :
      (mem : S → Mem) (body : ℕ → S → S)
      → ((j : ℕ) (s : S) → mem_pt (mem s) j ≡ none → body j s ≡ s)
      → (k page end : ℕ) (s : S) → end ≤ page + k
      → end ≤ mem_pages
      → walk mem body k page end s ≡ each body (end - page) page s
  unfolding walk each IsEmpty
  walk-each mem body idle zero page end s enough inside =
      each-none body (end - page) page page s (omega arith)
  walk-each mem body idle (suc k) page end s enough inside = elim (Bool-cases (ltb page end)) [
    | inr out ↦ rw out (each-none body (end - page) page page s (ground arith))
    | inl more ↦
        let s' = body page s in
        let q = mem_next_page (mem s') page in
        let next = next_page-IsEmpty (mem s') page in
        rw more (
          walk-each mem body idle k q end s' (omega (arith, next.0)) inside
          ∙ sym (
              each-cut body (end - (page + 1)) (end - q) (page + 1) q s' (omega (arith, next.0))
                (λ j lo hi below. idle j s' (next.1 j lo hi (ground arith))) (ground arith))
          ∙ each-at body (suc (end - (page + 1))) (end - page) page page s (ground arith) refl)
  ]

module _ {ℓ κ} {S : Type ℓ} where
  -- What holds of a page and a state in front of each run of the body holds at the end.
  pub each-induction :
      (P : ℕ → S → Type κ) (body : ℕ → S → S) (k page : ℕ) (s : S)
      → ((j : ℕ) (t : S) → page ≤ j → j < page + k → P j t → P (j + 1) (body j t))
      → P page s
      → P (page + k) (each body k page s)
  unfolding each
  each-induction P body zero page s keep p =
      let same : page ≡ page + zero = omega arith in subst (λ q. P q s) same p
  each-induction P body (suc k) page s keep p =
      let same : page + 1 + k ≡ page + suc k = omega arith in
      subst (λ q. P q (each body k (page + 1) (body page s))) same
        (each-induction P body k (page + 1) (body page s)
          (λ j t from below. keep j t (omega arith) (omega arith))
          (keep page s (omega arith) (omega arith) p))
