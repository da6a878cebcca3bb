-- ===== src/Fs/Fd/Slots.antt =====
-- The slots of a descriptor table as a list: writes, searches, and how often a file is in it.
use codex_for_ipad.Prelude.{
  ℕ, zero, suc, ◌+◌, ◌<◌, ◌≤◌, ◌≡◌, refl, ◌≢◌, Option, none, some, List, [], ◌∷◌, ◌++◌, arith, ◌==◌,
  ==_iff, if◌then◌else◌, length, set, replicate, inl, inr, Bool-cases, Option-cases,
}
use codex_for_ipad.Fs.Fd.{slot, find_slot}

-- A slot behind the end reads as empty.
pub slot-lt : (files : List (Option ℕ)) (f fd : ℕ) → slot files f ≡ some fd → f < length files
slot-lt [] f fd h = cc
slot-lt (x ∷ files) zero fd h = omega arith
slot-lt (x ∷ files) (suc f) fd h = omega (arith, slot-lt files f fd h)

-- How many slots hold the file `fd`.
abbrev pub holds : ℕ → Option ℕ → ℕ
holds fd none = 0
holds fd (some g) = if g == fd then 1 else 0

abbrev pub count : ℕ → List (Option ℕ) → ℕ
count fd [] = 0
count fd (x ∷ files) = holds fd x + count fd files

pub count-set :
    (files : List (Option ℕ)) (f fd : ℕ) (v : Option ℕ)
    → f < length files
    → count fd (set files f v) + holds fd (slot files f) ≡ count fd files + holds fd v
count-set [] f fd v h = elim h [ ]
count-set (x ∷ files) zero fd v h = omega arith
count-set (x ∷ files) (suc f) fd v h = omega (arith, count-set files f fd v (omega arith))

pub count-append_replicate :
    (files : List (Option ℕ)) (k fd : ℕ) → count fd (files ++ replicate k none) ≡ count fd files
count-append_replicate [] zero fd = refl
count-append_replicate [] (suc k) fd = omega (arith, count-append_replicate [] k fd)
count-append_replicate (x ∷ files) k fd = omega (arith, count-append_replicate files k fd)

find_slot-hit :
    (k f : ℕ) (files : List (Option ℕ)) → slot files f ≡ none → find_slot (suc k) f files ≡ f
unfolding find_slot
find_slot-hit k f files e = ground arith

find_slot-miss :
    (k f fd : ℕ) (files : List (Option ℕ))
    → slot files f ≡ some fd
    → find_slot (suc k) f files ≡ find_slot k (f + 1) files
unfolding find_slot
find_slot-miss k f fd files e = ground arith

-- `r` is the first empty slot from `f` on, or lies behind the `k` slots.
pub record IsFirst (k f : ℕ) (files : List (Option ℕ)) (r : ℕ) : Type 0 where
  pub from : f ≤ r
  pub within : r ≤ f + k
  pub taken : (g : ℕ) → f ≤ g → g < r → slot files g ≢ none
  pub empty : r < f + k → slot files r ≡ none

pub find_slot-IsFirst :
    (k f : ℕ) (files : List (Option ℕ)) → IsFirst k f files (find_slot k f files)
unfolding find_slot
find_slot-IsFirst zero f files = record {
  from = omega arith;
  within = omega arith;
  taken = λ g p q. absurd (omega arith);
  empty = λ p. absurd (omega arith);
}
find_slot-IsFirst (suc k) f files = elim (Option-cases (slot files f)) [
  | inl e ↦ rw (find_slot-hit k f files e) (record {
    from = omega arith;
    within = omega arith;
    taken = λ g p q. absurd (omega arith);
    empty = λ p. e;
  })
  | inr (fd, e) ↦
      let ih = find_slot-IsFirst k (f + 1) files in
      rw (find_slot-miss k f fd files e) (record {
        from = omega (arith, ih.from);
        within = omega (arith, ih.within);
        taken = λ g p q. elim (Bool-cases (g == f)) [
          | inl same ↦ rw ((==_iff g f).0 same, e) (λ h. cc)
          | inr other ↦ ih.taken g (ground arith) q
        ];
        empty = λ p. ih.empty (omega arith);
      })
]
