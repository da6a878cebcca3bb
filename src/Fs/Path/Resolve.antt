-- ===== src/Fs/Path/Resolve.antt =====
-- The components of a path, and what entering them from left to right gives, for fs/path.c without symbolic links.
use codex_for_ipad.Prelude.{
  ◌&&◌, ◌≢◌, ℕ, ◌≡◌, refl, sym, ◌∙◌, ap, Bool, true, false, not, ◌||◌, List, [], ◌∷◌, ◌++◌, arith,
  ◌==◌, if◌then◌else◌, inl, inr, Bool-cases,
}
use codex_for_ipad.Fs.Path.{
  slash, dot, Files, Walked, normalized, is_empty, starts_slash, at_end, skip_slashes,
  is_single_dot, is_double_dot, tail, has_slash, check_directory,
}
use codex_for_ipad.Fs.Path.Names.{join, init}

abbrev pub push_first : ℕ → List (List ℕ) → List (List ℕ)
push_first c [] = (c ∷ []) ∷ []
push_first c (x ∷ xs) = (c ∷ x) ∷ xs

-- The components between the slashes of a path, empty ones included.
abbrev pub split : List ℕ → List (List ℕ)
split [] = [] ∷ []
split (c ∷ p) = if c == slash then [] ∷ split p else push_first c (split p)

-- A component after others: `.` and an empty one change nothing, and `..` takes the last one away, if there is one.
abbrev pub enter : List (List ℕ) → List ℕ → List (List ℕ)
enter ds c =
    if is_empty c || is_single_dot c then ds else if is_double_dot c then init ds else ds ++ c ∷ []

abbrev pub is_name : List ℕ → Bool
is_name c = not (is_empty c || is_single_dot c || is_double_dot c)

abbrev pub all_empty : List (List ℕ) → Bool
all_empty [] = true
all_empty (c ∷ cs) = is_empty c && all_empty cs

-- Whether a component that these come behind has to be a directory: if a slash follows it, and, where a link at the end of the
-- path is not to be followed, another component than an empty one.
abbrev pub is_passed : Bool → List (List ℕ) → Bool
is_passed follow [] = false
is_passed follow (c ∷ cs) = follow || not (all_empty (c ∷ cs))

-- The components are entered from left to right. A name that is passed has to be a directory that may be searched, if it is
-- there at all.
abbrev pub resolve : Files → Bool → List (List ℕ) → List (List ℕ) → Walked
resolve fs follow ds [] = normalized (join ds)
resolve fs follow ds (c ∷ cs) =
    let path = join (enter ds c) in
    let rest = resolve fs follow (enter ds c) cs in
    if is_name c && is_passed follow cs then check_directory fs path (fs.is_dir path) rest else rest

split_one : (c : List ℕ) → has_slash c ≡ false → split (c ++ []) ≡ c ∷ []
unfolding has_slash
split_one [] h = refl
split_one (x ∷ c) h =
    let no_slash : (x == slash) ≡ false = ground (arith, h) in
    let more : has_slash c ≡ false = ground (arith, h) in rw (no_slash, split_one c more) refl

split_more : (c q : List ℕ) → has_slash c ≡ false → split (c ++ slash ∷ q) ≡ c ∷ split q
unfolding has_slash
split_more [] q h = refl
split_more (x ∷ c) q h =
    let no_slash : (x == slash) ≡ false = ground (arith, h) in
    let more : has_slash c ≡ false = ground (arith, h) in rw (no_slash, split_more c q more) refl

skip_other : (c : ℕ) (p : List ℕ) → (c == slash) ≡ false → skip_slashes (c ∷ p) ≡ c ∷ p
unfolding skip_slashes
skip_other c p e = rw e refl

push_first-filled : (c : ℕ) (cs : List (List ℕ)) → all_empty (push_first c cs) ≡ false
push_first-filled c [] = refl
push_first-filled c (x ∷ cs) = refl

all_empty-split : (q : List ℕ) → all_empty (split q) ≡ is_empty (skip_slashes q)
unfolding skip_slashes
all_empty-split [] = refl
all_empty-split (c ∷ q) = elim (Bool-cases (c == slash)) [
  | inl e ↦ rw e (all_empty-split q)
  | inr e ↦ rw e (push_first-filled c (split q))
]

passed-split :
    (follow : Bool) (q : List ℕ)
    → is_passed follow (split q) ≡ (follow || not (is_empty (skip_slashes q)))
passed-split follow q = some_parts (split q) (all_empty-split q) (split-filled q)
  where
    some_parts :
        (cs : List (List ℕ))
        → all_empty cs ≡ is_empty (skip_slashes q)
        → cs ≢ []
        → is_passed follow cs ≡ (follow || not (is_empty (skip_slashes q)))
    some_parts [] e n = absurd (n refl)
    some_parts (c ∷ cs) e n = ap (λ b. follow || not b) e

    push_first-some : (c : ℕ) (cs : List (List ℕ)) → push_first c cs ≢ []
    push_first-some c [] h = cc
    push_first-some c (x ∷ cs) h = cc

    split-filled : (q : List ℕ) → split q ≢ []
    split-filled [] h = cc
    split-filled (c ∷ q) h = elim (Bool-cases (c == slash)) [
      | inl e ↦ let k = rw e at h in cc
      | inr e ↦ push_first-some c (split q) (rw e at h)
    ]

module _ (fs : Files) (follow : Bool) where
  -- A component that is no name is entered before the rest.
  resolve-split :
      (ds : List (List ℕ)) (c q : List ℕ)
      → has_slash c ≡ false
      → at_end q ≡ true
      → is_name c ≡ false
      → resolve fs follow ds (split (c ++ q)) ≡ resolve fs follow (enter ds c) (split q)
  resolve-split ds c [] h e n = ap (resolve fs follow ds) (split_one c h) ∙ rw n refl
  resolve-split ds c (x ∷ q) h e n =
      let x_slash : x ≡ slash = ground arith in
      rw x_slash (ap (resolve fs follow ds) (split_more c q h) ∙ rw n refl)

  -- What comes behind a name, when the path goes on with `q`.
  abbrev pub gate : List ℕ → List ℕ → Walked → Walked
  gate path q w =
      if starts_slash q && (follow || not (is_empty (skip_slashes q)))
      then check_directory fs path (fs.is_dir path) w
      else w

  pub name-resolve :
      (ds : List (List ℕ)) (c q : List ℕ)
      → has_slash c ≡ false
      → at_end q ≡ true
      → is_name c ≡ true
      → resolve fs follow ds (split (c ++ q))
        ≡ gate (join (enter ds c)) q (resolve fs follow (enter ds c) (split q))
  unfolding skip_slashes
  name-resolve ds c [] h e n = ap (resolve fs follow ds) (split_one c h) ∙ rw n refl
  name-resolve ds c (x ∷ q) h e n =
      let x_slash : x ≡ slash = ground arith in
      rw x_slash (ap (resolve fs follow ds) (split_more c q h) ∙ rw (n, passed-split follow q) refl)

  pub resolve-skip_slashes :
      (ds : List (List ℕ)) (p : List ℕ)
      → resolve fs follow ds (split (skip_slashes p)) ≡ resolve fs follow ds (split p)
  unfolding skip_slashes
  resolve-skip_slashes ds [] = refl
  resolve-skip_slashes ds (c ∷ p) = elim (Bool-cases (c == slash)) [
    | inl e ↦ rw e (resolve-skip_slashes ds p)
    | inr e ↦ ap (λ x. resolve fs follow ds (split x)) (skip_other c p e)
  ]

  pub single-resolve :
      (ds : List (List ℕ)) (c : ℕ) (p : List ℕ)
      → is_single_dot (c ∷ p) ≡ true
      → resolve fs follow ds (split (c ∷ p)) ≡ resolve fs follow ds (split (skip_slashes p))
  unfolding has_slash
  single-resolve ds c p e =
      let first : c ≡ dot = ground (arith, e) in
      let last : at_end p ≡ true = ground (arith, e) in
      rw first (resolve-split ds (dot ∷ []) p refl last refl) ∙ sym (resolve-skip_slashes ds p)

  pub double-resolve :
      (ds : List (List ℕ)) (c : ℕ) (p : List ℕ)
      → is_double_dot (c ∷ p) ≡ true
      → resolve fs follow ds (split (c ∷ p))
        ≡ resolve fs follow (init ds) (split (skip_slashes (tail p)))
  unfolding has_slash
  double-resolve ds c [] e = cc
  double-resolve ds c (d ∷ p) e =
      let first : c ≡ dot = ground (arith, e) in
      let second : d ≡ dot = ground (arith, e) in
      let last : at_end p ≡ true = ground (arith, e) in
      rw (first, second) (resolve-split ds (dot ∷ dot ∷ []) p refl last refl)
      ∙ sym (resolve-skip_slashes (init ds) p)
