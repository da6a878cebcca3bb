-- ===== src/Fs/Path/Walk.antt =====
-- The components that the loop of fs/path.c copies.
use codex_for_ipad.Prelude.{
  ℕ, ◌+◌, ◌-◌, ◌≤◌, ◌<◌, ◌≡◌, refl, ap, true, false, List, [], ◌∷◌, ◌++◌, arith, ◌==◌, leb, length,
  inl, inr, Bool-cases,
}
use codex_for_ipad.Fs.Path.{
  slash, starts_slash, at_end, skip_slashes, is_single_dot, is_double_dot, has_slash,
  copy_component,
}
use codex_for_ipad.Fs.Path.Names.{IsName}

-- What is copied of a path: a component without a slash, which ends where the path ends or a slash follows unless the
-- room, `n`, is used up; `n` goes down by as many bytes.
pub record IsCopied (n : ℕ) (p rest c : List ℕ) (m : ℕ) : Type 0 where
  pub whole : p ≡ c ++ rest
  pub plain : has_slash c ≡ false
  pub ends : 0 < m → at_end rest ≡ true
  pub room : 0 < m → m + length c ≡ n

pub copy_component-IsCopied :
    (n : ℕ) (p : List ℕ) → let r = copy_component n p in IsCopied n p r.0 r.1 r.2
unfolding copy_component has_slash
copy_component-IsCopied n [] = record {
  whole = refl;
  plain = refl;
  ends = λ h. refl;
  room = λ h. omega arith;
}
copy_component-IsCopied n (c ∷ p) = elim (Bool-cases (c == slash)) [
  | inl e ↦ rw e (record { whole = refl; plain = refl; ends = λ h. e; room = λ h. omega arith })
  | inr e ↦ elim (Bool-cases (leb n 1)) [
    | inl f ↦
        rw (e, f)
          (record {
            whole = refl;
            plain = refl;
            ends = λ h. absurd (omega arith);
            room = λ h. absurd (omega arith);
          })
    | inr f ↦
        let ih = copy_component-IsCopied (n - 1) p in
        let big : 1 < n = ground arith in
        rw (e, f)
          (record {
            whole = ap (◌∷◌ c) ih.whole;
            plain = ground (arith, ih.plain, e);
            ends = ih.ends;
            room = λ h. omega (arith, ih.room h);
          })
  ]
]

-- A component that is not one of the two that `__path_normalize` looks for is a name.
pub copied-IsName :
    (p rest c : List ℕ)
    → p ≡ c ++ rest
    → has_slash c ≡ false
    → at_end rest ≡ true
    → at_end p ≡ false
    → is_single_dot p ≡ false
    → is_double_dot p ≡ false
    → IsName c
unfolding has_slash
copied-IsName p rest [] e plain ends open_path single double = absurd (ground (arith, ap at_end e))
copied-IsName p rest (a ∷ []) e plain ends open_path single double = record {
  filled = refl;
  plain = plain;
  single = ground (arith, ap is_single_dot e);
  double = refl;
}
copied-IsName p rest (a ∷ b ∷ []) e plain ends open_path single double = record {
  filled = refl;
  plain = plain;
  single = ground (arith, plain);
  double = ground (arith, ap is_double_dot e);
}
copied-IsName p rest (a ∷ b ∷ c ∷ d) e plain ends open_path single double = record {
  filled = refl;
  plain = plain;
  single = ground (arith, plain);
  double = ground (arith, plain);
}

pub skip_slashes-at_end : (p : List ℕ) → starts_slash (skip_slashes p) ≡ false
unfolding skip_slashes
skip_slashes-at_end [] = refl
skip_slashes-at_end (c ∷ p) = ground (arith, skip_slashes-at_end p)

pub length-skip_slashes : (p : List ℕ) → length (skip_slashes p) ≤ length p
unfolding skip_slashes
length-skip_slashes [] = omega arith
length-skip_slashes (c ∷ p) = ground (arith, length-skip_slashes p)
