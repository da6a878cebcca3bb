-- ===== src/Fs/Path/Normal.antt =====
-- What fs/path.c makes of a path.
use codex_for_ipad.Prelude.{
  ℕ, zero, suc, ◌+◌, ◌-◌, ◌≤◌, ◌<◌, ◌≡◌, ◌⊎◌, Bool, true, false, not, ◌||◌, ◌&&◌, Option, none,
  some, List, [], ◌∷◌, ◌++◌, arith, ◌==◌, leb, if◌then◌else◌, length, take, inl, inr, Bool-cases,
  length-append,
}
use mathlib.Core.Path.{subst}
use codex_for_ipad.Prelude.Errno.{Errno, eloop, enametoolong, enoent}
use codex_for_ipad.Fs.Path.{
  slash, max_path, Files, Walked, normalized, failed, overrun, Next, is_empty, starts_slash,
  skip_slashes, is_single_dot, is_double_dot, tail, cut_last, copy_component, searched,
  check_directory, join_rest, follow_link, look_up, add_component, walk, start_path, start_walk,
  spin, first_found, first_spin, starts_name, normalize, path_is_normalized,
}
use codex_for_ipad.Fs.Path.Names.{
  IsPath, cut_last-IsPath, add-IsPath, root-IsPath, IsPath-path_is_normalized,
}
use codex_for_ipad.Fs.Path.Walk.{copy_component-IsCopied, copied-IsName, skip_slashes-at_end}

searched_on :
    (e : Option Errno) (w : Walked) (u : List ℕ) → searched e w ≡ normalized u → w ≡ normalized u
searched_on none w u h = h
searched_on (some e) w u h = cc

directory_on :
    (fs : Files) (p : List ℕ) (d : Option Bool) (w : Walked) (u : List ℕ)
    → check_directory fs p d w ≡ normalized u
    → w ≡ normalized u
unfolding check_directory
directory_on fs p none w u h = h
directory_on fs p (some false) w u h = cc
directory_on fs p (some true) w u h = searched_on (fs.access p) w u h

link_on :
    (again : List ℕ → Walked) (left : ℕ) (out target p u : List ℕ)
    → follow_link again left out target p ≡ normalized u
    → (q : List ℕ) × (again q ≡ normalized u)
unfolding follow_link
link_on again left out target p u h =
    let t = take (max_path - (length out + 1)) target in
    let base = if starts_slash t then t else out ++ slash ∷ t in
    (
      join_rest base p,
      linked (left == 0) (leb max_path (length out + 1 + length t))
          (leb max_path (length (join_rest base p))) h,
    )
  where
    linked :
        {w : Walked} (a b c : Bool)
        → (if a then failed eloop else if b then overrun else if c then overrun else w)
          ≡ normalized u
        → w ≡ normalized u
    linked true b c e = cc
    linked false true c e = cc
    linked false false true e = cc
    linked false false false e = e

-- A step that goes on: with the path behind a component, or with the path that a link leads to.
look_up_on :
    (fs : Files) (again : List ℕ → Walked) (left : ℕ) (next : Next) (out full : List ℕ)
    (slashed : Bool) (p : List ℕ) (n : ℕ) (l : Option (List ℕ)) (u : List ℕ)
    → look_up fs again left next out full slashed p n l ≡ normalized u
    → (next p full n ≡ normalized u) ⊎ ((q : List ℕ) × (again q ≡ normalized u))
unfolding look_up
look_up_on fs again left next out full slashed p n (some target) u h =
    inr (link_on again left out target p u h)
look_up_on fs again left next out full true p n none u h =
    inl (directory_on fs full (fs.is_dir full) (next p full n) u h)
look_up_on fs again left next out full false p n none u h = inl h

add_on :
    (fs : Files) (follow : Bool) (again : List ℕ → Walked) (left : ℕ) (next : Next)
    (out p c : List ℕ) (n : ℕ) (u : List ℕ)
    → add_component fs follow again left next out (p, c, n) ≡ normalized u
    → (0 < n)
      × ((next (skip_slashes p) (out ++ slash ∷ c) n ≡ normalized u)
          ⊎ ((q : List ℕ) × (again q ≡ normalized u)))
unfolding add_component
add_on fs follow again left next out p c n u h = elim (Bool-cases (n == 0)) [
  | inl e ↦ let bad : failed enametoolong ≡ normalized u = rw e at h in cc
  | inr e ↦
      let full = out ++ slash ∷ c in
      (
        ground arith,
        elim (Bool-cases (follow || not (is_empty (skip_slashes p)))) [
          | inl f ↦
              look_up_on fs again left next out full (starts_slash p) (skip_slashes p) n
                (fs.readlink full) u (rw (e, f) at h)
          | inr f ↦ inl (rw (e, f) at h)
        ],
      )
]

spin_on :
    (fs : Files) (again : List ℕ → Walked) (left n : ℕ) (out p u : List ℕ)
    → spin fs again left n out p ≡ normalized u
    → (q : List ℕ) × (again q ≡ normalized u)
unfolding spin
spin_on fs again left zero out p u h = cc
spin_on fs again left (suc n) out p u h =
    let full = out ++ slash ∷ [] in
    let next = spin fs again left n full p in
    elim (look_up_on fs again left (λ q o m. next) out full true p 0 (fs.readlink full) u h) [
      | inl e ↦ spin_on fs again left n full p u e
      | inr e ↦ e
    ]

found_on :
    (again : List ℕ → Walked) (left : ℕ) (out p : List ℕ) (l : Option (List ℕ)) (u : List ℕ)
    → first_found again left out p l ≡ normalized u
    → (q : List ℕ) × (again q ≡ normalized u)
unfolding first_found
found_on again left out p none u h = cc
found_on again left out p (some target) u h = link_on again left out target p u h

first_on :
    (fs : Files) (again : List ℕ → Walked) (left n : ℕ) (out p u : List ℕ)
    → first_spin fs again left n out p ≡ normalized u
    → (q : List ℕ) × (again q ≡ normalized u)
unfolding first_spin
first_on fs again left n out p u h = elim (Bool-cases (n == 0)) [
  | inl e ↦ let bad : overrun ≡ normalized u = rw e at h in cc
  | inr e ↦ found_on again left out p (fs.readlink (out ++ slash ∷ [])) u (rw e at h)
]

-- A result: a path from the root whose components are names, which has room in a buffer of MAX_PATH bytes, with its zero.
pub record IsResult (u : List ℕ) : Type 0 where
  pub path : IsPath u
  pub short : length u < max_path

pub length-cut_last : (p : List ℕ) → length (cut_last p) ≤ length p
unfolding cut_last
length-cut_last [] = omega arith
length-cut_last (c ∷ p) = ground (arith, length-cut_last p)

walk-IsResult :
    (fs : Files) (follow : Bool) (again : List ℕ → Walked) (left fuel : ℕ) (p out : List ℕ) (n : ℕ)
    (u : List ℕ)
    → ((q : List ℕ) → again q ≡ normalized u → IsResult u)
    → IsPath out
    → length out + n ≡ max_path - 1
    → starts_slash p ≡ false
    → walk fs follow again left fuel p out n ≡ normalized u
    → IsResult u
unfolding walk
walk-IsResult fs follow again left fuel [] out n u linked v room open_path h =
    let same : out ≡ u = ground (arith, h) in
    record {
      path = subst IsPath same v;
      short = subst (λ x. length x < max_path) same (omega arith);
    }
walk-IsResult fs follow again left zero (c ∷ p) out n u linked v room open_path h = cc
walk-IsResult fs follow again left (suc fuel) (c ∷ p) out n u linked v room open_path h =
    elim (Bool-cases (is_single_dot (c ∷ p))) [
      | inl e ↦
          walk-IsResult fs follow again left fuel (skip_slashes p) out n u linked v room
            (skip_slashes-at_end p) (rw e at h)
      | inr e ↦ elim (Bool-cases (is_double_dot (c ∷ p))) [
        | inl f ↦
            walk-IsResult fs follow again left fuel (skip_slashes (tail p)) (cut_last out)
              (n + (length out - length (cut_last out))) u linked (cut_last-IsPath out v)
              (omega (arith, length-cut_last out)) (skip_slashes-at_end (tail p)) (rw (e, f) at h)
        | inr f ↦ elim (Bool-cases (leb n 1)) [
          | inl g ↦
              let k = spin_on fs again left n out (c ∷ p) u (rw (e, f, g) at h) in linked k.0 k.1
          | inr g ↦
              let r = copy_component (n - 1) (c ∷ p) in
              let k = copy_component-IsCopied (n - 1) (c ∷ p) in
              let s =
                add_on fs follow again left (walk fs follow again left fuel) out r.0 r.1 r.2 u
                  (rw (e, f, g) at h) in
              let name = copied-IsName (c ∷ p) r.0 r.1 k.whole k.plain (k.ends s.0) open_path e f in
              elim (s.1) [
                | inl t ↦
                    walk-IsResult fs follow again left fuel (skip_slashes r.0) (out ++ slash ∷ r.1)
                      r.2 u linked (add-IsPath out r.1 v name)
                      (ground (arith, length-append out (slash ∷ r.1), k.room s.0))
                      (skip_slashes-at_end r.0) t
                | inr (q, t) ↦ linked q t
              ]
        ]
      ]
    ]

-- Where a path starts: at the root, which `generic_getpath` writes as a slash, or at a path with names that has room in a
-- buffer.
pub data IsStart : Option (List ℕ) → Type 0 where
  at_root : IsStart none
  at_slash : IsStart (some (slash ∷ []))
  at_path : {p : List ℕ} → IsPath p → length p < max_path → IsStart (some p)

start-IsPath :
    (at : Option (List ℕ))
    → IsStart at
    → IsPath (start_path at) × (length (start_path at) < max_path)
start-IsPath none at_root = (root-IsPath, omega arith)
start-IsPath (some (_ ∷ [])) at_slash = (root-IsPath, omega arith)
start-IsPath (some []) (at_path v s) = (v, s)
start-IsPath (some (c ∷ [])) (at_path v s) = elim (Bool-cases (c == slash)) [
  | inl e ↦ rw e (root-IsPath, omega arith)
  | inr e ↦ rw e (v, s)
]
start-IsPath (some (c ∷ d ∷ p)) (at_path v s) = (v, s)

start_walk-IsResult :
    (fs : Files) (follow : Bool) (again : List ℕ → Walked) (left : ℕ) (at : Option (List ℕ))
    (path u : List ℕ)
    → ((q : List ℕ) → again q ≡ normalized u → IsResult u)
    → IsStart at
    → start_walk fs follow again left at path ≡ normalized u
    → IsResult u
unfolding start_walk
start_walk-IsResult fs follow again left at path u linked v h = elim (Bool-cases (is_empty path)) [
  | inl e ↦ let bad : failed enoent ≡ normalized u = rw e at h in cc
  | inr e ↦
      let s = start-IsPath at v in
      let out = start_path at in
      elim (Bool-cases (leb (max_path - 1 - length out) 1 && starts_name path)) [
        | inl f ↦
            let k =
              first_on fs again left (max_path - 1 - length out) out path u (rw (e, f) at h) in
            linked k.0 k.1
        | inr f ↦
            walk-IsResult fs follow again left (length path) (skip_slashes path) out _ u linked s.0
              (omega (arith, s.1)) (skip_slashes-at_end path) (rw (e, f) at h)
      ]
]

-- What `__path_normalize` gives when it succeeds, for any files and links: a path from the root without empty
-- components, `.` or `..`, which `path_is_normalized` accepts and which has room in the buffer with its zero. A relative
-- path starts at such a path, or at the root, which is written as a slash or left out.
pub normalize-IsResult :
    (fs : Files) (follow : Bool) (left : ℕ) (at : Option (List ℕ)) (path u : List ℕ)
    → IsStart at
    → normalize fs follow left at path ≡ normalized u
    → IsResult u × (path_is_normalized u ≡ true)
unfolding normalize
normalize-IsResult fs follow zero at path u v h =
    let r = start_walk-IsResult fs follow (λ p. failed eloop) 0 at path u (λ q e. cc) v h in
    (r, IsPath-path_is_normalized u r.path)
normalize-IsResult fs follow (suc left) at path u v h =
    let r =
      start_walk-IsResult fs follow (normalize fs follow left none) (suc left) at path u
        (λ q e. (normalize-IsResult fs follow left none q u at_root e).0) v h in
    (r, IsPath-path_is_normalized u r.path)
