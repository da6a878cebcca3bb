-- ===== src/Fs/Path/Bounds.antt =====
-- That fs/path.c comes to an end, where it runs over its buffer, and its walk along a normalized path.
use codex_for_ipad.Prelude.{
  ℕ, zero, suc, ◌+◌, ◌-◌, ◌≤◌, ◌<◌, ◌≡◌, ◌≢◌, refl, ◌∙◌, ap, Bool, true, false, not, ◌||◌, Option,
  none, some, List, [], ◌∷◌, ◌++◌, arith, ◌==◌, leb, ltb, ◌&&◌, if◌then◌else◌, length, take, inl,
  inr, Bool-cases, length-append,
}
use codex_for_ipad.Prelude.Errno.{Errno, eloop}
use codex_for_ipad.Fs.Path.{
  slash, max_path, max_name, Files, Walked, failed, overrun, unfinished, Next, is_empty,
  starts_slash, at_end, skip_slashes, is_single_dot, is_double_dot, tail, has_slash, cut_last,
  copy_component, searched, check_directory, join_rest, follow_link, look_up, add_component, walk,
  start_path, start_walk, normalize, name_loop, path_next_component, component, no_more,
  found_component, too_long, spin, first_found, first_spin, starts_name,
}
use codex_for_ipad.Fs.Path.Names.{IsName, join}
use codex_for_ipad.Fs.Path.Walk.{copy_component-IsCopied, length-skip_slashes, skip_slashes-at_end}

searched_end : (e : Option Errno) (w : Walked) → w ≢ unfinished → searched e w ≢ unfinished
searched_end none w n h = n h
searched_end (some e) w n h = cc

directory_end :
    (fs : Files) (p : List ℕ) (d : Option Bool) (w : Walked)
    → w ≢ unfinished
    → check_directory fs p d w ≢ unfinished
unfolding check_directory
directory_end fs p none w n h = n h
directory_end fs p (some false) w n h = cc
directory_end fs p (some true) w n h = searched_end (fs.access p) w n h

link_end :
    (again : List ℕ → Walked) (left : ℕ) (out target p : List ℕ)
    → ((q : List ℕ) → again q ≢ unfinished)
    → follow_link again left out target p ≢ unfinished
unfolding follow_link
link_end again left out target p ends =
    let t = take (max_path - (length out + 1)) target in
    let base = if starts_slash t then t else out ++ slash ∷ t in
    any_end (left == 0) (leb max_path (length out + 1 + length t))
      (leb max_path (length (join_rest base p))) (again (join_rest base p))
      (ends (join_rest base p))
  where
    any_end :
        (a b c : Bool) (w : Walked)
        → w ≢ unfinished
        → (if a then failed eloop else if b then overrun else if c then overrun else w) ≢ unfinished
    any_end true b c w n h = cc
    any_end false true c w n h = cc
    any_end false false true w n h = cc
    any_end false false false w n h = n h

look_up_end :
    (fs : Files) (again : List ℕ → Walked) (left : ℕ) (next : Next) (out full : List ℕ)
    (slashed : Bool) (p : List ℕ) (n : ℕ) (l : Option (List ℕ))
    → ((q : List ℕ) → again q ≢ unfinished)
    → next p full n ≢ unfinished
    → look_up fs again left next out full slashed p n l ≢ unfinished
unfolding look_up
look_up_end fs again left next out full slashed p n (some target) ends more =
    link_end again left out target p ends
look_up_end fs again left next out full true p n none ends more =
    directory_end fs full (fs.is_dir full) (next p full n) more
look_up_end fs again left next out full false p n none ends more = more

spin_end :
    (fs : Files) (again : List ℕ → Walked) (left n : ℕ) (out p : List ℕ)
    → ((q : List ℕ) → again q ≢ unfinished)
    → spin fs again left n out p ≢ unfinished
unfolding spin
spin_end fs again left zero out p ends h = cc
spin_end fs again left (suc n) out p ends h =
    let full = out ++ slash ∷ [] in
    look_up_end fs again left (λ q o m. spin fs again left n full p) out full true p 0
      (fs.readlink full) ends (spin_end fs again left n full p ends) h

found_end :
    (again : List ℕ → Walked) (left : ℕ) (out p : List ℕ) (l : Option (List ℕ))
    → ((q : List ℕ) → again q ≢ unfinished)
    → first_found again left out p l ≢ unfinished
unfolding first_found
found_end again left out p none ends h = cc
found_end again left out p (some target) ends h = link_end again left out target p ends h

first_end :
    (fs : Files) (again : List ℕ → Walked) (left n : ℕ) (out p : List ℕ)
    → ((q : List ℕ) → again q ≢ unfinished)
    → first_spin fs again left n out p ≢ unfinished
unfolding first_spin
first_end fs again left n out p ends h = elim (Bool-cases (n == 0)) [
  | inl e ↦ let bad = rw e at h in cc
  | inr e ↦ found_end again left out p (fs.readlink (out ++ slash ∷ [])) ends (rw e at h)
]

add_end :
    (fs : Files) (follow : Bool) (again : List ℕ → Walked) (left : ℕ) (next : Next)
    (out p c : List ℕ) (n : ℕ)
    → ((q : List ℕ) → again q ≢ unfinished)
    → (0 < n → next (skip_slashes p) (out ++ slash ∷ c) n ≢ unfinished)
    → add_component fs follow again left next out (p, c, n) ≢ unfinished
unfolding add_component
add_end fs follow again left next out p c n ends more h = elim (Bool-cases (n == 0)) [
  | inl e ↦ let bad = rw e at h in cc
  | inr e ↦ elim (Bool-cases (follow || not (is_empty (skip_slashes p)))) [
    | inl f ↦
        look_up_end fs again left next out (out ++ slash ∷ c) (starts_slash p) (skip_slashes p) n
          (fs.readlink (out ++ slash ∷ c)) ends (more (ground arith)) (rw (e, f) at h)
    | inr f ↦ more (ground arith) (rw (e, f) at h)
  ]
]

length-tail : (p : List ℕ) → length (tail p) ≤ length p
length-tail [] = omega arith
length-tail (x ∷ p) = omega arith

come_forward :
    (p rest c : List ℕ)
    → p ≡ c ++ rest
    → at_end rest ≡ true
    → starts_slash p ≡ false
    → suc (length rest) ≤ length p + (if is_empty p then 1 else 0)
come_forward [] rest [] e ends open_path = omega (arith, ap length e)
come_forward (x ∷ p) rest [] e ends open_path =
    let same : at_end (x ∷ p) ≡ true = ap at_end e ∙ ends in absurd (ground (arith, same))
come_forward p rest (a ∷ c) e ends open_path =
    omega (arith, ap length e, length-append (a ∷ c) rest)

walk_end :
    (fs : Files) (follow : Bool) (again : List ℕ → Walked) (left fuel : ℕ) (p out : List ℕ) (n : ℕ)
    → ((q : List ℕ) → again q ≢ unfinished)
    → starts_slash p ≡ false
    → length p ≤ fuel
    → walk fs follow again left fuel p out n ≢ unfinished
unfolding walk
walk_end fs follow again left fuel [] out n ends open_path enough h = cc
walk_end fs follow again left zero (c ∷ p) out n ends open_path enough h = absurd (omega arith)
walk_end fs follow again left (suc fuel) (c ∷ p) out n ends open_path enough h =
    elim (Bool-cases (is_single_dot (c ∷ p))) [
      | inl e ↦
          walk_end fs follow again left fuel (skip_slashes p) out n ends (skip_slashes-at_end p)
            (omega (arith, length-skip_slashes p)) (rw e at h)
      | inr e ↦ elim (Bool-cases (is_double_dot (c ∷ p))) [
        | inl f ↦
            walk_end fs follow again left fuel (skip_slashes (tail p)) (cut_last out) _ ends
              (skip_slashes-at_end (tail p))
              (omega (arith, length-skip_slashes (tail p), length-tail p)) (rw (e, f) at h)
        | inr f ↦ elim (Bool-cases (leb n 1)) [
          | inl g ↦ spin_end fs again left n out (c ∷ p) ends (rw (e, f, g) at h)
          | inr g ↦
              let r = copy_component (n - 1) (c ∷ p) in
              let k = copy_component-IsCopied (n - 1) (c ∷ p) in
              add_end fs follow again left (walk fs follow again left fuel) out r.0 r.1 r.2 ends
                (λ pos.
                  walk_end fs follow again left fuel (skip_slashes r.0) (out ++ slash ∷ r.1) r.2
                    ends (skip_slashes-at_end r.0)
                    (omega (
                      arith,
                      length-skip_slashes r.0,
                      come_forward (c ∷ p) r.0 r.1 k.whole (k.ends pos) open_path,
                    )))
                (rw (e, f, g) at h)
        ]
      ]
    ]

start_end :
    (fs : Files) (follow : Bool) (again : List ℕ → Walked) (left : ℕ) (at : Option (List ℕ))
    (path : List ℕ)
    → ((q : List ℕ) → again q ≢ unfinished)
    → start_walk fs follow again left at path ≢ unfinished
unfolding start_walk
start_end fs follow again left at path ends h = elim (Bool-cases (is_empty path)) [
  | inl e ↦ let bad = rw e at h in cc
  | inr e ↦
      let out = start_path at in
      elim (Bool-cases (leb (max_path - 1 - length out) 1 && starts_name path)) [
        | inl f ↦ first_end fs again left (max_path - 1 - length out) out path ends (rw (e, f) at h)
        | inr f ↦
            walk_end fs follow again left (length path) (skip_slashes path) out _ ends
              (skip_slashes-at_end path) (length-skip_slashes path) (rw (e, f) at h)
      ]
]

-- `__path_normalize` comes to an end for every path, all files and all links, as each round of the loop goes forward in the
-- path, if it does not run over its buffer.
pub normalize_finishes :
    (fs : Files) (follow : Bool) (left : ℕ) (at : Option (List ℕ)) (path : List ℕ)
    → normalize fs follow left at path ≢ unfinished
unfolding normalize
normalize_finishes fs follow zero at path = start_end fs follow _ 0 at path (λ q b. cc)
normalize_finishes fs follow (suc left) at path =
    start_end fs follow _ (suc left) at path (λ q. normalize_finishes fs follow left none q)

start_overruns :
    (fs : Files) (follow : Bool) (again : List ℕ → Walked) (left : ℕ) (at c : List ℕ)
    → IsName c
    → length at ≡ 4095
    → start_walk fs follow again left (some at) c ≡ overrun
unfolding start_walk first_spin has_slash
start_overruns fs follow again left [] c n long = absurd (omega arith)
start_overruns fs follow again left (a ∷ []) c n long = absurd (omega arith)
start_overruns fs follow again left (a ∷ b ∷ at) [] n long = absurd (let k = n.filled in cc)
start_overruns fs follow again left (a ∷ b ∷ at) (x ∷ c) n long =
    let plain = n.plain in
    let no_slash : (x == slash) ≡ false = ground (arith, plain) in
    let none_left : max_path - 1 - length (a ∷ b ∷ at) ≡ 0 = omega (arith, long) in
    let single = n.single in let double = n.double in rw (no_slash, single, double, none_left) refl

-- A bug: the test for a path that is too long is jumped over if no byte of the buffer is left in front of a component, and
-- a slash and a zero are written up to behind the end of the buffer: a name in a directory whose path has 4095 bytes does it.
pub normalize_overruns :
    (fs : Files) (follow : Bool) (left : ℕ) (at c : List ℕ)
    → IsName c
    → length at ≡ 4095
    → normalize fs follow left (some at) c ≡ overrun
unfolding normalize
normalize_overruns fs follow zero at c n long =
    start_overruns fs follow (λ p. failed eloop) 0 at c n long
normalize_overruns fs follow (suc left) at c n long =
    start_overruns fs follow (normalize fs follow left none) (suc left) at c n long

name_loop-join :
    (n : ℕ) (c : List ℕ) (cs : List (List ℕ))
    → has_slash c ≡ false
    → length c < n
    → name_loop n (c ++ join cs) ≡ some (c, join cs)
unfolding name_loop has_slash
name_loop-join n [] [] plain fits = refl
name_loop-join n [] (d ∷ cs) plain fits = refl
name_loop-join n (x ∷ c) cs plain fits =
    let other : (x == slash) ≡ false = ground (arith, plain) in
    let more : has_slash c ≡ false = ground (arith, plain) in
    let room : leb n 1 ≡ false = ground arith in
    rw (other, room, name_loop-join (n - 1) c cs more (omega arith)) refl

name_loop_full :
    (n : ℕ) (c p : List ℕ)
    → has_slash c ≡ false
    → 0 < n
    → n ≤ length c
    → name_loop n (c ++ p) ≡ none
unfolding name_loop has_slash
name_loop_full n [] p plain some_room long = absurd (omega arith)
name_loop_full n (x ∷ c) p plain some_room long =
    let other : (x == slash) ≡ false = ground (arith, plain) in
    let more : has_slash c ≡ false = ground (arith, plain) in
    elim (Bool-cases (leb n 1)) [
      | inl e ↦ rw (other, e) refl
      | inr e ↦
          let rest = name_loop_full (n - 1) c p more (ground (arith, e)) (omega arith) in
          rw (other, e, rest) refl
    ]

-- The walk along a path of names gives each name that is shorter than MAX_NAME and the path behind it, and fails at one that
-- is not; the path of no names is its end.
pub path_next_component-join :
    (c : List ℕ) (cs : List (List ℕ))
    → IsName c
    → (path_next_component (join (c ∷ cs))
        ≡ (if ltb (length c) max_name then component c (join cs) else too_long))
      × (path_next_component (join []) ≡ no_more)
unfolding path_next_component
path_next_component-join c cs n = elim (Bool-cases (ltb (length c) max_name)) [
  | inl e ↦
      (rw e (ap found_component (name_loop-join max_name c cs n.plain (ground (arith, e)))), refl)
  | inr e ↦ (
    rw e (
        ap found_component
          (name_loop_full max_name c (join cs) n.plain (omega arith) (ground (arith, e)))),
    refl,
  )
]
