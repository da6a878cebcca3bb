-- ===== src/Fs/Path.antt =====
-- fs/path.c: paths, with symbolic links. A string is the list of its bytes, without the zero at its end.
pub mod Names
pub mod Walk
pub mod Normal
pub mod Resolve
pub mod Lexical
pub mod Bounds
mod Tests
use codex_for_ipad.Prelude.{
  ℕ, zero, suc, ◌+◌, ◌-◌, Bool, true, false, not, ◌&&◌, ◌||◌, Option, none, some, List, [], ◌∷◌,
  ◌++◌, ◌==◌, leb, if◌then◌else◌, length, take,
}
use codex_for_ipad.Prelude.Errno.{Errno, enoent, enotdir, enametoolong, eloop, Result, ok, err}

abbrev pub slash : ℕ
slash = 47

abbrev pub dot : ℕ
dot = 46

abbrev pub max_path : ℕ
max_path = 4096

abbrev pub max_name : ℕ
max_name = 256

-- What the file system at a normalized path has: the target of a symbolic link, whether a file is a directory, and the
-- error of `access_check` for searching it.
pub record Files : Type 0 where
  pub readlink : List ℕ → Option (List ℕ)
  pub is_dir : List ℕ → Option Bool
  pub access : List ℕ → Option Errno

-- A normalized path; an error; an access outside of a buffer; and a loop that has run out of its steps.
pub data Walked : Type 0 where
  normalized : List ℕ → Walked
  failed : Errno → Walked
  overrun : Walked
  unfinished : Walked

abbrev pub is_empty : List ℕ → Bool
is_empty [] = true
is_empty (c ∷ p) = false

abbrev pub starts_slash : List ℕ → Bool
starts_slash [] = false
starts_slash (c ∷ p) = c == slash

-- The end of a component: of the string, or a slash.
abbrev pub at_end : List ℕ → Bool
at_end [] = true
at_end (c ∷ p) = c == slash

unfoldable pub skip_slashes : List ℕ → List ℕ
skip_slashes [] = []
skip_slashes (c ∷ p) = if c == slash then skip_slashes p else c ∷ p

abbrev pub is_single_dot : List ℕ → Bool
is_single_dot [] = false
is_single_dot (a ∷ p) = a == dot && at_end p

abbrev pub is_double_dot : List ℕ → Bool
is_double_dot [] = false
is_double_dot (a ∷ []) = false
is_double_dot (a ∷ b ∷ p) = a == dot && b == dot && at_end p

abbrev pub tail : List ℕ → List ℕ
tail [] = []
tail (c ∷ p) = p

unfoldable pub has_slash : List ℕ → Bool
has_slash [] = false
has_slash (c ∷ p) = c == slash || has_slash p

-- What stands in front of the last slash.
unfoldable pub cut_last : List ℕ → List ℕ
cut_last [] = []
cut_last (c ∷ p) = if has_slash p then c ∷ cut_last p else []

-- The loop that copies a component while `--n > 0`: what is left of the path, what is copied, and `n`.
unfoldable pub copy_component : ℕ → List ℕ → List ℕ × List ℕ × ℕ
copy_component n [] = ([], [], n)
copy_component n (c ∷ p) =
    let rest = copy_component (n - 1) p in
    if c == slash
    then (c ∷ p, [], n)
    else if leb n 1
    then (c ∷ p, [], 0)
    else (rest.0, c ∷ rest.1, rest.2)

-- What comes behind a component, for the rest of the loop.
abbrev pub Next : Type 0
Next = List ℕ → List ℕ → ℕ → Walked

abbrev pub searched : Option Errno → Walked → Walked
searched none w = w
searched (some e) w = failed e

-- A component that a slash follows: if it exists, it has to be a directory that the task may search.
unfoldable pub check_directory : Files → List ℕ → Option Bool → Walked → Walked
check_directory fs out none w = w
check_directory fs out (some false) w = failed enotdir
check_directory fs out (some true) w = searched (fs.access out) w

abbrev pub join_rest : List ℕ → List ℕ → List ℕ
join_rest base [] = base
join_rest base (c ∷ p) = base ++ slash ∷ c ∷ p

-- A link found behind `out`: `again` normalizes the path with the link's target in its place, unless `left`, the number of
-- links that are still allowed, is 0. `readlink` has room for the rest of the buffer, and a zero is written behind what it
-- gives.
unfoldable pub follow_link : (List ℕ → Walked) → ℕ → List ℕ → List ℕ → List ℕ → Walked
follow_link again left out target p =
    let t = take (max_path - (length out + 1)) target in
    let base = if starts_slash t then t else out ++ slash ∷ t in
    if left == 0
    then failed eloop
    else if leb max_path (length out + 1 + length t)
    then overrun
    else if leb max_path (length (join_rest base p))
    then overrun
    else again (join_rest base p)

-- `slashed` tells whether a slash follows the component.
unfoldable pub look_up :
    Files
    → (List ℕ → Walked)
    → ℕ
    → Next
    → List ℕ
    → List ℕ
    → Bool
    → List ℕ
    → ℕ
    → Option (List ℕ)
    → Walked
look_up fs again left next out full slashed p n (some target) = follow_link again left out target p
look_up fs again left next out full slashed p n none =
    if slashed then check_directory fs full (fs.is_dir full) (next p full n) else next p full n

unfoldable pub add_component :
    Files → Bool → (List ℕ → Walked) → ℕ → Next → List ℕ → List ℕ × List ℕ × ℕ → Walked
add_component fs follow again left next out (p, c, n) =
    let full = out ++ slash ∷ c in
    let rest = skip_slashes p in
    if n == 0
    then failed enametoolong
    else if follow || not (is_empty rest)
    then look_up fs again left next out full (starts_slash p) rest n (fs.readlink full)
    else next rest full n

-- The rounds of the loop with `n` bytes left, 1 or 0: the slash in front of a component takes `n` to 0 or below, `--n > 0`
-- never holds again and `n` never is 0, so that each round writes a slash, looks the path up, and stays at the same component.
-- The zero of the path is written behind the buffer when no byte is left for it.
unfoldable pub spin : Files → (List ℕ → Walked) → ℕ → ℕ → List ℕ → List ℕ → Walked
spin fs again left zero out p = overrun
spin fs again left (suc n) out p =
    let full = out ++ slash ∷ [] in
    let next = spin fs again left n full p in
    look_up fs again left (λ q o m. next) out full true p 0 (fs.readlink full)

-- The same at the start of a path that begins with a name: unless it is a link, the byte in front of the path is read.
unfoldable pub first_found : (List ℕ → Walked) → ℕ → List ℕ → List ℕ → Option (List ℕ) → Walked
first_found again left out p none = overrun
first_found again left out p (some target) = follow_link again left out target p

unfoldable pub first_spin : Files → (List ℕ → Walked) → ℕ → ℕ → List ℕ → List ℕ → Walked
first_spin fs again left n out p =
    if n == 0 then overrun else first_found again left out p (fs.readlink (out ++ slash ∷ []))

-- The loop of `__path_normalize`, with `n` bytes left in the buffer behind `out` and its zero.
unfoldable pub walk : Files → Bool → (List ℕ → Walked) → ℕ → ℕ → List ℕ → List ℕ → ℕ → Walked
walk fs follow again left fuel [] out n = normalized out
walk fs follow again left zero (c ∷ p) out n = unfinished
walk fs follow again left (suc fuel) (c ∷ p) out n =
    let next = walk fs follow again left fuel in
    if is_single_dot (c ∷ p)
    then next (skip_slashes p) out n
    else if is_double_dot (c ∷ p)
    then next (skip_slashes (tail p)) (cut_last out) (n + (length out - length (cut_last out)))
    else if leb n 1
    then spin fs again left n out (c ∷ p)
    else add_component fs follow again left next out (copy_component (n - 1) (c ∷ p))

-- The start of `out`: nothing for the root.
abbrev pub start_path : Option (List ℕ) → List ℕ
start_path none = []
start_path (some []) = []
start_path (some (c ∷ [])) = if c == slash then [] else c ∷ []
start_path (some (c ∷ d ∷ p)) = c ∷ d ∷ p

abbrev pub starts_name : List ℕ → Bool
starts_name p = not (starts_slash p || is_single_dot p || is_double_dot p)

unfoldable pub start_walk : Files → Bool → (List ℕ → Walked) → ℕ → Option (List ℕ) → List ℕ → Walked
start_walk fs follow again left at path =
    let out = start_path at in
    if is_empty path
    then failed enoent
    else if leb (max_path - 1 - length out) 1 && starts_name path
    then first_spin fs again left (max_path - 1 - length out) out path
    else walk fs follow again left (length path) (skip_slashes path) out (max_path - 1 - length out)

-- `__path_normalize`, which follows up to `left` links more.
unfoldable pub normalize : Files → Bool → ℕ → Option (List ℕ) → List ℕ → Walked
normalize fs follow zero at path = start_walk fs follow (λ p. failed eloop) 0 at path
normalize fs follow (suc left) at path =
    start_walk fs follow (normalize fs follow left none) (suc left) at path

abbrev pub max_links : ℕ
max_links = 5

abbrev pub normalize_from : Files → Bool → Option (Result (List ℕ)) → List ℕ → Walked
normalize_from fs follow none path = normalize fs follow max_links none path
normalize_from fs follow (some (err e)) path = failed e
normalize_from fs follow (some (ok p)) path = normalize fs follow max_links (some p) path

abbrev pub relative_to :
    Option (Result (List ℕ)) → Option (Option (Result (List ℕ))) → Option (Result (List ℕ))
relative_to pwd none = pwd
relative_to pwd (some b) = b

-- The paths of the root, of the working directory and of `at` are those that `generic_getpath` gives; a null pointer has
-- none. `at` is missing for AT_PWD.
unfoldable pub path_normalize :
    Files
    → Bool
    → Option (Result (List ℕ))
    → Option (Result (List ℕ))
    → Option (Option (Result (List ℕ)))
    → List ℕ
    → Walked
path_normalize fs follow root pwd at path =
    let base = relative_to pwd at in
    if is_empty path
    then failed enoent
    else normalize_from fs follow (if starts_slash path then root else base) path

-- Behind a slash, if `fresh`, or inside a component.
unfoldable pub inside : Bool → List ℕ → Bool
inside fresh [] = true
inside fresh (c ∷ p) =
    let first = inside true p in
    let more = inside false p in if c == slash then (if fresh then false else first) else more

unfoldable pub path_is_normalized : List ℕ → Bool
path_is_normalized [] = true
path_is_normalized (c ∷ p) = c == slash && inside true p

-- What `path_next_component` finds: the end of the path, a name that is too long, a path whose next byte is no slash, which
-- an assertion rules out, or a component and the rest.
pub data Component : Type 0 where
  no_more : Component
  too_long : Component
  no_slash : Component
  component : List ℕ → List ℕ → Component

-- The loop, with room for `n` bytes.
unfoldable pub name_loop : ℕ → List ℕ → Option (List ℕ × List ℕ)
name_loop n [] = some ([], [])
name_loop n (c ∷ p) =
    let rest = name_loop (n - 1) p in
    if c == slash
    then some ([], c ∷ p)
    else if leb n 1
    then none
    else elim rest [ none ↦ none | some r ↦ some (c ∷ r.0, r.1) ]

abbrev pub found_component : Option (List ℕ × List ℕ) → Component
found_component none = too_long
found_component (some (c, rest)) = component c rest

unfoldable pub path_next_component : List ℕ → Component
path_next_component [] = no_more
path_next_component (c ∷ p) =
    if c == slash then found_component (name_loop max_name p) else no_slash
