-- ===== src/Fs/Path/Tests.antt =====
-- Runs of fs/path.c, and its theorems there.
use codex_for_ipad.Prelude.{
  length, ltb, ℕ, ◌≡◌, ◌≢◌, refl, true, false, Option, none, some, List, [], ◌∷◌, ◌==◌,
  if◌then◌else◌,
}
use codex_for_ipad.Prelude.Errno.{enotdir}
use codex_for_ipad.Fs.Path.{
  Files, normalized, failed, unfinished, has_slash, normalize, start_walk, walk, add_component,
  look_up, check_directory, copy_component, skip_slashes, cut_last, follow_link, path_is_normalized,
  path_next_component, component, no_more, too_long, max_name,
}
use codex_for_ipad.Fs.Path.Names.{IsName, join}
use codex_for_ipad.Fs.Path.Normal.{IsResult, at_slash, normalize-IsResult}
use codex_for_ipad.Fs.Path.Bounds.{normalize_finishes, path_next_component-join}

-- A file system without links, where every path is a directory to search.
abbrev plain : Files
plain = record { readlink = λ p. none; is_dir = λ p. some true; access = λ p. none }

-- One where /a is a link to /b.
abbrev to_b : List ℕ → Option (List ℕ)
to_b (s ∷ c ∷ []) = if c == 97 then some (47 ∷ 98 ∷ []) else none
to_b _ = none

abbrev linked : Files
linked = record { readlink = to_b; is_dir = λ p. none; access = λ p. none }

-- `a/./b//../c`
abbrev path : List ℕ
path = 97 ∷ 47 ∷ 46 ∷ 47 ∷ 98 ∷ 47 ∷ 47 ∷ 46 ∷ 46 ∷ 47 ∷ 99 ∷ []

-- `/a/c`
abbrev resolved : List ℕ
resolved = 47 ∷ 97 ∷ 47 ∷ 99 ∷ []

normalize-IsResult_example : IsResult resolved × (path_is_normalized resolved ≡ true)
unfolding normalize start_walk walk add_component look_up check_directory copy_component
    skip_slashes cut_last has_slash
normalize-IsResult_example =
    normalize-IsResult plain true 5 (some (47 ∷ [])) path resolved at_slash refl

link_followed : normalize linked true 5 none path ≡ normalized (47 ∷ 98 ∷ 47 ∷ 99 ∷ [])
unfolding normalize start_walk walk add_component look_up check_directory copy_component
    skip_slashes cut_last has_slash follow_link
link_followed = refl

-- `/a` is a file that is no directory.
abbrev with_file : Files
with_file = record {
  readlink = λ p. none;
  is_dir = λ p. if length p == 2 then some false else none;
  access = λ p. none;
}

file_refused : normalize with_file false 5 none path ≡ failed enotdir
unfolding normalize start_walk walk add_component look_up check_directory copy_component
    skip_slashes cut_last has_slash
file_refused = refl

normalize_finishes_example : normalize linked true 5 none path ≢ unfinished
normalize_finishes_example = normalize_finishes linked true 5 none path

a-IsName : IsName (97 ∷ [])
unfolding has_slash
a-IsName = record { filled = refl; plain = refl; single = refl; double = refl }

path_next_component-join_example :
    (path_next_component (join ((97 ∷ []) ∷ (99 ∷ []) ∷ []))
      ≡ (if ltb 1 max_name then component (97 ∷ []) (47 ∷ 99 ∷ []) else too_long))
    × (path_next_component (join []) ≡ no_more)
path_next_component-join_example = path_next_component-join (97 ∷ []) ((99 ∷ []) ∷ []) a-IsName
