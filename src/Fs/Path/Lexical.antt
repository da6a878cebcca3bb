-- ===== src/Fs/Path/Lexical.antt =====
-- What fs/path.c makes of a path where there are no symbolic links.
use codex_for_ipad.Prelude.{ℕ, ◌≡◌, none, List}
use codex_for_ipad.Fs.Path.{Files}

-- A file system without symbolic links.
abbrev pub IsLinkless : Files → Type 0
IsLinkless fs = (p : List ℕ) → fs.readlink p ≡ none
