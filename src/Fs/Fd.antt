-- ===== src/Fs/Fd.antt =====
-- fs/fd.c, fs/fd.h and util/bits.h: file objects with their reference counts, and the table of a
-- task's descriptors. The result of the last close and the allocator are arguments (`Env`); file objects
-- are named by numbers, and have no `getflags` and `setflags` of their own.
pub mod Slots
pub mod Install
pub mod Refs
pub mod Calls
pub mod Dup
pub mod Fcntl
mod Tests
use codex_for_ipad.Prelude.{
  ℕ, zero, suc, ◌+◌, ◌-◌, ◌*◌, ◌%◌, ◌/◌, ◌^◌, Bool, true, false, Option, none, some, List, [], ◌∷◌,
  ◌++◌, ◌==◌, ltb, leb, if◌then◌else◌, length, get_or, set, take, replicate,
}
use codex_for_ipad.Prelude.Int.{ℤ, pos, negsuc, ltb_ℤ}
use codex_for_ipad.Prelude.Errno.{Errno, ebadf, enomem, emfile, einval, failure}
use codex_for_ipad.Fs.Lock.{FileLock, file_lock_remove_owned_by}

-- The fields of `struct fd` that this file reads and writes.
pub record Fd : Type 0 where
  pub refcount : ℕ
  pub flags : ℕ
  pub inode : Option ℕ

-- The file objects, the record locks of each inode, the objects that `fd_close` has destroyed, and
-- the current task's table: its identity, its slots and their close-on-exec bits.
pub record Sys : Type 0 where
  pub fds : ℕ → Fd
  pub locks : ℕ → List FileLock
  pub freed : List ℕ
  pub table : ℕ
  pub users : ℕ
  pub files : List (Option ℕ)
  pub cloexec : List Bool
  pub nofile : ℕ

pub record Env : Type 0 where
  -- What the last close of a file returns.
  pub close : ℕ → ℤ
  -- Whether a table of this size can be allocated.
  pub allocates : ℕ → Bool

abbrev pub update {ℓ} : {A : Type ℓ} → (ℕ → A) → ℕ → A → ℕ → A
update f k v j = if j == k then v else f j

-- `atomic_uint`
abbrev pub inc : ℕ → ℕ
inc n = (n + 1) % 2 ^ 32

abbrev pub dec : ℕ → ℕ
dec n = (n + (2 ^ 32 - 1)) % 2 ^ 32

abbrev pub set_refcount : Sys → ℕ → ℕ → Sys
set_refcount s fd n = record s { fds = update s.fds fd (record (s.fds fd) { refcount = n }) }

pub fd_retain : ℕ → Sys → Sys
fd_retain fd s = set_refcount s fd (inc (s.fds fd).refcount)

pub fd_close : Env → ℕ → Sys → Sys × ℤ
fd_close env fd s =
    let n = dec (s.fds fd).refcount in
    let s' = set_refcount s fd n in
    if n == 0 then (record s' { freed = fd ∷ s.freed }, env.close fd) else (s', pos 0)

-- `files[f]` inside the table.
abbrev pub slot : List (Option ℕ) → ℕ → Option ℕ
slot files f = get_or files f none

-- New slots are empty and their bits clear.
pub fdtable_resize : Env → ℕ → Sys → Sys × ℤ
fdtable_resize env size s =
    if env.allocates size
    then (
      record s {
        files = s.files ++ replicate (size - length s.files) none;
        cloexec = s.cloexec ++ replicate (size - length s.cloexec) false;
      },
      pos 0,
    )
    else (s, failure enomem)

-- `unsigned size = max + 1`
abbrev pub table_size : ℤ → ℕ
table_size (pos n) = (n + 1) % 2 ^ 32
table_size (negsuc n) = (2 ^ 32 - n) % 2 ^ 32

pub fdtable_expand : Env → ℤ → Sys → Sys × ℤ
fdtable_expand env max s =
    let size = table_size max in
    if ltb s.nofile size
    then (s, failure emfile)
    else if leb size (length s.files)
    then (s, pos 0)
    else fdtable_resize env size s

pub fdtable_get : Sys → ℤ → Option ℕ
fdtable_get s (pos f) = slot s.files f
fdtable_get s (negsuc f) = none

-- The first empty slot from `f` on, among `k` slots.
pub find_slot : ℕ → ℕ → List (Option ℕ) → ℕ
find_slot zero f files = f
find_slot (suc k) f files = elim (slot files f) [ none ↦ f | some _ ↦ find_slot k (f + 1) files ]

-- The number of slots that may be used: the limit, as an `unsigned`, or the table's size.
abbrev pub usable : Sys → ℕ
usable s = if ltb (length s.files) (s.nofile % 2 ^ 32) then length s.files else s.nofile % 2 ^ 32

pub put_slot : ℕ → ℕ → Sys → Sys
put_slot f fd s = record s { files = set s.files f (some fd); cloexec = set s.cloexec f false }

pub f_install_start : Env → ℕ → ℕ → Sys → Sys × ℤ
f_install_start env fd start s =
    let f = find_slot (usable s - start) start s.files in
    if leb (usable s) f
    then (let (s', err) = fdtable_expand env (pos f) s in
        if ltb_ℤ err (pos 0)
        then (let (s'', _) = fd_close env fd s' in (s'', err))
        else (put_slot f fd s', pos f))
    else (put_slot f fd s, pos f)

-- O_CLOEXEC_ and O_NONBLOCK_ in a word of flags.
abbrev pub o_cloexec : ℕ → Bool
o_cloexec flags = (flags / 2 ^ 19) % 2 == 1

abbrev pub o_nonblock : ℕ → Bool
o_nonblock flags = (flags / 2 ^ 11) % 2 == 1

-- Where the operations have no `setflags` of their own: the bits O_APPEND_ and O_NONBLOCK_, 10 and
-- 11, come from the new word and all others stay.
pub fd_setflags : ℕ → ℕ → ℕ
fd_setflags old flags = old / 2 ^ 12 * 2 ^ 12 + flags / 2 ^ 10 % 4 * 2 ^ 10 + old % 2 ^ 10

abbrev pub set_flags : ℕ → ℕ → Sys → Sys
set_flags fd flags s = record s {
  fds = update s.fds fd (record (s.fds fd) { flags = fd_setflags (s.fds fd).flags flags });
}

-- What the flags of `f_install` do to the slot that the file got.
pub apply_flags : ℕ → ℕ → ℕ → Sys → Sys
apply_flags fd f flags s =
    let s' = if o_nonblock flags then set_flags fd (2 ^ 11) s else s in
    record s' { cloexec = if o_cloexec flags then set s.cloexec f true else s.cloexec }

pub f_install : Env → ℕ → ℕ → Sys → Sys × ℤ
f_install env fd flags s =
    let (s', r) = f_install_start env fd 0 s in
    elim r [ pos f ↦ (apply_flags fd f flags s', pos f) | negsuc e ↦ (s', negsuc e) ]

-- Closing a file that has an inode drops the table's record locks on it.
abbrev pub drop_locks : ℕ → Sys → Sys
drop_locks fd s = record s {
  locks = elim (s.fds fd).inode [
    | none ↦ s.locks
    | some i ↦ update s.locks i (file_lock_remove_owned_by (s.locks i) s.table)
  ];
}

pub clear_slot : ℕ → Sys → Sys
clear_slot f s = record s { files = set s.files f none; cloexec = set s.cloexec f false }

pub close_slot : Env → ℕ → ℕ → Sys → Sys × ℤ
close_slot env f fd s = let (s', err) = fd_close env fd (drop_locks fd s) in (clear_slot f s', err)

pub fdtable_close : Env → ℕ → Sys → Sys × ℤ
fdtable_close env f s = elim (slot s.files f) [
  | none ↦ (s, failure ebadf)
  | some fd ↦ close_slot env f fd s
]

pub sys_close : Env → ℤ → Sys → Sys × ℤ
sys_close env (pos f) s = fdtable_close env f s
sys_close env (negsuc f) s = (s, failure ebadf)

-- The loop over the table from slot `f` on, `k` slots.
pub close_marked : Env → ℕ → ℕ → Sys → Sys
close_marked env zero f s = s
close_marked env (suc k) f s =
    close_marked env k (f + 1) (if get_or s.cloexec f false then (fdtable_close env f s).0 else s)

pub fdtable_do_cloexec : Env → Sys → Sys
fdtable_do_cloexec env s = close_marked env (length s.files) 0 s

pub close_all : Env → ℕ → ℕ → Sys → Sys
close_all env zero f s = s
close_all env (suc k) f s = close_all env k (f + 1) (fdtable_close env f s).0

-- The last user of a table closes all of it.
pub fdtable_release : Env → Sys → Sys
fdtable_release env s =
    let n = dec s.users in
    let s' = record s { users = n } in if n == 0 then close_all env (length s.files) 0 s' else s'

-- Every file of the table gains a reference.
pub retain_all : List (Option ℕ) → Sys → Sys
retain_all [] s = s
retain_all (none ∷ files) s = retain_all files s
retain_all (some fd ∷ files) s = retain_all files (fd_retain fd s)

-- The store after the copy, and the slots and bits of the new table.
pub fdtable_copy : Env → Sys → Option (Sys × List (Option ℕ) × List Bool)
fdtable_copy env s =
    if env.allocates (length s.files) then some (retain_all s.files s, s.files, s.cloexec) else none

-- What a call returns; `fault` is an access outside the table, or a failed assertion.
pub data Ret : Type 0 where
  ret : Sys → ℤ → Ret
  fault : Ret

abbrev pub returned : Sys × ℤ → Ret
returned (s, r) = ret s r

pub sys_dup : Env → ℤ → Sys → Sys × ℤ
sys_dup env f s = elim (fdtable_get s f) [
  | none ↦ (s, failure ebadf)
  | some fd ↦ f_install env fd 0 (fd_retain fd s)
]

-- `table->files[new_f] = fd`, and the bit if it is asked for.
pub store_slot : ℕ → ℕ → ℕ → Sys → Sys
store_slot f fd flags s = record s {
  files = set s.files f (some fd);
  cloexec = if o_cloexec flags then set s.cloexec f true else s.cloexec;
}

-- The end of `sys_dup3`, with the table large enough.
pub replace_slot : Env → ℕ → ℤ → ℕ → Sys → Ret
replace_slot env fd (pos n) flags s =
    ret (store_slot n fd flags (sys_close env (pos n) (fd_retain fd s)).0) (pos n)
replace_slot env fd (negsuc n) flags s = fault

pub sys_dup3 : Env → ℤ → ℤ → ℕ → Sys → Ret
sys_dup3 env f new_f flags s = elim (fdtable_get s f) [
  | none ↦ ret s (failure ebadf)
  | some fd ↦
      let (s', err) = fdtable_expand env new_f s in
      if ltb_ℤ err (pos 0) then ret s' err else replace_slot env fd new_f flags s'
]

pub sys_dup2 : Env → ℤ → ℤ → Sys → Ret
sys_dup2 env f new_f s = sys_dup3 env f new_f 0 s
