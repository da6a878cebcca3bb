-- ===== src/Kernel/Getset.antt =====
-- kernel/getset.c: the user and group ids of a task. What `user_read` copies from the caller's memory, and
-- whether `user_write` succeeds, are arguments.
pub mod Users
mod Tests
use codex_for_ipad.Prelude.{
  ℕ, ◌+◌, ◌-◌, ◌*◌, ◌%◌, ◌^◌, Bool, true, false, not, ◌&&◌, ◌||◌, Option, none, some, List, [], ◌∷◌,
  ◌++◌, ◌==◌, ltb, if◌then◌else◌, length, take, drop,
}
use codex_for_ipad.Prelude.Errno.{Errno, eperm, einval, efault, Result, ok, err}

-- The fields of `struct task` that the calls read and write.
pub record Task : Type 0 where
  pub uid : ℕ
  pub euid : ℕ
  pub suid : ℕ
  pub gid : ℕ
  pub egid : ℕ
  pub sgid : ℕ
  pub pdeath_signal : ℕ
  pub ngroups : ℕ
  pub groups : List ℕ

abbrev pub superuser : Task → Bool
superuser t = t.euid == 0

-- `(uid_t) -1`, the id that is not to be changed.
abbrev pub keep : ℕ
keep = 2 ^ 32 - 1

abbrev pub sys_getuid : Task → ℕ
sys_getuid t = t.uid % 2 ^ 16

abbrev pub sys_geteuid : Task → ℕ
sys_geteuid t = t.euid % 2 ^ 16

abbrev pub sys_getgid : Task → ℕ
sys_getgid t = t.gid % 2 ^ 16

abbrev pub sys_getegid : Task → ℕ
sys_getegid t = t.egid % 2 ^ 16

-- A new effective id clears the signal for the parent's death.
abbrev pub set_euid : ℕ → Task → Task
set_euid euid t = record t {
  pdeath_signal = if t.euid == euid then t.pdeath_signal else 0;
  euid = euid;
}

abbrev pub set_egid : ℕ → Task → Task
set_egid egid t = record t {
  pdeath_signal = if t.egid == egid then t.pdeath_signal else 0;
  egid = egid;
}

pub sys_setuid : ℕ → Task → Task × Option Errno
sys_setuid uid t =
    if superuser t
    then (set_euid uid (record t { uid = uid; suid = uid }), none)
    else if not (uid == t.uid) && not (uid == t.suid)
    then (t, some eperm)
    else (set_euid uid t, none)

-- An id that a task without privileges may ask for.
abbrev pub may_set_uid : Task → ℕ → Bool
may_set_uid t id = (id == keep) || (id == t.uid) || (id == t.euid) || (id == t.suid)

abbrev pub change : ℕ → ℕ → ℕ
change id old = if id == keep then old else id

-- The assignments of `sys_setresuid`.
pub assign_uids : ℕ → ℕ → ℕ → Task → Task
assign_uids ruid euid suid t = record t {
  uid = change ruid t.uid;
  pdeath_signal = if not (euid == keep) && not (t.euid == euid) then 0 else t.pdeath_signal;
  euid = change euid t.euid;
  suid = change suid t.suid;
}

pub sys_setresuid : ℕ → ℕ → ℕ → Task → Task × Option Errno
sys_setresuid ruid euid suid t =
    if not (superuser t) && not (may_set_uid t ruid && may_set_uid t euid && may_set_uid t suid)
    then (t, some eperm)
    else (assign_uids ruid euid suid t, none)

pub sys_setreuid : ℕ → ℕ → Task → Task × Option Errno
sys_setreuid ruid euid t = sys_setresuid ruid euid keep t

pub sys_setgid : ℕ → Task → Task × Option Errno
sys_setgid gid t =
    if superuser t
    then (set_egid gid (record t { gid = gid; sgid = gid }), none)
    else if not (gid == t.gid) && not (gid == t.sgid)
    then (t, some eperm)
    else (set_egid gid t, none)

abbrev pub may_set_gid : Task → ℕ → Bool
may_set_gid t id = (id == keep) || (id == t.gid) || (id == t.egid) || (id == t.sgid)

pub assign_gids : ℕ → ℕ → ℕ → Task → Task
assign_gids rgid egid sgid t = record t {
  gid = change rgid t.gid;
  pdeath_signal = if not (egid == keep) && not (t.egid == egid) then 0 else t.pdeath_signal;
  egid = change egid t.egid;
  sgid = change sgid t.sgid;
}

pub sys_setresgid : ℕ → ℕ → ℕ → Task → Task × Option Errno
sys_setresgid rgid egid sgid t =
    if not (superuser t) && not (may_set_gid t rgid && may_set_gid t egid && may_set_gid t sgid)
    then (t, some eperm)
    else (assign_gids rgid egid sgid t, none)

pub sys_setregid : ℕ → ℕ → Task → Task × Option Errno
sys_setregid rgid egid t = sys_setresgid rgid egid keep t

-- The number of groups, and the groups written to the caller's memory.
pub sys_getgroups : ℕ → Bool → Task → Result (ℕ × List ℕ)
sys_getgroups size writes t =
    if size == 0
    then ok (t.ngroups, [])
    else if ltb size t.ngroups
    then err einval
    else if not writes
    then err efault
    else ok (t.ngroups, take t.ngroups t.groups)

-- MAX_GROUPS
abbrev pub max_groups : ℕ
max_groups = 32

-- `copied` are the ids that `user_read` has copied; it has failed if they are fewer than `size`.
pub sys_setgroups : ℕ → List ℕ → Task → Task × Option Errno
sys_setgroups size copied t =
    if ltb max_groups size
    then (t, some einval)
    else (let groups = take size copied ++ drop (length (take size copied)) t.groups in
        if ltb (length copied) size
        then (record t { groups = groups }, some efault)
        else (record t { groups = groups; ngroups = size }, none))

abbrev pub sys_getuid32 : Task → ℕ
sys_getuid32 t = t.uid

abbrev pub sys_geteuid32 : Task → ℕ
sys_geteuid32 t = t.euid

abbrev pub sys_getgid32 : Task → ℕ
sys_getgid32 t = t.gid

abbrev pub sys_getegid32 : Task → ℕ
sys_getegid32 t = t.egid

-- Three calls of `user_put`, which `writable` lets succeed: the words written, by address, and how the call
-- ends. What is written before a failure stays written.
pub put_ids : (ℕ → Bool) → ℕ × ℕ → ℕ × ℕ → ℕ × ℕ → List (ℕ × ℕ) × Option Errno
put_ids writable a b c =
    if not (writable a.0)
    then ([], some efault)
    else if not (writable b.0)
    then (a ∷ [], some efault)
    else if not (writable c.0)
    then (a ∷ b ∷ [], some efault)
    else (a ∷ b ∷ c ∷ [], none)

pub sys_getresuid : (ℕ → Bool) → ℕ → ℕ → ℕ → Task → List (ℕ × ℕ) × Option Errno
sys_getresuid writable ruid_addr euid_addr suid_addr t =
    put_ids writable (ruid_addr, t.uid) (euid_addr, t.euid) (suid_addr, t.suid)

pub sys_getresgid : (ℕ → Bool) → ℕ → ℕ → ℕ → Task → List (ℕ × ℕ) × Option Errno
sys_getresgid writable rgid_addr egid_addr sgid_addr t =
    put_ids writable (rgid_addr, t.gid) (egid_addr, t.egid) (sgid_addr, t.sgid)

-- ADDR_NO_RANDOMIZE_ is the only persona that is known; the group's own is the argument.
pub sys_personality : ℕ → ℕ → Result ℕ
sys_personality personality persona =
    if persona == 2 ^ 32 - 1
    then ok personality
    else if not (persona == 262144)
    then err einval
    else ok personality
