-- ===== src/Kernel/Getset/Users.antt =====
-- What a task without privileges can do with the calls of kernel/getset.c.
use codex_for_ipad.Prelude.{
  ℕ, ◌≤◌, ◌≡◌, refl, sym, ◌≢◌, ◌⊎◌, inl, inr, false, none, List, [], ◌∷◌, ◌++◌, arith, ltb, length,
  take,
}
use codex_for_ipad.Kernel.Getset.{
  Task, keep, sys_setuid, sys_setresuid, sys_setreuid, assign_uids, assign_gids, sys_setgid,
  sys_setresgid, sys_setregid, max_groups, sys_setgroups,
}

-- The calls that change a task's ids.
pub data Call : Type 0 where
  setuid setgid : ℕ → Call
  setresuid setresgid : ℕ → ℕ → ℕ → Call
  setreuid setregid : ℕ → ℕ → Call
  setgroups : ℕ → List ℕ → Call

pub after : Call → Task → Task
after (setuid u) t = (sys_setuid u t).0
after (setgid g) t = (sys_setgid g t).0
after (setresuid r e s) t = (sys_setresuid r e s t).0
after (setresgid r e s) t = (sys_setresgid r e s t).0
after (setreuid r e) t = (sys_setreuid r e t).0
after (setregid r e) t = (sys_setregid r e t).0
after (setgroups n l) t = (sys_setgroups n l t).0

-- States that a task reaches by calls.
pub data Reaches : Task → Task → Type 0 where
  here : {t : Task} → Reaches t t
  call : {s t : Task} → Reaches s t → (c : Call) → Reaches s (after c t)

-- An id that a task holds as its real, effective or saved id.
abbrev pub HoldsUid : Task → ℕ → Type 0
HoldsUid t id = (id ≡ t.uid) ⊎ (id ≡ t.euid) ⊎ (id ≡ t.suid)

abbrev pub HoldsGid : Task → ℕ → Type 0
HoldsGid t id = (id ≡ t.gid) ⊎ (id ≡ t.egid) ⊎ (id ≡ t.sgid)

call-uids : (c : Call) (t : Task) (id : ℕ) → t.euid ≢ 0 → HoldsUid (after c t) id → HoldsUid t id
unfolding after sys_setuid sys_setgid sys_setresuid sys_setresgid sys_setreuid sys_setregid
    sys_setgroups assign_uids assign_gids
call-uids (setuid u) t id plain h = ground (arith, h)
call-uids (setgid g) t id plain h = ground (arith, h)
call-uids (setresuid r e s) t id plain h = ground (arith, h)
call-uids (setresgid r e s) t id plain h = ground (arith, h)
call-uids (setreuid r e) t id plain h = ground (arith, h)
call-uids (setregid r e) t id plain h = ground (arith, h)
call-uids (setgroups n l) t id plain h = ground (arith, h)

call-gids : (c : Call) (t : Task) (id : ℕ) → t.euid ≢ 0 → HoldsGid (after c t) id → HoldsGid t id
unfolding after sys_setuid sys_setgid sys_setresuid sys_setresgid sys_setreuid sys_setregid
    sys_setgroups assign_uids assign_gids
call-gids (setuid u) t id plain h = ground (arith, h)
call-gids (setgid g) t id plain h = ground (arith, h)
call-gids (setresuid r e s) t id plain h = ground (arith, h)
call-gids (setresgid r e s) t id plain h = ground (arith, h)
call-gids (setreuid r e) t id plain h = ground (arith, h)
call-gids (setregid r e) t id plain h = ground (arith, h)
call-gids (setgroups n l) t id plain h = ground (arith, h)

-- A task that holds neither a real nor an effective nor a saved user id 0 never comes to hold, as a real, effective or saved
-- id, a user id or a group id that it did not hold as one of these at the start, whatever calls of setuid, setgid and their
-- kind and of setgroups it makes, and in whatever order. The supplementary groups are not among these ids, and `exec` is not
-- among the calls.
pub unprivileged-ids :
    {s t : Task}
    → Reaches s t
    → (HoldsUid s 0 → ⊥)
    → ((id : ℕ) → HoldsUid t id → HoldsUid s id) × ((id : ℕ) → HoldsGid t id → HoldsGid s id)
unprivileged-ids here plain = (λ id h. h, λ id h. h)
unprivileged-ids (call r c) plain =
    let ih = unprivileged-ids r plain in
    let lower = λ (e : _ ≡ 0). plain (ih.0 0 (inr (inl (sym e)))) in
    (λ id h. ih.0 id (call-uids c _ id lower h), λ id h. ih.1 id (call-gids c _ id lower h))

-- A bug: `setreuid` of the superuser leaves the saved id alone, unlike on Linux, so that a task that has given
-- up both other ids by it can take the effective id 0 again.
pub setreuid_keeps_suid :
    (t : Task) (uid : ℕ)
    → t.euid ≡ 0
    → t.suid ≡ 0
    → uid ≢ keep
    → uid ≢ 0
    → let dropped = (sys_setreuid uid uid t).0 in
      (dropped.uid ≡ uid)
      × (dropped.euid ≡ uid)
      × ((sys_setresuid keep 0 keep dropped).1 ≡ none)
      × ((sys_setresuid keep 0 keep dropped).0.euid ≡ 0)
unfolding sys_setreuid sys_setresuid assign_uids
setreuid_keeps_suid t uid root saved new user =
    (ground arith, ground arith, ground arith, ground arith)

take_all : {A : Type 0} (l r : List A) → take (length l) (l ++ r) ≡ l
take_all [] r = refl
take_all (x ∷ l) r = rw (take_all l r) refl

take_whole : {A : Type 0} (l : List A) → take (length l) l ≡ l
take_whole [] = refl
take_whole (x ∷ l) = rw (take_whole l) refl

-- A bug: `setgroups` asks for no privilege. Every task can give itself any list of at most 32 groups.
pub setgroups_unguarded :
    (t : Task) (l : List ℕ)
    → length l ≤ max_groups
    → let (t', e) = sys_setgroups (length l) l t in (e ≡ none) × (take t'.ngroups t'.groups ≡ l)
unfolding sys_setgroups
setgroups_unguarded t l h =
    let test : ltb max_groups (length l) ≡ false = ground arith in
    let test' : ltb (length l) (length l) ≡ false = ground arith in
    rw (test, test', take_whole l) (refl, take_all l _)
