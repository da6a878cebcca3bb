-- ===== src/Kernel/Getset/Tests.antt =====
-- Runs of kernel/getset.c, and its theorems there.
use codex_for_ipad.Prelude.{ℕ, [], arith}
use codex_for_ipad.Kernel.Getset.{Task}
use codex_for_ipad.Kernel.Getset.Users.{
  setuid, setregid, after, here, call, HoldsUid, HoldsGid, unprivileged-ids,
}

abbrev user : Task
user = record {
  uid = 501;
  euid = 502;
  suid = 501;
  gid = 20;
  egid = 21;
  sgid = 20;
  pdeath_signal = 9;
  ngroups = 0;
  groups = [];
}

-- `setuid(501); setregid(21, 20)`
abbrev user' : Task
user' = after (setregid 21 20) (after (setuid 501) user)

unprivileged-ids_example :
    ((id : ℕ) → HoldsUid user' id → HoldsUid user id)
    × ((id : ℕ) → HoldsGid user' id → HoldsGid user id)
unprivileged-ids_example =
    unprivileged-ids (call (call here (setuid 501)) (setregid 21 20)) (λ h. ground arith)
