-- ===== src/Kernel/Group/Misplaced.antt =====
-- kernel/group.c: the list in which `sys_setpgid` leaves a group.
use codex_for_ipad.Prelude.{ℕ, ◌≡◌, ◌≢◌, sym, ap, ◌∙◌, Option, none, some, arith, inl, inr}
use codex_for_ipad.Prelude.Errno.{ok}
use codex_for_ipad.Kernel.Futex.Counts.{times}
use codex_for_ipad.Kernel.Group.{Sys, Task, returns, sys_setpgid}
use codex_for_ipad.Kernel.Group.Links.{IsLinked}
use codex_for_ipad.Kernel.Group.Setpgid.{Changed, Joined, chosen, sys_setpgid-IsSetpgid}

abbrev group_of : Option Task → ℕ
group_of none = 0
group_of (some t) = t.group

-- A bug: when `sys_setpgid` moves a group to the process group of another pid than its task's, the group is in the list of the
-- task's own pid, and not in that of the process group, which a signal to the process group goes through.
pub setpgid_misplaces :
    (s : Sys) (cur id pgid : ℕ) (u : Sys) (t : Task)
    → IsLinked s
    → id ≢ 0
    → pgid ≢ 0
    → id ≢ pgid
    → s.tasks id ≡ some t
    → (s.groups t.group).pgid ≢ pgid
    → sys_setpgid s cur id pgid ≡ returns (ok 0) u
    → ((u.groups t.group).pgid ≡ pgid)
      × (times t.group (u.pgroup pgid) ≡ 0)
      × (times t.group (u.pgroup id) ≡ 1)
setpgid_misplaces s cur id pgid u t i a b c e d h =
    let who : chosen id cur ≡ id = ground (arith, a) in
    let target : chosen pgid id ≡ pgid = ground (arith, b) in
    let k = sys_setpgid-IsSetpgid s cur id pgid (ok 0) u i h in
    let j : Joined s cur id pgid u = (rw (who, target) at k).1 in
    let same : some j.task ≡ some t = sym j.allowed.found ∙ e in
    let same_group : j.task.group ≡ t.group = ap (λ o. group_of o) same in
    let change : Changed s t.group id pgid u = rw same_group at j.changed in
    elim change.listed [
      | inl f ↦ absurd (d f)
      | inr f ↦
          let count = change.is_linked.pgroups t.group pgid in
          let own = change.is_linked.pgroups t.group id in
          (change.pgid_is, ground (arith, rw f at count, c), ground (arith, rw f at own))
    ]
