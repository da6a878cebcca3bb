-- ===== src/Kernel/Group/Reached.antt =====
-- The lists of kernel/group.c after any calls.
use codex_for_ipad.Prelude.{
  sym, Option-cases, ℕ, ◌≡◌, refl, true, Option, none, some, List, [], ◌∷◌, arith, inl, inr,
}
use codex_for_ipad.Prelude.Errno.{Result, ok, err}
use codex_for_ipad.Kernel.Futex.Counts.{times}
use codex_for_ipad.Kernel.Group.{
  Sys, returns, pid_empty, is_nil, task_create, remove_pgroup, sys_setpgid, leave_pgroup,
}
use codex_for_ipad.Kernel.Group.Sessions.{tgroup_copy, task_leave_session, task_setsid}
use codex_for_ipad.Kernel.Group.Links.{
  IsLinked, some_injective, tgroup_copy-IsLinked, leave_pgroup-IsLinked,
}
use codex_for_ipad.Kernel.Group.Setpgid.{IsSetpgid, sys_setpgid-IsSetpgid, chosen}
use codex_for_ipad.Kernel.Group.Setsid.{IsSetsid, task_setsid-IsSetsid, task_leave_session-HasLeft}

-- The states that calls lead to. A new process has a new group, in the lists of the one that it is copied from; when it is
-- reaped, its group leaves its session and its process group.
pub data Reaches (s : Sys) : Sys → Type 0 where
  start : Reaches s s
  created :
      (u : Sys) (parent : Option ℕ) (pid : ℕ)
      → pid_empty u pid ≡ true
      → Reaches s u
      → Reaches s (task_create u parent pid)
  setpgid :
      (u v : Sys) (cur id pgid : ℕ) (r : Result ℕ)
      → sys_setpgid u cur id pgid ≡ returns r v
      → Reaches s u
      → Reaches s v
  setsid :
      (u v : Sys) (g pid : ℕ) (r : Result ℕ)
      → task_setsid g pid u ≡ returns r v
      → Reaches s u
      → Reaches s v
  copied :
      (u v : Sys) (old g leader : ℕ)
      → (u.groups g).session ≡ none
      → (u.groups g).pgroup ≡ none
      → tgroup_copy old g leader (u.groups old).session (u.groups old).pgroup u ≡ some v
      → Reaches s u
      → Reaches s v
  left :
      (u v w : Sys) (g : ℕ)
      → task_leave_session g u ≡ some v
      → remove_pgroup g (v.groups g).pgroup v ≡ some w
      → Reaches s u
      → Reaches s w

nil-times : (xs : List ℕ) (g : ℕ) → is_nil xs ≡ true → times g xs ≡ 0
nil-times [] g e = refl
nil-times (x ∷ xs) g e = absurd cc

task_create-IsLinked :
    (s : Sys) (parent : Option ℕ) (pid : ℕ)
    → pid_empty s pid ≡ true
    → IsLinked s
    → IsLinked (task_create s parent pid)
unfolding task_create pid_empty
task_create-IsLinked s parent pid e i =
    let nobody : is_nil (s.session pid) ≡ true = ground (arith, e) in
    let nothing : is_nil (s.pgroup pid) ≡ true = ground (arith, e) in
    record {
      sessions = λ g p. ground (arith, i.sessions g p, nil-times (s.session pid) g nobody);
      pgroups = λ g p. ground (arith, i.pgroups g p, nil-times (s.pgroup pid) g nothing);
    }

setpgid-IsLinked :
    (s : Sys) (cur id pgid : ℕ) (r : Result ℕ) (u : Sys)
    → IsLinked s
    → IsSetpgid s cur id pgid r u
    → IsLinked u
setpgid-IsLinked s cur id pgid (err e) u i h = rw h i
setpgid-IsLinked s cur id pgid (ok n) u i h = h.1.changed.is_linked

setsid-IsLinked :
    (s : Sys) (g pid : ℕ) (r : Result ℕ) (u : Sys) → IsLinked s → IsSetsid s g pid r u → IsLinked u
setsid-IsLinked s g pid (err e) u i h = rw h i
setsid-IsLinked s g pid (ok n) u i h = h.1.is_linked

copied-IsLinked :
    (s : Sys) (old g leader : ℕ) (u : Sys)
    → IsLinked s
    → (s.groups g).session ≡ none
    → (s.groups g).pgroup ≡ none
    → tgroup_copy old g leader (s.groups old).session (s.groups old).pgroup s ≡ some u
    → IsLinked u
unfolding tgroup_copy
copied-IsLinked s old g leader u i c d h = elim (Option-cases (s.groups old).session) [
  | inl e ↦ let k = rw e at h in absurd cc
  | inr (p, e) ↦ elim (Option-cases (s.groups old).pgroup) [
    | inl f ↦ let k = rw (e, f) at h in absurd cc
    | inr (q, f) ↦ tgroup_copy-IsLinked old g leader p q s u i e f c d (rw (e, f) at h)
  ]
]

removed-IsLinked :
    (s : Sys) (g : ℕ) (u : Sys)
    → IsLinked s
    → remove_pgroup g (s.groups g).pgroup s ≡ some u
    → IsLinked u
unfolding remove_pgroup leave_pgroup
removed-IsLinked s g u i h = elim (Option-cases (s.groups g).pgroup) [
  | inl e ↦ let k = rw e at h in absurd cc
  | inr (p, e) ↦
      let left : IsLinked (leave_pgroup g (some p) s) = rw e at (leave_pgroup-IsLinked g s i) in
      let same : leave_pgroup g (some p) s ≡ u = some_injective (rw e at h) in rw (sym same) left
]

-- Whatever tasks and groups are created, change their process groups, start sessions and leave them at their end: each list of the table of pids has
-- exactly the groups whose links are in it, each once.
pub Reaches-IsLinked : (s u : Sys) → IsLinked s → Reaches s u → IsLinked u
Reaches-IsLinked s _ i start = i
Reaches-IsLinked s _ i (created u parent pid e r) =
    task_create-IsLinked u parent pid e (Reaches-IsLinked s u i r)
Reaches-IsLinked s v i (setpgid u w cur id pgid q e r) =
    let k = Reaches-IsLinked s u i r in
    setpgid-IsLinked u cur (chosen id cur) (chosen pgid (chosen id cur)) q w k
      (sys_setpgid-IsSetpgid u cur id pgid q w k e)
Reaches-IsLinked s v i (setsid u w g pid q e r) =
    let k = Reaches-IsLinked s u i r in
    setsid-IsLinked u g pid q w k (task_setsid-IsSetsid u g pid q w k e)
Reaches-IsLinked s v i (copied u w old g leader c d e r) =
    copied-IsLinked u old g leader w (Reaches-IsLinked s u i r) c d e
Reaches-IsLinked s x i (left u v w g e f r) =
    removed-IsLinked v g w (task_leave_session-HasLeft u g v (Reaches-IsLinked s u i r) e).is_linked
      f
