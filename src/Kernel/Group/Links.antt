-- ===== src/Kernel/Group/Links.antt =====
-- The lists of process groups and of sessions in kernel/group.c: the links of a group tell the list that it is in.
use codex_for_ipad.Prelude.{
  List, [], ◌∷◌, ◌+◌, ◌<◌, sym, Bool-cases, ℕ, ◌≡◌, refl, Option, none, some, Option-cases, inl,
  inr, ◌≢◌, arith, ◌==◌, if◌then◌else◌,
}
use codex_for_ipad.Kernel.Futex.Counts.{times, times-remove}
use codex_for_ipad.Prelude.Errno.{Result}
use codex_for_ipad.Kernel.Memory.{update}
use codex_for_ipad.Kernel.Group.{
  returns, Sys, leave_pgroup, leave_session, enter_pgroup, enter_session,
}
use codex_for_ipad.Kernel.Group.Sessions.{insert_behind, hold_tty, tgroup_copy}

-- 1 for the list that a link is in.
abbrev pub linked : Option ℕ → ℕ → ℕ
linked none p = 0
linked (some q) p = if q == p then 1 else 0

-- Each list has exactly the groups, each once, whose links are in it.
pub record IsLinked (s : Sys) : Type 0 where
  pub sessions : (g p : ℕ) → times g (s.session p) ≡ linked (s.groups g).session p
  pub pgroups : (g p : ℕ) → times g (s.pgroup p) ≡ linked (s.groups g).pgroup p

linked-one : (o : Option ℕ) (p q : ℕ) → o ≡ some p → linked o q ≡ (if p == q then 1 else 0)
linked-one o p q e = rw e refl

pub leave_pgroup-IsLinked :
    (g : ℕ) (s : Sys) → IsLinked s → IsLinked (leave_pgroup g (s.groups g).pgroup s)
unfolding leave_pgroup
leave_pgroup-IsLinked g s i = elim (Option-cases (s.groups g).pgroup) [
  | inl e ↦ rw e i
  | inr (p, e) ↦ rw e (record {
    sessions = λ h q. ground (arith, i.sessions h q, i.sessions g q);
    pgroups = λ h q.
        let one = linked-one (s.groups g).pgroup p q e in
        ground (arith, i.pgroups h q, i.pgroups g q, one, times-remove g h (s.pgroup p));
  })
]

pub leave_session-IsLinked :
    (g : ℕ) (s : Sys) → IsLinked s → IsLinked (leave_session g (s.groups g).session s)
unfolding leave_session
leave_session-IsLinked g s i = elim (Option-cases (s.groups g).session) [
  | inl e ↦ rw e i
  | inr (p, e) ↦ rw e (record {
    sessions = λ h q.
        let one = linked-one (s.groups g).session p q e in
        ground (arith, i.sessions h q, i.sessions g q, one, times-remove g h (s.session p));
    pgroups = λ h q. ground (arith, i.pgroups h q, i.pgroups g q);
  })
]

pub enter_pgroup-IsLinked :
    (g p pgid : ℕ) (s : Sys)
    → (s.groups g).pgroup ≡ none
    → IsLinked s
    → IsLinked (enter_pgroup g p pgid s)
unfolding enter_pgroup
enter_pgroup-IsLinked g p pgid s e i =
    let free : (q : ℕ) → times g (s.pgroup q) ≡ 0 = λ q. let k = i.pgroups g q in rw e at k in
    record {
      sessions = λ h q. ground (arith, i.sessions h q, i.sessions g q);
      pgroups = λ h q. ground (arith, i.pgroups h q, free q);
    }

pub enter_session-IsLinked :
    (g p sid : ℕ) (s : Sys)
    → (s.groups g).session ≡ none
    → IsLinked s
    → IsLinked (enter_session g p sid s)
unfolding enter_session
enter_session-IsLinked g p sid s e i =
    let free : (q : ℕ) → times g (s.session q) ≡ 0 = λ q. let k = i.sessions g q in rw e at k in
    record {
      sessions = λ h q. ground (arith, i.sessions h q, free q);
      pgroups = λ h q. ground (arith, i.pgroups h q, i.pgroups g q);
    }

-- A group whose links are null is in no list.
pub leave_pgroup-none :
    (g : ℕ) (s : Sys) → ((leave_pgroup g (s.groups g).pgroup s).groups g).pgroup ≡ none
unfolding leave_pgroup
leave_pgroup-none g s = elim (Option-cases (s.groups g).pgroup) [
  | inl e ↦ rw e e
  | inr (p, e) ↦ rw e (ground arith)
]

pub leave_session-none :
    (g : ℕ) (s : Sys) → ((leave_session g (s.groups g).session s).groups g).session ≡ none
unfolding leave_session
leave_session-none g s = elim (Option-cases (s.groups g).session) [
  | inl e ↦ rw e e
  | inr (p, e) ↦ rw e (ground arith)
]

-- Leaving a list changes nothing but the link.
pub record IsSame (s : Sys) (g : ℕ) (u : Sys) : Type 0 where
  pub leader : (u.groups g).leader ≡ (s.groups g).leader
  pub sid : (u.groups g).sid ≡ (s.groups g).sid
  pub pgid : (u.groups g).pgid ≡ (s.groups g).pgid
  pub tty : (u.groups g).tty ≡ (s.groups g).tty
  pub ttys : u.ttys ≡ s.ttys
  pub others : (h : ℕ) → h ≢ g → u.groups h ≡ s.groups h

IsSame-refl : (s : Sys) (g : ℕ) → IsSame s g s
IsSame-refl s g = record {
  leader = refl;
  sid = refl;
  pgid = refl;
  tty = refl;
  ttys = refl;
  others = λ h d. refl;
}

pub leave_pgroup-IsSame : (g : ℕ) (o : Option ℕ) (s : Sys) → IsSame s g (leave_pgroup g o s)
unfolding leave_pgroup
leave_pgroup-IsSame g none s = IsSame-refl s g
leave_pgroup-IsSame g (some p) s = record {
  leader = ground arith;
  sid = ground arith;
  pgid = ground arith;
  tty = ground arith;
  ttys = refl;
  others = λ h d. ground arith;
}

pub leave_session-IsSame : (g : ℕ) (o : Option ℕ) (s : Sys) → IsSame s g (leave_session g o s)
unfolding leave_session
leave_session-IsSame g none s = IsSame-refl s g
leave_session-IsSame g (some p) s = record {
  leader = ground arith;
  sid = ground arith;
  pgid = ground arith;
  tty = ground arith;
  ttys = refl;
  others = λ h d. ground arith;
}

pub leave_pgroup-session :
    (g : ℕ) (o : Option ℕ) (s : Sys)
    → ((leave_pgroup g o s).groups g).session ≡ (s.groups g).session
unfolding leave_pgroup
leave_pgroup-session g none s = refl
leave_pgroup-session g (some p) s = ground arith

-- A call returns one result and one state.
pub returned : (r q : Result ℕ) (s u : Sys) → returns r s ≡ returns q u → (r ≡ q) × (s ≡ u)
returned r q s u h = (cc, cc)

times-insert_behind :
    (old g x : ℕ) (xs : List ℕ)
    → 0 < times old xs
    → times x (insert_behind old g xs) ≡ times x xs + (if g == x then 1 else 0)
unfolding insert_behind
times-insert_behind old g x [] h = absurd (omega arith)
times-insert_behind old g x (y ∷ ys) h = elim (Bool-cases (y == old)) [
  | inl e ↦ rw e (ground arith)
  | inr e ↦ rw e (ground (arith, times-insert_behind old g x ys (ground (arith, h, e))))
]

hold_tty-IsLinked : (o : Option ℕ) (s : Sys) → IsLinked s → IsLinked (hold_tty o s)
hold_tty-IsLinked none s i = i
hold_tty-IsLinked (some y) s i = record { sessions = i.sessions; pgroups = i.pgroups }

-- A new group comes into the lists of the one that it is copied from.
pub tgroup_copy-IsLinked :
    (old g leader p q : ℕ) (s u : Sys)
    → IsLinked s
    → (s.groups old).session ≡ some p
    → (s.groups old).pgroup ≡ some q
    → (s.groups g).session ≡ none
    → (s.groups g).pgroup ≡ none
    → tgroup_copy old g leader (some p) (some q) s ≡ some u
    → IsLinked u
unfolding tgroup_copy
tgroup_copy-IsLinked old g leader p q s u i a b c d h =
    let k : hold_tty (s.groups old).tty (record s {
      session = update s.session p (insert_behind old g (s.session p));
      pgroup = update s.pgroup q (insert_behind old g (s.pgroup q));
      groups = update s.groups g (record (s.groups old) { leader = leader });
    })
        ≡ u =
      cc in
    let first : times old (s.session p) ≡ 1 =
      ground (arith, i.sessions old p, linked-one (s.groups old).session p p a) in
    let second : times old (s.pgroup q) ≡ 1 =
      ground (arith, i.pgroups old q, linked-one (s.groups old).pgroup q q b) in
    let away : (z : ℕ) → times g (s.session z) ≡ 0 = λ z. let w = i.sessions g z in rw c at w in
    let apart : (z : ℕ) → times g (s.pgroup z) ≡ 0 = λ z. let w = i.pgroups g z in rw d at w in
    rw (sym k) (
      hold_tty-IsLinked (s.groups old).tty _ (record {
        sessions = λ h z.
            let more = times-insert_behind old g h (s.session p) (omega (arith, first)) in
            let one = linked-one (s.groups old).session p z a in
            ground (arith, i.sessions h z, more, one, away z);
        pgroups = λ h z.
            let more = times-insert_behind old g h (s.pgroup q) (omega (arith, second)) in
            let one = linked-one (s.groups old).pgroup q z b in
            ground (arith, i.pgroups h z, more, one, apart z);
      }))

pub some_injective : {A : Type 0} {x y : A} → some x ≡ some y → x ≡ y
some_injective h = cc
