-- ===== src/Fs/Fd/Install.antt =====
-- Installing a file in a table of fs/fd.c: the slot that it gets, and the slots of the others.
use mathlib.Core.Path.{subst}
use codex_for_ipad.Prelude.{
  ℕ, zero, suc, ◌+◌, ◌-◌, ◌%◌, ◌^◌, ◌<◌, ◌≤◌, ◌≡◌, refl, sym, ◌∙◌, ◌≢◌, true, false, Option, none,
  some, List, [], ◌∷◌, arith, ◌==◌, ltb, leb, if◌then◌else◌, length, get_or, set, inl, inr,
  Bool-cases, length-set, ◌⊎◌, get_or-set, get_or-append_replicate, length-append_replicate, leb→le,
}
use codex_for_ipad.Prelude.Int.{ℤ, pos, pos_part, ltb_ℤ}
use codex_for_ipad.Fs.Fd.{
  Sys, Env, slot, fdtable_resize, fdtable_expand, find_slot, usable, put_slot, f_install_start,
  fd_close, f_install, apply_flags, o_cloexec,
}
use codex_for_ipad.Fs.Fd.Slots.{count, count-append_replicate, IsFirst, find_slot-IsFirst}

-- The table may have grown to hold slot `f`: new slots are empty, and nothing else has changed.
pub record Grown (f : ℕ) (s t : Sys) : Type 0 where
  pub slots : (j : ℕ) → slot t.files j ≡ slot s.files j
  pub bits : (j : ℕ) → get_or t.cloexec j false ≡ get_or s.cloexec j false
  pub counts : (fd : ℕ) → count fd t.files ≡ count fd s.files
  pub room : f < length t.files
  pub even : length t.cloexec ≡ length t.files
  pub limit : f < s.nofile
  pub fds : t.fds ≡ s.fds
  pub locks : t.locks ≡ s.locks
  pub freed : t.freed ≡ s.freed
  pub table : t.table ≡ s.table

abbrev pub IsEven : Sys → Type 0
IsEven s = length s.cloexec ≡ length s.files

-- `fdtable_expand` at a descriptor: enough room, or an error and no change.
abbrev pub Expands : ℕ → Sys → Sys × ℤ → Type 0
Expands f s r = ((r.1 ≡ pos 0) × Grown f s r.0) ⊎ ((r.0 ≡ s) × (ltb_ℤ r.1 (pos 0) ≡ true))

resize-Expands :
    (env : Env) (f : ℕ) (s : Sys)
    → IsEven s
    → length s.files ≤ f
    → f < s.nofile
    → Expands f s (fdtable_resize env (f + 1) s)
unfolding fdtable_resize
resize-Expands env f s e small within = elim (Bool-cases (env.allocates (f + 1))) [
  | inr refused ↦ rw refused (inr (refl, refl))
  | inl granted ↦ rw granted (
      inl (
        refl,
        record {
          slots = λ j. get_or-append_replicate s.files (f + 1 - length s.files) j none;
          bits = λ j. get_or-append_replicate s.cloexec (f + 1 - length s.cloexec) j false;
          counts = λ fd. count-append_replicate s.files (f + 1 - length s.files) fd;
          room = omega (arith, length-append_replicate s.files (f + 1 - length s.files) none);
          even = omega (
            arith,
            length-append_replicate s.files (f + 1 - length s.files) none,
            length-append_replicate s.cloexec (f + 1 - length s.cloexec) false,
          );
          limit = within;
          fds = refl;
          locks = refl;
          freed = refl;
          table = refl;
        },
      ))
]

pub expand-Expands :
    (env : Env) (f : ℕ) (s : Sys)
    → IsEven s
    → f < 2 ^ 31
    → Expands f s (fdtable_expand env (pos f) s)
unfolding fdtable_expand
expand-Expands env f s e small =
    let whole : (f + 1) % 2 ^ 32 ≡ f + 1 = omega arith in
    elim (Bool-cases (ltb s.nofile (f + 1))) [
      | inl over ↦ rw (whole, over) (inr (refl, refl))
      | inr under ↦ elim (Bool-cases (leb (f + 1) (length s.files))) [
        | inl fits ↦
            rw (whole, under, fits)
              (inl (
                refl,
                record {
                  slots = λ j. refl;
                  bits = λ j. refl;
                  counts = λ fd. refl;
                  room = ground arith;
                  even = e;
                  limit = ground arith;
                  fds = refl;
                  locks = refl;
                  freed = refl;
                  table = refl;
                },
              ))
        | inr short ↦
            rw (whole, under, short) (resize-Expands env f s e (ground arith) (ground arith))
      ]
    ]

pub slot-ge : (files : List (Option ℕ)) (f : ℕ) → length files ≤ f → slot files f ≡ none
slot-ge [] f h = refl
slot-ge (x ∷ files) zero h = absurd (omega arith)
slot-ge (x ∷ files) (suc f) h = slot-ge files f (omega arith)

-- Slot `f` got the file `fd`, and its close-on-exec bit is clear; no other slot has changed.
pub record Installed (start f fd : ℕ) (s t : Sys) : Type 0 where
  pub from : start ≤ f
  pub empty : slot s.files f ≡ none
  pub lowest : (g : ℕ) → start ≤ g → g < f → slot s.files g ≢ none
  pub slots : (j : ℕ) → slot t.files j ≡ (if j == f then some fd else slot s.files j)
  pub bits :
      (j : ℕ) → get_or t.cloexec j false ≡ (if j == f then false else get_or s.cloexec j false)
  pub limit : f < s.nofile

put-Installed :
    (start f fd : ℕ) (s t : Sys)
    → Grown f s t
    → start ≤ f
    → slot s.files f ≡ none
    → ((g : ℕ) → start ≤ g → g < f → slot s.files g ≢ none)
    → Installed start f fd s (put_slot f fd t)
unfolding put_slot
put-Installed start f fd s t g from empty lowest = record {
  from = from;
  empty = empty;
  lowest = lowest;
  slots = λ j. ground (arith, get_or-set t.files f j (some fd) none g.room, g.slots j);
  bits = λ j. ground (arith, get_or-set t.cloexec f j false false (rw g.even g.room), g.bits j);
  limit = g.limit;
}

-- A table that is large enough as it is.
Grown-self : (f : ℕ) (s : Sys) → IsEven s → f < length s.files → f < s.nofile → Grown f s s
Grown-self f s e room limit = record {
  slots = λ j. refl;
  bits = λ j. refl;
  counts = λ fd. refl;
  room = room;
  even = e;
  limit = limit;
  fds = refl;
  locks = refl;
  freed = refl;
  table = refl;
}

-- The branch of `f_install_start` behind the usable slots.
install_behind : Env → ℕ → ℕ → Sys → Sys × ℤ → Sys × ℤ
install_behind env fd f s (s', err) =
    if ltb_ℤ err (pos 0) then ((fd_close env fd s').0, err) else (put_slot f fd s', pos f)

install_cases :
    (env : Env) (fd start : ℕ) (s : Sys)
    → let f = find_slot (usable s - start) start s.files in
      f_install_start env fd start s ≡ (
        if leb (usable s) f
        then install_behind env fd f s (fdtable_expand env (pos f) s)
        else (put_slot f fd s, pos f))
unfolding f_install_start install_behind
install_cases env fd start s = refl

-- `f_install_start` takes the slot, or fails and gives the reference back.
abbrev pub Installs : Env → ℕ → ℕ → Sys → Sys × ℤ → Type 0
Installs env start fd s r =
    ((f : ℕ) × (t : Sys) × (r ≡ (put_slot f fd t, pos f))
      × Grown f s t
      × Installed start f fd s (put_slot f fd t))
    ⊎ ((r.0 ≡ (fd_close env fd s).0) × (ltb_ℤ r.1 (pos 0) ≡ true))

behind-Installs :
    (env : Env) (start f fd : ℕ) (s : Sys) (r : Sys × ℤ)
    → start ≤ f
    → ((g : ℕ) → start ≤ g → g < f → slot s.files g ≢ none)
    → (f < s.nofile → slot s.files f ≡ none)
    → Expands f s r
    → Installs env start fd s (install_behind env fd f s r)
unfolding install_behind
behind-Installs env start f fd s (t, err) from lowest empty (inl (e, g)) =
    rw e (inl (f, t, refl, g, put-Installed start f fd s t g from (empty g.limit) lowest))
behind-Installs env start f fd s (t, err) from lowest empty (inr (e, neg)) =
    rw (neg, e) (inr (refl, neg))

module _ (env : Env) (fd start : ℕ) (s : Sys) (even : IsEven s) (limit : s.nofile < 2 ^ 32)
    (small : start < 2 ^ 31) (size : length s.files < 2 ^ 31) where
  usable_facts :
      (usable s ≤ length s.files)
      × (usable s ≤ s.nofile)
      × ((f : ℕ) → usable s ≤ f → f < s.nofile → length s.files ≤ f)
  usable_facts = (ground arith, ground arith, λ f h k. ground arith)

  first : IsFirst (usable s - start) start s.files (find_slot (usable s - start) start s.files)
  first = find_slot-IsFirst (usable s - start) start s.files

  pub install_start-Installs : Installs env start fd s (f_install_start env fd start s)
  install_start-Installs =
      let f = find_slot (usable s - start) start s.files in
      elim (Bool-cases (leb (usable s) f)) [
        | inl behind ↦
            rw (install_cases env fd start s, behind)
              (behind-Installs env start f fd s _ first.from first.taken
                (λ h. slot-ge s.files f (usable_facts.2 f (leb→le _ _ behind) h))
                (expand-Expands env f s even (omega (arith, usable_facts.0, first.within))))
        | inr inside ↦
            rw (install_cases env fd start s, inside)
              (let inside' : f < usable s = ground (arith, inside) in
                let g =
                  Grown-self f s even (omega (arith, inside', usable_facts.0))
                    (omega (arith, inside', usable_facts.1)) in
                inl (
                  f,
                  s,
                  refl,
                  g,
                  put-Installed start f fd s s g first.from
                      (first.empty (omega (arith, inside', first.from))) first.taken,
                ))
      ]

-- Slot `f` was the lowest empty one, and has the file, with the close-on-exec bit that the flags
-- ask for; all other slots and bits are as before.
pub record Placed (flags f fd : ℕ) (s t : Sys) : Type 0 where
  pub empty : slot s.files f ≡ none
  pub lowest : (g : ℕ) → g < f → slot s.files g ≢ none
  pub slots : (j : ℕ) → slot t.files j ≡ (if j == f then some fd else slot s.files j)
  pub bits :
      (j : ℕ)
      → get_or t.cloexec j false ≡ (if j == f then o_cloexec flags else get_or s.cloexec j false)
  pub limit : f < s.nofile

apply-Placed :
    (flags f fd : ℕ) (s t : Sys)
    → Grown f s t
    → Installed 0 f fd s (put_slot f fd t)
    → Placed flags f fd s (apply_flags fd f flags (put_slot f fd t))
unfolding apply_flags put_slot
apply-Placed flags f fd s t g i = record {
  empty = i.empty;
  lowest = λ k h. i.lowest k (omega arith) h;
  slots = λ j. ground (arith, i.slots j);
  bits = λ j. ground (
    arith,
    i.bits j,
    get_or-set (set t.cloexec f false) f j true false
        (rw (length-set t.cloexec f false, g.even) g.room),
  );
  limit = i.limit;
}

f_install-start :
    (env : Env) (fd flags f : ℕ) (s u : Sys)
    → f_install_start env fd 0 s ≡ (u, pos f)
    → f_install env fd flags s ≡ (apply_flags fd f flags u, pos f)
unfolding f_install
f_install-start env fd flags f s u e = ground arith

install-inverse :
    (env : Env) (fd flags : ℕ) (s t : Sys) (f : ℕ)
    → Installs env 0 fd s (f_install_start env fd 0 s)
    → f_install env fd flags s ≡ (t, pos f)
    → Placed flags f fd s t
unfolding f_install
install-inverse env fd flags s t f (inl (f', t', e, g, i)) h =
    let same : (apply_flags fd f' flags (put_slot f' fd t'), pos f') ≡ (t, pos f) =
      sym (f_install-start env fd flags f' s (put_slot f' fd t') e) ∙ h in
    subst (λ (p : Sys × ℤ). Placed flags (pos_part p.1) fd s p.0) same
      (apply-Placed flags f' fd s t' g i)
install-inverse env fd flags s t f (inr (e, neg)) h = absurd (ground arith)

-- `f_install` follows the rule of POSIX: a file that is installed gets the lowest free descriptor,
-- below the limit of open files; its close-on-exec bit is as asked for, and no other descriptor
-- changes. The limit is taken to fit 32 bits, and the table to be shorter than 2 ^ 31.
pub f_install-lowest :
    (env : Env) (fd flags : ℕ) (s t : Sys) (f : ℕ)
    → IsEven s
    → s.nofile < 2 ^ 32
    → length s.files < 2 ^ 31
    → f_install env fd flags s ≡ (t, pos f)
    → Placed flags f fd s t
f_install-lowest env fd flags s t f even limit size h =
    install-inverse env fd flags s t f
      (install_start-Installs env fd 0 s even limit (omega arith) size) h
