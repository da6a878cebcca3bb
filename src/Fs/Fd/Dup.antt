-- ===== src/Fs/Fd/Dup.antt =====
-- `dup2` and `dup3` of fs/fd.c.
use codex_for_ipad.Prelude.{
  ℕ, ◌+◌, ◌^◌, ◌<◌, ◌≡◌, refl, true, false, none, some, arith, ◌==◌, if◌then◌else◌, length, get_or,
  inl, inr, ◌⊎◌, get_or-set,
}
use codex_for_ipad.Prelude.Int.{ℤ, pos, negsuc, ltb_ℤ}
use codex_for_ipad.Fs.Fd.{
  Sys, Env, Ret, ret, fault, slot, fd_retain, fdtable_expand, fdtable_close, sys_close, sys_dup3,
  replace_slot, store_slot, fdtable_get, o_cloexec,
}
use codex_for_ipad.Fs.Fd.Slots.{count-set}
use codex_for_ipad.Fs.Fd.Install.{Grown, IsEven, Expands, expand-Expands}
use codex_for_ipad.Fs.Fd.Refs.{one, Counted, IsTable, Grown-Counted, retain-Counted, close-Counted}
use codex_for_ipad.Fs.Fd.Calls.{close-slots, close-IsEven, close-room}

-- `n` now names the file `fd`; every other descriptor is as before, and the references are counted.
pub record Duplicated (extra : ℕ → ℕ) (flags n fd : ℕ) (s t : Sys) : Type 0 where
  pub slots : (j : ℕ) → slot t.files j ≡ (if j == n then some fd else slot s.files j)
  pub marked : o_cloexec flags ≡ true → get_or t.cloexec n false ≡ true
  pub counted : Counted extra t
  pub limit : n < s.nofile

store-Counted :
    (extra : ℕ → ℕ) (flags n fd : ℕ) (s : Sys)
    → n < length s.files
    → slot s.files n ≡ none
    → Counted (λ i. extra i + one fd i) s
    → Counted extra (store_slot n fd flags s)
unfolding store_slot
store-Counted extra flags n fd s h e c i = ground (arith, c i, count-set s.files n i (some fd) h)

store-slots :
    (flags n fd : ℕ) (s : Sys) (j : ℕ)
    → n < length s.files
    → slot (store_slot n fd flags s).files j ≡ (if j == n then some fd else slot s.files j)
unfolding store_slot
store-slots flags n fd s j h = get_or-set s.files n j (some fd) none h

store-marked :
    (flags n fd : ℕ) (s : Sys)
    → n < length s.cloexec
    → o_cloexec flags ≡ true
    → get_or (store_slot n fd flags s).cloexec n false ≡ true
unfolding store_slot
store-marked flags n fd s h e = ground (arith, get_or-set s.cloexec n n true false h)

retained :
    (fd : ℕ) (s : Sys) → ((fd_retain fd s).files ≡ s.files) × ((fd_retain fd s).cloexec ≡ s.cloexec)
unfolding fd_retain
retained fd s = (refl, refl)

module _ (env : Env) (extra : ℕ → ℕ) (flags n fd : ℕ) (s t : Sys) (g : Grown n s t)
    (c : Counted extra s) where
  replaced : Sys
  unfolding fd_retain
  replaced = (fdtable_close env n (fd_retain fd t)).0

  replaced-room : (n < length replaced.files) × IsEven replaced
  unfolding replaced
  replaced-room =
      (rw (close-room env n (fd_retain fd t)) g.room, close-IsEven env n (fd_retain fd t) g.even)

  replaced-slots : (j : ℕ) → slot replaced.files j ≡ (if j == n then none else slot s.files j)
  unfolding replaced
  replaced-slots j = ground (arith, close-slots env n (fd_retain fd t) j, g.slots j)

  replaced-Counted : Counted (λ i. extra i + one fd i) replaced
  unfolding replaced
  replaced-Counted =
      close-Counted env (λ i. extra i + one fd i) n (fd_retain fd t)
        (retain-Counted extra fd t (Grown-Counted extra n s t g c))

  stored-Duplicated : Duplicated extra flags n fd s (store_slot n fd flags replaced)
  stored-Duplicated = record {
    slots =
        λ j. ground (arith, store-slots flags n fd replaced j replaced-room.0, replaced-slots j);
    marked = store-marked flags n fd replaced (rw replaced-room.1 replaced-room.0);
    counted =
        store-Counted extra flags n fd replaced replaced-room.0 (ground (arith, replaced-slots n))
          replaced-Counted;
    limit = g.limit;
  }

Dups : (ℕ → ℕ) → ℕ → ℕ → ℕ → Sys → Ret → Type 0
Dups extra flags n fd s r =
    ((t : Sys) × (r ≡ ret t (pos n)) × Duplicated extra flags n fd s t)
    ⊎ ((e : ℤ) × (r ≡ ret s e) × (ltb_ℤ e (pos 0) ≡ true))

finish_dup3 : Env → ℕ → ℤ → ℕ → Sys × ℤ → Ret
finish_dup3 env fd new_f flags (t, err) =
    if ltb_ℤ err (pos 0) then ret t err else replace_slot env fd new_f flags t

dup3-finish :
    (env : Env) (f new_f : ℤ) (fd flags : ℕ) (s : Sys)
    → fdtable_get s f ≡ some fd
    → sys_dup3 env f new_f flags s ≡ finish_dup3 env fd new_f flags (fdtable_expand env new_f s)
unfolding sys_dup3 finish_dup3
dup3-finish env f new_f fd flags s e = ground arith

finish-Dups :
    (env : Env) (extra : ℕ → ℕ) (n fd flags : ℕ) (s : Sys) (r : Sys × ℤ)
    → Counted extra s
    → Expands n s r
    → Dups extra flags n fd s (finish_dup3 env fd (pos n) flags r)
unfolding Dups finish_dup3 replace_slot sys_close replaced
finish-Dups env extra n fd flags s (t, err) c (inl (e, g)) =
    rw e (inl (_, refl, stored-Duplicated env extra flags n fd s t g c))
finish-Dups env extra n fd flags s (t, err) c (inr (e, neg)) = rw (neg, e) (inr (err, refl, neg))

-- `dup3` of an open descriptor to a descriptor that is not negative: it succeeds, and then the new
-- descriptor names the same file, marked if O_CLOEXEC is given, all other descriptors are as
-- before and every reference count stays exact; or it fails with an error and changes nothing.
pub dup3-Duplicated :
    (env : Env) (extra : ℕ → ℕ) (f : ℤ) (n fd flags : ℕ) (s : Sys)
    → IsTable extra s
    → n < 2 ^ 31
    → fdtable_get s f ≡ some fd
    → ((t : Sys) × (sys_dup3 env f (pos n) flags s ≡ ret t (pos n))
        × Duplicated extra flags n fd s t)
      ⊎ ((e : ℤ) × (sys_dup3 env f (pos n) flags s ≡ ret s e) × (ltb_ℤ e (pos 0) ≡ true))
unfolding Dups
dup3-Duplicated env extra f n fd flags s v small e =
    rw (dup3-finish env f (pos n) fd flags s e)
      (finish-Dups env extra n fd flags s _ v.counted (expand-Expands env n s v.even small))

-- A bug: `dup3` of an open descriptor to -1 passes every check, because `max + 1` is then 0, and
-- writes in front of the table.
pub dup3_minus_one :
    (env : Env) (f : ℤ) (fd flags : ℕ) (s : Sys)
    → fdtable_get s f ≡ some fd
    → sys_dup3 env f (negsuc 0) flags s ≡ fault
unfolding finish_dup3 fdtable_expand replace_slot
dup3_minus_one env f fd flags s e = rw (dup3-finish env f (negsuc 0) fd flags s e) (ground arith)
