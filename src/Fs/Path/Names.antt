-- ===== src/Fs/Path/Names.antt =====
-- Paths of fs/path.c by their components.
use codex_for_ipad.Prelude.{
  ℕ, ◌≡◌, refl, sym, ◌∙◌, ap, Bool, true, false, ◌||◌, List, [], ◌∷◌, ◌++◌, arith,
}
use codex_for_ipad.Fs.Path.{
  slash, is_empty, is_single_dot, is_double_dot, has_slash, cut_last, inside, path_is_normalized,
}

-- A name in a directory: it is not empty, has no slash, and is neither `.` nor `..`.
pub record IsName (c : List ℕ) : Type 0 where
  pub filled : is_empty c ≡ false
  pub plain : has_slash c ≡ false
  pub single : is_single_dot c ≡ false
  pub double : is_double_dot c ≡ false

-- The path of some components, each behind a slash.
abbrev pub join : List (List ℕ) → List ℕ
join [] = []
join (c ∷ cs) = slash ∷ c ++ join cs

pub data AreNames : List (List ℕ) → Type 0 where
  no_names : AreNames []
  names : {c : List ℕ} {cs : List (List ℕ)} → IsName c → AreNames cs → AreNames (c ∷ cs)

-- A path from the root whose components are names.
pub record IsPath (p : List ℕ) : Type 0 where
  pub parts : List (List ℕ)
  pub joined : p ≡ join parts
  pub named : AreNames parts

has_slash-append : (p q : List ℕ) → has_slash (p ++ q) ≡ (has_slash p || has_slash q)
unfolding has_slash
has_slash-append [] q = refl
has_slash-append (c ∷ p) q = ground (arith, has_slash-append p q)

cut_last-append : (p q : List ℕ) → has_slash q ≡ true → cut_last (p ++ q) ≡ p ++ cut_last q
unfolding cut_last
cut_last-append [] q h = refl
cut_last-append (c ∷ p) q h =
    let more : has_slash (p ++ q) ≡ true = ground (arith, has_slash-append p q, h) in
    rw (more, cut_last-append p q h) refl

append_none : (p : List ℕ) → p ++ [] ≡ p
append_none [] = refl
append_none (c ∷ p) = ap (◌∷◌ c) (append_none p)

append_assoc : (p q r : List ℕ) → (p ++ q) ++ r ≡ p ++ (q ++ r)
append_assoc [] q r = refl
append_assoc (c ∷ p) q r = ap (◌∷◌ c) (append_assoc p q r)

-- All components but the last.
abbrev pub init : List (List ℕ) → List (List ℕ)
init [] = []
init (c ∷ []) = []
init (c ∷ d ∷ cs) = c ∷ init (d ∷ cs)

pub cut_last-join : (cs : List (List ℕ)) → AreNames cs → cut_last (join cs) ≡ join (init cs)
unfolding cut_last has_slash
cut_last-join [] v = refl
cut_last-join (c ∷ []) (names n v) =
    let out : has_slash (c ++ []) ≡ false = rw (append_none c) n.plain in rw out refl
cut_last-join (c ∷ d ∷ cs) (names n v) =
    let more : has_slash (join (d ∷ cs)) ≡ true = refl in
    let all : has_slash (c ++ join (d ∷ cs)) ≡ true =
      ground (arith, has_slash-append c (join (d ∷ cs)), more) in
    rw all (
      ap (◌∷◌ slash)
        (cut_last-append c (join (d ∷ cs)) more ∙ ap (◌++◌ c) (cut_last-join (d ∷ cs) v)))

pub init-AreNames : (cs : List (List ℕ)) → AreNames cs → AreNames (init cs)
init-AreNames [] v = no_names
init-AreNames (c ∷ []) v = no_names
init-AreNames (c ∷ d ∷ cs) (names n v) = names n (init-AreNames (d ∷ cs) v)

-- `..` leaves a path.
pub cut_last-IsPath : (p : List ℕ) → IsPath p → IsPath (cut_last p)
cut_last-IsPath p v = record {
  parts = init v.parts;
  joined = ap cut_last v.joined ∙ cut_last-join v.parts v.named;
  named = init-AreNames v.parts v.named;
}

pub join-append : (cs : List (List ℕ)) (c : List ℕ) → join (cs ++ c ∷ []) ≡ join cs ++ slash ∷ c
join-append [] c = ap (◌∷◌ slash) (append_none c)
join-append (d ∷ cs) c =
    ap (◌∷◌ slash) (ap (◌++◌ d) (join-append cs c) ∙ sym (append_assoc d (join cs) (slash ∷ c)))

pub append-AreNames :
    (cs : List (List ℕ)) (c : List ℕ) → AreNames cs → IsName c → AreNames (cs ++ c ∷ [])
append-AreNames [] c v n = names n no_names
append-AreNames (d ∷ cs) c (names m v) n = names m (append-AreNames cs c v n)

pub add-IsPath : (p c : List ℕ) → IsPath p → IsName c → IsPath (p ++ slash ∷ c)
add-IsPath p c v n = record {
  parts = v.parts ++ c ∷ [];
  joined = ap (λ x. x ++ slash ∷ c) v.joined ∙ sym (join-append v.parts c);
  named = append-AreNames v.parts c v.named n;
}

pub root-IsPath : IsPath []
root-IsPath = record { parts = []; joined = refl; named = no_names }

inside-append :
    (c p : List ℕ) (fresh : Bool) → has_slash c ≡ false → inside false (c ++ p) ≡ inside false p
unfolding inside has_slash
inside-append [] p fresh h = refl
inside-append (x ∷ c) p fresh h = ground (arith, h, inside-append c p fresh)

inside-join : (cs : List (List ℕ)) → AreNames cs → inside false (join cs) ≡ true
unfolding inside has_slash
inside-join [] v = refl
inside-join ([] ∷ cs) (names n v) = absurd (let k = n.filled in cc)
inside-join ((x ∷ c) ∷ cs) (names n v) =
    let k = n.plain in ground (arith, k, inside-append c (join cs) true, inside-join cs v)

-- `path_is_normalized` accepts such paths.
pub IsPath-path_is_normalized : (p : List ℕ) → IsPath p → path_is_normalized p ≡ true
unfolding path_is_normalized inside
IsPath-path_is_normalized p v = rw v.joined (accepted v.parts v.named)
  where
    accepted : (cs : List (List ℕ)) → AreNames cs → path_is_normalized (join cs) ≡ true
    accepted [] n = refl
    accepted (c ∷ cs) n = inside-join (c ∷ cs) n
