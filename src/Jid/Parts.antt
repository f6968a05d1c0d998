-- ===== src/Jid/Parts.antt =====
-- What the parts of a JabberID are, for the code of src/jabberoo-JID.cc.
use jabberoo.Base.{
  Str, true, false, ℕ, ◌+◌, ◌≤◌, none, some, [], ◌∷◌, ◌++◌, ◌≡◌, refl, ap, sym, arith, length, drop,
  nat_eq, find_char, substr, if◌then◌else◌, Bool-cases, Option-cases, inl, inr, ◌⊎◌,
  take-length-append, take_of_length-le, length-append,
}
use native.Mathlib.Numerals.{add-one}
use jabberoo.Jid.{found, get_resource, get_user_host}

-- The character does not stand in the text.
abbrev pub Lacks : ℕ → Str → Type 0
Lacks c s = find_char c s ≡ none

-- A search succeeds exactly at the end of a part that lacks the character.
pub find_char-append :
    (c : ℕ) (xs ys : Str) → Lacks c xs → find_char c (xs ++ c ∷ ys) ≡ some (length xs)
unfolding find_char
find_char-append c [] ys h = ground arith
find_char-append c (x ∷ xs) ys h = ground (arith, find_char-append c xs ys)

pub find_char-append-Lacks : (c : ℕ) (xs ys : Str) → Lacks c xs → Lacks c ys → Lacks c (xs ++ ys)
unfolding find_char
find_char-append-Lacks c [] ys h k = k
find_char-append-Lacks c (x ∷ xs) ys h k = ground (arith, find_char-append-Lacks c xs ys)

pub find_char-cons_ne : (c x : ℕ) (xs : Str) → nat_eq x c ≡ false → Lacks c xs → Lacks c (x ∷ xs)
unfolding find_char
find_char-cons_ne c x xs h k = ground arith

-- The split of a text at the place that the search found.
pub find_char-split :
    (c : ℕ) (s : Str) (i : ℕ)
    → find_char c s ≡ some i
    → (pre : Str) × (post : Str) × (s ≡ pre ++ c ∷ post) × (length pre ≡ i) × Lacks c pre
unfolding find_char
find_char-split c [] i h = cc
find_char-split c (x ∷ xs) i h = elim (Bool-cases (nat_eq x c)) [
  | inl e ↦ ([], xs, ground arith, ground arith, refl)
  | inr e ↦ elim (Option-cases (find_char c xs)) [
    | inl none_left ↦ absurd (ground arith)
    | inr (j, at) ↦
        let (pre, post, split, len, lacks) = find_char-split c xs j at in
        (x ∷ pre, post, ap (◌∷◌ x) split, ground arith, find_char-cons_ne c x pre e lacks)
  ]
]

pub drop_past : (c : ℕ) (xs ys : Str) → drop (length xs + 1) (xs ++ c ∷ ys) ≡ ys
drop_past c [] ys = refl
drop_past c (x ∷ xs) ys = rw add-one (rw add-one at (drop_past c xs ys))

pub substr_past :
    (c : ℕ) (xs ys : Str) (n : ℕ) → length ys ≤ n → substr (length xs + 1) n (xs ++ c ∷ ys) ≡ ys
substr_past c xs ys n h = rw (drop_past c xs ys) (take_of_length-le n ys h)

-- The first slash ends user@host, and what follows it is the resource.
pub get_user_host-append :
    (uh res : Str)
    → Lacks b'/' uh
    → (get_user_host (uh ++ b'/' ∷ res) ≡ uh) × (get_resource (uh ++ b'/' ∷ res) ≡ res)
unfolding get_user_host get_resource
get_user_host-append uh res h =
    rw (find_char-append b'/' uh res h, get_user_host, get_resource)
      (
        take-length-append uh (b'/' ∷ res),
        substr_past b'/' uh res _ (omega (arith, length-append uh (b'/' ∷ res))),
      )

pub get_user_host-Lacks :
    (jid : Str) → Lacks b'/' jid → (get_user_host jid ≡ jid) × (get_resource jid ≡ [])
unfolding get_user_host get_resource
get_user_host-Lacks jid h = ground arith

-- A JabberID is its user@host, then, where it has a slash, a slash and its resource; no slash
-- stands in the user@host, and a JabberID without a slash has an empty resource.
pub join-parts :
    (jid : Str)
    → (jid ≡ (
        if found (find_char b'/' jid)
        then get_user_host jid ++ b'/' ∷ get_resource jid
        else get_user_host jid))
      × Lacks b'/' (get_user_host jid)
      × ((found (find_char b'/' jid) ≡ true) ⊎ (get_resource jid ≡ []))
join-parts jid = elim (Option-cases (find_char b'/' jid)) [
  | inl e ↦ let (uh, res) = get_user_host-Lacks jid e in (rw e (sym uh), rw uh e, inr res)
  | inr (i, e) ↦
      let (pre, post, split, len, lacks) = find_char-split b'/' jid i e in
      let (uh, res) = get_user_host-append pre post lacks in
      let uh' : get_user_host jid ≡ pre = rw split uh in
      let res' : get_resource jid ≡ post = rw split res in
      (rw (e, uh', res') split, rw uh' lacks, inl (rw e))
]
