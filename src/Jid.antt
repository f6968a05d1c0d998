-- ===== src/Jid.antt =====
-- src/jabberoo-JID.cc and include/JID.hh: the parts of a JabberID, the tests on its parts, and
-- the comparison that is blind to case in user@host and not in the resource.
-- `find("/")` is `find_char b'/'`; its `npos` is `none`. `size_t` wraps modulo 2 ^ 64.
pub mod Parts
pub mod Build
pub mod Order
use jabberoo.Base.{
  Str, Bool, true, false, List, ◌∷◌, ◌||◌, ℕ, suc, ◌+◌, ◌-◌, ◌%◌, Option, none, some, [], Ordering,
  length, find_char, substr, size_mod, empty, strcasecmp, str_compare, is_lt, if◌then◌else◌,
}

-- Whether the search found the character.
abbrev pub found : Option ℕ → Bool
found none = false
found (some i) = true

unfoldable pub get_resource : Str → Str
unfolding find_char
get_resource jid = elim (find_char b'/' jid) [
  | some i ↦ substr (i + 1) (length jid - i) jid
  | none ↦ []
]

unfoldable pub get_user_host : Str → Str
unfolding find_char
get_user_host jid = elim (find_char b'/' jid) [ some i ↦ substr 0 i jid | none ↦ jid ]

-- The four branches on the two searches; d2 - d1 - 1 wraps if the slash stands first.
unfoldable pub host_between : Option ℕ → Option ℕ → Str → Str
host_between (some d1) (some d2) jid =
    substr (d1 + 1) ((d2 + size_mod + size_mod - d1 - 1) % size_mod) jid
host_between (some d1) none jid = substr (d1 + 1) (length jid) jid
host_between none (some d2) jid = substr 0 d2 jid
host_between none none jid = jid

unfoldable pub get_host : Str → Str
unfolding find_char host_between
get_host jid = host_between (find_char b'@' jid) (find_char b'/' jid) jid

unfoldable pub get_user : Str → Str
unfolding find_char
get_user jid = elim (find_char b'@' jid) [ some d1 ↦ substr 0 d1 jid | none ↦ jid ]

unfoldable pub is_valid_user : Str → Bool
unfolding find_char
is_valid_user user =
    if empty user
      || found (find_char b' ' user)
      || found (find_char b'@' user)
      || found (find_char b'/' user)
      || found (find_char 39 user)
      || found (find_char 34 user)
      || found (find_char b':' user)
    then false
    else true

unfoldable pub is_valid_host : Str → Bool
unfolding find_char
is_valid_host host =
    if empty host
      || found (find_char b' ' host)
      || found (find_char b'@' host)
      || found (find_char b'/' host)
      || found (find_char 39 host)
      || found (find_char 34 host)
    then false
    else true

-- The result on user@host, unless that is 0: then the result on the resource.
unfoldable pub userhost_first : Ordering → Ordering → Ordering
userhost_first Ordering.eq resource = resource
userhost_first Ordering.lt resource = Ordering.lt
userhost_first Ordering.gt resource = Ordering.gt

-- The sign of the result of `JID::compare`.
unfoldable pub compare : Str → Str → Ordering
unfolding userhost_first
compare ljid rjid =
    userhost_first (strcasecmp (get_user_host ljid) (get_user_host rjid))
      (str_compare (get_resource ljid) (get_resource rjid))

-- `JID::Compare`, the order of a map keyed by JabberIDs.
unfoldable pub less : Str → Str → Bool
unfolding compare
less lhs rhs = is_lt (compare lhs rhs)

-- The loop of JIDEqualsFunction::run over the elements of a query's context: those stay for which
-- the texts that the two arguments have are JabberIDs that compare as equal.
unfoldable pub keep_equal {ℓ} : {A : Type ℓ} → (A → Str) → (A → Str) → List A → List A
unfolding compare
keep_equal arg1 arg2 [] = []
keep_equal arg1 arg2 (e ∷ es) =
    let rest = keep_equal arg1 arg2 es in
    elim (compare (arg1 e) (arg2 e)) [
      | Ordering.eq ↦ e ∷ rest
      | Ordering.lt ↦ rest
      | Ordering.gt ↦ rest
    ]

unfoldable pub jid_equals {ℓ} : {A : Type ℓ} → (A → Str) → (A → Str) → List A → List A × Bool
unfolding keep_equal
jid_equals arg1 arg2 elems =
    let kept = keep_equal arg1 arg2 elems in (kept, elim kept [ [] ↦ false | e ∷ es ↦ true ])
