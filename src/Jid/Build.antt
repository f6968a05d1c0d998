-- ===== src/Jid/Build.antt =====
-- Taking apart a JabberID that was put together from valid parts, and what get_host makes of a
-- resource that holds an `@`. The code is src/jabberoo-JID.cc.
use jabberoo.Base.{
  Str, true, false, ℕ, ◌+◌, ◌-◌, ◌%◌, ◌<◌, ◌≤◌, some, ◌∷◌, ◌++◌, ◌≡◌, refl, arith, length,
  find_char, size_mod, empty, length-append, take-length-append,
}
use mathlib.Core.List.{append_assoc}
use jabberoo.Jid.{get_resource, get_user_host, get_host, get_user, is_valid_user, is_valid_host}
use jabberoo.Jid.Parts.{
  Lacks, find_char-append, find_char-append-Lacks, find_char-cons_ne, get_user_host-append,
  drop_past, substr_past,
}

-- `user@host/resource`.
abbrev pub full_jid : Str → Str → Str → Str
full_jid user host resource = user ++ b'@' ∷ host ++ b'/' ∷ resource

-- A valid user name is not empty and holds no character that ends it.
is_valid_user-Lacks :
    (user : Str)
    → is_valid_user user ≡ true
    → Lacks b'@' user × Lacks b'/' user × (empty user ≡ false)
unfolding is_valid_user
is_valid_user-Lacks user h = ground arith

is_valid_host-Lacks :
    (host : Str)
    → is_valid_host host ≡ true
    → Lacks b'@' host × Lacks b'/' host × (empty host ≡ false)
unfolding is_valid_host
is_valid_host-Lacks host h = ground arith

get_user-append : (user rest : Str) → Lacks b'@' user → get_user (user ++ b'@' ∷ rest) ≡ user
unfolding get_user
get_user-append user rest h =
    rw (find_char-append b'@' user rest h, get_user) (take-length-append user (b'@' ∷ rest))

get_host-append :
    (user host res : Str)
    → Lacks b'@' user
    → find_char b'/' (user ++ b'@' ∷ (host ++ b'/' ∷ res)) ≡ some (length (user ++ b'@' ∷ host))
    → length host < size_mod
    → get_host (user ++ b'@' ∷ (host ++ b'/' ∷ res)) ≡ host
unfolding get_host
get_host-append user host res h slash bound =
    let rest : Str = host ++ b'/' ∷ res in
    let d2 : ℕ = length (user ++ b'@' ∷ host) in
    let n : (d2 + size_mod + size_mod - length user - 1) % size_mod ≡ length host =
      omega (arith, length-append user (b'@' ∷ host)) in
    rw (find_char-append b'@' user rest h, slash, get_host, drop_past b'@' user rest, n)
      (take-length-append host (b'/' ∷ res))

-- A JabberID put together from a valid user name, a valid host and any resource gives back each
-- of the three, and its user@host, if the host is shorter than 2 ^ 64.
pub parts-full_jid :
    (user host resource : Str)
    → is_valid_user user ≡ true
    → is_valid_host host ≡ true
    → length host < size_mod
    → (get_user (full_jid user host resource) ≡ user)
      × (get_host (full_jid user host resource) ≡ host)
      × (get_resource (full_jid user host resource) ≡ resource)
      × (get_user_host (full_jid user host resource) ≡ user ++ b'@' ∷ host)
parts-full_jid user host resource hu hh bound =
    let (user_at, user_slash, _) = is_valid_user-Lacks user hu in
    let (host_at, host_slash, _) = is_valid_host-Lacks host hh in
    let uh_slash =
      find_char-append-Lacks b'/' user (b'@' ∷ host) user_slash
        (find_char-cons_ne b'/' b'@' host refl host_slash) in
    let (uh, res) = get_user_host-append (user ++ b'@' ∷ host) resource uh_slash in
    let slash = find_char-append b'/' (user ++ b'@' ∷ host) resource uh_slash in
    let regroup = append_assoc user (b'@' ∷ host) (b'/' ∷ resource) in
    (
      rw regroup (get_user-append user (host ++ b'/' ∷ resource) user_at),
      rw regroup (get_host-append user host resource user_at (rw regroup at slash) bound),
      res,
      uh,
    )

-- For a JabberID of a host, without a user, and a resource that holds an `@`, shorter in all
-- than 2 ^ 64 behind the slash: getHost returns what follows that `@`, not the host, since the
-- length d2 - d1 - 1 wraps.
pub get_host_misses :
    (host before after : Str)
    → Lacks b'@' host
    → Lacks b'/' host
    → Lacks b'@' before
    → length before + 2 + length after ≤ size_mod
    → get_host (host ++ b'/' ∷ before ++ b'@' ∷ after) ≡ after
unfolding get_host
get_host_misses host before after h1 h2 h3 bound =
    let front : Str = host ++ b'/' ∷ before in
    let front_at : Lacks b'@' front =
      find_char-append-Lacks b'@' host (b'/' ∷ before) h1
        (find_char-cons_ne b'@' b'/' before refl h3) in
    let slash = find_char-append b'/' host (before ++ b'@' ∷ after) h2 in
    let regroup = append_assoc host (b'/' ∷ before) (b'@' ∷ after) in
    rw (find_char-append b'@' front after front_at, rw (← regroup) at slash, get_host)
      (substr_past b'@' front after _ (omega (arith, length-append host (b'/' ∷ before))))
