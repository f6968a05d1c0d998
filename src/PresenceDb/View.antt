-- ===== src/PresenceDb/View.antt =====
-- The presence database as a map from JIDs to presences. The code is src/jabberoo-presencedb.cc.
use jabberoo.Base.{
  Str, Bool, true, Option, none, some, List, [], ◌∷◌, ◌≡◌, refl, arith, find_if, erase_if,
  Bool-cases, Option-cases, inl, inr, if◌then◌else◌, sym, subst, ◌∙◌, ◌||◌, fold_case, ==_iff,
  find_char, All,
}
use mathlib.Core.Option.{some-injective}
use jabberoo.Base.Int.{leℤ, leℤ_refl}
use jabberoo.Base.Map.{lookup, assign, erase, same_key, lookup-assign, lookup-erase, lookup_congr}
use jabberoo.Jid.{get_user_host, found}
use jabberoo.Jid.Order.{same, same_comm, same-fold_case}
use jabberoo.Judo.{Judo}
use jabberoo.Presence.{Presence, get_priority, is_unavailable, is_error}
use jabberoo.PresenceDb.{
  Db, from_of, touch, list_at, drop_resource, insert, remove, find_exact, find, find_or_throw,
}
use jabberoo.PresenceDb.Resources.{is_empty, head_of, insert_resource, same_jid}
use jabberoo.PresenceDb.Resources.Distinct.{resource, resource-erase_if, resource-insert_resource}
use jabberoo.PresenceDb.Resources.Sorted.{IsSorted}
use jabberoo.PresenceDb.WellFormed.{IsWellFormed, list_at-IsList}

module _ (judo : Judo) where
  abbrev from : Presence judo → Str
  from = from_of judo

  -- The presence that the database holds for this JID.
  unfoldable pub view : Db judo → Str → Option (Presence judo)
  view db j = resource from j (list_at judo (get_user_host j) db)

  -- A presence that says that its sender is gone.
  abbrev pub is_gone : Presence judo → Bool
  is_gone p = is_unavailable p.type || is_error p.type

  list_at_congr :
      (k j : Str) (db : Db judo)
      → same_key fold_case k j ≡ true
      → list_at judo k db ≡ list_at judo j db
  unfolding list_at
  list_at_congr k j db h = ground (arith, lookup_congr fold_case k j db h)

  list_at-erase :
      (k j : Str) (db : Db judo)
      → list_at judo j (erase fold_case k db)
        ≡ (if same_key fold_case k j then [] else list_at judo j db)
  unfolding list_at
  list_at-erase k j db = ground (arith, lookup-erase fold_case k j db)

  list_at-assign :
      (k j : Str) (l : List (Presence judo)) (db : Db judo)
      → list_at judo j (assign fold_case k l db)
        ≡ (if same_key fold_case k j then l else list_at judo j db)
  unfolding list_at
  list_at-assign k j l db = ground (arith, lookup-assign fold_case k j l db)

  list_at-touch : (k j : Str) (db : Db judo) → list_at judo j (touch judo k db) ≡ list_at judo j db
  unfolding touch list_at
  list_at-touch k j db =
      ground (arith, lookup-assign fold_case k j [] db, lookup_congr fold_case k j db)

  -- What a removal leaves of every list.
  list_at-drop_resource :
      (jid j : Str) (db : Db judo)
      → list_at judo j (drop_resource judo jid db) ≡ (
          if same_key fold_case (get_user_host jid) j
          then erase_if (same_jid from jid) (list_at judo (get_user_host jid) db)
          else list_at judo j db)
  unfolding drop_resource erase_if
  list_at-drop_resource jid j db =
      let k = get_user_host jid in
      let rest = erase_if (same_jid from jid) (list_at judo k db) in
      ground (
        arith,
        list_at-erase k j (touch judo k db),
        list_at-touch k j db,
        list_at-erase k j (assign fold_case k rest (touch judo k db)),
        list_at-assign k j rest (touch judo k db),
      )

  -- The keys of two JIDs that compare equal are the same.
  same_key-same :
      (a b : Str) → same a b ≡ true → same_key fold_case (get_user_host a) (get_user_host b) ≡ true
  same_key-same a b h = (==_iff _ _).1 (same-fold_case a b h)

  view-drop_resource :
      (jid j : Str) (db : Db judo)
      → IsWellFormed judo db
      → view (drop_resource judo jid db) j ≡ (if same jid j then none else view db j)
  unfolding view
  view-drop_resource jid j db w =
      let l = list_at-IsList judo (get_user_host jid) db w in
      ground (
        arith,
        list_at-drop_resource jid (get_user_host j) db,
        same_key-same jid j,
        list_at_congr (get_user_host jid) (get_user_host j) db,
        resource-erase_if from j jid (list_at judo (get_user_host jid) db) l.1,
      )

  -- In a well-formed database, remove takes the presence of that very JID out of the view, its resource
  -- included, and no other: also where the same user@host has presences of other resources. This is what
  -- the code does; the comment on remove in include/presenceDB.hh says that it removes all presences
  -- which match the user@host, and is not what the theorem states.
  pub view-remove :
      (jid j : Str) (db : Db judo)
      → IsWellFormed judo db
      → view (remove judo jid db) j ≡ (if same jid j then none else view db j)
  unfolding remove
  view-remove jid j db w = view-drop_resource jid j db w

  -- In a well-formed database, inserting a presence changes the view at its sender's JID alone: to
  -- that presence, or to nothing if it is unavailable or an error.
  pub view-insert :
      (p : Presence judo) (j : Str) (db : Db judo)
      → IsWellFormed judo db
      → view (insert judo p db) j
        ≡ (if same (from_of judo p) j then (if is_gone p then none else some p) else view db j)
  unfolding insert view
  view-insert p j db w = elim (Bool-cases (is_gone p)) [
    | inl gone ↦ rw (gone, insert) (unfold view in view-drop_resource (from p) j db w)
    | inr kept ↦
        let k = get_user_host (from p) in
        let l = list_at judo k db in
        let inserted = insert_resource from (get_priority judo) p l in
        rw (kept, insert)
          (ground (
            arith,
            list_at-assign k (get_user_host j) inserted (touch judo k db),
            list_at-touch k (get_user_host j) db,
            same_key-same (from p) j,
            list_at_congr k (get_user_host j) db,
            same_comm (from p) j,
            resource-insert_resource from (get_priority judo) j p l (list_at-IsList judo k db w).1,
          ))
  ]

  -- For a JID with a resource, findExact reads the view.
  pub find_exact-view :
      (jid : Str) (db : Db judo)
      → found (find_char b'/' jid) ≡ true
      → find_exact judo jid db ≡ view db jid
  unfolding find_exact view list_at find_or_throw resource find_if
  find_exact-view jid db h = elim (Option-cases (lookup fold_case (get_user_host jid) db)) [
    | inl e ↦ rw (e, view, list_at, find_exact) refl
    | inr (l, e) ↦ rw (e, view, list_at, find_exact) (searched l)
  ]
    where
      searched :
          (l : List (Presence judo))
          → (if is_empty l
              then none
              else if found (find_char b'/' jid)
              then find_if (same_jid from jid) l
              else head_of l)
            ≡ find_if (same_jid from jid) l
      searched [] = refl
      searched (x ∷ xs) = rw h refl

  find-list_at :
      (jid : Str) (db : Db judo) → find judo jid db ≡ head_of (list_at judo (get_user_host jid) db)
  unfolding find list_at
  find-list_at jid db = ground arith

  best_head :
      (p : Presence judo) (l : List (Presence judo))
      → head_of l ≡ some p
      → IsSorted (get_priority judo) l
      → All (λ q. leℤ (get_priority judo q) (get_priority judo p) ≡ true) l
  best_head p [] h s = cc
  best_head p (q ∷ l) h s =
      subst (λ r. All (λ q. leℤ (get_priority judo q) (get_priority judo r) ≡ true) (q ∷ l))
        (some-injective _ _ h) (leℤ_refl (get_priority judo q), s.0)

  -- In a well-formed database, what find returns has the best priority of all presences of that
  -- user.
  pub find-best :
      (jid : Str) (p : Presence judo) (db : Db judo)
      → IsWellFormed judo db
      → find judo jid db ≡ some p
      → All
          (λ q. leℤ (get_priority judo q) (get_priority judo p) ≡ true)
          (list_at judo (get_user_host jid) db)
  find-best jid p db w h =
      best_head p (list_at judo (get_user_host jid) db) (sym (find-list_at jid db) ∙ h)
        (list_at-IsList judo (get_user_host jid) db w).0
