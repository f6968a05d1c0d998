-- ===== src/PresenceDb/WellFormed.antt =====
-- The invariant of the presence database of src/jabberoo-presencedb.cc.
use jabberoo.Base.{
  Str, true, false, List, [], ◌≡◌, refl, All, erase_if, Bool-cases, Option-cases, inl, inr, subst,
  sym, ◌||◌, fold_case, ==_iff,
}
use jabberoo.Base.Map.{lookup, assign, same_key, Entries, Entries-lookup}
use jabberoo.Base.Map.{same_key_comm}
use jabberoo.Base.Map.Repair.{
  Elsewhere, Elsewhere-of_Entries, erase-Entries, assign-Entries, assign-Elsewhere,
}
use jabberoo.Jid.{get_user_host}
use jabberoo.Judo.{Judo}
use jabberoo.Presence.{Presence, get_priority, is_unavailable, is_error}
use jabberoo.PresenceDb.{Db, from_of, touch, list_at, drop_resource, insert, remove}
use jabberoo.PresenceDb.Resources.{is_empty, insert_resource, same_jid}
use jabberoo.PresenceDb.Resources.Sorted.{
  IsSorted, erase_if-IsSorted, insert_resource-IsSorted, insert_resource-All,
  insert_resource-is_empty, All-erase_if,
}
use jabberoo.PresenceDb.Resources.Distinct.{
  IsDistinct, erase_if-IsDistinct, insert_resource-IsDistinct,
}

module _ (judo : Judo) where
  abbrev from : Presence judo → Str
  from = from_of judo

  -- The presence is of the user whose entry it stands in.
  abbrev pub Owned : Str → Presence judo → Type 0
  Owned k q = fold_case (get_user_host (from q)) ≡ fold_case k

  -- What holds of a list, which may be empty while a call is under way.
  abbrev pub IsList : Str → List (Presence judo) → Type 0
  IsList k l = IsSorted (get_priority judo) l × IsDistinct from l × All (Owned k) l

  abbrev pub IsEntry : Str → List (Presence judo) → Type 0
  IsEntry k l = (is_empty l ≡ false) × IsList k l

  -- Each entry has a presence; its presences are of its user, in order of priority with the best
  -- first, and no two have the same JID.
  abbrev pub IsWellFormed : Db judo → Type 0
  IsWellFormed = Entries IsEntry

  Owned_congr :
      (j k : Str) (l : List (Presence judo))
      → same_key fold_case j k ≡ true
      → IsList k l
      → IsList j l
  Owned_congr j k l e h =
      subst
        (λ t.
          IsSorted (get_priority judo) l
          × IsDistinct from l
          × All (λ q. fold_case (get_user_host (from q)) ≡ t) l)
        (sym ((==_iff (fold_case j) (fold_case k)).0 e)) h

  pub list_at-IsList : (k : Str) (db : Db judo) → IsWellFormed db → IsList k (list_at judo k db)
  unfolding list_at
  list_at-IsList k db h = elim (Option-cases (lookup fold_case k db)) [
    | inl e ↦ rw (e, list_at) (tt, tt, tt)
    | inr (l, e) ↦
        let (j, entry, at) = Entries-lookup fold_case IsEntry k l db e h in
        rw (e, list_at) (Owned_congr k j l (same_key_comm fold_case j k at) entry.1)
  ]

  touch-Elsewhere :
      (k : Str) (db : Db judo) → IsWellFormed db → Elsewhere fold_case IsEntry k (touch judo k db)
  unfolding touch
  touch-Elsewhere k db h = elim (Option-cases (lookup fold_case k db)) [
    | inl e ↦
        rw (e, touch)
          (assign-Elsewhere fold_case IsEntry k [] db
            (Elsewhere-of_Entries fold_case IsEntry k db h))
    | inr (l, e) ↦ rw (e, touch) (Elsewhere-of_Entries fold_case IsEntry k db h)
  ]

  assign-IsWellFormed :
      (k : Str) (l : List (Presence judo)) (db : Db judo)
      → is_empty l ≡ false
      → IsList k l
      → IsWellFormed db
      → IsWellFormed (assign fold_case k l (touch judo k db))
  assign-IsWellFormed k l db n h w =
      assign-Entries fold_case IsEntry k l (touch judo k db) (λ j e. (n, Owned_congr j k l e h))
        (touch-Elsewhere k db w)

  insert_resource-IsList :
      (k : Str) (p : Presence judo) (l : List (Presence judo))
      → Owned k p
      → IsList k l
      → IsList k (insert_resource from (get_priority judo) p l)
  insert_resource-IsList k p l o h = (
    insert_resource-IsSorted (get_priority judo) from p l h.0,
    insert_resource-IsDistinct from (get_priority judo) p l h.1,
    insert_resource-All (Owned k) from (get_priority judo) p l o h.2,
  )

  drop_resource-IsWellFormed :
      (jid : Str) (db : Db judo) → IsWellFormed db → IsWellFormed (drop_resource judo jid db)
  unfolding drop_resource
  drop_resource-IsWellFormed jid db w =
      let k = get_user_host jid in
      let l = list_at judo k db in
      let rest = erase_if (same_jid from jid) l in
      let old = list_at-IsList k db w in
      let kept : IsList k rest = (
        erase_if-IsSorted (get_priority judo) (same_jid from jid) l old.0,
        erase_if-IsDistinct from (same_jid from jid) l old.1,
        All-erase_if _ (same_jid from jid) l old.2,
      ) in
      let touched = touch-Elsewhere k db w in
      elim (Bool-cases (is_empty l)) [
        | inl e ↦ rw (e, drop_resource) (erase-Entries fold_case IsEntry k _ touched)
        | inr e ↦ elim (Bool-cases (is_empty rest)) [
          | inl last ↦
              rw (e, drop_resource)
                (rw last (
                  erase-Entries fold_case IsEntry k _
                    (assign-Elsewhere fold_case IsEntry k rest (touch judo k db) touched)))
          | inr more ↦ rw (e, drop_resource) (rw more (assign-IsWellFormed k rest db more kept w))
        ]
      ]

  -- Inserting a presence, of whatever type, keeps a well-formed database well formed: no user
  -- without a presence, the best priority first, one presence for each JID, each under its own
  -- user.
  pub insert-IsWellFormed :
      (p : Presence judo) (db : Db judo) → IsWellFormed db → IsWellFormed (insert judo p db)
  unfolding insert
  insert-IsWellFormed p db w = elim (Bool-cases (is_unavailable p.type || is_error p.type)) [
    | inl gone ↦ rw (gone, insert) (drop_resource-IsWellFormed (from p) db w)
    | inr kept ↦
        let k = get_user_host (from p) in
        let l = list_at judo k db in
        rw (kept, insert)
          (assign-IsWellFormed k (insert_resource from (get_priority judo) p l) db
            (insert_resource-is_empty from (get_priority judo) p l)
            (insert_resource-IsList k p l refl (list_at-IsList k db w)) w)
  ]

  -- Removing a JID keeps the database well formed.
  pub remove-IsWellFormed :
      (jid : Str) (db : Db judo) → IsWellFormed db → IsWellFormed (remove judo jid db)
  unfolding remove
  remove-IsWellFormed jid db w = drop_resource-IsWellFormed jid db w
