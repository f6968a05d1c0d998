-- ===== src/PresenceDb.antt =====
-- src/jabberoo-presencedb.cc and include/presenceDB.hh: for each user@host, the presences of its
-- resources. `XCP_InvalidJID` is `none`. A map entry that `_DB[k]` creates is there for the rest
-- of the call, as in the code.
pub mod Resources
pub mod WellFormed
pub mod View
pub mod Events
use jabberoo.Base.{
  Str, Bool, true, false, ◌||◌, Option, none, some, List, [], ◌∷◌, if◌then◌else◌, find_if, erase_if,
  fold_case, find_char, codes,
}
use jabberoo.Base.Int.{ℤ}
use jabberoo.Base.Map.{lookup, assign, erase}
use jabberoo.Jid.{get_user_host, found}
use jabberoo.Judo.{Judo}
use jabberoo.Packet.{get_from, set_from}
use jabberoo.Presence.{
  Presence, PresenceType, get_priority, unavailable, invalid, is_unavailable, is_error,
  is_available, build,
}
use Resources.{same_jid, is_empty, insert_resource, head_of}

module _ (judo : Judo) where
  -- The members that the list operations read.
  abbrev pub from_of : Presence judo → Str
  from_of p = get_from judo p.base

  abbrev pub Db : Type 0
  Db = List (Str × List (Presence judo))

  -- `_DB[k]`: an empty list is entered for a missing key.
  unfoldable pub touch : Str → Db → Db
  touch k db = elim (lookup fold_case k db) [ none ↦ assign fold_case k [] db | some l ↦ db ]

  unfoldable pub list_at : Str → Db → List (Presence judo)
  list_at k db = elim (lookup fold_case k db) [ none ↦ [] | some l ↦ l ]

  -- Takes the presence with this JID from the list of its user, and the entry with the last one.
  unfoldable pub drop_resource : Str → Db → Db
  unfolding touch list_at
  drop_resource jid db =
      let k = get_user_host jid in
      let l = list_at k db in
      let rest = erase_if (same_jid from_of jid) l in
      if is_empty l
      then erase fold_case k (touch k db)
      else if is_empty rest
      then erase fold_case k (assign fold_case k rest (touch k db))
      else assign fold_case k rest (touch k db)

  unfoldable pub insert : Presence judo → Db → Db
  unfolding touch list_at drop_resource is_unavailable is_error
  insert p db =
      let k = get_user_host (from_of p) in
      if is_unavailable p.type || is_error p.type
      then drop_resource (from_of p) db
      else assign fold_case k (insert_resource from_of (get_priority judo) p (list_at k db))
          (touch k db)

  unfoldable pub remove : Str → Db → Db
  unfolding drop_resource
  remove jid db = drop_resource jid db

  unfoldable pub find_or_throw : Str → Db → Option (List (Presence judo))
  find_or_throw jid db = lookup fold_case (get_user_host jid) db

  -- The presences between the two iterators.
  unfoldable pub equal_range : Str → Db → Option (List (Presence judo))
  unfolding find_or_throw
  equal_range jid db = find_or_throw jid db

  unfoldable pub find_exact : Str → Db → Option (Presence judo)
  unfolding find_or_throw
  find_exact jid db = elim (find_or_throw jid db) [
    | none ↦ none
    | some l ↦
        if is_empty l
        then none
        else if found (find_char b'/' jid)
        then find_if (same_jid from_of jid) l
        else head_of l
  ]

  unfoldable pub find : Str → Db → Option (Presence judo)
  unfolding find_or_throw
  find jid db = elim (find_or_throw jid db) [ none ↦ none | some l ↦ head_of l ]

  unfoldable pub contains : Str → Db → Bool
  contains jid db = elim (lookup fold_case (get_user_host jid) db) [ none ↦ false | some l ↦ true ]

  -- The first presence of the list is there and is available.
  unfoldable pub head_available : List (Presence judo) → Bool
  unfolding is_available
  head_available [] = false
  head_available (p ∷ l) = is_available p.type

  unfoldable pub available : Str → Db → Bool
  unfolding head_available
  available jid db = elim (lookup fold_case (get_user_host jid) db) [
    | none ↦ false
    | some l ↦ head_available l
  ]

  unfoldable pub set_from_head : Presence judo → List (Presence judo) → Presence judo
  set_from_head p [] = p
  set_from_head p (q ∷ l) = record p { base = set_from judo p.base (from_of q) }

  -- The presences that evtPresence is fired with, in the order of the map. One packet is sent on
  -- with a new sender each time.
  unfoldable pub unavailable_events : Presence judo → Db → List (Presence judo)
  unfolding head_available set_from_head
  unavailable_events p [] = []
  unavailable_events p ((k, l) ∷ db) =
      let sent = if head_available l then set_from_head p l else p in
      let rest = unavailable_events sent db in if head_available l then sent ∷ rest else rest

  unfoldable pub send_unavailable : Str → Db → List (Presence judo)
  unfolding unavailable_events
  send_unavailable jid db =
      unavailable_events (build judo jid unavailable invalid [] (codes "0")) db

  unfoldable pub clear : Db → Db
  clear db = []
