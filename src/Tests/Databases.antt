-- ===== src/Tests/Databases.antt =====
-- The theorems on src/jabberoo-presencedb.cc at a database of two resources of one user.
use jabberoo.Base.{
  Str, codes, ◌≡◌, refl, true, none, some, [], ◌∷◌, All, if◌then◌else◌, find_char, fold_case,
  str_compare, find_if, strcasecmp,
}
use jabberoo.Base.Int.{leℤ, atoi}
use jabberoo.Base.Map.{assign, lookup}
use jabberoo.Jid.{get_user_host, compare, get_resource}
use jabberoo.Jid.Order.{same}
use jabberoo.Judo.Tree.{tree, Node, node, nil, cons, node_get, node_child_text}
use jabberoo.Packet.{get_from}
use jabberoo.Presence.{Presence, of_element, get_priority}
use jabberoo.PresenceDb.{Db, from_of, list_at, insert, remove, find}
use jabberoo.PresenceDb.Resources.{insert_resource, same_jid}
use jabberoo.PresenceDb.View.{view, is_gone, view-insert, view-remove, find-best}
use jabberoo.PresenceDb.WellFormed.{IsWellFormed, insert-IsWellFormed}

abbrev pub presence_from : Str → Str → Str → Node
presence_from jid type priority =
    node (codes "presence") ((codes "from", jid) ∷ (codes "type", type) ∷ []) []
      (cons (node (codes "priority") [] priority nil) nil)

abbrev home : Presence tree
home = of_element tree (presence_from (codes "Romeo@montague.net/home") [] (codes "5"))

abbrev work : Presence tree
work = of_element tree (presence_from (codes "romeo@montague.net/work") [] (codes "9"))

abbrev gone : Presence tree
gone =
    of_element tree
      (presence_from (codes "romeo@montague.net/work") (codes "unavailable") (codes "0"))

abbrev db : Db tree
db = insert tree work (insert tree home [])

db-IsWellFormed : IsWellFormed tree db
db-IsWellFormed =
    insert-IsWellFormed tree work (insert tree home []) (insert-IsWellFormed tree home [] tt)

view-insert_example : view tree (insert tree gone db) (codes "romeo@montague.net/work") ≡ (
    if same (from_of tree gone) (codes "romeo@montague.net/work")
    then (if is_gone tree gone then none else some gone)
    else view tree db (codes "romeo@montague.net/work"))
view-insert_example = view-insert tree gone (codes "romeo@montague.net/work") db db-IsWellFormed

view-remove_example :
    view tree (remove tree (codes "romeo@montague.net/home") db) (codes "romeo@montague.net/work")
    ≡ (if same (codes "romeo@montague.net/home") (codes "romeo@montague.net/work")
        then none
        else view tree db (codes "romeo@montague.net/work"))
view-remove_example =
    view-remove tree (codes "romeo@montague.net/home") (codes "romeo@montague.net/work") db
      db-IsWellFormed

find-best_example :
    All
      (λ q. leℤ (get_priority tree q) (get_priority tree work) ≡ true)
      (list_at tree (get_user_host (codes "romeo@montague.net")) db)
unfolding find insert of_element lookup assign fold_case get_user_host find_char get_from node_get
    insert_resource find_if same_jid compare strcasecmp str_compare get_resource leℤ get_priority
    atoi node_child_text
find-best_example = find-best tree (codes "romeo@montague.net") work db db-IsWellFormed refl
