-- ===== src/Tests/Rosters.antt =====
-- The theorems on src/jabberoo-roster.cc at a roster of one contact.
use jabberoo.Base.{
  Str, Bool, codes, ◌≡◌, refl, true, false, some, [], ◌∷◌, if◌then◌else◌, ◌==◌, ◌||◌, ◌&&◌, not,
  any, fold_case, find_char,
}
use jabberoo.Base.Map.{lookup}
use jabberoo.Jid.{get_user_host}
use jabberoo.Judo.Tree.{tree, Node, node, nil, cons, node_get, node_cmp}
use jabberoo.Roster.{
  Roster, Item, PushState, update, update_item, fresh_item, filter_jid, item_at, push_item,
  is_agent_jid, collect_groups,
}
use jabberoo.Roster.Groups.{members_of, member, no_members, merge_groups}
use jabberoo.Roster.Groups.Members.{in_group}
use jabberoo.Roster.Groups.Merge.{in_group-merge_groups}
use jabberoo.Roster.Items.{names, update_item-groups}
use jabberoo.Roster.Push.{item_names, IsIndexed, update-IsIndexed}
use jabberoo.Roster.Push.Faults.{push_respelled}

abbrev romeo : Str
romeo = codes "romeo@montague.net"

abbrev item_of : Str → Node
item_of jid =
    node (codes "item") ((codes "jid", jid) ∷ (codes "subscription", codes "both") ∷ []) []
      (cons (node (codes "group") [] (codes "Friends") nil) nil)

-- A push of one contact.
abbrev push_of : Str → Node
push_of jid = node (codes "query") [] [] (cons (item_of jid) nil)

abbrev empty_roster : Roster
empty_roster = record { items = []; groups = [] }

abbrev roster : Roster
roster = (update tree (push_of romeo) empty_roster).0

in_group-merge_groups_example :
    in_group
      (merge_groups romeo
        (codes "Friends" ∷ [])
        (codes "Work" ∷ [])
        ((codes "Friends", romeo ∷ []) ∷ []))
      (codes "Work")
      romeo
    ≡ (if romeo == romeo
        then member (codes "Work") (codes "Work" ∷ [])
          || (in_group ((codes "Friends", romeo ∷ []) ∷ []) (codes "Work") romeo
              && not (member (codes "Work") (codes "Friends" ∷ [])))
        else in_group ((codes "Friends", romeo ∷ []) ∷ []) (codes "Work") romeo)
unfolding in_group member members_of lookup ◌==◌
in_group-merge_groups_example =
    in_group-merge_groups romeo (codes "Friends" ∷ []) (codes "Work" ∷ [])
      ((codes "Friends", romeo ∷ []) ∷ []) (codes "Work") romeo (refl, tt) (refl, tt)

update_item-groups_example :
    let i' = update_item tree (item_of romeo) fresh_item in
    let named = collect_groups tree (tree.children (item_of romeo)) [] in
    (no_members i'.groups ≡ false)
    × (member (codes "Friends") i'.groups ≡ (
        if i'.pending
        then codes "Pending" == codes "Friends"
          || any (names tree (codes "Friends")) (tree.children (item_of romeo))
        else if no_members named
        then (if is_agent_jid i'.jid then codes "Agents" else codes "Unfiled") == codes "Friends"
        else any (names tree (codes "Friends")) (tree.children (item_of romeo))))
update_item-groups_example = update_item-groups tree (item_of romeo) fresh_item (codes "Friends")

abbrev same_spelling : Str → Str
same_spelling key = key

update-IsIndexed_example : IsIndexed tree same_spelling roster
unfolding lookup in_group fold_case node_get filter_jid find_char get_user_host item_names member
    members_of
update-IsIndexed_example =
    update-IsIndexed tree same_spelling (push_of romeo) empty_roster (refl, tt) (tt, (λ g j. refl))

abbrev contact : Item
contact = update_item tree (item_of romeo) fresh_item

abbrev contact_only : Roster
contact_only = record { items = (romeo, contact) ∷ []; groups = (codes "Friends", romeo ∷ []) ∷ [] }

abbrev online : Str → Bool
online jid = true

abbrev before : PushState tree
before = record { roster = contact_only; events = []; update_flag = false }

push_respelled_example :
    (in_group
        (push_item tree (item_of (codes "Romeo@montague.net")) before).roster.groups
        (codes "Friends")
        contact.jid
      ≡ true)
    × (item_at tree contact.jid
          (push_item tree (item_of (codes "Romeo@montague.net")) before).roster
        ≡ some (update_item tree (item_of (codes "Romeo@montague.net")) contact))
    × (((update_item tree (item_of (codes "Romeo@montague.net")) contact).jid == contact.jid)
        ≡ false)
unfolding lookup ◌==◌ fold_case filter_jid find_char node_get get_user_host node_cmp update_item
    in_group member members_of
push_respelled_example =
    push_respelled tree (item_of (codes "Romeo@montague.net")) contact before (codes "Friends") refl
      refl refl refl refl
