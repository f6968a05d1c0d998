-- ===== src/Roster/Push/Faults.antt =====
-- Where src/jabberoo-roster.cc leaves the index of groups behind: after reset, and after a push
-- that spells a JID another way.
use jabberoo.Base.{
  Str, true, false, none, some, List, [], ◌∷◌, ◌≡◌, refl, ◌==◌, ==_iff, arith, fold_case, codes,
  ◌∙◌,
}
use jabberoo.Base.Map.{lookup, lookup-assign}
use jabberoo.Judo.{Judo}
use jabberoo.Roster.{
  Roster, Item, PushState, push_item, push_known, reset, filter_jid, item_at, update_item,
  update_merged,
}
use jabberoo.Roster.Groups.{GroupMap, add_to_group, remove_from_group, merge_groups}
use jabberoo.Roster.Groups.Members.{in_group, in_group-add_to_group, in_group-remove_from_group}

-- reset empties the items and keeps the index: a JID that was in a group is still in it, and is no
-- longer on the roster.
pub reset_keeps_groups :
    (judo : Judo) (r : Roster) (g j : Str)
    → in_group r.groups g j ≡ true
    → (in_group (reset r).0.groups g j ≡ true) × (item_at judo j (reset r).0 ≡ none)
unfolding reset item_at lookup
reset_keeps_groups judo r g j h = (h, refl)

-- Whatever the lists are, merging moves nobody but the given JID.
in_group-merge_groups_other :
    (jid : Str) (old new : List Str) (groups : GroupMap) (g j : Str)
    → (jid == j) ≡ false
    → in_group (merge_groups jid old new groups) g j ≡ in_group groups g j
unfolding merge_groups
in_group-merge_groups_other jid [] [] groups g j h = refl
in_group-merge_groups_other jid [] (n ∷ ns) groups g j h = ground (
  arith,
  in_group-merge_groups_other jid [] ns (add_to_group n jid groups) g j h,
  in_group-add_to_group n g jid j groups,
)
in_group-merge_groups_other jid (o ∷ os) [] groups g j h = ground (
  arith,
  in_group-merge_groups_other jid os [] (remove_from_group o jid groups) g j h,
  in_group-remove_from_group o g jid j groups,
)
in_group-merge_groups_other jid (o ∷ os) (n ∷ ns) groups g j h = ground (
  arith,
  in_group-merge_groups_other jid os ns groups g j h,
  in_group-merge_groups_other jid os (n ∷ ns) (remove_from_group o jid groups) g j h,
  in_group-remove_from_group o g jid j groups,
)

-- A push for an item on the roster that spells its JID another way, under the same key, leaves the
-- old spelling in every group where it was, and no item has that spelling any more.
pub push_respelled :
    (judo : Judo) (t : judo.Element) (i : Item) (s : PushState judo) (g : Str)
    → lookup fold_case (filter_jid judo (judo.get_attrib t (codes "jid"))) s.roster.items ≡ some i
    → judo.cmp_attrib t (codes "subscription") (codes "remove") ≡ false
    → (judo.get_attrib t (codes "jid") == i.jid) ≡ false
    → fold_case (filter_jid judo (judo.get_attrib t (codes "jid")))
      ≡ fold_case (filter_jid judo i.jid)
    → in_group s.roster.groups g i.jid ≡ true
    → (in_group (push_item judo t s).roster.groups g i.jid ≡ true)
      × (item_at judo i.jid (push_item judo t s).roster ≡ some (update_item judo t i))
      × (((update_item judo t i).jid == i.jid) ≡ false)
unfolding push_item push_known update_merged update_item item_at
push_respelled judo t i s g found kept other keys inside =
    let jid = judo.get_attrib t (codes "jid") in
    let i' = update_item judo t i in
    rw (found, push_item)
      (rw (kept, push_known)
        (
          in_group-merge_groups_other jid i.groups i'.groups s.roster.groups g i.jid other ∙ inside,
          lookup-assign fold_case (filter_jid judo jid) (filter_jid judo i.jid) i' s.roster.items
              ∙ rw ((==_iff _ _).1 keys),
          other,
        ))
