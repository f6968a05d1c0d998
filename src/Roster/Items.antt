-- ===== src/Roster/Items.antt =====
-- Roster::Item::update of src/jabberoo-roster.cc: the groups of an item.
use jabberoo.Base.{
  Str, Bool, true, false, List, [], ◌∷◌, ◌≡◌, refl, if◌then◌else◌, ◌==◌, ◌||◌, ◌&&◌, not, arith,
  empty, codes, any, Bool-cases, inl, inr,
}
use jabberoo.Judo.{Judo}
use jabberoo.Roster.{Item, update_item, collect_groups, virtual_groups, is_agent_jid}
use jabberoo.Roster.Groups.{set_insert, member, no_members}
use jabberoo.Roster.Groups.Members.{member-set_insert}
use jabberoo.Roster.Groups.Merge.{IsNodup}
use jabberoo.Roster.Groups.Ascending.{IsAscending, set_insert-IsAscending, IsAscending-IsNodup}

set_insert-no_members : (x : Str) (s : List Str) → no_members (set_insert x s) ≡ false
unfolding set_insert
set_insert-no_members x [] = refl
set_insert-no_members x (y ∷ s) = ground arith

virtual_groups-no_members :
    (pending : Bool) (jid : Str) (s : List Str) → no_members (virtual_groups pending jid s) ≡ false
unfolding virtual_groups
virtual_groups-no_members pending jid s = ground (
  arith,
  set_insert-no_members (codes "Pending") s,
  set_insert-no_members (codes "Agents") s,
  set_insert-no_members (codes "Unfiled") s,
)

virtual_groups-IsAscending :
    (pending : Bool) (jid : Str) (s : List Str)
    → IsAscending s
    → IsAscending (virtual_groups pending jid s)
unfolding virtual_groups
virtual_groups-IsAscending true jid s h = set_insert-IsAscending (codes "Pending") s h
virtual_groups-IsAscending false jid [] h =
    set_insert-IsAscending (if is_agent_jid jid then codes "Agents" else codes "Unfiled") [] tt
virtual_groups-IsAscending false jid (x ∷ s) h = h

no_members-member : (g : Str) (s : List Str) → no_members s ≡ true → member g s ≡ false
unfolding member
no_members-member g [] h = refl
no_members-member g (x ∷ s) h = cc

member-virtual_groups :
    (pending : Bool) (jid : Str) (s : List Str) (g : Str)
    → member g (virtual_groups pending jid s) ≡ (
        if pending
        then codes "Pending" == g || member g s
        else if no_members s
        then (if is_agent_jid jid then codes "Agents" else codes "Unfiled") == g
        else member g s)
unfolding virtual_groups
member-virtual_groups pending jid s g = ground (
  arith,
  member-set_insert (codes "Pending") g s,
  member-set_insert (codes "Agents") g s,
  member-set_insert (codes "Unfiled") g s,
  no_members-member g s,
)

module _ (judo : Judo) where
  open judo use {Element, get_attrib, children, get_cdata}

  -- A child names the group.
  abbrev pub names : Str → Element → Bool
  names g c = not (empty (get_cdata c)) && get_cdata c == g

  member-collect_groups :
      (cs : List Element) (s : List Str) (g : Str)
      → member g (collect_groups judo cs s) ≡ (any (names g) cs || member g s)
  unfolding collect_groups any
  member-collect_groups [] s g = refl
  member-collect_groups (c ∷ cs) s g = ground (
    arith,
    member-collect_groups cs s g,
    member-collect_groups cs (set_insert (get_cdata c) s) g,
    member-set_insert (get_cdata c) g s,
  )

  collect_groups-IsAscending :
      (cs : List Element) (s : List Str) → IsAscending s → IsAscending (collect_groups judo cs s)
  unfolding collect_groups
  collect_groups-IsAscending [] s h = h
  collect_groups-IsAscending (c ∷ cs) s h = elim (Bool-cases (empty (get_cdata c))) [
    | inl e ↦ rw (e, collect_groups) (collect_groups-IsAscending cs s h)
    | inr e ↦
        rw (e, collect_groups)
          (collect_groups-IsAscending cs _ (set_insert-IsAscending (get_cdata c) s h))
  ]

  -- An updated item is in some group. A pending item is in Pending and in the groups that its
  -- element names; another is in the groups that the element names, or, if it names none, in
  -- Agents if its JID is that of an agent and else in Unfiled.
  pub update_item-groups :
      (t : Element) (i : Item) (g : Str)
      → let i' = update_item judo t i in
        let named = collect_groups judo (children t) [] in
        (no_members i'.groups ≡ false)
        × (member g i'.groups ≡ (
            if i'.pending
            then codes "Pending" == g || any (names g) (children t)
            else if no_members named
            then (if is_agent_jid i'.jid then codes "Agents" else codes "Unfiled") == g
            else any (names g) (children t)))
  unfolding update_item member
  update_item-groups t i g =
      let pending = get_attrib t (codes "ask") == codes "subscribe" in
      let jid = get_attrib t (codes "jid") in
      let named = collect_groups judo (children t) [] in
      (
        virtual_groups-no_members pending jid named,
        ground (
          arith,
          member-virtual_groups pending jid named g,
          member-collect_groups (children t) [] g,
        ),
      )

  -- No group stands twice in an updated item.
  pub update_item-IsNodup : (t : Element) (i : Item) → IsNodup (update_item judo t i).groups
  unfolding update_item
  update_item-IsNodup t i =
      IsAscending-IsNodup _
        (virtual_groups-IsAscending _ _ _ (collect_groups-IsAscending (children t) [] tt))
