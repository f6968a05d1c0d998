-- ===== src/Roster.antt =====
-- src/jabberoo-roster.cc and include/roster.hh: the roster items by JID, the index of groups, and
-- the handling of roster pushes and of presences. The signals that an operation fires are a list,
-- in the order of firing; a packet that it sends is a value for the session.
pub mod Groups
pub mod Texts
pub mod Items
pub mod Accessors
pub mod Push
use jabberoo.Base.{
  Str, Bool, true, false, Option, none, some, List, [], ◌∷◌, ◌++◌, ℕ, ◌+◌, ◌-◌, if◌then◌else◌, ◌==◌,
  empty, codes, not, ◌&&◌, ◌||◌, find_char, fold_case, nat_eq, ltb,
}
use jabberoo.Base.Map.{lookup, assign, erase}
use jabberoo.Jid.{get_user_host, found}
use jabberoo.Judo.{Judo}
use jabberoo.Packet.{get_from}
use jabberoo.Presence.{Presence, PresenceType}
use Groups.{GroupMap, set_insert, set_erase, no_members, remove_from_all, merge_groups}

pub data Subscription : Type 0 where
  rs_none rs_to rs_from rs_both rs_remove : Subscription

-- translateS10N(Subscription)
unfoldable pub subscription_text : Subscription → Str
subscription_text rs_none = codes "none"
subscription_text rs_to = codes "to"
subscription_text rs_from = codes "from"
subscription_text rs_both = codes "both"
subscription_text rs_remove = codes "remove"

-- translateS10N(const string&)
unfoldable pub subscription_of_text : Str → Subscription
subscription_of_text stype =
    if stype == codes "to"
    then rs_to
    else if stype == codes "from"
    then rs_from
    else if stype == codes "both"
    then rs_both
    else if stype == codes "remove"
    then rs_remove
    else rs_none

-- Roster::Item. `_rescnt` is 0 or 1.
pub record Item : Type 0 where
  pub rescnt : ℕ
  pub groups : List Str
  pub type : Subscription
  pub pending : Bool
  pub nickname : Str
  pub jid : Str

unfoldable pub is_available : Item → Bool
is_available i = ltb 0 i.rescnt

unfoldable pub add_to_group : Str → Item → Item
unfolding set_insert
add_to_group group i = record i { groups = set_insert group i.groups }

unfoldable pub del_from_group : Str → Item → Item
unfolding set_erase
del_from_group group i = record i { groups = set_erase group i.groups }

unfoldable pub clear_groups : Item → Item
clear_groups i = record i { groups = [] }

-- The members before the first update, for a new item.
unfoldable pub fresh_item : Item
fresh_item = record {
  rescnt = 0;
  groups = [];
  type = rs_none;
  pending = false;
  nickname = [];
  jid = [];
}

-- A JID with a resource and no user is that of an agent.
unfoldable pub is_agent_jid : Str → Bool
is_agent_jid jid = not (found (find_char b'@' jid)) && found (find_char b'/' jid)

-- The groups that an item shows in beside those that it names.
unfoldable pub virtual_groups : Bool → Str → List Str → List Str
unfolding is_agent_jid set_insert
virtual_groups pending jid groups =
    if pending
    then set_insert (codes "Pending") groups
    else if no_members groups
    then set_insert (if is_agent_jid jid then codes "Agents" else codes "Unfiled") groups
    else groups

pub data RosterEvent : Type 0 where
  refresh : RosterEvent
  removing_item updating update_done : Item → RosterEvent
  presence_change : Str → Bool → PresenceType → RosterEvent

pub record Roster : Type 0 where
  pub items : List (Str × Item)
  pub groups : GroupMap

unfoldable pub reset : Roster → Roster × List RosterEvent
reset r = (record r { items = [] }, refresh ∷ [])

-- The count after Item::update(Roster&, jid, p, prev_type).
unfoldable pub count_after : Bool → ℕ → ℕ
count_after available rescnt =
    if available && nat_eq rescnt 0
    then rescnt + 1
    else if not available && nat_eq rescnt 1
    then rescnt - 1
    else rescnt

module _ (judo : Judo) where
  open judo use {Element, get_attrib, cmp_attrib, children, get_cdata, escape}

  unfoldable pub filter_jid : Str → Str
  filter_jid jid = if not (found (find_char b'@' jid)) then escape jid else get_user_host jid

  -- operator[]; `none` is XCP_InvalidJID.
  unfoldable pub item_at : Str → Roster → Option Item
  item_at jid r = lookup fold_case (filter_jid jid) r.items

  unfoldable pub contains_jid : Str → Roster → Bool
  unfolding item_at
  contains_jid jid r = elim (item_at jid r) [ none ↦ false | some i ↦ true ]

  -- The group names in the children, added to the set.
  unfoldable pub collect_groups : List Element → List Str → List Str
  unfolding set_insert
  collect_groups [] groups = groups
  collect_groups (c ∷ cs) groups =
      collect_groups cs
        (if not (empty (get_cdata c)) then set_insert (get_cdata c) groups else groups)

  -- Item::update(const judo::Element&)
  unfoldable pub update_item : Element → Item → Item
  unfolding collect_groups virtual_groups subscription_of_text
  update_item t i =
      let name = get_attrib t (codes "name") in
      let ask = get_attrib t (codes "ask") == codes "subscribe" in
      record {
        rescnt = i.rescnt;
        groups = virtual_groups ask (get_attrib t (codes "jid")) (collect_groups (children t) []);
        type = subscription_of_text (get_attrib t (codes "subscription"));
        pending = ask;
        nickname = if empty name then get_attrib t (codes "jid") else name;
        jid = get_attrib t (codes "jid");
      }

  -- Item::update(Roster&, const judo::Element&): the item, and the index of the roster's groups.
  unfoldable pub update_merged : GroupMap → Element → Item → Item × GroupMap
  update_merged groups t i =
      let i' = update_item t i in (i', merge_groups i'.jid i.groups i'.groups groups)

  -- The roster, the signals fired, newest last, and updateFlag.
  pub record PushState : Type 0 where
    pub roster : Roster
    pub events : List RosterEvent
    pub update_flag : Bool

  -- The JID is on the roster.
  unfoldable pub push_known : Str → Element → Item → PushState → PushState
  unfolding update_merged remove_from_all
  push_known jid item i s =
      if cmp_attrib item (codes "subscription") (codes "remove")
      then record s {
        roster = record {
          items = erase fold_case jid s.roster.items;
          groups = remove_from_all i.groups i.jid s.roster.groups;
        };
        events = s.events ++ (removing_item i ∷ []);
        update_flag = true;
      }
      else (let (i', groups') = update_merged s.roster.groups item i in
          record s {
            roster = record { items = assign fold_case jid i' s.roster.items; groups = groups' };
            events = s.events ++ (updating i ∷ update_done i' ∷ []);
            update_flag = true;
          })

  -- The JID is new.
  unfoldable pub push_new : Str → Element → PushState → PushState
  unfolding update_merged fresh_item
  push_new jid item s =
      if not (cmp_attrib item (codes "subscription") (codes "remove"))
      then (let (i', groups') = update_merged s.roster.groups item fresh_item in
          record s {
            roster = record { items = assign fold_case jid i' s.roster.items; groups = groups' };
            update_flag = true;
          })
      else s

  -- One child of the push.
  unfoldable pub push_item : Element → PushState → PushState
  unfolding push_known push_new
  push_item item s =
      let jid = filter_jid (get_attrib item (codes "jid")) in
      elim (lookup fold_case jid s.roster.items) [
        | some i ↦ push_known jid item i s
        | none ↦ push_new jid item s
      ]

  unfoldable pub push_items : List Element → PushState → PushState
  push_items [] s = s
  push_items (c ∷ cs) s = push_items cs (push_item c s)

  -- Roster::update(const judo::Element&)
  unfoldable pub update : Element → Roster → Roster × List RosterEvent
  unfolding push_items
  update t r =
      let s = push_items (children t) (record { roster = r; events = []; update_flag = false }) in
      if s.update_flag then (s.roster, s.events ++ (refresh ∷ [])) else (s.roster, s.events)

  -- Roster::update(const Presence&, Presence::Type). `available` is what the presence database
  -- says of a JID.
  unfoldable pub update_presence :
      (Str → Bool) → Presence judo → PresenceType → Roster → Roster × List RosterEvent
  unfolding count_after
  update_presence available p prev_type r =
      let jid = filter_jid (get_from judo p.base) in
      elim (lookup fold_case jid r.items) [
        | none ↦ (r, [])
        | some i ↦
            let n = count_after (available jid) i.rescnt in
            (
              record r { items = assign fold_case jid (record i { rescnt = n }) r.items },
              presence_change jid (not (nat_eq n 0)) prev_type ∷ [],
            )
      ]
