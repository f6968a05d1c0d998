-- ===== src/Roster/Push.antt =====
-- Roster pushes, Roster::update(const judo::Element&) of src/jabberoo-roster.cc, keep the index of
-- groups in step with the items.
pub mod Faults
pub mod Available
use jabberoo.Base.{
  Str, Bool, true, false, Option, none, some, List, [], ◌∷◌, ◌≡◌, refl, if◌then◌else◌, ◌==◌, ==_iff,
  ==_refl, ◌||◌, ◌&&◌, not, arith, All, Bool-cases, Option-cases, inl, inr, fold_case, codes, sym,
  ◌∙◌, ap,
}
use jabberoo.Base.Map.{
  lookup, assign, erase, same_key, lookup-assign, lookup-erase, lookup_congr, Entries,
  Entries-assign, Entries-erase, Entries-lookup,
}
use jabberoo.Judo.{Judo}
use jabberoo.Roster.{
  Roster, Item, PushState, push_item, push_items, push_known, push_new, update, filter_jid,
  update_merged, update_item, fresh_item, RosterEvent,
}
use jabberoo.Roster.Groups.{member, GroupMap, remove_from_all, merge_groups}
use jabberoo.Roster.Groups.Members.{in_group, in_group-remove_from_all}
use jabberoo.Roster.Groups.Merge.{IsNodup, InAll, in_group-merge_groups}
use jabberoo.Roster.Items.{update_item-IsNodup}

-- A property of every member of a set.
All-of_member {κ} :
    (Q : Str → Type κ) (s : List Str) → ((g : Str) → member g s ≡ true → Q g) → All Q s
unfolding member
All-of_member Q [] f = tt
All-of_member Q (x ∷ s) f =
    (f x (ground (arith, ==_refl x)), All-of_member Q s (λ g h. f g (ground arith)))

-- `spelling` gives for each key of the item map the JID that the server writes.
module _ (judo : Judo) (spelling : Str → Str) where
  open judo use {Element, get_attrib, cmp_attrib, children}

  abbrev pub key_of : Str → Str
  key_of jid = fold_case (filter_jid judo jid)

  -- The item stands under the key of its JID, which is spelled that one way.
  abbrev pub IsItem : Str → Item → Type 0
  IsItem k i = (i.jid ≡ spelling (fold_case k)) × (key_of i.jid ≡ fold_case k) × IsNodup i.groups

  -- The item with this very JID names the group.
  unfoldable pub item_names : Option Item → Str → Str → Bool
  item_names none g j = false
  item_names (some i) g j = i.jid == j && member g i.groups

  -- The items are well kept, and a JID is in a group of the index exactly when its item is.
  abbrev pub IsIndexed : Roster → Type 0
  IsIndexed r =
      Entries IsItem r.items
      × ((g j : Str)
          → in_group r.groups g j ≡ item_names (lookup fold_case (filter_jid judo j) r.items) g j)

  -- The child of a push writes its JID the one way.
  abbrev pub Spelled : Element → Type 0
  Spelled c = get_attrib c (codes "jid") ≡ spelling (key_of (get_attrib c (codes "jid")))

  abbrev child_jid : Element → Str
  child_jid c = get_attrib c (codes "jid")

  -- What the entry found under a key is.
  found_item :
      (k : Str) (i : Item) (m : List (Str × Item))
      → lookup fold_case k m ≡ some i
      → Entries IsItem m
      → IsItem k i
  found_item k i m e h =
      let (j, entry, at) = Entries-lookup fold_case IsItem k i m e h in
      let keys = (==_iff (fold_case j) (fold_case k)).0 at in
      (entry.0 ∙ ap spelling keys, entry.1 ∙ keys, entry.2)

  -- The two keys are one key if the JIDs are the same.
  same_key_of_jid :
      (k : Str) (i : Item) (j : Str)
      → key_of i.jid ≡ fold_case k
      → (i.jid == j) ≡ true
      → same_key fold_case k (filter_jid judo j) ≡ true
  same_key_of_jid k i j h e = (==_iff _ _).1 (sym h ∙ ap key_of ((==_iff i.jid j).0 e))

  removal-IsIndexed :
      (k : Str) (i : Item) (r : Roster)
      → lookup fold_case k r.items ≡ some i
      → IsIndexed r
      → IsIndexed (record {
        items = erase fold_case k r.items;
        groups = remove_from_all i.groups i.jid r.groups;
      })
  unfolding item_names
  removal-IsIndexed k i r e h =
      let entry = found_item k i r.items e h.0 in
      (
        Entries-erase fold_case IsItem k r.items h.0,
        λ g j.
            let kj = filter_jid judo j in
            ground (
              arith,
              in_group-remove_from_all i.groups g i.jid j r.groups,
              h.1 g j,
              lookup-erase fold_case k kj r.items,
              lookup_congr fold_case k kj r.items,
              same_key_of_jid k i j entry.1,
            ),
      )

  module _ (t : Element) (old : Item) (r : Roster) where
    abbrev jid : Str
    jid = get_attrib t (codes "jid")

    abbrev key : Str
    key = filter_jid judo jid

    abbrev new : Item
    new = update_item judo t old

    -- No other JID has the item under this key.
    not_named :
        (g j : Str)
        → Spelled t
        → Entries IsItem r.items
        → same_key fold_case key (filter_jid judo j) ≡ true
        → (jid == j) ≡ false
        → item_names (lookup fold_case (filter_jid judo j) r.items) g j ≡ false
    unfolding item_names
    not_named g j s entries e other = elim (Option-cases (lookup fold_case key r.items)) [
      | inl missing ↦ rw (sym (lookup_congr fold_case key (filter_jid judo j) r.items e) ∙ missing)
      | inr (i, found) ↦
          rw (sym (lookup_congr fold_case key (filter_jid judo j) r.items e) ∙ found)
            (ground (arith, (found_item key i r.items found entries).0 ∙ sym s))
    ]

    new-IsItem : (j : Str) → Spelled t → same_key fold_case j key ≡ true → IsItem j new
    unfolding update_item
    new-IsItem j s e =
        let keys : fold_case j ≡ fold_case key = (==_iff (fold_case j) (fold_case key)).0 e in
        (s ∙ ap spelling (sym keys), sym keys, unfold update_item in update_item-IsNodup judo t old)

    -- The item under the key is replaced, or entered if `old` has no groups.
    merged-IsIndexed :
        Spelled t
        → IsNodup old.groups
        → IsIndexed r
        → ((g : Str) → in_group r.groups g jid ≡ member g old.groups)
        → IsIndexed (record {
          items = assign fold_case key new r.items;
          groups = merge_groups new.jid old.groups new.groups r.groups;
        })
    unfolding item_names update_item
    merged-IsIndexed s d h own =
        let inside =
          All-of_member (λ g. in_group r.groups g jid ≡ true) old.groups (λ g m. own g ∙ m) in
        (
          Entries-assign fold_case IsItem key new r.items (λ j e. new-IsItem j s e) h.0,
          λ g j. ground (
            arith,
            in_group-merge_groups jid old.groups new.groups r.groups g j d inside,
            h.1 g j,
            own g,
            lookup-assign fold_case key (filter_jid judo j) new r.items,
            ==_iff jid j,
            ==_refl (fold_case key),
            not_named g j s h.0,
          ),
        )

  -- The groups in which the JID of the push is before it.
  own_known :
      (t : Element) (i : Item) (r : Roster)
      → Spelled t
      → lookup fold_case (filter_jid judo (child_jid t)) r.items ≡ some i
      → IsIndexed r
      → (g : Str) → in_group r.groups g (child_jid t) ≡ member g i.groups
  unfolding item_names
  own_known t i r spelled e h g =
      let entry = found_item (filter_jid judo (child_jid t)) i r.items e h.0 in
      let jids : i.jid ≡ child_jid t = entry.0 ∙ sym spelled in
      h.1 g (child_jid t) ∙ rw e (ground (arith, (==_iff i.jid (child_jid t)).1 jids))

  own_new :
      (t : Element) (r : Roster)
      → lookup fold_case (filter_jid judo (child_jid t)) r.items ≡ none
      → IsIndexed r
      → (g : Str) → in_group r.groups g (child_jid t) ≡ member g []
  unfolding item_names member
  own_new t r e h g = h.1 g (child_jid t) ∙ rw e

  push_known-IsIndexed :
      (t : Element) (i : Item) (s : PushState judo)
      → Spelled t
      → lookup fold_case (filter_jid judo (child_jid t)) s.roster.items ≡ some i
      → IsIndexed s.roster
      → IsIndexed (push_known judo (filter_jid judo (child_jid t)) t i s).roster
  unfolding push_known
  push_known-IsIndexed t i s spelled e h =
      let k = filter_jid judo (child_jid t) in
      let entry = found_item k i s.roster.items e h.0 in
      elim (Bool-cases (cmp_attrib t (codes "subscription") (codes "remove"))) [
        | inl gone ↦ rw (gone, push_known) (removal-IsIndexed k i s.roster e h)
        | inr kept ↦
            rw (kept, push_known)
              (unfold update_merged update_item in
                merged-IsIndexed t i s.roster spelled entry.2 h
                  (own_known t i s.roster spelled e h))
      ]

  push_new-IsIndexed :
      (t : Element) (s : PushState judo)
      → Spelled t
      → lookup fold_case (filter_jid judo (child_jid t)) s.roster.items ≡ none
      → IsIndexed s.roster
      → IsIndexed (push_new judo (filter_jid judo (child_jid t)) t s).roster
  unfolding push_new
  push_new-IsIndexed t s spelled e h =
      elim (Bool-cases (cmp_attrib t (codes "subscription") (codes "remove"))) [
        | inl gone ↦ rw (gone, push_new) h
        | inr kept ↦
            rw (kept, push_new)
              (unfold update_merged update_item fresh_item in
                merged-IsIndexed t fresh_item s.roster spelled tt h (own_new t s.roster e h))
      ]

  push_item-IsIndexed :
      (t : Element) (s : PushState judo)
      → Spelled t
      → IsIndexed s.roster
      → IsIndexed (push_item judo t s).roster
  unfolding push_item
  push_item-IsIndexed t s spelled h =
      elim (Option-cases (lookup fold_case (filter_jid judo (child_jid t)) s.roster.items)) [
        | inl e ↦ rw (e, push_item) (push_new-IsIndexed t s spelled e h)
        | inr (i, e) ↦ rw (e, push_item) (push_known-IsIndexed t i s spelled e h)
      ]

  push_items-IsIndexed :
      (ts : List Element) (s : PushState judo)
      → All Spelled ts
      → IsIndexed s.roster
      → IsIndexed (push_items judo ts s).roster
  unfolding push_items
  push_items-IsIndexed [] s a h = h
  push_items-IsIndexed (t ∷ ts) s a h =
      push_items-IsIndexed ts (push_item judo t s) a.1 (push_item-IsIndexed t s a.0 h)

  -- A push whose items each spell their JID the one way that `spelling` gives for its key keeps the
  -- index of groups exact, if the roster's items are spelled so: after it a JID is in a group
  -- exactly when the item of that very JID names the group.
  pub update-IsIndexed :
      (t : Element) (r : Roster)
      → All Spelled (children t)
      → IsIndexed r
      → IsIndexed (update judo t r).0
  unfolding update
  update-IsIndexed t r a h =
      let start : PushState judo = record { roster = r; events = []; update_flag = false } in
      let pushed = push_items-IsIndexed (children t) start a h in
      elim (Bool-cases (push_items judo (children t) start).update_flag) [
        | inl e ↦ rw (e, update) pushed
        | inr e ↦ rw (e, update) pushed
      ]
