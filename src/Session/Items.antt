-- ===== src/Session/Items.antt =====
-- The request that adds or changes a roster item, Roster::update(const Item&) of
-- src/jabberoo-roster.cc, read back by Item::update.
use jabberoo.Base.{
  Str, Bool, List, [], ◌∷◌, ◌≡◌, ◌==◌, ==_iff, ==_refl, refl, arith, codes, empty, if◌then◌else◌,
  not, ◌&&◌, ◌||◌, any, any-append, Bool-cases, inl, inr, sym, ◌∙◌,
}
use jabberoo.Judo.{Judo}
use jabberoo.Roster.{Item}
use jabberoo.Roster.Groups.{member}
use jabberoo.Roster.Items.{names}
use jabberoo.Session.Requests.{add_item_groups, item_element}

-- A group that the program makes up.
abbrev pub is_virtual : Str → Bool
is_virtual g = g == codes "Unfiled" || g == codes "Pending" || g == codes "Agents"

module _ (judo : Judo) where
  open judo use {
    Element, make, text_element, get_attrib, put_attrib, append_child, children, children-make,
    children-put_attrib, children-append_child, get_cdata-text_element, get_attrib-append_child,
    get_attrib-put_attrib_same, get_attrib-put_attrib_other,
  }

  any-append_group :
      (g h : Str) (item : Element)
      → any (names judo g) (children (append_child item (text_element (codes "group") h)))
        ≡ (any (names judo g) (children item) || (not (empty h) && h == g))
  unfolding any
  any-append_group g h item =
      rw (children-append_child, any-append (names judo g), get_cdata-text_element) (ground arith)

  -- The element with the child for one group, if the group is real.
  abbrev with_group : Str → Element → Element
  with_group h item =
      if not (h == codes "Unfiled") && not (h == codes "Pending") && not (h == codes "Agents")
      then append_child item (text_element (codes "group") h)
      else item

  any-with_group :
      (g h : Str) (item : Element)
      → any (names judo g) (children (with_group h item))
        ≡ (any (names judo g) (children item) || (h == g && not (is_virtual g) && not (empty g)))
  any-with_group g h item = elim (Bool-cases (h == g)) [
    | inl e ↦ rw (e, sym ((==_iff h g).0 e)) (ground (arith, any-append_group h h item, ==_refl h))
    | inr e ↦ rw e (ground (arith, any-append_group g h item))
  ]

  any-add_item_groups :
      (g : Str) (gs : List Str) (item : Element)
      → any (names judo g) (children (add_item_groups judo gs item)) ≡ (
          any (names judo g) (children item)
          || (member g gs && not (is_virtual g) && not (empty g)))
  unfolding add_item_groups member
  any-add_item_groups g [] item = ground arith
  any-add_item_groups g (h ∷ gs) item =
      ground (arith, any-add_item_groups g gs (with_group h item), any-with_group g h item)

  get_attrib-add_item_groups :
      (k : Str) (gs : List Str) (item : Element)
      → get_attrib (add_item_groups judo gs item) k ≡ get_attrib item k
  unfolding add_item_groups
  get_attrib-add_item_groups k [] item = refl
  get_attrib-add_item_groups k (h ∷ gs) item = ground (
    arith,
    get_attrib-add_item_groups k gs (with_group h item),
    get_attrib-append_child item (text_element (codes "group") h) k,
  )

  -- The element before its groups.
  abbrev bare : Item → Element
  bare i =
      let item = put_attrib (make (codes "item")) (codes "jid") i.jid in
      if not (empty i.nickname) then put_attrib item (codes "name") i.nickname else item

  bare_lem : (i : Item) → (get_attrib (bare i) (codes "jid") ≡ i.jid) × (children (bare i) ≡ [])
  unfolding ◌==◌
  bare_lem i =
      let item = put_attrib (make (codes "item")) (codes "jid") i.jid in
      ground (
        arith,
        get_attrib-put_attrib_other item (codes "name") (codes "jid") i.nickname refl,
        get_attrib-put_attrib_same (make (codes "item")) (codes "jid") i.jid,
        children-put_attrib item (codes "name") i.nickname,
        children-put_attrib (make (codes "item")) (codes "jid") i.jid,
        children-make (codes "item"),
      )

  -- The element of an item carries its JID, and names a group exactly if the item is in that group
  -- and the group is neither one that the program makes up nor the empty text.
  pub item_element-names :
      (i : Item) (g : Str)
      → (get_attrib (item_element judo i) (codes "jid") ≡ i.jid)
        × (any (names judo g) (children (item_element judo i))
            ≡ (member g i.groups && not (is_virtual g) && not (empty g)))
  unfolding item_element any
  item_element-names i g = (
    get_attrib-add_item_groups (codes "jid") i.groups (bare i) ∙ (bare_lem i).0,
    any-add_item_groups g i.groups (bare i) ∙ rw (bare_lem i).1 refl,
  )
