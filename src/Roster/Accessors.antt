-- ===== src/Roster/Accessors.antt =====
-- The constructors, readers and setters of Roster::Item in src/jabberoo-roster.cc, and the size of the
-- roster. Its iterators are those of its map.
use jabberoo.Base.{Str, Bool, [], ℕ, ◌≡◌, refl, length}
use jabberoo.Judo.{Judo}
use jabberoo.Session.{Session}
use jabberoo.Session.Requests.{send_item, item_element}
use jabberoo.Roster.{Item, Roster, Subscription, fresh_item, update_item}

-- Item(jid, nickname): the members that it does not set are what the memory holds.
unfoldable pub named_item : Str → Str → Item → Item
named_item jid nickname unset = record unset { groups = []; nickname = nickname; jid = jid }

unfoldable pub get_nickname : Item → Str
get_nickname i = i.nickname

unfoldable pub set_nickname : Str → Item → Item
set_nickname nickname i = record i { nickname = nickname }

unfoldable pub get_jid : Item → Str
get_jid i = i.jid

unfoldable pub set_jid : Str → Item → Item
set_jid jid i = record i { jid = jid }

unfoldable pub get_subs_type : Item → Subscription
get_subs_type i = i.type

unfoldable pub is_pending : Item → Bool
is_pending i = i.pending

unfoldable pub size : Roster → ℕ
size r = length r.items

module _ (judo : Judo) where
  open judo use {Element}

  -- Item(t)
  unfoldable pub item_of_element : Element → Item
  unfolding update_item fresh_item
  item_of_element t = update_item judo t fresh_item

  -- What is sent for a named item does not depend on the members that are not set.
  send_item-named_item :
      (jid nickname : Str) (u v : Item) (s : Session judo)
      → send_item judo (named_item jid nickname u) s ≡ send_item judo (named_item jid nickname v) s
  unfolding send_item item_element named_item
  send_item-named_item jid nickname u v s = refl
