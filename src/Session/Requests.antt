-- ===== src/Session/Requests.antt =====
-- The requests that the roster of src/jabberoo-roster.cc sends through its session: fetch, update of
-- an item, deleteUser and deleteAgent.
use jabberoo.Base.{
  Str, Bool, Option, none, some, List, [], ◌∷◌, ℕ, if◌then◌else◌, ◌==◌, empty, codes, not, ◌&&◌,
  find_char,
}
use jabberoo.Jid.{found}
use jabberoo.Judo.{Judo}
use jabberoo.Presence.{build, unsub_request, invalid}
use jabberoo.Roster.{Item}
use jabberoo.Session.{
  Session, delete_agent, send_element, send_packet, query_namespace, get_next_id, iq_of,
}

module _ (judo : Judo) where
  open judo use {
    Element, make, text_element, get_attrib, put_attrib, append_child, get_child_cdata,
    find_element,
  }

  -- Roster::fetch
  unfoldable pub fetch_roster : Session judo → Session judo
  unfolding get_next_id send_element iq_of
  fetch_roster s =
      let (id, s1) = get_next_id judo s in
      let query = put_attrib (make (codes "query")) (codes "xmlns") (codes "jabber:iq:roster") in
      send_element judo (append_child (iq_of judo (codes "get") id) query) s1

  -- The groups that the program makes up are not sent.
  unfoldable pub add_item_groups : List Str → Element → Element
  unfolding ◌==◌
  add_item_groups [] item = item
  add_item_groups (g ∷ gs) item = add_item_groups gs (
      if not (g == codes "Unfiled") && not (g == codes "Pending") && not (g == codes "Agents")
      then append_child item (text_element (codes "group") g)
      else item)

  unfoldable pub item_element : Item → Element
  unfolding add_item_groups
  item_element i =
      let item = put_attrib (make (codes "item")) (codes "jid") i.jid in
      add_item_groups i.groups
        (if not (empty i.nickname) then put_attrib item (codes "name") i.nickname else item)

  -- Roster::update(const Item&)
  unfoldable pub send_item : Item → Session judo → Session judo
  unfolding item_element send_element
  send_item i s =
      let query = put_attrib (make (codes "query")) (codes "xmlns") (codes "jabber:iq:roster") in
      send_element judo
        (append_child (put_attrib (make (codes "iq")) (codes "type") (codes "set"))
          (append_child query (item_element i)))
        s

  -- The request that removes an item.
  unfoldable pub removal_iq : Str → Element
  removal_iq jid =
      let item =
        put_attrib (put_attrib (make (codes "item")) (codes "jid") jid) (codes "subscription")
          (codes "remove") in
      let query = put_attrib (make (codes "query")) (codes "xmlns") (codes "jabber:iq:roster") in
      append_child (put_attrib (make (codes "iq")) (codes "type") (codes "set"))
        (append_child query item)

  -- Roster::deleteUser: the removal, then the unsubscription.
  unfoldable pub remove_and_unsubscribe : (ℕ → Element → Bool) → Str → Session judo → Session judo
  unfolding removal_iq send_element send_packet
  remove_and_unsubscribe check jid s =
      send_packet judo check (build judo jid unsub_request invalid [] (codes "0")).base
        (send_element judo (removal_iq jid) s)

  -- Roster::deleteUser, with the query to the agent
  unfoldable pub delete_user : (ℕ → Element → Bool) → Str → Session judo → Session judo
  unfolding remove_and_unsubscribe query_namespace
  delete_user check jid s =
      let s2 = remove_and_unsubscribe check jid s in
      if not (found (find_char b'@' jid)) && found (find_char b'/' jid)
      then query_namespace judo (codes "jabber:iq:register") delete_agent jid s2
      else s2

  -- Roster::deleteAgent
  unfoldable pub delete_agent_reply : Element → Session judo → Option (Session judo)
  unfolding send_element
  delete_agent_reply reply s = elim (find_element reply (codes "query")) [
    | none ↦ none
    | some query ↦
        let key = text_element (codes "key") (get_child_cdata query (codes "key")) in
        let nquery =
          append_child
            (append_child
              (put_attrib (make (codes "query")) (codes "xmlns") (codes "jabber:iq:register")) key)
            (make (codes "remove")) in
        let niq =
          put_attrib (put_attrib (make (codes "iq")) (codes "type") (codes "set")) (codes "to")
            (get_attrib reply (codes "from")) in
        some (send_element judo (append_child niq nquery) s)
  ]
