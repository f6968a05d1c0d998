-- ===== src/Disco/Queries.antt =====
-- The queries that the cache of src/jabberoo-disco.cpp sends, and the answers: discoInfoCB,
-- discoItemsCB and browseCB.
use jabberoo.Base.{
  Str, Bool, true, false, Option, none, some, List, [], ◌∷◌, ◌++◌, ℕ, codes, if◌then◌else◌, ◌==◌,
  empty, not, length,
}
use jabberoo.Base.Map.{place}
use jabberoo.Judo.{Judo}
use jabberoo.Roster.Groups.{plain}
use jabberoo.Session.{Session, ◌>>=◌, get_next_id, register_iq, client, send_element, send_packet}
use jabberoo.Disco.{
  Item, Slot, Disco, item_at, find, erase_first, insert_new, change, append_child, add_feature,
  add_identity, run_callbacks, cached_item, disco_items_cb, disco_info_cb, browse_cb,
}

module _ (judo : Judo) (check : ℕ → judo.Element → Bool) (number_of : Slot → ℕ) where
  open judo use {
    Element, make, get_name, get_attrib, put_attrib, cmp_attrib, children, find_element, get_cdata,
  }

  abbrev pub iq_get : Str → Str → Element
  iq_get id to =
      put_attrib
        (put_attrib (put_attrib (make (codes "iq")) (codes "type") (codes "get")) (codes "id") id)
        (codes "to") to

  unfoldable pub query_kind : Bool → Str × Slot
  query_kind true = (codes "http://jabber.org/protocol/disco#items", disco_items_cb)
  query_kind false = (codes "http://jabber.org/protocol/disco#info", disco_info_cb)

  -- cache(jid, f, get_items)
  unfoldable pub cache : Str → ℕ → Bool → Session judo × Disco → Session judo × Disco
  unfolding query_kind get_next_id register_iq send_element
  cache jid f get_items (session, s) =
      let (id, session1) = get_next_id judo session in
      let (nspace, slot) = query_kind get_items in
      let query = put_attrib (make (codes "query")) (codes "xmlns") nspace in
      (
        send_element judo (judo.append_child (iq_get id jid) query)
            (register_iq judo id (client (number_of slot)) session1),
        record s { callbacks = place plain jid f s.callbacks },
      )

  -- cache(jid, node, f, get_items)
  unfoldable pub cache_node : Str → Str → ℕ → Bool → Session judo × Disco → Session judo × Disco
  unfolding query_kind get_next_id register_iq send_element
  cache_node jid node f get_items (session, s) =
      let (id, session1) = get_next_id judo session in
      let (nspace, slot) = query_kind get_items in
      let query =
        put_attrib (put_attrib (make (codes "query")) (codes "xmlns") nspace) (codes "node") node in
      (
        send_element judo (judo.append_child (iq_get id jid) query)
            (register_iq judo id (client (number_of slot)) session1),
        record s { callbacks = place plain (jid ++ codes "::" ++ node) f s.callbacks },
      )

  -- The request that answers an error.
  unfoldable pub browse_instead : Element → Session judo → Session judo
  unfolding get_next_id register_iq send_packet
  browse_instead e session =
      let (id, session1) = get_next_id judo session in
      let item_query =
        put_attrib (make (codes "item")) (codes "xmlns") (codes "jabber:iq:browse") in
      send_packet judo check
        (judo.append_child (iq_get id (get_attrib e (codes "from"))) item_query)
        (register_iq judo id (client (number_of browse_cb)) session1)

  -- A change through a pointer that may be null.
  unfoldable pub through : Option ℕ → (Item → Item) → Disco → Option Disco
  unfolding change
  through none f s = none
  through (some n) f s = change n f s

  -- The loop over the children of the query of a disco#info answer.
  unfoldable pub read_info : List Element → Option ℕ → Disco → Option Disco
  unfolding through add_feature add_identity
  read_info [] item s = some s
  read_info (elem ∷ es) item s =
      (if get_name elem == codes "feature"
        then (if not (empty (get_attrib elem (codes "var")))
            then through item (add_feature (get_attrib elem (codes "var"))) s
            else some s)
        else if get_name elem == codes "identity"
        then through item
            (add_identity (get_attrib elem (codes "category")) (get_attrib elem (codes "type"))) s
        else some s)
      >>= read_info es item

  unfoldable pub node_of : Option Element → Str
  node_of none = []
  node_of (some query) = get_attrib query (codes "node")

  unfoldable pub query_children : Option Element → List Element
  query_children none = []
  query_children (some query) = children query

  unfoldable pub info_answered : Element → Session judo × Disco → Option (Session judo × Disco)
  unfolding browse_instead cached_item read_info run_callbacks node_of query_children
  info_answered e (session, s) =
      if cmp_attrib e (codes "type") (codes "error")
      then some (browse_instead e session, s)
      else (let jid = get_attrib e (codes "from") in
          let query = find_element e (codes "query") in
          cached_item jid (node_of query) s >>= λ found.
          read_info (query_children query) found.0 found.1 >>= λ s1.
          run_callbacks jid found.0 s1 >>= λ s2. some (session, s2))

  -- The loop over the children of the query of a disco#items answer.
  unfoldable pub read_items : List Element → Option ℕ → Disco → Option Disco
  unfolding find insert_new through append_child
  read_items [] item s = some s
  read_items (elem ∷ es) item s =
      let cjid = get_attrib elem (codes "jid") in
      (if get_name elem == codes "item"
        then elim (find cjid s.items) [
          | some child ↦ some s
          | none ↦
              through item (append_child (length s.heap)) (
                insert_new cjid (get_attrib elem (codes "node")) (get_attrib elem (codes "name")) s)
        ]
        else some s)
      >>= read_items es item

  unfoldable pub items_answered : Element → Session judo × Disco → Option (Session judo × Disco)
  unfolding browse_instead cached_item read_items run_callbacks node_of query_children
  items_answered e (session, s) =
      if cmp_attrib e (codes "type") (codes "error")
      then some (browse_instead e session, s)
      else (let jid = get_attrib e (codes "from") in
          let query = find_element e (codes "query") in
          cached_item jid (node_of query) s >>= λ found.
          read_items (query_children query) found.0 found.1 >>= λ s1.
          run_callbacks jid found.0 s1 >>= λ s2. some (session, s2))

  -- The child that browseCB ends its search with: the first with a JID, or else the last.
  unfoldable pub browsed_child : List Element → Option Element
  browsed_child [] = none
  browsed_child (c ∷ []) = some c
  browsed_child (c ∷ d ∷ cs) =
      let rest = browsed_child (d ∷ cs) in
      if not (empty (get_attrib c (codes "jid"))) then some c else rest

  unfoldable pub add_namespaces : List Element → ℕ → Disco → Option Disco
  unfolding change add_feature
  add_namespaces [] n s = some s
  add_namespaces (ns ∷ es) n s =
      (if get_name ns == codes "ns" then change n (add_feature (get_cdata ns)) s else some s)
      >>= add_namespaces es n

  -- The item of a child: the cached one, or a new one, which becomes a child of `item`.
  unfoldable pub browsed_item : Element → ℕ → Disco → Option (ℕ × Disco)
  unfolding find insert_new change append_child
  browsed_item celem item s =
      let cjid = get_attrib celem (codes "jid") in
      elim (find cjid s.items) [
        | some citem ↦ some (citem, s)
        | none ↦
            change item (append_child (length s.heap))
              (insert_new cjid [] (get_attrib celem (codes "name")) s)
            >>= λ s1. some (length s.heap, s1)
      ]

  -- `item`, which is not in `_items` yet, stands at the address given.
  unfoldable pub read_browsed : List Element → ℕ → Disco → Option Disco
  unfolding change add_feature browsed_item append_child add_identity add_namespaces
  read_browsed [] item s = some s
  read_browsed (celem ∷ es) item s =
      let cjid = get_attrib celem (codes "jid") in
      (if get_name celem == codes "ns"
        then change item (add_feature (get_cdata celem)) s
        else if empty cjid
        then some s
        else (browsed_item celem item s >>= λ made.
            change item (append_child made.0) made.1 >>= λ s2. item_at made.0 s2.heap >>= λ citem.
            let cat = get_attrib celem (codes "category") in
            change made.0
              (add_identity (if empty cat then citem.name else cat)
                (get_attrib celem (codes "type")))
              s2
            >>= add_namespaces (children celem) made.0))
      >>= read_browsed es item

  unfoldable pub browse_answered : Element → Disco → Option Disco
  unfolding browsed_child find erase_first read_browsed run_callbacks
  browse_answered e s = elim (browsed_child (children e)) [
    | none ↦ some s
    | some child ↦
        let jid = get_attrib child (codes "jid") in
        let item = length s.heap in
        let blank : Item = record {
          jid = jid;
          node = [];
          name = [];
          children = [];
          features = [];
          identities = [];
        } in
        read_browsed (children child) item
          (record s { items = erase_first jid s.items; heap = s.heap ++ some blank ∷ [] })
        >>= λ s1.
            run_callbacks jid (some item) (record s1 { items = place plain jid item s1.items })
  ]
