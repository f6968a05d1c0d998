-- ===== src/Tests/Discos.antt =====
-- The cache of src/jabberoo-disco.cpp at concrete answers.
use jabberoo.Base.{
  ℕ, Bool, false, none, some, [], ◌∷◌, codes, ◌≡◌, refl, ◌==◌, find_if, if◌then◌else◌,
}
use jabberoo.Base.Map.{place}
use jabberoo.Judo.Tree.{
  tree, Node, node, nil, cons, node_get, node_cmp, node_find, attrib_value, equals,
}
use jabberoo.Session
use jabberoo.Session.{Session}
use jabberoo.Disco.{
  Item, Disco, Slot, disco_items_cb, disco_info_cb, browse_cb, initial, insert_new, cache_updated,
  item_at, clear, equal_range, with_node, run_callbacks, lookup_key,
}
use jabberoo.Disco.Queries.{cache, info_answered, items_answered, node_of, query_children}
use jabberoo.Disco.Answers.{info_answered_lem}
use jabberoo.Disco.Sound.{IsSound, held}
use jabberoo.Disco.Reached.{Reached, clear-Reached}
use jabberoo.Disco.Nodes.{run_callbacks-cache, answered_other_node}

abbrev check : ℕ → Node → Bool
check q e = false

abbrev number_of : Slot → ℕ
number_of disco_items_cb = 1
number_of disco_info_cb = 2
number_of browse_cb = 3

abbrev session : Session tree
session = Session.initial tree

abbrev answer : Node
answer = node (codes "iq") ((codes "from", codes "host") ∷ []) [] (
    cons
      (node (codes "query") [] [] (
        cons
          (node (codes "identity")
            ((codes "category", codes "server") ∷ (codes "type", codes "im") ∷ []) [] nil)
          (cons (node (codes "feature") ((codes "var", codes "iq") ∷ []) [] nil) nil)))
      nil)

-- The item that the answer makes.
abbrev host : Item
host = record {
  jid = codes "host";
  node = [];
  name = [];
  children = [];
  features = codes "iq" ∷ [];
  identities = (record { category = codes "server"; type = codes "im" }) ∷ [];
}

info_answered_lem_example :
    info_answered tree check number_of answer (session, initial)
    ≡ some (
      session,
      record {
        heap = some host ∷ [];
        items = (codes "host", 0) ∷ [];
        callbacks = [];
        events = cache_updated 0 ∷ [];
      },
    )
unfolding initial place equal_range lookup_key node_of query_children node_cmp node_get node_find
    find_if attrib_value equals ◌==◌
info_answered_lem_example =
    info_answered_lem tree check number_of answer session initial refl refl refl

abbrev one_item : Disco
one_item = insert_new (codes "host") [] [] initial

abbrev host_item : Item
host_item = record {
  jid = codes "host";
  node = [];
  name = [];
  children = [];
  features = [];
  identities = [];
}

run_callbacks-cache_example :
    run_callbacks
      (codes "host")
      (some 0)
      (cache tree check number_of (codes "host") 7 false (session, one_item)).1
    ≡ none
unfolding insert_new initial
run_callbacks-cache_example =
    run_callbacks-cache tree check number_of (codes "host") 7 false session one_item 0 host_item
      refl refl

abbrev rooms : Item
rooms = record {
  jid = codes "host";
  node = codes "rooms";
  name = [];
  children = [];
  features = [];
  identities = [];
}

abbrev room_item : Disco
room_item = insert_new (codes "host") (codes "rooms") [] initial

answered_other_node_example :
    (info_answered tree check number_of answer (session, room_item) ≡ none)
    × (items_answered tree check number_of answer (session, room_item) ≡ none)
unfolding insert_new initial place equal_range with_node node_of node_cmp node_get node_find find_if
    attrib_value equals ◌==◌
answered_other_node_example =
    answered_other_node tree check number_of answer session room_item 0 [] refl refl
      ((rooms, refl, refl), tt)

abbrev host_known : Disco
host_known = record {
  heap = some host ∷ [];
  items = (codes "host", 0) ∷ [];
  callbacks = [];
  events = cache_updated 0 ∷ [];
}

clear-Reached_example :
    IsSound host_known
    × ((t : Disco) × (clear host_known ≡ some t)
        × (t.items ≡ [])
        × ((n : ℕ)
            → item_at n t.heap
              ≡ (if held n host_known.items then none else item_at n (some host ∷ []))))
unfolding initial place equal_range lookup_key node_of query_children node_cmp node_get node_find
    find_if attrib_value equals ◌==◌
clear-Reached_example = clear-Reached tree check number_of host_known (
    Reached.info_came initial host_known answer session session Reached.started
      (info_answered_lem tree check number_of answer session initial refl refl refl))
