-- ===== src/Disco.antt =====
-- src/jabberoo-disco.cpp and include/discoDB.hh: the cache of discovered items, a client of the
-- session. Items are objects by address, the place in the list of all that were made; a multimap is a
-- list in order of its keys. `none` is undefined behaviour: a null or freed item, or the step of an
-- iterator that was erased.
pub mod Queries
pub mod Answers
pub mod Nodes
pub mod Sound
pub mod Changes
pub mod Deletes
pub mod Reached
use jabberoo.Base.{
  Str, Bool, true, false, Option, none, some, List, [], ◌∷◌, ◌++◌, ℕ, zero, suc, codes,
  if◌then◌else◌, ◌==◌, empty, not, length, c_str,
}
use jabberoo.Base.Map.{place}
use jabberoo.Judo.{Judo}
use jabberoo.Roster.Groups.{plain}
use jabberoo.Session.{Session, ◌>>=◌, get_next_id, register_iq, client, send_element, send_packet}

pub record Identity : Type 0 where
  pub category : Str
  pub type : Str

pub record Item : Type 0 where
  pub jid : Str
  pub node : Str
  pub name : Str
  pub children : List ℕ
  pub features : List Str
  pub identities : List Identity

-- The members of DiscoDB that it registers with the session.
pub data Slot : Type 0 where
  disco_items_cb disco_info_cb browse_cb : Slot

-- signal_cache_updated, and the calls of clients' functions.
pub data Event : Type 0 where
  cache_updated : ℕ → Event
  called : ℕ → ℕ → Event

pub record Disco : Type 0 where
  -- all items that were made, none for those that were deleted
  pub heap : List (Option Item)
  pub items : List (Str × ℕ)
  pub callbacks : List (Str × ℕ)
  -- what was fired, the newest first
  pub events : List Event

abbrev pub item_at : ℕ → List (Option Item) → Option Item
item_at n [] = none
item_at zero (i ∷ is) = i
item_at (suc n) (i ∷ is) = item_at n is

-- A change of the object at an address.
unfoldable pub change_at : ℕ → (Item → Item) → List (Option Item) → Option (List (Option Item))
change_at n f [] = none
change_at zero f (none ∷ is) = none
change_at zero f (some i ∷ is) = some (some (f i) ∷ is)
change_at (suc n) f (i ∷ is) = change_at n f is >>= λ js. some (i ∷ js)

unfoldable pub delete_at : ℕ → List (Option Item) → Option (List (Option Item))
delete_at n [] = none
delete_at zero (none ∷ is) = none
delete_at zero (some i ∷ is) = some (none ∷ is)
delete_at (suc n) (i ∷ is) = delete_at n is >>= λ js. some (i ∷ js)

-- equal_range of a multimap: the values behind a key, in order.
unfoldable pub equal_range : Str → List (Str × ℕ) → List ℕ
equal_range k [] = []
equal_range k ((j, v) ∷ m) = let rest = equal_range k m in if j == k then v ∷ rest else rest

-- `find` of a multimap: the first value behind a key.
unfoldable pub find : Str → List (Str × ℕ) → Option ℕ
find k [] = none
find k ((j, v) ∷ m) = if j == k then some v else find k m

-- erase at the place that find gave.
unfoldable pub erase_first : Str → List (Str × ℕ) → List (Str × ℕ)
erase_first k [] = []
erase_first k ((j, v) ∷ m) = if j == k then m else (j, v) ∷ erase_first k m

unfoldable pub initial : Disco
initial = record { heap = []; items = []; callbacks = []; events = [] }

unfoldable pub emit : Event → Disco → Disco
emit e s = record s { events = e ∷ s.events }

-- Item(jid), with a node and a name set, and its place in `_items`.
unfoldable pub insert_new : Str → Str → Str → Disco → Disco
unfolding place
insert_new jid node name s = record s {
  heap =
      s.heap
      ++ some (record {
        jid = jid;
        node = node;
        name = name;
        children = [];
        features = [];
        identities = [];
      })
        ∷ [];
  items = place plain jid (length s.heap) s.items;
}

unfoldable pub change : ℕ → (Item → Item) → Disco → Option Disco
unfolding change_at
change n f s = change_at n f s.heap >>= λ heap. some (record s { heap = heap })

unfoldable pub append_child : ℕ → Item → Item
append_child child i = record i { children = i.children ++ child ∷ [] }

unfoldable pub add_feature : Str → Item → Item
add_feature feature i = record i { features = i.features ++ feature ∷ [] }

unfoldable pub add_identity : Str → Str → Item → Item
add_identity category type i = record i {
  identities = i.identities ++ (record { category = category; type = type }) ∷ [];
}

-- operator[], none for XCP_NotCached
unfoldable pub get : Str → Disco → Option ℕ
unfolding find
get jid s = find jid s.items

-- The first of the items whose node is the one asked for; the null pointer is `some none`.
unfoldable pub with_node : Str → List ℕ → List (Option Item) → Option (Option ℕ)
with_node node [] heap = some none
with_node node (n ∷ ns) heap =
    item_at n heap >>= λ i. if i.node == node then some (some n) else with_node node ns heap

unfoldable pub delete_all : List (Str × ℕ) → List (Option Item) → Option (List (Option Item))
unfolding delete_at
delete_all [] heap = some heap
delete_all ((k, n) ∷ m) heap = delete_at n heap >>= delete_all m

unfoldable pub clear : Disco → Option Disco
unfolding delete_all
clear s = delete_all s.items s.heap >>= λ heap. some (record s { heap = heap; items = [] })

-- What the iterator at a place points to, and the map without its entry.
unfoldable pub taken_at : ℕ → List (Str × ℕ) → Option (ℕ × List (Str × ℕ))
taken_at at [] = none
taken_at zero ((k, n) ∷ m) = some (n, m)
taken_at (suc at) (e ∷ m) = taken_at at m >>= λ r. some (r.0, e ∷ r.1)

-- erase(iterator), the iterator by its place in the map
unfoldable pub erase : ℕ → Disco → Option Disco
unfolding taken_at delete_at
erase at s = taken_at at s.items >>= λ r.
    delete_at r.0 s.heap >>= λ heap. some (record s { heap = heap; items = r.1 })

-- `lookup_jid`
unfoldable pub lookup_key : Str → Str → Str
lookup_key jid node = if not (empty node) then jid ++ codes "::" ++ node else jid

-- The loop erases the entry of its iterator and then steps it.
unfoldable pub call_all : List ℕ → ℕ → Disco → Option Disco
call_all [] item s = some s
call_all (f ∷ fs) item s = none

unfoldable pub run_callbacks : Str → Option ℕ → Disco → Option Disco
unfolding emit equal_range call_all lookup_key
run_callbacks jid none s = none
run_callbacks jid (some item) s =
    let s1 = emit (cache_updated item) s in
    item_at item s1.heap >>= λ i.
    call_all (equal_range (lookup_key jid i.node) s1.callbacks) item s1

-- Where the answer's item is, a new one if nothing is cached for the JID.
unfoldable pub cached_item : Str → Str → Disco → Option (Option ℕ × Disco)
unfolding equal_range with_node insert_new
cached_item jid node s = elim (equal_range jid s.items) [
  | [] ↦ some (some (length s.heap), insert_new jid node [] s)
  | n ∷ ns ↦ with_node node (n ∷ ns) s.heap >>= λ item. some (item, s)
]
