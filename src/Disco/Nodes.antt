-- ===== src/Disco/Nodes.antt =====
-- Where the cache of src/jabberoo-disco.cpp fails.
use jabberoo.Base.{
  Str, Bool, false, Option, All, none, some, List, [], ◌∷◌, ℕ, codes, ◌==◌, ==_refl, ◌≡◌, refl, ap,
  Option-cases, Bool-cases, inl, inr, is_lt, str_compare,
}
use jabberoo.Base.Map.{place}
use jabberoo.Judo.{Judo}
use jabberoo.Roster.Groups.{plain}
use jabberoo.Session.{Session}
use jabberoo.Disco.{
  Item, Disco, Slot, item_at, equal_range, with_node, run_callbacks, call_all, lookup_key,
  cached_item, emit,
}
use jabberoo.Disco.Queries.{
  cache, info_answered, items_answered, read_info, read_items, node_of, query_children,
}

-- A value that was placed is in the range of its key.
equal_range-place :
    (k : Str) (v : ℕ) (m : List (Str × ℕ))
    → (w : ℕ) × (ws : List ℕ) × (equal_range k (place plain k v m) ≡ w ∷ ws)
unfolding equal_range place
equal_range-place k v [] = (v, [], rw (==_refl k) refl)
equal_range-place k v ((j, w) ∷ m) =
    let (x, xs, found) = equal_range-place k v m in
    elim (Bool-cases (is_lt (str_compare (plain k) (plain j)))) [
      | inl front ↦ rw front (v, equal_range k ((j, w) ∷ m), rw (==_refl k) refl)
      | inr behind ↦ elim (Bool-cases (j == k)) [
        | inl same ↦ rw (behind, same) (w, x ∷ xs, ap (λ r. w ∷ r) found)
        | inr other ↦ rw (behind, other) (x, xs, found)
      ]
    ]

-- The item at the address is there and has another node.
abbrev pub IsOther : Str → List (Option Item) → ℕ → Type 0
IsOther node heap n = (i : Item) × (item_at n heap ≡ some i) × ((i.node == node) ≡ false)

-- The search reads every item of the range and ends with the null pointer.
with_node-IsOther :
    (node : Str) (ns : List ℕ) (heap : List (Option Item))
    → All (IsOther node heap) ns
    → with_node node ns heap ≡ some none
unfolding with_node
with_node-IsOther node [] heap others = refl
with_node-IsOther node (n ∷ ns) heap ((i, there, other), others) =
    rw (there, other) (with_node-IsOther node ns heap others)

module _ (judo : Judo) (check : ℕ → judo.Element → Bool) (number_of : Slot → ℕ) where
  open judo use {Element, get_attrib, cmp_attrib, find_element}

  -- Once a client asked for a JID with a callback, telling it of that JID's item without a node is
  -- undefined: the loop over the callbacks erases an entry and steps the iterator that stood on it.
  pub run_callbacks-cache :
      (jid : Str) (f : ℕ) (get_items : Bool) (session : Session judo) (s : Disco) (n : ℕ) (i : Item)
      → item_at n s.heap ≡ some i
      → i.node ≡ []
      → run_callbacks jid (some n) (cache judo check number_of jid f get_items (session, s)).1
        ≡ none
  unfolding run_callbacks cache lookup_key emit call_all
  run_callbacks-cache jid f get_items session s n i there bare =
      let (w, ws, found) = equal_range-place jid f s.callbacks in rw (there, bare, found) refl

  -- An answer that is no error comes for a JID for which items are cached, and each of these exists and
  -- has another node than the answer's query, whose node is the empty one if there is no query. Then the
  -- answer, to a query for information or for items, is undefined: no item is made for the new node, as
  -- it is for a JID without items, and the null pointer is used.
  pub answered_other_node :
      (e : Element) (session : Session judo) (s : Disco) (n : ℕ) (ns : List ℕ)
      → cmp_attrib e (codes "type") (codes "error") ≡ false
      → equal_range (get_attrib e (codes "from")) s.items ≡ n ∷ ns
      → All
          (IsOther (node_of judo check number_of (find_element e (codes "query"))) s.heap)
          (n ∷ ns)
      → (info_answered judo check number_of e (session, s) ≡ none)
        × (items_answered judo check number_of e (session, s) ≡ none)
  unfolding info_answered items_answered cached_item run_callbacks
  answered_other_node e session s n ns ok cached others =
      let es = query_children judo check number_of (find_element e (codes "query")) in
      let jid = get_attrib e (codes "from") in
      let node = node_of judo check number_of (find_element e (codes "query")) in
      let searched = with_node-IsOther node (n ∷ ns) s.heap others in
      let null : cached_item jid node s ≡ some (none, s) =
        rw (cached_item, cached, searched) refl in
      (
        elim (Option-cases (read_info judo check number_of es none s)) [
          | inl failed ↦ rw (ok, null, failed) refl
          | inr (s1, went) ↦ rw (ok, null, went) refl
        ],
        elim (Option-cases (read_items judo check number_of es none s)) [
          | inl failed ↦ rw (ok, null, failed) refl
          | inr (s1, went) ↦ rw (ok, null, went) refl
        ],
      )
