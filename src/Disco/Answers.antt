-- ===== src/Disco/Answers.antt =====
-- What an answer to a query for information leaves in the cache (src/jabberoo-disco.cpp).
use jabberoo.Base.{
  append_nil, append_assoc, Str, Bool, false, Option, some, List, [], ◌∷◌, ◌++◌, ℕ, codes,
  if◌then◌else◌, ◌==◌, ==_iff, empty, length, ◌≡◌, refl, sym, ap, ◌∙◌, Bool-cases, inl, inr,
}
use jabberoo.Base.Map.{place}
use jabberoo.Judo.{Judo}
use jabberoo.Roster.Groups.{plain}
use jabberoo.Session.{Session}
use jabberoo.Disco.{
  Identity, Item, Disco, Slot, item_at, change_at, change, equal_range, insert_new, add_feature,
  add_identity, emit, cache_updated, run_callbacks, call_all, lookup_key, cached_item,
}
use jabberoo.Disco.Queries.{info_answered, read_info, through, node_of, query_children}

item_at-last :
    (heap : List (Option Item)) (i : Item) → item_at (length heap) (heap ++ some i ∷ []) ≡ some i
item_at-last [] i = refl
item_at-last (x ∷ heap) i = item_at-last heap i

change_at-last :
    (heap : List (Option Item)) (f : Item → Item) (i : Item)
    → change_at (length heap) f (heap ++ some i ∷ []) ≡ some (heap ++ some (f i) ∷ [])
unfolding change_at
change_at-last [] f i = refl
change_at-last (x ∷ heap) f i = rw (change_at-last heap f i) refl

module _ (judo : Judo) (check : ℕ → judo.Element → Bool) (number_of : Slot → ℕ) where
  open judo use {Element, get_name, get_attrib, cmp_attrib, find_element}

  -- The variables of the children named feature, where they are not empty.
  abbrev pub features_of : List Element → List Str
  features_of [] = []
  features_of (c ∷ cs) =
      let rest = features_of cs in
      if get_name c == codes "feature"
      then (if empty (get_attrib c (codes "var")) then rest else get_attrib c (codes "var") ∷ rest)
      else rest

  -- The categories and types of the children named identity.
  abbrev pub identities_of : List Element → List Identity
  identities_of [] = []
  identities_of (c ∷ cs) =
      let rest = identities_of cs in
      if get_name c == codes "identity"
      then (record {
        category = get_attrib c (codes "category");
        type = get_attrib c (codes "type");
      })
        ∷ rest
      else rest

  -- A state whose last object is the item given.
  abbrev with_last : Disco → List (Option Item) → Item → Disco
  with_last s heap i = record s { heap = heap ++ some i ∷ [] }

  change_last :
      (s : Disco) (heap : List (Option Item)) (f : Item → Item) (i : Item)
      → change (length heap) f (with_last s heap i) ≡ some (with_last s heap (f i))
  unfolding change
  change_last s heap f i = rw (change_at-last heap f i) refl

  read_info_last :
      (es : List Element) (s : Disco) (heap : List (Option Item)) (i : Item)
      → read_info judo check number_of es (some (length heap)) (with_last s heap i)
        ≡ some (
            with_last s heap (record i {
              features = i.features ++ features_of es;
              identities = i.identities ++ identities_of es;
            }))
  unfolding read_info through ◌==◌
  read_info_last [] s heap i = λ k. some (
      with_last s heap (record i {
        features = sym (append_nil i.features) k;
        identities = sym (append_nil i.identities) k;
      }))
  read_info_last (c ∷ es) s heap i =
      let var = get_attrib c (codes "var") in
      let known : Identity = record {
        category = get_attrib c (codes "category");
        type = get_attrib c (codes "type");
      } in
      elim (Bool-cases (get_name c == codes "feature")) [
        | inl feature ↦
            let other : (get_name c == codes "identity") ≡ false =
              ap (λ n. n == codes "identity") ((==_iff (get_name c) (codes "feature")).0 feature) in
            elim (Bool-cases (empty var)) [
              | inl bare ↦ rw (feature, other, bare) (read_info_last es s heap i)
              | inr full ↦
                  rw (feature, other, full, change_last s heap (add_feature var) i)
                    (read_info_last es s heap (add_feature var i) ∙ (λ k. some (
                      with_last s heap (record i {
                        features = append_assoc i.features (var ∷ []) (features_of es) k;
                        identities = i.identities ++ identities_of es;
                      }))))
            ]
        | inr other ↦ elim (Bool-cases (get_name c == codes "identity")) [
          | inl identity ↦
              rw (other, identity, change_last s heap (add_identity known.category known.type) i)
                (read_info_last es s heap (add_identity known.category known.type i) ∙ (λ k. some (
                  with_last s heap (record i {
                    features = i.features ++ features_of es;
                    identities = append_assoc i.identities (known ∷ []) (identities_of es) k;
                  }))))
          | inr neither ↦ rw (other, neither) (read_info_last es s heap i)
        ]
      ]

  -- A JID for which nothing is cached answers a query for information, and no callback waits for the
  -- JID and the node of the answer. Then one item is made and cached for the JID, with that node, with
  -- the features and the identities that the answer lists, in their order, and nothing else; the signal
  -- of an updated item is fired for it, and the rest of the cache and the session stay as they were.
  pub info_answered_lem :
      (e : Element) (session : Session judo) (s : Disco)
      → cmp_attrib e (codes "type") (codes "error") ≡ false
      → equal_range (get_attrib e (codes "from")) s.items ≡ []
      → equal_range
          (lookup_key
            (get_attrib e (codes "from"))
            (node_of judo check number_of (find_element e (codes "query"))))
          s.callbacks
        ≡ []
      → info_answered judo check number_of e (session, s)
        ≡ some (
          session,
          record s {
            heap =
                s.heap
                ++ some (record {
                  jid = get_attrib e (codes "from");
                  node = node_of judo check number_of (find_element e (codes "query"));
                  name = [];
                  children = [];
                  features =
                      features_of
                        (query_children judo check number_of (find_element e (codes "query")));
                  identities =
                      identities_of
                        (query_children judo check number_of (find_element e (codes "query")));
                })
                  ∷ [];
            items = place plain (get_attrib e (codes "from")) (length s.heap) s.items;
            events = cache_updated (length s.heap) ∷ s.events;
          },
        )
  unfolding info_answered cached_item insert_new run_callbacks emit call_all
  info_answered_lem e session s ok bare idle =
      let jid = get_attrib e (codes "from") in
      let query = find_element e (codes "query") in
      let node = node_of judo check number_of query in
      let es = query_children judo check number_of query in
      let blank : Item = record {
        jid = jid;
        node = node;
        name = [];
        children = [];
        features = [];
        identities = [];
      } in
      let full : Item = record blank { features = features_of es; identities = identities_of es } in
      let placed = record s { items = place plain jid (length s.heap) s.items } in
      let found : cached_item jid node s
          ≡ some (some (length s.heap), with_last placed s.heap blank) =
        rw (cached_item, bare) refl in
      rw (ok, found, read_info_last es placed s.heap blank, item_at-last s.heap full, idle) refl
