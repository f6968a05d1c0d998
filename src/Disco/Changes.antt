-- ===== src/Disco/Changes.antt =====
-- The loops over an answer's children, in src/jabberoo-disco.cpp, and what they keep of the cache: every
-- item with its JID, and the soundness of the pointers.
use jabberoo.Base.{
  Str, Bool, Option, none, some, List, [], ◌∷◌, ℕ, ◌≡◌, refl, codes, empty, not, length,
  if◌then◌else◌, ◌==◌,
}
use jabberoo.Base.Holds.{◌>>=◌, Holds, Holds-bind, Holds-if, Holds-elim, Holds-last}
use jabberoo.Judo.{Judo}
use jabberoo.Disco.{
  Item, Disco, Slot, item_at, change, find, equal_range, with_node, insert_new, append_child,
  add_feature, add_identity, cached_item, run_callbacks, call_all, emit, lookup_key,
}
use jabberoo.Disco.Queries.{
  through, read_info, read_items, browsed_item, add_namespaces, read_browsed,
}
use jabberoo.Disco.Sound.{Extends, Extends-refl, Extends-bind, change-Extends, insert_new-Extends}

-- The same for operations that give more than the state.
abbrev pub ExtendsTo {ℓ} : {A : Type ℓ} → Disco → A × Disco → Type 0
ExtendsTo s (a, t) = Extends s t

pub cached_item-Extends :
    (jid node : Str) (s : Disco) → Holds (ExtendsTo s) (cached_item jid node s)
unfolding cached_item
cached_item-Extends jid node s =
    elim (equal_range jid s.items)
      as (λ ns. Holds (ExtendsTo s) (elim ns [
        | [] ↦ some (some (length s.heap), insert_new jid node [] s)
        | n ∷ ns ↦ with_node node (n ∷ ns) s.heap >>= λ item. some (item, s)
      ])) [
        | [] ↦ insert_new-Extends jid node [] s
        | n ∷ ns ↦
            Holds-last (ExtendsTo s) (with_node node (n ∷ ns) s.heap) (λ item. some (item, s))
              (λ o. Extends-refl s)
      ]

call_all-Extends : (fs : List ℕ) (item : ℕ) (s : Disco) → Holds (Extends s) (call_all fs item s)
unfolding call_all
call_all-Extends [] item s = Extends-refl s
call_all-Extends (f ∷ fs) item s = tt

pub run_callbacks-Extends :
    (jid : Str) (item : Option ℕ) (s : Disco) → Holds (Extends s) (run_callbacks jid item s)
unfolding run_callbacks emit
run_callbacks-Extends jid none s = tt
run_callbacks-Extends jid (some item) s =
    Holds-last (Extends s) (item_at item s.heap) _
      (λ i. call_all-Extends (equal_range (lookup_key jid i.node) s.callbacks) item (emit _ s))

-- A change of the node, the lists or the name of an item.
module _ (judo : Judo) (check : ℕ → judo.Element → Bool) (number_of : Slot → ℕ) where
  open judo use {Element, get_name, get_attrib, children, get_cdata}

  through-Extends :
      (o : Option ℕ) (f : Item → Item) (s : Disco)
      → ((i : Item) → (f i).jid ≡ i.jid)
      → Holds (Extends s) (through judo check number_of o f s)
  unfolding through
  through-Extends none f s same = tt
  through-Extends (some n) f s same = change-Extends n f s same

  pub read_info-Extends :
      (es : List Element) (item : Option ℕ) (s : Disco)
      → Holds (Extends s) (read_info judo check number_of es item s)
  unfolding read_info
  read_info-Extends [] item s = Extends-refl s
  read_info-Extends (c ∷ es) item s =
      Extends-bind s _ (read_info judo check number_of es item)
        (Holds-if (Extends s) (get_name c == codes "feature") _ _
          (Holds-if (Extends s) (not (empty (get_attrib c (codes "var")))) _ _
            (through-Extends item (add_feature (get_attrib c (codes "var"))) s (λ i. refl))
            (Extends-refl s))
          (Holds-if (Extends s) (get_name c == codes "identity") _ _
            (through-Extends item
              (add_identity (get_attrib c (codes "category")) (get_attrib c (codes "type"))) s
              (λ i. refl))
            (Extends-refl s)))
        (read_info-Extends es item)

  pub read_items-Extends :
      (es : List Element) (item : Option ℕ) (s : Disco)
      → Holds (Extends s) (read_items judo check number_of es item s)
  unfolding read_items
  read_items-Extends [] item s = Extends-refl s
  read_items-Extends (c ∷ es) item s =
      let cjid = get_attrib c (codes "jid") in
      let made = insert_new cjid (get_attrib c (codes "node")) (get_attrib c (codes "name")) s in
      Extends-bind s _ (read_items judo check number_of es item)
        (Holds-if (Extends s) (get_name c == codes "item") _ _
          (Holds-elim (Extends s) (find cjid s.items) _ (λ child. some s)
            (Extends-bind s (some made) _
              (insert_new-Extends cjid (get_attrib c (codes "node")) (get_attrib c (codes "name"))
                s)
              (λ t. through-Extends item (append_child (length s.heap)) t (λ i. refl)))
            (λ child. Extends-refl s))
          (Extends-refl s))
        (read_items-Extends es item)

  add_namespaces-Extends :
      (es : List Element) (n : ℕ) (s : Disco)
      → Holds (Extends s) (add_namespaces judo check number_of es n s)
  unfolding add_namespaces
  add_namespaces-Extends [] n s = Extends-refl s
  add_namespaces-Extends (c ∷ es) n s =
      Extends-bind s _ (add_namespaces judo check number_of es n)
        (Holds-if (Extends s) (get_name c == codes "ns") _ _
          (change-Extends n (add_feature (get_cdata c)) s (λ i. refl)) (Extends-refl s))
        (add_namespaces-Extends es n)

  browsed_item-Extends :
      (c : Element) (item : ℕ) (s : Disco)
      → Holds (ExtendsTo s) (browsed_item judo check number_of c item s)
  unfolding browsed_item
  browsed_item-Extends c item s =
      let cjid = get_attrib c (codes "jid") in
      let made = insert_new cjid [] (get_attrib c (codes "name")) s in
      Holds-elim (ExtendsTo s) (find cjid s.items) _ (λ citem. some (citem, s))
        (Holds-bind (Extends s) (ExtendsTo s) (change item (append_child (length s.heap)) made) _
          (Extends-bind s (some made) _ (insert_new-Extends cjid [] (get_attrib c (codes "name")) s)
            (λ t. change-Extends item (append_child (length s.heap)) t (λ i. refl)))
          (λ t h. h))
        (λ citem. Extends-refl s)

  -- What the loop of browseCB does with the item of a child.
  abbrev adopt : Element → ℕ → ℕ → Disco → Option Disco
  adopt c item n s = change item (append_child n) s >>= λ s2. item_at n s2.heap >>= λ citem.
      change n
        (add_identity
          (if empty (get_attrib c (codes "category"))
            then citem.name
            else get_attrib c (codes "category"))
          (get_attrib c (codes "type")))
        s2
      >>= add_namespaces judo check number_of (children c) n

  adopt-Extends : (c : Element) (item n : ℕ) (s : Disco) → Holds (Extends s) (adopt c item n s)
  unfolding append_child add_identity
  adopt-Extends c item n s =
      Extends-bind s (change item (append_child n) s) _
        (change-Extends item (append_child n) s (λ i. refl))
        (λ s2. Holds-last (Extends s2) (item_at n s2.heap) _ (λ citem.
          Extends-bind s2 _ (add_namespaces judo check number_of (children c) n)
            (change-Extends n
              (add_identity
                (if empty (get_attrib c (codes "category"))
                  then citem.name
                  else get_attrib c (codes "category"))
                (get_attrib c (codes "type")))
              s2 (λ i. refl))
            (add_namespaces-Extends (children c) n)))

  pub read_browsed-Extends :
      (es : List Element) (item : ℕ) (s : Disco)
      → Holds (Extends s) (read_browsed judo check number_of es item s)
  unfolding read_browsed
  read_browsed-Extends [] item s = Extends-refl s
  read_browsed-Extends (c ∷ es) item s =
      Extends-bind s _ (read_browsed judo check number_of es item)
        (Holds-if (Extends s) (get_name c == codes "ns") _ _
          (change-Extends item (add_feature (get_cdata c)) s (λ i. refl))
          (Holds-if (Extends s) (empty (get_attrib c (codes "jid"))) _ _ (Extends-refl s) (
            Holds-bind (ExtendsTo s) (Extends s) (browsed_item judo check number_of c item s) _
              (browsed_item-Extends c item s)
              (λ made e.
                Extends-bind s (some made.1) (adopt c item made.0) e
                  (adopt-Extends c item made.0)))))
        (read_browsed-Extends es item)
