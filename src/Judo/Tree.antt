-- ===== src/Judo/Tree.antt =====
-- A libjudo that keeps its laws: elements as trees, with attributes in a list. It serves the
-- concrete inputs at which the theorems are applied.
use jabberoo.Base.{
  Str, Bool, false, Option, none, some, List, [], ◌∷◌, ◌++◌, ◌≡◌, refl, ap, find_if, ◌==◌, ==_refl,
  if◌then◌else◌, arith, empty, not, map_first, Bool-cases, inl, inr,
}
use jabberoo.Judo.{Judo}

mutual
  -- An element: its name, its attributes, its text, and its child elements.
  pub data Node : Type 0 where
    node : Str → List (Str × Str) → Str → Nodes → Node

  pub data Nodes : Type 0 where
    nil : Nodes
    cons : Node → Nodes → Nodes

abbrev pub node_name : Node → Str
node_name (node n a t c) = n

abbrev pub node_text : Node → Str
node_text (node n a t c) = t

abbrev pub to_list : Nodes → List Node
to_list nil = []
to_list (cons x r) = x ∷ to_list r

abbrev pub snoc : Nodes → Node → Nodes
snoc nil y = cons y nil
snoc (cons x r) y = cons x (snoc r y)

abbrev pub node_children : Node → List Node
node_children (node n a t c) = to_list c

unfoldable pub attrib_value : Str → List (Str × Str) → Option Str
unfolding ◌==◌
attrib_value k [] = none
attrib_value k ((j, v) ∷ a) = if j == k then some v else attrib_value k a

abbrev pub or_empty : Option Str → Str
or_empty none = []
or_empty (some v) = v

unfoldable pub node_get : Node → Str → Str
unfolding attrib_value
node_get (node n a t c) k = or_empty (attrib_value k a)

unfoldable pub node_put : Node → Str → Str → Node
node_put (node n a t c) k v = node n ((k, v) ∷ a) t c

unfoldable pub equals : Option Str → Str → Bool
unfolding ◌==◌
equals none v = false
equals (some w) v = w == v

unfoldable pub node_cmp : Node → Str → Str → Bool
unfolding attrib_value equals
node_cmp (node n a t c) k v = equals (attrib_value k a) v

unfoldable pub node_append : Node → Node → Node
node_append (node n a t c) x = node n a t (snoc c x)

unfoldable pub node_find : Node → Str → Option Node
unfolding find_if ◌==◌
node_find e n = find_if (λ c. node_name c == n) (node_children e)

unfoldable pub node_child_text : Node → Str → Str
unfolding node_find
node_child_text e n = elim (node_find e n) [ none ↦ [] | some c ↦ node_text c ]

to_list-snoc : (c : Nodes) (x : Node) → to_list (snoc c x) ≡ to_list c ++ (x ∷ [])
to_list-snoc nil x = refl
to_list-snoc (cons y r) x = ap (◌∷◌ y) (to_list-snoc r x)

pub node_name-put : (e : Node) (k v : Str) → node_name (node_put e k v) ≡ node_name e
unfolding node_put
node_name-put (node n a t c) k v = refl

pub node_name-append : (e x : Node) → node_name (node_append e x) ≡ node_name e
unfolding node_append
node_name-append (node n a t c) x = refl

pub node_get-put_same : (e : Node) (k v : Str) → node_get (node_put e k v) k ≡ v
unfolding node_get node_put attrib_value
node_get-put_same (node n a t c) k v = ground (arith, ==_refl k)

pub node_get-put_other :
    (e : Node) (k j v : Str) → (k == j) ≡ false → node_get (node_put e k v) j ≡ node_get e j
unfolding node_get node_put attrib_value
node_get-put_other (node n a t c) k j v h = ground arith

pub node_get-append : (e x : Node) (k : Str) → node_get (node_append e x) k ≡ node_get e k
unfolding node_get node_append
node_get-append (node n a t c) x k = refl

equals-or_empty : (o : Option Str) (v : Str) → empty v ≡ false → equals o v ≡ (or_empty o == v)
unfolding equals ◌==◌
equals-or_empty none [] h = cc
equals-or_empty none (x ∷ v) h = refl
equals-or_empty (some w) v h = refl

pub node_cmp-get : (e : Node) (k v : Str) → empty v ≡ false → node_cmp e k v ≡ (node_get e k == v)
unfolding node_get node_cmp
node_cmp-get (node n a t c) k v h = equals-or_empty (attrib_value k a) v h

pub node_children-put : (e : Node) (k v : Str) → node_children (node_put e k v) ≡ node_children e
unfolding node_put
node_children-put (node n a t c) k v = refl

pub node_children-append :
    (e x : Node) → node_children (node_append e x) ≡ node_children e ++ (x ∷ [])
unfolding node_append
node_children-append (node n a t c) x = to_list-snoc c x

pub node_find_lem :
    (e : Node) (n : Str) → node_find e n ≡ find_if (λ c. node_name c == n) (node_children e)
unfolding node_find
node_find_lem e n = refl

pub node_child_text_lem :
    (e : Node) (n : Str)
    → node_child_text e n ≡ elim (node_find e n) [ none ↦ [] | some c ↦ node_text c ]
unfolding node_child_text
node_child_text_lem e n = refl

pub node_get-make : (n k : Str) → node_get (node n [] [] nil) k ≡ []
unfolding node_get attrib_value
node_get-make n k = refl

abbrev pub node_has_text : Node → Bool
node_has_text (node n a t c) = not (empty t)

unfoldable pub node_set_texts : Node → Str → Node
node_set_texts (node n a t c) v = if empty t then node n a t c else node n a v c

abbrev pub update_nodes : (Node → Bool) → (Node → Node) → Nodes → Nodes
update_nodes p f nil = nil
update_nodes p f (cons x r) =
    let rest = update_nodes p f r in if p x then cons (f x) r else cons x rest

unfoldable pub node_update : (Node → Bool) → (Node → Node) → Node → Node
node_update p f (node n a t c) = node n a t (update_nodes p f c)

pub node_name-set_texts : (e : Node) (v : Str) → node_name (node_set_texts e v) ≡ node_name e
unfolding node_set_texts
node_name-set_texts (node n a [] c) v = refl
node_name-set_texts (node n a (x ∷ t) c) v = refl

pub node_text-set_texts :
    (e : Node) (v : Str)
    → node_text (node_set_texts e v) ≡ (if node_has_text e then v else node_text e)
unfolding node_set_texts
node_text-set_texts (node n a [] c) v = refl
node_text-set_texts (node n a (x ∷ t) c) v = refl

to_list-update :
    (p : Node → Bool) (f : Node → Node) (c : Nodes)
    → to_list (update_nodes p f c) ≡ map_first p f (to_list c)
to_list-update p f nil = refl
to_list-update p f (cons x r) = elim (Bool-cases (p x)) [
  | inl hit ↦ rw hit refl
  | inr miss ↦ rw miss (ap (◌∷◌ x) (to_list-update p f r))
]

pub node_children-update :
    (p : Node → Bool) (f : Node → Node) (e : Node)
    → node_children (node_update p f e) ≡ map_first p f (node_children e)
unfolding node_update
node_children-update p f (node n a t c) = to_list-update p f c

pub node_get-update :
    (p : Node → Bool) (f : Node → Node) (e : Node) (k : Str)
    → node_get (node_update p f e) k ≡ node_get e k
unfolding node_update node_get
node_get-update p f (node n a t c) k = refl

pub node_get-text : (n v k : Str) → node_get (node n [] v nil) k ≡ []
unfolding node_get attrib_value
node_get-text n v k = refl

abbrev pub tree : Judo
tree = record {
  Element = Node;
  make = λ n. node n [] [] nil;
  text_element = λ n v. node n [] v nil;
  get_name = node_name;
  get_attrib = node_get;
  put_attrib = node_put;
  cmp_attrib = node_cmp;
  append_child = node_append;
  children = node_children;
  find_element = node_find;
  get_cdata = node_text;
  get_child_cdata = node_child_text;
  to_string = node_name;
  escape = λ s. s;
  has_cdata = node_has_text;
  set_texts = node_set_texts;
  update_first = node_update;
  has_cdata-make = λ n. refl;
  has_cdata-text_element = λ n x v. refl;
  get_name-set_texts = node_name-set_texts;
  get_cdata-set_texts = node_text-set_texts;
  children-update_first = node_children-update;
  get_attrib-update_first = node_get-update;
  get_name-make = λ n. refl;
  get_name-text_element = λ n v. refl;
  get_name-put_attrib = node_name-put;
  get_name-append_child = node_name-append;
  get_attrib-make = node_get-make;
  get_attrib-text_element = node_get-text;
  get_attrib-put_attrib_same = node_get-put_same;
  get_attrib-put_attrib_other = node_get-put_other;
  get_attrib-append_child = node_get-append;
  cmp_attrib-get_attrib = node_cmp-get;
  children-make = λ n. refl;
  children-put_attrib = node_children-put;
  children-append_child = node_children-append;
  get_cdata-make = λ n. refl;
  get_cdata-text_element = λ n v. refl;
  find_element-children = node_find_lem;
  get_child_cdata-find_element = node_child_text_lem;
}
