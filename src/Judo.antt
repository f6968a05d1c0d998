-- ===== src/Judo.antt =====
-- The library libjudo (libjudo/src/Element.cpp), which parses and prints XML, as a parameter: the
-- operations of `judo::Element` that the code calls, with their documented behaviour. An Element is
-- a value here: `addElement` followed by changes of the new child is `append_child` of the finished
-- child, and `children` are the child nodes whose type is ntElement, in order.
pub mod Laws
pub mod Tree
use jabberoo.Base.{
  Str, Bool, true, false, Option, none, some, List, [], ◌∷◌, ◌++◌, ◌≡◌, find_if, ◌==◌, empty,
  map_first, if◌then◌else◌, ℕ,
}

pub record Judo : Type 1 where
  pub Element : Type 0
  -- Element(name)
  pub make : Str → Element
  -- an element with one section of text, as addElement(name, value) adds it
  pub text_element : Str → Str → Element
  pub get_name : Element → Str
  pub get_attrib : Element → Str → Str
  pub put_attrib : Element → Str → Str → Element
  pub cmp_attrib : Element → Str → Str → Bool
  pub append_child : Element → Element → Element
  pub children : Element → List Element
  pub find_element : Element → Str → Option Element
  pub get_cdata : Element → Str
  pub get_child_cdata : Element → Str → Str
  pub to_string : Element → Str
  pub escape : Str → Str
  -- an element with a section of text
  pub has_cdata : Element → Bool
  -- setText on every section of text of the element
  pub set_texts : Element → Str → Element
  -- a change through the pointer to the first child element that passes the test
  pub update_first : (Element → Bool) → (Element → Element) → Element → Element
  pub get_name-make : (n : Str) → get_name (make n) ≡ n
  pub get_name-text_element : (n v : Str) → get_name (text_element n v) ≡ n
  pub get_name-put_attrib : (e : Element) (k v : Str) → get_name (put_attrib e k v) ≡ get_name e
  pub get_name-append_child : (e c : Element) → get_name (append_child e c) ≡ get_name e
  pub get_attrib-make : (n k : Str) → get_attrib (make n) k ≡ []
  pub get_attrib-text_element : (n v k : Str) → get_attrib (text_element n v) k ≡ []
  pub get_attrib-put_attrib_same : (e : Element) (k v : Str) → get_attrib (put_attrib e k v) k ≡ v
  pub get_attrib-put_attrib_other :
      (e : Element) (k j v : Str)
      → (k == j) ≡ false
      → get_attrib (put_attrib e k v) j ≡ get_attrib e j
  pub get_attrib-append_child :
      (e c : Element) (k : Str) → get_attrib (append_child e c) k ≡ get_attrib e k
  -- A missing attribute reads as "" and equals no value.
  pub cmp_attrib-get_attrib :
      (e : Element) (k v : Str) → empty v ≡ false → cmp_attrib e k v ≡ (get_attrib e k == v)
  pub children-make : (n : Str) → children (make n) ≡ []
  pub children-put_attrib : (e : Element) (k v : Str) → children (put_attrib e k v) ≡ children e
  pub children-append_child : (e c : Element) → children (append_child e c) ≡ children e ++ (c ∷ [])
  pub get_cdata-make : (n : Str) → get_cdata (make n) ≡ []
  pub get_cdata-text_element : (n v : Str) → get_cdata (text_element n v) ≡ v
  pub find_element-children :
      (e : Element) (n : Str) → find_element e n ≡ find_if (λ c. get_name c == n) (children e)
  pub get_child_cdata-find_element :
      (e : Element) (n : Str)
      → get_child_cdata e n ≡ elim (find_element e n) [ none ↦ [] | some c ↦ get_cdata c ]
  pub has_cdata-make : (n : Str) → has_cdata (make n) ≡ false
  pub has_cdata-text_element :
      (n : Str) (x : ℕ) (v : Str) → has_cdata (text_element n (x ∷ v)) ≡ true
  pub get_name-set_texts : (e : Element) (v : Str) → get_name (set_texts e v) ≡ get_name e
  pub get_cdata-set_texts :
      (e : Element) (v : Str) → get_cdata (set_texts e v) ≡ (if has_cdata e then v else get_cdata e)
  pub children-update_first :
      (p : Element → Bool) (f : Element → Element) (e : Element)
      → children (update_first p f e) ≡ map_first p f (children e)
  pub get_attrib-update_first :
      (p : Element → Bool) (f : Element → Element) (e : Element) (k : Str)
      → get_attrib (update_first p f e) k ≡ get_attrib e k
