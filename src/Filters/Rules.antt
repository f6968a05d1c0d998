-- ===== src/Filters/Rules.antt =====
-- Rules of src/jabberoox-filter.cc as elements: what toXML writes is the text of an element, and the
-- constructors read that element back.
use jabberoo.Base.{
  append_nil, append_assoc, Str, true, false, Option, none, some, List, [], ◌∷◌, ◌++◌, map, codes,
  ◌==◌, empty, ◌≡◌, refl, sym, ap, ◌∙◌, All,
}
use jabberoo.Judo.{Judo}
use jabberoo.Filters.{
  Action, Condition, Filter, action_name, condition_name, is_action, is_condition, read_children,
  filter_of_element, read_rules, filters_of_element,
}
use jabberoo.Filters.Texts.{
  translate-action_name, translate-condition_name, action_name-cases, condition_name-cases,
}

-- A rule with a name, whose actions and conditions are none of the two invalid ones.
abbrev pub IsRule : Filter → Type 0
IsRule f =
    (empty f.name ≡ false)
    × All (λ a. is_action a.value ≡ true) f.actions
    × All (λ c. is_condition c.value ≡ true) f.conditions

module _ (judo : Judo) where
  open judo use {
    Element, make, text_element, get_name, get_attrib, put_attrib, append_child, children,
    get_cdata, get_name-make, get_name-text_element, get_name-put_attrib, get_name-append_child,
    get_attrib-put_attrib_same, get_attrib-append_child, children-make, children-put_attrib,
    children-append_child, get_cdata-make, get_cdata-text_element, cmp_attrib,
    cmp_attrib-get_attrib,
  }

  abbrev pub append_all : Element → List Element → Element
  append_all e [] = e
  append_all e (c ∷ cs) = append_all (append_child e c) cs

  abbrev pub param_element : Option Str → Str → Element
  param_element none param = make []
  param_element (some name) [] = make name
  param_element (some name) (x ∷ param) = text_element name (x ∷ param)

  abbrev pub action_element : Action → Element
  action_element a = param_element (action_name a.value) a.param

  abbrev pub condition_element : Condition → Element
  condition_element c = param_element (condition_name c.value) c.param

  -- The element that a rule's text stands for.
  abbrev pub rule_element : Filter → Element
  rule_element f =
      append_all (put_attrib (make (codes "rule")) (codes "name") f.name)
        (map action_element f.actions ++ map condition_element f.conditions)

  abbrev pub query_element : List Filter → Element
  query_element fs =
      append_all (put_attrib (make (codes "query")) (codes "xmlns") (codes "jabber:iq:filter"))
        (map rule_element fs)

  children-append_all :
      (e : Element) (cs : List Element) → children (append_all e cs) ≡ children e ++ cs
  children-append_all e [] = sym (append_nil (children e))
  children-append_all e (c ∷ cs) =
      children-append_all (append_child e c) cs
      ∙ ap (λ xs. xs ++ cs) (children-append_child e c)
      ∙ append_assoc (children e) (c ∷ []) cs

  get_attrib-append_all :
      (e : Element) (cs : List Element) (k : Str) → get_attrib (append_all e cs) k ≡ get_attrib e k
  get_attrib-append_all e [] k = refl
  get_attrib-append_all e (c ∷ cs) k =
      get_attrib-append_all (append_child e c) cs k ∙ get_attrib-append_child e c k

  get_name-append_all : (e : Element) (cs : List Element) → get_name (append_all e cs) ≡ get_name e
  get_name-append_all e [] = refl
  get_name-append_all e (c ∷ cs) =
      get_name-append_all (append_child e c) cs ∙ get_name-append_child e c

  param_element_lem :
      (n p : Str)
      → (get_name (param_element (some n) p) ≡ n) × (get_cdata (param_element (some n) p) ≡ p)
  param_element_lem n [] = (get_name-make n, get_cdata-make n)
  param_element_lem n (x ∷ p) = (get_name-text_element n (x ∷ p), get_cdata-text_element n (x ∷ p))

  read_action :
      (a : Action) (ts : List Element) (f : Filter)
      → is_action a.value ≡ true
      → read_children judo (action_element a ∷ ts) f
        ≡ read_children judo ts (record f { actions = f.actions ++ a ∷ [] })
  unfolding read_children is_action is_condition
  read_action a ts f valid =
      let (n, named) = action_name-cases a.value valid in
      let (read, other) = translate-action_name a.value n named in
      let (name, text) = param_element_lem n a.param in
      rw (named, name, text, read, other, valid) refl

  read_condition :
      (c : Condition) (ts : List Element) (f : Filter)
      → is_condition c.value ≡ true
      → read_children judo (condition_element c ∷ ts) f
        ≡ read_children judo ts (record f { conditions = f.conditions ++ c ∷ [] })
  unfolding read_children is_action is_condition
  read_condition c ts f valid =
      let (n, named) = condition_name-cases c.value valid in
      let (read, other) = translate-condition_name c.value n named in
      let (name, text) = param_element_lem n c.param in
      rw (named, name, text, read, other, valid) refl

  read_conditions :
      (cs : List Condition) (f : Filter)
      → All (λ c. is_condition c.value ≡ true) cs
      → read_children judo (map condition_element cs) f
        ≡ record f { conditions = f.conditions ++ cs }
  unfolding read_children
  read_conditions [] f h = λ i. record f { conditions = sym (append_nil f.conditions) i }
  read_conditions (c ∷ cs) f (valid, h) =
      read_condition c (map condition_element cs) f valid
      ∙ read_conditions cs (record f { conditions = f.conditions ++ c ∷ [] }) h
      ∙ (λ i. record f { conditions = append_assoc f.conditions (c ∷ []) cs i })

  read_parts :
      (xs : List Action) (cs : List Condition) (f : Filter)
      → All (λ a. is_action a.value ≡ true) xs
      → All (λ c. is_condition c.value ≡ true) cs
      → read_children judo (map action_element xs ++ map condition_element cs) f
        ≡ record f { actions = f.actions ++ xs; conditions = f.conditions ++ cs }
  read_parts [] cs f h k =
      read_conditions cs f k
      ∙ (λ i. record f { actions = sym (append_nil f.actions) i; conditions = f.conditions ++ cs })
  read_parts (a ∷ xs) cs f (valid, h) k =
      read_action a (map action_element xs ++ map condition_element cs) f valid
      ∙ read_parts xs cs (record f { actions = f.actions ++ a ∷ [] }) h k
      ∙ (λ i. record f {
        actions = append_assoc f.actions (a ∷ []) xs i;
        conditions = f.conditions ++ cs;
      })

  -- The constructor of a rule reads back the rule from its element, in the order of its actions and
  -- conditions, where the rule has a name and no invalid action or condition.
  pub filter_of_element-rule_element :
      (f : Filter) → IsRule f → filter_of_element judo (rule_element f) ≡ f
  unfolding filter_of_element
  filter_of_element-rule_element f (named, valid_actions, valid_conditions) =
      let start = put_attrib (make (codes "rule")) (codes "name") f.name in
      let parts = map action_element f.actions ++ map condition_element f.conditions in
      let name =
        get_attrib-append_all start parts (codes "name")
        ∙ get_attrib-put_attrib_same (make (codes "rule")) (codes "name") f.name in
      let inside =
        children-append_all start parts
        ∙ ap (λ xs. xs ++ parts)
            (children-put_attrib (make (codes "rule")) (codes "name") f.name
              ∙ children-make (codes "rule")) in
      rw (name, inside, named)
        (read_parts f.actions f.conditions (record { name = f.name; actions = []; conditions = [] })
          valid_actions valid_conditions)

  read_rules-map : (fs : List Filter) → All IsRule fs → read_rules judo (map rule_element fs) ≡ fs
  unfolding read_rules ◌==◌
  read_rules-map [] h = refl
  read_rules-map (f ∷ fs) (w, h) =
      let start = put_attrib (make (codes "rule")) (codes "name") f.name in
      let name =
        get_name-append_all start
          (map action_element f.actions ++ map condition_element f.conditions)
        ∙ get_name-put_attrib (make (codes "rule")) (codes "name") f.name
        ∙ get_name-make (codes "rule") in
      rw name (λ i. filter_of_element-rule_element f w i ∷ read_rules-map fs h i)

  -- The constructor of a list of rules reads back the list from its element, in order, where each
  -- rule has a name and no invalid action or condition.
  pub filters_of_element-query_element :
      (fs : List Filter) → All IsRule fs → filters_of_element judo (query_element fs) ≡ fs
  unfolding filters_of_element ◌==◌
  filters_of_element-query_element fs h =
      let ns = codes "jabber:iq:filter" in
      let start = put_attrib (make (codes "query")) (codes "xmlns") ns in
      let parts = map rule_element fs in
      let same =
        cmp_attrib-get_attrib (query_element fs) (codes "xmlns") ns refl
        ∙ ap (λ v. v == ns)
            (get_attrib-append_all start parts (codes "xmlns")
              ∙ get_attrib-put_attrib_same (make (codes "query")) (codes "xmlns") ns) in
      let inside =
        children-append_all start parts
        ∙ ap (λ xs. xs ++ parts)
            (children-put_attrib (make (codes "query")) (codes "xmlns") ns
              ∙ children-make (codes "query")) in
      rw (same, inside) (read_rules-map fs h)
