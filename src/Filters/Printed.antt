-- ===== src/Filters/Printed.antt =====
-- The texts that toXML of src/jabberoox-filter.cc writes are the texts of the elements they stand for.
use jabberoo.Base.{
  append_assoc, Str, ℕ, true, some, List, [], ◌∷◌, ◌++◌, map, codes, ◌≡◌, refl, sym, ap, ◌∙◌,
  if◌then◌else◌, All, ◌||◌, not, Bool-cases, inl, inr,
}
use jabberoo.Judo.{Judo}
use jabberoo.Filters.{
  Action, Condition, Filter, is_action, is_condition, param_xml, action_xml, condition_xml,
  actions_xml, conditions_xml, filter_xml, all_filters_xml, filters_xml, null,
}
use jabberoo.Filters.Texts.{action_name-cases, condition_name-cases}
use jabberoo.Filters.Rules.{
  append_all, param_element, action_element, condition_element, rule_element, query_element, IsRule,
}

-- The texts of elements, one behind the other.
unfoldable pub concat : List Str → Str
concat [] = []
concat (s ∷ ss) = s ++ concat ss

-- How Element::toString of libjudo ends an element behind its attributes.
unfoldable pub closing : Str → List Str → Str
unfolding concat
closing name [] = codes "/>"
closing name (s ∷ ss) = codes ">" ++ (concat (s ∷ ss) ++ (codes "</" ++ (name ++ codes ">")))

-- libjudo prints an element with one section of text that is not empty, one without children or attributes, and one
-- with one attribute and child elements.
module _ (judo : Judo)
    (to_string-make : (n : Str) → judo.to_string (judo.make n) ≡ codes "<" ++ (n ++ codes "/>"))
    (to_string-text_element : (n : Str) (x : ℕ) (v : Str)
      → judo.to_string (judo.text_element n (x ∷ v))
        ≡ codes "<"
          ++ (n ++ (codes ">" ++ (judo.escape (x ∷ v) ++ (codes "</" ++ (n ++ codes ">"))))))
    (to_string-append_all : (n k v : Str) (cs : List judo.Element)
      → judo.to_string (append_all judo (judo.put_attrib (judo.make n) k v) cs)
        ≡ codes "<"
          ++ (n
              ++ (codes " "
                  ++ (k
                      ++ (codes "='"
                          ++ (judo.escape v
                              ++ (codes "'" ++ closing n (map judo.to_string cs)))))))) where
  open judo use {to_string, escape}

  param_xml_lem :
      (n p : Str) → param_xml judo (some n) p ≡ to_string (param_element judo (some n) p)
  unfolding param_xml
  param_xml_lem n [] = simp (append_assoc, to_string-make) refl
  param_xml_lem n (x ∷ p) = simp (append_assoc, to_string-text_element) refl

  -- A rule without invalid actions and conditions.
  actions_xml_lem :
      (xs : List Action)
      → All (λ a. is_action a.value ≡ true) xs
      → actions_xml judo xs ≡ concat (map to_string (map (action_element judo) xs))
  unfolding actions_xml action_xml concat
  actions_xml_lem [] h = refl
  actions_xml_lem (a ∷ xs) (valid, h) =
      let (n, named) = action_name-cases a.value valid in
      rw named (λ i. param_xml_lem n a.param i ++ actions_xml_lem xs h i)

  conditions_xml_lem :
      (cs : List Condition)
      → All (λ c. is_condition c.value ≡ true) cs
      → conditions_xml judo cs ≡ concat (map to_string (map (condition_element judo) cs))
  unfolding conditions_xml condition_xml concat
  conditions_xml_lem [] h = refl
  conditions_xml_lem (c ∷ cs) (valid, h) =
      let (n, named) = condition_name-cases c.value valid in
      rw named (λ i. param_xml_lem n c.param i ++ conditions_xml_lem cs h i)

  concat-append :
      (xs ys : List judo.Element)
      → concat (map to_string (xs ++ ys)) ≡ concat (map to_string xs) ++ concat (map to_string ys)
  unfolding concat
  concat-append [] ys = refl
  concat-append (x ∷ xs) ys =
      ap (λ s. to_string x ++ s) (concat-append xs ys)
      ∙ sym (append_assoc (to_string x) (concat (map to_string xs)) (concat (map to_string ys)))

  -- What stands behind the name of a rule.
  abbrev behind_name : List Action → List Condition → Str
  behind_name xs cs =
      if not (null xs) || not (null cs)
      then codes "'>" ++ (actions_xml judo xs ++ (conditions_xml judo cs ++ codes "</rule>"))
      else codes "'/>"

  behind_name_lem :
      (xs : List Action) (cs : List Condition)
      → All (λ a. is_action a.value ≡ true) xs
      → All (λ c. is_condition c.value ≡ true) cs
      → behind_name xs cs
        ≡ codes "'"
          ++ closing
              (codes "rule")
              (map to_string (map (action_element judo) xs ++ map (condition_element judo) cs))
  unfolding closing null actions_xml
  behind_name_lem [] [] h k = refl
  behind_name_lem [] (c ∷ cs) h k =
      ap (λ s. codes "'>" ++ (s ++ codes "</rule>")) (conditions_xml_lem (c ∷ cs) k)
  behind_name_lem (a ∷ xs) cs h k =
      let es = map (action_element judo) (a ∷ xs) in
      let ds = map (condition_element judo) cs in
      ap (λ s. codes "'>" ++ s)
        ((λ i. actions_xml_lem (a ∷ xs) h i ++ (conditions_xml_lem cs k i ++ codes "</rule>"))
          ∙ sym (
              append_assoc (concat (map to_string es)) (concat (map to_string ds))
                (codes "</rule>"))
          ∙ ap (λ s. s ++ codes "</rule>") (sym (concat-append es ds)))

  filter_xml-behind_name :
      (f : Filter)
      → filter_xml judo f ≡ codes "<rule name='" ++ (f.name ++ behind_name f.actions f.conditions)
  unfolding filter_xml
  filter_xml-behind_name f = elim (Bool-cases (not (null f.actions) || not (null f.conditions))) [
    | inl full ↦ rw full (simp append_assoc refl)
    | inr bare ↦ rw bare (simp append_assoc refl)
  ]

  -- The text of a rule is that of its element, where libjudo prints as the section says, the name
  -- is a text that escaping leaves as it is, and no action or condition is invalid.
  filter_xml-rule_element :
      (f : Filter)
      → IsRule f
      → escape f.name ≡ f.name
      → filter_xml judo f ≡ to_string (rule_element judo f)
  filter_xml-rule_element f (named, xs, cs) plain =
      let parts =
        map (action_element judo) f.actions ++ map (condition_element judo) f.conditions in
      filter_xml-behind_name f
      ∙ ap (λ s. codes "<rule name='" ++ (f.name ++ s))
          (behind_name_lem f.actions f.conditions xs cs)
      ∙ sym (
          to_string-append_all (codes "rule") (codes "name") f.name parts
          ∙ ap
              (λ n.
                codes "<rule name='"
                ++ (n ++ (codes "'" ++ closing (codes "rule") (map to_string parts))))
              plain)

  all_filters_xml_lem :
      (fs : List Filter)
      → All (λ f. IsRule f × (escape f.name ≡ f.name)) fs
      → all_filters_xml judo fs ≡ concat (map to_string (map (rule_element judo) fs))
  unfolding all_filters_xml concat
  all_filters_xml_lem [] h = refl
  all_filters_xml_lem (f ∷ fs) ((w, plain), h) =
      λ i. filter_xml-rule_element f w plain i ++ all_filters_xml_lem fs h i

  -- FilterList::toXML writes what libjudo prints for the element that the list of rules stands for,
  -- where each rule has a name that escaping leaves as it is and no invalid action or condition,
  -- escaping leaves the namespace as it is, and libjudo prints elements as documented.
  pub filters_xml-query_element :
      (fs : List Filter)
      → All (λ f. IsRule f × (escape f.name ≡ f.name)) fs
      → escape (codes "jabber:iq:filter") ≡ codes "jabber:iq:filter"
      → filters_xml judo fs ≡ to_string (query_element judo fs)
  unfolding filters_xml closing null
  filters_xml-query_element [] h plain = sym (
      to_string-append_all (codes "query") (codes "xmlns") (codes "jabber:iq:filter") []
      ∙ ap (λ n. codes "<query xmlns='" ++ (n ++ codes "'/>")) plain)
  filters_xml-query_element (f ∷ fs) h plain =
      let parts = map (rule_element judo) (f ∷ fs) in
      ap (λ s. codes "<query xmlns='jabber:iq:filter'>" ++ (s ++ codes "</query>"))
        (all_filters_xml_lem (f ∷ fs) h)
      ∙ sym (
          to_string-append_all (codes "query") (codes "xmlns") (codes "jabber:iq:filter") parts
          ∙ ap
              (λ n.
                codes "<query xmlns='"
                ++ (n ++ (codes "'" ++ closing (codes "query") (map to_string parts))))
              plain)
