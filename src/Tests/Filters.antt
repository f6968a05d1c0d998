-- ===== src/Tests/Filters.antt =====
-- Rules of src/jabberoox-filter.cc, and a libjudo that prints its elements.
use jabberoo.Base.{
  append_nil, append_assoc, Str, ℕ, List, [], ◌∷◌, ◌++◌, map, codes, ◌≡◌, refl, sym, ap, ◌∙◌,
}
use jabberoo.Judo.{Judo}
use jabberoo.Judo.Tree.{tree, Node, Nodes, node, nil, cons, snoc, node_append, node_put}
use jabberoo.Filters.{
  Filter, forward_to, continue, unavailable, from, filters_of_element, filters_xml, filter_xml,
  is_action, is_condition,
}
use jabberoo.Filters.Rules.{append_all, IsRule, query_element, filters_of_element-query_element}
use jabberoo.Filters.Printed.{closing, concat, filters_xml-query_element}

unfoldable print_attribs : List (Str × Str) → Str
print_attribs [] = []
print_attribs ((k, v) ∷ a) =
    codes " " ++ (k ++ (codes "='" ++ (v ++ (codes "'" ++ print_attribs a))))

unfoldable text_nodes : Str → List Str
text_nodes [] = []
text_nodes (x ∷ s) = (x ∷ s) ∷ []

unfoldable mutual
  unfolding print_attribs text_nodes closing concat

  print_node : Node → Str
  print_node (node n a t c) =
      codes "<" ++ (n ++ (print_attribs a ++ closing n (text_nodes t ++ print_nodes c)))

  print_nodes : Nodes → List Str
  print_nodes nil = []
  print_nodes (cons x r) = print_node x ∷ print_nodes r

abbrev printer : Judo
printer = record tree { to_string = print_node }

print_nodes-snoc :
    (c : Nodes) (x : Node) → print_nodes (snoc c x) ≡ print_nodes c ++ (print_node x ∷ [])
unfolding print_nodes
print_nodes-snoc nil x = refl
print_nodes-snoc (cons y r) x = ap (λ ss. print_node y ∷ ss) (print_nodes-snoc r x)

print_append_all :
    (n : Str) (a : List (Str × Str)) (c : Nodes) (cs : List Node)
    → print_node (append_all printer (node n a [] c) cs)
      ≡ codes "<" ++ (n ++ (print_attribs a ++ closing n (print_nodes c ++ map print_node cs)))
unfolding print_node text_nodes node_append
print_append_all n a c [] =
    ap (λ ss. codes "<" ++ (n ++ (print_attribs a ++ closing n ss)))
      (sym (append_nil (print_nodes c)))
print_append_all n a c (x ∷ cs) =
    print_append_all n a (snoc c x) cs
    ∙ ap (λ ss. codes "<" ++ (n ++ (print_attribs a ++ closing n ss)))
        (ap (λ ss. ss ++ map print_node cs) (print_nodes-snoc c x)
          ∙ append_assoc (print_nodes c) (print_node x ∷ []) (map print_node cs))

print_make : (n : Str) → print_node (node n [] [] nil) ≡ codes "<" ++ (n ++ codes "/>")
unfolding print_node
print_make n = refl

print_text :
    (n : Str) (x : ℕ) (v : Str)
    → print_node (node n [] (x ∷ v) nil)
      ≡ codes "<" ++ (n ++ (codes ">" ++ ((x ∷ v) ++ (codes "</" ++ (n ++ codes ">")))))
unfolding print_node
print_text n x v = simp append_nil refl

print_element :
    (n k v : Str) (cs : List Node)
    → print_node (append_all printer (printer.put_attrib (printer.make n) k v) cs)
      ≡ codes "<"
        ++ (n
            ++ (codes " "
                ++ (k ++ (codes "='" ++ (v ++ (codes "'" ++ closing n (map print_node cs)))))))
unfolding print_node print_attribs node_put
print_element n k v cs = print_append_all n ((k, v) ∷ []) nil cs ∙ simp append_assoc refl

abbrev rule : Filter
rule = record {
  name = codes "home";
  actions =
      (record { value = forward_to; param = codes "a@b" })
      ∷ (record { value = continue; param = [] })
      ∷ [];
  conditions =
      (record { value = unavailable; param = [] })
      ∷ (record { value = from; param = codes "c@d" })
      ∷ [];
}

rule-IsRule : IsRule rule
unfolding is_action is_condition
rule-IsRule = (refl, (refl, (refl, tt)), (refl, (refl, tt)))

filters_of_element-query_element_example :
    filters_of_element tree (query_element tree (rule ∷ [])) ≡ rule ∷ []
filters_of_element-query_element_example =
    filters_of_element-query_element tree (rule ∷ []) (rule-IsRule, tt)

-- The text of that rule.
text_of_rule :
    filter_xml tree rule
    ≡ codes
        "<rule name='home'><forward>a@b</forward><continue/><unavailable/><from>c@d</from></rule>"
unfolding filter_xml
text_of_rule = refl

filters_xml-query_element_example :
    filters_xml printer (rule ∷ []) ≡ print_node (query_element printer (rule ∷ []))
filters_xml-query_element_example =
    filters_xml-query_element printer print_make print_text print_element (rule ∷ [])
      ((rule-IsRule, refl), tt) refl
