-- ===== src/Tests/Agents.antt =====
-- Agents of src/jabberoox-agent.cc.
use jabberoo.Base.{[], ◌∷◌, codes, ◌≡◌, refl, ◌==◌}
use jabberoo.Judo.Tree.{tree, Node, node, nil, cons, node_cmp, node_get, attrib_value, equals}
use jabberoo.Agents.{load}
use jabberoo.Agents.Copies.{AllAgents, IsCopied, jids_of, load_lem}

abbrev query : Node
query = node (codes "query") ((codes "xmlns", codes "jabber:iq:agents") ∷ []) [] (
    cons
      (node (codes "agent") ((codes "jid", codes "icq.host") ∷ []) []
        (cons (node (codes "agents") [] [] nil) nil))
      (cons (node (codes "other") [] [] nil) nil))

load_lem_example :
    (jids_of (load tree query) ≡ codes "icq.host" ∷ [])
    × AllAgents (IsCopied tree) (load tree query)
unfolding node_cmp node_get attrib_value equals ◌==◌
load_lem_example = load_lem tree query refl
