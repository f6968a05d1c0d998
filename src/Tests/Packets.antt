-- ===== src/Tests/Packets.antt =====
-- The theorems on src/jabberoo-packet.cc and src/jabberoo-presence.cc at concrete packets.
use jabberoo.Base.{codes, [], ◌∷◌}
use jabberoo.Judo.Tree.{Node, node, nil}

abbrev packet : Node
packet = node (codes "message") [] [] nil

abbrev extension : Node
extension = node (codes "x") ((codes "xmlns", codes "jabber:x:oob") ∷ []) [] nil
