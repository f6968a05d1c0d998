-- ===== src/Tests/Components.antt =====
-- The theorems on src/jabberoo-component-session.cpp at concrete components.
use jabberoo.Base.{
  ℕ, Bool, true, false, none, some, [], ◌∷◌, codes, ◌≡◌, refl, arith, c_str, inr, ◌==◌, any,
}
use jabberoo.Judo.Tree.{tree, Node, node, nil, node_get, attrib_value}
use jabberoo.Session.{◌>>=◌}
use jabberoo.Sha.{shahash, strprintsha}
use jabberoo.Sha.Digest.{standard_digest}
use jabberoo.Component.{
  ComponentSession, connected, initial, connect, push, on_element, register_xpath, unregister_xpath,
  destroy, document_start, element, called, connected_signal, transmit_xml, has, callback_of,
}
use jabberoo.Component.Login.{connect-push_connected}
use jabberoo.Component.Queries.{on_element-calls, unregister_xpath_last}

abbrev check : ℕ → Node → Bool
check q e = true

abbrev header : Node
header = node (codes "stream:stream") ((codes "id", codes "3F") ∷ []) [] nil

abbrev handshake : Node
handshake = node (codes "handshake") [] [] nil

abbrev message : Node
message = node (codes "message") [] [] nil

abbrev two_queries : ComponentSession tree
two_queries = register_xpath tree 2 20 (register_xpath tree 1 10 (initial tree))

connect-push_connected_example :
    (connect tree (codes "host") (codes "chat") (codes "key") (initial tree)
      >>= push tree shahash check (document_start header ∷ element handshake ∷ []) false)
    ≡ some (record (initial tree) {
      server = codes "host";
      component_id = codes "chat";
      password = codes "key";
      session_id = codes "3F";
      conn_state = connected;
      events =
          connected_signal
          ∷ transmit_xml (codes "</handshake>")
          ∷ transmit_xml (strprintsha (standard_digest (codes "3Fkey")))
          ∷ transmit_xml (codes "<handshake>")
          ∷ transmit_xml (
              codes
                "' xmlns='jabber:component:accept' xmlns:stream='http://etherx.jabber.org/streams'>")
          ∷ transmit_xml (codes "chat")
          ∷ transmit_xml (codes "<stream::stream to='")
          ∷ [];
    })
unfolding initial node_get attrib_value c_str
connect-push_connected_example =
    connect-push_connected tree check (codes "host") (codes "chat") (codes "key") header handshake
      (initial tree) refl refl
      (omega arith, (omega arith, (omega arith, (omega arith, (omega arith, tt))))) (omega arith)

on_element-calls_example :
    on_element tree shahash check message two_queries
    ≡ some (record two_queries { events = called 10 message ∷ called 20 message ∷ [] })
unfolding register_xpath initial has callback_of any ◌==◌
on_element-calls_example =
    on_element-calls tree shahash check message two_queries (inr refl)
      ((refl, 20, refl), ((refl, 10, refl), tt))

unregister_xpath_last_example :
    ((unregister_xpath tree 1 two_queries >>= on_element tree shahash check message) ≡ none)
    × ((unregister_xpath tree 1 two_queries >>= destroy tree) ≡ none)
unfolding register_xpath initial has any ◌==◌
unregister_xpath_last_example =
    unregister_xpath_last tree shahash check 1 (2 ∷ []) message two_queries refl refl (inr refl)
