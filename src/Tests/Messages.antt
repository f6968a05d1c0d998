-- ===== src/Tests/Messages.antt =====
-- Messages of src/jabberoo-message.cc.
use jabberoo.Base.{some, [], ◌∷◌, codes, ◌≡◌, refl, inl, find_if, c_str}
use jabberoo.Base.Int.{pos}
use jabberoo.Judo.Tree.{tree, Node, node, nil, cons, node_cmp, attrib_value, equals}
use jabberoo.Packet.{find_x, get_from, get_to}
use jabberoo.Messages.{
  Clock, Message, chat, type_text, of_element, get_body, get_thread, reply_to, delivered, displayed,
  composing,
}
use jabberoo.Messages.Replies.{reply_to_lem}
use jabberoo.Messages.Events
use jabberoo.Messages.Events.{event_lem}
use jabberoo.Messages.Times.{of_element_again}

-- A C library at noon.
abbrev noon : Clock
noon = record {
  now = pos 43200;
  time_of_stamp = λ s. pos 43200;
  date_text = λ format t. codes "12:00";
}

abbrev greeting : Node
greeting = node (codes "message") ((codes "from", codes "a@b") ∷ (codes "id", codes "7") ∷ []) [] (
    cons (node (codes "body") [] (codes "Hi") nil)
      (cons (node (codes "thread") [] (codes "t1") nil) nil))

abbrev message : Message tree noon
message = record { base = greeting; type = chat; timestamp = some (pos 1) }

reply_to_lem_example :
    (get_to tree (reply_to tree noon (codes "Yes") message).base ≡ get_from tree greeting)
    × ((reply_to tree noon (codes "Yes") message).type ≡ chat)
    × (tree.get_attrib (reply_to tree noon (codes "Yes") message).base (codes "type")
        ≡ type_text chat)
    × (get_body tree noon (reply_to tree noon (codes "Yes") message) ≡ codes "Yes")
    × (get_thread tree noon (reply_to tree noon (codes "Yes") message)
        ≡ get_thread tree noon message)
reply_to_lem_example = reply_to_lem tree noon (codes "Yes") message

event_lem_example :
    Events.Tells tree noon (codes "delivered") message (delivered tree noon message)
    × Events.Tells tree noon (codes "displayed") message (displayed tree noon message)
    × Events.Tells tree noon (codes "composing") message (composing tree noon message)
event_lem_example = event_lem tree noon message

of_element_again_example :
    ((of_element tree noon (of_element tree noon greeting).base).base
      ≡ (of_element tree noon greeting).base)
    × ((of_element tree noon (of_element tree noon greeting).base).type
        ≡ (of_element tree noon greeting).type)
    × (x : Node) × (find_x tree (of_element tree noon greeting).base (codes "jabber:x:delay")
        ≡ some x)
    × ((of_element tree noon (of_element tree noon greeting).base).timestamp
        ≡ some (noon.time_of_stamp (c_str (tree.get_attrib x (codes "stamp")))))
unfolding find_x find_if node_cmp attrib_value equals
of_element_again_example = of_element_again tree noon greeting (inl refl) refl
