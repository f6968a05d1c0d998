-- ===== src/Messages.antt =====
-- src/jabberoo-message.cc and include/message.hh: messages, their type, texts and time, the event
-- requests, and the messages that answer another one. The reading and printing of times is the C
-- library's, a parameter; a change through a pointer to a child is libjudo's `update_first`.
pub mod Texts
pub mod Replies
pub mod Events
pub mod Requests
pub mod Times
use jabberoo.Base.{
  Str, Bool, true, false, Option, none, some, List, [], ◌∷◌, ◌++◌, codes, if◌then◌else◌, ◌==◌,
  empty, not, c_str,
}
use jabberoo.Base.Int.{ℤ}
use jabberoo.Judo.{Judo}
use jabberoo.Packet.{get_from, get_id, set_to, add_x, find_x}

pub data MessageType : Type 0 where
  normal error chat groupchat headline : MessageType

-- translateType(Type)
unfoldable pub type_text : MessageType → Str
type_text normal = codes "normal"
type_text error = codes "error"
type_text chat = codes "chat"
type_text groupchat = codes "groupchat"
type_text headline = codes "headline"

-- translateType(const std::string&)
unfoldable pub type_of_text : Str → MessageType
type_of_text mtype =
    if mtype == []
    then normal
    else if mtype == codes "normal"
    then normal
    else if mtype == codes "error"
    then error
    else if mtype == codes "chat"
    then chat
    else if mtype == codes "groupchat"
    then groupchat
    else if mtype == codes "headline"
    then headline
    else normal

-- The C library: time(0), the time of a stamp as sscanf and timegm make it, and a time in a format
-- as localtime and strftime print it.
pub record Clock : Type 0 where
  pub now : ℤ
  pub time_of_stamp : Str → ℤ
  pub date_text : Str → ℤ → Str

module _ (judo : Judo) (clock : Clock) where
  open judo use {
    Element, make, text_element, get_attrib, put_attrib, append_child, find_element, cmp_attrib,
    get_name, get_child_cdata, set_texts, update_first,
  }
  open clock use {now, time_of_stamp, date_text}

  pub record Message : Type 0 where
    pub base : Element
    pub type : MessageType
    -- none where a constructor leaves it unset
    pub timestamp : Option ℤ

  unfoldable pub get_body : Message → Str
  get_body m = get_child_cdata m.base (codes "body")

  unfoldable pub get_subject : Message → Str
  get_subject m = get_child_cdata m.base (codes "subject")

  unfoldable pub get_thread : Message → Str
  get_thread m = get_child_cdata m.base (codes "thread")

  -- `default` is _dtFormat, which all messages share.
  unfoldable pub get_date_time : Str → Str → Message → Option Str
  get_date_time default format m = elim m.timestamp [
    | none ↦ none
    | some t ↦
        some (if empty format then date_text (c_str default) t else date_text (c_str format) t)
  ]

  abbrev pub delay_format : Str
  delay_format = codes "%Y%m%dT%H:%M:%S%z"

  -- The end of the constructor: the current time, and the extension that tells it.
  unfoldable pub stamp_now : MessageType → Element → Message
  unfolding get_from
  stamp_now mtype t =
      let x = put_attrib (make (codes "x")) (codes "xmlns") (codes "jabber:x:delay") in
      let from = put_attrib x (codes "from") (get_from judo t) in
      let stamped = put_attrib from (codes "stamp") (date_text delay_format now) in
      record { base = append_child t stamped; type = mtype; timestamp = some now }

  -- Message(const Element&)
  unfoldable pub of_element : Element → Message
  unfolding type_of_text find_x stamp_now
  of_element t =
      let mtype = type_of_text (get_attrib t (codes "type")) in
      elim (find_x judo t (codes "jabber:x:delay")) [
        | none ↦ stamp_now mtype t
        | some x ↦
            let date = get_attrib x (codes "stamp") in
            if not (empty date)
            then record { base = t; type = mtype; timestamp = some (time_of_stamp (c_str date)) }
            else stamp_now mtype t
      ]

  unfoldable pub set_type : MessageType → Message → Message
  unfolding type_text
  set_type mtype m = record m {
    base = put_attrib m.base (codes "type") (type_text mtype);
    type = mtype;
  }

  -- Message(jid, body, mtype)
  unfoldable pub build : Str → Str → MessageType → Message
  unfolding set_type set_to
  build jid body mtype =
      let base = set_to judo (make (codes "message")) jid in
      set_type mtype (record {
        base =
            if not (empty body) then append_child base (text_element (codes "body") body) else base;
        type = normal;
        timestamp = some now;
      })

  -- The text of a child that is there is replaced in each of its sections of text.
  unfoldable pub set_child_text : Str → Str → Element → Element
  set_child_text name text base = elim (find_element base name) [
    | some tag ↦ update_first (λ c. get_name c == name) (λ c. set_texts c text) base
    | none ↦ append_child base (text_element name text)
  ]

  unfoldable pub set_body : Str → Message → Message
  unfolding set_child_text
  set_body body m = record m { base = set_child_text (codes "body") body m.base }

  unfoldable pub set_subject : Str → Message → Message
  unfolding set_child_text
  set_subject subject m = record m { base = set_child_text (codes "subject") subject m.base }

  unfoldable pub set_thread : Str → Message → Message
  unfolding set_child_text
  set_thread thread m = record m { base = set_child_text (codes "thread") thread m.base }

  abbrev pub is_event : Element → Bool
  is_event it = cmp_attrib it (codes "xmlns") (codes "jabber:x:event")

  unfoldable pub request : Str → Message → Message
  unfolding find_x
  request name m = record m {
    base = elim (find_x judo m.base (codes "jabber:x:event")) [
      | some x ↦ update_first is_event (λ x. append_child x (make name)) m.base
      | none ↦ append_child m.base (
          append_child (put_attrib (make (codes "x")) (codes "xmlns") (codes "jabber:x:event"))
            (make name))
    ];
  }

  unfoldable pub request_delivered : Message → Message
  unfolding request
  request_delivered m = request (codes "delivered") m

  unfoldable pub request_displayed : Message → Message
  unfolding request
  request_displayed m = request (codes "displayed") m

  unfoldable pub request_composing : Message → Message
  unfolding request
  request_composing m = request (codes "composing") m

  -- Message(m, body)
  unfoldable pub reply_to : Str → Message → Message
  unfolding get_from set_to set_type get_thread
  reply_to body m =
      let start = set_type m.type (record {
        base = set_to judo (make (codes "message")) (get_from judo m.base);
        type = normal;
        timestamp = none;
      }) in
      let with_body = append_child start.base (text_element (codes "body") body) in
      record start {
        base =
            if not (empty (get_thread m))
            then append_child with_body (text_element (codes "thread") (get_thread m))
            else with_body;
      }

  unfoldable pub event : Str → Message → Message
  unfolding build get_from get_thread set_thread get_id
  event name m =
      let new_m = build (get_from judo m.base) [] m.type in
      let threaded =
        if not (empty (get_thread m)) then set_thread (get_thread m) new_m else new_m in
      let x = put_attrib (make (codes "x")) (codes "xmlns") (codes "jabber:x:event") in
      record threaded {
        base = append_child threaded.base (
            append_child (append_child x (make name))
              (text_element (codes "id") (get_id judo m.base)));
      }

  unfoldable pub delivered : Message → Message
  unfolding event
  delivered m = event (codes "delivered") m

  unfoldable pub displayed : Message → Message
  unfolding event
  displayed m = event (codes "displayed") m

  unfoldable pub composing : Message → Message
  unfolding event
  composing m = event (codes "composing") m

-- _dtFormat when the program starts, and the two functions for it.
unfoldable pub start_format : Str
start_format = codes "%c"

unfoldable pub set_date_time_format : Str → Str → Str
set_date_time_format format default = format

unfoldable pub get_date_time_format : Str → Str
get_date_time_format default = default
