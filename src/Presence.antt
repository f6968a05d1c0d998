-- ===== src/Presence.antt =====
-- src/jabberoo-presence.cc and include/presence.hh: presence packets, their type and show, and
-- the texts that stand for these on the wire.
pub mod Texts
pub mod Build
use jabberoo.Base.{
  Str, Bool, true, false, Option, none, some, [], codes, if◌then◌else◌, ◌==◌, empty, ◌&&◌, not,
}
use jabberoo.Base.Int.{ℤ, pos, negsuc, atoi}
use jabberoo.Judo.{Judo}
use jabberoo.Packet.{set_to}

pub data PresenceType : Type 0 where
  sub_request unsub_request subscribed unsubscribed available unavailable error invisible :
      PresenceType

pub data Show : Type 0 where
  invalid offline online chat away xa dnd : Show

-- translateType(Type)
unfoldable pub type_text : PresenceType → Str
type_text available = []
type_text unavailable = codes "unavailable"
type_text sub_request = codes "subscribe"
type_text unsub_request = codes "unsubscribe"
type_text subscribed = codes "subscribed"
type_text unsubscribed = codes "unsubscribed"
type_text error = codes "error"
type_text invisible = codes "invisible"

-- translateShow(Show)
unfoldable pub show_text : Show → Str
show_text invalid = []
show_text online = codes "online"
show_text offline = codes "offline"
show_text chat = codes "chat"
show_text away = codes "away"
show_text xa = codes "xa"
show_text dnd = codes "dnd"

-- translateType(const string&)
unfoldable pub type_of_text : Str → PresenceType
type_of_text ptype =
    if empty ptype
    then available
    else if ptype == codes "subscribe"
    then sub_request
    else if ptype == codes "unsubscribe"
    then unsub_request
    else if ptype == codes "subscribed"
    then subscribed
    else if ptype == codes "unsubscribed"
    then unsubscribed
    else if ptype == codes "error"
    then error
    else if ptype == codes "invisible"
    then invisible
    else unavailable

-- Tests on the enumerators.
unfoldable pub is_error : PresenceType → Bool
is_error error = true
is_error _ = false

unfoldable pub is_available : PresenceType → Bool
is_available available = true
is_available _ = false

unfoldable pub is_unavailable : PresenceType → Bool
is_unavailable unavailable = true
is_unavailable _ = false

-- `stype > stOnline` in the order of the enumeration.
unfoldable pub above_online : Show → Bool
above_online invalid = false
above_online offline = false
above_online online = false
above_online chat = true
above_online away = true
above_online xa = true
above_online dnd = true

-- translateShow(Type, const string&)
unfoldable pub show_of_text : PresenceType → Str → Show
unfolding is_error is_available is_unavailable
show_of_text ptype show =
    if is_error ptype
    then offline
    else if is_available ptype && empty show
    then online
    else if is_available ptype && show == codes "online"
    then online
    else if is_unavailable ptype && empty show
    then offline
    else if is_unavailable ptype && show == codes "offline"
    then offline
    else if show == codes "chat"
    then chat
    else if show == codes "away"
    then away
    else if show == codes "xa"
    then xa
    else if show == codes "dnd"
    then dnd
    else if is_available ptype
    then invalid
    else offline

module _ (judo : Judo) where
  open judo use {Element, make, text_element, get_attrib, put_attrib, append_child, get_child_cdata}

  -- `priority` is what `_priority` holds, `none` before the first assignment.
  pub record Presence : Type 0 where
    pub base : Element
    pub show : Show
    pub type : PresenceType
    pub priority : Option ℤ

  -- Presence(const judo::Element&)
  unfoldable pub of_element : Element → Presence
  unfolding type_of_text show_of_text
  of_element t =
      let ptype = type_of_text (get_attrib t (codes "type")) in
      record {
        base = t;
        show = show_of_text ptype (get_child_cdata t (codes "show"));
        type = ptype;
        priority = none;
      }

  unfoldable pub set_type : Presence → PresenceType → Presence
  unfolding is_available type_text
  set_type p ptype = record p {
    base =
        if not (is_available ptype)
        then put_attrib p.base (codes "type") (type_text ptype)
        else p.base;
    type = ptype;
  }

  unfoldable pub set_status : Presence → Str → Presence
  set_status p status = record p {
    base =
        if not (empty status)
        then append_child p.base (text_element (codes "status") status)
        else p.base;
  }

  unfoldable pub set_show : Presence → Show → Presence
  unfolding above_online show_text
  set_show p stype = record p {
    base =
        if above_online stype
        then append_child p.base (text_element (codes "show") (show_text stype))
        else p.base;
    show = stype;
  }

  unfoldable pub set_priority : Presence → Str → Presence
  set_priority p priority = record p {
    base =
        if not (priority == codes "0")
        then append_child p.base (text_element (codes "priority") priority)
        else p.base;
    priority = some (atoi priority);
  }

  -- The packet part before any member is set. The enumerators stand for uninitialised members,
  -- which the constructor below assigns before anything reads them.
  unfoldable pub blank : Str → Presence
  unfolding set_to
  blank jid = record {
    base =
        if not (empty jid)
        then set_to judo (make (codes "presence")) jid
        else make (codes "presence");
    show = invalid;
    type = available;
    priority = none;
  }

  -- Presence(jid, ptype, stype, status, priority)
  unfoldable pub build : Str → PresenceType → Show → Str → Str → Presence
  unfolding set_type set_status set_show set_priority blank
  build jid ptype stype status priority =
      set_priority (set_show (set_status (set_type (blank jid) ptype) status) stype) priority

  unfoldable pub get_status : Presence → Str
  get_status p =
      if empty (get_child_cdata p.base (codes "status"))
      then get_child_cdata p.base (codes "error")
      else get_child_cdata p.base (codes "status")

  unfoldable pub get_show_str : Presence → Str
  unfolding show_text
  get_show_str p = show_text p.show

  unfoldable pub get_priority : Presence → ℤ
  unfolding is_unavailable
  get_priority p =
      if is_unavailable p.type then negsuc 0 else atoi (get_child_cdata p.base (codes "priority"))
