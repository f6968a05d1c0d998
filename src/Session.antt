-- ===== src/Session.antt =====
-- src/jabberoo-session.cc and include/session.hh: the state of a session, its signals, and the
-- operations that send. `none` is undefined behaviour: a read through a null or freed pointer.
-- Callbacks are first-order: the slots of the library itself by name, a client's by a number; what a
-- client does in a callback or a signal handler is not part of the state.
pub mod Ids
pub mod Requests
pub mod Auth
pub mod Routing
pub mod Stream
pub mod Secrecy
pub mod Informed
pub mod Login
pub mod AutoLogin
pub mod Database
pub mod Closing
pub mod Events
pub mod Accessors
pub mod Items
use jabberoo.Base.{
  Str, Bool, true, false, Option, none, some, List, [], ◌∷◌, ◌++◌, ℕ, suc, ◌+◌, if◌then◌else◌, ◌==◌,
  empty, codes, not, ◌&&◌, ◌||◌, nat_eq, take, any, erase_if, find_char, c_str,
}
pub use jabberoo.Base.Holds.{◌>>=◌}
use jabberoo.Base.Int.{ℤ}
use jabberoo.Base.Map.{place}
use jabberoo.Jid.{found}
use jabberoo.Judo.{Judo}
use jabberoo.Packet.{get_from, get_to}
use jabberoo.Presence.{Presence, PresenceType, of_element, build, unsub_request, invalid}
use jabberoo.PresenceDb.{Db}
use jabberoo.Roster.{Roster, Item, RosterEvent}
use jabberoo.Roster.Groups.{plain}
use Ids.{id_text}

pub data AuthType : Type 0 where
  plaintext_auth digest_auth auto_auth zero_k_auth : AuthType

pub data ConnectionState : Type 0 where
  not_connected create_user auth_req awaiting_auth connected : ConnectionState

-- What a slot in `_Callbacks` calls.
pub data Callback : Type 0 where
  on_auth_type iq_auth iq_create_user delete_agent : Callback
  client : ℕ → Callback

module _ (judo : Judo) where
  open judo use {
    Element, make, text_element, get_name, get_attrib, put_attrib, append_child, to_string,
    get_child_cdata, find_element,
  }

  -- `_StreamElement`: unset, owning an element, or deleted.
  pub data Pointer : Type 0 where
    unset freed : Pointer
    owned : Element → Pointer

  -- The signals, and the calls of clients' callbacks.
  pub data Event : Type 0 where
    xml_parser_error : ℤ → Str → Event
    transmit_xml recv_xml : Str → Event
    transmit_packet recv_element message iq_received unknown_packet connected_to : Element → Event
    disconnected on_roster : Event
    my_presence presence_request presence_unsubscribed : Presence judo → Event
    presence : Presence judo → PresenceType → Event
    auth_error : ℤ → Str → Event
    called : ℕ → Element → Event
    roster_event : RosterEvent → Event

  pub record Session : Type 0 where
    pub id : ℕ
    pub conn_state : ConnectionState
    pub auth_type : AuthType
    pub session_id : Str
    pub server_id : Str
    pub username : Str
    pub resource : Str
    pub password : Str
    pub local_jid : Str
    pub authenticate : Bool
    pub stream_start : Bool
    pub stream_element : Pointer
    pub callbacks : List (Str × Callback)
    -- queries by number, each with the number of the client's function
    pub incoming_queries : List (ℕ × ℕ)
    pub outgoing_queries : List (ℕ × ℕ)
    pub features : List Str
    pub roster : Roster
    pub pdb : Db judo
    -- what was fired, the newest first
    pub events : List Event

  unfoldable pub emit : Event → Session → Session
  emit e s = record s { events = e ∷ s.events }

  unfoldable pub emit_all : List Event → Session → Session
  unfolding emit
  emit_all [] s = s
  emit_all (e ∷ es) s = emit_all es (emit e s)

  abbrev pub roster_events : List RosterEvent → List Event
  roster_events [] = []
  roster_events (e ∷ es) = roster_event e ∷ roster_events es

  -- operator<<(const char*)
  unfoldable pub send_text : Str → Session → Session
  unfolding emit
  send_text buffer s = emit (transmit_xml buffer) s

  -- `*this << iq.toString().c_str()`
  unfoldable pub send_element : Element → Session → Session
  unfolding send_text
  send_element e s = send_text (c_str (to_string e)) s

  -- Fires the functions of the queries that match, in the order of the list.
  unfoldable pub run_queries : (ℕ → Element → Bool) → List (ℕ × ℕ) → Element → Session → Session
  unfolding emit
  run_queries check [] e s = s
  run_queries check ((query, f) ∷ qs) e s =
      run_queries check qs e (if check query e then emit (called f e) s else s)

  unfoldable pub own_presence : Element → Session → Session
  unfolding emit
  own_presence e s =
      let pres = of_element judo e in
      if empty (get_from judo pres.base) && empty (get_to judo pres.base)
      then emit (my_presence pres) s
      else s

  -- operator<<(const Packet&)
  unfoldable pub send_packet : (ℕ → Element → Bool) → Element → Session → Session
  unfolding run_queries own_presence emit
  send_packet check e s =
      let s1 = run_queries check s.outgoing_queries e s in
      let s2 = if get_name e == codes "presence" then own_presence e s1 else s1 in
      emit (transmit_xml (c_str (to_string e))) (emit (transmit_packet e) s2)

  unfoldable pub get_next_id : Session → Str × Session
  get_next_id s = (id_text s.id, record s { id = s.id + 1 })

  unfoldable pub get_digest : (Str → Str) → Session → Str
  get_digest shahash s = shahash (c_str (s.session_id ++ s.password))

  -- A multimap enters a key behind its equals.
  unfoldable pub register_iq : Str → Callback → Session → Session
  unfolding place
  register_iq id f s = record s { callbacks = place plain id f s.callbacks }

  -- `query` is the new query.
  unfoldable pub register_xpath : ℕ → ℕ → Bool → Session → Session
  register_xpath query f incoming s =
      if incoming
      then record s { incoming_queries = (query, f) ∷ s.incoming_queries }
      else record s { outgoing_queries = (query, f) ∷ s.outgoing_queries }

  abbrev pub is_query : ℕ → ℕ × ℕ → Bool
  is_query query (q, f) = nat_eq q query

  unfoldable pub unregister_xpath : ℕ → Bool → Session → Session
  unfolding erase_if
  unregister_xpath query incoming s =
      if incoming
      then record s { incoming_queries = erase_if (is_query query) s.incoming_queries }
      else record s { outgoing_queries = erase_if (is_query query) s.outgoing_queries }

  unfoldable pub iq_of : Str → Str → Element
  iq_of type id = put_attrib (put_attrib (make (codes "iq")) (codes "type") type) (codes "id") id

  unfoldable pub query_namespace : Str → Callback → Str → Session → Session
  unfolding get_next_id register_iq send_element iq_of
  query_namespace nspace f to s =
      let (id, s1) = get_next_id s in
      let iq =
        if not (empty to)
        then put_attrib (iq_of (codes "get") id) (codes "to") to
        else iq_of (codes "get") id in
      let query = put_attrib (make (codes "query")) (codes "xmlns") nspace in
      send_element (append_child iq query) (register_iq id f s1)

  unfoldable pub add_feature : Str → Session → Session
  unfolding any
  add_feature feature s =
      if not (any (λ f. f == feature) s.features)
      then record s { features = s.features ++ (feature ∷ []) }
      else s

  abbrev pub initial_features : List Str
  initial_features =
      codes "jabber:iq:version" ∷ codes "jabber:iq:last" ∷ codes "jabber:iq:time" ∷ []

  -- Session(). Members that the constructor leaves unset have a value of their type here.
  unfoldable pub initial : Session
  initial = record {
    id = 0;
    conn_state = not_connected;
    auth_type = plaintext_auth;
    session_id = [];
    server_id = [];
    username = [];
    resource = [];
    password = [];
    local_jid = [];
    authenticate = false;
    stream_start = false;
    stream_element = unset;
    callbacks = [];
    incoming_queries = [];
    outgoing_queries = [];
    features = initial_features;
    roster = record { items = []; groups = [] };
    pdb = [];
    events = [];
  }
