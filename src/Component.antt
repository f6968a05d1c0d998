-- ===== src/Component.antt =====
-- src/jabberoo-component-session.cpp and include/jabberoo-component.hh: a component's connection.
-- `none` is an assert that fails, or the use of a query that was deleted. Queries and the functions
-- of a client are numbers; a new query has a number that no query alive has.
pub mod Login
pub mod Queries
pub mod Errors
use jabberoo.Base.{
  Str, Bool, true, false, Option, none, some, List, [], ◌∷◌, ◌++◌, ℕ, if◌then◌else◌, ◌==◌, codes,
  not, ◌&&◌, nat_eq, any, drop, length, c_str,
}
use jabberoo.Judo.{Judo}
use jabberoo.Session.{◌>>=◌}

pub data ConnectionState : Type 0 where
  not_connected awaiting_auth connected : ConnectionState

unfoldable pub is_not_connected : ConnectionState → Bool
is_not_connected not_connected = true
is_not_connected awaiting_auth = false
is_not_connected connected = false

unfoldable pub is_connected : ConnectionState → Bool
is_connected connected = true
is_connected not_connected = false
is_connected awaiting_auth = false

-- `assert(b)` before the rest
unfoldable pub asserted {ℓ} : {A : Type ℓ} → Bool → A → Option A
asserted true a = some a
asserted false a = none

unfoldable pub has : ℕ → List ℕ → Bool
has q qs = any (nat_eq q) qs

unfoldable pub without : ℕ → List ℕ → List ℕ
without q [] = []
without q (x ∷ xs) = let rest = without q xs in if nat_eq q x then rest else x ∷ rest

-- `std::remove` over the whole list, its result not used: the elements that are kept move to the
-- front, and the places behind them stay as they were.
unfoldable pub std_remove : ℕ → List ℕ → List ℕ
unfolding without
std_remove q xs = without q xs ++ drop (length (without q xs)) xs

-- `_XPCallbacks`: the function of a query.
unfoldable pub callback_of : ℕ → List (ℕ × ℕ) → Option ℕ
callback_of q [] = none
callback_of q ((k, f) ∷ m) = if nat_eq q k then some f else callback_of q m

-- `insert` leaves an entry that is there.
unfoldable pub insert_callback : ℕ → ℕ → List (ℕ × ℕ) → List (ℕ × ℕ)
unfolding callback_of
insert_callback q f m = elim (callback_of q m) [ none ↦ (q, f) ∷ m | some g ↦ m ]

unfoldable pub erase_callback : ℕ → List (ℕ × ℕ) → List (ℕ × ℕ)
erase_callback q [] = []
erase_callback q ((k, f) ∷ m) =
    let rest = erase_callback q m in if nat_eq q k then rest else (k, f) ∷ rest

module _ (judo : Judo) where
  open judo use {Element, get_name, get_attrib, to_string}

  -- The signals, and the calls of a client's functions.
  pub data Event : Type 0 where
    transmit_xml : Str → Event
    connected_signal : Event
    called : ℕ → Element → Event

  -- What the parser makes of the data that is pushed.
  pub data Parsed : Type 0 where
    document_start element : Element → Parsed
    cdata document_end : Parsed

  pub record ComponentSession : Type 0 where
    pub server : Str
    pub component_id : Str
    pub password : Str
    pub session_id : Str
    pub conn_state : ConnectionState
    -- `_XPaths`, and those of all queries that are not deleted
    pub queries : List ℕ
    pub alive : List ℕ
    pub callbacks : List (ℕ × ℕ)
    -- what was fired, the newest first
    pub events : List Event

  unfoldable pub initial : ComponentSession
  initial = record {
    server = [];
    component_id = [];
    password = [];
    session_id = [];
    conn_state = not_connected;
    queries = [];
    alive = [];
    callbacks = [];
    events = [];
  }

  unfoldable pub emit : Event → ComponentSession → ComponentSession
  emit e s = record s { events = e ∷ s.events }

  -- operator<<(const char*)
  unfoldable pub send_text : Str → ComponentSession → ComponentSession
  unfolding emit
  send_text buffer s = emit (transmit_xml buffer) s

  -- operator<<(const Packet&)
  unfoldable pub send_packet : Element → ComponentSession → ComponentSession
  unfolding emit
  send_packet e s = emit (transmit_xml (c_str (to_string e))) s

  -- The opening of the stream is sent in three pieces.
  unfoldable pub send_header : ComponentSession → ComponentSession
  unfolding send_text
  send_header s =
      send_text
        (codes "' xmlns='jabber:component:accept' xmlns:stream='http://etherx.jabber.org/streams'>")
        (send_text (c_str s.component_id) (send_text (codes "<stream::stream to='") s))

  unfoldable pub connect : Str → Str → Str → ComponentSession → Option ComponentSession
  unfolding asserted is_not_connected send_header
  connect server component_id password s =
      asserted (is_not_connected s.conn_state)
        (record (send_header
          (record s { component_id = component_id; server = server; password = password })) {
            conn_state = awaiting_auth;
          })

  unfoldable pub disconnect : ComponentSession → Option ComponentSession
  unfolding asserted is_not_connected send_text
  disconnect s =
      asserted (not (is_not_connected s.conn_state))
        (record (send_text (codes "</stream:stream>") s) { conn_state = not_connected })

  unfoldable pub register_xpath : ℕ → ℕ → ComponentSession → ComponentSession
  unfolding insert_callback
  register_xpath query f s = record s {
    queries = query ∷ s.queries;
    alive = query ∷ s.alive;
    callbacks = insert_callback query f s.callbacks;
  }

  -- A query that is not alive cannot be deleted.
  unfoldable pub unregister_xpath : ℕ → ComponentSession → Option ComponentSession
  unfolding asserted has std_remove erase_callback without
  unregister_xpath query s = asserted (has query s.alive) (record s {
    queries = std_remove query s.queries;
    alive = without query s.alive;
    callbacks = erase_callback query s.callbacks;
  })

  -- ~ComponentSession deletes the queries of the list.
  unfoldable pub delete_queries : List ℕ → ComponentSession → Option ComponentSession
  unfolding asserted has without
  delete_queries [] s = some (record s { queries = [] })
  delete_queries (q ∷ qs) s =
      asserted (has q s.alive) (record s { queries = qs; alive = without q s.alive })
      >>= delete_queries qs

  unfoldable pub destroy : ComponentSession → Option ComponentSession
  unfolding is_not_connected disconnect delete_queries
  destroy s = (if not (is_not_connected s.conn_state) then disconnect s else some s) >>= λ s1.
      delete_queries s1.queries s1

  module _ (shahash : Str → Str) (check : ℕ → Element → Bool) where
    unfoldable pub on_document_start : Element → ComponentSession → ComponentSession
    unfolding send_text
    on_document_start t s =
        let s1 = record s { session_id = get_attrib t (codes "id") } in
        let full = s1.session_id ++ s1.password in
        send_text (codes "</handshake>")
          (send_text (shahash (c_str full)) (send_text (codes "<handshake>") s1))

    -- A query whose function is missing calls an empty slot.
    unfoldable pub run_query : ℕ → Element → ComponentSession → Option ComponentSession
    unfolding asserted has callback_of emit
    run_query q t s = asserted (has q s.alive) (check q t) >>= λ hit.
        if hit then callback_of q s.callbacks >>= (λ f. some (emit (called f t) s)) else some s

    unfoldable pub run_queries : List ℕ → Element → ComponentSession → Option ComponentSession
    unfolding run_query
    run_queries [] t s = some s
    run_queries (q ∷ qs) t s = run_query q t s >>= run_queries qs t

    unfoldable pub on_element : Element → ComponentSession → Option ComponentSession
    unfolding is_connected emit run_queries
    on_element t s =
        if not (is_connected s.conn_state) && (get_name t == codes "handshake")
        then some (emit connected_signal (record s { conn_state = connected }))
        else run_queries s.queries t s

    unfoldable pub on_cdata : ComponentSession → ComponentSession
    on_cdata s = s

    unfoldable pub on_document_end : ComponentSession → Option ComponentSession
    unfolding disconnect
    on_document_end s = disconnect s

    unfoldable pub on_parsed : Parsed → ComponentSession → Option ComponentSession
    unfolding on_document_start on_element on_cdata on_document_end
    on_parsed (document_start t) s = some (on_document_start t s)
    on_parsed (element t) s = on_element t s
    on_parsed cdata s = some (on_cdata s)
    on_parsed document_end s = on_document_end s

    unfoldable pub on_all_parsed : List Parsed → ComponentSession → Option ComponentSession
    unfolding on_parsed
    on_all_parsed [] s = some s
    on_all_parsed (p ∷ ps) s = on_parsed p s >>= on_all_parsed ps

    -- `failed` is whether the parser throws ParserError behind the events.
    unfoldable pub push : List Parsed → Bool → ComponentSession → Option ComponentSession
    unfolding on_all_parsed disconnect
    push parsed failed s =
        on_all_parsed parsed s >>= λ s1. if failed then disconnect s1 else some s1
