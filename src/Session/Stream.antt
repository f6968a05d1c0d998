-- ===== src/Session/Stream.antt =====
-- The connection of src/jabberoo-session.cc: connect, disconnect, push, and the handlers of the
-- stream's events. The parser (libjudo's ElementStream) is outside: a push comes with what the parser
-- makes of the data, the events in order and the error that stopped it, if any.
use jabberoo.Base.{
  Str, Bool, true, false, Option, none, some, List, [], ◌∷◌, ◌++◌, ℕ, if◌then◌else◌, codes, ◌&&◌,
  not, c_str,
}
use jabberoo.Base.Int.{ℤ}
use jabberoo.Judo.{Judo}
use jabberoo.Presence.{Presence, unavailable}
use jabberoo.PresenceDb
use jabberoo.Roster
use jabberoo.Session.{
  Session, AuthType, ConnectionState, Event, not_connected, create_user, auth_req, awaiting_auth,
  connected, owned, emit, emit_all, roster_events, send_text, connected_to, recv_xml, recv_element,
  disconnected, xml_parser_error, presence, ◌>>=◌,
}
use jabberoo.Session.Auth.{do_authenticate, stream_header}
use jabberoo.Session.Routing.{Env, dispatch}

unfoldable pub is_not_connected : ConnectionState → Bool
is_not_connected not_connected = true
is_not_connected _ = false

abbrev pub closing_tag : Str
closing_tag = codes "</stream:stream>"

module _ (judo : Judo) (shahash : Str → Str) (check : ℕ → judo.Element → Bool) (env : Env) where
  open judo use {Element, get_attrib}

  -- The opening of the stream is sent in three pieces.
  unfoldable pub send_stream_header : Str → Session judo → Session judo
  unfolding send_text
  send_stream_header server s =
      send_text judo
        (codes "' xmlns='jabber:client' xmlns:stream='http://etherx.jabber.org/streams'>")
        (send_text judo (c_str server) (send_text judo (codes "<stream:stream to='") s))

  -- evtConnected(*_StreamElement)
  unfoldable pub announce : Session judo → Option (Session judo)
  unfolding stream_header emit
  announce s = stream_header judo shahash s >>= λ header. some (emit judo (connected_to header) s)

  unfoldable pub store_properties :
      Str → AuthType → Str → Str → Str → Bool → Session judo → Session judo
  store_properties server atype username resource password should_auth s = record s {
    auth_type = atype;
    server_id = server;
    username = username;
    resource = resource;
    password = password;
    local_jid = username ++ codes "@" ++ server ++ codes "/" ++ resource;
    authenticate = should_auth;
  }

  -- The rest of connect, by the state of the connection.
  unfoldable pub connect_from :
      ConnectionState → Str → Bool → Bool → Session judo → Option (Session judo)
  unfolding announce send_text do_authenticate send_stream_header
  connect_from connected server newuser should_auth s = some s
  connect_from not_connected server newuser should_auth s =
      some (record (send_stream_header server s) {
        conn_state = if not newuser then auth_req else create_user;
      })
  connect_from create_user server newuser should_auth s =
      let s1 = if newuser then record s { conn_state = create_user } else s in
      if should_auth then do_authenticate judo shahash s1 else announce s1
  connect_from auth_req server newuser should_auth s =
      let s1 = if newuser then record s { conn_state = create_user } else s in
      if should_auth then do_authenticate judo shahash s1 else announce s1
  connect_from awaiting_auth server newuser should_auth s =
      let s1 = if newuser then record s { conn_state = create_user } else s in
      if should_auth then do_authenticate judo shahash s1 else announce s1

  unfoldable pub is_connected : ConnectionState → Bool
  is_connected connected = true
  is_connected _ = false

  unfoldable pub connect :
      Str → AuthType → Str → Str → Str → Bool → Bool → Session judo → Option (Session judo)
  unfolding is_connected store_properties connect_from
  connect server atype username resource password newuser should_auth s =
      if is_connected s.conn_state
      then some s
      else connect_from s.conn_state server newuser should_auth
          (store_properties server atype username resource password should_auth s)

  -- Whether the closing tag was sent comes with the state.
  unfoldable pub disconnect : Session judo → Bool × Session judo
  unfolding is_not_connected send_text
  disconnect s =
      let success = not (is_not_connected s.conn_state) && s.stream_start in
      let s1 = if success then send_text judo closing_tag s else s in
      (success, record s1 { conn_state = not_connected; stream_start = false })

  -- ~Session: the closing of a connection that is open. The queries are deleted with the session.
  unfoldable pub destroy : Session judo → Session judo
  unfolding disconnect is_not_connected
  destroy s = if not (is_not_connected s.conn_state) then (disconnect s).1 else s

  unfoldable pub on_document_start : Element → Session judo → Option (Session judo)
  unfolding do_authenticate announce
  on_document_start t s =
      let s1 = record s {
        session_id = get_attrib t (codes "id");
        stream_element = owned t;
        stream_start = true;
      } in
      if s1.authenticate then do_authenticate judo shahash s1 else announce s1

  unfoldable pub on_element : ℕ → Element → Session judo → Option (Session judo)
  unfolding emit dispatch
  on_element fuel t s = dispatch judo shahash check env fuel t (emit judo (recv_element t) s)

  unfoldable pub on_cdata : Session judo → Session judo
  on_cdata s = s

  abbrev pub presences_gone : List (Presence judo) → List (Event judo)
  presences_gone [] = []
  presences_gone (p ∷ ps) = presence p unavailable ∷ presences_gone ps

  unfoldable pub on_document_end : Session judo → Session judo
  unfolding emit emit_all send_text
  on_document_end s =
      let (roster, fired) = Roster.reset s.roster in
      let s1 = emit_all judo (roster_events judo fired) (record s { roster = roster }) in
      let gone = PresenceDb.send_unavailable judo s1.local_jid s1.pdb in
      let s2 = emit_all judo (presences_gone gone) s1 in
      let s3 = record s2 {
        pdb = PresenceDb.clear judo s2.pdb;
        conn_state = not_connected;
        stream_start = false;
      } in
      emit judo disconnected (send_text judo closing_tag s3)

  pub data Parsed : Type 0 where
    document_start element : Element → Parsed
    cdata document_end : Parsed

  unfoldable pub on_parsed : ℕ → Parsed → Session judo → Option (Session judo)
  unfolding on_document_start on_element on_cdata on_document_end
  on_parsed fuel (document_start t) s = on_document_start t s
  on_parsed fuel (element t) s = on_element fuel t s
  on_parsed fuel cdata s = some (on_cdata s)
  on_parsed fuel document_end s = some (on_document_end s)

  unfoldable pub on_all_parsed : ℕ → List Parsed → Session judo → Option (Session judo)
  unfolding on_parsed
  on_all_parsed fuel [] s = some s
  on_all_parsed fuel (p ∷ ps) s = on_parsed fuel p s >>= λ s1. on_all_parsed fuel ps s1

  -- The handler of ParserError.
  unfoldable pub on_parser_error : ℤ → Str → Session judo → Session judo
  unfolding disconnect emit
  on_parser_error code text s =
      let s1 = emit judo (xml_parser_error code text) s in
      (disconnect (record s1 { conn_state = not_connected; stream_start = false })).1

  unfoldable pub push :
      ℕ → Str → List Parsed → Option (ℤ × Str) → Session judo → Option (Session judo)
  unfolding on_all_parsed on_parser_error emit
  push fuel data_text parsed failed s =
      on_all_parsed fuel parsed (emit judo (recv_xml (c_str data_text)) s) >>= λ s1. elim failed [
        | none ↦ some s1
        | some (code, text) ↦ some (on_parser_error code text s1)
      ]
