-- ===== src/Session/Informed/Reached.antt =====
-- In every state that a session of src/jabberoo-session.cc reaches its client is informed of the
-- connection.
use jabberoo.Base.{
  codes, not, ◌&&◌, find_char, Str, Bool, true, false, Option, List, [], ◌∷◌, ℕ, ◌≡◌, refl,
  if◌then◌else◌, any, ◌==◌, Bool-cases, inl, inr, sym, subst,
}
use jabberoo.Base.Int.{ℤ}
use jabberoo.Base.Holds.{Holds, Holds-at, Holds-bind, Holds-if, Holds-elim, Holds-last}
use jabberoo.Judo.{Judo}
use jabberoo.Jid.{found}
use jabberoo.Presence.{Presence, build, unsub_request, invalid}
use jabberoo.PresenceDb
use jabberoo.Session.{
  Session, AuthType, ConnectionState, not_connected, create_user, auth_req, awaiting_auth,
  connected, initial, emit, emit_all, send_element, send_text, register_iq, register_xpath,
  unregister_xpath, query_namespace, get_next_id, add_feature, owned,
}
use jabberoo.Session.Requests.{
  fetch_roster, delete_user, remove_and_unsubscribe, send_item, removal_iq,
}
use jabberoo.Session.Auth.{do_authenticate, stream_header}
use jabberoo.Session.Routing.{Env}
use jabberoo.Session.Closing.{on_document_end_lem, on_parser_error_lem}
use jabberoo.Session.Informed.{
  IsInformed, informed, emit_all-IsInformed, send_packet-IsInformed, do_authenticate-IsInformed,
}
use jabberoo.Session.Informed.Routed.{dispatch-IsInformed}
use jabberoo.Session.Database.Steps.{
  Step, Reached, connects, pushes, disconnects, sends, registers, registers_xpath,
  unregisters_xpath, queries, adds_feature, fetches_roster, sends_item, deletes_user, dispatches,
  sends_text, takes_id, inserts_presence, removes_presence, clears_presences, sends_unavailable,
  changes_roster, starts, steps,
}
use jabberoo.Session.Stream.{
  send_stream_header, Parsed, document_start, element, cdata, document_end, presences_gone,
  announce, connect, connect_from, store_properties, is_connected, disconnect, push, on_parsed,
  on_all_parsed, on_document_start, on_element, on_cdata,
}

module _ (judo : Judo) (shahash : Str → Str) (check : ℕ → judo.Element → Bool) (env : Env) where
  open judo use {Element, get_attrib}

  abbrev Informed : Session judo → Type 0
  Informed s = IsInformed judo s

  announce-IsInformed : (s : Session judo) → Holds Informed (announce judo shahash check env s)
  unfolding announce emit
  announce-IsInformed s = Holds-last Informed (stream_header judo shahash s) _ (λ h e. refl)

  connected_rest :
      (newuser auth : Bool) (s : Session judo)
      → Informed s
      → let s1 = if newuser then record s { conn_state = create_user } else s in
        Holds Informed
          (if auth then do_authenticate judo shahash s1 else announce judo shahash check env s1)
  connected_rest true auth s w =
      let s1 = record s { conn_state = create_user } in
      Holds-if Informed auth _ _ (do_authenticate-IsInformed judo shahash s1 (λ h. cc))
        (announce-IsInformed s1)
  connected_rest false auth s w =
      Holds-if Informed auth _ _ (do_authenticate-IsInformed judo shahash s w)
        (announce-IsInformed s)

  connect_from-IsInformed :
      (state : ConnectionState) (server : Str) (newuser auth : Bool) (s : Session judo)
      → Informed s
      → Holds Informed (connect_from judo shahash check env state server newuser auth s)
  unfolding connect_from send_stream_header send_text emit
  connect_from-IsInformed connected server newuser auth s w = w
  connect_from-IsInformed not_connected server true auth s w = λ h. cc
  connect_from-IsInformed not_connected server false auth s w = λ h. cc
  connect_from-IsInformed create_user server newuser auth s w = connected_rest newuser auth s w
  connect_from-IsInformed auth_req server newuser auth s w = connected_rest newuser auth s w
  connect_from-IsInformed awaiting_auth server newuser auth s w = connected_rest newuser auth s w

  connect-IsInformed :
      (server : Str) (atype : AuthType) (user resource password : Str) (newuser auth : Bool)
      (s : Session judo)
      → Informed s
      → Holds Informed
          (connect judo shahash check env server atype user resource password newuser auth s)
  unfolding connect store_properties
  connect-IsInformed server atype user resource password newuser auth s w =
      Holds-if Informed (is_connected judo shahash check env s.conn_state) _ _ w
        (connect_from-IsInformed s.conn_state server newuser auth _ w)

  -- The session once the header of the stream is stored.
  abbrev started : Element → Session judo → Session judo
  started t s = record s {
    session_id = get_attrib t (codes "id");
    stream_element = owned t;
    stream_start = true;
  }

  on_document_start-IsInformed :
      (t : Element) (s : Session judo)
      → Informed s
      → Holds Informed (on_document_start judo shahash check env t s)
  unfolding on_document_start
  on_document_start-IsInformed t s w =
      Holds-if Informed s.authenticate _ _ (do_authenticate-IsInformed judo shahash (started t s) w)
        (announce-IsInformed (started t s))

  on_parsed-IsInformed :
      (fuel : ℕ) (p : Parsed judo shahash check env) (s : Session judo)
      → Informed s
      → Holds Informed (on_parsed judo shahash check env fuel p s)
  unfolding on_parsed on_element on_cdata emit
  on_parsed-IsInformed fuel (document_start t) s w = on_document_start-IsInformed t s w
  on_parsed-IsInformed fuel (element t) s w = dispatch-IsInformed judo shahash check env fuel t _ w
  on_parsed-IsInformed fuel cdata s w = w
  on_parsed-IsInformed fuel document_end s w =
      subst Informed (sym (on_document_end_lem judo shahash check env s)) (λ h. cc)

  on_all_parsed-IsInformed :
      (fuel : ℕ) (ps : List (Parsed judo shahash check env)) (s : Session judo)
      → Informed s
      → Holds Informed (on_all_parsed judo shahash check env fuel ps s)
  unfolding on_all_parsed
  on_all_parsed-IsInformed fuel [] s w = w
  on_all_parsed-IsInformed fuel (p ∷ ps) s w =
      Holds-bind Informed Informed (on_parsed judo shahash check env fuel p s) _
        (on_parsed-IsInformed fuel p s w) (λ t h. on_all_parsed-IsInformed fuel ps t h)

  push-IsInformed :
      (fuel : ℕ) (text : Str) (ps : List (Parsed judo shahash check env))
      (failed : Option (ℤ × Str)) (s : Session judo)
      → Informed s
      → Holds Informed (push judo shahash check env fuel text ps failed s)
  unfolding push emit
  push-IsInformed fuel text ps failed s w =
      Holds-bind Informed Informed (on_all_parsed judo shahash check env fuel ps _) _
        (on_all_parsed-IsInformed fuel ps _ w)
        (λ t h. Holds-elim Informed failed _ _ h (λ e.
          subst Informed (sym (on_parser_error_lem judo shahash check env e.0 e.1 t)) (λ k. cc)))

  delete_user-IsInformed :
      (jid : Str) (s : Session judo) → Informed s → Informed (delete_user judo check jid s)
  unfolding delete_user remove_and_unsubscribe query_namespace send_element send_text emit
      register_iq get_next_id
  delete_user-IsInformed jid s w =
      let sent =
        send_packet-IsInformed judo check (build judo jid unsub_request invalid [] (codes "0")).base
          (send_element judo (removal_iq judo jid) s) w in
      elim (Bool-cases (not (found (find_char b'@' jid)) && found (find_char b'/' jid))) [
        | inl h ↦ rw (h, delete_user) sent
        | inr h ↦ rw (h, delete_user) sent
      ]

  presences_gone-IsInformed :
      (ps : List (Presence judo)) (s : Session judo)
      → Informed s
      → Informed (emit_all judo (presences_gone judo shahash check env ps) s)
  unfolding emit_all emit
  presences_gone-IsInformed [] s w = w
  presences_gone-IsInformed (p ∷ ps) s w = presences_gone-IsInformed ps _ w

  Step-IsInformed :
      (s s' : Session judo) → Step judo shahash check env s s' → Informed s → Informed s'
  unfolding fetch_roster send_item query_namespace send_element send_text emit get_next_id
      register_iq disconnect register_xpath unregister_xpath add_feature
  Step-IsInformed _ _ (connects server atype user resource password newuser auth s s' e) w =
      Holds-at Informed _ s' e
        (connect-IsInformed server atype user resource password newuser auth s w)
  Step-IsInformed _ _ (pushes fuel text ps failed s s' e) w =
      Holds-at Informed _ s' e (push-IsInformed fuel text ps failed s w)
  Step-IsInformed _ _ (disconnects s) w = λ h. cc
  Step-IsInformed _ _ (sends e s) w = send_packet-IsInformed judo check e s w
  Step-IsInformed _ _ (registers id f s) w = w
  Step-IsInformed _ _ (registers_xpath query f true s) w = w
  Step-IsInformed _ _ (registers_xpath query f false s) w = w
  Step-IsInformed _ _ (unregisters_xpath query true s) w = w
  Step-IsInformed _ _ (unregisters_xpath query false s) w = w
  Step-IsInformed _ _ (queries nspace f to s) w = w
  Step-IsInformed _ _ (adds_feature feature s) w =
      elim (Bool-cases (not (any (λ f. f == feature) s.features))) [
        | inl h ↦ rw (h, add_feature) w
        | inr h ↦ rw (h, add_feature) w
      ]
  Step-IsInformed _ _ (fetches_roster s) w = w
  Step-IsInformed _ _ (sends_item i s) w = w
  Step-IsInformed _ _ (deletes_user jid s) w = delete_user-IsInformed jid s w
  Step-IsInformed _ _ (dispatches fuel e s s' h) w =
      Holds-at Informed _ s' h (dispatch-IsInformed judo shahash check env fuel e s w)
  Step-IsInformed _ _ (sends_text text s) w = w
  Step-IsInformed _ _ (takes_id s) w = w
  Step-IsInformed _ _ (inserts_presence p s) w = w
  Step-IsInformed _ _ (removes_presence jid s) w = w
  Step-IsInformed _ _ (clears_presences s) w = w
  Step-IsInformed _ _ (sends_unavailable jid s) w =
      presences_gone-IsInformed (PresenceDb.send_unavailable judo jid s.pdb) s w
  Step-IsInformed _ _ (changes_roster roster fired s) w = emit_all-IsInformed judo fired _ w

  Reached-Informed : (s : Session judo) → Reached judo shahash check env s → Informed s
  unfolding initial
  Reached-Informed _ starts = λ h. cc
  Reached-Informed _ (steps s s' r step) = Step-IsInformed s s' step (Reached-Informed s r)

  -- In every state that a session reaches by its client's calls and by what it is sent: if the session
  -- is connected, then of the signals evtConnected, evtDisconnected and evtXMLParserError the one that
  -- was fired last is evtConnected.
  pub Reached-informed :
      (s : Session judo)
      → Reached judo shahash check env s
      → s.conn_state ≡ connected
      → informed judo s.events ≡ true
  Reached-informed s r h = Reached-Informed s r h
