-- ===== src/Session/Database/Reached.antt =====
-- The presence database of a session of src/jabberoo-session.cc in the states that the calls of its
-- client lead to.
use jabberoo.Base.{
  codes, not, ◌&&◌, find_char, Str, Bool, true, false, Option, List, [], ◌∷◌, ℕ, ◌≡◌, refl, arith,
  if◌then◌else◌, Bool-cases, inl, inr, ◌∙◌, sym, subst,
}
use jabberoo.Base.Int.{ℤ}
use jabberoo.Judo.{Judo}
use jabberoo.Jid.{found}
use jabberoo.Presence.{build, unsub_request, invalid}
use jabberoo.PresenceDb
use jabberoo.PresenceDb.WellFormed.{IsWellFormed, insert-IsWellFormed, remove-IsWellFormed}
use jabberoo.Session.{
  Session, AuthType, Callback, ConnectionState, not_connected, create_user, auth_req, awaiting_auth,
  connected, initial, emit, send_element, send_text, register_iq, register_xpath, unregister_xpath,
  query_namespace, get_next_id, add_feature, delete_agent, owned,
}
use jabberoo.Session.Requests.{
  fetch_roster, delete_user, remove_and_unsubscribe, send_item, removal_iq,
}
use jabberoo.Session.Auth.{do_authenticate, stream_header}
use jabberoo.Session.Database.Kept.{
  Holds, Holds-at, Holds-bind, Holds-map, Holds-last, Holds-if, Holds-elim, Keeps,
  do_authenticate-pdb, send_packet-pdb, emit_all-pdb,
}
use jabberoo.Session.Database.Steps.{
  Step, Reached, connects, pushes, disconnects, sends, registers, registers_xpath,
  unregisters_xpath, queries, adds_feature, fetches_roster, sends_item, deletes_user, dispatches,
  sends_text, takes_id, inserts_presence, removes_presence, clears_presences, sends_unavailable,
  changes_roster, starts, steps,
}
use jabberoo.Session.Database.Received.{dispatch-IsWellFormed}
use jabberoo.Session.Routing.{Env}
use jabberoo.Session.Closing.{on_document_end_lem, on_parser_error_lem}
use jabberoo.Session.Stream.{
  send_stream_header, Parsed, document_start, element, cdata, document_end, announce, connect,
  connect_from, store_properties, is_connected, disconnect, push, on_parsed, on_all_parsed,
  on_document_start, on_element, on_cdata,
}

module _ (judo : Judo) (shahash : Str → Str) (check : ℕ → judo.Element → Bool) (env : Env) where
  open judo use {Element, get_attrib}

  abbrev Good : Session judo → Type 0
  Good s = IsWellFormed judo s.pdb

  -- A session with the same database is as good.
  kept : (s : Session judo) (o : Option (Session judo)) → Good s → Keeps judo s.pdb o → Holds Good o
  kept s o w k =
      Holds-map (λ t. t.pdb ≡ s.pdb) Good o k (λ t e. subst (IsWellFormed judo) (sym e) w)

  announce-pdb : (s : Session judo) → Keeps judo s.pdb (announce judo shahash check env s)
  unfolding announce emit
  announce-pdb s = Holds-last (λ t. t.pdb ≡ s.pdb) (stream_header judo shahash s) _ (λ h. refl)

  connected_rest :
      (newuser auth : Bool) (s : Session judo)
      → let s1 = if newuser then record s { conn_state = create_user } else s in
        Keeps judo s.pdb
          (if auth then do_authenticate judo shahash s1 else announce judo shahash check env s1)
  connected_rest true auth s =
      let s1 = record s { conn_state = create_user } in
      Holds-if (λ t. t.pdb ≡ s.pdb) auth _ _ (do_authenticate-pdb judo shahash s1) (announce-pdb s1)
  connected_rest false auth s =
      Holds-if (λ t. t.pdb ≡ s.pdb) auth _ _ (do_authenticate-pdb judo shahash s) (announce-pdb s)

  connect_from-pdb :
      (state : ConnectionState) (server : Str) (newuser auth : Bool) (s : Session judo)
      → Keeps judo s.pdb (connect_from judo shahash check env state server newuser auth s)
  unfolding connect_from send_stream_header send_text emit
  connect_from-pdb connected server newuser auth s = refl
  connect_from-pdb not_connected server newuser auth s = refl
  connect_from-pdb create_user server newuser auth s = connected_rest newuser auth s
  connect_from-pdb auth_req server newuser auth s = connected_rest newuser auth s
  connect_from-pdb awaiting_auth server newuser auth s = connected_rest newuser auth s

  connect-pdb :
      (server : Str) (atype : AuthType) (user resource password : Str) (newuser auth : Bool)
      (s : Session judo)
      → Keeps judo s.pdb
          (connect judo shahash check env server atype user resource password newuser auth s)
  unfolding connect store_properties
  connect-pdb server atype user resource password newuser auth s =
      Holds-if (λ t. t.pdb ≡ s.pdb) (is_connected judo shahash check env s.conn_state) _ _ refl
        (connect_from-pdb s.conn_state server newuser auth _)

  disconnect-pdb : (s : Session judo) → (disconnect judo shahash check env s).1.pdb ≡ s.pdb
  unfolding disconnect send_text emit
  disconnect-pdb s = ground arith

  -- The session once the header of the stream is stored.
  abbrev started : Element → Session judo → Session judo
  started t s = record s {
    session_id = get_attrib t (codes "id");
    stream_element = owned t;
    stream_start = true;
  }

  on_document_start-pdb :
      (t : Element) (s : Session judo)
      → Keeps judo s.pdb (on_document_start judo shahash check env t s)
  unfolding on_document_start
  on_document_start-pdb t s =
      Holds-if (λ t. t.pdb ≡ s.pdb) s.authenticate _ _
        (do_authenticate-pdb judo shahash (started t s)) (announce-pdb (started t s))

  on_parsed-Good :
      (fuel : ℕ) (p : Parsed judo shahash check env) (s : Session judo)
      → Good s
      → Holds Good (on_parsed judo shahash check env fuel p s)
  unfolding on_parsed on_element on_cdata emit
  on_parsed-Good fuel (document_start t) s w = kept s _ w (on_document_start-pdb t s)
  on_parsed-Good fuel (element t) s w = dispatch-IsWellFormed judo shahash check env fuel t _ w
  on_parsed-Good fuel cdata s w = w
  on_parsed-Good fuel document_end s w =
      subst Good (sym (on_document_end_lem judo shahash check env s)) tt

  on_all_parsed-Good :
      (fuel : ℕ) (ps : List (Parsed judo shahash check env)) (s : Session judo)
      → Good s
      → Holds Good (on_all_parsed judo shahash check env fuel ps s)
  unfolding on_all_parsed
  on_all_parsed-Good fuel [] s w = w
  on_all_parsed-Good fuel (p ∷ ps) s w =
      Holds-bind Good Good (on_parsed judo shahash check env fuel p s) _ (on_parsed-Good fuel p s w)
        (λ t h. on_all_parsed-Good fuel ps t h)

  push-Good :
      (fuel : ℕ) (text : Str) (ps : List (Parsed judo shahash check env))
      (failed : Option (ℤ × Str)) (s : Session judo)
      → Good s
      → Holds Good (push judo shahash check env fuel text ps failed s)
  unfolding push emit
  push-Good fuel text ps failed s w =
      Holds-bind Good Good (on_all_parsed judo shahash check env fuel ps _) _
        (on_all_parsed-Good fuel ps _ w)
        (λ t h.
          Holds-elim Good failed _ _ h
            (λ e. subst Good (sym (on_parser_error_lem judo shahash check env e.0 e.1 t)) h))

  registrations-pdb :
      (query f : ℕ) (incoming : Bool) (s : Session judo)
      → ((register_xpath judo query f incoming s).pdb ≡ s.pdb)
        × ((unregister_xpath judo query incoming s).pdb ≡ s.pdb)
  unfolding register_xpath unregister_xpath
  registrations-pdb query f true s = (refl, refl)
  registrations-pdb query f false s = (refl, refl)

  add_feature-pdb : (feature : Str) (s : Session judo) → (add_feature judo feature s).pdb ≡ s.pdb
  unfolding add_feature
  add_feature-pdb feature s = ground arith

  query_namespace-pdb :
      (nspace : Str) (f : Callback) (to : Str) (s : Session judo)
      → (query_namespace judo nspace f to s).pdb ≡ s.pdb
  unfolding query_namespace send_element send_text emit register_iq get_next_id
  query_namespace-pdb nspace f to s = refl

  delete_user-pdb : (jid : Str) (s : Session judo) → (delete_user judo check jid s).pdb ≡ s.pdb
  unfolding delete_user remove_and_unsubscribe send_element send_text emit
  delete_user-pdb jid s =
      let s2 = remove_and_unsubscribe judo check jid s in
      let sent =
        send_packet-pdb judo check (build judo jid unsub_request invalid [] (codes "0")).base
          (send_element judo (removal_iq judo jid) s) in
      elim (Bool-cases (not (found (find_char b'@' jid)) && found (find_char b'/' jid))) [
        | inl h ↦
            rw (h, delete_user)
              (query_namespace-pdb (codes "jabber:iq:register") delete_agent jid s2 ∙ sent)
        | inr h ↦ rw (h, delete_user) sent
      ]

  Step-Good : (s s' : Session judo) → Step judo shahash check env s s' → Good s → Good s'
  unfolding fetch_roster send_item send_element send_text emit get_next_id register_iq
      PresenceDb.clear
  Step-Good _ _ (connects server atype user resource password newuser auth s s' e) w =
      Holds-at Good _ s' e
        (kept s _ w (connect-pdb server atype user resource password newuser auth s))
  Step-Good _ _ (pushes fuel text ps failed s s' e) w =
      Holds-at Good _ s' e (push-Good fuel text ps failed s w)
  Step-Good _ _ (disconnects s) w = subst (IsWellFormed judo) (sym (disconnect-pdb s)) w
  Step-Good _ _ (sends e s) w = subst (IsWellFormed judo) (sym (send_packet-pdb judo check e s)) w
  Step-Good _ _ (registers id f s) w = w
  Step-Good _ _ (registers_xpath query f incoming s) w =
      subst (IsWellFormed judo) (sym (registrations-pdb query f incoming s).0) w
  Step-Good _ _ (unregisters_xpath query incoming s) w =
      subst (IsWellFormed judo) (sym (registrations-pdb query 0 incoming s).1) w
  Step-Good _ _ (queries nspace f to s) w =
      subst (IsWellFormed judo) (sym (query_namespace-pdb nspace f to s)) w
  Step-Good _ _ (adds_feature feature s) w =
      subst (IsWellFormed judo) (sym (add_feature-pdb feature s)) w
  Step-Good _ _ (fetches_roster s) w = w
  Step-Good _ _ (sends_item i s) w = w
  Step-Good _ _ (deletes_user jid s) w = subst (IsWellFormed judo) (sym (delete_user-pdb jid s)) w
  Step-Good _ _ (dispatches fuel e s s' h) w =
      Holds-at Good _ s' h (dispatch-IsWellFormed judo shahash check env fuel e s w)
  Step-Good _ _ (sends_text text s) w = w
  Step-Good _ _ (takes_id s) w = w
  Step-Good _ _ (inserts_presence p s) w = insert-IsWellFormed judo p s.pdb w
  Step-Good _ _ (removes_presence jid s) w = remove-IsWellFormed judo jid s.pdb w
  Step-Good _ _ (clears_presences s) w = tt
  Step-Good _ _ (sends_unavailable jid s) w =
      subst (IsWellFormed judo) (sym (emit_all-pdb judo _ s)) w
  Step-Good _ _ (changes_roster roster fired s) w =
      subst (IsWellFormed judo) (sym (emit_all-pdb judo _ _)) w

  -- In every state that a session reaches by its client's calls, those of the roster and of the presence
  -- database that it gives out included, and by what it is sent, the presence database is well-formed.
  pub Reached-IsWellFormed :
      (s : Session judo) → Reached judo shahash check env s → IsWellFormed judo s.pdb
  unfolding initial
  Reached-IsWellFormed _ starts = tt
  Reached-IsWellFormed _ (steps s s' r step) = Step-Good s s' step (Reached-IsWellFormed s r)
