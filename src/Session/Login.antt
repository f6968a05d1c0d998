-- ===== src/Session/Login.antt =====
-- The login of src/jabberoo-session.cc from doAuthenticate to the answer of the server.
use jabberoo.Base.{
  Str, codes, Bool, true, some, [], ◌∷◌, ℕ, ◌+◌, ◌≡◌, refl, Bool-cases, inl, inr, ap, ◌∙◌, ==_refl,
}
use jabberoo.Judo.{Judo}
use jabberoo.Session.{
  Session, Callback, digest_auth, auth_req, awaiting_auth, connected, owned, freed, iq_auth, emit,
  send_element, get_next_id, register_iq, get_digest, iq_of,
}
use jabberoo.Session.Requests.{fetch_roster}
use jabberoo.Session.Auth.{
  do_authenticate, send_login, handle_auth, register_if, request_types, login_start, login_query,
  is_auto, credential, is_result, stream_header,
}
use jabberoo.Session.Ids.{id_text}
use jabberoo.Session.Routing.{
  Env, handle_iq, fire_callbacks, run_callback, first_callback, erase_first,
}

module _ (judo : Judo) (shahash : Str → Str) (check : ℕ → judo.Element → Bool) (env : Env) where
  open judo use {Element, get_attrib, cmp_attrib, put_attrib, append_child, text_element}

  -- The session after the second packet of a login with a digest.
  abbrev waiting : Session judo → Session judo
  waiting s =
      let s1 = (request_types judo shahash s).1 in
      let (id, s2) = get_next_id judo s1 in
      let query =
        append_child
          (put_attrib (login_start judo shahash s) (codes "xmlns") (codes "jabber:iq:auth"))
          (text_element (codes "digest") (get_digest judo shahash s)) in
      record (send_element judo (append_child (iq_of judo (codes "set") id) query)
        (register_iq judo id iq_auth s2)) { conn_state = awaiting_auth }

  -- A session in state csAuthReq that waits for no reply, whose stream was opened, before a login
  -- with a digest.
  abbrev pub ready : Element → Session judo → Session judo
  ready header s = record s {
    conn_state = auth_req;
    auth_type = digest_auth;
    callbacks = [];
    stream_element = owned header;
  }

  do_authenticate-ready :
      (header : Element) (s : Session judo)
      → do_authenticate judo shahash (ready header s) ≡ some (waiting (ready header s))
  unfolding do_authenticate send_login request_types login_query credential register_if get_next_id
      is_auto send_element login_start get_digest
  do_authenticate-ready header s = refl

  -- What the answer of type result makes of a session that waits for it.
  answered-connected :
      (header reply : Element) (s : Session judo)
      → s.stream_element ≡ owned header
      → is_result judo shahash reply ≡ true
      → (s2 : Session judo) × (handle_auth judo shahash reply s ≡ some s2)
        × (s2.conn_state ≡ connected)
        × (s2.callbacks ≡ s.callbacks)
        × (s2.stream_element ≡ freed)
  unfolding handle_auth stream_header emit fetch_roster send_element get_next_id
  answered-connected header reply s opened result = elim (Bool-cases s.authenticate) [
    | inl a ↦ rw (result, handle_auth, opened, a) (_, refl, refl, refl, refl)
    | inr a ↦ rw (result, handle_auth, opened, a) (_, refl, refl, refl, refl)
  ]

  only :
      (id : Str) (f : Callback)
      → (first_callback judo shahash check env id ((id, f) ∷ []) ≡ some f)
        × (erase_first judo shahash check env id ((id, f) ∷ []) ≡ [])
  unfolding first_callback erase_first
  only id f = rw (==_refl id) (refl, refl)

  -- The loop over the callbacks, where one function is registered and succeeds.
  fire_once :
      (reply : Element) (id : Str) (f : Callback) (s s2 : Session judo)
      → run_callback judo shahash check env f reply s ≡ some s2
      → s.callbacks ≡ (id, f) ∷ []
      → s2.callbacks ≡ (id, f) ∷ []
      → fire_callbacks judo shahash check env 1 id reply s ≡ some (record s2 { callbacks = [] })
  unfolding fire_callbacks
  fire_once reply id f s s2 ran before after =
      let found = ap (first_callback judo shahash check env id) before ∙ (only id f).0 in
      let erased = ap (erase_first judo shahash check env id) after ∙ (only id f).1 in
      rw (fire_callbacks, found, ran)
        (ap (λ cs. fire_callbacks judo shahash check env 0 id reply (record s2 { callbacks = cs }))
          erased)

  -- The answer to the only callback that is waited for.
  pub answered_once :
      (header reply : Element) (id : Str) (s : Session judo)
      → s.stream_element ≡ owned header
      → s.callbacks ≡ (id, iq_auth) ∷ []
      → get_attrib reply (codes "id") ≡ id
      → is_result judo shahash reply ≡ true
      → (s2 : Session judo) × (handle_iq judo shahash check env 1 reply s ≡ some s2)
        × (s2.conn_state ≡ connected)
        × (s2.callbacks ≡ [])
        × (s2.stream_element ≡ freed)
  unfolding handle_iq run_callback
  answered_once header reply id s opened one same result =
      let (s2, handled, state, left, gone) = answered-connected header reply s opened result in
      (
        record s2 { callbacks = [] },
        handled_by_first
            ∙ ap (λ k. fire_callbacks judo shahash check env 1 k reply s) same
            ∙ fire_once reply id iq_auth s s2 handled one (left ∙ one),
        state,
        refl,
        gone,
      )
    where
      handled_by_first :
          handle_iq judo shahash check env 1 reply s
          ≡ fire_callbacks judo shahash check env 1 (get_attrib reply (codes "id")) reply s
      handled_by_first =
          let found =
            ap (λ k. first_callback judo shahash check env k s.callbacks) same
            ∙ ap (first_callback judo shahash check env id) one
            ∙ (only id iq_auth).0 in
          rw (handle_iq, found) refl

  -- A login with a digest, of a session in state csAuthReq that waits for no reply and whose stream
  -- was opened: it then waits for the reply to its second packet; a reply of type result with that
  -- packet's id makes the session connected, waiting for no reply, with the header given up.
  pub login-connected :
      (header reply : Element) (s : Session judo)
      → get_attrib reply (codes "id") ≡ id_text (s.id + 1)
      → is_result judo shahash reply ≡ true
      → (s1 : Session judo) × (s2 : Session judo) × (do_authenticate judo shahash (ready header s)
          ≡ some s1)
        × (s1.conn_state ≡ awaiting_auth)
        × (handle_iq judo shahash check env 1 reply s1 ≡ some s2)
        × (s2.conn_state ≡ connected)
        × (s2.callbacks ≡ [])
        × (s2.stream_element ≡ freed)
  unfolding request_types send_element register_iq get_next_id
  login-connected header reply s same result =
      let s1 = waiting (ready header s) in
      let (s2, handled, state, left, gone) =
        answered_once header reply (id_text (s.id + 1)) s1 refl refl same result in
      (s1, s2, do_authenticate-ready header s, refl, handled, state, left, gone)
