-- ===== src/Session/Auth.antt =====
-- The authentication of src/jabberoo-session.cc. `shahash` (src/sha.c) is a parameter.
use jabberoo.Base.{
  Str, Bool, true, false, Option, none, some, ◌++◌, ℕ, zero, suc, if◌then◌else◌, codes, c_str,
}
use jabberoo.Base.Int.{ℤ, pos, negsuc, atoi}
use jabberoo.Judo.{Judo}
use jabberoo.Session.{
  Session, AuthType, ConnectionState, Callback, plaintext_auth, digest_auth, auto_auth, zero_k_auth,
  not_connected, create_user, auth_req, awaiting_auth, connected, on_auth_type, iq_auth,
  iq_create_user, unset, freed, owned, emit, send_element, get_next_id, get_digest, register_iq,
  iq_of, connected_to, auth_error, ◌>>=◌,
}
use jabberoo.Session.Requests.{fetch_roster}

-- `for (i = 0; i < seq; i++) hash = shahash(hash)`
unfoldable pub hash_times : (Str → Str) → ℕ → Str → Str
hash_times shahash zero hash = hash
hash_times shahash (suc n) hash = hash_times shahash n (shahash (c_str hash))

-- A negative count makes no round.
unfoldable pub rounds : ℤ → ℕ
rounds (pos n) = n
rounds (negsuc n) = 0

module _ (judo : Judo) (shahash : Str → Str) where
  open judo use {
    Element, make, text_element, get_attrib, put_attrib, append_child, to_string, find_element,
    get_child_cdata, cmp_attrib, children, get_cdata,
  }

  -- The hash of the zero-knowledge login.
  unfoldable pub zero_k_hash : Str → Element → Str
  unfolding hash_times rounds atoi
  zero_k_hash password squery =
      let hash_a = shahash (c_str password) in
      let token = get_child_cdata squery (codes "token") in
      let seq = atoi (get_child_cdata squery (codes "sequence")) in
      hash_times shahash (rounds seq) (shahash (c_str (hash_a ++ token)))

  -- The passphrase of the chosen kind. Without a query the zero-knowledge login reads through a
  -- null pointer; the automatic type, which the callers resolve, adds nothing.
  unfoldable pub credential : AuthType → Option Element → Session judo → Element → Option Element
  unfolding get_digest
  credential digest_auth squery s query =
      some (append_child query (text_element (codes "digest") (get_digest judo shahash s)))
  credential plaintext_auth squery s query =
      some (append_child query (text_element (codes "password") s.password))
  credential zero_k_auth none s query = none
  credential zero_k_auth (some squery) s query =
      some (append_child query (text_element (codes "hash") (zero_k_hash s.password squery)))
  credential auto_auth squery s query = some query

  -- `<query>` with the user name and the resource.
  unfoldable pub login_start : Session judo → Element
  login_start s =
      append_child
        (append_child (make (codes "query")) (text_element (codes "username") s.username))
        (text_element (codes "resource") s.resource)

  -- The query by connection state, with the callback that awaits the answer.
  unfoldable pub login_query :
      ConnectionState
      → AuthType
      → Option Element
      → Session judo
      → Option (Element × Option Callback)
  unfolding login_start credential
  login_query create_user atype squery s = some (
    append_child (put_attrib (login_start s) (codes "xmlns") (codes "jabber:iq:register"))
        (text_element (codes "password") s.password),
    some iq_create_user,
  )
  login_query auth_req atype squery s =
      credential atype squery s
        (put_attrib (login_start s) (codes "xmlns") (codes "jabber:iq:auth"))
      >>= λ query. some (query, some iq_auth)
  login_query not_connected atype squery s = some (login_start s, none)
  login_query awaiting_auth atype squery s = some (login_start s, none)
  login_query connected atype squery s = some (login_start s, none)

  unfoldable pub register_if : Option Callback → Str → Session judo → Session judo
  unfolding register_iq
  register_if none id s = s
  register_if (some f) id s = register_iq judo id f s

  unfoldable pub send_login : AuthType → Option Element → Session judo → Option (Session judo)
  unfolding login_query register_if send_element get_next_id iq_of
  send_login atype squery s =
      let (id, s1) = get_next_id judo s in
      login_query s.conn_state atype squery s1 >>= λ q.
      let s2 = register_if q.1 id s1 in
      let s3 = send_element judo (append_child (iq_of judo (codes "set") id) q.0) s2 in
      some (record s3 { conn_state = awaiting_auth })

  unfoldable pub is_auto : AuthType → Bool
  is_auto plaintext_auth = false
  is_auto digest_auth = false
  is_auto auto_auth = true
  is_auto zero_k_auth = false

  -- The request for the supported types, sent; its id comes with it.
  unfoldable pub request_types : Session judo → Str × Session judo
  unfolding get_next_id send_element iq_of
  request_types s =
      let (id, s1) = get_next_id judo s in
      let query =
        append_child (put_attrib (make (codes "query")) (codes "xmlns") (codes "jabber:iq:auth"))
          (text_element (codes "username") s.username) in
      (id, send_element judo (append_child (iq_of judo (codes "get") id) query) s1)

  unfoldable pub do_authenticate : Session judo → Option (Session judo)
  unfolding is_auto request_types send_login register_iq
  do_authenticate s =
      let (id, s1) = request_types s in
      if is_auto s.auth_type
      then some (register_iq judo id on_auth_type s1)
      else send_login s.auth_type none s1

  unfoldable pub digest_or_plain : Element → AuthType
  digest_or_plain query = elim (find_element query (codes "digest")) [
    | some digest ↦ digest_auth
    | none ↦ plaintext_auth
  ]

  -- The last of the kinds that the query offers, in the order of the tests.
  unfoldable pub offered_type : Element → AuthType
  unfolding digest_or_plain
  offered_type query = elim (find_element query (codes "token")) [
    | some token ↦ elim (find_element query (codes "sequence")) [
      | some sequence ↦ zero_k_auth
      | none ↦ digest_or_plain query
    ]
    | none ↦ digest_or_plain query
  ]

  -- An element without children has no query either.
  unfoldable pub on_auth_type_received : Element → Session judo → Option (Session judo)
  unfolding offered_type send_login
  on_auth_type_received t s = elim (find_element t (codes "query")) [
    | none ↦ send_login plaintext_auth none s
    | some query ↦ send_login (offered_type query) (some query) s
  ]

  -- `*_StreamElement`
  unfoldable pub stream_header : Session judo → Option Element
  stream_header s = elim s.stream_element [ owned e ↦ some e | unset ↦ none | freed ↦ none ]

  unfoldable pub is_result : Element → Bool
  is_result t = cmp_attrib t (codes "type") (codes "result")

  -- Session::IQHandler_Auth
  unfoldable pub handle_auth : Element → Session judo → Option (Session judo)
  unfolding stream_header is_result emit fetch_roster atoi
  handle_auth t s =
      if is_result t
      then (stream_header s >>= λ header.
          let s1 = emit judo (connected_to header) (record s { conn_state = connected }) in
          let s2 = if s1.authenticate then fetch_roster judo s1 else s1 in
          some (record s2 { stream_element = freed }))
      else elim (find_element t (codes "error")) [
        | some error ↦ some (
            emit judo
              (auth_error (atoi (get_attrib error (codes "code"))) (c_str (get_cdata error)))
              (record s { conn_state = auth_req }))
        | none ↦ some (emit judo (auth_error (negsuc 0) (c_str (to_string t))) s)
      ]

  -- Session::IQHandler_CreateUser
  unfoldable pub handle_create_user : Element → Session judo → Option (Session judo)
  unfolding is_result emit do_authenticate atoi
  handle_create_user t s =
      let s1 = record s { conn_state = auth_req } in
      if is_result t then do_authenticate s1 else elim (find_element t (codes "error")) [
        | some error ↦ some (
            emit judo
              (auth_error (atoi (get_attrib error (codes "code"))) (c_str (get_cdata error))) s1)
        | none ↦ some s1
      ]
