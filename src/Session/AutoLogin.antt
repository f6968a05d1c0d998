-- ===== src/Session/AutoLogin.antt =====
-- The automatic login of src/jabberoo-session.cc: the server is asked for its kinds of login, and the
-- answer chooses one.
pub mod Packets
use jabberoo.Base.{
  Str, codes, Bool, true, false, none, some, [], ◌∷◌, ◌++◌, c_str, ℕ, ◌+◌, ◌<◌, ◌≡◌, ◌==◌, ==_iff,
  ==_refl, refl, if◌then◌else◌, ◌&&◌, ap, ◌∙◌, arith, Bool-cases, inl, inr, is_lt, str_compare,
}
use jabberoo.Base.Map.{place}
use jabberoo.Judo.{Judo}
use jabberoo.Roster.Groups.{plain}
use jabberoo.Session.{
  Session, Event, transmit_xml, Callback, AuthType, plaintext_auth, digest_auth, zero_k_auth,
  auto_auth, on_auth_type, iq_auth, auth_req, awaiting_auth, connected, owned, freed, register_iq,
  get_next_id, get_digest, send_element,
}
use jabberoo.Session.Auth.{
  do_authenticate, request_types, is_auto, send_login, login_query, login_start, zero_k_hash,
  credential, register_if, is_result, offered_type, digest_or_plain, on_auth_type_received,
}
use Packets.{packet, types_query, login_of, chosen, send_login-query, offered_type-chosen}
use jabberoo.Session.Ids.{id_text}
use jabberoo.Session.Ids.Distinct.{id_text-distinct}
use jabberoo.Session.Login.{answered_once}
use jabberoo.Session.Routing.{
  Env, run_callback, first_callback, erase_first, fire_callbacks, handle_iq,
}

module _ (judo : Judo) (shahash : Str → Str) (check : ℕ → judo.Element → Bool) (env : Env) where
  open judo use {
    Element, make, text_element, put_attrib, append_child, to_string, get_attrib, find_element,
  }

  -- A session in state csAuthReq that waits for no reply, whose stream was opened, before an automatic
  -- login.
  abbrev pub ready : Element → Session judo → Session judo
  ready header s = record s {
    conn_state = auth_req;
    auth_type = auto_auth;
    callbacks = [];
    stream_element = owned header;
  }

  -- The session once it has asked.
  abbrev asked : Element → Session judo → Session judo
  asked header s =
      register_iq judo (id_text s.id) on_auth_type (request_types judo shahash (ready header s)).1

  do_authenticate-ready :
      (header : Element) (s : Session judo)
      → do_authenticate judo shahash (ready header s) ≡ some (asked header s)
  unfolding do_authenticate request_types is_auto get_next_id
  do_authenticate-ready header s = refl

  -- The function that was called goes, and the new one stays.
  left_one :
      (id new : Str) (f g : Callback)
      → (new == id) ≡ false
      → (first_callback judo shahash check env id (place plain id f []) ≡ some f)
        × (erase_first judo shahash check env id (place plain new g (place plain id f []))
            ≡ (new, g) ∷ [])
        × (first_callback judo shahash check env id ((new, g) ∷ []) ≡ none)
  unfolding first_callback erase_first place
  left_one id new f g apart =
      let same = ==_refl id in
      (
        rw (same, first_callback) refl,
        elim (Bool-cases (is_lt (str_compare new id))) [
          | inl front ↦ rw (front, apart, same, erase_first) refl
          | inr behind ↦ rw (behind, same, erase_first) refl
        ],
        rw (apart, first_callback) refl,
      )

  handled :
      (fuel : ℕ) (e : Element) (f : Callback) (s : Session judo)
      → first_callback judo shahash check env (get_attrib e (codes "id")) s.callbacks ≡ some f
      → handle_iq judo shahash check env fuel e s
        ≡ fire_callbacks judo shahash check env fuel (get_attrib e (codes "id")) e s
  unfolding handle_iq
  handled fuel e f s found = rw (handle_iq, found) refl

  -- The answer with the kinds of login: one packet more is sent, and its reply is waited for.
  types_lem :
      (header types q : Element) (s : Session judo)
      → s.id + 1 < 1000000
      → get_attrib types (codes "id") ≡ id_text s.id
      → find_element types (codes "query") ≡ some q
      → (t : Session judo) × (handle_iq judo shahash check env 1 types (asked header s) ≡ some t)
        × (t.conn_state ≡ awaiting_auth)
        × (t.callbacks ≡ (id_text (s.id + 1), iq_auth) ∷ [])
        × (t.stream_element ≡ owned header)
        × (t.events
            ≡ packet judo shahash
                (codes "set")
                (id_text (s.id + 1))
                (login_of judo shahash (offered_type judo shahash q) q s)
              ∷ (asked header s).events)
  unfolding fire_callbacks run_callback on_auth_type_received request_types register_iq get_next_id
      send_element
  types_lem header types q s small same offers =
      let id = id_text s.id in
      let new = id_text (s.id + 1) in
      let a = asked header s in
      let (t, sent, state, callbacks, opened, login) =
        send_login-query judo shahash (offered_type judo shahash q) q a refl in
      let (found, erased, none_left) = left_one id new on_auth_type iq_auth (apart s.id small) in
      let ran : on_auth_type_received judo shahash types a ≡ some t =
        rw (on_auth_type_received, offers) sent in
      let gone : erase_first judo shahash check env id t.callbacks ≡ (new, iq_auth) ∷ [] =
        ap (erase_first judo shahash check env id) callbacks ∙ erased in
      let fired : fire_callbacks judo shahash check env 1 id types a
          ≡ some (record t { callbacks = (new, iq_auth) ∷ [] }) =
        rw (fire_callbacks, found, ran)
          (ap (λ cs. fire_callbacks judo shahash check env 0 id types (record t { callbacks = cs }))
              gone
            ∙ rw (fire_callbacks, none_left) refl) in
      (
        record t { callbacks = (new, iq_auth) ∷ [] },
        handled 1 types on_auth_type a
              (ap (λ k. first_callback judo shahash check env k a.callbacks) same ∙ found)
            ∙ ap (λ k. fire_callbacks judo shahash check env 1 k types a) same
            ∙ fired,
        state,
        refl,
        opened,
        login,
      )
    where
      apart : (n : ℕ) → n + 1 < 1000000 → (id_text (n + 1) == id_text n) ≡ false
      apart n small = elim (Bool-cases (id_text (n + 1) == id_text n)) [
        | inl e ↦ absurd (
            id_text-distinct (n + 1) n small (omega arith) (omega arith)
              ((==_iff (id_text (n + 1)) (id_text n)).0 e))
        | inr e ↦ e
      ]

  -- An automatic login of a session in state csAuthReq that waits for no reply, whose stream was opened,
  -- and whose ids stay below a million. It transmits one packet, of type get and with its next id: the
  -- question for the user's kinds of login. A reply with that id and with a query, whatever the query
  -- offers, is answered with one packet, of type set and with the next id: the login
  -- with the user, the resource and the zero-knowledge hash if the query offers a token and a sequence,
  -- else the digest if it offers that, else the password. The session then waits for the reply to it; a
  -- reply of type result with that packet's id makes the session connected, waiting for no reply, with
  -- the header given up.
  pub auto_login-connected :
      (header types q reply : Element) (s : Session judo)
      → s.id + 1 < 1000000
      → get_attrib types (codes "id") ≡ id_text s.id
      → find_element types (codes "query") ≡ some q
      → get_attrib reply (codes "id") ≡ id_text (s.id + 1)
      → is_result judo shahash reply ≡ true
      → (s1 : Session judo) × (s2 : Session judo) × (s3 : Session judo) × (do_authenticate judo
            shahash
            (ready header s)
          ≡ some s1)
        × (s1.events
            ≡ packet judo shahash (codes "get") (id_text s.id) (types_query judo shahash s)
              ∷ s.events)
        × (handle_iq judo shahash check env 1 types s1 ≡ some s2)
        × (s2.events
            ≡ packet judo shahash
                (codes "set")
                (id_text (s.id + 1))
                (login_of judo shahash (chosen judo shahash q) q s)
              ∷ s1.events)
        × (s2.conn_state ≡ awaiting_auth)
        × (handle_iq judo shahash check env 1 reply s2 ≡ some s3)
        × (s3.conn_state ≡ connected)
        × (s3.callbacks ≡ [])
        × (s3.stream_element ≡ freed)
  unfolding request_types register_iq send_element get_next_id
  auto_login-connected header types q reply s small same offers answers result =
      let (s2, chosen, state, waits, opened, login) =
        types_lem header types q s small same offers in
      let (s3, finished, state', left, gone) =
        answered_once judo shahash check env header reply (id_text (s.id + 1)) s2 opened waits
          answers result in
      (
        asked header s,
        s2,
        s3,
        do_authenticate-ready header s,
        refl,
        chosen,
        login
            ∙ ap
                (λ k.
                  packet judo shahash (codes "set") (id_text (s.id + 1))
                    (login_of judo shahash k q s)
                  ∷ (asked header s).events)
                (offered_type-chosen judo shahash q),
        state,
        finished,
        state',
        left,
        gone,
      )
