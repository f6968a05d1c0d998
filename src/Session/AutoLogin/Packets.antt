-- ===== src/Session/AutoLogin/Packets.antt =====
-- The two packets that an automatic login of src/jabberoo-session.cc transmits.
use jabberoo.Base.{
  Str, codes, Bool, true, false, none, some, ◌∷◌, ◌++◌, c_str, ◌≡◌, refl, if◌then◌else◌, ◌&&◌,
  arith,
}
use jabberoo.Base.Map.{place}
use jabberoo.Judo.{Judo}
use jabberoo.Roster.Groups.{plain}
use jabberoo.Session.{
  Session, Event, transmit_xml, AuthType, plaintext_auth, digest_auth, zero_k_auth, auto_auth,
  iq_auth, auth_req, awaiting_auth, register_iq, get_next_id, get_digest, send_element,
}
use jabberoo.Session.Auth.{
  send_login, login_query, login_start, zero_k_hash, credential, register_if, offered_type,
  digest_or_plain,
}
use jabberoo.Session.Ids.{id_text}

module _ (judo : Judo) (shahash : Str → Str) where
  open judo use {
    Element, make, text_element, put_attrib, append_child, to_string, get_attrib, find_element,
  }

  -- A packet of this type and id with this query, as it is transmitted.
  abbrev pub packet : Str → Str → Element → Event judo
  packet type id query =
      let iq = put_attrib (put_attrib (make (codes "iq")) (codes "type") type) (codes "id") id in
      transmit_xml (c_str (to_string (append_child iq query)))

  -- The question for the user's kinds of login.
  abbrev pub types_query : Session judo → Element
  types_query s =
      append_child (put_attrib (make (codes "query")) (codes "xmlns") (codes "jabber:iq:auth"))
        (text_element (codes "username") s.username)

  -- The login of a kind: the user, the resource and what shows that the password is known.
  abbrev pub login_of : AuthType → Element → Session judo → Element
  login_of kind q s =
      let user = append_child (make (codes "query")) (text_element (codes "username") s.username) in
      let query =
        put_attrib (append_child user (text_element (codes "resource") s.resource)) (codes "xmlns")
          (codes "jabber:iq:auth") in
      elim kind [
        | plaintext_auth ↦ append_child query (text_element (codes "password") s.password)
        | digest_auth ↦
            append_child query
              (text_element (codes "digest") (shahash (c_str (s.session_id ++ s.password))))
        | zero_k_auth ↦
            append_child query (text_element (codes "hash") (zero_k_hash judo shahash s.password q))
        | auto_auth ↦ query
      ]

  abbrev pub offers : Str → Element → Bool
  offers name q = elim (find_element q name) [ some e ↦ true | none ↦ false ]

  -- The kind of login by what is offered.
  abbrev pub chosen : Element → AuthType
  chosen q =
      if offers (codes "token") q && offers (codes "sequence") q
      then zero_k_auth
      else if offers (codes "digest") q
      then digest_auth
      else plaintext_auth

  pub offered_type-chosen : (q : Element) → offered_type judo shahash q ≡ chosen q
  unfolding offered_type digest_or_plain
  offered_type-chosen q = ground arith

  -- With a query in hand every kind of login sends its packet.
  pub send_login-query :
      (atype : AuthType) (q : Element) (s : Session judo)
      → s.conn_state ≡ auth_req
      → (t : Session judo) × (send_login judo shahash atype (some q) s ≡ some t)
        × (t.conn_state ≡ awaiting_auth)
        × (t.callbacks ≡ place plain (id_text s.id) iq_auth s.callbacks)
        × (t.stream_element ≡ s.stream_element)
        × (t.events ≡ packet (codes "set") (id_text s.id) (login_of atype q s) ∷ s.events)
  unfolding send_login login_query login_start get_digest credential register_if register_iq
      get_next_id send_element
  send_login-query plaintext_auth q s state =
      rw (state, send_login) (_, refl, refl, refl, refl, refl)
  send_login-query digest_auth q s state = rw (state, send_login) (_, refl, refl, refl, refl, refl)
  send_login-query zero_k_auth q s state = rw (state, send_login) (_, refl, refl, refl, refl, refl)
  send_login-query auto_auth q s state = rw (state, send_login) (_, refl, refl, refl, refl, refl)
