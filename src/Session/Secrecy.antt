-- ===== src/Session/Secrecy.antt =====
-- What a login packet of src/jabberoo-session.cc tells of the password.
use jabberoo.Base.{Str, true, false, Option, none, some, ◌++◌, ◌≡◌, refl, ◌∙◌, codes, ◌==◌, c_str}
use jabberoo.Judo.{Judo}
use jabberoo.Judo.Laws.{
  find_element-append_child, find_element-put_attrib, find_element-make,
  get_child_cdata-append_text_new,
}
use jabberoo.Session.{
  Session, digest_auth, auth_req, create_user, not_connected, awaiting_auth, connected, iq_auth,
  iq_create_user, get_digest,
}
use jabberoo.Session.Auth.{login_start, login_query, credential}

module _ (judo : Judo) (shahash : Str → Str) where
  open judo use {
    Element, text_element, put_attrib, append_child, find_element, get_child_cdata,
    get_name-text_element,
  }

  -- The query of a namespace before what shows that the password is known.
  abbrev begun : Str → Session judo → Element
  begun ns s = put_attrib (login_start judo shahash s) (codes "xmlns") ns

  find_element-login_start :
      (s : Session judo) (n : Str)
      → (codes "username" == n) ≡ false
      → (codes "resource" == n) ≡ false
      → find_element (login_start judo shahash s) n ≡ none
  unfolding login_start
  find_element-login_start s n h k =
      rw
        (
          find_element-append_child judo,
          find_element-append_child judo,
          find_element-make judo,
          get_name-text_element,
          h,
          get_name-text_element,
          k,
        )
        refl

  find_element-begun :
      (ns : Str) (s : Session judo) (n : Str)
      → (codes "username" == n) ≡ false
      → (codes "resource" == n) ≡ false
      → find_element (begun ns s) n ≡ none
  find_element-begun ns s n h k =
      find_element-put_attrib judo (login_start judo shahash s) (codes "xmlns") ns n
      ∙ find_element-login_start s n h k

  find_element-with :
      (ns : Str) (s : Session judo) (m v n : Str)
      → (codes "username" == n) ≡ false
      → (codes "resource" == n) ≡ false
      → (m == n) ≡ false
      → find_element (append_child (begun ns s) (text_element m v)) n ≡ none
  find_element-with ns s m v n h k l =
      rw (find_element-append_child judo, find_element-begun ns s n h k, get_name-text_element, l)
        refl

  get_child_cdata-with :
      (ns : Str) (s : Session judo) (m v : Str)
      → (codes "username" == m) ≡ false
      → (codes "resource" == m) ≡ false
      → (m == m) ≡ true
      → get_child_cdata (append_child (begun ns s) (text_element m v)) m ≡ v
  get_child_cdata-with ns s m v h k r =
      get_child_cdata-append_text_new judo (begun ns s) m v r (find_element-begun ns s m h k)

  -- The query of a login with digest authentication, by the state of the connection. In csAuthReq it
  -- has no <password> child, its <digest> is the hash of the session's id with the password, and
  -- IQHandler_Auth waits for the reply. In csCreateUser it has no <digest>, its <password> is the
  -- password as it is, and IQHandler_CreateUser waits. In the other states it has neither, and nothing
  -- waits.
  pub login_query-digest :
      (squery : Option Element) (s : Session judo)
      → (q : Element) × (new : Element) × (bare : Element) × (login_query judo shahash auth_req
            digest_auth squery s
          ≡ some (q, some iq_auth))
        × (find_element q (codes "password") ≡ none)
        × (get_child_cdata q (codes "digest") ≡ shahash (c_str (s.session_id ++ s.password)))
        × (login_query judo shahash create_user digest_auth squery s
            ≡ some (new, some iq_create_user))
        × (find_element new (codes "digest") ≡ none)
        × (get_child_cdata new (codes "password") ≡ s.password)
        × (login_query judo shahash not_connected digest_auth squery s ≡ some (bare, none))
        × (login_query judo shahash awaiting_auth digest_auth squery s ≡ some (bare, none))
        × (login_query judo shahash connected digest_auth squery s ≡ some (bare, none))
        × (find_element bare (codes "digest") ≡ none)
        × (find_element bare (codes "password") ≡ none)
  unfolding login_query credential get_digest ◌==◌
  login_query-digest squery s =
      let auth = codes "jabber:iq:auth" in
      let register = codes "jabber:iq:register" in
      let digest = get_digest judo shahash s in
      (
        append_child (begun auth s) (text_element (codes "digest") digest),
        append_child (begun register s) (text_element (codes "password") s.password),
        login_start judo shahash s,
        refl,
        find_element-with auth s (codes "digest") digest (codes "password") refl refl refl,
        get_child_cdata-with auth s (codes "digest") digest refl refl refl,
        refl,
        find_element-with register s (codes "password") s.password (codes "digest") refl refl refl,
        get_child_cdata-with register s (codes "password") s.password refl refl refl,
        refl,
        refl,
        refl,
        find_element-login_start s (codes "digest") refl refl,
        find_element-login_start s (codes "password") refl refl,
      )
