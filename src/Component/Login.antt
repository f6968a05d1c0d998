-- ===== src/Component/Login.antt =====
-- The login of a component (src/jabberoo-component-session.cpp), with the digest of src/sha.c.
use jabberoo.Base.{
  Str, Bool, false, some, [], ◌∷◌, ◌++◌, ℕ, ◌%◌, codes, length, c_str, ◌≡◌, ◌≢◌, refl, All, inl,
  ◌==◌, inl,
}
use jabberoo.Judo.{Judo}
use jabberoo.Session.{◌>>=◌}
use jabberoo.Component.{
  ComponentSession, not_connected, connected, transmit_xml, connected_signal, document_start,
  element, connect, push,
}
use jabberoo.Sha.{shahash, strprintsha}
use jabberoo.Sha.Schedule.{IsByte}
use jabberoo.Sha.Digest.{standard_digest, shahash-standard_digest}

module _ (judo : Judo) (check : ℕ → judo.Element → Bool) where
  open judo use {Element, get_name, get_attrib}

  -- A component that is not connected connects, and the server sends its header and a handshake.
  -- Where the id of the stream and the password together are bytes whose number is no multiple of 64,
  -- the component ends connected, after it sent its header, the digest of the two that the standard
  -- SHA-1 defines, in hexadecimal, between the tags of its handshake, and after it fired evtConnected.
  pub connect-push_connected :
      (server component_id password : Str) (t h : Element) (s : ComponentSession judo)
      → s.conn_state ≡ not_connected
      → get_name h ≡ codes "handshake"
      → All IsByte (c_str (get_attrib t (codes "id") ++ password))
      → length (c_str (get_attrib t (codes "id") ++ password)) % 64 ≢ 0
      → (connect judo server component_id password s
          >>= push judo shahash check (document_start t ∷ element h ∷ []) false)
        ≡ some (record s {
          server = server;
          component_id = component_id;
          password = password;
          session_id = get_attrib t (codes "id");
          conn_state = connected;
          events =
              connected_signal
              ∷ transmit_xml (codes "</handshake>")
              ∷ transmit_xml
                  (strprintsha (standard_digest (c_str (get_attrib t (codes "id") ++ password))))
              ∷ transmit_xml (codes "<handshake>")
              ∷ transmit_xml (
                  codes
                    "' xmlns='jabber:component:accept' xmlns:stream='http://etherx.jabber.org/streams'>")
              ∷ transmit_xml (c_str component_id)
              ∷ transmit_xml (codes "<stream::stream to='")
              ∷ s.events;
        })
  unfolding connect push ◌==◌
  connect-push_connected server component_id password t h s idle name bytes short =
      let digest =
        shahash-standard_digest (c_str (get_attrib t (codes "id") ++ password)) bytes (inl short) in
      rw (idle, name, digest) refl
