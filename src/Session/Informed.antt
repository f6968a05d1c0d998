-- ===== src/Session/Informed.antt =====
-- What the client of a session of src/jabberoo-session.cc has been told of the connection.
pub mod Routed
pub mod Reached
use jabberoo.Base.{
  Str, codes, Bool, true, false, Option, none, some, List, [], ◌∷◌, ℕ, ◌≡◌, refl, arith, Bool-cases,
  inl, inr, if◌then◌else◌, ◌==◌,
}
use jabberoo.Base.Holds.{Holds, Holds-if, Holds-elim, Holds-last}
use jabberoo.Judo.{Judo}
use jabberoo.Session.{
  Session, Event, RosterEvent, Callback, AuthType, connected, emit, emit_all, roster_events,
  send_element, send_packet, run_queries, own_presence, register_iq, get_next_id, plaintext_auth,
  auth_req, connected_to, disconnected, xml_parser_error, ◌>>=◌,
}
use jabberoo.Session.Requests.{fetch_roster, delete_agent_reply}
use jabberoo.Session.Auth.{
  send_login, request_types, login_query, do_authenticate, on_auth_type_received, handle_auth,
  handle_create_user, stream_header, is_result, is_auto,
}

module _ (judo : Judo) where
  open judo use {Element, find_element, get_name}

  -- Whether a signal tells that the connection is there, or that it is not.
  abbrev pub tells : Event judo → Option Bool
  tells (connected_to header) = some true
  tells disconnected = some false
  tells (xml_parser_error code text) = some false
  tells e = none

  -- What the latest of these signals has told.
  abbrev pub informed : List (Event judo) → Bool
  informed [] = false
  informed (e ∷ es) = elim (tells e) [ some b ↦ b | none ↦ informed es ]

  -- A session that is connected has told so.
  abbrev pub IsInformed : Session judo → Type 0
  IsInformed s = s.conn_state ≡ connected → informed s.events ≡ true

  pub IsInformed-if :
      (b : Bool) (s t : Session judo)
      → IsInformed s
      → IsInformed t
      → IsInformed (if b then s else t)
  IsInformed-if true s t h k = h
  IsInformed-if false s t h k = k

  pub emit_all-IsInformed :
      (es : List RosterEvent) (s : Session judo)
      → IsInformed s
      → IsInformed (emit_all judo (roster_events judo es) s)
  unfolding emit_all emit
  emit_all-IsInformed [] s w = w
  emit_all-IsInformed (e ∷ es) s w = emit_all-IsInformed es _ w

  pub run_queries-IsInformed :
      (check : ℕ → Element → Bool) (qs : List (ℕ × ℕ)) (e : Element) (s : Session judo)
      → IsInformed s
      → IsInformed (run_queries judo check qs e s)
  unfolding run_queries emit
  run_queries-IsInformed check [] e s w = w
  run_queries-IsInformed check ((q, f) ∷ qs) e s w =
      run_queries-IsInformed check qs e _ (IsInformed-if (check q e) _ s w w)

  pub send_packet-IsInformed :
      (check : ℕ → Element → Bool) (e : Element) (s : Session judo)
      → IsInformed s
      → IsInformed (send_packet judo check e s)
  unfolding send_packet own_presence emit
  send_packet-IsInformed check e s w =
      let s1 = run_queries judo check s.outgoing_queries e s in
      let w1 = run_queries-IsInformed check s.outgoing_queries e s w in
      IsInformed-if (get_name e == codes "presence") (own_presence judo e s1) s1
        (IsInformed-if _ _ s1 w1 w1) w1

  pub delete_agent_reply-IsInformed :
      (e : Element) (s : Session judo)
      → IsInformed s
      → Holds IsInformed (delete_agent_reply judo e s)
  unfolding delete_agent_reply send_element emit
  delete_agent_reply-IsInformed e s w =
      Holds-elim IsInformed (find_element e (codes "query")) none _ tt (λ q. w)

  module _ (shahash : Str → Str) where
    send_login-IsInformed :
        (atype : AuthType) (squery : Option Element) (s : Session judo)
        → Holds IsInformed (send_login judo shahash atype squery s)
    unfolding send_login
    send_login-IsInformed atype squery s =
        Holds-last {B = Session judo} IsInformed
          (login_query judo shahash s.conn_state atype squery (get_next_id judo s).1) _ (λ q h. cc)

    pub do_authenticate-IsInformed :
        (s : Session judo) → IsInformed s → Holds IsInformed (do_authenticate judo shahash s)
    unfolding do_authenticate request_types send_element get_next_id register_iq emit
    do_authenticate-IsInformed s w =
        Holds-if IsInformed (is_auto judo shahash s.auth_type) _ _ w
          (send_login-IsInformed s.auth_type none (request_types judo shahash s).1)

    pub on_auth_type_received-IsInformed :
        (e : Element) (s : Session judo) → Holds IsInformed (on_auth_type_received judo shahash e s)
    unfolding on_auth_type_received
    on_auth_type_received-IsInformed e s =
        Holds-elim IsInformed (find_element e (codes "query")) _ _
          (send_login-IsInformed plaintext_auth none s) (λ q. send_login-IsInformed _ (some q) s)

    pub handle_auth-IsInformed :
        (e : Element) (s : Session judo)
        → IsInformed s
        → Holds IsInformed (handle_auth judo shahash e s)
    unfolding handle_auth fetch_roster send_element get_next_id emit
    handle_auth-IsInformed e s w =
        Holds-if IsInformed (is_result judo shahash e) _ _
          (Holds-last IsInformed (stream_header judo shahash s) _
            (λ header. IsInformed-if s.authenticate _ _ (λ h. refl) (λ h. refl)))
          (Holds-elim IsInformed (find_element e (codes "error")) _ _ w (λ x h. cc))

    pub handle_create_user-IsInformed :
        (e : Element) (s : Session judo) → Holds IsInformed (handle_create_user judo shahash e s)
    unfolding handle_create_user emit
    handle_create_user-IsInformed e s =
        Holds-if IsInformed (is_result judo shahash e) _ _
          (do_authenticate-IsInformed (record s { conn_state = auth_req }) (λ h. cc))
          (Holds-elim IsInformed (find_element e (codes "error")) _ _ (λ h. cc) (λ x h. cc))
