-- ===== src/Session/Database/Kept.antt =====
-- The operations of src/jabberoo-session.cc that send and log in leave the presence database alone.
use jabberoo.Base.{
  Str, codes, Bool, Option, none, some, List, [], ◌∷◌, ℕ, ◌≡◌, refl, arith, Bool-cases, inl, inr,
  ap, ◌∙◌,
}
pub use jabberoo.Base.Holds.{
  Holds, Holds-bind, Holds-map, Holds-if, Holds-at, Holds-cases, Holds-elim, Holds-last,
}
use jabberoo.Judo.{Judo}
use jabberoo.PresenceDb.{Db}
use jabberoo.Session.{
  Session, Event, Callback, AuthType, emit, emit_all, send_element, send_packet, run_queries,
  own_presence, register_iq, get_next_id, plaintext_auth, auth_req, ◌>>=◌,
}
use jabberoo.Session.Requests.{fetch_roster, delete_agent_reply}
use jabberoo.Session.Auth.{
  send_login, request_types, register_if, login_query, do_authenticate, on_auth_type_received,
  handle_auth, handle_create_user, stream_header, is_result, is_auto,
}
use jabberoo.Session.Events.{emit_all_lem}

module _ (judo : Judo) where
  open judo use {Element, find_element, get_attrib}

  -- The database is still the given one.
  abbrev pub Keeps : Db judo → Option (Session judo) → Type 0
  Keeps db = Holds (λ s. s.pdb ≡ db)

  pub Keeps-bind :
      (db : Db judo) (o : Option (Session judo)) (f : Session judo → Option (Session judo))
      → Keeps db o
      → ((s : Session judo) → Keeps s.pdb (f s))
      → Keeps db (o >>= f)
  Keeps-bind db o f h k =
      Holds-bind (λ s. s.pdb ≡ db) (λ s. s.pdb ≡ db) o f h
        (λ s e. Holds-map (λ t. t.pdb ≡ s.pdb) (λ t. t.pdb ≡ db) (f s) (k s) (λ t e'. e' ∙ e))

  pub emit_all-pdb : (es : List (Event judo)) (s : Session judo) → (emit_all judo es s).pdb ≡ s.pdb
  emit_all-pdb es s = ap (λ t. t.pdb) (emit_all_lem judo es s)

  pub run_queries-pdb :
      (check : ℕ → Element → Bool) (qs : List (ℕ × ℕ)) (e : Element) (s : Session judo)
      → (run_queries judo check qs e s).pdb ≡ s.pdb
  unfolding run_queries emit
  run_queries-pdb check [] e s = refl
  run_queries-pdb check ((q, f) ∷ qs) e s = elim (Bool-cases (check q e)) [
    | inl c ↦ rw (c, run_queries) (run_queries-pdb check qs e _)
    | inr c ↦ rw (c, run_queries) (run_queries-pdb check qs e s)
  ]

  own_presence-pdb : (e : Element) (s : Session judo) → (own_presence judo e s).pdb ≡ s.pdb
  unfolding own_presence emit
  own_presence-pdb e s = ground arith

  pub send_packet-pdb :
      (check : ℕ → Element → Bool) (e : Element) (s : Session judo)
      → (send_packet judo check e s).pdb ≡ s.pdb
  unfolding send_packet emit
  send_packet-pdb check e s =
      let s1 = run_queries judo check s.outgoing_queries e s in
      ground (arith, run_queries-pdb check s.outgoing_queries e s, own_presence-pdb e s1)

  pub delete_agent_reply-pdb :
      (e : Element) (s : Session judo) → Keeps s.pdb (delete_agent_reply judo e s)
  unfolding delete_agent_reply send_element
  delete_agent_reply-pdb e s =
      Holds-elim (λ t. t.pdb ≡ s.pdb) (find_element e (codes "query")) none _ tt (λ q. refl)

  module _ (shahash : Str → Str) where
    register_if-pdb :
        (f : Option Callback) (id : Str) (s : Session judo)
        → (register_if judo shahash f id s).pdb ≡ s.pdb
    unfolding register_if register_iq
    register_if-pdb none id s = refl
    register_if-pdb (some f) id s = refl

    send_login-pdb :
        (atype : AuthType) (squery : Option Element) (s : Session judo)
        → Keeps s.pdb (send_login judo shahash atype squery s)
    unfolding send_login send_element get_next_id
    send_login-pdb atype squery s =
        Holds-last {B = Session judo} (λ t. t.pdb ≡ s.pdb)
          (login_query judo shahash s.conn_state atype squery (get_next_id judo s).1) _
          (λ q. register_if-pdb q.1 _ _)

    pub do_authenticate-pdb : (s : Session judo) → Keeps s.pdb (do_authenticate judo shahash s)
    unfolding do_authenticate request_types send_element get_next_id register_iq
    do_authenticate-pdb s =
        Holds-if (λ t. t.pdb ≡ s.pdb) (is_auto judo shahash s.auth_type) _ _ refl
          (send_login-pdb s.auth_type none (request_types judo shahash s).1)

    pub on_auth_type_received-pdb :
        (e : Element) (s : Session judo) → Keeps s.pdb (on_auth_type_received judo shahash e s)
    unfolding on_auth_type_received
    on_auth_type_received-pdb e s =
        Holds-elim (λ t. t.pdb ≡ s.pdb) (find_element e (codes "query")) _ _
          (send_login-pdb plaintext_auth none s) (λ q. send_login-pdb _ (some q) s)

    pub handle_auth-pdb :
        (e : Element) (s : Session judo) → Keeps s.pdb (handle_auth judo shahash e s)
    unfolding handle_auth fetch_roster send_element get_next_id emit
    handle_auth-pdb e s =
        Holds-if (λ t. t.pdb ≡ s.pdb) (is_result judo shahash e) _ _
          (Holds-last (λ t. t.pdb ≡ s.pdb) (stream_header judo shahash s) _ (λ h. ground arith))
          (Holds-elim (λ t. t.pdb ≡ s.pdb) (find_element e (codes "error")) _ _ refl (λ x. refl))

    pub handle_create_user-pdb :
        (e : Element) (s : Session judo) → Keeps s.pdb (handle_create_user judo shahash e s)
    unfolding handle_create_user emit
    handle_create_user-pdb e s =
        Holds-if (λ t. t.pdb ≡ s.pdb) (is_result judo shahash e) _ _
          (do_authenticate-pdb (record s { conn_state = auth_req }))
          (Holds-elim (λ t. t.pdb ≡ s.pdb) (find_element e (codes "error")) _ _ refl (λ x. refl))
