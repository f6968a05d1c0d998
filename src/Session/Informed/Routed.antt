-- ===== src/Session/Informed/Routed.antt =====
-- Session::dispatch of src/jabberoo-session.cc keeps the client informed of the connection.
use jabberoo.Base.{
  Str, codes, Bool, [], ℕ, zero, suc, ◌==◌, if◌then◌else◌, ◌&&◌, empty, Bool-cases, inl, inr,
}
use jabberoo.Base.Holds.{Holds, Holds-bind, Holds-if, Holds-elim}
use jabberoo.Judo.{Judo}
use jabberoo.Packet.{get_from}
use jabberoo.Presence.{Presence, of_element}
use jabberoo.PresenceDb.{insert}
use jabberoo.PresenceDb
use jabberoo.Roster
use jabberoo.Session.{
  Session, Callback, on_auth_type, iq_auth, iq_create_user, delete_agent, client, emit,
}
use jabberoo.Session.Informed.{
  IsInformed, emit_all-IsInformed, run_queries-IsInformed, send_packet-IsInformed,
  delete_agent_reply-IsInformed, on_auth_type_received-IsInformed, handle_auth-IsInformed,
  handle_create_user-IsInformed,
}
use jabberoo.Session.Routing.{
  Env, previous_type, is_request, is_unsubscribed, handle_message, handle_presence, track_presence,
  run_callback, first_callback, fire_callbacks, push_roster, reply_to, version_query, last_query,
  time_query, add_features, query_of, disco_info, examine_query, handle_iq, dispatch,
}

module _ (judo : Judo) (shahash : Str → Str) (check : ℕ → judo.Element → Bool) (env : Env) where
  open judo use {Element, get_name, find_element, get_attrib, cmp_attrib}

  run_callback-IsInformed :
      (f : Callback) (e : Element) (s : Session judo)
      → IsInformed judo s
      → Holds (IsInformed judo) (run_callback judo shahash check env f e s)
  unfolding run_callback emit
  run_callback-IsInformed on_auth_type e s w = on_auth_type_received-IsInformed judo shahash e s
  run_callback-IsInformed iq_auth e s w = handle_auth-IsInformed judo shahash e s w
  run_callback-IsInformed iq_create_user e s w = handle_create_user-IsInformed judo shahash e s
  run_callback-IsInformed delete_agent e s w = delete_agent_reply-IsInformed judo e s w
  run_callback-IsInformed (client f) e s w = w

  fire_callbacks-IsInformed :
      (fuel : ℕ) (id : Str) (e : Element) (s : Session judo)
      → IsInformed judo s
      → Holds (IsInformed judo) (fire_callbacks judo shahash check env fuel id e s)
  unfolding fire_callbacks
  fire_callbacks-IsInformed zero id e s w =
      Holds-elim (IsInformed judo) (first_callback judo shahash check env id s.callbacks) _ _ w
        (λ f. tt)
  fire_callbacks-IsInformed (suc fuel) id e s w =
      Holds-elim (IsInformed judo) (first_callback judo shahash check env id s.callbacks) _ _ w
        (λ f.
          Holds-bind (IsInformed judo) (IsInformed judo) (run_callback judo shahash check env f e s)
            _ (run_callback-IsInformed f e s w) (λ s1 w1. fire_callbacks-IsInformed fuel id e _ w1))

  push_roster-IsInformed :
      (q : Element) (s : Session judo)
      → IsInformed judo s
      → IsInformed judo (push_roster judo shahash check env q s)
  unfolding push_roster emit
  push_roster-IsInformed q s w =
      let updated = Roster.update judo q s.roster in
      elim (Bool-cases (cmp_attrib q (codes "xmlns") (codes "jabber:iq:roster"))) [
        | inl h ↦
            rw (h, push_roster)
              (emit_all-IsInformed judo updated.1 (record s { roster = updated.0 }) w)
        | inr h ↦ rw (h, push_roster) w
      ]

  examine_query-IsInformed :
      (e q : Element) (s : Session judo)
      → IsInformed judo s
      → IsInformed judo (examine_query judo shahash check env e q s)
  unfolding examine_query emit
  examine_query-IsInformed e q s0 w0 =
      let s = push_roster judo shahash check env q s0 in
      let w : IsInformed judo s = push_roster-IsInformed q s0 w0 in
      let sent = λ (query : Element).
        send_packet-IsInformed judo check (reply_to judo shahash check env e query) s w in
      let get = cmp_attrib e (codes "type") (codes "get") in
      elim (Bool-cases (get && cmp_attrib q (codes "xmlns") (codes "jabber:iq:version"))) [
        | inl a ↦ rw (a, examine_query) (sent (version_query judo shahash check env))
        | inr a ↦ elim (Bool-cases (get && cmp_attrib q (codes "xmlns") (codes "jabber:iq:last"))) [
          | inl b ↦ rw (a, b, examine_query) (sent (last_query judo shahash check env))
          | inr b ↦
              elim (Bool-cases (get && cmp_attrib q (codes "xmlns") (codes "jabber:iq:time"))) [
                | inl c ↦ rw (a, b, c, examine_query) (sent (time_query judo shahash check env))
                | inr c ↦
                    elim (Bool-cases (
                      get
                      && empty (get_attrib q (codes "node"))
                      && cmp_attrib q (codes "xmlns") (disco_info judo shahash check env))) [
                        | inl d ↦
                            rw (a, b, c, d, examine_query)
                              (sent (
                                add_features judo shahash check env s.features (
                                  query_of judo shahash check env
                                    (disco_info judo shahash check env))))
                        | inr d ↦ rw (a, b, c, d, examine_query) w
                      ]
              ]
        ]
      ]

  handle_iq-IsInformed :
      (fuel : ℕ) (e : Element) (s : Session judo)
      → IsInformed judo s
      → Holds (IsInformed judo) (handle_iq judo shahash check env fuel e s)
  unfolding handle_iq
  handle_iq-IsInformed fuel e s w =
      Holds-elim (IsInformed judo)
        (first_callback judo shahash check env (get_attrib e (codes "id")) s.callbacks) _ _
        (Holds-elim (IsInformed judo) (find_element e (codes "query")) _ _ w
          (λ q. examine_query-IsInformed e q s w))
        (λ f. fire_callbacks-IsInformed fuel (get_attrib e (codes "id")) e s w)

  track_presence-IsInformed :
      (p : Presence judo) (s : Session judo)
      → IsInformed judo s
      → IsInformed judo (track_presence judo shahash check env p s)
  unfolding track_presence emit
  track_presence-IsInformed p s w =
      let pdb = insert judo p s.pdb in
      let tracked =
        (if Roster.contains_jid judo (get_from judo p.base) s.roster
          then Roster.update_presence judo (λ jid. PresenceDb.available judo jid pdb) p
              (previous_type judo shahash check env p s) s.roster
          else (s.roster, [])) in
      emit_all-IsInformed judo tracked.1 (record s { pdb = pdb; roster = tracked.0 }) w

  handle_presence-IsInformed :
      (e : Element) (s : Session judo)
      → IsInformed judo s
      → IsInformed judo (handle_presence judo shahash check env e s)
  unfolding handle_presence emit
  handle_presence-IsInformed e s w =
      let p = of_element judo e in
      elim (Bool-cases (get_from judo p.base == [])) [
        | inl a ↦ rw (a, handle_presence) w
        | inr a ↦ elim (Bool-cases (is_request p.type)) [
          | inl b ↦ rw (a, b, handle_presence) w
          | inr b ↦ elim (Bool-cases (is_unsubscribed p.type)) [
            | inl c ↦ rw (a, b, c, handle_presence) w
            | inr c ↦ rw (a, b, c, handle_presence) (track_presence-IsInformed p s w)
          ]
        ]
      ]

  pub dispatch-IsInformed :
      (fuel : ℕ) (e : Element) (s : Session judo)
      → IsInformed judo s
      → Holds (IsInformed judo) (dispatch judo shahash check env fuel e s)
  unfolding dispatch handle_message emit
  dispatch-IsInformed fuel e s w =
      Holds-bind (IsInformed judo) (IsInformed judo) _ _
        (Holds-if (IsInformed judo) (get_name e == codes "message") _ _ w (
          Holds-if (IsInformed judo) (get_name e == codes "presence") _ _
            (handle_presence-IsInformed e s w)
            (Holds-if (IsInformed judo) (get_name e == codes "iq") _ _
              (handle_iq-IsInformed fuel e s w) w)))
        (λ s1 w1. run_queries-IsInformed judo check s1.incoming_queries e s1 w1)
