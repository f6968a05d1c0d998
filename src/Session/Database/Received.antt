-- ===== src/Session/Database/Received.antt =====
-- What a received packet does to the presence database, in Session::dispatch of
-- src/jabberoo-session.cc and all that it calls.
use jabberoo.Base.{
  Str, codes, Bool, true, false, none, some, [], ℕ, zero, suc, ◌≡◌, ◌==◌, refl, arith,
  if◌then◌else◌, Bool-cases, inl, inr, ap, ◌∙◌, sym, not, ◌&&◌, ==_iff, subst,
}
use jabberoo.Jid.Order.{same}
use jabberoo.Judo.{Judo}
use jabberoo.Packet.{get_from}
use jabberoo.Presence.{Presence, of_element}
use jabberoo.PresenceDb.{Db, from_of}
use jabberoo.PresenceDb
use jabberoo.PresenceDb.View.{view, view-insert, is_gone}
use jabberoo.PresenceDb.WellFormed.{IsWellFormed, insert-IsWellFormed}
use jabberoo.Session.{
  Session, Callback, on_auth_type, iq_auth, iq_create_user, delete_agent, client, emit,
  unknown_packet,
}
use jabberoo.Session.Database.Kept.{
  Holds, Holds-bind, Holds-map, Holds-elim, Holds-cases, Holds-at, Keeps, Keeps-bind, emit_all-pdb,
  run_queries-pdb, send_packet-pdb, delete_agent_reply-pdb, on_auth_type_received-pdb,
  handle_auth-pdb, handle_create_user-pdb,
}
use jabberoo.Session.Routing.{
  Env, is_request, is_unsubscribed, handle_message, handle_presence, track_presence, run_callback,
  first_callback, fire_callbacks, push_roster, reply_to, version_query, last_query, time_query,
  add_features, query_of, disco_info, examine_query, handle_iq, dispatch,
}

module _ (judo : Judo) (shahash : Str → Str) (check : ℕ → judo.Element → Bool) (env : Env) where
  open judo use {Element, get_name, find_element, get_attrib, cmp_attrib}

  run_callback-pdb :
      (f : Callback) (e : Element) (s : Session judo)
      → Keeps judo s.pdb (run_callback judo shahash check env f e s)
  unfolding run_callback emit
  run_callback-pdb on_auth_type e s = on_auth_type_received-pdb judo shahash e s
  run_callback-pdb iq_auth e s = handle_auth-pdb judo shahash e s
  run_callback-pdb iq_create_user e s = handle_create_user-pdb judo shahash e s
  run_callback-pdb delete_agent e s = delete_agent_reply-pdb judo e s
  run_callback-pdb (client f) e s = refl

  fire_callbacks-pdb :
      (fuel : ℕ) (id : Str) (e : Element) (s : Session judo)
      → Keeps judo s.pdb (fire_callbacks judo shahash check env fuel id e s)
  unfolding fire_callbacks
  fire_callbacks-pdb zero id e s =
      Holds-elim (λ t. t.pdb ≡ s.pdb) (first_callback judo shahash check env id s.callbacks) _ _
        refl (λ f. tt)
  fire_callbacks-pdb (suc fuel) id e s =
      Holds-elim (λ t. t.pdb ≡ s.pdb) (first_callback judo shahash check env id s.callbacks) _ _
        refl
        (λ f.
          Keeps-bind judo s.pdb (run_callback judo shahash check env f e s) _
            (run_callback-pdb f e s) (λ s1. fire_callbacks-pdb fuel id e _))

  push_roster-pdb :
      (q : Element) (s : Session judo) → (push_roster judo shahash check env q s).pdb ≡ s.pdb
  unfolding push_roster emit
  push_roster-pdb q s =
      elim (Bool-cases (cmp_attrib q (codes "xmlns") (codes "jabber:iq:roster"))) [
        | inl h ↦ rw (h, push_roster, emit_all-pdb judo) refl
        | inr h ↦ rw (h, push_roster) refl
      ]

  examine_query-pdb :
      (e q : Element) (s : Session judo) → (examine_query judo shahash check env e q s).pdb ≡ s.pdb
  unfolding examine_query emit
  examine_query-pdb e q s0 =
      let s = push_roster judo shahash check env q s0 in
      ground (
        arith,
        push_roster-pdb q s0,
        send_packet-pdb judo check
            (reply_to judo shahash check env e (version_query judo shahash check env)) s,
        send_packet-pdb judo check
            (reply_to judo shahash check env e (last_query judo shahash check env)) s,
        send_packet-pdb judo check
            (reply_to judo shahash check env e (time_query judo shahash check env)) s,
        send_packet-pdb judo check
            (reply_to judo shahash check env e (
              add_features judo shahash check env s.features
                (query_of judo shahash check env (disco_info judo shahash check env))))
            s,
      )

  handle_iq-pdb :
      (fuel : ℕ) (e : Element) (s : Session judo)
      → Keeps judo s.pdb (handle_iq judo shahash check env fuel e s)
  unfolding handle_iq
  handle_iq-pdb fuel e s =
      Holds-elim (λ t. t.pdb ≡ s.pdb)
        (first_callback judo shahash check env (get_attrib e (codes "id")) s.callbacks) _ _
        (Holds-elim (λ t. t.pdb ≡ s.pdb) (find_element e (codes "query")) _ _ refl
          (λ q. examine_query-pdb e q s))
        (λ f. fire_callbacks-pdb fuel (get_attrib e (codes "id")) e s)

  -- Whether the packet is the news of another one's presence.
  unfoldable pub is_news : Element → Bool
  is_news e =
      let p = of_element judo e in
      (get_name e == codes "presence")
      && not (get_from judo p.base == [])
      && not (is_request p.type)
      && not (is_unsubscribed p.type)

  unfoldable pub pdb_after : Element → Db judo → Db judo
  unfolding is_news
  pdb_after e db = if is_news e then PresenceDb.insert judo (of_element judo e) db else db

  track_presence-pdb :
      (p : Presence judo) (s : Session judo)
      → (track_presence judo shahash check env p s).pdb ≡ PresenceDb.insert judo p s.pdb
  unfolding track_presence emit
  track_presence-pdb p s = rw (track_presence, emit_all-pdb judo) refl

  handle_presence-pdb :
      (e : Element) (s : Session judo)
      → (get_name e == codes "presence") ≡ true
      → (handle_presence judo shahash check env e s).pdb ≡ pdb_after e s.pdb
  unfolding handle_presence pdb_after is_news emit
  handle_presence-pdb e s h = ground (arith, track_presence-pdb (of_element judo e) s)

  -- An element of another name is no news.
  pdb_after_other :
      (e : Element) (db : Db judo) → (get_name e == codes "presence") ≡ false → pdb_after e db ≡ db
  unfolding pdb_after is_news
  pdb_after_other e db h = rw (h, pdb_after) refl

  not_presence :
      (n m : Str)
      → (m == codes "presence") ≡ false
      → (n == m) ≡ true
      → (n == codes "presence") ≡ false
  not_presence n m h e = rw ((==_iff n m).0 e) h

  dispatch-pdb :
      (fuel : ℕ) (e : Element) (s : Session judo)
      → Holds (λ t. t.pdb ≡ pdb_after e s.pdb) (dispatch judo shahash check env fuel e s)
  unfolding dispatch handle_message emit ◌==◌
  dispatch-pdb fuel e s =
      let After : Session judo → Type 0 = λ t. t.pdb ≡ pdb_after e s.pdb in
      Holds-bind {A = Session judo} After After
        (if get_name e == codes "message"
          then some (handle_message judo shahash check env e s)
          else if get_name e == codes "presence"
          then some (handle_presence judo shahash check env e s)
          else if get_name e == codes "iq"
          then handle_iq judo shahash check env fuel e s
          else some (emit judo (unknown_packet e) s))
        _
        (Holds-cases After (get_name e == codes "message") _ _
          (λ m. sym (pdb_after_other e s.pdb (not_presence (get_name e) (codes "message") refl m)))
          (λ m.
            Holds-cases After (get_name e == codes "presence") _ _ (handle_presence-pdb e s) (λ n.
              Holds-cases After (get_name e == codes "iq") _ _
                (λ q.
                  Holds-map (λ t. t.pdb ≡ s.pdb) After (handle_iq judo shahash check env fuel e s)
                    (handle_iq-pdb fuel e s) (λ t h. h ∙ sym (pdb_after_other e s.pdb n)))
                (λ q. sym (pdb_after_other e s.pdb n)))))
        (λ t h. run_queries-pdb judo check t.incoming_queries e t ∙ h)

  -- A packet that dispatch handles, in a session with a well-formed database, changes what the
  -- database says of a JID only if it is a presence from that JID which is no request and no
  -- unsubscription: then the JID has that presence, or none if it is unavailable or an error.
  pub dispatch-view :
      (fuel : ℕ) (e : Element) (j : Str) (s s' : Session judo)
      → IsWellFormed judo s.pdb
      → dispatch judo shahash check env fuel e s ≡ some s'
      → let p = of_element judo e in
        view judo s'.pdb j ≡ (
          if is_news e && same (from_of judo p) j
          then (if is_gone judo p then none else some p)
          else view judo s.pdb j)
  unfolding pdb_after
  dispatch-view fuel e j s s' w h =
      ap (λ db. view judo db j)
        (Holds-at (λ t. t.pdb ≡ pdb_after e s.pdb) _ s' h (dispatch-pdb fuel e s))
      ∙ ground (arith, view-insert judo (of_element judo e) j s.pdb w)

  -- A received packet leaves a well-formed database.
  pub dispatch-IsWellFormed :
      (fuel : ℕ) (e : Element) (s : Session judo)
      → IsWellFormed judo s.pdb
      → Holds (λ t. IsWellFormed judo t.pdb) (dispatch judo shahash check env fuel e s)
  unfolding pdb_after
  dispatch-IsWellFormed fuel e s w =
      Holds-map (λ t. t.pdb ≡ pdb_after e s.pdb) (λ t. IsWellFormed judo t.pdb) _
        (dispatch-pdb fuel e s) (λ t h. subst (IsWellFormed judo) (sym h) (kept (is_news e)))
    where
      kept :
          (b : Bool)
          → IsWellFormed judo
              (if b then PresenceDb.insert judo (of_element judo e) s.pdb else s.pdb)
      kept true = insert-IsWellFormed judo (of_element judo e) s.pdb w
      kept false = w
