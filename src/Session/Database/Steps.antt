-- ===== src/Session/Database/Steps.antt =====
-- The calls that a client makes of a session of src/jabberoo-session.cc, by the public members of
-- include/session.hh, and the states that they lead to.
use jabberoo.Base.{Str, Bool, Option, some, List, ℕ, ◌≡◌}
use jabberoo.Base.Int.{ℤ}
use jabberoo.Judo.{Judo}
use jabberoo.Presence.{Presence}
use jabberoo.PresenceDb
use jabberoo.Session.{
  Session, AuthType, Callback, initial, emit_all, roster_events, RosterEvent, send_packet,
  send_text, register_iq, register_xpath, unregister_xpath, query_namespace, get_next_id,
  add_feature,
}
use jabberoo.Session.Requests.{fetch_roster, delete_user, send_item}
use jabberoo.Roster.{Item, Roster}
use jabberoo.Session.Routing.{Env, dispatch}
use jabberoo.Session.Stream.{Parsed, presences_gone, connect, disconnect, push}

module _ (judo : Judo) (shahash : Str → Str) (check : ℕ → judo.Element → Bool) (env : Env) where
  open judo use {Element}

  -- A call of the client, and the session after it.
  pub data Step : Session judo → Session judo → Type 0 where
    connects :
        (server : Str) (atype : AuthType) (user resource password : Str) (newuser auth : Bool)
        (s s' : Session judo)
        → connect judo shahash check env server atype user resource password newuser auth s
          ≡ some s'
        → Step s s'
    pushes :
        (fuel : ℕ) (text : Str) (parsed : List (Parsed judo shahash check env))
        (failed : Option (ℤ × Str)) (s s' : Session judo)
        → push judo shahash check env fuel text parsed failed s ≡ some s'
        → Step s s'
    disconnects : (s : Session judo) → Step s (disconnect judo shahash check env s).1
    sends : (e : Element) (s : Session judo) → Step s (send_packet judo check e s)
    registers : (id : Str) (f : Callback) (s : Session judo) → Step s (register_iq judo id f s)
    registers_xpath :
        (query f : ℕ) (incoming : Bool) (s : Session judo)
        → Step s (register_xpath judo query f incoming s)
    unregisters_xpath :
        (query : ℕ) (incoming : Bool) (s : Session judo)
        → Step s (unregister_xpath judo query incoming s)
    queries :
        (nspace : Str) (f : Callback) (to : Str) (s : Session judo)
        → Step s (query_namespace judo nspace f to s)
    adds_feature : (feature : Str) (s : Session judo) → Step s (add_feature judo feature s)
    fetches_roster : (s : Session judo) → Step s (fetch_roster judo s)
    sends_item : (i : Item) (s : Session judo) → Step s (send_item judo i s)
    deletes_user : (jid : Str) (s : Session judo) → Step s (delete_user judo check jid s)
    dispatches :
        (fuel : ℕ) (e : Element) (s s' : Session judo)
        → dispatch judo shahash check env fuel e s ≡ some s'
        → Step s s'
    sends_text : (text : Str) (s : Session judo) → Step s (send_text judo text s)
    takes_id : (s : Session judo) → Step s (get_next_id judo s).1
    -- The calls of the database that presenceDB() gives.
    inserts_presence :
        (p : Presence judo) (s : Session judo)
        → Step s (record s { pdb = PresenceDb.insert judo p s.pdb })
    removes_presence :
        (jid : Str) (s : Session judo)
        → Step s (record s { pdb = PresenceDb.remove judo jid s.pdb })
    clears_presences : (s : Session judo) → Step s (record s { pdb = PresenceDb.clear judo s.pdb })
    sends_unavailable :
        (jid : Str) (s : Session judo)
        → Step s (
            emit_all judo
              (presences_gone judo shahash check env (PresenceDb.send_unavailable judo jid s.pdb))
              s)
    -- Whatever a call of the roster that roster() gives makes of the roster, and fires.
    changes_roster :
        (roster : Roster) (fired : List RosterEvent) (s : Session judo)
        → Step s (emit_all judo (roster_events judo fired) (record s { roster = roster }))

  pub data Reached : Session judo → Type 0 where
    starts : Reached (initial judo)
    steps : (s s' : Session judo) → Reached s → Step s s' → Reached s'
