-- ===== src/Session/Routing.antt =====
-- The routing of received elements, of src/jabberoo-session.cc: messages, presences, and iq packets
-- with their callbacks and their replies.
pub mod Callbacks
use jabberoo.Base.{
  Str, Bool, true, false, Option, none, some, List, [], ◌∷◌, ◌++◌, ℕ, zero, suc, ◌+◌, if◌then◌else◌,
  ◌==◌, empty, codes, c_str, ◌&&◌, ◌||◌, not, nat_eq,
}
use jabberoo.Judo.{Judo}
use jabberoo.Packet.{get_from, set_to, set_id}
use jabberoo.Presence.{
  Presence, PresenceType, of_element, sub_request, unsub_request, subscribed, unsubscribed,
  available, unavailable, error, invisible,
}
use jabberoo.PresenceDb.{insert, find}
use jabberoo.PresenceDb
use jabberoo.Roster.{Roster, RosterEvent, contains_jid, update_presence}
use jabberoo.Roster
use jabberoo.Session.{
  Session, Callback, Event, on_auth_type, iq_auth, iq_create_user, delete_agent, client, emit,
  emit_all, roster_events, send_packet, run_queries, recv_element, message, iq_received,
  unknown_packet, on_roster, my_presence, presence_request, presence_unsubscribed, presence, called,
  ◌>>=◌,
}
use jabberoo.Session.Requests.{delete_agent_reply}
use jabberoo.Session.Auth.{on_auth_type_received, handle_auth, handle_create_user}

-- What the client's handlers of evtOnVersion, evtOnLast and evtOnTime answer, the version text of
-- the build, and the clock: the UTC stamp, and the local time and zone as strftime writes them.
pub record Env : Type 0 where
  pub name : Str
  pub version : Str
  pub os : Str
  pub version_suffix : Str
  pub seconds : Str
  pub utc : Str
  pub local : Str
  pub zone : Str
  pub on_time : Str → Str → Str × Str

unfoldable pub is_prefix : Str → Str → Bool
is_prefix [] s = true
is_prefix (x ∷ p) [] = false
is_prefix (x ∷ p) (y ∷ s) = nat_eq x y && is_prefix p s

-- `if (local.find(tz) != npos) local.erase(local.find(tz))`: the text before the zone.
unfoldable pub strip_zone : Str → Str → Str
unfolding is_prefix
strip_zone tz [] = []
strip_zone tz (x ∷ s) = if is_prefix tz (x ∷ s) then [] else x ∷ strip_zone tz s

-- The kinds of presence that a handler of their own takes.
unfoldable pub is_request : PresenceType → Bool
is_request sub_request = true
is_request unsub_request = true
is_request _ = false

unfoldable pub is_unsubscribed : PresenceType → Bool
is_unsubscribed unsubscribed = true
is_unsubscribed _ = false

module _ (judo : Judo) (shahash : Str → Str) (check : ℕ → judo.Element → Bool) (env : Env) where
  open judo use {
    Element, make, text_element, get_name, get_attrib, put_attrib, cmp_attrib, append_child,
    to_string, find_element, get_child_cdata,
  }

  unfoldable pub handle_message : Element → Session judo → Session judo
  unfolding emit
  handle_message t s = emit judo (message t) s

  -- The type of the presence that the database holds first for the sender.
  unfoldable pub previous_type : Presence judo → Session judo → PresenceType
  previous_type p s = elim (find judo (get_from judo p.base) s.pdb) [
    | none ↦ unavailable
    | some q ↦ q.type
  ]

  -- The last branch of handlePresence.
  unfoldable pub track_presence : Presence judo → Session judo → Session judo
  unfolding previous_type emit emit_all
  track_presence p s =
      let prev = previous_type p s in
      let pdb = insert judo p s.pdb in
      let (roster, fired) =
        (if contains_jid judo (get_from judo p.base) s.roster
          then update_presence judo (λ jid. PresenceDb.available judo jid pdb) p prev s.roster
          else (s.roster, [])) in
      emit judo (presence p prev)
        (emit_all judo (roster_events judo fired) (record s { pdb = pdb; roster = roster }))

  unfoldable pub handle_presence : Element → Session judo → Session judo
  unfolding is_request is_unsubscribed emit track_presence
  handle_presence t s =
      let p = of_element judo t in
      if get_from judo p.base == []
      then emit judo (my_presence p) s
      else if is_request p.type
      then emit judo (presence_request p) s
      else if is_unsubscribed p.type
      then emit judo (presence_unsubscribed p) s
      else track_presence p s

  -- The function of one slot.
  unfoldable pub run_callback : Callback → Element → Session judo → Option (Session judo)
  unfolding emit
  run_callback on_auth_type t s = on_auth_type_received judo shahash t s
  run_callback iq_auth t s = handle_auth judo shahash t s
  run_callback iq_create_user t s = handle_create_user judo shahash t s
  run_callback delete_agent t s = delete_agent_reply judo t s
  run_callback (client f) t s = some (emit judo (called f t) s)

  unfoldable pub first_callback : Str → List (Str × Callback) → Option Callback
  first_callback id [] = none
  first_callback id ((j, f) ∷ cs) = if j == id then some f else first_callback id cs

  unfoldable pub erase_first : Str → List (Str × Callback) → List (Str × Callback)
  erase_first id [] = []
  erase_first id ((j, f) ∷ cs) = if j == id then cs else (j, f) ∷ erase_first id cs

  -- The loop over the range of the id: fires the first callback with the id and erases it, while
  -- there is one. `none` without fuel: the loop is still running.
  unfoldable pub fire_callbacks : ℕ → Str → Element → Session judo → Option (Session judo)
  unfolding first_callback erase_first
  fire_callbacks zero id t s = elim (first_callback id s.callbacks) [
    | none ↦ some s
    | some f ↦ none
  ]
  fire_callbacks (suc fuel) id t s = elim (first_callback id s.callbacks) [
    | none ↦ some s
    | some f ↦ run_callback f t s >>= λ s1.
        fire_callbacks fuel id t (record s1 { callbacks = erase_first id s1.callbacks })
  ]

  -- A reply of type result, with the query in it.
  unfoldable pub reply_to : Element → Element → Element
  unfolding set_to set_id
  reply_to t query =
      let iq = put_attrib (make (codes "iq")) (codes "type") (codes "result") in
      append_child
        (set_id judo (set_to judo iq (get_attrib t (codes "from"))) (get_attrib t (codes "id")))
        query

  abbrev pub query_of : Str → Element
  query_of nspace = put_attrib (make (codes "query")) (codes "xmlns") nspace

  unfoldable pub version_query : Element
  version_query =
      append_child
        (append_child
          (append_child (query_of (codes "jabber:iq:version"))
            (text_element (codes "name") env.name))
          (text_element (codes "version") (env.version ++ env.version_suffix)))
        (text_element (codes "os") env.os)

  unfoldable pub last_query : Element
  last_query = put_attrib (query_of (codes "jabber:iq:last")) (codes "seconds") env.seconds

  unfoldable pub time_query : Element
  unfolding strip_zone
  time_query =
      let (display, tz) = env.on_time (strip_zone env.zone env.local) env.zone in
      append_child
        (append_child
          (append_child (query_of (codes "jabber:iq:time")) (text_element (codes "utc") env.utc))
          (text_element (codes "display") display))
        (text_element (codes "tz") tz)

  -- PrintFeature adds a <feature> for each.
  unfoldable pub add_features : List Str → Element → Element
  add_features [] query = query
  add_features (f ∷ fs) query =
      add_features fs (append_child query (put_attrib (make (codes "feature")) (codes "var") f))

  abbrev pub disco_info : Str
  disco_info = codes "http://jabber.org/protocol/disco#info"

  -- A roster push, before the other namespaces are looked at.
  unfoldable pub push_roster : Element → Session judo → Session judo
  unfolding emit emit_all
  push_roster q s =
      if cmp_attrib q (codes "xmlns") (codes "jabber:iq:roster")
      then (let (roster, fired) = Roster.update judo q s.roster in
          emit judo on_roster
            (emit_all judo (roster_events judo fired) (record s { roster = roster })))
      else s

  -- The xmlns examination.
  unfoldable pub examine_query : Element → Element → Session judo → Session judo
  unfolding push_roster send_packet reply_to version_query last_query time_query add_features emit
  examine_query t q s0 =
      let s = push_roster q s0 in
      let get = cmp_attrib t (codes "type") (codes "get") in
      if get && cmp_attrib q (codes "xmlns") (codes "jabber:iq:version")
      then send_packet judo check (reply_to t version_query) s
      else if get && cmp_attrib q (codes "xmlns") (codes "jabber:iq:last")
      then send_packet judo check (reply_to t last_query) s
      else if get && cmp_attrib q (codes "xmlns") (codes "jabber:iq:time")
      then send_packet judo check (reply_to t time_query) s
      else if get && empty (get_attrib q (codes "node")) && cmp_attrib q (codes "xmlns") disco_info
      then send_packet judo check (reply_to t (add_features s.features (query_of disco_info))) s
      else emit judo (iq_received t) s

  unfoldable pub handle_iq : ℕ → Element → Session judo → Option (Session judo)
  unfolding fire_callbacks examine_query
  handle_iq fuel t s = elim (first_callback (get_attrib t (codes "id")) s.callbacks) [
    | some f ↦ fire_callbacks fuel (get_attrib t (codes "id")) t s
    | none ↦ elim (find_element t (codes "query")) [
      | none ↦ some s
      | some q ↦ some (examine_query t q s)
    ]
  ]

  -- Session::dispatch
  unfoldable pub dispatch : ℕ → Element → Session judo → Option (Session judo)
  unfolding handle_message handle_presence handle_iq emit run_queries
  dispatch fuel elem s =
      (if get_name elem == codes "message"
        then some (handle_message elem s)
        else if get_name elem == codes "presence"
        then some (handle_presence elem s)
        else if get_name elem == codes "iq"
        then handle_iq fuel elem s
        else some (emit judo (unknown_packet elem) s))
      >>= λ s1. some (run_queries judo check s1.incoming_queries elem s1)
