-- ===== src/Tests/Sessions.antt =====
-- The theorems on src/jabberoo-session.cc at concrete sessions.
use native.Mathlib.Omega.{arith}
use mathlib.Core.Logic.{◌≢◌}
use mathlib.Core.List.{reverse_aux}
use jabberoo.Base.{
  arith, find_if, any, not, empty, Str, Bool, codes, ℕ, ◌++◌, ◌≡◌, refl, true, false, none, some,
  Option, [], ◌∷◌, if◌then◌else◌, ◌==◌, ◌&&◌, c_str,
}
use jabberoo.Jid.Order.{same}
use jabberoo.Judo.Tree.{cons, node_find, tree, Node, node, nil, node_get, node_append, node_cmp}
use jabberoo.Presence.{of_element}
use jabberoo.PresenceDb
use jabberoo.PresenceDb.{from_of}
use jabberoo.PresenceDb.View.{view, is_gone}
use jabberoo.PresenceDb.WellFormed.{IsWellFormed}
use jabberoo.Roster.{Item, rs_both}
use jabberoo.Roster.Groups.{member}
use jabberoo.Roster.Items.{names}
use jabberoo.Session.Items.{is_virtual, item_element-names}
use jabberoo.Session.{
  plaintext_auth, Session, client, iq_auth, awaiting_auth, connected, auth_req, digest_auth, freed,
  create_user, not_connected, iq_create_user, initial,
}
use jabberoo.Session.Requests.{item_element}
use jabberoo.Session.Auth.{login_query, do_authenticate, is_result}
use jabberoo.Session.Informed
use jabberoo.Session.AutoLogin
use jabberoo.Session.AutoLogin.Packets
use jabberoo.Session.AutoLogin.{auto_login-connected}
use jabberoo.Session.Auth.{handle_auth}
use jabberoo.Session.Routing.{run_callback}
use jabberoo.Session.Informed.Reached.{Reached-informed}
use jabberoo.Session.Database.Reached.{Reached-IsWellFormed}
use jabberoo.Session.Database.Steps.{removes_presence, connects, starts, steps, pushes}
use jabberoo.Session.Database.Received.{is_news, dispatch-view}
use jabberoo.Session.Ids.{id_text}
use jabberoo.Session.Ids.Distinct.{id_text-distinct}
use jabberoo.Session.Login.{ready, login-connected}
use jabberoo.Session.Routing.{Env, dispatch, handle_iq, fire_callbacks}
use jabberoo.Session.Routing.Callbacks.{slots, others, calls, fire_callbacks-clients}
use jabberoo.Session.Secrecy.{login_query-digest}
use jabberoo.Session.Stream.{element, document_start, connect, push}
use jabberoo.Tests.Databases.{presence_from}

-- A hash that keeps its input, and queries that match nothing.
abbrev hash : Str → Str
hash s = s

abbrev check : ℕ → Node → Bool
check query e = false

abbrev env : Env
env = record {
  name = codes "client";
  version = codes "1";
  os = codes "none";
  version_suffix = [];
  seconds = codes "3";
  utc = codes "20260101T00:00:00";
  local = codes "noon UTC";
  zone = codes "UTC";
  on_time = λ l z. (l, z);
}

abbrev or_else : {A : Type 0} → Option A → A → A
or_else none a = a
or_else (some b) a = b

abbrev news : Node
news = presence_from (codes "romeo@montague.net/home") [] (codes "5")

abbrev informed : Session tree
informed = or_else (dispatch tree hash check env 1 news (initial tree)) (initial tree)

dispatch-view_example : view tree informed.pdb (codes "romeo@montague.net/home") ≡ (
    if is_news tree hash check env news
      && same (from_of tree (of_element tree news)) (codes "romeo@montague.net/home")
    then (if is_gone tree (of_element tree news) then none else some (of_element tree news))
    else view tree (initial tree).pdb (codes "romeo@montague.net/home"))
unfolding dispatch initial ◌==◌
dispatch-view_example =
    dispatch-view tree hash check env 1 news (codes "romeo@montague.net/home") (initial tree)
      informed tt refl

abbrev pushed : Session tree
pushed =
    or_else
      (push tree hash check env 1 (codes "<presence/>") (element news ∷ []) none (initial tree))
      (initial tree)

abbrev removed : Session tree
removed = record pushed {
  pdb = PresenceDb.remove tree (codes "romeo@montague.net/home") pushed.pdb;
}

Reached-IsWellFormed_example : IsWellFormed tree removed.pdb
unfolding push dispatch ◌==◌
Reached-IsWellFormed_example = Reached-IsWellFormed tree hash check env removed (
    steps pushed removed
      (steps (initial tree) pushed starts
        (pushes 1 (codes "<presence/>") (element news ∷ []) none (initial tree) pushed refl))
      (removes_presence (codes "romeo@montague.net/home") pushed))

abbrev answer : Node
answer = node (codes "iq") ((codes "type", codes "result") ∷ (codes "id", codes "j1") ∷ []) [] nil

login-connected_example :
    (s1 : Session tree) × (s2 : Session tree) × (do_authenticate tree hash
        (ready tree hash check env answer (initial tree))
      ≡ some s1)
    × (s1.conn_state ≡ awaiting_auth)
    × (handle_iq tree hash check env 1 answer s1 ≡ some s2)
    × (s2.conn_state ≡ connected)
    × (s2.callbacks ≡ [])
    × (s2.stream_element ≡ freed)
unfolding initial id_text node_get is_result node_cmp
login-connected_example = login-connected tree hash check env answer answer (initial tree) refl refl

abbrev offers : Node
offers =
    node (codes "iq") ((codes "type", codes "result") ∷ (codes "id", codes "j0") ∷ []) []
      (cons (node (codes "query") [] [] nil) nil)

auto_login-connected_example :
    (s1 : Session tree) × (s2 : Session tree) × (s3 : Session tree) × (do_authenticate tree hash
        (AutoLogin.ready tree hash check env answer (initial tree))
      ≡ some s1)
    × (s1.events
        ≡ Packets.packet tree hash
            (codes "get")
            (codes "j0")
            (Packets.types_query tree hash (initial tree))
          ∷ [])
    × (handle_iq tree hash check env 1 offers s1 ≡ some s2)
    × (s2.events
        ≡ Packets.packet tree hash (codes "set") (codes "j1") (
            Packets.login_of tree hash plaintext_auth
              (node (codes "query") [] [] nil)
              (initial tree))
          ∷ s1.events)
    × (s2.conn_state ≡ awaiting_auth)
    × (handle_iq tree hash check env 1 answer s2 ≡ some s3)
    × (s3.conn_state ≡ connected)
    × (s3.callbacks ≡ [])
    × (s3.stream_element ≡ freed)
unfolding initial id_text node_get is_result node_cmp node_find find_if ◌==◌ node_append
auto_login-connected_example =
    auto_login-connected tree hash check env answer offers (node (codes "query") [] [] nil) answer
      (initial tree) (omega arith) refl refl refl refl

abbrev opened : Session tree
opened =
    or_else
      (connect tree hash check env (codes "montague.net") plaintext_auth (codes "romeo")
        (codes "home") (codes "secret") false true (initial tree))
      (initial tree)

abbrev asked : Session tree
asked =
    or_else
      (push tree hash check env 1 (codes "<stream>")
        (document_start (tree.make (codes "stream")) ∷ []) none opened)
      (initial tree)

abbrev let_in : Session tree
let_in =
    or_else (push tree hash check env 1 (codes "<iq/>") (element answer ∷ []) none asked)
      (initial tree)

Reached-informed_example : Informed.informed tree let_in.events ≡ true
unfolding push connect initial ◌==◌ id_text node_get run_callback handle_auth node_cmp
Reached-informed_example =
    Reached-informed tree hash check env let_in
      (steps asked let_in
        (steps opened asked
          (steps (initial tree) opened starts (
            connects (codes "montague.net") plaintext_auth (codes "romeo") (codes "home")
              (codes "secret") false true (initial tree) opened refl))
          (pushes 1 (codes "<stream>") (document_start (tree.make (codes "stream")) ∷ []) none
            opened asked refl))
        (pushes 1 (codes "<iq/>") (element answer ∷ []) none asked let_in refl))
      refl

abbrev waiting_twice : Session tree
waiting_twice = record (initial tree) {
  callbacks = (codes "j1", client 7) ∷ (codes "j2", client 8) ∷ (codes "j1", client 9) ∷ [];
}

fire_callbacks-clients_example :
    fire_callbacks tree hash check env 2 (codes "j1") answer waiting_twice
    ≡ some (record waiting_twice {
      callbacks = others (codes "j1") waiting_twice.callbacks;
      events = reverse_aux (calls tree hash check env answer (7 ∷ 9 ∷ [])) waiting_twice.events;
    })
unfolding slots ◌==◌
fire_callbacks-clients_example =
    fire_callbacks-clients tree hash check env 2 (codes "j1") answer (7 ∷ 9 ∷ []) waiting_twice refl
      (omega arith)

abbrev keen : Session tree
keen = record (initial tree) { password = codes "secret" }

login_query-digest_example :
    (q : Node) × (new : Node) × (bare : Node) × (login_query tree hash auth_req digest_auth none
        keen
      ≡ some (q, some iq_auth))
    × (tree.find_element q (codes "password") ≡ none)
    × (tree.get_child_cdata q (codes "digest") ≡ hash (c_str (keen.session_id ++ codes "secret")))
    × (login_query tree hash create_user digest_auth none keen ≡ some (new, some iq_create_user))
    × (tree.find_element new (codes "digest") ≡ none)
    × (tree.get_child_cdata new (codes "password") ≡ codes "secret")
    × (login_query tree hash not_connected digest_auth none keen ≡ some (bare, none))
    × (login_query tree hash awaiting_auth digest_auth none keen ≡ some (bare, none))
    × (login_query tree hash connected digest_auth none keen ≡ some (bare, none))
    × (tree.find_element bare (codes "digest") ≡ none)
    × (tree.find_element bare (codes "password") ≡ none)
login_query-digest_example = login_query-digest tree hash none keen

id_text-distinct_example : id_text 41 ≢ id_text 42
id_text-distinct_example =
    id_text-distinct 41 42 (omega arith) (omega arith) (λ e. absurd (omega arith))

abbrev present : Session tree
present = record (initial tree) { pdb = PresenceDb.insert tree (of_element tree news) [] }

abbrev open_stream : Session tree
open_stream = record (initial tree) { conn_state = connected; stream_start = true }

abbrev contact : Item
contact = record {
  rescnt = 0;
  groups = codes "Friends" ∷ codes "Unfiled" ∷ [];
  type = rs_both;
  pending = false;
  nickname = codes "Romeo";
  jid = codes "romeo@montague.net";
}

item_element-names_example :
    (tree.get_attrib (item_element tree contact) (codes "jid") ≡ contact.jid)
    × (any (names tree (codes "Friends")) (tree.children (item_element tree contact)) ≡ (
        member (codes "Friends") contact.groups
        && not (is_virtual (codes "Friends"))
        && not (empty (codes "Friends"))))
item_element-names_example = item_element-names tree contact (codes "Friends")
