-- ===== src/Agents.antt =====
-- src/jabberoox-agent.cc and the classes Agent and AgentList of include/jabberoox.hh: the agents of a
-- server. An agent is a list of agents too; its copy constructor starts with an empty list and leaves
-- two members unset, which are `none` here. `none` of an operation is the read of an unset member.
pub mod Copies
use jabberoo.Base.{
  Str, Bool, true, false, Option, none, some, List, [], ◌∷◌, ◌++◌, ℕ, codes, if◌then◌else◌, ◌==◌,
  empty, not, ◌&&◌,
}
use jabberoo.Judo.{Judo}
use jabberoo.Session.{Session, Callback, client, query_namespace}

pub record AgentInfo : Type 0 where
  pub jid : Str
  pub name : Str
  pub desc : Str
  pub service : Str
  pub transport : Str
  pub registerable : Bool
  pub searchable : Bool
  pub subagents : Bool
  pub gc_capable : Option Bool
  pub fetch_requested : Option Bool

mutual
  pub data Agent : Type 0 where
    agent : AgentInfo → Agents → Agent

  pub data Agents : Type 0 where
    nil : Agents
    cons : Agent → Agents → Agents

abbrev pub info : Agent → AgentInfo
info (agent i as_list) = i

abbrev pub agents : Agent → Agents
agents (agent i as_list) = as_list

abbrev pub push_back : Agents → Agent → Agents
push_back nil a = cons a nil
push_back (cons x r) a = cons x (push_back r a)

unfoldable pub is_empty : Agents → Bool
is_empty nil = true
is_empty (cons x r) = false

-- Agent(const Agent&)
unfoldable pub copy : Agent → Agent
copy a =
    agent
      (record (info a) {
        name =
            if empty (info a).name
            then codes "No name available (" ++ (info a).jid ++ codes ")"
            else (info a).name;
        gc_capable = none;
        fetch_requested = none;
      })
      nil

unfoldable pub is_some {ℓ} : {A : Type ℓ} → Option A → Bool
is_some none = false
is_some (some a) = true

module _ (judo : Judo) where
  open judo use {Element, get_name, get_attrib, cmp_attrib, children, find_element, get_child_cdata}

  -- Agent(jid, baseElement, s)
  unfoldable pub of_element : Str → Element → Agent
  unfolding is_some
  of_element jid e =
      agent
        (record {
          jid = jid;
          name = get_child_cdata e (codes "name");
          desc = get_child_cdata e (codes "description");
          service = get_child_cdata e (codes "service");
          transport = get_child_cdata e (codes "transport");
          registerable = is_some (find_element e (codes "register"));
          searchable = is_some (find_element e (codes "search"));
          subagents = is_some (find_element e (codes "agents"));
          gc_capable = some (is_some (find_element e (codes "groupchat")));
          fetch_requested = some false;
        })
        nil

  unfoldable pub request_register : Callback → Agent → Session judo → Session judo
  unfolding query_namespace
  request_register f a session =
      query_namespace judo (codes "jabber:iq:register") f (info a).jid session

  unfoldable pub request_search : Callback → Agent → Session judo → Session judo
  unfolding query_namespace
  request_search f a session =
      query_namespace judo (codes "jabber:iq:search") f (info a).jid session

  -- `on_fetch_number` is the number by which the session knows the agent's on_fetch.
  unfoldable pub fetch : ℕ → Agent → Session judo → Option (Agent × Session judo)
  unfolding is_empty query_namespace
  fetch on_fetch_number a session =
      if (info a).subagents && is_empty (agents a)
      then elim (info a).fetch_requested [
        | none ↦ none
        | some true ↦ some (a, session)
        | some false ↦ some (
          agent (record (info a) { fetch_requested = some true }) nil,
          query_namespace judo (codes "jabber:iq:agents") (client on_fetch_number) (info a).jid
              session,
        )
      ]
      else some (a, session)

  -- The loop over the children: each agent that is read is copied into the list.
  unfoldable pub read_agents : List Element → Agents → Agents
  unfolding of_element copy
  read_agents [] r = r
  read_agents (t ∷ ts) r = read_agents ts (
      if get_name t == codes "agent"
      then push_back r (copy (of_element (get_attrib t (codes "jid")) t))
      else r)

  -- The argument of evtFetchComplete comes with the agent, where it is fired.
  unfoldable pub on_fetch : Element → Agent → Option Bool × Agent
  unfolding read_agents
  on_fetch iq a =
      let i = record (info a) { fetch_requested = some false } in
      elim (find_element iq (codes "query")) [
        | none ↦ (none, agent i (agents a))
        | some query ↦
            if cmp_attrib iq (codes "type") (codes "result")
            then (some true, agent i (read_agents (children query) (agents a)))
            else (some false, agent i (agents a))
      ]

  -- AgentList::load; what the list held before is dropped.
  unfoldable pub load : Element → Agents
  unfolding read_agents
  load query =
      if not (cmp_attrib query (codes "xmlns") (codes "jabber:iq:agents"))
      then nil
      else read_agents (children query) nil
