-- ===== src/Agents/Copies.antt =====
-- The agents in the lists of src/jabberoox-agent.cc, which are copies.
use jabberoo.Base.{
  append_nil, append_assoc, Str, true, false, none, List, [], ◌∷◌, ◌++◌, ℕ, codes, ◌≡◌, refl, sym,
  ap, ◌∙◌, empty, ◌==◌, if◌then◌else◌, Bool-cases, inl, inr,
}
use jabberoo.Judo.{Judo}
use jabberoo.Session.{Session}
use jabberoo.Agents.{
  Agent, Agents, nil, cons, info, push_back, copy, of_element, fetch, read_agents, load, is_empty,
}

abbrev pub AllAgents {ℓ} : (Agent → Type ℓ) → Agents → Type ℓ
AllAgents P nil = Unit
AllAgents P (cons a r) = P a × AllAgents P r

push_back-AllAgents {ℓ} :
    (P : Agent → Type ℓ) (r : Agents) (a : Agent)
    → AllAgents P r
    → P a
    → AllAgents P (push_back r a)
push_back-AllAgents P nil a h k = (k, tt)
push_back-AllAgents P (cons x r) a h k = (h.0, push_back-AllAgents P r a h.1 k)

abbrev pub jids_of : Agents → List Str
jids_of nil = []
jids_of (cons a r) = (info a).jid ∷ jids_of r

jids_of-push_back :
    (r : Agents) (a : Agent) → jids_of (push_back r a) ≡ jids_of r ++ (info a).jid ∷ []
jids_of-push_back nil a = refl
jids_of-push_back (cons x r) a = ap (λ js. (info x).jid ∷ js) (jids_of-push_back r a)

module _ (judo : Judo) where
  open judo use {Element, get_name, get_attrib, children, cmp_attrib}

  -- An agent with a name, of which a fetch is undefined if it has agents of its own.
  abbrev pub IsCopied : Agent → Type 0
  IsCopied a =
      (empty (info a).name ≡ false)
      × ((number : ℕ) (session : Session judo)
          → (info a).subagents ≡ true
          → fetch judo number a session ≡ none)

  copy-IsCopied : (a : Agent) → IsCopied (copy a)
  unfolding copy fetch is_empty
  copy-IsCopied a = elim (Bool-cases (empty (info a).name)) [
    | inl bare ↦ rw bare (refl, λ number session h. rw h refl)
    | inr named ↦ rw named (named, λ number session h. rw h refl)
  ]

  read_agents-AllAgents :
      (ts : List Element) (r : Agents)
      → AllAgents IsCopied r
      → AllAgents IsCopied (read_agents judo ts r)
  unfolding read_agents
  read_agents-AllAgents [] r h = h
  read_agents-AllAgents (t ∷ ts) r h = elim (Bool-cases (get_name t == codes "agent")) [
    | inl found ↦
        let a = copy (of_element judo (get_attrib t (codes "jid")) t) in
        rw found (
          read_agents-AllAgents ts (push_back r a) (
            push_back-AllAgents IsCopied r a h
              (copy-IsCopied (of_element judo (get_attrib t (codes "jid")) t))))
    | inr other ↦ rw other (read_agents-AllAgents ts r h)
  ]

  -- The JIDs of the elements named agent, in order.
  abbrev pub agent_jids : List Element → List Str
  agent_jids [] = []
  agent_jids (t ∷ ts) =
      let rest = agent_jids ts in
      if get_name t == codes "agent" then get_attrib t (codes "jid") ∷ rest else rest

  read_agents-jids_of :
      (ts : List Element) (r : Agents)
      → jids_of (read_agents judo ts r) ≡ jids_of r ++ agent_jids ts
  unfolding read_agents copy of_element
  read_agents-jids_of [] r = sym (append_nil (jids_of r))
  read_agents-jids_of (t ∷ ts) r = elim (Bool-cases (get_name t == codes "agent")) [
    | inl found ↦
        let jid = get_attrib t (codes "jid") in
        let a = copy (of_element judo jid t) in
        rw found (
          read_agents-jids_of ts (push_back r a)
          ∙ ap (λ js. js ++ agent_jids ts) (jids_of-push_back r a)
          ∙ append_assoc (jids_of r) (jid ∷ []) (agent_jids ts))
    | inr other ↦ rw other (read_agents-jids_of ts r)
  ]

  -- A query of the namespace jabber:iq:agents gives a list with one agent for each child element
  -- named agent, in order, by their JIDs. Each agent has a name that is not empty, and to fetch the
  -- agents of one that has agents reads a member that its copy left unset.
  pub load_lem :
      (query : Element)
      → cmp_attrib query (codes "xmlns") (codes "jabber:iq:agents") ≡ true
      → (jids_of (load judo query) ≡ agent_jids (children query))
        × AllAgents IsCopied (load judo query)
  unfolding load
  load_lem query here =
      rw here
        (read_agents-jids_of (children query) nil, read_agents-AllAgents (children query) nil tt)
