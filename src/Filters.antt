-- ===== src/Filters.antt =====
-- src/jabberoox-filter.cc and the classes Filter and FilterList of include/jabberoox.hh: the rules
-- for messages that a server keeps, read from elements and printed as XML text.
pub mod Texts
pub mod Rules
pub mod Printed
use jabberoo.Base.{
  Str, Bool, true, false, Option, none, some, List, [], ◌∷◌, ◌++◌, codes, if◌then◌else◌, ◌==◌,
  empty, not, ◌||◌,
}
use jabberoo.Judo.{Judo}

pub data ActionValue : Type 0 where
  set_type forward_to reply_with store_offline continue invalid_action : ActionValue

pub data ConditionValue : Type 0 where
  unavailable from my_resource_equals subject_equals body_equals show_equals type_equals :
      ConditionValue
  invalid_condition : ConditionValue

pub record Action : Type 0 where
  pub value : ActionValue
  pub param : Str

pub record Condition : Type 0 where
  pub value : ConditionValue
  pub param : Str

pub record Filter : Type 0 where
  pub name : Str
  pub actions : List Action
  pub conditions : List Condition

-- The names in Action::toXML, none for the default of the switch.
unfoldable pub action_name : ActionValue → Option Str
action_name set_type = some (codes "settype")
action_name forward_to = some (codes "forward")
action_name reply_with = some (codes "reply")
action_name store_offline = some (codes "offline")
action_name continue = some (codes "continue")
action_name invalid_action = none

unfoldable pub translate_action : Str → ActionValue
translate_action s =
    if s == codes "settype"
    then set_type
    else if s == codes "forward"
    then forward_to
    else if s == codes "reply"
    then reply_with
    else if s == codes "offline"
    then store_offline
    else if s == codes "continue"
    then continue
    else invalid_action

unfoldable pub condition_name : ConditionValue → Option Str
condition_name unavailable = some (codes "unavailable")
condition_name from = some (codes "from")
condition_name my_resource_equals = some (codes "resource")
condition_name subject_equals = some (codes "subject")
condition_name body_equals = some (codes "body")
condition_name show_equals = some (codes "show")
condition_name type_equals = some (codes "type")
condition_name invalid_condition = none

unfoldable pub translate_condition : Str → ConditionValue
translate_condition s =
    if s == codes "unavailable"
    then unavailable
    else if s == codes "from"
    then from
    else if s == codes "resource"
    then my_resource_equals
    else if s == codes "subject"
    then subject_equals
    else if s == codes "body"
    then body_equals
    else if s == codes "show"
    then show_equals
    else if s == codes "type"
    then type_equals
    else invalid_condition

-- ParamReq of the class, none outside of the array.
unfoldable pub action_requires_param : ActionValue → Option Bool
action_requires_param set_type = some true
action_requires_param forward_to = some true
action_requires_param reply_with = some true
action_requires_param store_offline = some false
action_requires_param continue = some false
action_requires_param invalid_action = none

unfoldable pub condition_requires_param : ConditionValue → Option Bool
condition_requires_param unavailable = some false
condition_requires_param from = some true
condition_requires_param my_resource_equals = some true
condition_requires_param subject_equals = some true
condition_requires_param body_equals = some true
condition_requires_param show_equals = some true
condition_requires_param type_equals = some true
condition_requires_param invalid_condition = none

unfoldable pub is_action : ActionValue → Bool
is_action invalid_action = false
is_action _ = true

unfoldable pub is_condition : ConditionValue → Bool
is_condition invalid_condition = false
is_condition _ = true

unfoldable pub null {ℓ} : {A : Type ℓ} → List A → Bool
null [] = true
null (x ∷ xs) = false

module _ (judo : Judo) where
  open judo use {Element, get_name, get_attrib, cmp_attrib, get_cdata, children, escape}

  -- The text of an element with a name and a parameter, as both toXML end.
  unfoldable pub param_xml : Option Str → Str → Str
  param_xml none param = []
  param_xml (some name) param =
      if empty param
      then codes "<" ++ name ++ codes "/>"
      else codes "<" ++ name ++ codes ">" ++ escape param ++ codes "</" ++ name ++ codes ">"

  unfoldable pub action_xml : Action → Str
  unfolding action_name param_xml
  action_xml a = param_xml (action_name a.value) a.param

  unfoldable pub condition_xml : Condition → Str
  unfolding condition_name param_xml
  condition_xml c = param_xml (condition_name c.value) c.param

  -- The loop of Filter(const judo::Element&) over the child elements.
  unfoldable pub read_children : List Element → Filter → Filter
  unfolding translate_action translate_condition is_action is_condition
  read_children [] f = f
  read_children (t ∷ ts) f =
      let aval = translate_action (get_name t) in
      let cval = translate_condition (get_name t) in
      read_children ts (record f {
        actions =
            if is_action aval
            then f.actions ++ (record { value = aval; param = get_cdata t }) ∷ []
            else f.actions;
        conditions =
            if is_condition cval
            then f.conditions ++ (record { value = cval; param = get_cdata t }) ∷ []
            else f.conditions;
      })

  unfoldable pub filter_of_element : Element → Filter
  unfolding read_children
  filter_of_element rule =
      let name = get_attrib rule (codes "name") in
      read_children (children rule) (record {
        name = if empty name then codes "Default rule" else name;
        actions = [];
        conditions = [];
      })

  unfoldable pub actions_xml : List Action → Str
  unfolding action_xml
  actions_xml [] = []
  actions_xml (a ∷ rest) = action_xml a ++ actions_xml rest

  unfoldable pub conditions_xml : List Condition → Str
  unfolding condition_xml
  conditions_xml [] = []
  conditions_xml (c ∷ cs) = condition_xml c ++ conditions_xml cs

  unfoldable pub filter_xml : Filter → Str
  unfolding actions_xml conditions_xml null
  filter_xml f =
      let result = codes "<rule name='" ++ f.name in
      if not (null f.actions) || not (null f.conditions)
      then result
        ++ codes "'>"
        ++ actions_xml f.actions
        ++ conditions_xml f.conditions
        ++ codes "</rule>"
      else result ++ codes "'/>"

  -- The loop of FilterList(const judo::Element&).
  unfoldable pub read_rules : List Element → List Filter
  unfolding filter_of_element
  read_rules [] = []
  read_rules (t ∷ ts) =
      let rest = read_rules ts in
      if get_name t == codes "rule" then filter_of_element t ∷ rest else rest

  unfoldable pub filters_of_element : Element → List Filter
  unfolding read_rules
  filters_of_element query =
      if not (cmp_attrib query (codes "xmlns") (codes "jabber:iq:filter"))
      then []
      else read_rules (children query)

  unfoldable pub all_filters_xml : List Filter → Str
  unfolding filter_xml
  all_filters_xml [] = []
  all_filters_xml (f ∷ fs) = filter_xml f ++ all_filters_xml fs

  unfoldable pub filters_xml : List Filter → Str
  unfolding all_filters_xml null
  filters_xml fs =
      let result = codes "<query xmlns='jabber:iq:filter'" in
      if not (null fs)
      then result ++ codes ">" ++ all_filters_xml fs ++ codes "</query>"
      else result ++ codes "/>"
