-- ===== src/Filters/Texts.antt =====
-- The names of actions and conditions of src/jabberoox-filter.cc.
use jabberoo.Base.{Str, true, some, ◌==◌, ◌≡◌, refl, arith}
use jabberoo.Filters.{
  ActionValue, ConditionValue, action_name, condition_name, translate_action, translate_condition,
  is_action, is_condition, set_type, forward_to, reply_with, store_offline, continue,
  invalid_action, unavailable, from, my_resource_equals, subject_equals, body_equals, show_equals,
  type_equals, invalid_condition,
}

-- The name of an action is read as the action, and as no condition.
pub translate-action_name :
    (v : ActionValue) (n : Str)
    → action_name v ≡ some n
    → (translate_action n ≡ v) × (translate_condition n ≡ invalid_condition)
unfolding action_name translate_action translate_condition ◌==◌
translate-action_name set_type n h = ground arith
translate-action_name forward_to n h = ground arith
translate-action_name reply_with n h = ground arith
translate-action_name store_offline n h = ground arith
translate-action_name continue n h = ground arith
translate-action_name invalid_action n h = ground arith

pub translate-condition_name :
    (v : ConditionValue) (n : Str)
    → condition_name v ≡ some n
    → (translate_condition n ≡ v) × (translate_action n ≡ invalid_action)
unfolding condition_name translate_action translate_condition ◌==◌
translate-condition_name unavailable n h = ground arith
translate-condition_name from n h = ground arith
translate-condition_name my_resource_equals n h = ground arith
translate-condition_name subject_equals n h = ground arith
translate-condition_name body_equals n h = ground arith
translate-condition_name show_equals n h = ground arith
translate-condition_name type_equals n h = ground arith
translate-condition_name invalid_condition n h = ground arith

pub action_name-cases :
    (v : ActionValue) → is_action v ≡ true → (n : Str) × (action_name v ≡ some n)
unfolding action_name is_action
action_name-cases set_type h = (_, refl)
action_name-cases forward_to h = (_, refl)
action_name-cases reply_with h = (_, refl)
action_name-cases store_offline h = (_, refl)
action_name-cases continue h = (_, refl)
action_name-cases invalid_action h = cc

pub condition_name-cases :
    (v : ConditionValue) → is_condition v ≡ true → (n : Str) × (condition_name v ≡ some n)
unfolding condition_name is_condition
condition_name-cases unavailable h = (_, refl)
condition_name-cases from h = (_, refl)
condition_name-cases my_resource_equals h = (_, refl)
condition_name-cases subject_equals h = (_, refl)
condition_name-cases body_equals h = (_, refl)
condition_name-cases show_equals h = (_, refl)
condition_name-cases type_equals h = (_, refl)
condition_name-cases invalid_condition h = cc
