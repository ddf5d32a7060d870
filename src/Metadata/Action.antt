-- ===== src/Metadata/Action.antt =====
-- internal/metadata/action.go: the actions that a caller sees, and their conditions.
pub mod Laws
use mathlib.Core.List.{reverse}
use thesa.Prelude.{
  Bool, true, false, not, Option, none, some, List, [], ◌∷◌, ◌++◌, map, any, keep, is_empty,
  is_some, ◌==◌, if◌then◌else◌,
}
use thesa.Prelude.Text.{Text, codes, text_eq}
use thesa.Prelude.Strings.{split}
use thesa.Prelude.Maps.{Map, lookup}
use thesa.Value.{Value, as_list, as_str}
use thesa.Definition.{ActionDefinition, ConditionDefinition, ConfirmationDefinition}
use thesa.Context.{Go}
use thesa.Capability.{CapabilitySet, allowed}

-- ConditionDescriptor and ConfirmationDescriptor have the fields of their definitions.
pub record ActionDescriptor : Type 0 where
  pub id : Text
  pub label : Text
  pub icon : Text
  pub style : Text
  pub type : Text
  pub enabled : Bool
  pub visible : Bool
  pub command_id : Text
  pub navigate_to : Text
  pub form_id : Text
  pub confirmation : Option ConfirmationDefinition
  pub conditions : List ConditionDefinition
  pub params : Map Text

unfoldable pub drop_spaces : Text → Text
drop_spaces [] = []
drop_spaces (c ∷ s) = let rest = drop_spaces s in if c == b' ' then rest else c ∷ s

-- Spaces only, on both sides.
unfoldable pub trim_space : Text → Text
unfolding drop_spaces
trim_space s = reverse (drop_spaces (reverse (drop_spaces s)))

-- The parts between the commas, trimmed, without the empty ones.
unfoldable pub split_comma : Text → List Text
unfolding trim_space
split_comma s =
    if is_empty s then [] else keep (λ p. not (is_empty p)) (map trim_space (split s b','))

-- `none` is nil data.
unfoldable pub is_static_condition : ConditionDefinition → Option (Map Value) → Bool
is_static_condition cond none = false
is_static_condition cond (some data') = is_some (lookup cond.field data')

module _ (go : Go) where
  -- A slice, a comma-separated text, or else nothing.
  unfoldable pub value_in_slice : Value → Value → Bool
  unfolding split_comma
  value_in_slice field_val cond_value = elim (as_list cond_value) [
    | some vs ↦ any (λ v. text_eq (go.sprint v) (go.sprint field_val)) vs
    | none ↦ elim (as_str cond_value) [
      | some s ↦ any (λ v. text_eq v (go.sprint field_val)) (split_comma s)
      | none ↦ false
    ]
  ]

  abbrev one_of : Text → List Text → Bool
  one_of t ts = any (λ u. text_eq u t) ts

  abbrev operator_holds : Text → Value → Value → Bool
  operator_holds op field_val cond_value =
      if one_of op (codes "eq" ∷ codes "equals" ∷ codes "==" ∷ [])
      then text_eq (go.sprint field_val) (go.sprint cond_value)
      else if one_of op (codes "neq" ∷ codes "not_equals" ∷ codes "!=" ∷ [])
      then not (text_eq (go.sprint field_val) (go.sprint cond_value))
      else if text_eq op (codes "in")
      then value_in_slice field_val cond_value
      else if text_eq op (codes "not_in")
      then not (value_in_slice field_val cond_value)
      else text_eq op (codes "exists")

  abbrev evaluate_in : ConditionDefinition → Option Value → Bool
  evaluate_in cond none = false
  evaluate_in cond (some field_val) = operator_holds cond.operator field_val cond.value

  -- A field that is missing makes every operator false, "not_exists" too.
  unfoldable pub evaluate_static_condition : ConditionDefinition → Option (Map Value) → Bool
  evaluate_static_condition cond none = false
  evaluate_static_condition cond (some data') = evaluate_in cond (lookup cond.field data')

  unfoldable pub apply_condition_effect : ActionDescriptor → Text → Bool → ActionDescriptor
  apply_condition_effect desc effect met =
      if text_eq effect (codes "hide")
      then (if met then record desc { visible = false } else desc)
      else if text_eq effect (codes "show")
      then (if met then desc else record desc { visible = false })
      else if text_eq effect (codes "disable")
      then (if met then record desc { enabled = false } else desc)
      else if text_eq effect (codes "enable")
      then (if met then desc else record desc { enabled = false })
      else desc

  -- The loop over the conditions: the descriptor, and those left to the client.
  unfoldable pub condition_loop :
      Option (Map Value)
      → List ConditionDefinition
      → ActionDescriptor
      → List ConditionDefinition
      → ActionDescriptor × List ConditionDefinition
  condition_loop data' [] desc client = (desc, client)
  condition_loop data' (cond ∷ conds) desc client = elim (is_static_condition cond data') [
    | true ↦
        condition_loop data' conds
          (apply_condition_effect desc cond.effect (evaluate_static_condition cond data')) client
    | false ↦ condition_loop data' conds desc (client ++ cond ∷ [])
  ]

  abbrev pub start : ActionDefinition → ActionDescriptor
  start action = record {
    id = action.id;
    label = action.label;
    icon = action.icon;
    style = action.style;
    type = action.type;
    enabled = true;
    visible = true;
    command_id = action.command_id;
    navigate_to = action.navigate_to;
    form_id = action.form_id;
    confirmation = action.confirmation;
    conditions = [];
    params = action.params;
  }

  unfoldable pub resolve_action : Option (Map Value) → ActionDefinition → ActionDescriptor
  resolve_action data' action =
      let (desc, client) = condition_loop data' action.conditions (start action) [] in
      record desc { conditions = client }

  unfoldable pub resolve_actions :
      CapabilitySet → List ActionDefinition → Option (Map Value) → List ActionDescriptor
  resolve_actions caps [] data' = []
  resolve_actions caps (action ∷ actions) data' =
      let rest = resolve_actions caps actions data' in
      if not (allowed caps action.capabilities) then rest else resolve_action data' action ∷ rest
