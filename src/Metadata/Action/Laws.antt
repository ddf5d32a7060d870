-- ===== src/Metadata/Action/Laws.antt =====
-- Which actions are shown, and in which state.
use mathlib.Core.List.{append-nil, append_assoc}
use thesa.Prelude.{
  Bool, true, false, not, ◌&&◌, Option, List, [], ◌∷◌, ◌++◌, ◌≡◌, refl, sym, ◌∙◌, arith, inl, inr,
  map, all, keep, Bool-cases, if◌then◌else◌,
}
use thesa.Prelude.Text.{Text, codes, text_eq, text_eq_iff}
use thesa.Prelude.Maps.{Map}
use thesa.Value.{Value}
use thesa.Definition.{ActionDefinition, ConditionDefinition}
use thesa.Context.{Go}
use thesa.Capability.{CapabilitySet, allowed}
use thesa.Metadata.Action.{
  ActionDescriptor, is_static_condition, evaluate_static_condition, apply_condition_effect,
  condition_loop, start, resolve_action, resolve_actions,
}

and_true : (b : Bool) → (b && true) ≡ b
and_true true = refl
and_true false = refl

module _ (go : Go) (data' : Option (Map Value)) where
  -- A condition that can be evaluated with the data has the effect `on` if it is met, or the effect
  -- `off` if it is not.
  abbrev pub takes : Text → Text → ConditionDefinition → Bool
  takes on off cond =
      is_static_condition cond data'
      && (if evaluate_static_condition go cond data'
          then text_eq cond.effect on
          else text_eq cond.effect off)

  abbrev pub hides : ConditionDefinition → Bool
  hides = takes (codes "hide") (codes "show")

  abbrev pub disables : ConditionDefinition → Bool
  disables = takes (codes "disable") (codes "enable")

  effect_visible :
      (desc : ActionDescriptor) (effect : Text) (met : Bool)
      → (apply_condition_effect go desc effect met).visible ≡ (
          not (if met then text_eq effect (codes "hide") else text_eq effect (codes "show"))
          && desc.visible)
  unfolding apply_condition_effect
  effect_visible desc effect met = ground (
    arith,
    text_eq_iff effect (codes "hide"),
    text_eq_iff effect (codes "show"),
    text_eq_iff effect (codes "disable"),
    text_eq_iff effect (codes "enable"),
  )

  effect_enabled :
      (desc : ActionDescriptor) (effect : Text) (met : Bool)
      → (apply_condition_effect go desc effect met).enabled ≡ (
          not (if met then text_eq effect (codes "disable") else text_eq effect (codes "enable"))
          && desc.enabled)
  unfolding apply_condition_effect
  effect_enabled desc effect met = ground (
    arith,
    text_eq_iff effect (codes "hide"),
    text_eq_iff effect (codes "show"),
    text_eq_iff effect (codes "disable"),
    text_eq_iff effect (codes "enable"),
  )

  effect_id :
      (desc : ActionDescriptor) (effect : Text) (met : Bool)
      → (apply_condition_effect go desc effect met).id ≡ desc.id
  unfolding apply_condition_effect
  effect_id desc effect met = ground arith

  -- What the loop leaves: flags by all conditions that it evaluates, and the rest for the client.
  record Loop (conds : List ConditionDefinition) (desc : ActionDescriptor)
      (client : List ConditionDefinition) (out : ActionDescriptor × List ConditionDefinition)
      : Type 0 where
    shown : out.0.visible ≡ (all (λ c. not (hides c)) conds && desc.visible)
    usable : out.0.enabled ≡ (all (λ c. not (disables c)) conds && desc.enabled)
    same : out.0.id ≡ desc.id
    left : out.1 ≡ client ++ keep (λ c. not (is_static_condition c data')) conds

  after : ConditionDefinition → ActionDescriptor → ActionDescriptor
  after cond desc =
      apply_condition_effect go desc cond.effect (evaluate_static_condition go cond data')

  loop_static :
      (cond : ConditionDefinition) (conds client : List ConditionDefinition)
      (desc : ActionDescriptor)
      → is_static_condition cond data' ≡ true
      → condition_loop go data' (cond ∷ conds) desc client
        ≡ condition_loop go data' conds (after cond desc) client
  unfolding condition_loop after
  loop_static cond conds client desc h = rw (h, condition_loop) refl

  loop_client :
      (cond : ConditionDefinition) (conds client : List ConditionDefinition)
      (desc : ActionDescriptor)
      → is_static_condition cond data' ≡ false
      → condition_loop go data' (cond ∷ conds) desc client
        ≡ condition_loop go data' conds desc (client ++ cond ∷ [])
  unfolding condition_loop
  loop_client cond conds client desc h = rw (h, condition_loop) refl

  loop_lem :
      (conds : List ConditionDefinition) (desc : ActionDescriptor)
      (client : List ConditionDefinition)
      → Loop conds desc client (condition_loop go data' conds desc client)
  unfolding after
  loop_lem [] desc client =
      unfold condition_loop in
      record { shown = refl; usable = refl; same = refl; left = sym (append-nil client) }
  loop_lem (cond ∷ conds) desc client = elim (Bool-cases (is_static_condition cond data')) [
    | inl static ↦
        let rest = loop_lem conds (after cond desc) client in
        let met = evaluate_static_condition go cond data' in
        rw (loop_static cond conds client desc static) (record {
          shown = rest.shown ∙ (ground (arith, static, effect_visible desc cond.effect met));
          usable = rest.usable ∙ (ground (arith, static, effect_enabled desc cond.effect met));
          same = rest.same ∙ effect_id desc cond.effect met;
          left = rest.left ∙ (ground (arith, static));
        })
    | inr client_side ↦
        let rest = loop_lem conds desc (client ++ cond ∷ []) in
        rw (loop_client cond conds client desc client_side) (record {
          shown = rest.shown ∙ (ground (arith, client_side));
          usable = rest.usable ∙ (ground (arith, client_side));
          same = rest.same;
          left =
              rest.left
              ∙ append_assoc client (cond ∷ [])
                  (keep (λ c. not (is_static_condition c data')) conds)
              ∙ (ground (arith, client_side));
        })
  ]

  -- The state of an action does not depend on the order of its conditions: it is visible unless a
  -- condition on the data hides it, enabled unless one disables it, and the client is given exactly
  -- the conditions that the data cannot decide, in their order.
  pub resolve_action_lem :
      (action : ActionDefinition)
      → ((resolve_action go data' action).visible ≡ all (λ c. not (hides c)) action.conditions)
        × ((resolve_action go data' action).enabled ≡ all (λ c. not (disables c)) action.conditions)
        × ((resolve_action go data' action).conditions
            ≡ keep (λ c. not (is_static_condition c data')) action.conditions)
        × ((resolve_action go data' action).id ≡ action.id)
  unfolding resolve_action
  resolve_action_lem action =
      let out = loop_lem action.conditions (start go action) [] in
      (out.shown ∙ and_true _, out.usable ∙ and_true _, out.left, out.same)

-- A caller is given the actions whose capabilities it all holds, and no others, in the order of
-- their definitions.
pub resolve_actions-ids :
    (go : Go) (caps : CapabilitySet) (actions : List ActionDefinition) (data' : Option (Map Value))
    → map (λ (d : ActionDescriptor). d.id) (resolve_actions go caps actions data')
      ≡ map (λ (a : ActionDefinition). a.id) (keep (λ a. allowed caps a.capabilities) actions)
unfolding resolve_actions
resolve_actions-ids go caps [] data' = refl
resolve_actions-ids go caps (action ∷ actions) data' =
    elim (Bool-cases (allowed caps action.capabilities)) [
      | inl may ↦ rw may (λ i.
          (resolve_action_lem go data' action).3 i ∷ resolve_actions-ids go caps actions data' i)
      | inr may_not ↦ rw may_not (resolve_actions-ids go caps actions data')
    ]
