-- ===== src/Metadata/Tests.antt =====
-- The theorems on metadata at small inputs.
use thesa.Prelude.{not, none, some, [], ◌∷◌, ◌≡◌, all, keep}
use thesa.Prelude.Text.{codes}
use thesa.Value.{str}
use thesa.Definition.{ActionDefinition, ConditionDefinition}
use thesa.Metadata.Action.{is_static_condition, resolve_action}
use thesa.Metadata.Action.Laws.{hides, disables, resolve_action_lem}
use thesa.Samples.{go}

abbrev shipped : ConditionDefinition
shipped = record {
  field = codes "state";
  operator = codes "eq";
  value = str (codes "shipped");
  effect = codes "hide";
}

abbrev urgent : ConditionDefinition
urgent = record {
  field = codes "urgent";
  operator = codes "exists";
  value = str [];
  effect = codes "enable";
}

abbrev cancel : ActionDefinition
cancel = record {
  id = codes "cancel";
  label = codes "Cancel";
  icon = [];
  style = [];
  capabilities = codes "orders:cancel" ∷ [];
  type = codes "command";
  command_id = codes "cancel";
  navigate_to = [];
  form_id = [];
  confirmation = none;
  conditions = shipped ∷ urgent ∷ [];
  params = [];
}

abbrev pay : ActionDefinition
pay = record cancel { id = codes "pay"; capabilities = codes "billing:pay" ∷ [] }

resolve_action_lem_example :
    ((resolve_action go (some ((codes "state", str (codes "shipped")) ∷ [])) cancel).visible
      ≡ all
          (λ c. not (hides go (some ((codes "state", str (codes "shipped")) ∷ [])) c))
          cancel.conditions)
    × ((resolve_action go (some ((codes "state", str (codes "shipped")) ∷ [])) cancel).enabled
        ≡ all
            (λ c. not (disables go (some ((codes "state", str (codes "shipped")) ∷ [])) c))
            cancel.conditions)
    × ((resolve_action go (some ((codes "state", str (codes "shipped")) ∷ [])) cancel).conditions
        ≡ keep
            (λ c. not (is_static_condition c (some ((codes "state", str (codes "shipped")) ∷ []))))
            cancel.conditions)
    × ((resolve_action go (some ((codes "state", str (codes "shipped")) ∷ [])) cancel).id
        ≡ codes "cancel")
resolve_action_lem_example =
    resolve_action_lem go (some ((codes "state", str (codes "shipped")) ∷ [])) cancel
