-- ===== src/Metadata/Form.antt =====
-- internal/metadata/form.go: forms and the data that they start with.
pub mod Laws
use thesa.Prelude.{Bool, not, Option, none, some, List, [], ◌∷◌, ◌++◌, is_empty, if◌then◌else◌}
use thesa.Prelude.Text.{Text, codes}
use thesa.Prelude.Maps.{Map, lookup, insert}
use thesa.Value.{Value, null, as_map}
use thesa.Errors.{Result, ok, err, new_not_found, new_forbidden}
use thesa.Definition.{FormDefinition, SectionDefinition, DataSourceDefinition}
use thesa.Context.{Go, RequestContext, InvocationInput, InvocationResult, OperationInvoker, Exec}
use thesa.Capability.{CapabilitySet, allowed}
use thesa.Sets.{id_set, in_set}
use thesa.Registry.{Snapshot, get_form}
use thesa.Invoker.{invoke}
use thesa.Metadata.Descriptor.{FormDescriptor}
use thesa.Metadata.Section.{resolve_sections, source_binding}

-- collectFormFields
unfoldable pub collect_form_fields : List SectionDefinition → Map Bool → Map Bool
collect_form_fields [] m = m
collect_form_fields (sec ∷ secs) m = collect_form_fields secs (id_set (λ f. f.field) sec.fields m)

-- The data in the order in which the loop visits it, and the result so far.
unfoldable pub filter_to_fields : Map Value → Map Bool → Map Value → Map Value
filter_to_fields [] fields result = result
filter_to_fields ((k, v) ∷ data') fields result =
    filter_to_fields data' fields (if in_set fields k then insert k v result else result)

abbrev pub new_name : Map Text → Text → Text
new_name field_map k = elim (lookup k field_map) [ none ↦ k | some name ↦ name ]

unfoldable pub rename_fields : Map Value → Map Text → Map Value → Map Value
rename_fields [] field_map result = result
rename_fields ((k, v) ∷ data') field_map result =
    rename_fields data' field_map (insert (new_name field_map k) v result)

abbrev pub renamed : Map Text → Map Value → Map Value
renamed field_map body = if is_empty field_map then body else rename_fields body field_map []

abbrev pub form_body :
    DataSourceDefinition → List SectionDefinition → Option (Map Value) → Map Value
form_body ds secs none = []
form_body ds secs (some body) =
    filter_to_fields (renamed ds.mapping.field_map body) (collect_form_fields secs []) []

-- `none` is a nil map.
abbrev pub form_data :
    DataSourceDefinition
    → List SectionDefinition
    → Result InvocationResult
    → Result (Option (Map Value))
form_data ds secs (err e) = err e
form_data ds secs (ok result) = ok (some (form_body ds secs (as_map result.body)))

abbrev pub path_input : Map Text → InvocationInput
path_input params = record { path_params = params; query_params = []; headers = []; body = null }

abbrev pub describe : CapabilitySet → FormDefinition → FormDescriptor
describe caps def = record {
  id = def.id;
  title = def.title;
  sections = resolve_sections caps def.sections;
  submit_endpoint = codes "/api/commands/" ++ def.submit_command;
  success_route = def.success_route;
  success_message = def.success_message;
}

module _ (go : Go) where
  abbrev pub no_form : Text → Text
  no_form form_id = codes "form " ++ (go.quote form_id ++ codes " not found")

  abbrev pub no_form_access : Text → Text
  no_form_access form_id = codes "insufficient capabilities for form " ++ go.quote form_id

  abbrev describe_found : CapabilitySet → Text → Option FormDefinition → Result FormDescriptor
  describe_found caps form_id none = err (new_not_found (no_form form_id))
  describe_found caps form_id (some def) =
      if not (allowed caps def.capabilities)
      then err (new_forbidden (no_form_access form_id))
      else ok (describe caps def)

  unfoldable pub get_form_descriptor : Snapshot → CapabilitySet → Text → Result FormDescriptor
  get_form_descriptor registry caps form_id =
      describe_found caps form_id (get_form registry form_id)

  module _ {W : Type 0} (invokers : List (OperationInvoker W)) where
    unfoldable pub load_form :
        RequestContext
        → List SectionDefinition
        → Map Text
        → Option DataSourceDefinition
        → Exec W (Option (Map Value))
    load_form rctx secs params none w = (ok none, w)
    load_form rctx secs params (some ds) w =
        let (r, w') = invoke go invokers rctx (source_binding ds) (path_input params) w in
        (form_data ds secs r, w')

    abbrev data_found :
        RequestContext
        → CapabilitySet
        → Text
        → Map Text
        → Option FormDefinition
        → Exec W (Option (Map Value))
    data_found rctx caps form_id params none w = (err (new_not_found (no_form form_id)), w)
    data_found rctx caps form_id params (some def) w =
        if not (allowed caps def.capabilities)
        then (err (new_forbidden (no_form_access form_id)), w)
        else load_form rctx def.sections params def.load_source w

    unfoldable pub get_form_data :
        Snapshot → RequestContext → CapabilitySet → Text → Map Text → Exec W (Option (Map Value))
    get_form_data registry rctx caps form_id params w =
        data_found rctx caps form_id params (get_form registry form_id) w
