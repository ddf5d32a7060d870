-- ===== src/Command/Executor.antt =====
-- internal/command/executor.go: the command pipeline.
pub mod Laws
pub mod DryRun
use thesa.Prelude.{not, ◌&&◌, Option, none, some, List, [], ◌∷◌, ◌++◌, is_empty, if◌then◌else◌}
use thesa.Prelude.Text.{Text, codes, text_eq}
use thesa.Errors.{
  Error, FieldError, Result, ok, err, new_not_found, new_forbidden, new_bad_request,
  new_validation_error, error_text,
}
use thesa.Value.{as_map}
use thesa.Definition.{CommandDefinition}
use thesa.Context.{
  Go, RequestContext, InvocationInput, InvocationResult, CommandInput, OperationInvoker,
}
use thesa.Capability.{CapabilitySet, allowed}
use thesa.Registry.{Snapshot, get_command}
use thesa.OpenApi.{Index, ValidationError, validate_request}
use thesa.Invoker.{invoke}
use thesa.Command.Mapper.{map_input, reverse_field_map}
use thesa.Command.Response.{
  CommandResponse, no_response, translate_validation_errors, handle_response,
}

-- A response and an error come back together; `none` is the nil error.
abbrev pub Outcome : Type 0
Outcome = CommandResponse × Option Error

abbrev pub failed : Error → Outcome
failed e = (no_response, some e)

-- Step 6: nothing is checked without an index, for another type, without a service, or where the
-- body is no map.
unfoldable pub schema_errors :
    Option Index → CommandDefinition → InvocationInput → List ValidationError
schema_errors none cmd_def inv_input = []
schema_errors (some idx) cmd_def inv_input =
    if text_eq cmd_def.operation.type (codes "openapi")
      && not (is_empty cmd_def.operation.service_id)
    then (elim (as_map inv_input.body) [
      | none ↦ []
      | some body ↦
          validate_request idx cmd_def.operation.service_id cmd_def.operation.operation_id body
    ])
    else []

abbrev pub reported : CommandDefinition → List ValidationError → List FieldError
reported cmd_def errs =
    translate_validation_errors errs (reverse_field_map cmd_def.input.field_projection [])

module _ {W : Type 0} (go : Go) (registry : Snapshot) (invokers : List (OperationInvoker W))
    (index : Option Index) where
  abbrev pub answer : CommandDefinition → Result InvocationResult → Outcome
  answer cmd_def (err e) = failed e
  answer cmd_def (ok result) =
      let resp = handle_response go result cmd_def in
      if resp.success then (resp, none) else (resp, some (new_bad_request resp.message))

  -- Steps 6 to 8.
  abbrev pub check_and_invoke :
      RequestContext → CommandDefinition → InvocationInput → List ValidationError → W → Outcome × W
  check_and_invoke rctx cmd_def inv_input [] w =
      let (result, w') = invoke go invokers rctx cmd_def.operation inv_input w in
      (answer cmd_def result, w')
  check_and_invoke rctx cmd_def inv_input (e ∷ es) w =
      let fields = reported cmd_def (e ∷ es) in
      ((record no_response { errors = fields }, some (new_validation_error fields)), w)

  abbrev pub run_mapped :
      RequestContext → CommandDefinition → Result InvocationInput → W → Outcome × W
  run_mapped rctx cmd_def (err e) w =
      (failed (new_bad_request (codes "input mapping error: " ++ error_text e)), w)
  run_mapped rctx cmd_def (ok inv_input) w =
      check_and_invoke rctx cmd_def inv_input (schema_errors index cmd_def inv_input) w

  abbrev pub run_definition :
      RequestContext
      → CapabilitySet
      → Text
      → CommandInput
      → Option CommandDefinition
      → W
      → Outcome × W
  run_definition rctx caps command_id input none w =
      (failed (new_not_found (codes "command " ++ (go.quote command_id ++ codes " not found"))), w)
  run_definition rctx caps command_id input (some cmd_def) w =
      if not (allowed caps cmd_def.capabilities)
      then (
        failed
            (new_forbidden (codes "insufficient capabilities for command " ++ go.quote command_id)),
        w,
      )
      else run_mapped rctx cmd_def (map_input go cmd_def.input input (some rctx) none) w

  unfoldable pub execute : RequestContext → CapabilitySet → Text → CommandInput → W → Outcome × W
  execute rctx caps command_id input w =
      run_definition rctx caps command_id input (get_command registry command_id) w

-- The dry run: no backend, and no world.
module _ (go : Go) (registry : Snapshot) (index : Option Index) where
  abbrev single : Text → Text → List FieldError
  single code message = record { field = []; code = code; message = message } ∷ []

  abbrev pub validate_mapped : CommandDefinition → Result InvocationInput → List FieldError
  validate_mapped cmd_def (err e) = single (codes "MAPPING_ERROR") (error_text e)
  validate_mapped cmd_def (ok inv_input) = reported cmd_def (schema_errors index cmd_def inv_input)

  abbrev pub validate_definition :
      RequestContext
      → CapabilitySet
      → Text
      → CommandInput
      → Option CommandDefinition
      → List FieldError
  validate_definition rctx caps command_id input none =
      single (codes "NOT_FOUND") (codes "command " ++ (go.quote command_id ++ codes " not found"))
  validate_definition rctx caps command_id input (some cmd_def) =
      if not (allowed caps cmd_def.capabilities)
      then single (codes "FORBIDDEN") (codes "insufficient capabilities")
      else validate_mapped cmd_def (map_input go cmd_def.input input (some rctx) none)

  unfoldable pub validate : RequestContext → CapabilitySet → Text → CommandInput → List FieldError
  validate rctx caps command_id input =
      validate_definition rctx caps command_id input (get_command registry command_id)
