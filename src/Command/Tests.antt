-- ===== src/Command/Tests.antt =====
-- The command theorems at small inputs.
use thesa.Prelude.{none, some, [], ◌∷◌, ◌≡◌, refl, ◌⊎◌}
use thesa.Prelude.Int.{pos, ◌≤ℤ◌, ◌<ℤ◌}
use thesa.Prelude.Text.{codes, text_eq, has_prefix, has_suffix}
use thesa.Prelude.Strings.{split, split_rev, cut_byte}
use thesa.Prelude.Trim.{trim_space}
use thesa.Prelude.Maps.{lookup, insert}
use thesa.Errors.{Error, ok}
use thesa.Value.{str, obj, of_map}
use thesa.Context.{RequestContext, InvocationInput, InvocationResult}
use thesa.Capability.{allowed, has_all, has, match_wildcard}
use thesa.Registry.{get_command, replace, load, index}
use thesa.Invoker.{invoke}
use thesa.Command.Path.{navigate_path, walk, value_at}
use thesa.Command.Number.{is_numeric_literal}
use thesa.Command.Expression.{
  resolve, resolve_trimmed, resolve_source, resolve_input, resolve_context,
}
use thesa.Command.Mapper.{map_input, map_params, map_values, build_body, resolver_of}
use thesa.Command.Mapper.Laws.{Carries, map_input_params}
use thesa.Command.Mapper.Identity.{map_input_same}
use thesa.Command.Response.{handle_response, apply_output_mapping, map_fields}
use thesa.Command.Executor.{answer, execute, schema_errors}
use thesa.Command.Executor.Laws.{Admitted, Refused, execute_cases, execute_success}
use thesa.Command.Executor.DryRun.{Agrees, validate-execute}
use thesa.Samples.{go, caller, caps, mapping, registry, input, invokers}

execute_cases_example :
    ((a : Admitted go registry none caller caps (codes "ship") input) × (execute go registry
          invokers none caller caps
          (codes "ship")
          input
          0
        ≡ (
          answer go registry invokers none a.cmd
              (invoke go invokers caller a.cmd.operation a.inv 0).0,
          (invoke go invokers caller a.cmd.operation a.inv 0).1,
        )))
    ⊎ ((e : Error) × ((execute go registry invokers none caller caps (codes "ship") input 0).0.1
          ≡ some e)
        × Refused go registry none caller caps (codes "ship") input e
        × ((execute go registry invokers none caller caps (codes "ship") input 0).1 ≡ 0))
execute_cases_example = execute_cases go registry invokers none caller caps (codes "ship") input 0

execute_success_example :
    (a : Admitted go registry none caller caps (codes "ship") input) × (result : InvocationResult)
    × ((invoke go invokers caller a.cmd.operation a.inv 0).0 ≡ ok result)
    × (pos 200 ≤ℤ result.status_code)
    × (result.status_code <ℤ pos 300)
    × ((execute go registry invokers none caller caps (codes "ship") input 0).0.0
        ≡ handle_response go result a.cmd)
unfolding execute get_command replace load index allowed has_all has match_wildcard has_suffix
    map_input map_params map_values build_body resolve resolve_trimmed resolve_source resolve_input
    resolve_context trim_space is_numeric_literal cut_byte text_eq has_prefix navigate_path walk
    split split_rev value_at lookup insert schema_errors invoke handle_response apply_output_mapping
    map_fields
execute_success_example =
    execute_success go registry invokers none caller caps (codes "ship") input 0 refl

validate-execute_example : Agrees go registry none caller caps (codes "ship") input invokers 0
validate-execute_example =
    validate-execute go registry none caller caps (codes "ship") input invokers 0

abbrev call : InvocationInput
call = record {
  path_params = (codes "id", codes "7") ∷ [];
  query_params = (codes "mode", codes "fast") ∷ [];
  headers = (codes "X-User", codes "ann") ∷ [];
  body = obj (of_map ((codes "order_id", str (codes "7")) ∷ []));
}

input-mapped : map_input go mapping input (some caller) none ≡ ok call
unfolding map_input map_params map_values build_body resolve resolve_trimmed resolve_source
    resolve_input resolve_context trim_space is_numeric_literal cut_byte text_eq has_prefix
    navigate_path walk split split_rev value_at lookup insert
input-mapped = refl

map_input_params_example :
    Carries go (resolver_of input (some caller) none) mapping.path_params [] call.path_params
    × Carries go (resolver_of input (some caller) none) mapping.query_params [] call.query_params
    × Carries go (resolver_of input (some caller) none) mapping.header_params [] call.headers
    × (build_body go mapping (resolver_of input (some caller) none) input ≡ ok call.body)
unfolding lookup
map_input_params_example =
    map_input_params go mapping input (some caller) none call (refl, tt) (refl, tt) (refl, tt)
      input-mapped

-- The same user with another token and other roles.
abbrev promoted : RequestContext
promoted = record caller { roles = codes "admin" ∷ []; token = codes "other" }

map_input_same_example :
    map_input go mapping input (some caller) none ≡ map_input go mapping input (some promoted) none
map_input_same_example =
    map_input_same go mapping input caller promoted none
      (record { subject = refl; tenant = refl; partition = refl; email = refl })
