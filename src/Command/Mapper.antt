-- ===== src/Command/Mapper.antt =====
-- internal/command/mapper.go: a mapping's expressions, resolved into a backend call.
pub mod Laws
pub mod Identity
pub mod Total
pub mod Reverse
use thesa.Prelude.{Option, [], ◌∷◌, ◌++◌, drop, ◌||◌, if◌then◌else◌}
use thesa.Prelude.Text.{Text, codes, text_eq, has_prefix}
use thesa.Prelude.Maps.{Map, insert}
use thesa.Errors.{Error, Result, ok, err, plain, ◌>>=◌, wrap_error, error_text}
use thesa.Value.{Value, obj, of_map, of_nillable}
use thesa.Definition.{InputMapping}
use thesa.Context.{Go, RequestContext, InvocationInput, CommandInput}
use thesa.Command.Expression.{ExpressionResolver, resolve}

abbrev pub resolver_of :
    CommandInput → Option RequestContext → Option (Map Value) → ExpressionResolver
resolver_of input rctx workflow_state = record {
  input = input.input;
  route_params = input.route_params;
  context = rctx;
  workflow_state = workflow_state;
}

module _ (go : Go) where
  -- fmt.Errorf("<label>[%s]: %w", key, err)
  abbrev pub at_key : Text → Text → Error → Text
  at_key label key e = label ++ (codes "[" ++ (key ++ (codes "]: " ++ error_text e)))

  -- The loops over path, query and header parameters: values are printed.
  unfoldable pub map_params : ExpressionResolver → Text → Map Text → Map Text → Result (Map Text)
  map_params r label [] done = ok done
  map_params r label ((param, expr) ∷ m) done = do
    val ← wrap_error (at_key label param) (resolve go r expr)
    map_params r label m (insert param (go.sprint val) done)

  -- The loops of resolveTemplate and resolveProjection: values are kept.
  unfoldable pub map_values : ExpressionResolver → Text → Map Text → Map Value → Result (Map Value)
  map_values r label [] done = ok done
  map_values r label ((key, expr) ∷ m) done = do
    val ← wrap_error (at_key label key) (resolve go r expr)
    map_values r label m (insert key val done)

  abbrev pub as_body : Result (Map Value) → Result Value
  as_body (ok m) = ok (obj (of_map m))
  as_body (err e) = err e

  unfoldable pub build_body : InputMapping → ExpressionResolver → CommandInput → Result Value
  build_body mapping r input =
      let strategy = go.to_lower mapping.body_mapping in
      if text_eq strategy (codes "passthrough") || text_eq strategy []
      then ok (of_nillable input.input)
      else if text_eq strategy (codes "template")
      then as_body (map_values r (codes "body_template") mapping.body_template [])
      else if text_eq strategy (codes "projection")
      then as_body (map_values r (codes "field_projection") mapping.field_projection [])
      else err (plain (codes "unknown body_mapping strategy " ++ go.quote mapping.body_mapping))

  unfoldable pub map_input :
      InputMapping
      → CommandInput
      → Option RequestContext
      → Option (Map Value)
      → Result InvocationInput
  map_input mapping input rctx workflow_state = do
    let r = resolver_of input rctx workflow_state
    path ← map_params r (codes "path_params") mapping.path_params []
    query ← map_params r (codes "query_params") mapping.query_params []
    headers ← map_params r (codes "header_params") mapping.header_params []
    body ← build_body mapping r input
    ok (record { path_params = path; query_params = query; headers = headers; body = body })

-- The output keys whose expressions read the input, with the input's path.
unfoldable pub reverse_field_map : Map Text → Map Text → Map Text
reverse_field_map [] done = done
reverse_field_map ((ui_field, expr) ∷ m) done =
    reverse_field_map m
      (if has_prefix expr (codes "input.") then insert ui_field (drop 6 expr) done else done)
