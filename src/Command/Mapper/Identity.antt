-- ===== src/Command/Mapper/Identity.antt =====
-- What of the request's context a mapping can carry to a backend.
use thesa.Prelude.{Option, some, [], ◌∷◌, ◌≡◌, inl, inr, refl}
use thesa.Prelude.Text.{Text, codes}
use thesa.Prelude.Maps.{Map, insert}
use thesa.Errors.{Result-cases}
use thesa.Value.{Value}
use thesa.Definition.{InputMapping}
use thesa.Context.{Go, RequestContext, CommandInput}
use thesa.Command.Expression.{ExpressionResolver, resolve}
use thesa.Command.Expression.Laws.{SameIdentity, in_context, resolve-same}
use thesa.Command.Mapper.{map_params, map_values, build_body, resolver_of, map_input}

module _ (go : Go) where
  map_params_same :
      (r : ExpressionResolver) (c d : RequestContext) (label : Text) (m done : Map Text)
      → SameIdentity c d
      → map_params go (in_context r c) label m done ≡ map_params go (in_context r d) label m done
  unfolding map_params
  map_params_same r c d label [] done same = refl
  map_params_same r c d label ((param, expr) ∷ m) done same =
      rw (resolve-same go r c d expr same) (elim (Result-cases (resolve go (in_context r d) expr)) [
        | inl (v, e) ↦ rw e (map_params_same r c d label m (insert param (go.sprint v) done) same)
        | inr (why, e) ↦ rw e
      ])

  map_values_same :
      (r : ExpressionResolver) (c d : RequestContext) (label : Text) (m : Map Text)
      (done : Map Value)
      → SameIdentity c d
      → map_values go (in_context r c) label m done ≡ map_values go (in_context r d) label m done
  unfolding map_values
  map_values_same r c d label [] done same = refl
  map_values_same r c d label ((key, expr) ∷ m) done same =
      rw (resolve-same go r c d expr same) (elim (Result-cases (resolve go (in_context r d) expr)) [
        | inl (v, e) ↦ rw e (map_values_same r c d label m (insert key v done) same)
        | inr (why, e) ↦ rw e
      ])

  -- What a mapping sends to a backend depends on nothing of the request's context but subject,
  -- tenant, partition and email: two requests that differ in their token, roles, claims or session
  -- alone are mapped to the same call, or to the same error.
  pub map_input_same :
      (mapping : InputMapping) (input : CommandInput) (c d : RequestContext)
      (state : Option (Map Value))
      → SameIdentity c d
      → map_input go mapping input (some c) state ≡ map_input go mapping input (some d) state
  unfolding map_input build_body
  map_input_same mapping input c d state same =
      let r = resolver_of input (some d) state in
      simp (
        map_params_same r c d (codes "path_params") mapping.path_params [] same,
        map_params_same r c d (codes "query_params") mapping.query_params [] same,
        map_params_same r c d (codes "header_params") mapping.header_params [] same,
        map_values_same r c d (codes "body_template") mapping.body_template [] same,
        map_values_same r c d (codes "field_projection") mapping.field_projection [] same,
      )
