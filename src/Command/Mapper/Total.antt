-- ===== src/Command/Mapper/Total.antt =====
-- When a mapping gives a call.
use thesa.Prelude.{Option, [], ◌∷◌, ◌≡◌, ◌⊎◌, inl, inr, refl}
use thesa.Prelude.Text.{Text, codes, text_eq}
use thesa.Prelude.Maps.{Map, insert}
use thesa.Errors.{ok}
use thesa.Value.{Value, obj, of_map, of_nillable}
use thesa.Definition.{InputMapping}
use thesa.Context.{Go, RequestContext, InvocationInput, CommandInput}
use thesa.Command.Expression.{ExpressionResolver}
use thesa.Command.Mapper.{map_values, build_body, resolver_of, map_input}
use thesa.Command.Mapper.Laws.{Resolvable, map_params_total}

module _ (go : Go) where
  map_values_total :
      (r : ExpressionResolver) (label : Text) (m : Map Text) (done : Map Value)
      → Resolvable go r m
      → (out : Map Value) × (map_values go r label m done ≡ ok out)
  unfolding map_values
  map_values_total r label [] done h = (done, refl)
  map_values_total r label ((key, expr) ∷ m) done ((v, e), h) =
      let (out, f) = map_values_total r label m (insert key v done) h in (out, rw e f)

  -- What a body strategy needs: nothing to pass the input through, and the values of its map's
  -- expressions for a template or a projection.
  abbrev pub BodyReady : InputMapping → ExpressionResolver → Type 0
  BodyReady mapping r =
      (go.to_lower mapping.body_mapping ≡ codes "passthrough")
      ⊎ (go.to_lower mapping.body_mapping ≡ [])
      ⊎ ((go.to_lower mapping.body_mapping ≡ codes "template")
          × Resolvable go r mapping.body_template)
      ⊎ ((go.to_lower mapping.body_mapping ≡ codes "projection")
          × Resolvable go r mapping.field_projection)

  build_body_total :
      (mapping : InputMapping) (r : ExpressionResolver) (input : CommandInput)
      → BodyReady mapping r
      → (body : Value) × (build_body go mapping r input ≡ ok body)
  unfolding build_body text_eq
  build_body_total mapping r input (inl e) = (of_nillable input.input, rw e)
  build_body_total mapping r input (inr (inl e)) = (of_nillable input.input, rw e)
  build_body_total mapping r input (inr (inr (inl (e, h)))) =
      let (out, f) = map_values_total r (codes "body_template") mapping.body_template [] h in
      (obj (of_map out), rw (e, f))
  build_body_total mapping r input (inr (inr (inr (e, h)))) =
      let (out, f) = map_values_total r (codes "field_projection") mapping.field_projection [] h in
      (obj (of_map out), rw (e, f))

  -- If each expression has a value and the body strategy is a known one, whatever its letters'
  -- case, the call is built.
  pub map_input_total :
      (mapping : InputMapping) (input : CommandInput) (rctx : Option RequestContext)
      (state : Option (Map Value))
      → Resolvable go (resolver_of input rctx state) mapping.path_params
      → Resolvable go (resolver_of input rctx state) mapping.query_params
      → Resolvable go (resolver_of input rctx state) mapping.header_params
      → BodyReady mapping (resolver_of input rctx state)
      → (inv : InvocationInput) × (map_input go mapping input rctx state ≡ ok inv)
  unfolding map_input
  map_input_total mapping input rctx state hp hq hh hb =
      let r = resolver_of input rctx state in
      let (path, e) = map_params_total go r (codes "path_params") mapping.path_params [] hp in
      let (query, f) = map_params_total go r (codes "query_params") mapping.query_params [] hq in
      let (headers, g) =
        map_params_total go r (codes "header_params") mapping.header_params [] hh in
      let (body, b) = build_body_total mapping r input hb in
      (
        record { path_params = path; query_params = query; headers = headers; body = body },
        rw (e, f, g, b),
      )
