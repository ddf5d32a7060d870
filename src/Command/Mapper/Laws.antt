-- ===== src/Command/Mapper/Laws.antt =====
-- What a mapping puts into a backend call.
use mathlib.Core.Path.{subst}
use thesa.Prelude.{
  Option, none, some, [], ◌∷◌, ◌≡◌, ◌⊎◌, inl, inr, refl, sym, ap, ◌∙◌, All, Bool-cases,
}
use thesa.Prelude.Text.{Text, codes, text_eq, text_eq_iff}
use thesa.Prelude.Maps.{Map, lookup, insert, lookup-insert, DistinctKeys}
use thesa.Errors.{Error, ok, err, plain, Result-cases, >>=-eq-ok}
use thesa.Value.{Value}
use thesa.Definition.{InputMapping}
use thesa.Context.{Go, RequestContext, InvocationInput, CommandInput}
use thesa.Command.Expression.{ExpressionResolver, resolve}
use thesa.Command.Mapper.{at_key, map_params, build_body, resolver_of, map_input}

-- Every expression of the map has a value.
abbrev pub Resolvable : Go → ExpressionResolver → Map Text → Type 0
Resolvable go r = All (λ e. (v : Value) × (resolve go r e.1 ≡ ok v))

-- A key of the map carries the print of its expression's value, any other what was there before.
abbrev pub Carries : Go → ExpressionResolver → Map Text → Map Text → Map Text → Type 0
Carries go r m done out =
    (k : Text)
    → ((lookup k m ≡ none) × (lookup k out ≡ lookup k done))
      ⊎ ((expr : Text) × (v : Value) × (lookup k m ≡ some expr)
          × (resolve go r expr ≡ ok v)
          × (lookup k out ≡ some (go.sprint v)))

module _ (go : Go) (r : ExpressionResolver) (label : Text) where
  map_params_step :
      (param expr : Text) (m done : Map Text) (v : Value)
      → resolve go r expr ≡ ok v
      → map_params go r label ((param, expr) ∷ m) done
        ≡ map_params go r label m (insert param (go.sprint v) done)
  unfolding map_params
  map_params_step param expr m done v e = rw e

  map_params_fails :
      (param expr : Text) (m done : Map Text) (why : Error)
      → resolve go r expr ≡ err why
      → (e : Error) × (map_params go r label ((param, expr) ∷ m) done ≡ err e)
  unfolding map_params
  map_params_fails param expr m done why e = (plain (at_key go label param why), rw e)

  pub map_params_total :
      (m done : Map Text)
      → Resolvable go r m
      → (out : Map Text) × (map_params go r label m done ≡ ok out)
  map_params_total [] done h = (done, unfold map_params in refl)
  map_params_total ((param, expr) ∷ m) done ((v, e), h) =
      let (out, f) = map_params_total m (insert param (go.sprint v) done) h in
      (out, map_params_step param expr m done v e ∙ f)

  map_params-Resolvable :
      (m done out : Map Text) → map_params go r label m done ≡ ok out → Resolvable go r m
  map_params-Resolvable [] done out h = tt
  map_params-Resolvable ((param, expr) ∷ m) done out h = elim (Result-cases (resolve go r expr)) [
    | inl (v, e) ↦
        ((v, e), map_params-Resolvable m _ out (sym (map_params_step param expr m done v e) ∙ h))
    | inr (why, e) ↦
        let (f, g) = map_params_fails param expr m done why e in absurd (err-ne-ok (sym g ∙ h))
  ]
    where
      err-ne-ok : {f : Error} {o : Map Text} → ¬ (err f ≡ ok o)
      err-ne-ok p = cc

  map_params_nil : (done out : Map Text) → map_params go r label [] done ≡ ok out → done ≡ out
  unfolding map_params
  map_params_nil done out h = cc

  map_params-Carries :
      (m done out : Map Text)
      → DistinctKeys m
      → map_params go r label m done ≡ ok out
      → Carries go r m done out
  map_params-Carries [] done out d h k =
      inl
        (unfold lookup in refl, ap (λ (x : Map Text). lookup k x) (sym (map_params_nil done out h)))
  map_params-Carries ((param, expr) ∷ m) done out (fresh, d) h k =
      elim (Result-cases (resolve go r expr)) [
        | inl (v, e) ↦
            let rest =
              map_params-Carries m (insert param (go.sprint v) done) out d
                (sym (map_params_step param expr m done v e) ∙ h) k in
            let step = lookup-insert param k (go.sprint v) done in
            elim (Bool-cases (text_eq param k)) [
              | inl same ↦
                  let eq : param ≡ k = (text_eq_iff param k).0 same in
                  elim rest [
                    | inl (absent, kept) ↦
                        inr (expr, v, unfold lookup in rw same, e, kept ∙ (rw (step, same)))
                    | inr (expr', v', held, e', put) ↦
                        absurd (none-ne-some (sym fresh ∙ ap (λ (x : Text). lookup x m) eq ∙ held))
                  ]
              | inr other ↦ elim rest [
                | inl (absent, kept) ↦
                    inl (unfold lookup in rw other absent, kept ∙ (rw (step, other)))
                | inr (expr', v', held, e', put) ↦
                    inr (expr', v', unfold lookup in rw other held, e', put)
              ]
            ]
        | inr (why, e) ↦
            let (f, g) = map_params_fails param expr m done why e in absurd (err-ne-ok (sym g ∙ h))
      ]
    where
      err-ne-ok : {f : Error} {o : Map Text} → ¬ (err f ≡ ok o)
      err-ne-ok p = cc

      none-ne-some : {t : Text} → ¬ (none ≡ some t)
      none-ne-some p = cc

module _ (go : Go) where
  -- A mapping is all or nothing: the call is built only if each expression of the three parameter
  -- maps has a value, and then every parameter holds the print of its expression's value and there
  -- is no other.
  pub map_input_params :
      (mapping : InputMapping) (input : CommandInput) (rctx : Option RequestContext)
      (state : Option (Map Value)) (inv : InvocationInput)
      → DistinctKeys mapping.path_params
      → DistinctKeys mapping.query_params
      → DistinctKeys mapping.header_params
      → map_input go mapping input rctx state ≡ ok inv
      → Carries go (resolver_of input rctx state) mapping.path_params [] inv.path_params
        × Carries go (resolver_of input rctx state) mapping.query_params [] inv.query_params
        × Carries go (resolver_of input rctx state) mapping.header_params [] inv.headers
        × (build_body go mapping (resolver_of input rctx state) input ≡ ok inv.body)
  unfolding map_input
  map_input_params mapping input rctx state inv dp dq dh h =
      let r = resolver_of input rctx state in
      let (path, e, h₁) =
        >>=-eq-ok (map_params go r (codes "path_params") mapping.path_params []) _ h in
      let (query, f, h₂) =
        >>=-eq-ok (map_params go r (codes "query_params") mapping.query_params []) _ h₁ in
      let (headers, g, h₃) =
        >>=-eq-ok (map_params go r (codes "header_params") mapping.header_params []) _ h₂ in
      let (body, b, h₄) = >>=-eq-ok (build_body go mapping r input) _ h₃ in
      let built : InvocationInput = record {
        path_params = path;
        query_params = query;
        headers = headers;
        body = body;
      } in
      let same : built ≡ inv = cc in
      subst
        (λ (i : InvocationInput).
          Carries go r mapping.path_params [] i.path_params
          × Carries go r mapping.query_params [] i.query_params
          × Carries go r mapping.header_params [] i.headers
          × (build_body go mapping r input ≡ ok i.body))
        same
        (
          map_params-Carries go r _ mapping.path_params [] path dp e,
          map_params-Carries go r _ mapping.query_params [] query dq f,
          map_params-Carries go r _ mapping.header_params [] headers dh g,
          b,
        )
