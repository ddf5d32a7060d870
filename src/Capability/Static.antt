-- ===== src/Capability/Static.antt =====
-- internal/capability/static_policy.go: capabilities from a file that maps roles to capabilities.
use thesa.Prelude.{true, none, some, List, [], ◌∷◌, ◌≡◌, ◌⊎◌, ◌↔◌, inl, inr, refl, arith, In}
use mathlib.Core.Path.{subst}
use thesa.Prelude.Text.{Text, text_eq_iff}
use thesa.Prelude.Maps.{Map, lookup, insert, lookup-insert}
use thesa.Errors.{Result, ok, err}
use thesa.Context.{RequestContext}
use thesa.Capability.{CapabilitySet}

pub record StaticPolicyEvaluator : Type 0 where
  pub path : Text
  pub policy : Map (List Text)

-- The inner loop, `caps[cap] = true`.
grant_each : List Text → CapabilitySet → CapabilitySet
grant_each [] caps = caps
grant_each (c ∷ cs) caps = grant_each cs (insert c true caps)

-- A role that the file does not name has the nil list.
abbrev pub role_capabilities : Map (List Text) → Text → List Text
role_capabilities policy role = elim (lookup role policy) [ none ↦ [] | some cs ↦ cs ]

grant_roles : Map (List Text) → List Text → CapabilitySet → CapabilitySet
grant_roles policy [] caps = caps
grant_roles policy (role ∷ roles) caps =
    grant_roles policy roles (grant_each (role_capabilities policy role) caps)

unfoldable pub resolve_capabilities : StaticPolicyEvaluator → RequestContext → CapabilitySet
unfolding grant_each grant_roles
resolve_capabilities e rctx = grant_roles e.policy rctx.roles []

-- The file's bytes and their decoding come from outside: a failure of either keeps the old policy.
module _ (read : Text → Result Text) (decode : Text → Result (Map (List Text))) where
  pub sync : StaticPolicyEvaluator → Result (Unit {0}) × StaticPolicyEvaluator
  sync e = elim (read e.path) [
    | err why ↦ (err why, e)
    | ok bytes ↦ elim (decode bytes) [
      | err why ↦ (err why, e)
      | ok p ↦ (ok tt, record e { policy = p })
    ]
  ]

abbrev Held : CapabilitySet → Text → Type 0
Held caps c = lookup c caps ≡ some true

grant_each_iff :
    (cs : List Text) (caps : CapabilitySet) (c : Text)
    → Held (grant_each cs caps) c ↔ (In c cs ⊎ Held caps c)
unfolding grant_each
grant_each_iff [] caps c = (λ h. inr h, λ d. elim d [ inl i ↦ absurd i | inr h ↦ h ])
grant_each_iff (x ∷ cs) caps c =
    let step = lookup-insert x c true caps in
    let same = text_eq_iff x c in
    let rest = grant_each_iff cs (insert x true caps) c in
    (
      λ h. elim (rest.0 h) [ inl i ↦ inl (inr i) | inr k ↦ ground (arith, step, same) ],
      λ d. elim d [
        | inl (inl e) ↦ rest.1 (inr (ground (arith, step, same)))
        | inl (inr i) ↦ rest.1 (inl i)
        | inr h ↦ rest.1 (inr (ground (arith, step, same)))
      ],
    )

grant_roles_iff :
    (policy : Map (List Text)) (roles : List Text) (caps : CapabilitySet) (c : Text)
    → Held (grant_roles policy roles caps) c
      ↔ (((role : Text) × In role roles × In c (role_capabilities policy role)) ⊎ Held caps c)
unfolding grant_roles
grant_roles_iff policy [] caps c =
    (λ h. inr h, λ d. elim d [ inl (r, i, g) ↦ absurd i | inr h ↦ h ])
grant_roles_iff policy (role ∷ roles) caps c =
    let here = grant_each_iff (role_capabilities policy role) caps c in
    let rest = grant_roles_iff policy roles (grant_each (role_capabilities policy role) caps) c in
    (
      λ h. elim (rest.0 h) [
        | inl (r, i, g) ↦ inl (r, inr i, g)
        | inr k ↦ elim (here.0 k) [ inl g ↦ inl (role, inl refl, g) | inr old ↦ inr old ]
      ],
      λ d. elim d [
        | inl (r, inl e, g) ↦
            rest.1
              (inr (here.1 (inl (subst (λ (x : Text). In c (role_capabilities policy x)) e g))))
        | inl (r, inr i, g) ↦ rest.1 (inl (r, i, g))
        | inr h ↦ rest.1 (inr (here.1 (inr h)))
      ],
    )

-- The set of a request holds a capability exactly when one of its roles is given it by the file.
pub resolve_capabilities_iff :
    (e : StaticPolicyEvaluator) (rctx : RequestContext) (c : Text)
    → (lookup c (resolve_capabilities e rctx) ≡ some true)
      ↔ ((role : Text) × In role rctx.roles × In c (role_capabilities e.policy role))
unfolding resolve_capabilities lookup
resolve_capabilities_iff e rctx c =
    let all = grant_roles_iff e.policy rctx.roles [] c in
    (λ h. elim (all.0 h) [ inl g ↦ g | inr k ↦ cc ], λ g. all.1 (inl g))
