-- ===== src/Capability/Tests.antt =====
-- The capability theorems at small inputs.
use thesa.Config.{ServiceConfig}
use thesa.Samples.Shop.{shop}
use thesa.Capability.Keto.Collect.{collect_capability_checks, seen_key}
use thesa.Capability.Keto.Collect.Laws.{Distinct, keys}
use thesa.Capability.Keto.Collect.Called.{Called, collect_capability_checks_lem}
use thesa.Definition.{DomainDefinition}
use thesa.Prelude.{ℕ, suc, Bool, true, some, [], ◌∷◌, ◌≡◌, ◌≢◌, arith, refl, ◌⊎◌, ◌↔◌, In}
use thesa.Prelude.Int.{ℤ, pos, ◌+ℤ◌}
use thesa.Prelude.Text.{Text, codes}
use thesa.Prelude.Maps.{Map, lookup, DistinctKeys}
use thesa.Errors.{ok, err, plain}
use thesa.Context.{RequestContext, Exec}
use thesa.Capability.{CapabilitySet, is_set, has}
use thesa.Capability.Grants.{Grants, has_iff}
use thesa.Capability.Static.{StaticPolicyEvaluator}
use thesa.Capability.Resolver.{Resolver, new_resolver, cache_key, fresh, resolve}
use thesa.Capability.Resolver.Laws.{Answered, IsSound, resolve-IsSound, resolve-Answered}
use thesa.Capability.Resolver.Keys.{victim, intruder, resolve_collision}
use thesa.Capability.Keto.{CapabilityCheck, Authorizer}
use thesa.Capability.Keto as Keto
use thesa.Capability.Keto.Checks.{IsComplete, Resolved, resolve_capabilities_cases}
use thesa.Samples.{caller, caps}

has_iff_example : (has caps (codes "orders:view") ≡ true) ↔ (
    (is_set (lookup (codes "orders:view") caps) ≡ true)
    ⊎ ((e : Text × Bool) × In e caps × Grants e.0 (codes "orders:view")))
has_iff_example = has_iff caps (codes "orders:view")

abbrev policy : StaticPolicyEvaluator
policy = record { path = []; policy = (codes "clerk", codes "orders:view" ∷ []) ∷ [] }

-- The world is the time; an answer takes one tick.
abbrev clock : ℕ → ℤ
clock w = pos w

abbrev evaluate : RequestContext → Exec ℕ CapabilitySet
evaluate rctx w = (ok caps, suc w)

abbrev resolver : Resolver
resolver = new_resolver (pos 10)

new_resolver-IsSound : IsSound clock evaluate resolver
unfolding lookup
new_resolver-IsSound = record { entries = λ key e found. cc }

resolve-IsSound_example : IsSound clock evaluate (resolve clock evaluate resolver caller 3).1
resolve-IsSound_example = resolve-IsSound clock evaluate resolver caller 3 new_resolver-IsSound

resolve-Answered_example : Answered clock evaluate (cache_key caller) caps
unfolding resolve fresh lookup
resolve-Answered_example =
    resolve-Answered clock evaluate resolver caller 3 caps new_resolver-IsSound refl

abbrev held_by : RequestContext
held_by = victim caller (codes "ann") (codes "x") (codes "shop")

abbrev served_to : RequestContext
served_to = intruder caller (codes "ann") (codes "x") (codes "shop")

resolve_collision_example :
    (served_to.subject_id ≢ held_by.subject_id)
    × (resolve clock evaluate (resolve clock evaluate resolver held_by 3).1 served_to 5
        ≡ (ok caps, (resolve clock evaluate resolver held_by 3).1, 5))
unfolding fresh lookup ◌+ℤ◌
resolve_collision_example =
    resolve_collision clock evaluate resolver caller (codes "ann") (codes "x") (codes "shop") 3 4 5
      caps refl refl (ground arith)

abbrev service : Authorizer ℕ
service = record { batch_check = λ qs w. (err (plain []), w); check = λ q w. (ok true, suc w) }

service-IsComplete : IsComplete (codes "profile") service caller
service-IsComplete = record { batch = λ qs w rs h. cc }

abbrev orders_view : CapabilityCheck
orders_view = record { capability = codes "orders:view"; namespace = codes "orders" }

resolve_capabilities_cases_example :
    (cs : CapabilitySet) × ((Keto.resolve_capabilities
        (codes "profile")
        service
        caller
        (orders_view ∷ [])
        0).0
      ≡ some cs)
    × Resolved (codes "profile") service caller (orders_view ∷ []) (err (plain [])) 0 cs
resolve_capabilities_cases_example =
    resolve_capabilities_cases (codes "profile") service caller service-IsComplete orders_view [] 0

abbrev shop_service : ServiceConfig
shop_service = record {
  base_url = codes "http://shop";
  timeout = pos 0;
  retry = record {
    max_attempts = pos 1;
    backoff_initial = pos 0;
    backoff_multiplier = 0;
    backoff_max = pos 0;
    idempotent_only = true;
  };
  authorization_namespace = codes "shop_ns";
}

abbrev shop_services : Map ServiceConfig
shop_services = (codes "shop", shop_service) ∷ []

shop_services-DistinctKeys : DistinctKeys shop_services
unfolding lookup
shop_services-DistinctKeys = (refl, tt)

collect_capability_checks_lem_example :
    Distinct (keys (collect_capability_checks (shop ∷ []) shop_services))
    × (In
          (seen_key (codes "orders:view") (codes "shop_ns"))
          (keys (collect_capability_checks (shop ∷ []) shop_services))
        ↔ ((d : DomainDefinition) × Called shop_services d
              (seen_key (codes "orders:view") (codes "shop_ns"))
            × In d (shop ∷ [])))
collect_capability_checks_lem_example =
    collect_capability_checks_lem (shop ∷ []) shop_services
      (seen_key (codes "orders:view") (codes "shop_ns")) shop_services-DistinctKeys
