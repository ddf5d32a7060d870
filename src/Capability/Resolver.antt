-- ===== src/Capability/Resolver.antt =====
-- internal/capability/resolver.go: the cache in front of the authorization service.
pub mod Laws
pub mod Keys
use thesa.Prelude.{Option, none, some, [], ◌++◌, if◌then◌else◌}
use thesa.Prelude.Int.{ℤ, ◌+ℤ◌, ltb_ℤ}
use thesa.Prelude.Text.{Text, codes, has_prefix}
use thesa.Prelude.Maps.{Map, lookup, insert, delete_if}
use thesa.Errors.{Result, ok, err}
use thesa.Context.{RequestContext, Exec}
use thesa.Capability.{CapabilitySet}

pub record CacheEntry : Type 0 where
  pub caps : CapabilitySet
  pub expires : ℤ

pub record Resolver : Type 0 where
  pub ttl : ℤ
  pub cache : Map CacheEntry

abbrev pub new_resolver : ℤ → Resolver
new_resolver ttl = record { ttl = ttl; cache = [] }

unfoldable pub cache_key : RequestContext → Text
cache_key rctx =
    rctx.subject_id ++ (codes ":" ++ (rctx.tenant_id ++ (codes ":" ++ rctx.partition_id)))

unfoldable pub fresh : Option CacheEntry → ℤ → Option CapabilitySet
fresh none t = none
fresh (some entry) t = if ltb_ℤ t entry.expires then some entry.caps else none

-- `now` reads the clock of the world, `evaluate` asks the policy evaluator.
module _ {W : Type 0} (now : W → ℤ) (evaluate : RequestContext → Exec W CapabilitySet) where
  -- What stands behind the cache's read lock: ask, and store an answer that is no error.
  abbrev pub store : Resolver → RequestContext → Result CapabilitySet → ℤ → Resolver
  store r rctx (err e) t = r
  store r rctx (ok caps) t = record r {
    cache = insert (cache_key rctx) (record { caps = caps; expires = t +ℤ r.ttl }) r.cache;
  }

  unfoldable pub resolve : Resolver → RequestContext → W → Result CapabilitySet × Resolver × W
  resolve r rctx w = elim (fresh (lookup (cache_key rctx) r.cache) (now w)) [
    | some caps ↦ (ok caps, r, w)
    | none ↦ let (answer, w') = evaluate rctx w in (answer, store r rctx answer (now w'), w')
  ]

abbrev pub user_prefix : Text → Text → Text
user_prefix subject_id tenant_id = subject_id ++ (codes ":" ++ (tenant_id ++ codes ":"))

-- The length test and the slice comparison are strings.HasPrefix.
unfoldable pub invalidate : Resolver → Text → Text → Resolver
invalidate r subject_id tenant_id = record r {
  cache = delete_if (λ key. has_prefix key (user_prefix subject_id tenant_id)) r.cache;
}
