-- ===== src/Capability/Resolver/Keys.antt =====
-- When two requests share a cache key.
use mathlib.Core.List.{append_assoc}
use thesa.Prelude.{◌++◌, ◌≡◌, ◌≢◌, ◌+◌, none, suc, length, length-append, ap, ◌∙◌, arith}
use thesa.Prelude.Int.{ℤ, ◌+ℤ◌, ◌<ℤ◌}
use thesa.Prelude.Maps.{lookup}
use thesa.Errors.{ok}
use thesa.Capability.{CapabilitySet}
use thesa.Prelude.Text.{Text, codes, Lacks, append_sep_injective}
use thesa.Context.{RequestContext, Exec}
use thesa.Capability.Resolver.{Resolver, cache_key, fresh, resolve}
use thesa.Capability.Resolver.Laws.{resolve_again}

-- Requests of subjects and tenants without a colon share a cache key only if subject, tenant and
-- partition are the same.
pub cache_key_injective :
    (a b : RequestContext)
    → Lacks b':' a.subject_id
    → Lacks b':' b.subject_id
    → Lacks b':' a.tenant_id
    → Lacks b':' b.tenant_id
    → cache_key a ≡ cache_key b
    → (a.subject_id ≡ b.subject_id)
      × (a.tenant_id ≡ b.tenant_id)
      × (a.partition_id ≡ b.partition_id)
unfolding cache_key
cache_key_injective a b sa sb ta tb e =
    let (s, rest) = append_sep_injective b':' a.subject_id b.subject_id _ _ sa sb e in
    let (t, p) = append_sep_injective b':' a.tenant_id b.tenant_id _ _ ta tb rest in (s, t, p)

abbrev pub victim : RequestContext → Text → Text → Text → RequestContext
victim rctx s x t = record rctx { subject_id = s ++ (codes ":" ++ x); tenant_id = t }

abbrev pub intruder : RequestContext → Text → Text → Text → RequestContext
intruder rctx s x t = record rctx { subject_id = s; tenant_id = x ++ (codes ":" ++ t) }

-- A colon may stand in the subject or in the tenant: then different users share a key.
cache_key_collision :
    (rctx : RequestContext) (s x t : Text)
    → cache_key (record rctx { subject_id = s; tenant_id = x ++ (codes ":" ++ t) })
      ≡ cache_key (record rctx { subject_id = s ++ (codes ":" ++ x); tenant_id = t })
unfolding cache_key
cache_key_collision rctx s x t = simp append_assoc

longer : (s x : Text) → s ≢ s ++ (codes ":" ++ x)
longer s x h =
    let n : length s ≡ length s + suc (length x) =
      ap (λ (l : Text). length l) h ∙ length-append s (codes ":" ++ x) in
    absurd (omega (arith, n))

-- Two requests of different subjects, whose contexts are otherwise alike but for the tenant: the one
-- of the subject `s:x` in the tenant `t` and the one of the subject `s` in the tenant `x:t`. Where the
-- evaluator has answered the first, the second is served that answer, and the evaluator is not asked
-- about it, as long as the answer lives.
pub resolve_collision :
    {W : Type 0} (now : W → ℤ) (evaluate : RequestContext → Exec W CapabilitySet) (r : Resolver)
    (rctx : RequestContext) (s x t : Text) (w w' v : W) (caps : CapabilitySet)
    → fresh (lookup (cache_key (victim rctx s x t)) r.cache) (now w) ≡ none
    → evaluate (victim rctx s x t) w ≡ (ok caps, w')
    → now v <ℤ now w' +ℤ r.ttl
    → ((intruder rctx s x t).subject_id ≢ (victim rctx s x t).subject_id)
      × (resolve now evaluate
            (resolve now evaluate r (victim rctx s x t) w).1
            (intruder rctx s x t)
            v
          ≡ (ok caps, (resolve now evaluate r (victim rctx s x t) w).1, v))
resolve_collision now evaluate r rctx s x t w w' v caps miss answer before = (
  longer s x,
  resolve_again now evaluate r (victim rctx s x t) (intruder rctx s x t) w w' v caps miss answer
      (cache_key_collision rctx s x t) before,
)
