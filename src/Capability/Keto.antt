-- ===== src/Capability/Keto.antt =====
-- internal/capability/keto_policy.go: each known capability is checked by the authorization service.
pub mod Names
pub mod Checks
pub mod Collect
use thesa.Prelude.{Bool, true, false, Option, none, some, List, [], ◌∷◌, ◌++◌, if◌then◌else◌, map}
use thesa.Prelude.Text.{Text, codes}
use thesa.Prelude.Strings.{replace_all}
use thesa.Prelude.Maps.{insert}
use thesa.Errors.{Result, ok, err}
use thesa.Context.{RequestContext, Exec}
use thesa.Capability.{CapabilitySet}

pub record CapabilityCheck : Type 0 where
  pub capability : Text
  pub namespace : Text

-- security.CheckRequest of the frame library, its parts flat.
pub record CheckRequest : Type 0 where
  pub object_namespace : Text
  pub object_id : Text
  pub permission : Text
  pub subject_namespace : Text
  pub subject_id : Text

-- security.Authorizer of the frame library: what a result says is whether it is allowed.
pub record Authorizer (W : Type 0) : Type 0 where
  pub batch_check : List CheckRequest → Exec W (List Bool)
  pub check : CheckRequest → Exec W Bool

unfoldable pub capability_to_permission : Text → Text
capability_to_permission capability = replace_all capability (codes ":") (codes "_")

unfoldable pub permission_to_capability : Text → Text
permission_to_capability permission = replace_all permission (codes "_") (codes ":")

-- `namespace_profile` is the library's constant security.NamespaceProfile.
module _ {W : Type 0} (namespace_profile : Text) (authorizer : Authorizer W) where
  pub request : RequestContext → CapabilityCheck → CheckRequest
  request rctx chk = record {
    object_namespace = chk.namespace;
    object_id = rctx.tenant_id ++ (codes "/" ++ rctx.partition_id);
    permission = capability_to_permission chk.capability;
    subject_namespace = namespace_profile;
    subject_id = rctx.subject_id;
  }

  -- `for i, result := range results`: `none` is the panic of an index beyond the checks.
  pub grant_results : List Bool → List CapabilityCheck → CapabilitySet → Option CapabilitySet
  grant_results [] checks caps = some caps
  grant_results (true ∷ rs) [] caps = none
  grant_results (false ∷ rs) [] caps = grant_results rs [] caps
  grant_results (r ∷ rs) (chk ∷ checks) caps =
      grant_results rs checks (if r then insert chk.capability true caps else caps)

  -- A check that fails is passed over.
  pub allows : Result Bool → Bool
  allows (ok allowed) = allowed
  allows (err e) = false

  pub fallback_individual_checks :
      RequestContext → List CapabilityCheck → CapabilitySet → W → CapabilitySet × W
  fallback_individual_checks rctx [] caps w = (caps, w)
  fallback_individual_checks rctx (chk ∷ checks) caps w =
      let (answer, w') = authorizer.check (request rctx chk) w in
      fallback_individual_checks rctx checks
        (if allows answer then insert chk.capability true caps else caps) w'

  pub from_batch :
      RequestContext → List CapabilityCheck → Result (List Bool) → W → Option CapabilitySet × W
  from_batch rctx checks (ok results) w = (grant_results results checks [], w)
  from_batch rctx checks (err e) w =
      let (caps, w') = fallback_individual_checks rctx checks [] w in (some caps, w')

  pub resolve_capabilities : RequestContext → List CapabilityCheck → W → Option CapabilitySet × W
  resolve_capabilities rctx [] w = (some [], w)
  resolve_capabilities rctx (chk ∷ checks) w =
      let (answer, w') = authorizer.batch_check (map (request rctx) (chk ∷ checks)) w in
      from_batch rctx (chk ∷ checks) answer w'
