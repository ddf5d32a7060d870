-- ===== src/Capability/Keto/Collect.antt =====
-- internal/capability/keto_policy.go: the checks that the definitions call for.
pub mod Asks
pub mod Laws
pub mod Called
use thesa.Prelude.{
  zero, Bool, true, Option, none, some, List, [], ◌∷◌, ◌++◌, is_empty, if◌then◌else◌,
}
use thesa.Prelude.Text.{Text, codes}
use thesa.Prelude.Maps.{Map, lookup, insert}
use thesa.Definition.{
  DomainDefinition, NavigationChildDefinition, PageDefinition, TableDefinition, FormDefinition,
  SectionDefinition, ActionDefinition, CommandDefinition, SearchDefinition, DataSourceDefinition,
}
use thesa.Config.{ServiceConfig}
use thesa.Sets.{in_set}
use thesa.Capability.Keto.{CapabilityCheck}

-- The first service that is not empty.
abbrev pub first_service : {A : Type 0} → (A → Text) → List A → Text → Text
first_service service [] otherwise = otherwise
first_service service (x ∷ xs) otherwise =
    let rest = first_service service xs otherwise in
    if is_empty (service x) then rest else service x

abbrev page_service : Option TableDefinition → Text
page_service none = []
page_service (some t) = t.data_source.service_id

abbrev source_service : Option DataSourceDefinition → Text
source_service none = []
source_service (some ds) = ds.service_id

unfoldable pub find_domain_service : DomainDefinition → Text
find_domain_service d =
    first_service (λ (p : PageDefinition). page_service p.table) d.pages
      (first_service (λ (c : CommandDefinition). c.operation.service_id) d.commands
        (first_service (λ (s : SearchDefinition). s.operation.service_id) d.searches
          (first_service (λ (f : FormDefinition). source_service f.load_source) d.forms
            (d.domain ++ codes "-svc"))))

-- Services without a namespace are left out.
unfoldable pub namespaces : Map ServiceConfig → Map Text → Map Text
namespaces [] m = m
namespaces ((id, svc) ∷ services) m =
    namespaces services
      (if is_empty svc.authorization_namespace then m else insert id svc.authorization_namespace m)

abbrev pub seen_key : Text → Text → Text
seen_key cap namespace = cap ++ (zero ∷ namespace)

-- What the loops share: the keys seen and the checks so far.
pub record Collected : Type 0 where
  pub seen : Map Bool
  pub checks : List CapabilityCheck

-- The closure addCaps.
unfoldable pub add_caps : Text → List Text → Collected → Collected
add_caps namespace [] c = c
add_caps namespace (cap ∷ caps) c = add_caps namespace caps (
    if in_set c.seen (seen_key cap namespace) then c else record {
      seen = insert (seen_key cap namespace) true c.seen;
      checks = c.checks ++ record { capability = cap; namespace = namespace } ∷ [];
    })

abbrev pub concat_caps : {A : Type 0} → (A → List Text) → List A → List Text
concat_caps part [] = []
concat_caps part (x ∷ xs) = part x ++ concat_caps part xs

abbrev pub table_caps : Option TableDefinition → List Text
table_caps none = []
table_caps (some t) =
    concat_caps (λ (a : ActionDefinition). a.capabilities) t.row_actions
    ++ concat_caps (λ (a : ActionDefinition). a.capabilities) t.bulk_actions

abbrev pub section_caps : List SectionDefinition → List Text
section_caps secs = concat_caps (λ (s : SectionDefinition). s.capabilities) secs

abbrev pub page_caps : PageDefinition → List Text
page_caps p =
    p.capabilities
    ++ (section_caps p.sections
        ++ (concat_caps (λ (a : ActionDefinition). a.capabilities) p.actions ++ table_caps p.table))

-- The lists that addCaps is called with, one behind the other.
abbrev pub domain_caps : DomainDefinition → List Text
domain_caps d =
    d.navigation.capabilities
    ++ (concat_caps (λ (c : NavigationChildDefinition). c.capabilities) d.navigation.children
        ++ (concat_caps page_caps d.pages
            ++ (concat_caps (λ (f : FormDefinition). f.capabilities ++ section_caps f.sections)
                  d.forms
                ++ (concat_caps (λ (c : CommandDefinition). c.capabilities) d.commands
                    ++ concat_caps (λ (s : SearchDefinition). s.capabilities) d.searches))))

abbrev pub namespace_of : Map Text → DomainDefinition → Text
namespace_of by_service d = elim (lookup (find_domain_service d) by_service) [
  | none ↦ []
  | some ns ↦ ns
]

unfoldable pub collect_domains : Map Text → List DomainDefinition → Collected → Collected
unfolding add_caps
collect_domains by_service [] c = c
collect_domains by_service (d ∷ ds) c =
    let namespace = namespace_of by_service d in
    collect_domains by_service ds
      (if is_empty namespace then c else add_caps namespace (domain_caps d) c)

unfoldable pub collect_capability_checks :
    List DomainDefinition → Map ServiceConfig → List CapabilityCheck
unfolding collect_domains
collect_capability_checks domains services =
    (collect_domains (namespaces services []) domains (record { seen = []; checks = [] })).checks
