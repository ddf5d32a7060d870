-- ===== src/Registry/Tests.antt =====
-- The registry theorems at small inputs.
use thesa.Definition.{DomainDefinition}
use thesa.Prelude.{none, [], ◌∷◌, ◌≡◌}
use thesa.Prelude.Text.{codes}
use thesa.Registry.{replace, get_domain, get_page, get_form, get_command, get_search, get_lookup}
use thesa.Registry.Laws.{last_or, gather, getters-replace}
use thesa.Samples.{hash, orders}

getters-replace_example :
    (get_page (replace hash (orders ∷ [])) (codes "ship")
      ≡ last_or (λ p. p.id) (codes "ship") (gather (λ d. d.pages) (orders ∷ [])) none)
    × (get_form (replace hash (orders ∷ [])) (codes "ship")
        ≡ last_or (λ f. f.id) (codes "ship") (gather (λ d. d.forms) (orders ∷ [])) none)
    × (get_command (replace hash (orders ∷ [])) (codes "ship")
        ≡ last_or (λ c. c.id) (codes "ship") (gather (λ d. d.commands) (orders ∷ [])) none)
    × (get_search (replace hash (orders ∷ [])) (codes "ship")
        ≡ last_or (λ s. s.id) (codes "ship") (gather (λ d. d.searches) (orders ∷ [])) none)
    × (get_lookup (replace hash (orders ∷ [])) (codes "ship")
        ≡ last_or (λ l. l.id) (codes "ship") (gather (λ d. d.lookups) (orders ∷ [])) none)
    × (get_domain (replace hash (orders ∷ [])) (codes "ship")
        ≡ last_or (λ d. d.domain) (codes "ship") (orders ∷ []) none)
getters-replace_example = getters-replace hash (orders ∷ []) (codes "ship")

abbrev billing : DomainDefinition
billing = record orders { domain = codes "billing"; checksum = codes "c2" }
