-- ===== src/Transport/Actions.antt =====
-- internal/transport/handler_action.go: the search for the action that a request names.
pub mod Laws
use thesa.Prelude.{Option, none, some, List, [], ◌∷◌, if◌then◌else◌}
use thesa.Prelude.Text.{Text, text_eq}
use thesa.Definition.{DomainDefinition, PageDefinition, ActionDefinition}
use thesa.Registry.{Snapshot, all_domains}

-- findActionInRegistry
abbrev pub find_action : Text → List ActionDefinition → Option ActionDefinition
find_action action_id [] = none
find_action action_id (a ∷ actions) =
    let rest = find_action action_id actions in if text_eq a.id action_id then some a else rest

abbrev pub either : Option ActionDefinition → Option ActionDefinition → Option ActionDefinition
either none second = second
either (some a) second = some a

abbrev pub find_on_pages : Text → List PageDefinition → Option ActionDefinition
find_on_pages action_id [] = none
find_on_pages action_id (p ∷ pages) =
    either (find_action action_id p.actions) (find_on_pages action_id pages)

unfoldable pub find_in_domains : Text → List DomainDefinition → Option ActionDefinition
find_in_domains action_id [] = none
find_in_domains action_id (d ∷ domains) =
    either (find_on_pages action_id d.pages) (find_in_domains action_id domains)

abbrev pub find_action_in_registry : Snapshot → Text → Option ActionDefinition
find_action_in_registry registry action_id = find_in_domains action_id (all_domains registry)
