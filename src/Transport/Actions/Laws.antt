-- ===== src/Transport/Actions/Laws.antt =====
-- Which actions can be sent.
use thesa.Prelude.{
  false, Option, none, some, List, [], ◌∷◌, ◌≡◌, ◌↔◌, refl, arith, inl, inr, All, Bool-cases,
}
use thesa.Prelude.Text.{Text, text_eq}
use thesa.Definition.{DomainDefinition, PageDefinition, ActionDefinition}
use thesa.Registry.{Snapshot, all_domains}
use thesa.Transport.Actions.{
  find_action, either, find_on_pages, find_in_domains, find_action_in_registry,
}

either-none : (a b : Option ActionDefinition) → (either a b ≡ none) ↔ ((a ≡ none) × (b ≡ none))
either-none none b = (λ h. (refl, h), λ h. h.1)
either-none (some a) b = (λ h. absurd (cc), λ h. h.0)

abbrev pub IsOther : Text → ActionDefinition → Type 0
IsOther action_id a = text_eq a.id action_id ≡ false

find_action-none :
    (action_id : Text) (actions : List ActionDefinition)
    → (find_action action_id actions ≡ none) ↔ All (IsOther action_id) actions
find_action-none action_id [] = (λ h. tt, λ h. refl)
find_action-none action_id (a ∷ actions) =
    let rest = find_action-none action_id actions in
    elim (Bool-cases (text_eq a.id action_id)) [
      | inl same ↦ (λ h. absurd (ground (arith, same, h)), λ h. absurd (ground (arith, same, h.0)))
      | inr other ↦ (λ h. (other, rest.0 (ground (arith, other, h))), λ h. rw other (rest.1 h.1))
    ]

find_on_pages-none :
    (action_id : Text) (pages : List PageDefinition)
    → (find_on_pages action_id pages ≡ none)
      ↔ All (λ (p : PageDefinition). All (IsOther action_id) p.actions) pages
find_on_pages-none action_id [] = (λ h. tt, λ h. refl)
find_on_pages-none action_id (p ∷ pages) =
    let here = find_action-none action_id p.actions in
    let rest = find_on_pages-none action_id pages in
    let both = either-none (find_action action_id p.actions) (find_on_pages action_id pages) in
    (λ h. (here.0 (both.0 h).0, rest.0 (both.0 h).1), λ h. both.1 (here.1 h.0, rest.1 h.1))

abbrev pub LacksAction : Text → DomainDefinition → Type 0
LacksAction action_id d = All (λ (p : PageDefinition). All (IsOther action_id) p.actions) d.pages

find_in_domains-none :
    (action_id : Text) (domains : List DomainDefinition)
    → (find_in_domains action_id domains ≡ none) ↔ All (LacksAction action_id) domains
unfolding find_in_domains
find_in_domains-none action_id [] = (λ h. tt, λ h. refl)
find_in_domains-none action_id (d ∷ domains) =
    let here = find_on_pages-none action_id d.pages in
    let rest = find_in_domains-none action_id domains in
    let both = either-none (find_on_pages action_id d.pages) (find_in_domains action_id domains) in
    (λ h. (here.0 (both.0 h).0, rest.0 (both.0 h).1), λ h. both.1 (here.1 h.0, rest.1 h.1))

-- An action is not found exactly where no page of the registry has its id among the page's own
-- actions, whatever the row actions and the bulk actions of its table are.
pub find_action_in_registry-none :
    (registry : Snapshot) (action_id : Text)
    → (find_action_in_registry registry action_id ≡ none)
      ↔ All (LacksAction action_id) (all_domains registry)
find_action_in_registry-none registry action_id =
    find_in_domains-none action_id (all_domains registry)
