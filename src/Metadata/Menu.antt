-- ===== src/Metadata/Menu.antt =====
-- internal/metadata/menu.go: the navigation tree and its badges.
pub mod Order
pub mod Laws
pub mod Insertion
mod Tests
use thesa.Prelude.{true, false, Option, none, some, List, [], ◌∷◌, map, is_empty, if◌then◌else◌}
use thesa.Prelude.Int.{ℤ, pos, leb_ℤ, ltb_ℤ}
use thesa.Prelude.Text.{Text, codes, text_eq}
use thesa.Prelude.Maps.{lookup}
use thesa.Value.{Value, null, float, int, as_map}
use thesa.Errors.{Result, ok, err}
use thesa.Definition.{
  DomainDefinition, NavigationChildDefinition, BadgeDefinition, OperationBinding,
}
use thesa.Context.{Go, RequestContext, InvocationInput, InvocationResult, OperationInvoker}
use thesa.Capability.{CapabilitySet, allowed}
use thesa.Registry.{Snapshot, all_domains}
use thesa.Invoker.{invoke}
use thesa.Metadata.Menu.Order.{Sorting}

pub record BadgeDescriptor : Type 0 where
  pub count : ℤ
  pub style : Text

-- NavigationNode { ID, Label, Icon, Path, PageID, Children, Badge }
mutual
  pub data NavigationNode : Type 0 where
    node : (id label icon path page_id : Text) → Nodes → Option BadgeDescriptor → NavigationNode

  pub data Nodes : Type 0 where
    no_node : Nodes
    node_then : NavigationNode → Nodes → Nodes

abbrev pub of_nodes : List NavigationNode → Nodes
of_nodes [] = no_node
of_nodes (n ∷ ns) = node_then n (of_nodes ns)

abbrev pub node_id : NavigationNode → Text
node_id (node id label icon path page_id children badge) = id

pub record OrderedChild : Type 0 where
  pub order : ℤ
  pub node : NavigationNode

-- The order of the first domain with that name.
unfoldable pub domain_order : List DomainDefinition → Text → ℤ
domain_order [] domain_id = pos 0
domain_order (d ∷ ds) domain_id =
    let rest = domain_order ds domain_id in
    if text_eq d.domain domain_id then d.navigation.order else rest

abbrev pub empty_input : InvocationInput
empty_input = record { path_params = []; query_params = []; headers = []; body = null }

abbrev pub badge_binding : Text → Text → OperationBinding
badge_binding domain operation_id = record {
  type = codes "openapi";
  operation_id = operation_id;
  service_id = domain;
  handler = [];
}

module _ (go : Go) where
  -- int64 values are not among those that JSON gives.
  abbrev pub count_of : Value → ℤ
  count_of (float f) = go.int_of_float f
  count_of (int z) = z
  count_of _ = pos 0

  abbrev pub count_at : Option Value → ℤ
  count_at none = pos 0
  count_at (some v) = count_of v

  unfoldable pub extract_badge_count : Value → Text → ℤ
  extract_badge_count body field =
      if is_empty field
      then pos 0
      else elim (as_map body) [ none ↦ pos 0 | some m ↦ count_at (lookup field m) ]

  -- A failed call and a count that is not positive give no badge.
  abbrev pub badge_result : BadgeDefinition → Result InvocationResult → Option BadgeDescriptor
  badge_result badge (err e) = none
  badge_result badge (ok result) =
      let count = extract_badge_count result.body badge.field in
      if leb_ℤ count (pos 0) then none else some (record { count = count; style = badge.style })

  module _ {W : Type 0} (invokers : Option (List (OperationInvoker W)))
      (rctx : RequestContext) where
    abbrev call_badge :
        Option (List (OperationInvoker W)) → Text → BadgeDefinition → W → Option BadgeDescriptor × W
    call_badge none domain badge w = (none, w)
    call_badge (some invs) domain badge w =
        let (r, w') = invoke go invs rctx (badge_binding domain badge.operation_id) empty_input w in
        (badge_result badge r, w')

    -- resolveBadge, called for a badge with an operation.
    unfoldable pub resolve_badge : Text → Option BadgeDefinition → W → Option BadgeDescriptor × W
    resolve_badge domain none w = (none, w)
    resolve_badge domain (some badge) w =
        if is_empty badge.operation_id then (none, w) else call_badge invokers domain badge w

    abbrev pub child_node : NavigationChildDefinition → Option BadgeDescriptor → OrderedChild
    child_node child badge = record {
      order = child.order;
      node = node child.page_id child.label child.icon child.route child.page_id no_node badge;
    }

    module _ (caps : CapabilitySet) where
      -- The loop over the children: one call for a badge after the other.
      unfoldable pub resolve_children :
          Text → List NavigationChildDefinition → W → List OrderedChild × W
      unfolding resolve_badge
      resolve_children domain [] w = ([], w)
      resolve_children domain (child ∷ children) w = elim (allowed caps child.capabilities) [
        | false ↦ resolve_children domain children w
        | true ↦
            let (badge, w₁) = resolve_badge domain child.badge w in
            let (rest, w₂) = resolve_children domain children w₁ in
            (child_node child badge ∷ rest, w₂)
      ]

      module _ (sorting : Sorting) where
        abbrev pub sort_children : List OrderedChild → List OrderedChild
        sort_children cs = sorting.sort_slice (λ a b. ltb_ℤ a.order b.order) cs

        abbrev pub domain_node : DomainDefinition → List OrderedChild → NavigationNode
        domain_node d cs =
            node d.domain d.navigation.label d.navigation.icon [] []
              (of_nodes (map (λ c. c.node) (sort_children cs))) none

        unfoldable pub resolve_domains : List DomainDefinition → W → List NavigationNode × W
        unfolding resolve_children
        resolve_domains [] w = ([], w)
        resolve_domains (d ∷ ds) w = elim (allowed caps d.navigation.capabilities) [
          | false ↦ resolve_domains ds w
          | true ↦
              let (children, w₁) = resolve_children d.domain d.navigation.children w in
              let (rest, w₂) = resolve_domains ds w₁ in (domain_node d children ∷ rest, w₂)
        ]

        -- The items of the NavigationTree; there is no error.
        unfoldable pub get_menu : Snapshot → W → List NavigationNode × W
        get_menu registry w =
            let domains = all_domains registry in
            let (nodes, w') = resolve_domains domains w in
            (
              sorting.sort_slice
                  (λ a b.
                    ltb_ℤ (domain_order domains (node_id a)) (domain_order domains (node_id b)))
                  nodes,
              w',
            )
