-- ===== src/Metadata/Menu/Tests.antt =====
-- The menu of the shop.
use thesa.Prelude.{some, In, All, keep}
use thesa.Definition.{DomainDefinition}
use thesa.Capability.{allowed}
use thesa.Registry.{all_domains}
use thesa.Metadata.Menu.{NavigationNode, node_id, domain_order}
use thesa.Metadata.Menu.Order.{IsOrdered}
use thesa.Metadata.Menu.Insertion.{insertion}
use thesa.Metadata.Menu.Laws.{IsNodeOf, menu, get_menu_lem}
use thesa.Samples.{go, caller, caps, invokers}
use thesa.Samples.Shop.{shop_registry}

get_menu_lem_example :
    IsOrdered
      (λ n. domain_order (all_domains shop_registry) (node_id n))
      (menu go (some invokers) caller caps insertion shop_registry 0)
    × All
        (λ n. (d : DomainDefinition) × In d (all_domains shop_registry) × IsNodeOf caps d n)
        (menu go (some invokers) caller caps insertion shop_registry 0)
    × All
        (λ (d : DomainDefinition).
          (n : NavigationNode) × In n
            (menu go (some invokers) caller caps insertion shop_registry 0)
          × IsNodeOf caps d n)
        (keep
          (λ (d : DomainDefinition). allowed caps d.navigation.capabilities)
          (all_domains shop_registry))
get_menu_lem_example = get_menu_lem go (some invokers) caller caps insertion shop_registry 0
