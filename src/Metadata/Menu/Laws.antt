-- ===== src/Metadata/Menu/Laws.antt =====
-- What the navigation tree holds, and in which order.
use mathlib.Core.Path.{subst}
use mathlib.Core.List.{Permᴰ}
use mathlib.Core.List.Permᴰ
use thesa.Prelude.{
  true, false, Option, none, List, [], ◌∷◌, ◌≡◌, refl, sym, inl, inr, In, All, All-of_In, In-keep,
  map, keep, Bool-cases,
}
use thesa.Prelude.Int.{ℤ, ltb_ℤ}
use thesa.Prelude.Text.{Text}
use thesa.Definition.{DomainDefinition, NavigationChildDefinition}
use thesa.Context.{Go, RequestContext, OperationInvoker}
use thesa.Capability.{CapabilitySet, allowed}
use thesa.Registry.{Snapshot, all_domains}
use thesa.Metadata.Menu.{
  NavigationNode, node, OrderedChild, of_nodes, node_id, domain_order, resolve_badge,
  resolve_children, sort_children, domain_node, resolve_domains, get_menu,
}
use thesa.Metadata.Menu.Order.{IsOrdered, Sorting, In-perm, map-perm}

abbrev pub child_key : OrderedChild → ℤ × Text
child_key c = (c.order, node_id c.node)

abbrev pub declared_key : NavigationChildDefinition → ℤ × Text
declared_key c = (c.order, c.page_id)

abbrev pub Declared : Type 0
Declared = NavigationChildDefinition

-- The node of a domain: its children are those that the caller may see, by rising order.
pub record IsNodeOf (caps : CapabilitySet) (d : DomainDefinition) (n : NavigationNode)
    : Type 0 where
  pub may : allowed caps d.navigation.capabilities ≡ true
  pub children : List OrderedChild
  pub shape :
      n
      ≡ node d.domain d.navigation.label d.navigation.icon [] []
          (of_nodes (map (λ (c : OrderedChild). c.node) children))
          none
  pub ordered : IsOrdered (λ (c : OrderedChild). c.order) children
  pub shown : Permᴰ (map child_key children) (
      map declared_key (keep (λ (c : Declared). allowed caps c.capabilities) d.navigation.children))

module _ (go : Go) {W : Type 0} (invokers : Option (List (OperationInvoker W)))
    (rctx : RequestContext) (caps : CapabilitySet) where
  resolve_children-keys :
      (domain : Text) (children : List NavigationChildDefinition) (w : W)
      → map child_key (resolve_children go invokers rctx caps domain children w).0
        ≡ map declared_key (keep (λ (c : Declared). allowed caps c.capabilities) children)
  unfolding resolve_children
  resolve_children-keys domain [] w = refl
  resolve_children-keys domain (child ∷ children) w =
      elim (Bool-cases (allowed caps child.capabilities)) [
        | inl may ↦
            rw (may, resolve_children)
              (λ i.
                (child.order, child.page_id)
                ∷ resolve_children-keys domain children
                    (resolve_badge go invokers rctx domain child.badge w).1 i)
        | inr may_not ↦ rw (may_not, resolve_children) (resolve_children-keys domain children w)
      ]

  module _ (sorting : Sorting) where
    domain_node-IsNodeOf :
        (d : DomainDefinition) (w : W)
        → allowed caps d.navigation.capabilities ≡ true
        → IsNodeOf caps d (
            domain_node go invokers rctx caps sorting d
              (resolve_children go invokers rctx caps d.domain d.navigation.children w).0)
    domain_node-IsNodeOf d w may =
        let cs = (resolve_children go invokers rctx caps d.domain d.navigation.children w).0 in
        record {
          may = may;
          children = sort_children go invokers rctx caps sorting cs;
          shape = refl;
          ordered = sorting.sort_slice-IsOrdered (λ c. c.order) cs;
          shown =
              subst
                (λ (l : List (ℤ × Text)).
                  Permᴰ (map child_key (sort_children go invokers rctx caps sorting cs)) l)
                (resolve_children-keys d.domain d.navigation.children w)
                (map-perm child_key (sorting.sort_slice-perm _ cs));
        }

    resolve_domains_may :
        (d : DomainDefinition) (ds : List DomainDefinition) (w : W)
        → allowed caps d.navigation.capabilities ≡ true
        → (w' : W) × ((resolve_domains go invokers rctx caps sorting (d ∷ ds) w).0
            ≡ domain_node go invokers rctx caps sorting d
                (resolve_children go invokers rctx caps d.domain d.navigation.children w).0
              ∷ (resolve_domains go invokers rctx caps sorting ds w').0)
    unfolding resolve_domains
    resolve_domains_may d ds w may = (
      (resolve_children go invokers rctx caps d.domain d.navigation.children w).1,
      rw (may, resolve_domains) refl,
    )

    resolve_domains_may_not :
        (d : DomainDefinition) (ds : List DomainDefinition) (w : W)
        → allowed caps d.navigation.capabilities ≡ false
        → resolve_domains go invokers rctx caps sorting (d ∷ ds) w
          ≡ resolve_domains go invokers rctx caps sorting ds w
    unfolding resolve_domains
    resolve_domains_may_not d ds w may_not = rw (may_not, resolve_domains) refl

    nothing :
        (n : NavigationNode) (w : W)
        → In n (resolve_domains go invokers rctx caps sorting [] w).0
        → ⊥
    unfolding resolve_domains
    nothing n w h = h

    -- Each node is that of a domain which the caller may see.
    node-IsNodeOf :
        (n : NavigationNode) (ds : List DomainDefinition) (w : W)
        → In n (resolve_domains go invokers rctx caps sorting ds w).0
        → (d : DomainDefinition) × In d ds × IsNodeOf caps d n
    node-IsNodeOf n [] w h = absurd (nothing n w h)
    node-IsNodeOf n (d ∷ ds) w h = elim (Bool-cases (allowed caps d.navigation.capabilities)) [
      | inl may ↦
          let (w', e) = resolve_domains_may d ds w may in
          elim (subst (λ (l : List NavigationNode). In n l) e h) [
            | inl same ↦ (
              d,
              inl refl,
              subst (λ (x : NavigationNode). IsNodeOf caps d x) (sym same)
                  (domain_node-IsNodeOf d w may),
            )
            | inr later ↦ let (c, i, is) = node-IsNodeOf n ds w' later in (c, inr i, is)
          ]
      | inr may_not ↦
          let (c, i, is) = node-IsNodeOf n ds w (
            subst (λ (l : List NavigationNode × W). In n l.0)
              (resolve_domains_may_not d ds w may_not) h) in
          (c, inr i, is)
    ]

    -- Each domain that the caller may see has a node.
    domain-has_node :
        (d : DomainDefinition) (ds : List DomainDefinition) (w : W)
        → In d ds
        → allowed caps d.navigation.capabilities ≡ true
        → (n : NavigationNode) × In n (resolve_domains go invokers rctx caps sorting ds w).0
          × IsNodeOf caps d n
    domain-has_node d [] w h may = absurd h
    domain-has_node d (c ∷ ds) w (inl same) may =
        let may' : allowed caps c.navigation.capabilities ≡ true =
          subst (λ (x : DomainDefinition). allowed caps x.navigation.capabilities ≡ true) same
            may in
        let (w', e) = resolve_domains_may c ds w may' in
        let n =
          domain_node go invokers rctx caps sorting c
            (resolve_children go invokers rctx caps c.domain c.navigation.children w).0 in
        (
          n,
          subst (λ (l : List NavigationNode). In n l) (sym e) (inl refl),
          subst (λ (x : DomainDefinition). IsNodeOf caps x n) (sym same)
              (domain_node-IsNodeOf c w may'),
        )
    domain-has_node d (c ∷ ds) w (inr later) may =
        elim (Bool-cases (allowed caps c.navigation.capabilities)) [
          | inl seen ↦
              let (w', e) = resolve_domains_may c ds w seen in
              let (n, i, is) = domain-has_node d ds w' later may in
              (n, subst (λ (l : List NavigationNode). In n l) (sym e) (inr i), is)
          | inr unseen ↦
              let (n, i, is) = domain-has_node d ds w later may in
              (
                n,
                subst (λ (l : List NavigationNode × W). In n l.0)
                    (sym (resolve_domains_may_not c ds w unseen)) i,
                is,
              )
        ]

    abbrev pub menu : Snapshot → W → List NavigationNode
    menu registry w = (get_menu go invokers rctx caps sorting registry w).0

    -- The navigation tree has, for each domain whose navigation capabilities the caller all holds, a
    -- node with the domain's children that the caller may see, by rising order, and no node of
    -- another domain; the nodes stand by rising order of their domains. What the badges' calls
    -- return changes none of that.
    pub get_menu_lem :
        (registry : Snapshot) (w : W)
        → IsOrdered (λ n. domain_order (all_domains registry) (node_id n)) (menu registry w)
          × All
              (λ n. (d : DomainDefinition) × In d (all_domains registry) × IsNodeOf caps d n)
              (menu registry w)
          × All
              (λ (d : DomainDefinition).
                (n : NavigationNode) × In n (menu registry w) × IsNodeOf caps d n)
              (keep
                (λ (d : DomainDefinition). allowed caps d.navigation.capabilities)
                (all_domains registry))
    unfolding get_menu
    get_menu_lem registry w =
        let domains = all_domains registry in
        let key : NavigationNode → ℤ = λ n. domain_order domains (node_id n) in
        let nodes = (resolve_domains go invokers rctx caps sorting domains w).0 in
        let perm = sorting.sort_slice-perm (λ a b. ltb_ℤ (key a) (key b)) nodes in
        (
          sorting.sort_slice-IsOrdered key nodes,
          All-of_In _ (menu registry w) (λ n i. node-IsNodeOf n domains w (In-perm n perm i)),
          All-of_In _
              (keep (λ (d : DomainDefinition). allowed caps d.navigation.capabilities) domains)
              (λ d i.
                let (here, may) = In-keep _ d domains i in
                let (n, j, is) = domain-has_node d domains w here may in
                (n, In-perm n (Permᴰ.symm perm) j, is)),
        )
