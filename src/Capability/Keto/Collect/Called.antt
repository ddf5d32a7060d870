-- ===== src/Capability/Keto/Collect/Called.antt =====
-- The checks that are collected against what the definitions and the services say.
use thesa.Prelude.{
  Option, none, some, List, [], ◌∷◌, ◌≡◌, ◌≢◌, ◌↔◌, inl, inr, refl, sym, ap, ◌∙◌, In, is_empty,
  is_empty_nil, Bool-cases, Option-cases, if◌then◌else◌,
}
use thesa.Prelude.Text.{Text, text_eq, text_eq_iff}
use thesa.Prelude.Maps.{Map, lookup, insert, lookup-cons, lookup-insert, DistinctKeys}
use thesa.Definition.{DomainDefinition}
use thesa.Config.{ServiceConfig}
use thesa.Capability.Keto.Collect.{
  seen_key, namespace_of, namespaces, find_domain_service, domain_caps, collect_capability_checks,
}
use thesa.Capability.Keto.Collect.Asks.{DomainAsks, domain_caps_iff}
use thesa.Capability.Keto.Collect.Laws.{
  Distinct, keys, keys_of, CallsFor, AnyCallsFor, collected_lem,
}

-- The domain's service is configured with a namespace, and the definition names a capability in one
-- of its places; the key is that of the capability in the namespace.
abbrev pub Called : Map ServiceConfig → DomainDefinition → Text → Type 0
Called services d k =
    (svc : ServiceConfig) × (cap : Text) × (lookup (find_domain_service d) services ≡ some svc)
    × (svc.authorization_namespace ≢ [])
    × (k ≡ seen_key cap svc.authorization_namespace)
    × DomainAsks d cap

named : Option ServiceConfig → Option Text → Option Text
named none o = o
named (some svc) o =
    if is_empty svc.authorization_namespace then o else some svc.authorization_namespace

namespaces-lookup :
    (k : Text) (services : Map ServiceConfig) (m : Map Text)
    → DistinctKeys services
    → lookup k (namespaces services m) ≡ named (lookup k services) (lookup k m)
unfolding namespaces named
namespaces-lookup k [] m d = unfold lookup in refl
namespaces-lookup k ((j, svc) ∷ services) m d =
    let ns = svc.authorization_namespace in
    let rest = namespaces-lookup k services (if is_empty ns then m else insert j ns m) d.1 in
    elim (Bool-cases (text_eq j k)) [
      | inl same ↦
          let gone : lookup k services ≡ none =
            ap (λ (t : Text). lookup t services) (sym ((text_eq_iff j k).0 same)) ∙ d.0 in
          elim (Bool-cases (is_empty ns)) [
            | inl empty ↦ rest ∙ rw (gone, lookup-cons k j svc services, same, empty) refl
            | inr full ↦
                rest
                ∙ rw (gone, lookup-cons k j svc services, same, full, lookup-insert j k ns m, same)
                    refl
          ]
      | inr other ↦ elim (Bool-cases (is_empty ns)) [
        | inl empty ↦ rest ∙ rw (lookup-cons k j svc services, other, empty) refl
        | inr full ↦
            rest
            ∙ rw (lookup-cons k j svc services, other, full, lookup-insert j k ns m, other) refl
      ]
    ]

service_namespace : Option ServiceConfig → Text
service_namespace none = []
service_namespace (some svc) = svc.authorization_namespace

or_nothing : Option Text → Text
or_nothing none = []
or_nothing (some ns) = ns

named_lem : (o : Option ServiceConfig) → or_nothing (named o none) ≡ service_namespace o
unfolding named service_namespace or_nothing
named_lem none = refl
named_lem (some svc) = elim (Bool-cases (is_empty svc.authorization_namespace)) [
  | inl empty ↦ rw empty (sym (is_empty_nil svc.authorization_namespace empty))
  | inr full ↦ rw full refl
]

or_nothing_lem : (o : Option Text) → elim o [ none ↦ [] | some ns ↦ ns ] ≡ or_nothing o
unfolding or_nothing
or_nothing_lem none = refl
or_nothing_lem (some ns) = refl

namespace_lem :
    (services : Map ServiceConfig) (d : DomainDefinition)
    → DistinctKeys services
    → namespace_of (namespaces services []) d
      ≡ service_namespace (lookup (find_domain_service d) services)
namespace_lem services d distinct =
    or_nothing_lem (lookup (find_domain_service d) (namespaces services []))
    ∙ (ap or_nothing (namespaces-lookup (find_domain_service d) services [] distinct)
        ∙ (unfold lookup in named_lem (lookup (find_domain_service d) services)))

In-keys_of :
    (k ns : Text) (caps : List Text)
    → In k (keys_of ns caps) ↔ ((cap : Text) × (k ≡ seen_key cap ns) × In cap caps)
In-keys_of k ns [] = (λ h. absurd h, λ h. absurd h.2)
In-keys_of k ns (c ∷ caps) =
    let rest = In-keys_of k ns caps in
    (
      λ h. elim h [
        | inl e ↦ (c, e, inl refl)
        | inr i ↦ let (cap, e, j) = rest.0 i in (cap, e, inr j)
      ],
      λ h. elim h.2 [
        | inl e ↦ inl (h.1 ∙ ap (λ (x : Text). seen_key x ns) e)
        | inr j ↦ inr (rest.1 (h.0, h.1, j))
      ],
    )

CallsFor-Called :
    (services : Map ServiceConfig) (d : DomainDefinition) (k : Text)
    → DistinctKeys services
    → CallsFor (namespaces services []) d k ↔ Called services d k
unfolding service_namespace
CallsFor-Called services d k distinct =
    let same = namespace_lem services d distinct in
    (
      λ h. elim (Option-cases (lookup (find_domain_service d) services)) [
        | inl missing ↦ absurd (h.0 (same ∙ rw missing refl))
        | inr (svc, found) ↦
            let ns : namespace_of (namespaces services []) d ≡ svc.authorization_namespace =
              same ∙ rw found refl in
            let (cap, e, i) = (In-keys_of k _ (domain_caps d)).0 h.1 in
            (svc, cap, found, rw ns at h.0, e ∙ ap (seen_key cap) ns, (domain_caps_iff d cap).0 i)
      ],
      λ (svc, cap, found, full, e, asked).
          let ns : namespace_of (namespaces services []) d ≡ svc.authorization_namespace =
            same ∙ rw found refl in
          (
            rw ns full,
            (In-keys_of k _ (domain_caps d)).1
                (cap, e ∙ ap (seen_key cap) (sym ns), (domain_caps_iff d cap).1 asked),
          ),
    )

AnyCallsFor-Called :
    (services : Map ServiceConfig) (domains : List DomainDefinition) (k : Text)
    → DistinctKeys services
    → AnyCallsFor (namespaces services []) domains k
      ↔ ((d : DomainDefinition) × Called services d k × In d domains)
AnyCallsFor-Called services [] k distinct = (λ h. absurd h, λ h. absurd h.2)
AnyCallsFor-Called services (d ∷ ds) k distinct =
    let here = CallsFor-Called services d k distinct in
    let rest = AnyCallsFor-Called services ds k distinct in
    (
      λ h. elim h [
        | inl c ↦ (d, here.0 c, inl refl)
        | inr later ↦ let (x, called, i) = rest.0 later in (x, called, inr i)
      ],
      λ h. elim h.2 [ inl e ↦ inl (here.1 (rw (← e) h.1)) | inr i ↦ inr (rest.1 (h.0, h.1, i)) ],
    )

-- If no service is listed twice, the checks that are collected have different keys, and their keys
-- are exactly those of the capabilities that a definition names, at its navigation or a child of it,
-- a page, its sections, its actions or the row and bulk actions of its table, a form or its sections,
-- a command or a search, in the namespace of the domain's service, where that is configured.
pub collect_capability_checks_lem :
    (domains : List DomainDefinition) (services : Map ServiceConfig) (k : Text)
    → DistinctKeys services
    → Distinct (keys (collect_capability_checks domains services))
      × (In k (keys (collect_capability_checks domains services))
          ↔ ((d : DomainDefinition) × Called services d k × In d domains))
collect_capability_checks_lem domains services k distinct =
    let (once, all) = collected_lem domains services k in
    let called = AnyCallsFor-Called services domains k distinct in
    (once, (λ h. called.0 (all.0 h), λ h. all.1 (called.1 h)))
