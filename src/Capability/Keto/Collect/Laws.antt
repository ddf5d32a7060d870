-- ===== src/Capability/Keto/Collect/Laws.antt =====
-- Which checks the definitions call for: each once, and no others.
use mathlib.Core.Path.{subst}
use thesa.Prelude.{
  is_empty_iff, is_empty_nil, Bool, true, false, Option, some, List, [], ◌∷◌, ◌++◌, ◌≡◌, ◌≢◌, ◌⊎◌,
  ◌↔◌, refl, sym, ap, ◌∙◌, arith, inl, inr, In, In-append, In-append_left, In-append_right, map,
  is_empty, Bool-cases, if◌then◌else◌,
}
use thesa.Prelude.Text.{Text, text_eq, text_eq_iff}
use thesa.Prelude.Maps.{Map, lookup, insert, lookup-insert}
use thesa.Definition.{DomainDefinition}
use thesa.Config.{ServiceConfig}
use thesa.Capability.{is_set}
use thesa.Sets.{in_set}
use thesa.Capability.Keto.{CapabilityCheck}
use thesa.Capability.Keto.Collect.{
  seen_key, Collected, add_caps, domain_caps, namespace_of, namespaces, collect_domains,
  collect_capability_checks,
}

abbrev pub check_key : CapabilityCheck → Text
check_key chk = seen_key chk.capability chk.namespace

abbrev pub keys : List CapabilityCheck → List Text
keys checks = map check_key checks

abbrev pub Distinct : List Text → Type 0
Distinct [] = Unit
Distinct (k ∷ ks) = (In k ks → ⊥) × Distinct ks

Distinct-snoc : (k : Text) (ks : List Text) → Distinct ks → (In k ks → ⊥) → Distinct (ks ++ k ∷ [])
Distinct-snoc k [] d new = (λ h. h, tt)
Distinct-snoc k (j ∷ ks) d new = (
  λ h. elim (In-append j ks (k ∷ []) h) [
    | inl i ↦ d.0 i
    | inr (inl e) ↦ new (inl (sym e))
    | inr (inr i) ↦ i
  ],
  Distinct-snoc k ks d.1 (λ i. new (inr i)),
)

keys-append : (xs ys : List CapabilityCheck) → keys (xs ++ ys) ≡ keys xs ++ keys ys
keys-append [] ys = refl
keys-append (x ∷ xs) ys = λ i. check_key x ∷ keys-append xs ys i

-- The keys seen are those of the checks, and no check stands twice.
record IsSound (c : Collected) : Type 0 where
  seen : (k : Text) → (in_set c.seen k ≡ true) ↔ In k (keys c.checks)
  distinct : Distinct (keys c.checks)

-- One turn of the loop over the capabilities.
abbrev add_cap : Text → Text → Collected → Collected
add_cap namespace cap c = if in_set c.seen (seen_key cap namespace) then c else record {
  seen = insert (seen_key cap namespace) true c.seen;
  checks = c.checks ++ record { capability = cap; namespace = namespace } ∷ [];
}

if_set :
    (b : Bool) (o : Option Bool)
    → is_set (if b then some true else o) ≡ (if b then true else is_set o)
if_set true o = refl
if_set false o = refl

module _ (namespace cap : Text) (c : Collected) where
  abbrev key : Text
  key = seen_key cap namespace

  abbrev grown : List CapabilityCheck
  grown = c.checks ++ record { capability = cap; namespace = namespace } ∷ []

  In-grown : (k : Text) → In k (keys grown) ↔ (In k (keys c.checks) ⊎ (k ≡ key))
  In-grown k = (
    λ h.
        elim (In-append k (keys c.checks) (key ∷ [])
          (subst (λ (l : List Text). In k l) (keys-append c.checks _) h)) [
            | inl i ↦ inl i
            | inr (inl e) ↦ inr e
            | inr (inr i) ↦ absurd i
          ],
    λ h.
        subst (λ (l : List Text). In k l) (sym (keys-append c.checks _))
          (elim h [
            | inl i ↦ In-append_left k (keys c.checks) (key ∷ []) i
            | inr e ↦ In-append_right k (keys c.checks) (key ∷ []) (inl e)
          ]),
  )

  seen_after :
      (k : Text)
      → in_set (insert key true c.seen) k ≡ (if text_eq key k then true else in_set c.seen k)
  seen_after k =
      ap (λ (o : Option Bool). is_set o) (lookup-insert key k true c.seen)
      ∙ if_set (text_eq key k) (lookup k c.seen)

  add_cap-IsSound : IsSound c → IsSound (add_cap namespace cap c)
  add_cap-IsSound sound = elim (Bool-cases (in_set c.seen key)) [
    | inl old ↦ rw old sound
    | inr new ↦ rw new (record {
      seen = λ k. (
        λ h. (In-grown k).1 (elim (Bool-cases (text_eq key k)) [
          | inl same ↦ inr (sym ((text_eq_iff key k).0 same))
          | inr other ↦ inl ((sound.seen k).0 (ground (arith, h, other, seen_after k)))
        ]),
        λ h. elim ((In-grown k).0 h) [
          | inl i ↦ let before = (sound.seen k).1 i in ground (arith, before, seen_after k)
          | inr e ↦ let same = (text_eq_iff key k).1 (sym e) in ground (arith, same, seen_after k)
        ],
      );
      distinct = subst Distinct (sym (keys-append c.checks _)) (
          Distinct-snoc key (keys c.checks) sound.distinct
            (λ i. absurd (ground (arith, new, (sound.seen key).1 i))));
    })
  ]

  add_cap-keys :
      IsSound c
      → (k : Text)
      → In k (keys (add_cap namespace cap c).checks) ↔ (In k (keys c.checks) ⊎ (k ≡ key))
  add_cap-keys sound k = elim (Bool-cases (in_set c.seen key)) [
    | inl old ↦ rw old (
      λ h. inl h,
      λ h. elim h [
        | inl i ↦ i
        | inr e ↦ subst (λ (j : Text). In j (keys c.checks)) (sym e) ((sound.seen key).0 old)
      ],
    )
    | inr new ↦ rw new (In-grown k)
  ]

abbrev pub keys_of : Text → List Text → List Text
keys_of namespace caps = map (λ cap. seen_key cap namespace) caps

-- What a run adds to the checks.
record Adds (c after : Collected) (New : Text → Type 0) : Type 0 where
  sound : IsSound after
  added : (k : Text) → In k (keys after.checks) ↔ (In k (keys c.checks) ⊎ New k)

add_caps-Adds :
    (namespace : Text) (caps : List Text) (c : Collected)
    → IsSound c
    → Adds c (add_caps namespace caps c) (λ k. In k (keys_of namespace caps))
unfolding add_caps
add_caps-Adds namespace [] c sound = record {
  sound = sound;
  added = λ k. (λ h. inl h, λ h. elim h [ inl i ↦ i | inr e ↦ absurd e ]);
}
add_caps-Adds namespace (cap ∷ caps) c sound =
    let rest =
      add_caps-Adds namespace caps (add_cap namespace cap c)
        (add_cap-IsSound namespace cap c sound) in
    record {
      sound = rest.sound;
      added = λ k.
          let first = add_cap-keys namespace cap c sound k in
          (
            λ h. elim ((rest.added k).0 h) [
              | inl i ↦ elim (first.0 i) [ inl before ↦ inl before | inr e ↦ inr (inl e) ]
              | inr later ↦ inr (inr later)
            ],
            λ h. elim h [
              | inl before ↦ (rest.added k).1 (inl (first.1 (inl before)))
              | inr (inl e) ↦ (rest.added k).1 (inl (first.1 (inr e)))
              | inr (inr later) ↦ (rest.added k).1 (inr later)
            ],
          );
    }

-- A domain whose service has a namespace calls for each of its capabilities there.
abbrev pub CallsFor : Map Text → DomainDefinition → Text → Type 0
CallsFor by_service d k =
    (namespace_of by_service d ≢ []) × In k (keys_of (namespace_of by_service d) (domain_caps d))

abbrev pub AnyCallsFor : Map Text → List DomainDefinition → Text → Type 0
AnyCallsFor by_service [] k = ⊥
AnyCallsFor by_service (d ∷ ds) k = CallsFor by_service d k ⊎ AnyCallsFor by_service ds k

abbrev add_domain : Map Text → DomainDefinition → Collected → Collected
add_domain by_service d c =
    if is_empty (namespace_of by_service d)
    then c
    else add_caps (namespace_of by_service d) (domain_caps d) c

add_domain-Adds :
    (by_service : Map Text) (d : DomainDefinition) (c : Collected)
    → IsSound c
    → Adds c (add_domain by_service d c) (CallsFor by_service d)
add_domain-Adds by_service d c sound = elim (Bool-cases (is_empty (namespace_of by_service d))) [
  | inl empty ↦ rw empty (record {
    sound = sound;
    added = λ k. (
      λ h. inl h,
      λ h. elim h [
        | inl i ↦ i
        | inr (named, i) ↦ absurd (named (is_empty_nil (namespace_of by_service d) empty))
      ],
    );
  })
  | inr named ↦
      let adds = add_caps-Adds (namespace_of by_service d) (domain_caps d) c sound in
      let full = (is_empty_iff (namespace_of by_service d)).0 named in
      rw named (record {
        sound = adds.sound;
        added = λ k. (
          λ h. elim ((adds.added k).0 h) [ inl i ↦ inl i | inr i ↦ inr (full, i) ],
          λ h. elim h [ inl i ↦ (adds.added k).1 (inl i) | inr (f, i) ↦ (adds.added k).1 (inr i) ],
        );
      })
]

collect_domains-Adds :
    (by_service : Map Text) (ds : List DomainDefinition) (c : Collected)
    → IsSound c
    → Adds c (collect_domains by_service ds c) (AnyCallsFor by_service ds)
unfolding collect_domains
collect_domains-Adds by_service [] c sound = record {
  sound = sound;
  added = λ k. (λ h. inl h, λ h. elim h [ inl i ↦ i | inr e ↦ absurd e ]);
}
collect_domains-Adds by_service (d ∷ ds) c sound =
    let here = add_domain-Adds by_service d c sound in
    let rest = collect_domains-Adds by_service ds (add_domain by_service d c) here.sound in
    record {
      sound = rest.sound;
      added = λ k. (
        λ h. elim ((rest.added k).0 h) [
          | inl i ↦ elim ((here.added k).0 i) [ inl before ↦ inl before | inr e ↦ inr (inl e) ]
          | inr later ↦ inr (inr later)
        ],
        λ h. elim h [
          | inl before ↦ (rest.added k).1 (inl ((here.added k).1 (inl before)))
          | inr (inl e) ↦ (rest.added k).1 (inl ((here.added k).1 (inr e)))
          | inr (inr later) ↦ (rest.added k).1 (inr later)
        ],
      );
    }

nothing_collected : IsSound (record { seen = []; checks = [] })
unfolding lookup
nothing_collected = record { seen = λ k. (λ h. absurd (cc), λ h. absurd h); distinct = tt }

pub collected_lem :
    (domains : List DomainDefinition) (services : Map ServiceConfig) (k : Text)
    → Distinct (keys (collect_capability_checks domains services))
      × (In k (keys (collect_capability_checks domains services))
          ↔ AnyCallsFor (namespaces services []) domains k)
unfolding collect_capability_checks
collected_lem domains services k =
    let all = collect_domains-Adds (namespaces services []) domains _ nothing_collected in
    (
      all.sound.distinct,
      (
        λ h. elim ((all.added k).0 h) [ inl i ↦ absurd i | inr called ↦ called ],
        λ h. (all.added k).1 (inr h),
      ),
    )
