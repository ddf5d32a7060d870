-- ===== src/Metadata/Schema/Laws.antt =====
-- Which schema an id stands for.
use mathlib.Core.List.{append-nil}
use thesa.Prelude.{
  ℕ, ◌+◌, true, false, Option, none, some, List, [], ◌∷◌, ◌≡◌, ◌≢◌, ◌⊎◌, ◌↔◌, refl, sym, ap, ◌∙◌,
  arith, inl, inr, All, Bool-cases,
}
use thesa.Prelude.Int.{pos, ◌≤ℤ◌}
use thesa.Prelude.Text.{Text, has_prefix, has_prefix-append}
use thesa.Errors.{Error, ok, err}
use thesa.Definition.{DomainDefinition, PageDefinition, FormDefinition}
use thesa.Context.{Go}
use thesa.Registry.{Snapshot, get_form, get_page, all_domains}
use thesa.Metadata.Schema.{
  SchemaResponse, priority_from_index, schema_from_form, schema_from_page, by_prefix,
  form_by_prefix, page_by_prefix, first_of, schema_by_prefix, prefixed, schema_found, get_schema,
}

-- The priority of a column is from 1 to 4, and never falls from one column to the next.
pub priority_from_index_bounds :
    (i : ℕ)
    → (pos 1 ≤ℤ priority_from_index i)
      × (priority_from_index i ≤ℤ pos 4)
      × (priority_from_index i ≤ℤ priority_from_index (i + 1))
unfolding priority_from_index
priority_from_index_bounds i = (ground arith, ground arith, ground arith)

module _ {A : Type 0} (id : A → Text) (schema : A → SchemaResponse) (prefix : Text) where
  by_prefix-none :
      (xs : List A)
      → (by_prefix id schema prefix xs ≡ none) ↔ All (λ x. has_prefix (id x) prefix ≡ false) xs
  by_prefix-none [] = (λ h. tt, λ h. refl)
  by_prefix-none (x ∷ xs) = elim (Bool-cases (has_prefix (id x) prefix)) [
    | inl begins ↦
        (λ h. absurd (ground (arith, begins, h)), λ h. absurd (ground (arith, begins, h.0)))
    | inr other ↦
        let rest = by_prefix-none xs in
        (λ h. (other, rest.0 (ground (arith, other, h))), λ h. rw other (rest.1 h.1))
  ]

  by_prefix-some :
      (xs : List A) (r : SchemaResponse)
      → ((x : A) → (schema x).schema_id ≡ id x)
      → by_prefix id schema prefix xs ≡ some r
      → has_prefix r.schema_id prefix ≡ true
  by_prefix-some [] r named h = absurd (cc)
  by_prefix-some (x ∷ xs) r named h = elim (Bool-cases (has_prefix (id x) prefix)) [
    | inl begins ↦
        let same : schema x ≡ r = ground (arith, begins, h) in
        ap (λ (s : SchemaResponse). has_prefix s.schema_id prefix) (sym same)
        ∙ ap (λ (t : Text). has_prefix t prefix) (named x)
        ∙ begins
    | inr other ↦ by_prefix-some xs r named (ground (arith, other, h))
  ]

abbrev pub LacksPrefix : Text → DomainDefinition → Type 0
LacksPrefix prefix d =
    All (λ (f : FormDefinition). has_prefix f.id prefix ≡ false) d.forms
    × All (λ (p : PageDefinition). has_prefix p.id prefix ≡ false) d.pages

first_of-none : (a b : Option SchemaResponse) → (first_of a b ≡ none) ↔ ((a ≡ none) × (b ≡ none))
first_of-none none b = (λ h. (refl, h), λ h. h.1)
first_of-none (some r) b = (λ h. absurd (cc), λ h. h.0)

first_of-some :
    (a b : Option SchemaResponse) (r : SchemaResponse)
    → first_of a b ≡ some r
    → (a ≡ some r) ⊎ (b ≡ some r)
first_of-some none b r h = inr h
first_of-some (some s) b r h = inl h

schema_by_prefix-none :
    (domains : List DomainDefinition) (prefix : Text)
    → (schema_by_prefix domains prefix ≡ none) ↔ All (LacksPrefix prefix) domains
unfolding schema_by_prefix
schema_by_prefix-none [] prefix = (λ h. tt, λ h. refl)
schema_by_prefix-none (d ∷ ds) prefix =
    let rest = schema_by_prefix-none ds prefix in
    let forms =
      by_prefix-none (λ (f : FormDefinition). f.id) (λ f. schema_from_form f.id f) prefix d.forms in
    let pages =
      by_prefix-none (λ (p : PageDefinition). p.id) (λ p. schema_from_page p.id p) prefix d.pages in
    let outer = first_of-none (form_by_prefix prefix d.forms) _ in
    let inner = first_of-none (page_by_prefix prefix d.pages) (schema_by_prefix ds prefix) in
    (
      λ h. let (f, r) = outer.0 h in let (p, s) = inner.0 r in ((forms.0 f, pages.0 p), rest.0 s),
      λ h. outer.1 (forms.1 h.0.0, inner.1 (pages.1 h.0.1, rest.1 h.1)),
    )

schema_by_prefix-some :
    (domains : List DomainDefinition) (prefix : Text) (r : SchemaResponse)
    → schema_by_prefix domains prefix ≡ some r
    → has_prefix r.schema_id prefix ≡ true
unfolding schema_by_prefix
schema_by_prefix-some [] prefix r h = absurd (cc)
schema_by_prefix-some (d ∷ ds) prefix r h =
    elim (first_of-some (form_by_prefix prefix d.forms) _ r h) [
      | inl form ↦ by_prefix-some (λ f. f.id) _ prefix d.forms r (λ f. refl) form
      | inr later ↦ elim (first_of-some (page_by_prefix prefix d.pages) _ r later) [
        | inl page ↦ by_prefix-some (λ p. p.id) _ prefix d.pages r (λ p. refl) page
        | inr rest ↦ schema_by_prefix-some ds prefix r rest
      ]
    ]

ok_ne_err : (r : SchemaResponse) (e : Error) → ok r ≢ err e
ok_ne_err r e h = absurd (cc)

has_prefix_refl : (t : Text) → has_prefix t t ≡ true
has_prefix_refl t = ap (λ (s : Text). has_prefix s t) (sym (append-nil t)) ∙ has_prefix-append t []

module _ (go : Go) (registry : Snapshot) (id : Text) where
  prefixed-ok :
      (o : Option SchemaResponse) (r : SchemaResponse) → prefixed go id o ≡ ok r → o ≡ some r
  prefixed-ok none r h = absurd (cc)
  prefixed-ok (some s) r h = cc

  -- A form or a page with the id itself.
  own : (s r : SchemaResponse) → s.schema_id ≡ id → ok s ≡ ok r → has_prefix r.schema_id id ≡ true
  own s r named h =
      let same : s ≡ r = cc in
      ap (λ (x : SchemaResponse). has_prefix x.schema_id id) (sym same)
      ∙ ap (λ (t : Text). has_prefix t id) named
      ∙ has_prefix_refl id

  prefixed-err :
      (o : Option SchemaResponse) → ((e : Error) × (prefixed go id o ≡ err e)) ↔ (o ≡ none)
  prefixed-err none = (λ h. refl, λ h. (_, refl))
  prefixed-err (some r) = (λ h. absurd (ok_ne_err r h.0 h.1), λ h. absurd (cc))

  abbrev pub IsUnknown : Option FormDefinition → Option PageDefinition → Type 0
  IsUnknown form page = (form ≡ none) × (page ≡ none) × All (LacksPrefix id) (all_domains registry)

  found-err :
      (form : Option FormDefinition) (page : Option PageDefinition)
      → ((e : Error) × (schema_found go registry id form page ≡ err e)) ↔ IsUnknown form page
  found-err none none =
      let p = prefixed-err (schema_by_prefix (all_domains registry) id) in
      let q = schema_by_prefix-none (all_domains registry) id in
      (λ h. (refl, refl, q.0 (p.0 h)), λ h. p.1 (q.1 h.2))
  found-err none (some page) =
      (λ h. absurd (ok_ne_err (schema_from_page id page) h.0 h.1), λ h. absurd (cc))
  found-err (some form) page =
      (λ h. absurd (ok_ne_err (schema_from_form id form) h.0 h.1), λ h. absurd (cc))

  found-prefix :
      (form : Option FormDefinition) (page : Option PageDefinition) (r : SchemaResponse)
      → schema_found go registry id form page ≡ ok r
      → has_prefix r.schema_id id ≡ true
  found-prefix none none r h =
      schema_by_prefix-some (all_domains registry) id r
        (prefixed-ok (schema_by_prefix (all_domains registry) id) r h)
  found-prefix none (some page) r h = own (schema_from_page id page) r refl h
  found-prefix (some form) page r h = own (schema_from_form id form) r refl h

  -- A schema is refused exactly where no form and no page has its id, and no form and no page of
  -- any domain has an id that it begins.
  pub get_schema_refused_iff :
      ((e : Error) × (get_schema go registry id ≡ err e))
      ↔ IsUnknown (get_form registry id) (get_page registry id)
  unfolding get_schema
  get_schema_refused_iff = found-err (get_form registry id) (get_page registry id)

  -- The id of a schema that is served begins with the id that was asked for.
  pub get_schema-prefix :
      (r : SchemaResponse) → get_schema go registry id ≡ ok r → has_prefix r.schema_id id ≡ true
  unfolding get_schema
  get_schema-prefix r h = found-prefix (get_form registry id) (get_page registry id) r h
