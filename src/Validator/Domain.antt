-- ===== src/Validator/Domain.antt =====
-- An empty report on a domain and on a set of definitions.
use thesa.Prelude.{
  is_empty_iff, ℕ, ◌+◌, Option, List, [], ◌∷◌, ◌++◌, ◌≡◌, ◌≢◌, ◌↔◌, refl, All, map, is_empty,
}
use thesa.Prelude.Text.{Text}
use thesa.Definition.{DomainDefinition}
use thesa.Context.{Go}
use thesa.OpenApi.{Index}
use thesa.Validator.{VError, report, each, validate_domain, validate_definitions}
use thesa.Validator.Spec.{
  IsValidPage, IsValidForm, IsValidCommand, IsValidAction, IsValidDomain, HasCapabilityFormat,
}
use thesa.Validator.Laws.{append_nil_iff, report_iff, validate_page_iff}
use thesa.Validator.Refs.{
  validate_form_iff, validate_command_iff, validate_action_ref_iff, validate_capability_iff,
}

append_iff :
    {P Q : Type 0} (xs ys : List VError)
    → (xs ≡ []) ↔ P
    → (ys ≡ []) ↔ Q
    → ((xs ++ ys) ≡ []) ↔ (P × Q)
append_iff xs ys p q =
    let halves = append_nil_iff xs ys in
    (λ h. (p.0 (halves.0 h).0, q.0 (halves.0 h).1), λ h. halves.1 (p.1 h.0, q.1 h.1))

required_iff :
    {A : Type 0} (xs : List A) (path code message : Text)
    → (report (is_empty xs) path code message ≡ []) ↔ (xs ≢ [])
required_iff xs path code message =
    let r = report_iff (is_empty xs) path code message in
    let e = is_empty_iff xs in (λ h. e.0 (r.0 h), λ h. r.1 (e.1 h))

each_iff :
    {A : Type 0} (f : ℕ → A → List VError) (P : A → Type 0)
    → ((i : ℕ) (x : A) → (f i x ≡ []) ↔ P x)
    → (i : ℕ) (xs : List A) → (each f i xs ≡ []) ↔ All P xs
unfolding each
each_iff f P step i [] = (λ h. tt, λ h. refl)
each_iff f P step i (x ∷ xs) =
    let halves = append_nil_iff (f i x) (each f (i + 1) xs) in
    let rest = each_iff f P step (i + 1) xs in
    (
      λ h. ((step i x).0 (halves.0 h).0, rest.0 (halves.0 h).1),
      λ h. halves.1 ((step i x).1 h.0, rest.1 h.1),
    )

module _ (go : Go) where
  validate_domain_iff :
      (prefix : Text) (def : DomainDefinition) (index : Option Index)
      → (validate_domain go prefix def index ≡ []) ↔ IsValidDomain index def
  unfolding validate_domain
  validate_domain_iff prefix def index =
      let pages =
        each_iff _ (λ p. IsValidPage def.domain index p)
          (λ i p. validate_page_iff go def.domain index _ p) 0 def.pages in
      let forms =
        each_iff _ (λ f. IsValidForm def.commands f) (λ i f. validate_form_iff go _ f def.commands)
          0 def.forms in
      let commands =
        each_iff _ (λ c. IsValidCommand def.domain index c)
          (λ i c. validate_command_iff go _ c def.domain index) 0 def.commands in
      let actions =
        each_iff _
          (λ p.
            All (λ a. IsValidAction (map (λ f. f.id) def.forms) (map (λ c. c.id) def.commands) a)
              p.actions)
          (λ i p.
            each_iff _ _ (λ j a. validate_action_ref_iff go _ a def.forms def.commands) 0 p.actions)
          0 def.pages in
      let capabilities =
        each_iff _ (λ p. All (λ cap. HasCapabilityFormat cap) p.capabilities)
          (λ i p.
            each_iff _ _ (λ j cap. validate_capability_iff go _ def.domain cap) 0 p.capabilities)
          0 def.pages in
      let whole = append_iff _ _ (required_iff def.domain _ _ _) (
        append_iff _ _ (required_iff def.version _ _ _) (
          append_iff _ _ (required_iff def.navigation.label _ _ _) (
            append_iff _ _ (required_iff def.navigation.children _ _ _) (
              append_iff _ _ pages (
                append_iff _ _ forms
                  (append_iff _ _ commands (append_iff _ _ actions capabilities))))))) in
      (
        λ h.
            let (domain, (version, (label, (children, (p, (f, (c, (a, k)))))))) = whole.0 h in
            record {
              domain = domain;
              version = version;
              label = label;
              children = children;
              pages = p;
              forms = f;
              commands = c;
              actions = a;
              capabilities = k;
            },
        λ v. whole.1 (
          v.domain,
          (
            v.version,
            (
              v.label,
              (v.children, (v.pages, (v.forms, (v.commands, (v.actions, v.capabilities))))),
            ),
          ),
        ),
      )

  -- The report on a set of definitions is empty exactly where every domain, page, table, form,
  -- command, action and page capability of them meets the conditions of `IsValidDomain`.
  pub validate_definitions_iff :
      (defs : List DomainDefinition) (index : Option Index)
      → (validate_definitions go defs index ≡ []) ↔ All (λ def. IsValidDomain index def) defs
  unfolding validate_definitions
  validate_definitions_iff defs index =
      each_iff _ (λ def. IsValidDomain index def) (λ i def. validate_domain_iff _ def index) 0 defs
