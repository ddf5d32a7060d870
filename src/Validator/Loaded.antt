-- ===== src/Validator/Loaded.antt =====
-- Validated definitions in the registry: what the providers find at run time.
use mathlib.Core.Path.{subst}
use thesa.Prelude.{
  is_empty_iff, true, Option, none, some, List, [], ◌∷◌, ◌≡◌, ◌≢◌, ◌⊎◌, inl, inr, refl, sym, ap,
  ◌∙◌, arith, In, All-In, In-append, In-append_left, In-append_right, map, Bool-cases,
}
use thesa.Prelude.Text.{Text, codes, text_eq, text_eq_iff}
use thesa.Definition.{DomainDefinition, FormDefinition, CommandDefinition}
use thesa.Context.{Go}
use thesa.OpenApi.{Index, IndexedOperation, get_operation}
use thesa.Registry.{replace, get_command}
use thesa.Registry.Laws.{last_or, gather, getters-replace}
use thesa.Validator.{validate_definitions, service_or}
use thesa.Validator.Spec.{IsValidForm, IsValidCommand, IsValidDomain}
use thesa.Validator.Laws.{text_ne}
use thesa.Validator.Domain.{validate_definitions_iff}

module _ {A : Type 0} (id : A → Text) where
  -- Once something is found, something stays found.
  last_or-some : (k : Text) (xs : List A) (a : A) → (b : A) × (last_or id k xs (some a) ≡ some b)
  last_or-some k [] a = (a, refl)
  last_or-some k (x ∷ xs) a = elim (Bool-cases (text_eq (id x) k)) [
    | inl same ↦ rw same (last_or-some k xs x)
    | inr other ↦ rw other (last_or-some k xs a)
  ]

  last_or-declared :
      (k : Text) (xs : List A) (o : Option A)
      → In k (map id xs)
      → (b : A) × (last_or id k xs o ≡ some b)
  last_or-declared k [] o h = absurd h
  last_or-declared k (x ∷ xs) o (inl e) =
      let same : text_eq (id x) k ≡ true = (text_eq_iff (id x) k).1 (sym e) in
      rw same (last_or-some k xs x)
  last_or-declared k (x ∷ xs) o (inr h) = last_or-declared k xs _ h

  -- What is found is a member with that id, or what was there before.
  last_or-In :
      (k : Text) (xs : List A) (o : Option A) (a : A)
      → last_or id k xs o ≡ some a
      → (In a xs × (id a ≡ k)) ⊎ (o ≡ some a)
  last_or-In k [] o a h = inr h
  last_or-In k (x ∷ xs) o a h = elim (last_or-In k xs _ a h) [
    | inl (i, named) ↦ inl (inr i, named)
    | inr e ↦ elim (Bool-cases (text_eq (id x) k)) [
      | inl same ↦
          let found : a ≡ x = ground (arith, same, e) in
          inl (inl found, ap id found ∙ (text_eq_iff (id x) k).0 same)
      | inr other ↦ inr (ground (arith, other, e))
    ]
  ]

module _ {A : Type 0} (id : A → Text) where
  In-map : (a : A) (xs : List A) → In a xs → In (id a) (map id xs)
  In-map a [] h = absurd h
  In-map a (x ∷ xs) (inl e) = inl (ap id e)
  In-map a (x ∷ xs) (inr h) = inr (In-map a xs h)

  of_In-map : (k : Text) (xs : List A) → In k (map id xs) → (a : A) × In a xs × (k ≡ id a)
  of_In-map k [] h = absurd h
  of_In-map k (x ∷ xs) (inl e) = (x, inl refl, e)
  of_In-map k (x ∷ xs) (inr h) = let (a, i, e) = of_In-map k xs h in (a, inr i, e)

module _ {A : Type 0} (part : DomainDefinition → List A) where
  gather_part :
      (a : A) (def : DomainDefinition) (defs : List DomainDefinition)
      → In def defs
      → In a (part def)
      → In a (gather part defs)
  gather_part a def [] h i = absurd h
  gather_part a def (d ∷ defs) (inl e) i =
      In-append_left a (part d) _ (subst (λ (x : DomainDefinition). In a (part x)) e i)
  gather_part a def (d ∷ defs) (inr h) i = In-append_right a (part d) _ (gather_part a def defs h i)

  of_In-gather :
      (a : A) (defs : List DomainDefinition)
      → In a (gather part defs)
      → (def : DomainDefinition) × In def defs × In a (part def)
  of_In-gather a [] h = absurd h
  of_In-gather a (d ∷ defs) h = elim (In-append a (part d) (gather part defs) h) [
    | inl i ↦ (d, inl refl, i)
    | inr i ↦ let (def, j, k) = of_In-gather a defs i in (def, inr j, k)
  ]

-- The registry of definitions with an empty report.
module _ (go : Go) (sha256_hex : Text → Text) (defs : List DomainDefinition)
    (index : Option Index) where
  get_command-In :
      (k : Text) (c : CommandDefinition)
      → get_command (replace sha256_hex defs) k ≡ some c
      → In c (gather (λ d. d.commands) defs) × (c.id ≡ k)
  get_command-In k c h =
      elim (last_or-In (λ d. d.id) k (gather (λ d. d.commands) defs) none c
        (sym ((getters-replace sha256_hex defs k).2) ∙ h)) [
          | inl found ↦ found
          | inr e ↦ absurd (cc)
        ]

  -- A command of the registry passed the check in a domain of the set.
  get_command-IsValid :
      (k : Text) (c : CommandDefinition)
      → validate_definitions go defs index ≡ []
      → get_command (replace sha256_hex defs) k ≡ some c
      → (def : DomainDefinition) × In def defs × IsValidCommand def.domain index c
  get_command-IsValid k c clean h =
      let (def, i, j) = of_In-gather (λ d. d.commands) c defs (get_command-In k c h).0 in
      let valid =
        All-In (λ d. IsValidDomain index d) defs def
          ((validate_definitions_iff go defs index).0 clean) i in
      (def, i, All-In (λ x. IsValidCommand def.domain index x) def.commands c valid.commands j)

  -- Where the report on a set of definitions is empty, the registry loaded from them has, for each
  -- form of each domain, a command with the id that the form submits, and that command meets the
  -- validator's conditions in some domain of the set.
  pub submit_command-is_loaded :
      (def : DomainDefinition) (f : FormDefinition)
      → validate_definitions go defs index ≡ []
      → In def defs
      → In f def.forms
      → (c : CommandDefinition) × (get_command (replace sha256_hex defs) f.submit_command ≡ some c)
        × (c.id ≡ f.submit_command)
        × ((d : DomainDefinition) × In d defs × IsValidCommand d.domain index c)
  submit_command-is_loaded def f clean i j =
      let valid =
        All-In (λ d. IsValidDomain index d) defs def
          ((validate_definitions_iff go defs index).0 clean) i in
      let form = All-In (λ x. IsValidForm def.commands x) def.forms f valid.forms j in
      let (x, declared, named) =
        of_In-map (λ c. c.id) f.submit_command def.commands form.declared in
      let k : In f.submit_command (map (λ c. c.id) (gather (λ d. d.commands) defs)) =
        subst (λ (t : Text). In t (map (λ c. c.id) (gather (λ d. d.commands) defs))) (sym named)
          (In-map (λ c. c.id) x _ (gather_part (λ d. d.commands) x def defs i declared)) in
      let (c, found) = last_or-declared (λ c. c.id) f.submit_command _ none k in
      let loaded = (getters-replace sha256_hex defs f.submit_command).2 ∙ found in
      (
        c,
        loaded,
        (get_command-In f.submit_command c loaded).1,
        get_command-IsValid f.submit_command c clean loaded,
      )

openapi_ne_sdk : codes "openapi" ≢ codes "sdk"
unfolding text_eq
openapi_ne_sdk = text_ne (codes "openapi") (codes "sdk") refl

-- Where the report against an OpenAPI index is empty, each command of the registry whose operation
-- is of the type openapi and names its service is answered by that index: it has the operation
-- under the service and the operation id that the invoker looks up.
pub openapi_command-is_indexed :
    (go : Go) (sha256_hex : Text → Text) (defs : List DomainDefinition) (index : Index) (k : Text)
    (c : CommandDefinition)
    → validate_definitions go defs (some index) ≡ []
    → get_command (replace sha256_hex defs) k ≡ some c
    → c.operation.type ≡ codes "openapi"
    → c.operation.service_id ≢ []
    → (op : IndexedOperation) × (get_operation index c.operation.service_id c.operation.operation_id
        ≡ some op)
openapi_command-is_indexed go sha256_hex defs index k c clean h openapi named =
    let (def, i, valid) = get_command-IsValid go sha256_hex defs (some index) k c clean h in
    let full = (is_empty_iff c.operation.service_id).1 named in
    let same : service_or c.operation.service_id def.domain ≡ c.operation.service_id =
      rw full refl in
    elim valid.operation [
      | inl (_, _, (op, found)) ↦
          (op, sym (ap (λ (s : Text). get_operation index s c.operation.operation_id) same) ∙ found)
      | inr (sdk, _) ↦ absurd (openapi_ne_sdk (sym openapi ∙ sdk))
    ]
