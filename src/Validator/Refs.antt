-- ===== src/Validator/Refs.antt =====
-- An empty report on a form, a command, an action or a capability.
use thesa.Prelude.{
  is_empty_iff, is_empty_nil, true, false, not, Option, List, [], ◌≡◌, ◌↔◌, ◌&&◌, ◌||◌, inl, inr,
  ap, arith, map, is_empty, Bool-cases,
}
use thesa.Prelude.Text.{Text, codes, text_eq, text_eq_iff}
use thesa.Definition.{FormDefinition, CommandDefinition, ActionDefinition}
use thesa.Context.{Go}
use thesa.Sets.{id_set, in_set, declared_iff}
use thesa.OpenApi.{Index}
use thesa.Validator.{
  service_or, unknown_operation, validate_form, validate_command, validate_action_ref,
  validate_capability,
}
use thesa.Validator.Spec.{IsValidForm, IsValidCommand, IsValidAction, Names, HasCapabilityFormat}
use thesa.Validator.Laws.{text_ne, text_ne_iff, unknown_operation_iff}

module _ {A : Type 0} (id : A → Text) where
  -- A reference that may be empty.
  reference_iff :
      (k : Text) (xs : List A)
      → ((not (is_empty k) && not (in_set (id_set id xs []) k)) ≡ false) ↔ Names (map id xs) k
  reference_iff k xs = (
    λ h. elim (Bool-cases (is_empty k)) [
      | inl e ↦ inl (is_empty_nil k e)
      | inr full ↦
          let known : in_set (id_set id xs []) k ≡ true = ground (arith, full) in
          inr ((declared_iff id k xs).0 known)
    ],
    λ h. elim h [
      | inl e ↦
          let empty : is_empty k ≡ true = ap (λ (t : Text). is_empty t) e in ground (arith, empty)
      | inr i ↦ let known = (declared_iff id k xs).1 i in ground (arith, known)
    ],
  )

module _ (go : Go) where
  pub validate_form_iff :
      (prefix : Text) (f : FormDefinition) (commands : List CommandDefinition)
      → (validate_form go prefix f (id_set (λ c. c.id) commands []) ≡ []) ↔ IsValidForm commands f
  unfolding validate_form
  validate_form_iff prefix f commands = (
    λ h.
        let id : is_empty f.id ≡ false = ground arith in
        let title : is_empty f.title ≡ false = ground arith in
        let submits : is_empty f.submit_command ≡ false = ground arith in
        let declared : in_set (id_set (λ c. c.id) commands []) f.submit_command ≡ true =
          ground arith in
        let sections : is_empty f.sections ≡ false = ground arith in
        record {
          id = (is_empty_iff f.id).0 id;
          title = (is_empty_iff f.title).0 title;
          submits = (is_empty_iff f.submit_command).0 submits;
          declared = (declared_iff (λ c. c.id) f.submit_command commands).0 declared;
          sections = (is_empty_iff f.sections).0 sections;
        },
    λ v.
        let id = (is_empty_iff f.id).1 v.id in
        let title = (is_empty_iff f.title).1 v.title in
        let submits = (is_empty_iff f.submit_command).1 v.submits in
        let declared = (declared_iff (λ c. c.id) f.submit_command commands).1 v.declared in
        let sections = (is_empty_iff f.sections).1 v.sections in
        ground (arith, id, title, submits, declared, sections),
  )

  pub validate_command_iff :
      (prefix : Text) (c : CommandDefinition) (domain : Text) (index : Option Index)
      → (validate_command go prefix c domain index ≡ []) ↔ IsValidCommand domain index c
  unfolding validate_command text_eq
  validate_command_iff prefix c domain index = (
    λ h.
        let id : is_empty c.id ≡ false = ground arith in
        record {
          id = (is_empty_iff c.id).0 id;
          operation = elim (Bool-cases (text_eq c.operation.type (codes "openapi"))) [
            | inl openapi ↦
                let named : is_empty c.operation.operation_id ≡ false = ground (arith, openapi) in
                let known : unknown_operation index (service_or c.operation.service_id domain)
                      c.operation.operation_id
                    ≡ false =
                  ground (arith, openapi, named) in
                inl (
                  (text_eq_iff c.operation.type (codes "openapi")).0 openapi,
                  (is_empty_iff c.operation.operation_id).0 named,
                  (unknown_operation_iff index _ _).0 known,
                )
            | inr other ↦
                let sdk : text_eq c.operation.type (codes "sdk") ≡ true = ground (arith, other) in
                let handled : is_empty c.operation.handler ≡ false = ground (arith, other, sdk) in
                inr (
                  (text_eq_iff c.operation.type (codes "sdk")).0 sdk,
                  (is_empty_iff c.operation.handler).0 handled,
                )
          ];
        },
    λ v.
        let id = (is_empty_iff c.id).1 v.id in
        elim v.operation [
          | inl (openapi, named, known) ↦
              let b = (text_eq_iff c.operation.type (codes "openapi")).1 openapi in
              let full : is_empty c.operation.type ≡ false =
                ap (λ (t : Text). is_empty t) openapi in
              let sdk : text_eq c.operation.type (codes "sdk") ≡ false =
                ap (λ (t : Text). text_eq t (codes "sdk")) openapi in
              let n = (is_empty_iff c.operation.operation_id).1 named in
              let k = (unknown_operation_iff index _ _).1 known in
              ground (arith, id, b, full, sdk, n, k)
          | inr (sdk, handled) ↦
              let b = (text_eq_iff c.operation.type (codes "sdk")).1 sdk in
              let full : is_empty c.operation.type ≡ false = ap (λ (t : Text). is_empty t) sdk in
              let openapi : text_eq c.operation.type (codes "openapi") ≡ false =
                ap (λ (t : Text). text_eq t (codes "openapi")) sdk in
              let n = (is_empty_iff c.operation.handler).1 handled in
              ground (arith, id, b, full, openapi, n)
        ],
  )

  -- A form's action sends no command.
  form_sends_nothing :
      (type : Text)
      → type ≡ codes "form"
      → (text_eq type (codes "command") ≡ false) × (text_eq type (codes "confirm") ≡ false)
  unfolding text_eq
  form_sends_nothing type e = (
    ap (λ (t : Text). text_eq t (codes "command")) e,
    ap (λ (t : Text). text_eq t (codes "confirm")) e,
  )

  pub validate_action_ref_iff :
      (prefix : Text) (a : ActionDefinition) (forms : List FormDefinition)
      (commands : List CommandDefinition)
      → (validate_action_ref go prefix a
            (id_set (λ f. f.id) forms [])
            (id_set (λ c. c.id) commands [])
          ≡ [])
        ↔ IsValidAction (map (λ f. f.id) forms) (map (λ c. c.id) commands) a
  unfolding validate_action_ref
  validate_action_ref_iff prefix a forms commands = (
    λ h. record {
      form = elim (Bool-cases (text_eq a.type (codes "form"))) [
        | inl form ↦
            let known : (not (is_empty a.form_id)
                  && not (in_set (id_set (λ f. f.id) forms []) a.form_id))
                ≡ false =
              ground (arith, form) in
            inr ((reference_iff (λ f. f.id) a.form_id forms).0 known)
        | inr other ↦ inl (text_ne a.type (codes "form") other)
      ];
      command = elim (Bool-cases (text_eq a.type (codes "form"))) [
        | inl form ↦
            let (n, m) = form_sends_nothing a.type ((text_eq_iff a.type (codes "form")).0 form) in
            inl (text_ne a.type (codes "command") n, text_ne a.type (codes "confirm") m)
        | inr other ↦
            elim (Bool-cases
              (text_eq a.type (codes "command") || text_eq a.type (codes "confirm"))) [
                | inl sends ↦
                    let known : (not (is_empty a.command_id)
                          && not (in_set (id_set (λ c. c.id) commands []) a.command_id))
                        ≡ false =
                      ground (arith, other, sends) in
                    inr ((reference_iff (λ c. c.id) a.command_id commands).0 known)
                | inr neither ↦
                    let n : text_eq a.type (codes "command") ≡ false = ground (arith, neither) in
                    let m : text_eq a.type (codes "confirm") ≡ false = ground (arith, neither) in
                    inl (text_ne a.type (codes "command") n, text_ne a.type (codes "confirm") m)
              ]
      ];
    },
    λ v. elim (Bool-cases (text_eq a.type (codes "form"))) [
      | inl form ↦ elim v.form [
        | inl ne ↦ absurd (ne ((text_eq_iff a.type (codes "form")).0 form))
        | inr known ↦
            let k = (reference_iff (λ f. f.id) a.form_id forms).1 known in ground (arith, form, k)
      ]
      | inr other ↦ elim v.command [
        | inl (n, m) ↦
            let c = text_ne_iff a.type (codes "command") n in
            let d = text_ne_iff a.type (codes "confirm") m in ground (arith, other, c, d)
        | inr known ↦
            let k = (reference_iff (λ c. c.id) a.command_id commands).1 known in
            ground (arith, other, k)
      ]
    ],
  )

  pub validate_capability_iff :
      (prefix domain cap : Text)
      → (validate_capability go prefix domain cap ≡ []) ↔ HasCapabilityFormat cap
  unfolding validate_capability
  validate_capability_iff prefix domain cap = (
    λ h. elim (Bool-cases (text_eq cap (codes "*"))) [
      | inl star ↦ inl ((text_eq_iff cap (codes "*")).0 star)
      | inr other ↦ inr (ground (arith, other))
    ],
    λ v. elim v [
      | inl e ↦ let star = (text_eq_iff cap (codes "*")).1 e in ground (arith, star)
      | inr colon ↦ ground (arith, colon)
    ],
  )
