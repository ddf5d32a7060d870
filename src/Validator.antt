-- ===== src/Validator.antt =====
-- internal/definition/validator.go: the report on a set of definitions.
pub mod Spec
pub mod Laws
pub mod Refs
pub mod Domain
pub mod Loaded
mod Tests
use thesa.Prelude.{
  ℕ, ◌+◌, Bool, false, not, ◌&&◌, ◌||◌, Option, none, some, List, [], ◌∷◌, ◌++◌, any, is_empty,
  is_some, if◌then◌else◌,
}
use thesa.Prelude.Int.{pos, ltb_ℤ}
use thesa.Prelude.Text.{Text, codes, text_eq}
use thesa.Prelude.Strings.{contains}
use thesa.Prelude.Maps.{Map}
use thesa.Definition.{
  DomainDefinition, PageDefinition, TableDefinition, FormDefinition, CommandDefinition,
  ActionDefinition,
}
use thesa.Context.{Go}
use thesa.Sets.{id_set, in_set}
use thesa.OpenApi.{Index, get_operation}

pub record VError : Type 0 where
  pub path : Text
  pub code : Text
  pub message : Text

-- `if bad { errs = append(errs, e) }`
abbrev pub report : Bool → Text → Text → Text → List VError
report bad path code message =
    if bad then record { path = path; code = code; message = message } ∷ [] else []

-- A field that must not be empty.
abbrev pub required : Text → Text → Text → List VError
required value path message = report (is_empty value) path (codes "REQUIRED") message

-- The loop over a list, with the places in it.
unfoldable pub each {ℓ} : {A : Type ℓ} → (ℕ → A → List VError) → ℕ → List A → List VError
each f i [] = []
each f i (x ∷ xs) = f i x ++ each f (i + 1) xs

abbrev pub page_layouts : List Text
page_layouts =
    codes "list" ∷ codes "detail" ∷ codes "dashboard" ∷ codes "custom" ∷ codes "table" ∷ []

abbrev pub one_of : Text → List Text → Bool
one_of t ts = any (text_eq t) ts

abbrev pub service_or : Text → Text → Text
service_or service_id domain = if is_empty service_id then domain ++ codes "-svc" else service_id

-- Nothing is looked up without an index.
abbrev pub unknown_operation : Option Index → Text → Text → Bool
unknown_operation none service_id operation_id = false
unknown_operation (some index) service_id operation_id =
    not (is_some (get_operation index service_id operation_id))

module _ (go : Go) where
  abbrev at : Text → Text → ℕ → Text
  at prefix part i =
      prefix ++ (codes "." ++ (part ++ (codes "[" ++ (go.itoa (pos i) ++ codes "]"))))

  abbrev not_found_message : Text → Text → Text
  not_found_message operation_id service_id =
      codes "operation "
      ++ (go.quote operation_id ++ (codes " not found in service " ++ go.quote service_id))

  unfoldable pub validate_table : Text → TableDefinition → Text → Option Index → List VError
  validate_table prefix t domain index =
      report (is_empty t.columns) (prefix ++ codes ".columns") (codes "REQUIRED")
        (codes "at least one column is required")
      ++ (report (ltb_ℤ t.page_size (pos 0) || ltb_ℤ (pos 200) t.page_size)
            (prefix ++ codes ".page_size") (codes "RANGE") (codes "page_size must be 0-200")
          ++ report
              (not (is_empty t.data_source.operation_id)
                && unknown_operation index (service_or t.data_source.service_id domain)
                    t.data_source.operation_id)
              (prefix ++ codes ".data_source.operation_id") (codes "OPERATION_NOT_FOUND")
              (not_found_message t.data_source.operation_id
                (service_or t.data_source.service_id domain)))

  abbrev pub table_errors : Text → Option TableDefinition → Text → Option Index → List VError
  table_errors prefix none domain index = []
  table_errors prefix (some t) domain index =
      validate_table (prefix ++ codes ".table") t domain index

  unfoldable pub validate_page : Text → PageDefinition → Text → Option Index → List VError
  validate_page prefix p domain index =
      required p.id (prefix ++ codes ".id") (codes "id is required")
      ++ (required p.title (prefix ++ codes ".title") (codes "title is required")
          ++ ((if is_empty p.layout
                then required p.layout (prefix ++ codes ".layout") (codes "layout is required")
                else report (not (one_of p.layout page_layouts)) (prefix ++ codes ".layout")
                    (codes "INVALID_ENUM") (codes "invalid layout " ++ go.quote p.layout))
              ++ (report
                    ((text_eq p.layout (codes "list") || text_eq p.layout (codes "table"))
                      && not (is_some p.table))
                    (prefix ++ codes ".table") (codes "REQUIRED")
                    (codes "table is required for " ++ (p.layout ++ codes " layout"))
                  ++ table_errors prefix p.table domain index)))

  unfoldable pub validate_form : Text → FormDefinition → Map Bool → List VError
  validate_form prefix f command_ids =
      required f.id (prefix ++ codes ".id") (codes "id is required")
      ++ (required f.title (prefix ++ codes ".title") (codes "title is required")
          ++ ((if is_empty f.submit_command
                then required f.submit_command (prefix ++ codes ".submit_command")
                    (codes "submit_command is required")
                else report (not (in_set command_ids f.submit_command))
                    (prefix ++ codes ".submit_command") (codes "REF_NOT_FOUND")
                    (codes "command "
                      ++ (go.quote f.submit_command ++ codes " not found in domain")))
              ++ report (is_empty f.sections) (prefix ++ codes ".sections") (codes "REQUIRED")
                  (codes "at least one section is required")))

  unfoldable pub validate_command : Text → CommandDefinition → Text → Option Index → List VError
  validate_command prefix c domain index =
      let op = c.operation in
      required c.id (prefix ++ codes ".id") (codes "id is required")
      ++ ((if is_empty op.type
            then required op.type (prefix ++ codes ".operation.type")
                (codes "operation.type is required")
            else report
                (not (text_eq op.type (codes "openapi")) && not (text_eq op.type (codes "sdk")))
                (prefix ++ codes ".operation.type") (codes "INVALID_ENUM")
                (codes "invalid operation type " ++ go.quote op.type))
          ++ (report (text_eq op.type (codes "openapi") && is_empty op.operation_id)
                (prefix ++ codes ".operation.operation_id") (codes "REQUIRED")
                (codes "operation_id required for openapi type")
              ++ (report (text_eq op.type (codes "sdk") && is_empty op.handler)
                    (prefix ++ codes ".operation.handler") (codes "REQUIRED")
                    (codes "handler required for sdk type")
                  ++ report
                      (text_eq op.type (codes "openapi")
                        && (not (is_empty op.operation_id)
                            && unknown_operation index (service_or op.service_id domain)
                                op.operation_id))
                      (prefix ++ codes ".operation.operation_id") (codes "OPERATION_NOT_FOUND")
                      (not_found_message op.operation_id (service_or op.service_id domain)))))

  unfoldable pub validate_action_ref : Text → ActionDefinition → Map Bool → Map Bool → List VError
  validate_action_ref prefix a form_ids command_ids =
      if text_eq a.type (codes "form")
      then report (not (is_empty a.form_id) && not (in_set form_ids a.form_id))
          (prefix ++ codes ".form_id") (codes "REF_NOT_FOUND")
          (codes "form " ++ (go.quote a.form_id ++ codes " not found"))
      else if text_eq a.type (codes "command") || text_eq a.type (codes "confirm")
      then report (not (is_empty a.command_id) && not (in_set command_ids a.command_id))
          (prefix ++ codes ".command_id") (codes "REF_NOT_FOUND")
          (codes "command " ++ (go.quote a.command_id ++ codes " not found"))
      else []

  -- A capability is `*` or has a colon.
  abbrev pub bad_format : Text → Bool
  bad_format cap = not (text_eq cap (codes "*")) && not (contains cap (codes ":"))

  unfoldable pub validate_capability : Text → Text → Text → List VError
  validate_capability prefix domain cap =
      report (bad_format cap) (prefix ++ codes ".capabilities") (codes "INVALID_FORMAT") (
        codes "capability "
        ++ (go.quote cap
            ++ (codes " must contain a colon separator (e.g. "
                ++ (go.quote (domain ++ codes ":view") ++ codes ")"))))

  unfoldable pub validate_domain : Text → DomainDefinition → Option Index → List VError
  validate_domain prefix def index =
      let form_ids = id_set (λ f. f.id) def.forms [] in
      let command_ids = id_set (λ c. c.id) def.commands [] in
      required def.domain (prefix ++ codes ".domain") (codes "domain is required")
      ++ (required def.version (prefix ++ codes ".version") (codes "version is required")
          ++ (required def.navigation.label (prefix ++ codes ".navigation.label")
                (codes "navigation.label is required")
              ++ (report (is_empty def.navigation.children) (prefix ++ codes ".navigation.children")
                    (codes "REQUIRED") (codes "at least one navigation child is required")
                  ++ (each (λ i p. validate_page (at prefix (codes "pages") i) p def.domain index) 0
                        def.pages
                      ++ (each (λ i f. validate_form (at prefix (codes "forms") i) f command_ids) 0
                            def.forms
                          ++ (each
                                (λ i c.
                                  validate_command (at prefix (codes "commands") i) c def.domain
                                    index)
                                0 def.commands
                              ++ (each
                                    (λ i p.
                                      each
                                        (λ j a.
                                          validate_action_ref
                                            (at (at prefix (codes "pages") i) (codes "actions") j) a
                                            form_ids command_ids)
                                        0 p.actions)
                                    0 def.pages
                                  ++ each
                                      (λ i p.
                                        each
                                          (λ j cap.
                                            validate_capability (at prefix (codes "pages") i)
                                              def.domain cap)
                                          0 p.capabilities)
                                      0 def.pages)))))))

  unfoldable pub validate_definitions : List DomainDefinition → Option Index → List VError
  validate_definitions defs index =
      each
        (λ i def.
          validate_domain (codes "definitions[" ++ (go.itoa (pos i) ++ codes "]")) def index)
        0 defs
