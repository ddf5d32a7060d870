-- ===== src/Validator/Spec.antt =====
-- What the report checks, said without it.
use thesa.Prelude.{true, Option, none, some, List, [], ◌≡◌, ◌≢◌, ◌⊎◌, In, All, map}
use thesa.Prelude.Int.{pos, ◌≤ℤ◌}
use thesa.Prelude.Text.{Text, codes}
use thesa.Prelude.Strings.{contains}
use thesa.Definition.{
  DomainDefinition, PageDefinition, TableDefinition, FormDefinition, CommandDefinition,
  ActionDefinition,
}
use thesa.OpenApi.{Index, IndexedOperation, get_operation}
use thesa.Validator.{page_layouts, service_or}

-- With an index, the operation is in it.
abbrev pub IsIndexed : Option Index → Text → Text → Type 0
IsIndexed none service_id operation_id = Unit
IsIndexed (some index) service_id operation_id =
    (op : IndexedOperation) × (get_operation index service_id operation_id ≡ some op)

pub record IsValidTable (domain : Text) (index : Option Index) (t : TableDefinition) : Type 0 where
  pub columns : t.columns ≢ []
  pub page_size_low : pos 0 ≤ℤ t.page_size
  pub page_size_high : t.page_size ≤ℤ pos 200
  pub operation :
      (t.data_source.operation_id ≡ [])
      ⊎ IsIndexed index (service_or t.data_source.service_id domain) t.data_source.operation_id

abbrev pub IsValidTable? : Text → Option Index → Option TableDefinition → Type 0
IsValidTable? domain index none = Unit
IsValidTable? domain index (some t) = IsValidTable domain index t

pub record IsValidPage (domain : Text) (index : Option Index) (p : PageDefinition) : Type 0 where
  pub id : p.id ≢ []
  pub title : p.title ≢ []
  pub layout : In p.layout page_layouts
  pub has_table :
      ((p.layout ≢ codes "list") × (p.layout ≢ codes "table"))
      ⊎ ((t : TableDefinition) × (p.table ≡ some t))
  pub table : IsValidTable? domain index p.table

-- The command that a form submits is declared in the form's own domain.
pub record IsValidForm (commands : List CommandDefinition) (f : FormDefinition) : Type 0 where
  pub id : f.id ≢ []
  pub title : f.title ≢ []
  pub submits : f.submit_command ≢ []
  pub declared : In f.submit_command (map (λ c. c.id) commands)
  pub sections : f.sections ≢ []

-- An operation of an indexed document, or a handler.
abbrev pub IsValidOperation : Text → Option Index → CommandDefinition → Type 0
IsValidOperation domain index c =
    ((c.operation.type ≡ codes "openapi")
      × (c.operation.operation_id ≢ [])
      × IsIndexed index (service_or c.operation.service_id domain) c.operation.operation_id)
    ⊎ ((c.operation.type ≡ codes "sdk") × (c.operation.handler ≢ []))

pub record IsValidCommand (domain : Text) (index : Option Index) (c : CommandDefinition)
    : Type 0 where
  pub id : c.id ≢ []
  pub operation : IsValidOperation domain index c

abbrev pub Names : List Text → Text → Type 0
Names ids id = (id ≡ []) ⊎ In id ids

-- What a page's action opens or sends.
pub record IsValidAction (forms commands : List Text) (a : ActionDefinition) : Type 0 where
  pub form : (a.type ≢ codes "form") ⊎ Names forms a.form_id
  pub command :
      ((a.type ≢ codes "command") × (a.type ≢ codes "confirm")) ⊎ Names commands a.command_id

abbrev pub HasCapabilityFormat : Text → Type 0
HasCapabilityFormat cap = (cap ≡ codes "*") ⊎ (contains cap (codes ":") ≡ true)

pub record IsValidDomain (index : Option Index) (def : DomainDefinition) : Type 0 where
  pub domain : def.domain ≢ []
  pub version : def.version ≢ []
  pub label : def.navigation.label ≢ []
  pub children : def.navigation.children ≢ []
  pub pages : All (λ p. IsValidPage def.domain index p) def.pages
  pub forms : All (λ f. IsValidForm def.commands f) def.forms
  pub commands : All (λ c. IsValidCommand def.domain index c) def.commands
  pub actions :
      All
        (λ p.
          All
            (λ a. IsValidAction (map (λ f. f.id) def.forms) (map (λ c. c.id) def.commands) a)
            p.actions)
        def.pages
  pub capabilities : All (λ p. All (λ cap. HasCapabilityFormat cap) p.capabilities) def.pages
