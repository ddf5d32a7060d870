-- ===== src/Metadata/Schema.antt =====
-- internal/metadata/schema.go: schemas of forms and tables.
pub mod Laws
use thesa.Prelude.{
  ℕ, ◌+◌, Bool, false, Option, none, some, List, [], ◌∷◌, ◌++◌, map, ltb, if◌then◌else◌,
}
use thesa.Prelude.Int.{ℤ, pos}
use thesa.Prelude.Text.{Text, codes, text_eq, has_prefix}
use thesa.Errors.{Result, ok, err, new_not_found}
use thesa.Definition.{
  DomainDefinition, PageDefinition, TableDefinition, ColumnDefinition, FormDefinition,
  SectionDefinition, FieldDefinition, FieldDependency, LookupRefDefinition, StaticOption,
  ValidationDefinition,
}
use thesa.Context.{Go}
use thesa.Registry.{Snapshot, get_form, get_page, all_domains}
use thesa.Metadata.Section.{is_read_only}

pub record SchemaOption : Type 0 where
  pub value : Text
  pub label : Text

pub record VisibilityRule : Type 0 where
  pub field : Text
  pub equals : Text

-- schemaValidation has the fields of a ValidationDefinition.
pub record SchemaField : Type 0 where
  pub name : Text
  pub type : Text
  pub label : Text
  pub help_text : Text
  pub placeholder : Text
  pub required : Bool
  pub readonly : Bool
  pub sortable : Bool
  pub filterable : Bool
  pub validation : Option ValidationDefinition
  pub options : List SchemaOption
  pub priority : ℤ
  pub visible_when : Option VisibilityRule
  pub format : Text

pub record SchemaResponse : Type 0 where
  pub schema_id : Text
  pub title : Text
  pub fields : List SchemaField

-- A switch on a text, with its default.
abbrev pub switch : List (Text × Text) → Text → Text → Text
switch [] t default = default
switch ((k, v) ∷ cases) t default =
    let rest = switch cases t default in if text_eq t k then v else rest

unfoldable pub map_field_type : Text → Text
map_field_type t =
    switch
      ((codes "text", codes "string")
        ∷ (codes "textarea", codes "string")
        ∷ (codes "number", codes "number")
        ∷ (codes "currency", codes "money")
        ∷ (codes "select", codes "enum")
        ∷ (codes "reference", codes "reference")
        ∷ (codes "date_range", codes "date")
        ∷ (codes "file", codes "file")
        ∷ (codes "badge", codes "enum")
        ∷ [])
      t t

unfoldable pub map_column_type : Text → Text
map_column_type t =
    switch
      ((codes "text", codes "string")
        ∷ (codes "badge", codes "enum")
        ∷ (codes "currency", codes "money")
        ∷ (codes "datetime", codes "datetime")
        ∷ (codes "date_range", codes "date")
        ∷ [])
      t t

unfoldable pub priority_from_index : ℕ → ℤ
priority_from_index i =
    if ltb i 2 then pos 1 else if ltb i 4 then pos 2 else if ltb i 6 then pos 3 else pos 4

abbrev schema_options : Option LookupRefDefinition → List SchemaOption
schema_options none = []
schema_options (some l) =
    map (λ (o : StaticOption). record { value = o.value; label = o.label }) l.static

-- The first dependency only.
abbrev first_rule : List FieldDependency → Option VisibilityRule
first_rule [] = none
first_rule (dep ∷ deps) = some (record { field = dep.field; equals = dep.value })

unfoldable pub field_def_to_schema : FieldDefinition → SchemaField
unfolding map_field_type
field_def_to_schema f = record {
  name = f.field;
  type = map_field_type f.type;
  label = f.label;
  help_text = f.help_text;
  placeholder = f.placeholder;
  required = f.required;
  readonly = is_read_only f;
  sortable = false;
  filterable = false;
  validation = f.validation;
  options = schema_options f.lookup;
  priority = pos 0;
  visible_when = first_rule f.depends_on;
  format = f.format;
}

unfoldable pub section_fields : List SectionDefinition → List SchemaField
unfolding field_def_to_schema
section_fields [] = []
section_fields (sec ∷ secs) = map field_def_to_schema sec.fields ++ section_fields secs

abbrev column_schema : ℕ → ColumnDefinition → SchemaField
column_schema i col = record {
  name = col.field;
  type = map_column_type col.type;
  label = col.label;
  help_text = [];
  placeholder = [];
  required = false;
  readonly = false;
  sortable = col.sortable;
  filterable = col.filterable;
  validation = none;
  options = [];
  priority = priority_from_index i;
  visible_when = none;
  format = col.format;
}

unfoldable pub column_fields : ℕ → List ColumnDefinition → List SchemaField
column_fields i [] = []
column_fields i (col ∷ cols) = column_schema i col ∷ column_fields (i + 1) cols

abbrev pub schema_from_form : Text → FormDefinition → SchemaResponse
schema_from_form id form = record {
  schema_id = id;
  title = form.title;
  fields = section_fields form.sections;
}

abbrev page_fields : Option TableDefinition → List SectionDefinition → List SchemaField
page_fields none secs = section_fields secs
page_fields (some table) secs = column_fields 0 table.columns

abbrev pub schema_from_page : Text → PageDefinition → SchemaResponse
schema_from_page id page = record {
  schema_id = id;
  title = page.title;
  fields = page_fields page.table page.sections;
}

-- A loop that returns at the first id with the prefix.
abbrev pub by_prefix :
    {A : Type 0} → (A → Text) → (A → SchemaResponse) → Text → List A → Option SchemaResponse
by_prefix id schema prefix [] = none
by_prefix id schema prefix (x ∷ xs) =
    let rest = by_prefix id schema prefix xs in
    if has_prefix (id x) prefix then some (schema x) else rest

abbrev pub form_by_prefix : Text → List FormDefinition → Option SchemaResponse
form_by_prefix prefix forms = by_prefix (λ f. f.id) (λ f. schema_from_form f.id f) prefix forms

abbrev pub page_by_prefix : Text → List PageDefinition → Option SchemaResponse
page_by_prefix prefix pages = by_prefix (λ p. p.id) (λ p. schema_from_page p.id p) prefix pages

abbrev pub first_of : Option SchemaResponse → Option SchemaResponse → Option SchemaResponse
first_of none second = second
first_of (some r) second = some r

unfoldable pub schema_by_prefix : List DomainDefinition → Text → Option SchemaResponse
schema_by_prefix [] prefix = none
schema_by_prefix (domain ∷ domains) prefix =
    let rest = schema_by_prefix domains prefix in
    first_of (form_by_prefix prefix domain.forms)
      (first_of (page_by_prefix prefix domain.pages) rest)

module _ (go : Go) where
  abbrev pub prefixed : Text → Option SchemaResponse → Result SchemaResponse
  prefixed schema_id none =
      err (new_not_found (codes "schema " ++ (go.quote schema_id ++ codes " not found")))
  prefixed schema_id (some resp) = ok resp

  abbrev pub schema_found :
      Snapshot → Text → Option FormDefinition → Option PageDefinition → Result SchemaResponse
  schema_found registry schema_id (some form) page = ok (schema_from_form schema_id form)
  schema_found registry schema_id none (some page) = ok (schema_from_page schema_id page)
  schema_found registry schema_id none none =
      prefixed schema_id (schema_by_prefix (all_domains registry) schema_id)

  unfoldable pub get_schema : Snapshot → Text → Result SchemaResponse
  get_schema registry schema_id =
      schema_found registry schema_id (get_form registry schema_id) (get_page registry schema_id)
