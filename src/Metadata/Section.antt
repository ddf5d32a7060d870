-- ===== src/Metadata/Section.antt =====
-- The sections of forms and pages: resolveSections of internal/metadata/form.go, which page.go
-- repeats, and the binding of a data source.
pub mod Laws
use thesa.Prelude.{
  Bool, true, not, ◌||◌, Option, none, some, List, [], ◌∷◌, map, is_empty, if◌then◌else◌,
}
use thesa.Prelude.Text.{codes, text_eq}
use thesa.Definition.{
  SectionDefinition, FieldDefinition, LookupRefDefinition, StaticOption, DataSourceDefinition,
  OperationBinding,
}
use thesa.Capability.{CapabilitySet, allowed}
use thesa.Search.Lookup.{OptionDescriptor}
use thesa.Metadata.Descriptor.{FieldDescriptor, SectionDescriptor}

abbrev pub static_options : List StaticOption → List OptionDescriptor
static_options opts = map (λ o. record { label = o.label; value = o.value }) opts

abbrev pub lookup_options : Option LookupRefDefinition → List OptionDescriptor
lookup_options none = []
lookup_options (some l) = static_options l.static

abbrev pub is_read_only : FieldDefinition → Bool
is_read_only f = text_eq f.read_only (codes "true") || text_eq f.read_only (codes "always")

abbrev pub describe_field : FieldDefinition → FieldDescriptor
describe_field f = record {
  field = f.field;
  label = f.label;
  type = f.type;
  read_only = is_read_only f;
  required = f.required;
  validation = f.validation;
  options = lookup_options f.lookup;
  format = f.format;
  placeholder = f.placeholder;
  help_text = f.help_text;
  span = f.span;
  depends_on = f.depends_on;
}

abbrev pub is_hidden : FieldDefinition → Bool
is_hidden f = text_eq f.visibility (codes "hidden")

unfoldable pub resolve_fields : List FieldDefinition → List FieldDescriptor
resolve_fields [] = []
resolve_fields (f ∷ fs) =
    let rest = resolve_fields fs in if is_hidden f then rest else describe_field f ∷ rest

unfoldable pub resolve_sections : CapabilitySet → List SectionDefinition → List SectionDescriptor
unfolding resolve_fields
resolve_sections caps [] = []
resolve_sections caps (sec ∷ secs) =
    let rest = resolve_sections caps secs in
    if not (allowed caps sec.capabilities)
    then rest
    else record {
      id = sec.id;
      title = sec.title;
      layout = sec.layout;
      columns = sec.columns;
      collapsible = sec.collapsible;
      collapsed = sec.collapsed;
      fields = resolve_fields sec.fields;
    }
      ∷ rest

-- A data source with a handler is one of the sdk.
abbrev pub source_binding : DataSourceDefinition → OperationBinding
source_binding ds = record {
  type = if is_empty ds.handler then codes "openapi" else codes "sdk";
  operation_id = ds.operation_id;
  service_id = ds.service_id;
  handler = ds.handler;
}
