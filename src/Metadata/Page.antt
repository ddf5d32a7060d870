-- ===== src/Metadata/Page.antt =====
-- internal/metadata/page.go: pages, their tables, and the data of a table.
pub mod Data
pub mod Renames
pub mod Rows
pub mod Laws
use thesa.Prelude.{not, Option, none, some, List, [], ◌++◌, map, if◌then◌else◌}
use thesa.Prelude.Int.{pos, leb_ℤ}
use thesa.Prelude.Text.{Text, codes}
use thesa.Errors.{Result, ok, err, new_not_found, new_forbidden, new_bad_request}
use thesa.Definition.{
  PageDefinition, TableDefinition, ColumnDefinition, FilterDefinition, FilterOptionsDefinition,
  LinkDefinition, DataSourceDefinition,
}
use thesa.Context.{Go, RequestContext, InvocationResult, OperationInvoker, Exec, DataParams}
use thesa.Capability.{CapabilitySet, allowed}
use thesa.Registry.{Snapshot, get_page}
use thesa.Invoker.{invoke}
use thesa.Search.Lookup.{OptionDescriptor}
use thesa.Metadata.Action.{resolve_actions}
use thesa.Metadata.Descriptor.{
  PageDescriptor, TableDescriptor, ColumnDescriptor, FilterDescriptor, LinkDescriptor, DataResponse,
}
use thesa.Metadata.Section.{resolve_sections, source_binding, static_options}
use thesa.Metadata.Page.Data.{build_data_input, apply_response_mapping}

abbrev link_of : Option LinkDefinition → Option LinkDescriptor
link_of none = none
link_of (some l) = some (record { route = l.route; params = l.params })

abbrev column_of : ColumnDefinition → ColumnDescriptor
column_of col = record {
  field = col.field;
  label = col.label;
  type = col.type;
  sortable = col.sortable;
  format = col.format;
  width = col.width;
  link = link_of col.link;
  status_map = col.status_map;
}

abbrev filter_options : Option FilterOptionsDefinition → List OptionDescriptor
filter_options none = []
filter_options (some o) = static_options o.static

abbrev filter_of : FilterDefinition → FilterDescriptor
filter_of f = record {
  field = f.field;
  label = f.label;
  type = f.type;
  operator = f.operator;
  options = filter_options f.options;
  default = f.default;
}

module _ (go : Go) where
  unfoldable pub resolve_table : CapabilitySet → TableDefinition → Text → TableDescriptor
  resolve_table caps table page_id = record {
    columns = map column_of table.columns;
    filters = map filter_of table.filters;
    row_actions = resolve_actions go caps table.row_actions none;
    bulk_actions = resolve_actions go caps table.bulk_actions none;
    data_endpoint = codes "/api/pages/" ++ (page_id ++ codes "/data");
    default_sort = table.default_sort;
    sort_dir = table.sort_dir;
    page_size = if leb_ℤ table.page_size (pos 0) then pos 25 else table.page_size;
    selectable = table.selectable;
  }

  abbrev table_of : CapabilitySet → Option TableDefinition → Text → Option TableDescriptor
  table_of caps none page_id = none
  table_of caps (some table) page_id = some (resolve_table caps table page_id)

  abbrev pub describe_page : CapabilitySet → PageDefinition → PageDescriptor
  describe_page caps def = record {
    id = def.id;
    title = def.title;
    route = def.route;
    layout = def.layout;
    refresh_interval = def.refresh_interval;
    breadcrumb = map (λ b. record { label = b.label; route = b.route }) def.breadcrumb;
    table = table_of caps def.table def.id;
    sections = resolve_sections caps def.sections;
    actions = resolve_actions go caps def.actions none;
  }

  abbrev pub no_page : Text → Text
  no_page page_id = codes "page " ++ (go.quote page_id ++ codes " not found")

  abbrev pub no_page_access : Text → Text
  no_page_access page_id = codes "insufficient capabilities for page " ++ go.quote page_id

  abbrev pub page_found : CapabilitySet → Text → Option PageDefinition → Result PageDescriptor
  page_found caps page_id none = err (new_not_found (no_page page_id))
  page_found caps page_id (some def) =
      if not (allowed caps def.capabilities)
      then err (new_forbidden (no_page_access page_id))
      else ok (describe_page caps def)

  unfoldable pub get_page_descriptor : Snapshot → CapabilitySet → Text → Result PageDescriptor
  get_page_descriptor registry caps page_id = page_found caps page_id (get_page registry page_id)

  abbrev pub respond :
      DataSourceDefinition → DataParams → Result InvocationResult → Result DataResponse
  respond ds params (err e) = err e
  respond ds params (ok result) = ok (apply_response_mapping go result ds.mapping params)

  module _ {W : Type 0} (invokers : List (OperationInvoker W)) where
    unfoldable pub fetch_data :
        RequestContext → DataSourceDefinition → DataParams → Exec W DataResponse
    fetch_data rctx ds params w =
        let (r, w') = invoke go invokers rctx (source_binding ds) (build_data_input go params) w in
        (respond ds params r, w')

    abbrev pub table_data :
        RequestContext → Text → DataParams → Option TableDefinition → Exec W DataResponse
    table_data rctx page_id params none w = (
      err (new_bad_request (codes "page " ++ (go.quote page_id ++ codes " has no data source"))),
      w,
    )
    table_data rctx page_id params (some table) w = fetch_data rctx table.data_source params w

    abbrev pub page_data_found :
        RequestContext
        → CapabilitySet
        → Text
        → DataParams
        → Option PageDefinition
        → Exec W DataResponse
    page_data_found rctx caps page_id params none w = (err (new_not_found (no_page page_id)), w)
    page_data_found rctx caps page_id params (some def) w =
        if not (allowed caps def.capabilities)
        then (err (new_forbidden (no_page_access page_id)), w)
        else table_data rctx page_id params def.table w

    unfoldable pub get_page_data :
        Snapshot → RequestContext → CapabilitySet → Text → DataParams → Exec W DataResponse
    get_page_data registry rctx caps page_id params w =
        page_data_found rctx caps page_id params (get_page registry page_id) w
