-- ===== src/Metadata/Resource.antt =====
-- internal/metadata/resource.go: data by the type of a resource.
pub mod Laws
use thesa.Prelude.{
  Bool, not, ◌&&◌, ◌||◌, ◌-◌, Option, none, some, List, [], ◌∷◌, ◌++◌, is_empty, length, take,
  if◌then◌else◌,
}
use thesa.Prelude.Text.{Text, codes, text_eq, has_prefix, has_suffix}
use thesa.Prelude.Strings.{contains, cut_byte}
use thesa.Prelude.Maps.{Map}
use thesa.Value.{Value, str, obj, of_map, as_map}
use thesa.Errors.{Result, ok, err, new_not_found, new_forbidden, new_bad_request}
use thesa.Definition.{DomainDefinition, PageDefinition, TableDefinition, OperationBinding}
use thesa.Context.{
  Go, RequestContext, InvocationInput, InvocationResult, OperationInvoker, Exec, DataParams,
}
use thesa.Capability.{CapabilitySet, allowed}
use thesa.OpenApi.{Index, all_operation_ids}
use thesa.Registry.{Snapshot, all_domains}
use thesa.Invoker.{invoke}
use thesa.Metadata.Descriptor.{DataResponse}
use thesa.Metadata.Page.{fetch_data}

-- resourceIndex
pub record ResourceIndex : Type 0 where
  pub list_page : PageDefinition
  pub service_id : Text
  pub get_op_id : Text

-- strings.SplitN(id, ".", 2)[0]
unfoldable pub id_prefix : Text → Text
id_prefix id = elim (cut_byte b'.' id) [ none ↦ id | some (before, after) ↦ before ]

-- strings.TrimSuffix(t, "s")
abbrev pub singular_of : Text → Text
singular_of t = if has_suffix t (codes "s") then take (length t - 1) t else t

abbrev pub lists : Text → Text → PageDefinition → Bool
lists domain resource_type pg =
    (text_eq domain resource_type || text_eq (id_prefix pg.id) resource_type)
    && text_eq pg.layout (codes "table")

abbrev list_page_step :
    Bool
    → PageDefinition
    → Option TableDefinition
    → Option (PageDefinition × Text)
    → Option (PageDefinition × Text)
list_page_step matches pg none rest = rest
list_page_step matches pg (some table) rest =
    if matches then some (pg, table.data_source.service_id) else rest

-- The loop over a domain's pages: the list page and its service.
unfoldable pub find_list_page : Text → Text → List PageDefinition → Option (PageDefinition × Text)
unfolding id_prefix
find_list_page domain resource_type [] = none
find_list_page domain resource_type (pg ∷ pgs) =
    let rest = find_list_page domain resource_type pgs in
    list_page_step (lists domain resource_type pg) pg pg.table rest

-- The id goes into the body.
abbrev pub item_input : Text → InvocationInput
item_input id = record {
  path_params = [];
  query_params = [];
  headers = [];
  body = obj (of_map ((codes "id", str id) ∷ []));
}

abbrev pub item_binding : ResourceIndex → OperationBinding
item_binding idx = record {
  type = codes "openapi";
  operation_id = idx.get_op_id;
  service_id = idx.service_id;
  handler = [];
}

module _ (go : Go) where
  abbrev pub gets : Text → Text → Bool
  gets resource_type op_id =
      has_prefix (go.to_lower op_id) (codes "get")
      && contains (go.to_lower op_id) (go.to_lower (singular_of resource_type))

  abbrev pub first_get : Text → List Text → Text
  first_get resource_type [] = []
  first_get resource_type (op_id ∷ ops) =
      let rest = first_get resource_type ops in if gets resource_type op_id then op_id else rest

  unfoldable pub find_get_operation : Index → Text → Text → Text
  find_get_operation idx service_id resource_type =
      first_get resource_type (all_operation_ids idx service_id)

  module _ (oa_index : Index) where
    abbrev found_page :
        Text → Option (PageDefinition × Text) → Option ResourceIndex → Option ResourceIndex
    found_page resource_type none rest = rest
    found_page resource_type (some (pg, service_id)) rest = some (record {
      list_page = pg;
      service_id = service_id;
      get_op_id = find_get_operation oa_index service_id resource_type;
    })

    unfoldable pub find_in : List DomainDefinition → Text → Option ResourceIndex
    unfolding find_list_page
    find_in [] resource_type = none
    find_in (domain ∷ domains) resource_type =
        let rest = find_in domains resource_type in
        found_page resource_type (find_list_page domain.domain resource_type domain.pages) rest

    unfoldable pub find_resource : Snapshot → Text → Option ResourceIndex
    find_resource registry resource_type = find_in (all_domains registry) resource_type

    abbrev pub no_type : Text → Text
    no_type resource_type = codes "resource type " ++ (go.quote resource_type ++ codes " not found")

    abbrev pub no_type_access : Text → Text
    no_type_access resource_type =
        codes "insufficient capabilities for resource " ++ go.quote resource_type

    abbrev pub item_of : Result InvocationResult → Result (Map Value)
    item_of (err e) = err e
    item_of (ok result) = elim (as_map result.body) [ none ↦ ok [] | some body ↦ ok body ]

    module _ {W : Type 0} (invokers : List (OperationInvoker W)) where
      abbrev pub list_table :
          RequestContext → Text → DataParams → Option TableDefinition → Exec W DataResponse
      list_table rctx resource_type params none w = (
        err (
            new_bad_request
              (codes "resource type " ++ (go.quote resource_type ++ codes " has no data source"))),
        w,
      )
      list_table rctx resource_type params (some table) w =
          fetch_data go invokers rctx table.data_source params w

      abbrev pub list_found :
          RequestContext
          → CapabilitySet
          → Text
          → DataParams
          → Option ResourceIndex
          → Exec W DataResponse
      list_found rctx caps resource_type params none w =
          (err (new_not_found (no_type resource_type)), w)
      list_found rctx caps resource_type params (some idx) w =
          if not (allowed caps idx.list_page.capabilities)
          then (err (new_forbidden (no_type_access resource_type)), w)
          else list_table rctx resource_type params idx.list_page.table w

      unfoldable pub get_resource_list :
          Snapshot → RequestContext → CapabilitySet → Text → DataParams → Exec W DataResponse
      get_resource_list registry rctx caps resource_type params w =
          list_found rctx caps resource_type params (find_resource registry resource_type) w

      abbrev pub fetch_item : RequestContext → Text → Text → ResourceIndex → Exec W (Map Value)
      fetch_item rctx resource_type id idx w =
          if is_empty idx.get_op_id || is_empty idx.service_id
          then (
            err (
                new_not_found
                  (codes "no get operation found for resource type " ++ go.quote resource_type)),
            w,
          )
          else let (r, w') = invoke go invokers rctx (item_binding idx) (item_input id) w in
            (item_of r, w')

      abbrev pub item_found :
          RequestContext → CapabilitySet → Text → Text → Option ResourceIndex → Exec W (Map Value)
      item_found rctx caps resource_type id none w =
          (err (new_not_found (no_type resource_type)), w)
      item_found rctx caps resource_type id (some idx) w =
          if not (allowed caps idx.list_page.capabilities)
          then (err (new_forbidden (no_type_access resource_type)), w)
          else fetch_item rctx resource_type id idx w

      unfoldable pub get_resource_item :
          Snapshot → RequestContext → CapabilitySet → Text → Text → Exec W (Map Value)
      get_resource_item registry rctx caps resource_type id w =
          item_found rctx caps resource_type id (find_resource registry resource_type) w
