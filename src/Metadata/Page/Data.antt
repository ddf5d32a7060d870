-- ===== src/Metadata/Page/Data.antt =====
-- internal/metadata/page.go: the query of a data request, and the rows of its response.
use thesa.Prelude.{
  Bool, not, ◌&&◌, Option, none, some, List, [], ◌∷◌, map, is_empty, length, if◌then◌else◌,
}
use thesa.Prelude.Int.{ℤ, pos, ltb_ℤ}
use thesa.Prelude.Text.{Text, codes}
use thesa.Prelude.Maps.{Map, insert}
use thesa.Value.{Value, null, float, as_map, as_list}
use thesa.Definition.{ResponseMappingDefinition}
use thesa.Context.{Go, InvocationInput, InvocationResult, DataParams}
use thesa.Command.Path.{navigate_path}
use thesa.Search.Items.{to_map_slice}
use thesa.Metadata.Descriptor.{DataPayload, DataResponse}
use thesa.Metadata.Form.{rename_fields}

abbrev pub put_unless : Bool → Text → Text → Map Text → Map Text
put_unless absent k v query = if absent then query else insert k v query

-- `for k, v := range params.Filters { query[k] = v }`
unfoldable pub put_all : Map Text → Map Text → Map Text
put_all [] query = query
put_all ((k, v) ∷ filters) query = put_all filters (insert k v query)

module _ (go : Go) where
  -- The query before the filters.
  abbrev pub base_query : DataParams → Map Text
  base_query params = put_unless (is_empty params.query) (codes "q") params.query (
      put_unless (is_empty params.sort_dir) (codes "sort_dir") params.sort_dir (
        put_unless (is_empty params.sort) (codes "sort") params.sort (
          put_unless (not (ltb_ℤ (pos 0) params.page_size)) (codes "page_size")
            (go.itoa params.page_size)
            (put_unless (not (ltb_ℤ (pos 0) params.page)) (codes "page") (go.itoa params.page)
              []))))

  unfoldable pub build_data_input : DataParams → InvocationInput
  unfolding put_all
  build_data_input params = record {
    path_params = [];
    query_params = put_all params.filters (base_query params);
    headers = [];
    body = null;
  }

-- An empty path finds nothing.
unfoldable pub extract_path : Map Value → Text → Value
extract_path data' path = if is_empty path then null else navigate_path data' path

abbrev pub to_rows : Option (List Value) → List (Map Value)
to_rows none = []
to_rows (some vs) = to_map_slice vs

unfoldable pub apply_field_map : List (Map Value) → Map Text → List (Map Value)
apply_field_map items field_map = map (λ item. rename_fields item field_map []) items

module _ (go : Go) where
  -- A float64 only.
  abbrev pub count_of : Value → ℤ
  count_of (float f) = go.int_of_float f
  count_of _ = pos 0

  abbrev pub is_zero : ℤ → Bool
  is_zero z = not (ltb_ℤ z (pos 0)) && not (ltb_ℤ (pos 0) z)

  abbrev pub total_of : ℤ → List (Map Value) → ℤ
  total_of total items = if is_zero total then pos (length items) else total

  abbrev pub rows_of : Map Value → ResponseMappingDefinition → List (Map Value)
  rows_of body mapping =
      let items = to_rows (as_list (extract_path body mapping.items_path)) in
      if is_empty mapping.field_map then items else apply_field_map items mapping.field_map

  abbrev pub mapped_total : Map Value → ResponseMappingDefinition → ℤ
  mapped_total body mapping =
      if is_empty mapping.total_path then pos 0 else count_of (extract_path body mapping.total_path)

  abbrev pub payload_of : Option (Map Value) → ResponseMappingDefinition → DataParams → DataPayload
  payload_of none mapping params = record {
    items = [];
    total_count = pos 0;
    page = params.page;
    page_size = params.page_size;
  }
  payload_of (some body) mapping params = record {
    items = rows_of body mapping;
    total_count = total_of (mapped_total body mapping) (rows_of body mapping);
    page = params.page;
    page_size = params.page_size;
  }

  unfoldable pub apply_response_mapping :
      InvocationResult → ResponseMappingDefinition → DataParams → DataResponse
  unfolding apply_field_map
  apply_response_mapping result mapping params = record {
    data' = payload_of (as_map result.body) mapping params;
  }
