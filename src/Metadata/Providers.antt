-- ===== src/Metadata/Providers.antt =====
-- The theorems on forms, pages, menus, resources and schemas at the shop.
use thesa.Prelude.{ℕ, suc, ◌∷◌, ◌≡◌, ◌↔◌, some, List, [], refl, In, true}
use thesa.Prelude.Int.{pos}
use thesa.Prelude.Text.{codes, text_eq, has_prefix, has_suffix}
use thesa.Prelude.Strings.{contains, cut_byte}
use thesa.Prelude.Maps.{lookup, insert}
use thesa.Value.{str, arr, obj, of_map, of_list, as_map}
use thesa.Errors.{Error, ok, err, new_not_found}
use thesa.Definition.{FormDefinition, PageDefinition}
use thesa.Context.{InvocationResult, OperationInvoker}
use thesa.Capability.{allowed, has_all, has, match_wildcard}
use thesa.Sets.{id_set}
use thesa.OpenApi.{all_operation_ids}
use thesa.Prelude.Sort.{sort_texts}
use thesa.Registry.{replace, load, index, get_form, get_page, all_domains}
use thesa.Invoker.{invoke}
use thesa.Metadata.Descriptor.{FormDescriptor}
use thesa.Metadata.Form.{
  get_form_descriptor, get_form_data, no_form, load_form, filter_to_fields, collect_form_fields,
}
use thesa.Metadata.Form.Laws.{AllKeys, field_names, get_form_data-refused, get_form_data-fields}
use thesa.Metadata.Page.{get_page_descriptor, get_page_data, no_page, describe_page}
use thesa.Metadata.Page.Data.{apply_response_mapping}
use thesa.Metadata.Page.Rows.{Counts, apply_response_mapping-Counts}
use thesa.Metadata.Page.Laws.{Shown, get_page_descriptor-Shown, get_page_data-refused}
use thesa.Metadata.Resource.{
  ResourceIndex, find_resource, find_in, find_list_page, find_get_operation, id_prefix,
  get_resource_list,
}
use thesa.Metadata.Resource.Laws.{get_resource_list-get_page_data}
use thesa.Metadata.Schema.{get_schema}
use thesa.Metadata.Schema.Laws.{IsUnknown, get_schema_refused_iff}
use thesa.Samples.{go, caller, caps, order_item}
use thesa.Samples.Shop.{shop_registry, shop_index, order_page, params, source}

abbrev detail : InvocationResult
detail = record {
  status_code = pos 200;
  body = obj (
      of_map (
        (codes "id", str (codes "7"))
        ∷ (codes "cost", str (codes "3"))
        ∷ (codes "state", str (codes "open"))
        ∷ (codes "items", arr (of_list (order_item ∷ [])))
        ∷ []));
  headers = [];
}

abbrev shop_backend : List (OperationInvoker ℕ)
shop_backend = record { supports = λ b. true; invoke = λ rctx b inp w. (ok detail, suc w) } ∷ []

no_bill :
    get_form_descriptor go shop_registry caps (codes "bill")
    ≡ err (new_not_found (no_form go (codes "bill")))
unfolding get_form_descriptor get_form lookup replace load index insert text_eq
no_bill = refl

get_form_data-refused_example :
    get_form_data go shop_backend shop_registry caller caps (codes "bill") [] 0
    ≡ (err (new_not_found (no_form go (codes "bill"))), 0)
get_form_data-refused_example =
    get_form_data-refused go shop_backend shop_registry caller caps (codes "bill") [] 0
      (new_not_found (no_form go (codes "bill"))) no_bill

-- The answer holds the hidden field too.
order_data :
    get_form_data go shop_backend shop_registry caller caps (codes "order") [] 0
    ≡ (ok (some ((codes "id", str (codes "7")) ∷ (codes "cost", str (codes "3")) ∷ [])), 1)
unfolding get_form_data get_form lookup replace load index insert text_eq allowed has_all has
    match_wildcard has_suffix has_prefix load_form invoke filter_to_fields collect_form_fields
    id_set
order_data = refl

get_form_data-fields_example :
    ((desc : FormDescriptor) × (get_form_descriptor go shop_registry caps (codes "order")
        ≡ ok desc))
    × ((def : FormDefinition) × (get_form shop_registry (codes "order") ≡ some def)
        × AllKeys
            (λ k. In k (field_names def.sections))
            ((codes "id", str (codes "7")) ∷ (codes "cost", str (codes "3")) ∷ []))
get_form_data-fields_example =
    get_form_data-fields go shop_backend shop_registry caller caps (codes "order") [] 0
      ((codes "id", str (codes "7")) ∷ (codes "cost", str (codes "3")) ∷ []) 1 order_data

page_served :
    get_page_descriptor go shop_registry caps (codes "orders.list")
    ≡ ok (describe_page go caps order_page)
unfolding get_page_descriptor get_page lookup replace load index insert text_eq allowed has_all has
    match_wildcard has_suffix has_prefix
page_served = refl

get_page_descriptor-Shown_example :
    (def : PageDefinition) × (get_page shop_registry (codes "orders.list") ≡ some def)
    × Shown go caps def (describe_page go caps order_page)
get_page_descriptor-Shown_example =
    get_page_descriptor-Shown go shop_registry caps (codes "orders.list")
      (describe_page go caps order_page) page_served

no_bills :
    get_page_descriptor go shop_registry caps (codes "bills")
    ≡ err (new_not_found (no_page go (codes "bills")))
unfolding get_page_descriptor get_page lookup replace load index insert text_eq
no_bills = refl

get_page_data-refused_example :
    get_page_data go shop_backend shop_registry caller caps (codes "bills") params 0
    ≡ (err (new_not_found (no_page go (codes "bills"))), 0)
get_page_data-refused_example =
    get_page_data-refused go shop_backend shop_registry caller caps (codes "bills") params 0
      (new_not_found (no_page go (codes "bills"))) no_bills

apply_response_mapping-Counts_example :
    Counts go
      (as_map detail.body)
      source.mapping
      (apply_response_mapping go detail source.mapping params).data'
    × ((apply_response_mapping go detail source.mapping params).data'.page ≡ pos 2)
    × ((apply_response_mapping go detail source.mapping params).data'.page_size ≡ pos 25)
apply_response_mapping-Counts_example =
    apply_response_mapping-Counts go detail source.mapping params

abbrev orders_index : ResourceIndex
orders_index = record {
  list_page = order_page;
  service_id = codes "shop";
  get_op_id = codes "get_order";
}

found_orders : find_resource go shop_index shop_registry (codes "orders") ≡ some orders_index
unfolding find_resource find_in all_domains replace load insert text_eq cut_byte find_get_operation
    all_operation_ids sort_texts lookup has_prefix contains has_suffix find_list_page id_prefix
found_orders = refl

page_loaded : get_page shop_registry (codes "orders.list") ≡ some order_page
unfolding get_page lookup replace load index insert text_eq
page_loaded = refl

may_list : allowed caps order_page.capabilities ≡ true
unfolding allowed has_all has lookup text_eq match_wildcard has_suffix has_prefix
may_list = refl

get_resource_list-get_page_data_example :
    get_resource_list go shop_index shop_backend shop_registry caller caps (codes "orders") params 0
    ≡ get_page_data go shop_backend shop_registry caller caps (codes "orders.list") params 0
get_resource_list-get_page_data_example =
    get_resource_list-get_page_data go shop_index shop_backend shop_registry caller caps
      (codes "orders") params orders_index 0 found_orders page_loaded may_list

get_schema_refused_iff_example :
    ((e : Error) × (get_schema go shop_registry (codes "bills") ≡ err e))
    ↔ IsUnknown go shop_registry
        (codes "bills")
        (get_form shop_registry (codes "bills"))
        (get_page shop_registry (codes "bills"))
get_schema_refused_iff_example = get_schema_refused_iff go shop_registry (codes "bills")
