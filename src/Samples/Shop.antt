-- ===== src/Samples/Shop.antt =====
-- A domain with a page, a form and a command that the validator accepts, for the tests.
use thesa.Prelude.{true, false, none, some, [], ◌∷◌}
use thesa.Prelude.Int.{pos}
use thesa.Prelude.Text.{Text, codes}
use thesa.Definition.{
  OperationBinding, CommandDefinition, FieldDefinition, SectionDefinition, FormDefinition,
  DataSourceDefinition, ColumnDefinition, TableDefinition, ActionDefinition, PageDefinition,
  NavigationChildDefinition, DomainDefinition,
}
use thesa.Context.{DataParams}
use thesa.OpenApi.{Index, IndexedOperation, operation_key}
use thesa.Registry.{Snapshot, replace}
use thesa.Samples.{hash, mapping}

abbrev pub send : OperationBinding
send = record {
  type = codes "openapi";
  operation_id = codes "sendOrder";
  service_id = codes "shop";
  handler = [];
}

abbrev pub send_order : CommandDefinition
send_order = record {
  id = codes "send";
  capabilities = [];
  operation = send;
  input = mapping;
  output = record { type = []; fields = []; error_map = []; success_message = [] };
  idempotency = none;
}

abbrev field : Text → Text → FieldDefinition
field name visibility = record {
  field = name;
  label = name;
  type = codes "text";
  read_only = [];
  required = true;
  validation = none;
  lookup = none;
  visibility = visibility;
  format = [];
  placeholder = [];
  help_text = [];
  span = pos 1;
  depends_on = [];
}

abbrev pub section : SectionDefinition
section = record {
  id = codes "main";
  title = codes "Main";
  layout = [];
  columns = pos 1;
  capabilities = codes "orders:view" ∷ [];
  collapsible = false;
  collapsed = false;
  fields = field (codes "id") [] ∷ field (codes "cost") (codes "hidden") ∷ [];
}

abbrev pub source : DataSourceDefinition
source = record {
  operation_id = codes "listOrders";
  service_id = codes "shop";
  handler = [];
  mapping = record { items_path = codes "items"; total_path = []; field_map = [] };
}

abbrev pub order_form : FormDefinition
order_form = record {
  id = codes "order";
  title = codes "Order";
  capabilities = codes "orders:view" ∷ [];
  submit_command = codes "send";
  load_source = some source;
  success_route = [];
  success_message = [];
  sections = section ∷ [];
}

abbrev pub send_action : ActionDefinition
send_action = record {
  id = codes "send";
  label = codes "Send";
  icon = [];
  style = [];
  capabilities = codes "orders:send" ∷ [];
  type = codes "command";
  command_id = codes "send";
  navigate_to = [];
  form_id = [];
  confirmation = none;
  conditions = [];
  params = [];
}

abbrev column : ColumnDefinition
column = record {
  field = codes "id";
  label = codes "Id";
  type = codes "text";
  sortable = true;
  filterable = true;
  visible = [];
  format = [];
  width = [];
  link = none;
  status_map = [];
}

abbrev pub table : TableDefinition
table = record {
  data_source = source;
  columns = column ∷ [];
  filters = [];
  row_actions = send_action ∷ [];
  bulk_actions = [];
  default_sort = [];
  sort_dir = [];
  page_size = pos 0;
  selectable = false;
}

abbrev pub order_page : PageDefinition
order_page = record {
  id = codes "orders.list";
  title = codes "Orders";
  route = codes "/orders";
  layout = codes "table";
  capabilities = codes "orders:view" ∷ [];
  refresh_interval = pos 0;
  breadcrumb = [];
  table = some table;
  sections = section ∷ [];
  actions = send_action ∷ [];
}

abbrev child : NavigationChildDefinition
child = record {
  label = codes "Orders";
  icon = [];
  route = codes "/orders";
  page_id = codes "orders.list";
  capabilities = [];
  order = pos 1;
  badge = some (record { operation_id = codes "countOrders"; field = codes "count"; style = [] });
}

abbrev pub shop : DomainDefinition
shop = record {
  domain = codes "shop";
  version = codes "1";
  navigation = record {
    label = codes "Shop";
    icon = [];
    order = pos 1;
    capabilities = codes "orders:view" ∷ [];
    children = child ∷ [];
  };
  pages = order_page ∷ [];
  forms = order_form ∷ [];
  commands = send_order ∷ [];
  searches = [];
  lookups = [];
  checksum = codes "c1";
  source_file = [];
}

abbrev pub operation : Text → IndexedOperation
operation id = record {
  service_id = codes "shop";
  operation_id = id;
  method = codes "GET";
  path_template = codes "/orders/{id}";
  parameters = [];
  required = none;
  base_url = codes "http://shop";
}

abbrev pub shop_index : Index
shop_index = record {
  operations =
      (operation_key (codes "shop") (codes "sendOrder"), operation (codes "sendOrder"))
      ∷ (operation_key (codes "shop") (codes "listOrders"), operation (codes "listOrders"))
      ∷ [];
  by_service = (codes "shop", codes "sendOrder" ∷ codes "get_order" ∷ []) ∷ [];
}

abbrev pub shop_registry : Snapshot
shop_registry = replace hash (shop ∷ [])

abbrev pub params : DataParams
params = record {
  page = pos 2;
  page_size = pos 25;
  sort = [];
  sort_dir = [];
  filters = (codes "state", codes "open") ∷ [];
  query = [];
}
