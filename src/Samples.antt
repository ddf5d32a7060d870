-- ===== src/Samples.antt =====
-- Small inputs for the tests: an orders domain, its caller, a backend and a clock.
pub mod Shop
use thesa.Prelude.{ℕ, suc, ◌-◌, true, none, some, List, [], ◌∷◌, refl, ltb}
use thesa.Prelude.Int.{pos}
use thesa.Prelude.Text.{Text, codes}
use thesa.Errors.{ok}
use thesa.Value.{Value, str, arr, obj, of_list, of_map}
use thesa.Definition.{
  OperationBinding, InputMapping, CommandDefinition, SearchDefinition, LookupDefinition,
  DomainDefinition,
}
use thesa.Context.{Go, RequestContext, CommandInput, OperationInvoker}
use thesa.Capability.{CapabilitySet}
use thesa.Registry.{Snapshot, replace}
use thesa.Search.Items.{Floats}

abbrev print_value : Value → Text
print_value (str s) = s
print_value v = codes "value"

-- Text functions that serve for the small inputs.
abbrev pub go : Go
go = record {
  sprint = print_value;
  quote = λ t. t;
  to_lower = λ t. t;
  itoa = λ z. codes "200";
  parse_float = λ t. none;
  parse_error = λ t. t;
  int_of_float = λ f. pos 0;
  sprint-str = λ s. refl;
}

-- Scores are numbers.
abbrev pub floats : Floats
floats = record {
  of_int = λ z. 1;
  mul = λ a b. a;
  div = λ a b. a;
  sub = λ a b. a - b;
  gt = λ a b. ltb b a;
}

abbrev pub caller : RequestContext
caller = record {
  subject_id = codes "ann";
  email = codes "ann@shop";
  tenant_id = codes "shop";
  partition_id = codes "eu";
  roles = codes "clerk" ∷ [];
  claims = [];
  session_id = [];
  device_id = [];
  correlation_id = [];
  trace_id = [];
  span_id = [];
  locale = [];
  timezone = [];
  token = codes "secret";
}

abbrev pub caps : CapabilitySet
caps = (codes "orders:*", true) ∷ []

abbrev pub binding : OperationBinding
binding = record {
  type = codes "sdk";
  operation_id = [];
  service_id = [];
  handler = codes "orders";
}

abbrev pub mapping : InputMapping
mapping = record {
  path_params = (codes "id", codes "input.id") ∷ [];
  query_params = (codes "mode", codes "'fast'") ∷ [];
  header_params = (codes "X-User", codes "context.subject_id") ∷ [];
  body_mapping = codes "projection";
  body_template = [];
  field_projection = (codes "order_id", codes "input.id") ∷ [];
}

abbrev pub ship : CommandDefinition
ship = record {
  id = codes "ship";
  capabilities = codes "orders:ship" ∷ [];
  operation = binding;
  input = mapping;
  output = record { type = []; fields = []; error_map = []; success_message = [] };
  idempotency = none;
}

abbrev pub search_orders : SearchDefinition
search_orders = record {
  id = codes "find";
  domain = codes "orders";
  capabilities = codes "orders:view" ∷ [];
  operation = binding;
  result_mapping = record {
    items_path = [];
    title_field = codes "name";
    subtitle_field = [];
    category_field = [];
    icon_field = [];
    route = codes "/o/{id}";
    id_field = codes "id";
  };
  weight = pos 1;
  max_results = pos 5;
}

abbrev pub states : LookupDefinition
states = record {
  id = codes "states";
  operation = binding;
  label_field = codes "name";
  value_field = codes "id";
  search_field = [];
  cache = some (record { ttl = []; scope = codes "tenant" });
}

abbrev pub orders : DomainDefinition
orders = record {
  domain = codes "orders";
  version = codes "1";
  navigation = record { label = []; icon = []; order = pos 0; capabilities = []; children = [] };
  pages = [];
  forms = [];
  commands = ship ∷ [];
  searches = search_orders ∷ [];
  lookups = states ∷ [];
  checksum = codes "c1";
  source_file = [];
}

abbrev pub hash : Text → Text
hash t = t

abbrev pub registry : Snapshot
registry = replace hash (orders ∷ [])

abbrev pub input : CommandInput
input = record { input = some ((codes "id", str (codes "7")) ∷ []); route_params = none }

abbrev pub order_item : Value
order_item = obj (of_map ((codes "id", str (codes "7")) ∷ (codes "name", str (codes "seven")) ∷ []))

-- The world counts the calls; it also serves as the clock.
abbrev pub backend : OperationInvoker ℕ
backend = record {
  supports = λ b. true;
  invoke = λ rctx b inp w. (
    ok (record { status_code = pos 200; body = arr (of_list (order_item ∷ [])); headers = [] }),
    suc w,
  );
}

abbrev pub invokers : List (OperationInvoker ℕ)
invokers = backend ∷ []
