-- ===== src/Transport/Providers.antt =====
-- The providers behind the handlers: those of the other modules, as cmd/bff/main.go wires them. The
-- capability resolver and the lookups, which keep a cache in the state, are parameters.
use thesa.Prelude.{Bool, Option, some, List}
use thesa.Prelude.Text.{Text}
use thesa.Prelude.Maps.{Map}
use thesa.Value.{Value}
use thesa.Definition.{SearchDefinition}
use thesa.Context.{Go, RequestContext, CommandInput, OperationInvoker, Exec}
use thesa.Capability.{CapabilitySet}
use thesa.OpenApi.{Index}
use thesa.Registry.{Snapshot}
use thesa.Command.Executor.{execute}
use thesa.Search.Items.{Floats, SearchResult}
use thesa.Search.Provider.{SearchProvider, search}
use thesa.Search.Lookup.{LookupResponse}
use thesa.Metadata.Form.{get_form_descriptor, get_form_data}
use thesa.Metadata.Page.{get_page_descriptor, get_page_data}
use thesa.Metadata.Menu.{get_menu}
use thesa.Metadata.Menu.Order.{Sorting}
use thesa.Metadata.Resource.{get_resource_list, get_resource_item}
use thesa.Metadata.Schema.{get_schema}
use thesa.Transport.Interface.{Dependencies}

module _ {W : Type 0} (go : Go) (floats : Floats) (sorting : Sorting) (timed_out : W → Bool)
    (arrive : List SearchDefinition → List SearchDefinition)
    (by_score : List SearchResult → List SearchResult) (sp : SearchProvider)
    (decode_command : Text → Option CommandInput)
    (decode_action : Text → Option (Option (Map Value))) (version : Text) where
  abbrev pub providers :
      (RequestContext → Exec W CapabilitySet)
      → (RequestContext → Text → Text → Exec W LookupResponse)
      → List (OperationInvoker W)
      → Index
      → Snapshot
      → Dependencies W
  providers resolve lookups invokers index registry = record {
    registry = registry;
    capability_resolver = resolve;
    get_menu = λ rctx caps. get_menu go (some invokers) rctx caps sorting registry;
    get_page = get_page_descriptor go registry;
    get_page_data = get_page_data go invokers registry;
    get_form = get_form_descriptor go registry;
    get_form_data = get_form_data go invokers registry;
    get_schema = get_schema go registry;
    get_resource_list = get_resource_list go index invokers registry;
    get_resource_item = get_resource_item go index invokers registry;
    execute = execute go registry invokers (some index);
    search = search go floats timed_out arrive by_score invokers sp registry;
    get_lookup = lookups;
    decode_command = decode_command;
    decode_action = decode_action;
    app_version = version;
  }
