-- ===== src/Transport/Interface.antt =====
-- What the handlers of internal/transport call: Dependencies of router.go, and encoding/json.
use thesa.Prelude.{Option, List}
use thesa.Prelude.Text.{Text}
use thesa.Prelude.Maps.{Map}
use thesa.Value.{Value}
use thesa.Errors.{Result, Error}
use thesa.Context.{RequestContext, CommandInput, DataParams, Pagination, Exec}
use thesa.Capability.{CapabilitySet}
use thesa.Registry.{Snapshot}
use thesa.Command.Response.{CommandResponse}
use thesa.Search.Provider.{SearchResponse}
use thesa.Search.Lookup.{LookupResponse}
use thesa.Metadata.Descriptor.{PageDescriptor, FormDescriptor, DataResponse}
use thesa.Metadata.Menu.{NavigationNode}
use thesa.Metadata.Schema.{SchemaResponse}

-- The providers that the handlers call. A search that panics returns `none`; a command returns its
-- response and an error, `none` where it is nil. The decoders are those of encoding/json.
pub record Dependencies (S : Type 0) : Type 0 where
  pub registry : Snapshot
  pub capability_resolver : RequestContext → Exec S CapabilitySet
  pub get_menu : RequestContext → CapabilitySet → S → List NavigationNode × S
  pub get_page : CapabilitySet → Text → Result PageDescriptor
  pub get_page_data : RequestContext → CapabilitySet → Text → DataParams → Exec S DataResponse
  pub get_form : CapabilitySet → Text → Result FormDescriptor
  pub get_form_data : RequestContext → CapabilitySet → Text → Map Text → Exec S (Option (Map Value))
  pub get_schema : Text → Result SchemaResponse
  pub get_resource_list : RequestContext → CapabilitySet → Text → DataParams → Exec S DataResponse
  pub get_resource_item : RequestContext → CapabilitySet → Text → Text → Exec S (Map Value)
  pub execute :
      RequestContext
      → CapabilitySet
      → Text
      → CommandInput
      → S
      → (CommandResponse × Option Error) × S
  pub search : RequestContext → CapabilitySet → Text → Pagination → Exec S (Option SearchResponse)
  pub get_lookup : RequestContext → Text → Text → Exec S LookupResponse
  pub decode_command : Text → Option CommandInput
  pub decode_action : Text → Option (Option (Map Value))
  pub app_version : Text
