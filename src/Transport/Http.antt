-- ===== src/Transport/Http.antt =====
-- What the handlers of internal/transport see of net/http: a request with the values of its context,
-- the wrappers around the response writer, and the response that is written so far.
use thesa.Prelude.{ℕ, Bool, false, Option, none, some, List, [], ◌∷◌, ◌++◌}
use thesa.Prelude.Int.{ℤ}
use thesa.Prelude.Text.{Text, codes}
use thesa.Prelude.Maps.{Map, lookup, insert}
use thesa.Value.{Value}
use thesa.Errors.{ErrorEnvelope, Error}
use thesa.Context.{RequestContext}
use thesa.Capability.{CapabilitySet}
use thesa.Command.Response.{CommandResponse}
use thesa.Search.Provider.{SearchResponse}
use thesa.Search.Lookup.{LookupResponse}
use thesa.Metadata.Descriptor.{PageDescriptor, FormDescriptor, DataResponse}
use thesa.Metadata.Menu.{NavigationNode}
use thesa.Metadata.Schema.{SchemaResponse}
use thesa.Transport.{write_error}

-- What security.AuthenticationClaims of the frame library says.
pub record AuthenticationClaims : Type 0 where
  pub profile_id : Text
  pub tenant_id : Text
  pub partition_id : Text
  pub roles : List Text
  pub session_id : Text
  pub ext : Map Value

-- Headers by their canonical names, path values and query as parsed by net/http. `trace` is the
-- trace id of the context's span; the last four are values that the middleware puts there.
pub record Request : Type 0 where
  pub headers : Map Text
  pub path_values : Map Text
  pub query : Map (List Text)
  pub body : Text
  pub trace : Option Text
  pub auth_claims : Option AuthenticationClaims
  pub jwt : Text
  pub correlation_id : Text
  pub request_context : Option RequestContext
  pub capabilities : CapabilitySet
  pub timeout : Option ℤ

-- What WriteJSON is given.
pub data Payload : Type 0 where
  error_payload : ErrorEnvelope → Payload
  capabilities_payload : Text → CapabilitySet → List Text → Text → Payload
  navigation_payload : List NavigationNode → Payload
  page_payload : PageDescriptor → Payload
  data_payload : DataResponse → Payload
  form_payload : FormDescriptor → Payload
  map_payload : Option (Map Value) → Payload
  schema_payload : SchemaResponse → Payload
  command_payload : CommandResponse → Payload
  action_payload : (id type navigate_to form_id : Text) → Map Text → Payload
  search_payload : SearchResponse → Payload
  lookup_payload : LookupResponse → Payload

-- The wrappers of the writer, the outermost first: traceWriter and statusWriter.
pub data Layer : Type 0 where
  trace_writer : Option Text → Layer
  status_writer : Layer

-- The status is that of the first WriteHeader.
pub record Response : Type 0 where
  pub status : Option ℕ
  pub headers : Map Text
  pub bodies : List Payload

abbrev pub set_header : Text → Text → Response → Response
set_header k v res = record res { headers = insert k v res.headers }

abbrev first_status : Option ℕ → ℕ → ℕ
first_status none status = status
first_status (some s) status = s

unfoldable pub write_json : ℕ → Payload → Response → Response
write_json status body res = record {
  status = some (first_status res.status status);
  headers =
      insert (codes "X-Content-Type-Options") (codes "nosniff")
        (insert (codes "Content-Type") (codes "application/json; charset=utf-8") res.headers);
  bodies = res.bodies ++ body ∷ [];
}

-- `w.(*traceWriter)` looks at the outermost wrapper alone.
abbrev pub trace_of : List Layer → Option Text
trace_of (trace_writer trace ∷ layers) = trace
trace_of _ = none

unfoldable pub write_error_to : List Layer → Error → Response → Response
unfolding write_json
write_error_to layers e res =
    write_json (write_error (trace_of layers) e).status
      (error_payload (write_error (trace_of layers) e).error) res

-- What a handler leaves, and whether it panicked.
pub record Served (S : Type 0) : Type 0 where
  pub panicked : Bool
  pub response : Response
  pub state : S

-- http.Handler
abbrev pub HttpHandler : Type 0 → Type 0
HttpHandler S = List Layer → Request → Response → S → Served S

abbrev pub Middleware : Type 0 → Type 0
Middleware S = HttpHandler S → HttpHandler S

abbrev pub done : {S : Type 0} → Response → S → Served S
done res s = record { panicked = false; response = res; state = s }

abbrev pub header_of : Request → Text → Text
header_of req name = elim (lookup name req.headers) [ none ↦ [] | some v ↦ v ]
