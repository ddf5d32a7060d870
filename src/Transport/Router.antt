-- ===== src/Transport/Router.antt =====
-- internal/transport/router.go: the routes, each behind the chain of its middleware.
pub mod Laws
use thesa.Prelude.{Option, some, List, [], ◌∷◌}
use thesa.Prelude.Int.{ℤ}
use thesa.Prelude.Text.{Text, codes}
use thesa.Context.{RequestContext, Exec}
use thesa.Capability.{CapabilitySet}
use thesa.Transport.Http.{HttpHandler, Middleware}
use thesa.Transport.Middleware.{
  recovery, request_id, security_headers, inject_trace_context, build_request_context,
  resolve_capabilities, handler_timeout, request_logging, chain_middleware,
}
use thesa.Transport.Interface.{Dependencies}
use thesa.Transport.Handlers.{
  handle_capabilities, handle_navigation, handle_get_page, handle_get_page_data, handle_get_form,
  handle_get_form_data, handle_get_schema, handle_get_resource, handle_get_resource_item,
  handle_command, handle_action, handle_search, handle_resource_search, handle_lookup,
}

-- The chain around each route. `auth` is the frame library's middleware, or the identity for nil.
unfoldable pub auth_chain :
    {S : Type 0} → Middleware S → Option (RequestContext → Exec S CapabilitySet) → ℤ → Middleware S
unfolding chain_middleware
auth_chain auth resolver timeout = chain_middleware (
    auth
    ∷ build_request_context
    ∷ resolve_capabilities resolver
    ∷ handler_timeout timeout
    ∷ request_logging
    ∷ [])

module _ {S : Type 0} (auth : Middleware S) (timeout : ℤ) (deps : Dependencies S)
    (handle_upload handle_download : HttpHandler S) where
  abbrev pub chained : HttpHandler S → HttpHandler S
  chained handler = auth_chain auth (some deps.capability_resolver) timeout handler

  -- The patterns of the mux and their handlers; the two that pass files through are parameters.
  unfoldable pub routes : List (Text × HttpHandler S)
  routes =
      (codes "GET /ui/capabilities", chained (handle_capabilities deps))
      ∷ (codes "GET /ui/navigation", chained (handle_navigation deps))
      ∷ (codes "GET /ui/pages/{pageId}", chained (handle_get_page deps))
      ∷ (codes "GET /ui/pages/{pageId}/data", chained (handle_get_page_data deps))
      ∷ (codes "GET /ui/forms/{formId}", chained (handle_get_form deps))
      ∷ (codes "GET /ui/forms/{formId}/data", chained (handle_get_form_data deps))
      ∷ (codes "GET /ui/schemas/{schemaId}", chained (handle_get_schema deps))
      ∷ (codes "POST /ui/commands/{commandId}", chained (handle_command deps))
      ∷ (codes "POST /ui/actions/{actionId}", chained (handle_action deps))
      ∷ (codes "GET /ui/resources/{resourceType}/search", chained (handle_resource_search deps))
      ∷ (codes "GET /ui/resources/{resourceType}/{id}", chained (handle_get_resource_item deps))
      ∷ (codes "GET /ui/resources/{resourceType}", chained (handle_get_resource deps))
      ∷ (codes "GET /ui/search", chained (handle_search deps))
      ∷ (codes "GET /ui/lookups/{lookupId}", chained (handle_lookup deps))
      ∷ (codes "POST /ui/upload", chained handle_upload)
      ∷ (codes "GET /ui/download/{fileId}", chained handle_download)
      ∷ []

  module _ (id_string : S → Text × S) (mux : List (Text × HttpHandler S) → HttpHandler S) where
    -- Below the recovery. `mux` is net/http's ServeMux: the handler that serves a list of patterns.
    unfoldable pub inner_router : HttpHandler S
    inner_router = request_id id_string (security_headers (inject_trace_context (mux routes)))

    unfoldable pub new_router : HttpHandler S
    new_router = recovery inner_router
