-- ===== src/Transport/Requests.antt =====
-- Requests to the shop: the theorems on the router, the handlers and the query.
use thesa.Prelude.{ℕ, suc, false, none, some, List, [], ◌∷◌, ◌≡◌, ◌↔◌, refl, All}
use thesa.Prelude.Int.{pos}
use thesa.Prelude.Text.{Text, codes, text_eq, has_prefix, has_suffix}
use thesa.Prelude.Maps.{Map, lookup, insert, DistinctKeys}
use thesa.Errors.{ok, err, new_internal_error, new_not_found}
use thesa.Definition.{PageDefinition}
use thesa.Context.{RequestContext, Exec}
use thesa.Capability.{CapabilitySet, allowed, has_all, has, match_wildcard}
use thesa.Registry.{get_page, all_domains, replace, load, index}
use thesa.Search.Provider.{new_search_provider}
use thesa.Metadata.Menu.Insertion.{insertion}
use thesa.Metadata.Page.{get_page_descriptor, describe_page}
use thesa.Metadata.Page.Laws.{Shown}
use thesa.Transport.{write_error}
use thesa.Transport.Http.{
  Request, error_payload, Response, AuthenticationClaims, write_json, write_error_to, HttpHandler,
  done,
}
use thesa.Transport.Middleware.{
  context_for, inject_trace_context, chain_middleware, build_request_context, resolve_capabilities,
  handler_timeout, request_logging,
}
use thesa.Transport.Query.{query_map}
use thesa.Transport.Query.Laws.{first_of, query_map-lookup}
use thesa.Transport.Interface.{Dependencies}
use thesa.Transport.Actions.{find_action_in_registry}
use thesa.Transport.Handlers.{handle_get_page, path_value}
use thesa.Transport.Actions.Laws.{LacksAction, find_action_in_registry-none}
use thesa.Transport.Providers.{providers}
use thesa.Transport.Pages.{Sends, page_request-Shown}
use thesa.Transport.Router.{auth_chain}
use thesa.Transport.Router.Laws.{after, auth_chain-after, handler_error-trace}
use thesa.Samples.{go, floats, caps, invokers}
use thesa.Samples.Shop.{shop_registry, shop_index, order_page}

abbrev claims : AuthenticationClaims
claims = record {
  profile_id = codes "ann";
  tenant_id = codes "shop";
  partition_id = codes "eu";
  roles = codes "clerk" ∷ [];
  session_id = [];
  ext = [];
}

abbrev query : Map (List Text)
query =
    (codes "filter[state]", codes "open" ∷ codes "shut" ∷ []) ∷ (codes "page", codes "2" ∷ []) ∷ []

abbrev request : Request
request = record {
  headers = [];
  path_values = (codes "pageId", codes "orders.list") ∷ [];
  query = query;
  body = [];
  trace = some (codes "4bf92f");
  auth_claims = some claims;
  jwt = codes "secret";
  correlation_id = [];
  request_context = none;
  capabilities = [];
  timeout = none;
}

abbrev fresh : Response
fresh = record { status = none; headers = []; bodies = [] }

-- The state counts the resolutions.
abbrev resolve : RequestContext → Exec ℕ CapabilitySet
resolve rctx s = (ok caps, suc s)

abbrev refuse : HttpHandler ℕ
refuse layers req res s = done res s

auth_chain-after_example :
    auth_chain (λ next. next) (some resolve) (pos 25) refuse ≡ (λ layers req res s.
      after (pos 25) refuse layers req res (resolve (context_for req.auth_claims req) s))
auth_chain-after_example = auth_chain-after (λ next. next) resolve (pos 25) refuse

handler_error-trace_example :
    inject_trace_context
      (auth_chain
        (λ next. next)
        (some resolve)
        (pos 25)
        (λ ls r out t. done (write_error_to ls (new_not_found (codes "page")) out) t))
      []
      request
      fresh
      0
    ≡ done
        (write_json
          (write_error none (new_not_found (codes "page"))).status
          (error_payload (write_error none (new_not_found (codes "page"))).error)
          fresh)
        1
handler_error-trace_example =
    handler_error-trace resolve (pos 25) (new_not_found (codes "page")) [] request fresh 0 1 caps
      refl

query-DistinctKeys : DistinctKeys query
unfolding lookup text_eq
query-DistinctKeys = (refl, (refl, tt))

query_map-lookup_example :
    lookup (codes "state") (query_map query (codes "filter") [])
    ≡ first_of (lookup (codes "filter[state]") query)
query_map-lookup_example =
    query_map-lookup (codes "filter") b's' (codes "tate") query query-DistinctKeys

find_action_in_registry-none_example :
    (find_action_in_registry shop_registry (codes "send") ≡ none)
    ↔ All (LacksAction (codes "send")) (all_domains shop_registry)
find_action_in_registry-none_example = find_action_in_registry-none shop_registry (codes "send")

abbrev deps : Dependencies ℕ
deps =
    providers go floats insertion (λ w. false) (λ ds. ds) (λ xs. xs)
      (new_search_provider (pos 0) (pos 0)) (λ t. none) (λ t. none) (codes "1") resolve
      (λ rctx id q w. (err new_internal_error, w)) invokers shop_index shop_registry

page_sent :
    Sends
      (auth_chain (λ next. next) (some resolve) (pos 25) (handle_get_page deps) [] request fresh 0)
      (describe_page go caps order_page)
unfolding auth_chain build_request_context resolve_capabilities handler_timeout request_logging
    get_page_descriptor get_page lookup replace load index insert text_eq allowed has_all has
    match_wildcard has_suffix has_prefix write_json chain_middleware
page_sent = refl

page_request-Shown_example :
    (cs : CapabilitySet) × ((resolve (context_for (some claims) request) 0).0 ≡ ok cs)
    × ((def : PageDefinition) × (get_page shop_registry (path_value request (codes "pageId"))
          ≡ some def)
        × Shown go cs def (describe_page go caps order_page))
page_request-Shown_example =
    page_request-Shown go shop_registry deps resolve (pos 25) [] request fresh 0
      (describe_page go caps order_page) refl refl page_sent
