-- ===== src/Transport/Handlers.antt =====
-- internal/transport/handler_*.go: one handler for each route.
use thesa.Prelude.{true, false, Option, none, some, List, [], ◌∷◌, ◌++◌, is_empty, if◌then◌else◌}
use thesa.Prelude.Int.{pos}
use thesa.Prelude.Text.{Text, codes, text_eq}
use thesa.Prelude.Maps.{Map, lookup}
use thesa.Value.{Value}
use thesa.Errors.{Result, Error, ok, err, new_unauthorized, new_bad_request, new_not_found}
use thesa.Definition.{ActionDefinition}
use thesa.Context.{RequestContext, CommandInput, DataParams}
use thesa.Capability.{CapabilitySet}
use thesa.Command.Response.{CommandResponse}
use thesa.Search.Provider.{SearchResponse}
use thesa.Transport.Http.{
  Request, Payload, capabilities_payload, navigation_payload, page_payload, data_payload,
  form_payload, map_payload, schema_payload, command_payload, action_payload, search_payload,
  lookup_payload, Layer, Response, write_json, write_error_to, Served, HttpHandler, done,
}
use thesa.Transport.Interface.{Dependencies}
use thesa.Transport.Actions.{find_action_in_registry}
use thesa.Transport.Query.{query_get, query_int, query_map, all_params}

abbrev pub path_value : Request → Text → Text
path_value req name = elim (lookup name req.path_values) [ none ↦ [] | some v ↦ v ]

abbrev pub enabled_names : CapabilitySet → List Text
enabled_names [] = []
enabled_names ((k, true) ∷ caps) = k ∷ enabled_names caps
enabled_names ((k, false) ∷ caps) = enabled_names caps

abbrev pub page_params : Request → DataParams
page_params req = record {
  page = query_int req.query (codes "page") (pos 1);
  page_size = query_int req.query (codes "page_size") (pos 25);
  sort = query_get req.query (codes "sort");
  sort_dir = query_get req.query (codes "sort_dir");
  filters = query_map req.query (codes "filter") [];
  query = query_get req.query (codes "q");
}

abbrev or_text : Text → Text → Text
or_text first second = if is_empty first then second else first

abbrev pub resource_params : Request → DataParams
resource_params req = record (page_params req) {
  sort = or_text (query_get req.query (codes "sort_field")) (query_get req.query (codes "sort"));
  sort_dir =
      or_text (query_get req.query (codes "sort_direction"))
        (query_get req.query (codes "sort_dir"));
}

module _ {S : Type 0} where
  -- The guard at the head of a handler.
  abbrev pub with_context : (RequestContext → HttpHandler S) → Option RequestContext → HttpHandler S
  with_context handle none layers req res s =
      done (write_error_to layers (new_unauthorized (codes "missing request context")) res) s
  with_context handle (some rctx) layers req res s = handle rctx layers req res s

  abbrev pub guarded : (RequestContext → HttpHandler S) → HttpHandler S
  guarded handle layers req res s = with_context handle req.request_context layers req res s

  -- An error, or the payload with the status 200.
  abbrev pub answer : {A : Type 0} → (A → Payload) → List Layer → Response → Result A → S → Served S
  answer payload layers res (err e) s = done (write_error_to layers e res) s
  answer payload layers res (ok a) s = done (write_json 200 (payload a) res) s

  abbrev pub answer_exec :
      {A : Type 0} → (A → Payload) → List Layer → Response → Result A × S → Served S
  answer_exec payload layers res (r, s) = answer payload layers res r s

  module _ (deps : Dependencies S) where
    abbrev pub handle_capabilities : HttpHandler S
    handle_capabilities = guarded (λ rctx layers req res s.
        answer_exec
          (λ caps. capabilities_payload rctx.tenant_id caps (enabled_names caps) deps.app_version)
          layers res (deps.capability_resolver rctx s))

    abbrev pub handle_navigation : HttpHandler S
    handle_navigation = guarded (λ rctx layers req res s.
        let (tree, s') = deps.get_menu rctx req.capabilities s in
        done (write_json 200 (navigation_payload tree) res) s')

    abbrev pub handle_get_page : HttpHandler S
    handle_get_page = guarded (λ rctx layers req res s.
        answer page_payload layers res
          (deps.get_page req.capabilities (path_value req (codes "pageId"))) s)

    abbrev pub handle_get_page_data : HttpHandler S
    handle_get_page_data = guarded (λ rctx layers req res s. answer_exec data_payload layers res (
        deps.get_page_data rctx req.capabilities (path_value req (codes "pageId")) (page_params req)
          s))

    abbrev pub handle_get_form : HttpHandler S
    handle_get_form = guarded (λ rctx layers req res s.
        answer form_payload layers res
          (deps.get_form req.capabilities (path_value req (codes "formId"))) s)

    abbrev pub handle_get_form_data : HttpHandler S
    handle_get_form_data = guarded (λ rctx layers req res s. answer_exec map_payload layers res (
        deps.get_form_data rctx req.capabilities (path_value req (codes "formId"))
          (all_params req.query []) s))

    -- The one handler that does not ask for a context.
    abbrev pub handle_get_schema : HttpHandler S
    handle_get_schema layers req res s =
        answer schema_payload layers res (deps.get_schema (path_value req (codes "schemaId"))) s

    abbrev pub handle_get_resource : HttpHandler S
    handle_get_resource = guarded (λ rctx layers req res s. answer_exec data_payload layers res (
        deps.get_resource_list rctx req.capabilities (path_value req (codes "resourceType"))
          (resource_params req) s))

    abbrev pub handle_get_resource_item : HttpHandler S
    handle_get_resource_item = guarded (λ rctx layers req res s.
        answer_exec (λ m. map_payload (some m)) layers res
          (deps.get_resource_item rctx req.capabilities (path_value req (codes "resourceType"))
            (path_value req (codes "id")) s))

    abbrev pub command_answer :
        List Layer → Response → (CommandResponse × Option Error) × S → Served S
    command_answer layers res ((resp, none), s) = done (write_json 200 (command_payload resp) res) s
    command_answer layers res ((resp, some e), s) = done (write_error_to layers e res) s

    abbrev pub run_command : RequestContext → Text → Option CommandInput → HttpHandler S
    run_command rctx command_id none layers req res s =
        done (write_error_to layers (new_bad_request (codes "invalid JSON body")) res) s
    run_command rctx command_id (some input) layers req res s =
        command_answer layers res (deps.execute rctx req.capabilities command_id input s)

    abbrev pub handle_command : HttpHandler S
    handle_command = guarded (λ rctx layers req res s.
        run_command rctx (path_value req (codes "commandId")) (deps.decode_command req.body) layers
          req res s)

    abbrev pub run_action :
        RequestContext → Option (Map Value) → Option ActionDefinition → HttpHandler S
    run_action rctx input none layers req res s =
        done
          (write_error_to layers
            (new_not_found
              (codes "action " ++ (path_value req (codes "actionId") ++ codes " not found")))
            res)
          s
    run_action rctx input (some a) layers req res s =
        if text_eq a.type (codes "command")
        then (if is_empty a.command_id
            then done
                (write_error_to layers (new_bad_request (codes "action has no command_id")) res) s
            else run_command rctx a.command_id
                (some (record { input = input; route_params = none })) layers req res s)
        else done (write_json 200 (action_payload a.id a.type a.navigate_to a.form_id a.params) res)
            s

    abbrev pub decoded_action : RequestContext → Option (Option (Map Value)) → HttpHandler S
    decoded_action rctx none layers req res s =
        done (write_error_to layers (new_bad_request (codes "invalid JSON body")) res) s
    decoded_action rctx (some input) layers req res s =
        run_action rctx input
          (find_action_in_registry deps.registry (path_value req (codes "actionId"))) layers req res
          s

    abbrev pub handle_action : HttpHandler S
    handle_action = guarded (λ rctx layers req res s.
        decoded_action rctx (deps.decode_action req.body) layers req res s)

    abbrev pub search_answer : List Layer → Response → Result (Option SearchResponse) × S → Served S
    search_answer layers res (err e, s) = done (write_error_to layers e res) s
    search_answer layers res (ok none, s) = record { panicked = true; response = res; state = s }
    search_answer layers res (ok (some resp), s) = done (write_json 200 (search_payload resp) res) s

    abbrev pub handle_search : HttpHandler S
    handle_search = guarded (λ rctx layers req res s. search_answer layers res (
        deps.search rctx req.capabilities (query_get req.query (codes "q"))
          (record {
            page = query_int req.query (codes "page") (pos 1);
            page_size = query_int req.query (codes "page_size") (pos 20);
            domain = query_get req.query (codes "domain");
          })
          s))

    abbrev pub handle_resource_search : HttpHandler S
    handle_resource_search = guarded (λ rctx layers req res s. search_answer layers res (
        deps.search rctx req.capabilities (query_get req.query (codes "q"))
          (record {
            page = pos 1;
            page_size = query_int req.query (codes "limit") (pos 20);
            domain = path_value req (codes "resourceType");
          })
          s))

    abbrev pub handle_lookup : HttpHandler S
    handle_lookup = guarded (λ rctx layers req res s. answer_exec lookup_payload layers res (
        deps.get_lookup rctx (path_value req (codes "lookupId")) (query_get req.query (codes "q"))
          s))
