-- ===== src/Invoker/Http.antt =====
-- internal/invoker/openapi.go: the invoker of operations that an OpenAPI document describes.
pub mod Laws
use thesa.Prelude.{ℕ, not, Option, none, some, List, [], ◌∷◌, ◌++◌, is_empty, if◌then◌else◌}
use thesa.Prelude.Int.{ℤ}
use thesa.Prelude.Text.{Text, codes, text_eq}
use thesa.Prelude.Maps.{Map, lookup, insert}
use thesa.Value.{Value, null, is_nil}
use thesa.Errors.{Error, Result, ok, err, plain, new_backend_unavailable, new_backend_timeout}
use thesa.Config.{ServiceConfig}
use thesa.Definition.{OperationBinding}
use thesa.Context.{Go, RequestContext, InvocationInput, InvocationResult, OperationInvoker, Exec}
use thesa.OpenApi.{IndexedOperation, Index, get_operation}
use thesa.Invoker.Retry.{execute_with_retry}
use thesa.Invoker.Request.{build_request_url, build_request_headers}

pub record Request : Type 0 where
  pub method : Text
  pub url : Text
  pub headers : Map Text
  pub body : Option Text

-- What net/http makes of a request: it cannot be built, the connection fails (a *net.OpError or a
-- *net.DNSError), the context has ended, another failure, an unreadable body, or a response, whose
-- headers are read by http.Header.Get and whose body is empty or the decoded JSON value, if it is one.
pub data Reply : Type 0 where
  unbuilt : Text → Reply
  no_connection : Reply
  context_ended : Reply
  other_failure : Text → Reply
  unreadable : Text → Reply
  response : ℤ → (Text → Text) → Option Value → Reply

abbrev pub kept_headers : List Text
kept_headers =
    codes "Content-Type"
    ∷ codes "X-Correlation-Id"
    ∷ codes "X-Trace-Id"
    ∷ codes "X-Request-Id"
    ∷ codes "Retry-After"
    ∷ []

unfoldable pub extract_headers : (Text → Text) → List Text → Map Text → Map Text
extract_headers get [] done = done
extract_headers get (key ∷ keys) done =
    extract_headers get keys (if is_empty (get key) then done else insert key (get key) done)

unfoldable pub extract_response_headers : (Text → Text) → Map Text
unfolding extract_headers
extract_response_headers get = extract_headers get kept_headers []

abbrev pub body_of : Option Value → Value
body_of none = null
body_of (some v) = v

abbrev pub classify : Reply → Result InvocationResult
classify (unbuilt e) = err (plain (codes "invoker: build request: " ++ e))
classify no_connection = err new_backend_unavailable
classify context_ended = err new_backend_timeout
classify (other_failure e) = err (plain (codes "invoker: request failed: " ++ e))
classify (unreadable e) = err (plain (codes "invoker: read response: " ++ e))
classify (response status get body) =
    ok
      (record { status_code = status; body = body_of body; headers = extract_response_headers get })

abbrev pub no_result : InvocationResult
no_result = record { status_code = thesa.Prelude.Int.pos 0; body = null; headers = [] }

-- `send` is the service's http.Client, `pause` the select on the delay and the context, `marshal`
-- json.Marshal.
module _ {W : Type 0} (send : Text → Request → W → Reply × W)
    (pause : ServiceConfig → ℕ → W → Option Error × W) (marshal : Value → Result Text)
    (path_escape : Text → Text) (encode : Map Text → Text) (canonical : Text → Text) where
  unfoldable pub execute_once : Text → Request → Exec W InvocationResult
  execute_once service_id request w =
      let (reply, w') = send service_id request w in (classify reply, w')

  abbrev pub marshalled : Value → Result (Option Text)
  marshalled body =
      if is_nil body
      then ok none
      else elim (marshal body) [ ok bytes ↦ ok (some bytes) | err e ↦ err e ]

  abbrev pub call :
      Text
      → ServiceConfig
      → IndexedOperation
      → RequestContext
      → InvocationInput
      → Result (Option Text)
      → Exec W InvocationResult
  call service_id svc op rctx input (err e) w =
      (err (plain (codes "invoker: marshal body: " ++ thesa.Errors.error_text e)), w)
  call service_id svc op rctx input (ok bytes) w =
      let request : Request = record {
        method = op.method;
        url = build_request_url path_escape encode op input;
        headers = build_request_headers canonical (some rctx) input op.method;
        body = bytes;
      } in
      execute_with_retry (execute_once service_id request) (pause svc) no_result svc.retry op.method
        w

  module _ (go : Go) (index : Index) (clients : Map ServiceConfig) where
    abbrev pub with_service :
        RequestContext
        → OperationBinding
        → InvocationInput
        → IndexedOperation
        → Option ServiceConfig
        → Exec W InvocationResult
    with_service rctx binding input op none w = (
      err (
          plain (
            codes "invoker: service " ++ (go.quote binding.service_id ++ codes " not configured"))),
      w,
    )
    with_service rctx binding input op (some svc) w =
        call binding.service_id svc op rctx input (marshalled input.body) w

    abbrev pub with_operation :
        RequestContext
        → OperationBinding
        → InvocationInput
        → Option IndexedOperation
        → Exec W InvocationResult
    with_operation rctx binding input none w = (
      err (
          plain (
            codes "invoker: operation "
            ++ (binding.service_id
                ++ (codes "/" ++ (binding.operation_id ++ codes " not found in OpenAPI index"))))),
      w,
    )
    with_operation rctx binding input (some op) w =
        with_service rctx binding input op (lookup binding.service_id clients) w

    unfoldable pub invoke_operation :
        RequestContext → OperationBinding → InvocationInput → Exec W InvocationResult
    invoke_operation rctx binding input w =
        with_operation rctx binding input
          (get_operation index binding.service_id binding.operation_id) w

    unfoldable pub open_api_invoker : OperationInvoker W
    open_api_invoker = record {
      supports = λ binding. text_eq binding.type (codes "openapi");
      invoke = invoke_operation;
    }
