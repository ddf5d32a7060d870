-- ===== src/Invoker/Http/Laws.antt =====
-- When an operation of an OpenAPI document reaches the network.
use thesa.Prelude.{true, ℕ, Option, none, some, ◌≡◌, ◌⊎◌}
use thesa.Prelude.Text.{Text, has_prefix}
use thesa.Prelude.Maps.{Map, lookup}
use thesa.Value.{Value}
use thesa.Errors.{Error, Result, ok, err}
use thesa.Config.{ServiceConfig}
use thesa.Definition.{OperationBinding}
use thesa.Context.{Go, RequestContext, InvocationInput, InvocationResult}
use thesa.OpenApi.{IndexedOperation, Index, get_operation}
use thesa.Invoker.Retry.{execute_with_retry}
use thesa.Invoker.Request.{build_request_url, build_request_headers}
use thesa.Invoker.Http.{Request, Reply, execute_once, no_result, marshalled}

module _ {W : Type 0} (send : Text → Request → W → Reply × W)
    (pause : ServiceConfig → ℕ → W → Option Error × W) (marshal : Value → Result Text)
    (path_escape : Text → Text) (encode : Map Text → Text) (canonical : Text → Text) (go : Go)
    (index : Index) (clients : Map ServiceConfig) (rctx : RequestContext)
    (binding : OperationBinding) (input : InvocationInput) (w : W) where
  -- The operation is indexed, its service is configured, and the body has an encoding.
  pub record Sendable : Type 0 where
    pub op : IndexedOperation
    pub svc : ServiceConfig
    pub bytes : Option Text
    pub indexed : get_operation index binding.service_id binding.operation_id ≡ some op
    pub configured : lookup binding.service_id clients ≡ some svc
    pub encoded : marshalled send pause marshal path_escape encode canonical input.body ≡ ok bytes

  abbrev pub request_of : Sendable → Request
  request_of s = record {
    method = s.op.method;
    url = build_request_url path_escape encode s.op input;
    headers = build_request_headers canonical (some rctx) input s.op.method;
    body = s.bytes;
  }

  -- The operation is not indexed, its service has no configuration, or its body has no encoding.
  abbrev pub Unsendable : Type 0
  Unsendable =
      (get_operation index binding.service_id binding.operation_id ≡ none)
      ⊎ (lookup binding.service_id clients ≡ none)
      ⊎ ((e : Error) × (marshalled send pause marshal path_escape encode canonical input.body
            ≡ err e))

  abbrev pub Sent : Result InvocationResult × W → Type 0
  Sent out =
      ((s : Sendable) × (has_prefix (request_of s).url s.op.base_url ≡ true)
        × (out
            ≡ execute_with_retry
                (execute_once send pause marshal path_escape encode canonical binding.service_id
                  (request_of s))
                (pause s.svc) no_result s.svc.retry s.op.method w))
      ⊎ ((e : Error) × Unsendable × (out ≡ (err e, w)))
