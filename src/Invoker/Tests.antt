-- ===== src/Invoker/Tests.antt =====
-- The invoker theorems at small inputs.
use thesa.Prelude.{
  ℕ, suc, ◌+◌, ◌≤◌, ◌<◌, true, Option, none, some, [], ◌∷◌, refl, ltb, if◌then◌else◌,
}
use thesa.Prelude.Int.{ℤ, pos}
use thesa.Prelude.Text.{Text, codes}
use thesa.Prelude.Maps.{Map}
use thesa.Value.{null}
use thesa.Errors.{Error, ErrorEnvelope, envelope, plain, ok, err, backend_unavailable}
use thesa.Config.{RetryConfig, ServiceConfig}
use thesa.Context.{InvocationInput, InvocationResult, Exec}
use thesa.OpenApi.{Index}
use thesa.Invoker.Retry.{max_attempts_of, execute_with_retry}
use thesa.Invoker.Retry.Laws.{Counts, execute_with_retry_bounds}
use thesa.Invoker.Request.{build_request_headers}
use thesa.Invoker.Request.Laws.{Lines, build_request_headers-Lines}
use thesa.Invoker.Http.{Request, Reply, response, no_result}
use thesa.Samples.{caller}

-- The backend is down twice, and then answers.
abbrev flaky : Exec ℕ InvocationResult
flaky w = (if ltb w 2 then err (plain []) else ok no_result, suc w)

abbrev patient : ℕ → ℕ → Option Error × ℕ
patient attempt w = (none, w)

abbrev retry : RetryConfig
retry = record {
  max_attempts = pos 3;
  backoff_initial = pos 0;
  backoff_multiplier = 0;
  backoff_max = pos 0;
  idempotent_only = true;
}

flaky-Counts : Counts flaky patient (λ w. w)
flaky-Counts = record { once = λ w. refl; waits = λ n w. refl }

execute_with_retry_bounds_example :
    (0 < (execute_with_retry flaky patient no_result retry (codes "GET") 0).1)
    × ((execute_with_retry flaky patient no_result retry (codes "GET") 0).1
        ≤ 0 + max_attempts_of retry)
execute_with_retry_bounds_example =
    execute_with_retry_bounds flaky patient (λ w. w) flaky-Counts no_result retry (codes "GET") 0

abbrev unavailable : ErrorEnvelope
unavailable = record { code = backend_unavailable; message = []; details = []; trace_id = [] }

abbrev down : Exec ℕ InvocationResult
down w = (err (envelope unavailable), suc w)

abbrev twice : ℤ → ℕ → ℤ
twice (pos n) m = pos (n + n)
twice z m = z

abbrev input : InvocationInput
input = record {
  path_params = [];
  query_params = [];
  headers = (codes "X-Note", b'a' ∷ b'\r' ∷ b'\n' ∷ b'b' ∷ []) ∷ [];
  body = null;
}

build_request_headers-Lines_example :
    Lines (build_request_headers (λ k. k) (some caller) input (codes "POST"))
build_request_headers-Lines_example =
    build_request_headers-Lines (λ k. k) (λ k h. h) (some caller) input (codes "POST")

abbrev send : Text → Request → ℕ → Reply × ℕ
send service_id request w = (response (pos 200) (λ k. []) none, suc w)

abbrev wait : ServiceConfig → ℕ → ℕ → Option Error × ℕ
wait svc attempt w = (none, w)

abbrev index : Index
index = record {
  operations =
      (
        codes ":",
        record {
          service_id = [];
          operation_id = [];
          method = codes "GET";
          path_template = codes "/o";
          parameters = [];
          required = none;
          base_url = codes "http://orders";
        },
      )
      ∷ [];
  by_service = [];
}

abbrev clients : Map ServiceConfig
clients =
    ([], record { base_url = []; timeout = pos 0; retry = retry; authorization_namespace = [] })
    ∷ []
