-- ===== src/Transport/Router/Laws.antt =====
-- What stands between a request and its handler.
use thesa.Prelude.{none, some, List, ◌∷◌, ◌≡◌, refl, ap, ◌∙◌, inl, inr, Bool-cases, if◌then◌else◌}
use thesa.Prelude.Int.{ℤ, pos, leb_ℤ}
use thesa.Errors.{Result, Error, ok, err, new_backend_unavailable}
use thesa.Context.{RequestContext, Exec}
use thesa.Capability.{CapabilitySet}
use thesa.Transport.{write_error}
use thesa.Transport.Http.{
  Request, error_payload, Layer, trace_writer, status_writer, Response, write_json, write_error_to,
  Served, HttpHandler, Middleware, done,
}
use thesa.Transport.Middleware.{
  inject_trace_context, context_for, build_request_context, resolve_capabilities, with_caps,
  handler_timeout, request_logging, chain_middleware,
}
use thesa.Transport.Router.{auth_chain}

-- The request that a handler is given.
abbrev pub timed : ℤ → Request → Request
timed timeout req = if leb_ℤ timeout (pos 0) then req else record req { timeout = some timeout }

abbrev pub admitted : ℤ → Request → CapabilitySet → Request
admitted timeout req caps =
    timed timeout
      (record req { request_context = some (context_for req.auth_claims req); capabilities = caps })

module _ {S : Type 0} where
  -- What the chain makes of the resolver's answer: the handler runs, or a 502 is written.
  abbrev pub after :
      ℤ → HttpHandler S → List Layer → Request → Response → Result CapabilitySet × S → Served S
  after timeout handler layers req res (ok caps, s) =
      handler (status_writer ∷ layers) (admitted timeout req caps) res s
  after timeout handler layers req res (err e, s) =
      done (write_error_to layers new_backend_unavailable res) s

  timeout_lem :
      (timeout : ℤ) (handler : HttpHandler S) (layers : List Layer) (req : Request) (res : Response)
      (s : S)
      → handler_timeout timeout (request_logging handler) layers req res s
        ≡ handler (status_writer ∷ layers) (timed timeout req) res s
  unfolding handler_timeout request_logging
  timeout_lem timeout handler layers req res s = elim (Bool-cases (leb_ℤ timeout (pos 0))) [
    | inl none' ↦ rw none' refl
    | inr some' ↦ rw some' refl
  ]

  after_lem :
      (timeout : ℤ) (handler : HttpHandler S) (layers : List Layer) (req : Request) (res : Response)
      (answer : Result CapabilitySet × S)
      → with_caps answer.0
          (handler_timeout timeout (request_logging handler))
          layers
          (record req { request_context = some (context_for req.auth_claims req) })
          res
          answer.1
        ≡ after timeout handler layers req res answer
  after_lem timeout handler layers req res (ok caps, s) = timeout_lem timeout handler layers _ res s
  after_lem timeout handler layers req res (err e, s) = refl

  -- Behind the authentication a handler runs exactly where the capabilities of the caller whom the
  -- claims name could be resolved, and with those capabilities and the context that is built from
  -- the claims, whether or not they name a subject, a tenant and a partition; otherwise it does not
  -- run, and the answer is the error of an unavailable backend.
  pub auth_chain-after :
      (auth : Middleware S) (resolve : RequestContext → Exec S CapabilitySet) (timeout : ℤ)
      (handler : HttpHandler S)
      → auth_chain auth (some resolve) timeout handler
        ≡ auth (λ layers req res s.
          after timeout handler layers req res (resolve (context_for req.auth_claims req) s))
  unfolding auth_chain chain_middleware build_request_context resolve_capabilities
  auth_chain-after auth resolve timeout handler = ap auth (λ i layers req res s.
      after_lem timeout handler layers req res (resolve (context_for req.auth_claims req) s) i)

-- Where the authentication lets a request through and its capabilities are resolved, the error that
-- a handler writes is written without the trace id of the request's span, although the middleware
-- around it hands the span on.
pub handler_error-trace :
    {S : Type 0} (resolve : RequestContext → Exec S CapabilitySet) (timeout : ℤ) (e : Error)
    (layers : List Layer) (req : Request) (res : Response) (s s' : S) (caps : CapabilitySet)
    → resolve (context_for req.auth_claims req) s ≡ (ok caps, s')
    → inject_trace_context
        (auth_chain
          (λ next. next)
          (some resolve)
          timeout
          (λ ls r out t. done (write_error_to ls e out) t))
        layers
        req
        res
        s
      ≡ done
          (write_json (write_error none e).status (error_payload (write_error none e).error) res)
          s'
unfolding inject_trace_context write_error_to
handler_error-trace resolve timeout e layers req res s s' caps h =
    (λ i.
      auth_chain-after (λ next. next) resolve timeout
        (λ ls r out t. done (write_error_to ls e out) t) i (trace_writer req.trace ∷ layers) req res
        s)
    ∙ ap
        (after timeout (λ ls r out t. done (write_error_to ls e out) t)
          (trace_writer req.trace ∷ layers) req res)
        h
