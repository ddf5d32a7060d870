-- ===== src/Transport/Middleware.antt =====
-- internal/transport/middleware.go: what happens around the handlers. Logs are left out.
use thesa.Prelude.{not, ◌&&◌, Option, none, some, List, [], ◌∷◌, any, is_empty, if◌then◌else◌}
use thesa.Prelude.Int.{ℤ, pos, leb_ℤ}
use thesa.Prelude.Text.{Text, codes, text_eq}
use thesa.Prelude.Strings.{join}
use thesa.Prelude.Maps.{lookup}
use thesa.Value.{Value, as_str}
use thesa.Errors.{Result, ok, err, new_internal_error, new_backend_unavailable}
use thesa.Context.{Go, RequestContext, Exec}
use thesa.Config.Load.{CorsConfig}
use thesa.Capability.{CapabilitySet}
use thesa.Transport.Http.{
  AuthenticationClaims, Request, trace_writer, status_writer, Response, set_header, write_error_to,
  HttpHandler, Middleware, done, header_of,
}

abbrev pub with_cors : Go → CorsConfig → Text → Response → Response
with_cors go cfg origin res = set_header (codes "Vary") (codes "Origin") (
    set_header (codes "Access-Control-Expose-Headers") (codes "X-Correlation-Id") (
      set_header (codes "Access-Control-Max-Age") (go.itoa cfg.max_age) (
        set_header (codes "Access-Control-Allow-Headers") (join cfg.allowed_headers (codes ", ")) (
          set_header (codes "Access-Control-Allow-Methods") (join cfg.allowed_methods (codes ", "))
            (set_header (codes "Access-Control-Allow-Origin") origin res)))))

abbrev pub email_of : Option Value → Text
email_of none = []
email_of (some v) = elim (as_str v) [ none ↦ [] | some t ↦ t ]

abbrev pub bare_context : Request → RequestContext
bare_context req = record {
  subject_id = [];
  email = [];
  tenant_id = [];
  partition_id = [];
  roles = [];
  claims = [];
  session_id = [];
  device_id = header_of req (codes "X-Device-Id");
  correlation_id = req.correlation_id;
  trace_id = [];
  span_id = [];
  locale = header_of req (codes "Accept-Language");
  timezone = header_of req (codes "X-Timezone");
  token = req.jwt;
}

-- Without claims the context is there all the same, and names nobody.
abbrev pub context_for : Option AuthenticationClaims → Request → RequestContext
context_for none req = bare_context req
context_for (some c) req = record (bare_context req) {
  subject_id = c.profile_id;
  email = email_of (lookup (codes "email") c.ext);
  tenant_id = c.tenant_id;
  partition_id = c.partition_id;
  roles = c.roles;
  claims = c.ext;
  session_id = c.session_id;
}

module _ {S : Type 0} where
  -- A panic below becomes an internal error.
  unfoldable pub recovery : Middleware S
  recovery next layers req res s =
      let out = next layers req res s in
      if out.panicked
      then done (write_error_to layers new_internal_error out.response) out.state
      else out

  -- Not part of the router; `method` is r.Method.
  unfoldable pub cors : Go → CorsConfig → Text → Middleware S
  cors go cfg method next layers req res s =
      let origin = header_of req (codes "Origin") in
      let res' =
        if not (is_empty origin) && any (text_eq origin) cfg.allowed_origins
        then with_cors go cfg origin res
        else res in
      if text_eq method (codes "OPTIONS")
      then done (record res' { status = some 204 }) s
      else next layers req res' s

  -- `id_string` is util.IDString of the util library.
  unfoldable pub request_id : (S → Text × S) → Middleware S
  request_id id_string next layers req res s =
      let given = header_of req (codes "X-Correlation-Id") in
      let (id, s') = if is_empty given then id_string s else (given, s) in
      next layers (record req { correlation_id = id })
        (set_header (codes "X-Correlation-Id") id res) s'

  unfoldable pub security_headers : Middleware S
  security_headers next layers req res s =
      next layers req
        (set_header (codes "Referrer-Policy") (codes "strict-origin-when-cross-origin") (
          set_header (codes "Cache-Control") (codes "no-store") (
            set_header (codes "X-XSS-Protection") (codes "0") (
              set_header (codes "X-Frame-Options") (codes "DENY") (
                set_header (codes "X-Content-Type-Options") (codes "nosniff") (
                  set_header (codes "Strict-Transport-Security")
                    (codes "max-age=31536000; includeSubDomains") res))))))
        s

  -- InjectTraceContext of response.go.
  unfoldable pub inject_trace_context : Middleware S
  inject_trace_context next layers req res s = next (trace_writer req.trace ∷ layers) req res s

  unfoldable pub build_request_context : Middleware S
  build_request_context next layers req res s =
      next layers (record req { request_context = some (context_for req.auth_claims req) }) res s

  abbrev pub with_caps : Result CapabilitySet → HttpHandler S → HttpHandler S
  with_caps (err e) next layers req res s =
      done (write_error_to layers new_backend_unavailable res) s
  with_caps (ok caps) next layers req res s = next layers (record req { capabilities = caps }) res s

  abbrev resolve_for :
      Option (RequestContext → Exec S CapabilitySet) → Option RequestContext → Middleware S
  resolve_for none rctx next layers req res s = next layers req res s
  resolve_for (some resolve) none next layers req res s = next layers req res s
  resolve_for (some resolve) (some rctx) next layers req res s =
      let (r, s') = resolve rctx s in with_caps r next layers req res s'

  -- `none` is a nil resolver.
  unfoldable pub resolve_capabilities :
      Option (RequestContext → Exec S CapabilitySet) → Middleware S
  resolve_capabilities resolver next layers req res s =
      resolve_for resolver req.request_context next layers req res s

  unfoldable pub handler_timeout : ℤ → Middleware S
  handler_timeout d next layers req res s =
      if leb_ℤ d (pos 0)
      then next layers req res s
      else next layers (record req { timeout = some d }) res s

  unfoldable pub request_logging : Middleware S
  request_logging next layers req res s = next (status_writer ∷ layers) req res s

  -- The first is the outermost.
  unfoldable pub chain_middleware : List (Middleware S) → Middleware S
  chain_middleware [] final = final
  chain_middleware (m ∷ ms) final = m (chain_middleware ms final)
