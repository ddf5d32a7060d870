-- ===== src/Invoker/Request.antt =====
-- internal/invoker/openapi.go: the URL and the headers of a request.
pub mod Laws
use thesa.Prelude.{Bool, ◌||◌, Option, none, some, [], ◌∷◌, ◌++◌, is_empty, if◌then◌else◌}
use thesa.Prelude.Text.{Text, codes, text_eq}
use thesa.Prelude.Strings.{replace_all}
use thesa.Prelude.Maps.{Map, insert}
use thesa.Context.{RequestContext, InvocationInput}
use thesa.OpenApi.{IndexedOperation}

-- Carriage returns and newlines are dropped.
unfoldable pub sanitize_header : Text → Text
sanitize_header s = replace_all (replace_all s (b'\r' ∷ []) []) (b'\n' ∷ []) []

-- `path_escape` is url.PathEscape, `encode` is url.Values.Encode.
module _ (path_escape : Text → Text) (encode : Map Text → Text) where
  unfoldable pub substitute : Map Text → Text → Text
  substitute [] path = path
  substitute ((name, value) ∷ params) path =
      substitute params (replace_all path (codes "{" ++ (name ++ codes "}")) (path_escape value))

  unfoldable pub build_request_url : IndexedOperation → InvocationInput → Text
  unfolding substitute
  build_request_url op input =
      let result = op.base_url ++ substitute input.path_params op.path_template in
      if is_empty input.query_params
      then result
      else result ++ (codes "?" ++ encode input.query_params)

-- A header map holds one value for a key; `canonical` is the form that http.Header gives a key.
module _ (canonical : Text → Text) where
  abbrev pub set_header : Text → Text → Map Text → Map Text
  set_header k v h = insert (canonical k) v h

  abbrev pub with_body : Text → Bool
  with_body method =
      text_eq method (codes "POST")
      || text_eq method (codes "PUT")
      || text_eq method (codes "PATCH")

  abbrev pub identity_headers : RequestContext → Map Text → Map Text
  identity_headers rctx h =
      set_header (codes "X-Request-Subject") (sanitize_header rctx.subject_id) (
        set_header (codes "X-Correlation-Id") (sanitize_header rctx.correlation_id) (
          set_header (codes "X-Partition-Id") (sanitize_header rctx.partition_id) (
            set_header (codes "X-Tenant-Id") (sanitize_header rctx.tenant_id) (
              if is_empty rctx.token
              then h
              else set_header (codes "Authorization")
                  (codes "Bearer " ++ sanitize_header rctx.token) h))))

  abbrev pub standard_headers : Option RequestContext → Text → Map Text
  standard_headers rctx method =
      let accept = set_header (codes "Accept") (codes "application/json") [] in
      let h =
        if with_body method
        then set_header (codes "Content-Type") (codes "application/json") accept
        else accept in
      elim rctx [ none ↦ h | some c ↦ identity_headers c h ]

  -- The input's headers come last.
  unfoldable pub custom_headers : Map Text → Map Text → Map Text
  custom_headers [] h = h
  custom_headers ((k, v) ∷ m) h =
      custom_headers m (set_header (sanitize_header k) (sanitize_header v) h)

  unfoldable pub build_request_headers : Option RequestContext → InvocationInput → Text → Map Text
  build_request_headers rctx input method =
      custom_headers input.headers (standard_headers rctx method)
