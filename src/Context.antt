-- ===== src/Context.antt =====
-- model/context.go and model/invoker.go: the request's identity, and what goes to and comes from a
-- backend. The library functions that the program calls and that are not in the repository stand in
-- the record `Go`; the backends, clocks and contexts are a world `W` that an effect may change.
use thesa.Prelude.{ℕ, Bool, if◌then◌else◌, Option, none, some, List, [], ◌∷◌, ◌++◌, any, ◌≡◌}
use thesa.Prelude.Int.{ℤ}
use thesa.Prelude.Text.{Text, codes, text_eq}
use thesa.Prelude.Maps.{Map, lookup}
use thesa.Value.{Value, null, str}
use thesa.Errors.{Result}
use thesa.Definition.{OperationBinding}

pub record RequestContext : Type 0 where
  pub subject_id : Text
  pub email : Text
  pub tenant_id : Text
  pub partition_id : Text
  pub roles : List Text
  pub claims : Map Value
  pub session_id : Text
  pub device_id : Text
  pub correlation_id : Text
  pub trace_id : Text
  pub span_id : Text
  pub locale : Text
  pub timezone : Text
  pub token : Text

-- The texts of the joined errors; none of them is success.
pub validate : RequestContext → List Text
validate rc =
    (if text_eq rc.subject_id [] then codes "SubjectID is required" ∷ [] else [])
    ++ (if text_eq rc.tenant_id [] then codes "TenantID is required" ∷ [] else [])

pub has_role : RequestContext → Text → Bool
has_role rc role = any (λ r. text_eq r role) rc.roles

pub claim : RequestContext → Text → Value
claim rc key = elim (lookup key rc.claims) [ none ↦ null | some v ↦ v ]

pub record InvocationInput : Type 0 where
  pub path_params : Map Text
  pub query_params : Map Text
  pub headers : Map Text
  pub body : Value

pub record InvocationResult : Type 0 where
  pub status_code : ℤ
  pub body : Value
  pub headers : Map Text

-- `none` is a nil map.
pub record CommandInput : Type 0 where
  pub input : Option (Map Value)
  pub route_params : Option (Map Text)

pub record DataParams : Type 0 where
  pub page : ℤ
  pub page_size : ℤ
  pub sort : Text
  pub sort_dir : Text
  pub filters : Map Text
  pub query : Text

pub record Pagination : Type 0 where
  pub page : ℤ
  pub page_size : ℤ
  pub domain : Text

-- fmt.Sprint, %q, strings.ToLower, %d, strconv.ParseFloat (`none` is its error, whose text is
-- `parse_error`), int(f) of a float64 by its bits, and the text of a strconv error.
pub record Go : Type 0 where
  pub sprint : Value → Text
  pub quote : Text → Text
  pub to_lower : Text → Text
  pub itoa : ℤ → Text
  pub parse_float : Text → Option ℕ
  pub parse_error : Text → Text
  pub int_of_float : ℕ → ℤ
  pub sprint-str : (s : Text) → sprint (str s) ≡ s

-- A call that may change the world: the new world comes back beside an error too.
abbrev pub Exec : Type 0 → Type 0 → Type 0
Exec W A = W → Result A × W

-- model.OperationInvoker
pub record OperationInvoker (W : Type 0) : Type 0 where
  pub supports : OperationBinding → Bool
  pub invoke : RequestContext → OperationBinding → InvocationInput → Exec W InvocationResult
