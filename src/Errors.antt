-- ===== src/Errors.antt =====
-- model/errors.go: the error envelope and its constructors, and results that may be errors.
use thesa.Prelude.{Option, none, some, List, [], ◌++◌, ◌≡◌, refl, ◌⊎◌, inl, inr}
use thesa.Prelude.Text.{Text, codes}

-- The standard error codes, by the names of their constants.
pub data Code : Type 0 where
  bad_request unauthorized forbidden not_found conflict validation_error : Code
  rate_limited internal_error backend_unavailable backend_timeout : Code

pub record FieldError : Type 0 where
  pub field : Text
  pub code : Text
  pub message : Text

pub record ErrorEnvelope : Type 0 where
  pub code : Code
  pub message : Text
  pub details : List FieldError
  pub trace_id : Text

-- Go's `error`: an *ErrorEnvelope, or any other error by its text.
pub data Error : Type 0 where
  envelope : ErrorEnvelope → Error
  plain : Text → Error

abbrev new : Code → Text → List FieldError → Error
new c msg details = envelope (record { code = c; message = msg; details = details; trace_id = [] })

abbrev pub new_bad_request : Text → Error
new_bad_request msg = new bad_request msg []

abbrev pub new_unauthorized : Text → Error
new_unauthorized msg = new unauthorized msg []

abbrev pub new_forbidden : Text → Error
new_forbidden msg = new forbidden msg []

abbrev pub new_not_found : Text → Error
new_not_found msg = new not_found msg []

abbrev pub new_conflict : Text → Error
new_conflict msg = new conflict msg []

abbrev pub new_validation_error : List FieldError → Error
new_validation_error details = new validation_error (codes "One or more fields are invalid") details

abbrev pub new_internal_error : Error
new_internal_error = new internal_error (codes "An unexpected error occurred") []

abbrev pub new_backend_unavailable : Error
new_backend_unavailable =
    new backend_unavailable (codes "The backend service is temporarily unavailable") []

abbrev pub new_backend_timeout : Error
new_backend_timeout = new backend_timeout (codes "The backend service did not respond in time") []

abbrev pub new_rate_limited : Error
new_rate_limited = new rate_limited (codes "Rate limit exceeded. Please try again later.") []

pub data Result {ℓ} (A : Type ℓ) : Type ℓ where
  err : Error → Result A
  ok : A → Result A

-- err wrapped by fmt.Errorf: a plain error with the text that `say` makes.
abbrev pub wrap_error {ℓ} : {A : Type ℓ} → (Error → Text) → Result A → Result A
wrap_error say (ok a) = ok a
wrap_error say (err e) = err (plain (say e))

-- The next step is taken only after success.
infixl 5 ◌>>=◌
abbrev pub ◌>>=◌ {ℓ κ} : {A : Type ℓ} {B : Type κ} → Result A → (A → Result B) → Result B
err why >>= next = err why
ok value >>= next = next value

pub Result-cases {ℓ} :
    {A : Type ℓ} (r : Result A) → ((a : A) × (r ≡ ok a)) ⊎ ((e : Error) × (r ≡ err e))
Result-cases (ok a) = inl (a, refl)
Result-cases (err e) = inr (e, refl)

-- The string value of a code.
abbrev pub code_text : Code → Text
code_text bad_request = codes "BAD_REQUEST"
code_text unauthorized = codes "UNAUTHORIZED"
code_text forbidden = codes "FORBIDDEN"
code_text not_found = codes "NOT_FOUND"
code_text conflict = codes "CONFLICT"
code_text validation_error = codes "VALIDATION_ERROR"
code_text rate_limited = codes "RATE_LIMITED"
code_text internal_error = codes "INTERNAL_ERROR"
code_text backend_unavailable = codes "BACKEND_UNAVAILABLE"
code_text backend_timeout = codes "BACKEND_TIMEOUT"

-- err.Error()
abbrev pub error_text : Error → Text
error_text (envelope e) = code_text e.code ++ (codes ": " ++ e.message)
error_text (plain t) = t

-- The code of an error that is an *ErrorEnvelope.
abbrev pub code_of : Error → Option Code
code_of (envelope e) = some e.code
code_of (plain t) = none

-- A chain that succeeds has a first step that succeeds, and a next one that gives the result.
pub >>=-eq-ok {ℓ κ} :
    {A : Type ℓ} {B : Type κ} (first : Result A) (next : A → Result B) {result : B}
    → (first >>= next) ≡ ok result
    → (value : A) × (first ≡ ok value) × (next value ≡ ok result)
>>=-eq-ok (err why) next h = cc
>>=-eq-ok (ok value) next h = (value, refl, h)

pub wrap_error-ok :
    {A : Type 0} (say : Error → Text) (r : Result A) (a : A) → wrap_error say r ≡ ok a → r ≡ ok a
wrap_error-ok say (ok b) a h = h
wrap_error-ok say (err e) a h = absurd (cc)
