-- ===== src/Command/Response/Laws.antt =====
-- How statuses, codes and field names are reported.
use mathlib.Core.List.{append_assoc}
use mathlib.Core.Path.{ap₂}
use thesa.Prelude.{
  true, false, none, some, List, [], ◌∷◌, ◌++◌, ◌≡◌, ◌↔◌, inl, inr, refl, ◌∙◌, arith, Bool-cases,
  is_empty, is_some, if◌then◌else◌,
}
use thesa.Prelude.Int.{pos, ◌≤ℤ◌, ◌<ℤ◌}
use thesa.Prelude.Text.{Text, codes}
use thesa.Prelude.Maps.{Map, lookup, DistinctKeys}
use thesa.Errors.{FieldError}
use thesa.Value.{Value}
use thesa.Definition.{CommandDefinition}
use thesa.Context.{Go, InvocationResult}
use thesa.OpenApi.{ValidationError}
use thesa.OpenApi.{missing_fields}
use thesa.Command.Mapper.{reverse_field_map}
use thesa.Command.Mapper.Reverse.{bind_path, lookup-reverse_field_map}
use thesa.Command.Response.{
  word_at, contains_word, error_code, translate_validation_errors, handle_client_error,
  handle_response,
}

client_error_failed :
    (go : Go) (result : InvocationResult) (cmd : CommandDefinition)
    → (handle_client_error go result cmd).success ≡ false
unfolding handle_client_error
client_error_failed go result cmd = ground arith

-- A response is a success exactly for the statuses 200 to 299.
pub handle_response_success_iff :
    (go : Go) (result : InvocationResult) (cmd : CommandDefinition)
    → ((handle_response go result cmd).success ≡ true)
      ↔ ((pos 200 ≤ℤ result.status_code) × (result.status_code <ℤ pos 300))
unfolding handle_response
handle_response_success_iff go result cmd = (
  λ h. ground (arith, client_error_failed go result cmd),
  λ h. ground (arith, client_error_failed go result cmd),
)

word_at-prefix : (w : Text) → word_at w w ≡ true
unfolding word_at
word_at-prefix [] = refl
word_at-prefix (c ∷ w) = ground (arith, word_at-prefix w)

contains_word-append : (s w : Text) → contains_word (s ++ w) w ≡ true
unfolding contains_word
contains_word-append [] [] = refl
contains_word-append [] (c ∷ w) = ground (arith, word_at-prefix (c ∷ w))
contains_word-append (c ∷ s) w = ground (arith, contains_word-append s w)

-- What a missing field is reported as: under the user's name for it where the projection reads it
-- from the input.
abbrev pub missing_error : Map Text → Text → FieldError
missing_error projection field = record {
  field = elim (bind_path (lookup field projection)) [ none ↦ field | some path ↦ path ];
  code = if is_empty field then codes "INVALID_VALUE" else codes "REQUIRED";
  message = field ++ codes " is required";
}

abbrev pub missing_errors : Map Text → Map Value → List Text → List FieldError
missing_errors projection body [] = []
missing_errors projection body (field ∷ fields) =
    if is_some (lookup field body)
    then missing_errors projection body fields
    else missing_error projection field ∷ missing_errors projection body fields

required_code :
    (field : Text)
    → error_code (record { field = field; message = field ++ codes " is required" })
      ≡ (if is_empty field then codes "INVALID_VALUE" else codes "REQUIRED")
required_code [] = refl
required_code (c ∷ field) =
    let w : contains_word ((c ∷ field ++ codes " is ") ++ codes "required") (codes "required")
        ≡ true =
      contains_word-append (c ∷ field ++ codes " is ") (codes "required") in
    rw (← append_assoc (c ∷ field) (codes " is ") (codes "required"), w)

missing_error_lem :
    (projection : Map Text) (field : Text)
    → DistinctKeys projection
    → translate_validation_errors
        (record { field = field; message = field ++ codes " is required" } ∷ [])
        (reverse_field_map projection [])
      ≡ missing_error projection field ∷ []
unfolding translate_validation_errors
missing_error_lem projection field d = λ i.
    record {
      field = elim (lookup-reverse_field_map field projection d i) [
        | none ↦ field
        | some path ↦ path
      ];
      code = required_code field i;
      message = field ++ codes " is required";
    }
    ∷ []

translate-cons :
    (ve : ValidationError) (ves : List ValidationError) (reverse : Map Text)
    → translate_validation_errors (ve ∷ ves) reverse
      ≡ translate_validation_errors (ve ∷ []) reverse ++ translate_validation_errors ves reverse
unfolding translate_validation_errors
translate-cons ve ves reverse = refl

-- The required fields that a body lacks are reported one by one, in the schema's order: with the
-- code REQUIRED (INVALID_VALUE for an empty name), and under the input's path where the projection
-- takes the field from the input.
pub translate-missing_fields :
    (projection : Map Text) (body : Map Value) (required : List Text)
    → DistinctKeys projection
    → translate_validation_errors (missing_fields required body) (reverse_field_map projection [])
      ≡ missing_errors projection body required
unfolding missing_fields
translate-missing_fields projection body [] d = unfold translate_validation_errors in refl
translate-missing_fields projection body (field ∷ fields) d =
    elim (Bool-cases (is_some (lookup field body))) [
      | inl there ↦ rw there (translate-missing_fields projection body fields d)
      | inr missing ↦ rw missing (
          translate-cons _ (missing_fields fields body) (reverse_field_map projection [])
          ∙ ap₂ ◌++◌ (missing_error_lem projection field d)
              (translate-missing_fields projection body fields d))
    ]
