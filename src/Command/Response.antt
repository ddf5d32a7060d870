-- ===== src/Command/Response.antt =====
-- internal/command/executor.go: a backend's answer, turned into the command's response.
pub mod Laws
use thesa.Prelude.{
  ℕ, ◌+◌, ◌%◌, Bool, true, false, not, ◌&&◌, ◌||◌, Option, none, some, List, [], ◌∷◌, ◌++◌, ◌==◌,
  is_empty, if◌then◌else◌,
}
use thesa.Prelude.Int.{pos, ltb_ℤ, leb_ℤ}
use thesa.Prelude.Text.{Text, codes}
use thesa.Prelude.Maps.{Map, lookup, insert}
use thesa.Errors.{FieldError}
use thesa.Value.{Value, as_map, as_list, as_str, is_nil}
use thesa.Definition.{CommandDefinition, OutputMapping}
use thesa.Context.{Go, InvocationResult}
use thesa.OpenApi.{ValidationError}
use thesa.Command.Path.{value_at, navigate_path}
use thesa.Command.Mapper.{reverse_field_map}

-- `none` is the nil map.
pub record CommandResponse : Type 0 where
  pub success : Bool
  pub message : Text
  pub result : Option (Map Value)
  pub errors : List FieldError

abbrev pub no_response : CommandResponse
no_response = record { success = false; message = []; result = none; errors = [] }

-- The reverse map's name for a field, or the field itself.
abbrev pub renamed : Map Text → Text → Text
renamed reverse field = elim (lookup field reverse) [ none ↦ field | some ui_field ↦ ui_field ]

abbrev pub same_letter : ℕ → ℕ → Bool
same_letter sc wc = sc == wc || (sc == (wc + 32) % 256 || sc == (wc + 224) % 256)

-- The inner loop at one offset; too few bytes are no match.
unfoldable pub word_at : Text → Text → Bool
word_at s [] = true
word_at [] (d ∷ w) = false
word_at (c ∷ s) (d ∷ w) = same_letter c d && word_at s w

unfoldable pub contains_word : Text → Text → Bool
unfolding word_at
contains_word [] word = word_at [] word
contains_word (c ∷ s) word = word_at (c ∷ s) word || contains_word s word

abbrev pub error_code : ValidationError → Text
error_code ve =
    if not (is_empty ve.field)
      && (not (is_empty ve.message) && contains_word ve.message (codes "required"))
    then codes "REQUIRED"
    else codes "INVALID_VALUE"

unfoldable pub translate_validation_errors : List ValidationError → Map Text → List FieldError
translate_validation_errors [] reverse = []
translate_validation_errors (ve ∷ ves) reverse =
    record { field = renamed reverse ve.field; code = error_code ve; message = ve.message }
    ∷ translate_validation_errors ves reverse

unfoldable pub map_fields : Map Value → Map Text → Map Value → Map Value
map_fields body [] done = done
map_fields body ((ui_field, path) ∷ m) done =
    map_fields body m (insert ui_field (navigate_path body path) done)

unfoldable pub apply_output_mapping : Map Value → OutputMapping → Map Value
unfolding map_fields
apply_output_mapping body output =
    if is_empty output.fields then body else map_fields body output.fields []

-- v, ok := m[k].(string), or else "".
abbrev pub string_at : Text → Map Value → Text
string_at k m = elim (as_str (value_at k m)) [ none ↦ [] | some s ↦ s ]

unfoldable pub field_errors : List Value → List FieldError
unfolding value_at
field_errors [] = []
field_errors (item ∷ items) =
    let rest = field_errors items in
    elim (as_map item) [
      | none ↦ rest
      | some m ↦
          if is_empty (string_at (codes "field") m) && is_empty (string_at (codes "message") m)
          then rest
          else record {
            field = string_at (codes "field") m;
            code = string_at (codes "code") m;
            message = string_at (codes "message") m;
          }
            ∷ rest
    ]

unfoldable pub extract_field_errors : Map Value → List FieldError
unfolding field_errors
extract_field_errors body =
    let details = navigate_path body (codes "error.details") in
    let found = if is_nil details then navigate_path body (codes "details") else details in
    elim (as_list found) [ none ↦ [] | some items ↦ field_errors items ]

abbrev rename_errors : Map Text → List FieldError → List FieldError
rename_errors reverse [] = []
rename_errors reverse (fe ∷ fes) =
    record fe { field = renamed reverse fe.field } ∷ rename_errors reverse fes

module _ (go : Go) where
  unfoldable pub extract_string : Map Value → Text → Text
  extract_string body path =
      let val = navigate_path body path in
      if is_nil val then [] else elim (as_str val) [ none ↦ go.sprint val | some s ↦ s ]

  -- The second path where the first gives nothing.
  unfoldable pub extract_either : Map Value → Text → Text → Text
  extract_either body first second =
      if is_empty (extract_string body first)
      then extract_string body second
      else extract_string body first

  unfoldable pub handle_client_error : InvocationResult → CommandDefinition → CommandResponse
  handle_client_error result cmd_def = elim (as_map result.body) [
    | none ↦ record no_response {
      message = codes "Backend returned status " ++ go.itoa result.status_code;
    }
    | some body ↦
        let error_code = extract_either body (codes "error.code") (codes "code") in
        let error_msg = extract_either body (codes "error.message") (codes "message") in
        record no_response {
          message = elim (lookup error_code cmd_def.output.error_map) [
            | none ↦ error_msg
            | some translated ↦ translated
          ];
          errors =
              rename_errors (reverse_field_map cmd_def.input.field_projection [])
                (extract_field_errors body);
        }
  ]

  -- 2xx, 4xx, and everything else.
  unfoldable pub handle_response : InvocationResult → CommandDefinition → CommandResponse
  handle_response result cmd_def =
      if leb_ℤ (pos 200) result.status_code && ltb_ℤ result.status_code (pos 300)
      then record no_response {
        success = true;
        message = cmd_def.output.success_message;
        result = elim (as_map result.body) [
          | none ↦ none
          | some body ↦ some (apply_output_mapping body cmd_def.output)
        ];
      }
      else if leb_ℤ (pos 400) result.status_code && ltb_ℤ result.status_code (pos 500)
      then handle_client_error result cmd_def
      else record no_response {
        message = codes "An internal error occurred. Please try again later.";
      }
