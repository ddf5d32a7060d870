-- ===== src/Command/Number.antt =====
-- Numeric literals: isNumericLiteral and parseNumeric of internal/command/expression.go.
pub mod Laws
use thesa.Prelude.{
  ℕ, zero, suc, ◌+◌, ◌-◌, ◌*◌, ◌^◌, Bool, true, false, not, ◌||◌, Option, none, some, [], ◌∷◌, ◌++◌,
  ltb, ◌==◌, any, is_empty, if◌then◌else◌,
}
use thesa.Prelude.Int.{ℤ, pos, negsuc}
use thesa.Prelude.Text.{Text, codes}
use thesa.Errors.{Result, ok, err, plain}
use thesa.Value.{Value, float, int}
use thesa.Context.{Go}

abbrev pub is_digit : ℕ → Bool
is_digit c = not (ltb c b'0' || ltb b'9' c)

abbrev pub is_sign : ℕ → Bool
is_sign c = c == b'-' || c == b'+'

-- The loop over the bytes behind the sign.
unfoldable pub scan : Bool → Text → Bool
scan has_dot [] = true
scan has_dot (c ∷ s) =
    let behind_dot = scan true s in
    let digits = scan has_dot s in
    if c == b'.'
    then (if has_dot then false else behind_dot)
    else if ltb c b'0' || ltb b'9' c
    then false
    else digits

unfoldable pub is_numeric_literal : Text → Bool
unfolding scan
is_numeric_literal [] = false
is_numeric_literal (c ∷ s) =
    if is_sign c then (if is_empty s then false else scan false s) else scan false (c ∷ s)

-- strconv.ParseInt(s, 10, 64); `none` is its error.
unfoldable pub read_digits : ℕ → Text → Option ℕ
read_digits n [] = some n
read_digits n (c ∷ s) =
    let rest = read_digits (n * 10 + (c - b'0')) s in if is_digit c then rest else none

abbrev pub unsigned : Text → Option ℕ
unsigned [] = none
unsigned (c ∷ s) = read_digits 0 (c ∷ s)

abbrev pub positive : Option ℕ → Option ℤ
positive none = none
positive (some n) = if ltb n (2 ^ 63) then some (pos n) else none

abbrev pub negative : Option ℕ → Option ℤ
negative none = none
negative (some zero) = some (pos 0)
negative (some (suc n)) = if ltb n (2 ^ 63) then some (negsuc n) else none

unfoldable pub parse_int : Text → Option ℤ
unfolding read_digits
parse_int [] = none
parse_int (c ∷ s) =
    if c == b'+'
    then positive (unsigned s)
    else if c == b'-'
    then negative (unsigned s)
    else positive (unsigned (c ∷ s))

module _ (go : Go) where
  abbrev pub bad_number : Text → Result Value
  bad_number s =
      err (
        plain
          (codes "invalid numeric literal " ++ (go.quote s ++ (codes ": " ++ go.parse_error s))))

  abbrev pub float_result : Text → Option ℕ → Result Value
  float_result s none = bad_number s
  float_result s (some f) = ok (float f)

  abbrev pub int_result : Text → Option ℤ → Result Value
  int_result s none = bad_number s
  int_result s (some n) = ok (int n)

  unfoldable pub parse_numeric : Text → Result Value
  unfolding parse_int
  parse_numeric s =
      if any (λ c. c == b'.') s
      then float_result s (go.parse_float s)
      else int_result s (parse_int s)
