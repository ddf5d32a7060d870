-- ===== src/Transport/Query.antt =====
-- The query of a request: queryInt and queryMap of internal/transport/handler_page.go, and the
-- loop over all parameters of handler_form.go.
pub mod Laws
use thesa.Prelude.{
  ◌+◌, ◌-◌, Bool, ◌&&◌, Option, none, some, List, [], ◌∷◌, ◌++◌, ltb, length, take, drop, is_empty,
  if◌then◌else◌,
}
use thesa.Prelude.Int.{ℤ}
use thesa.Prelude.Text.{Text, codes, has_prefix, has_suffix}
use thesa.Prelude.Maps.{Map, lookup, insert}
use thesa.Command.Number.{parse_int}

abbrev pub first_value : Option (List Text) → Text
first_value none = []
first_value (some []) = []
first_value (some (v ∷ vs)) = v

-- r.URL.Query().Get(key)
abbrev pub query_get : Map (List Text) → Text → Text
query_get query key = first_value (lookup key query)

abbrev int_or : ℤ → Option ℤ → ℤ
int_or def none = def
int_or def (some v) = v

unfoldable pub query_int : Map (List Text) → Text → ℤ → ℤ
query_int query key def =
    let s = query_get query key in if is_empty s then def else int_or def (parse_int s)

abbrev pub is_bracketed : Text → Text → Bool
is_bracketed prefix key =
    ltb (length prefix + 2) (length key)
    && (has_prefix key (prefix ++ codes "[") && has_suffix key (codes "]"))

-- key[len(prefix)+1 : len(key)-1]
abbrev pub bracketed : Text → Text → Text
bracketed prefix key = drop (length prefix + 1) (take (length key - 1) key)

abbrev pub put_first : Text → List Text → Map Text → Map Text
put_first field [] result = result
put_first field (v ∷ vs) result = insert field v result

unfoldable pub query_map : Map (List Text) → Text → Map Text → Map Text
query_map [] prefix result = result
query_map ((key, values) ∷ query) prefix result =
    query_map query prefix
      (if is_bracketed prefix key then put_first (bracketed prefix key) values result else result)

unfoldable pub all_params : Map (List Text) → Map Text → Map Text
all_params [] result = result
all_params ((key, values) ∷ query) result = all_params query (put_first key values result)
