-- ===== src/Command/Path.antt =====
-- Dotted paths into nested maps: navigatePath of internal/command/expression.go, which
-- extractPath of internal/metadata/page.go and extractItems of internal/search/provider.go repeat.
pub mod Laws
use thesa.Prelude.{none, some, List, [], ◌∷◌}
use thesa.Prelude.Text.{Text}
use thesa.Prelude.Strings.{split}
use thesa.Prelude.Maps.{Map, lookup}
use thesa.Value.{Value, null, obj, of_map, as_map}

-- m[k] of a map[string]any
unfoldable pub value_at : Text → Map Value → Value
value_at k m = elim (lookup k m) [ none ↦ null | some v ↦ v ]

-- A part below what is no map is nil.
unfoldable pub walk : Value → List Text → Value
walk v [] = v
walk v (p ∷ ps) = elim (as_map v) [ none ↦ null | some m ↦ walk (value_at p m) ps ]

unfoldable pub navigate_path : Map Value → Text → Value
navigate_path data' path = walk (obj (of_map data')) (split path b'.')
