-- ===== src/Command/Path/Laws.antt =====
-- Paths and nested values.
use thesa.Prelude.{List, [], ◌∷◌, ◌≡◌, refl, All}
use thesa.Prelude.Text.{Text, codes, text_eq_refl, Lacks}
use thesa.Prelude.Strings.{join, split-join}
use thesa.Prelude.Maps.{lookup}
use thesa.Value.{Value, obj, entry, end}
use thesa.Command.Path.{value_at, walk, navigate_path}

-- The value inside maps nested along the parts, each map holding one key.
abbrev pub nest : List Text → Value → Value
nest [] v = v
nest (p ∷ ps) v = obj (entry p (nest ps v) end)

walk-nest : (ps : List Text) (v : Value) → walk (nest ps v) ps ≡ v
unfolding walk value_at lookup
walk-nest [] v = refl
walk-nest (p ∷ ps) v = rw (text_eq_refl p, lookup, value_at) (walk-nest ps v)

-- A dotted path finds the value at the end of maps nested along its parts, none of which holds a
-- dot.
pub navigate_path-nest :
    (p : Text) (ps : List Text) (v : Value)
    → All (Lacks b'.') (p ∷ ps)
    → navigate_path ((p, nest ps v) ∷ []) (join (p ∷ ps) (codes ".")) ≡ v
unfolding navigate_path
navigate_path-nest p ps v h = rw (split-join b'.' p ps h) (walk-nest (p ∷ ps) v)
