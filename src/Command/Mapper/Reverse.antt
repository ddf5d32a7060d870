-- ===== src/Command/Mapper/Reverse.antt =====
-- Backend field names, turned back into the user's.
use thesa.Prelude.{Option, none, some, [], ◌∷◌, ◌≡◌, refl, ap, ◌∙◌, arith, drop, if◌then◌else◌}
use thesa.Prelude.Text.{Text, codes, text_eq_iff, has_prefix}
use thesa.Prelude.Maps.{Map, lookup, insert, lookup-insert, DistinctKeys}
use thesa.Command.Mapper.{reverse_field_map}

-- The input path of an expression that reads the input.
abbrev pub input_path : Text → Option Text
input_path expr = if has_prefix expr (codes "input.") then some (drop 6 expr) else none

abbrev pub bind_path : Option Text → Option Text
bind_path none = none
bind_path (some expr) = input_path expr

abbrev or_else : Option Text → Option Text → Option Text
or_else none o = o
or_else (some t) o = some t

abbrev absent_keeps : Option Text → Option Text → Option Text
absent_keeps none o = o
absent_keeps (some expr) o = or_else (input_path expr) o

reverse_field_map_from :
    (k : Text) (m done : Map Text)
    → DistinctKeys m
    → lookup k (reverse_field_map m done) ≡ absent_keeps (lookup k m) (lookup k done)
unfolding reverse_field_map lookup
reverse_field_map_from k [] done d = refl
reverse_field_map_from k ((field, expr) ∷ m) done (fresh, d) = ground (
  arith,
  reverse_field_map_from k m (insert field (drop 6 expr) done) d,
  reverse_field_map_from k m done d,
  lookup-insert field k (drop 6 expr) done,
  text_eq_iff field k,
  ap (λ (x : Text). lookup x m),
)

absent_keeps-none : (o : Option Text) → absent_keeps o none ≡ bind_path o
absent_keeps-none none = refl
absent_keeps-none (some expr) = ground arith

-- The reverse map holds a backend field exactly if its expression reads the input, and gives the
-- input's path.
pub lookup-reverse_field_map :
    (k : Text) (m : Map Text)
    → DistinctKeys m
    → lookup k (reverse_field_map m []) ≡ bind_path (lookup k m)
unfolding lookup
lookup-reverse_field_map k m d = reverse_field_map_from k m [] d ∙ absent_keeps-none (lookup k m)
