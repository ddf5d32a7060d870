-- ===== src/Search/Items.antt =====
-- internal/search/provider.go: from a provider's response to scored results.
use thesa.Prelude.{
  ℕ, ◌+◌, Bool, none, some, List, [], ◌∷◌, ltb, length, take, is_empty, if◌then◌else◌,
}
use thesa.Prelude.Int.{ℤ, pos, pos_part, leb_ℤ, ltb_ℤ}
use thesa.Prelude.Text.{Text, codes}
use thesa.Prelude.Strings.{split, replace_all}
use thesa.Prelude.Maps.{Map}
use thesa.Value.{Value, as_map, as_list, is_nil}
use thesa.Definition.{SearchDefinition}
use thesa.Context.{Go}
use thesa.Command.Path.{value_at, walk}

-- The arithmetic of float64, on bits.
pub record Floats : Type 0 where
  pub of_int : ℤ → ℕ
  pub mul : ℕ → ℕ → ℕ
  pub div : ℕ → ℕ → ℕ
  pub sub : ℕ → ℕ → ℕ
  pub gt : ℕ → ℕ → Bool

abbrev pub float_one : ℕ
float_one = 0x3ff0000000000000

abbrev pub float_half : ℕ
float_half = 0x3fe0000000000000

pub record SearchResult : Type 0 where
  pub id : Text
  pub title : Text
  pub subtitle : Text
  pub category : Text
  pub icon : Text
  pub route : Text
  pub score : ℕ

-- Items that are no maps are passed over.
unfoldable pub to_map_slice : List Value → List (Map Value)
to_map_slice [] = []
to_map_slice (v ∷ vs) =
    let rest = to_map_slice vs in elim (as_map v) [ none ↦ rest | some m ↦ m ∷ rest ]

unfoldable pub extract_items : Value → Text → List (Map Value)
unfolding to_map_slice
extract_items body items_path =
    let found = if is_empty items_path then body else walk body (split items_path b'.') in
    elim (as_list found) [ none ↦ [] | some vs ↦ to_map_slice vs ]

unfoldable pub resolve_route : Text → Text → Text
resolve_route template id = replace_all template (codes "{id}") id

module _ (go : Go) where
  -- A missing key and a nil value print as nothing.
  unfoldable pub get_string : Map Value → Text → Text
  get_string m key =
      if is_empty key
      then []
      else if is_nil (value_at key m)
      then []
      else go.sprint (value_at key m)

  module _ (floats : Floats) where
    -- 1.0 at the top, towards 0.5 at the bottom.
    unfoldable pub position_score : ℕ → ℕ → ℕ
    position_score i total =
        if ltb 1 total
        then floats.sub float_one
            (floats.mul (floats.div (floats.of_int (pos i)) (floats.of_int (pos total))) float_half)
        else float_one

    unfoldable pub map_result : SearchDefinition → ℤ → ℕ → ℕ → Map Value → SearchResult
    map_result def weight total i item =
        let m = def.result_mapping in
        let id = get_string item m.id_field in
        record {
          id = id;
          title = get_string item m.title_field;
          subtitle = get_string item m.subtitle_field;
          category = def.domain;
          icon = get_string item m.icon_field;
          route = resolve_route m.route id;
          score = floats.mul (floats.of_int weight) (position_score i total);
        }

    unfoldable pub map_from : SearchDefinition → ℤ → ℕ → ℕ → List (Map Value) → List SearchResult
    map_from def weight total i [] = []
    map_from def weight total i (item ∷ items) =
        map_result def weight total i item ∷ map_from def weight total (i + 1) items

    abbrev weight_of : SearchDefinition → ℤ
    weight_of def = if leb_ℤ def.weight (pos 0) then pos 1 else def.weight

    -- `max_results` is positive.
    unfoldable pub map_results : List (Map Value) → SearchDefinition → ℤ → List SearchResult
    unfolding map_from
    map_results items def max_results =
        let kept =
          if ltb_ℤ max_results (pos (length items))
          then take (pos_part max_results) items
          else items in
        map_from def (weight_of def) (length kept) 0 kept
