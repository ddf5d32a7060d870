-- ===== src/Value.antt =====
-- Values of Go's `any` as the program meets them: decoded JSON, numbers of expressions, and maps.
use thesa.Prelude.{ℕ, ◌≡◌, refl, Bool, Option, none, some, List, [], ◌∷◌}
use thesa.Prelude.Int.{ℤ}
use thesa.Prelude.Text.{Text}
use thesa.Prelude.Maps.{Map}

-- `float` holds the 64 bits of a float64; `nil_obj` is a nil map[string]any inside an `any`.
mutual
  pub data Value : Type 0 where
    null : Value
    bool : Bool → Value
    float : ℕ → Value
    int : ℤ → Value
    str : Text → Value
    arr : Items → Value
    obj : Fields → Value
    nil_obj : Value

  pub data Items : Type 0 where
    nil : Items
    cons : Value → Items → Items

  pub data Fields : Type 0 where
    end : Fields
    entry : Text → Value → Fields → Fields

abbrev pub to_list : Items → List Value
to_list nil = []
to_list (cons v vs) = v ∷ to_list vs

abbrev pub of_list : List Value → Items
of_list [] = nil
of_list (v ∷ vs) = cons v (of_list vs)

abbrev pub to_map : Fields → Map Value
to_map end = []
to_map (entry k v fs) = (k, v) ∷ to_map fs

abbrev pub of_map : Map Value → Fields
of_map [] = end
of_map ((k, v) ∷ m) = entry k v (of_map m)

-- The assertion v.(map[string]any)
abbrev pub as_map : Value → Option (Map Value)
as_map (obj fs) = some (to_map fs)
as_map nil_obj = some []
as_map _ = none

-- The assertion v.([]any)
abbrev pub as_list : Value → Option (List Value)
as_list (arr vs) = some (to_list vs)
as_list _ = none

-- The assertion v.(string)
abbrev pub as_str : Value → Option Text
as_str (str s) = some s
as_str _ = none

-- v == nil
abbrev pub is_nil : Value → Bool
is_nil null = Bool.true
is_nil _ = Bool.false

pub to_map-of_map : (m : Map Value) → to_map (of_map m) ≡ m
to_map-of_map [] = refl
to_map-of_map ((k, v) ∷ m) = λ i. (k, v) ∷ to_map-of_map m i

-- A map[string]any as an `any`; `none` is the nil map.
abbrev pub of_nillable : Option (Map Value) → Value
of_nillable none = nil_obj
of_nillable (some m) = obj (of_map m)
