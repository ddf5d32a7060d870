-- ===== src/Metadata/Page/Renames.antt =====
-- What a field map makes of the items of a response.
use thesa.Prelude.{
  Option, none, some, List, [], ◌∷◌, ◌≡◌, ◌≢◌, ◌⊎◌, inl, inr, refl, sym, ap, arith, In, Bool-cases,
}
use thesa.Prelude.Text.{Text, text_eq, text_eq_iff}
use thesa.Prelude.Maps.{Map, lookup, insert, lookup-insert}
use thesa.Value.{Value}
use thesa.Metadata.Form.{new_name, rename_fields}
use thesa.Metadata.Page.Data.{apply_field_map}

-- The name that a field of an item gets: the one of the field map, or its own.
abbrev pub Names : Map Text → Text → Text → Type 0
Names field_map k name =
    (lookup k field_map ≡ some name) ⊎ ((lookup k field_map ≡ none) × (name ≡ k))

-- A row has no values but those of the item under their names, and a value under each of the names.
pub record Renamed (field_map : Map Text) (item row : Map Value) : Type 0 where
  pub from :
      (name : Text) (v : Value)
      → lookup name row ≡ some v
      → (k : Text) × Names field_map k name × In (k, v) item
  pub covers :
      (k : Text) (v : Value)
      → In (k, v) item
      → (name : Text) × Names field_map k name × (lookup name row ≢ none)

abbrev pub RenamedEach : Map Text → List (Map Value) → List (Map Value) → Type 0
RenamedEach field_map [] [] = Unit {0}
RenamedEach field_map [] (row ∷ rows) = ⊥
RenamedEach field_map (item ∷ items) [] = ⊥
RenamedEach field_map (item ∷ items) (row ∷ rows) =
    Renamed field_map item row × RenamedEach field_map items rows

module _ (field_map : Map Text) where
  new_name-Names : (k : Text) → Names field_map k (new_name field_map k)
  new_name-Names k = cases (lookup k field_map) refl
    where
      cases :
          (o : Option Text)
          → lookup k field_map ≡ o
          → (lookup k field_map ≡ some (elim o [ none ↦ k | some name ↦ name ]))
            ⊎ ((lookup k field_map ≡ none) × (elim o [ none ↦ k | some name ↦ name ] ≡ k))
      cases none e = inr (e, refl)
      cases (some name) e = inl e

  renamed_from :
      (item done : Map Value) (name : Text) (v : Value)
      → lookup name (rename_fields item field_map done) ≡ some v
      → ((k : Text) × Names field_map k name × In (k, v) item) ⊎ (lookup name done ≡ some v)
  unfolding rename_fields
  renamed_from [] done name v h = inr h
  renamed_from ((k, u) ∷ item) done name v h =
      let new = new_name field_map k in
      elim (renamed_from item (insert new u done) name v h) [
        | inl (j, named, i) ↦ inl (j, named, inr i)
        | inr held ↦ elim (Bool-cases (text_eq new name)) [
          | inl same ↦
              let e : u ≡ v = ground (arith, held, same, lookup-insert new name u done) in
              inl (
                k,
                rw (← (text_eq_iff new name).0 same) (new_name-Names k),
                inl (λ i. (k, sym e i)),
              )
          | inr other ↦ inr (ground (arith, held, other, lookup-insert new name u done))
        ]
      ]

  still_held :
      (item done : Map Value) (name : Text)
      → lookup name done ≢ none
      → lookup name (rename_fields item field_map done) ≢ none
  unfolding rename_fields
  still_held [] done name h = h
  still_held ((k, u) ∷ item) done name h =
      let new = new_name field_map k in
      still_held item (insert new u done) name (elim (Bool-cases (text_eq new name)) [
        | inl same ↦ λ e. absurd (ground (arith, e, same, lookup-insert new name u done))
        | inr other ↦ λ e. h (ground (arith, e, other, lookup-insert new name u done))
      ])

  renamed_covers :
      (item done : Map Value) (k : Text) (v : Value)
      → In (k, v) item
      → lookup (new_name field_map k) (rename_fields item field_map done) ≢ none
  unfolding rename_fields
  renamed_covers [] done k v i = absurd i
  renamed_covers ((j, u) ∷ item) done k v (inl e) =
      let same : k ≡ j = ap (λ (p : Text × Value). p.0) e in
      rw same (
        still_held item (insert (new_name field_map j) u done) (new_name field_map j)
          (inserted (new_name field_map j) u done))
    where
      inserted : (n : Text) (w : Value) (m : Map Value) → lookup n (insert n w m) ≢ none
      inserted n w m h = absurd (ground (arith, h, lookup-insert n n w m, (text_eq_iff n n).1 refl))
  renamed_covers ((j, u) ∷ item) done k v (inr i) =
      renamed_covers item (insert (new_name field_map j) u done) k v i

  not_held : (name : Text) (v : Value) → ¬ (lookup name [] ≡ some v)
  unfolding lookup
  not_held name v h = cc

  rename_fields-Renamed :
      (item : Map Value) → Renamed field_map item (rename_fields item field_map [])
  rename_fields-Renamed item = record {
    from = λ name v h. elim (renamed_from item [] name v h) [
      | inl found ↦ found
      | inr held ↦ absurd (not_held name v held)
    ];
    covers = λ k v i. (new_name field_map k, new_name-Names k, renamed_covers item [] k v i);
  }

  pub apply_field_map-RenamedEach :
      (items : List (Map Value)) → RenamedEach field_map items (apply_field_map items field_map)
  unfolding apply_field_map
  apply_field_map-RenamedEach [] = tt
  apply_field_map-RenamedEach (item ∷ items) =
      (rename_fields-Renamed item, apply_field_map-RenamedEach items)
