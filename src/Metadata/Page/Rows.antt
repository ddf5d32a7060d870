-- ===== src/Metadata/Page/Rows.antt =====
-- The query that a data request sends, and the rows and the total that come back.
use thesa.Prelude.{
  is_empty_iff, is_empty_nil, false, true, ◌↔◌, Bool, Option, none, some, List, [], ◌≡◌, ◌≢◌, ◌⊎◌,
  refl, arith, inl, inr, ℕ, zero, suc, length, is_empty, Bool-cases, if◌then◌else◌,
}
use thesa.Prelude.Int.{ℤ, pos, negsuc, ltb_ℤ}
use thesa.Prelude.Text.{Text, codes}
use thesa.Prelude.Maps.{Map, lookup, or_else}
use thesa.Value.{Value, as_map, as_list}
use thesa.Definition.{ResponseMappingDefinition}
use thesa.Context.{Go, InvocationResult, DataParams}
use thesa.Metadata.Descriptor.{DataPayload}
use thesa.Metadata.Page.Renames.{RenamedEach, apply_field_map-RenamedEach}
use thesa.Metadata.Page.Data.{
  apply_response_mapping, is_zero, rows_of, count_of, extract_path, to_rows, payload_of,
}

module _ (go : Go) (params : DataParams) where
  -- What the request asks for, before the filters.
  abbrev pub Asks : (Text → Option Text) → Type 0
  Asks query =
      (query (codes "page")
        ≡ or_else (lookup (codes "page") params.filters)
            (if ltb_ℤ (pos 0) params.page then some (go.itoa params.page) else none))
      × (query (codes "page_size")
          ≡ or_else (lookup (codes "page_size") params.filters)
              (if ltb_ℤ (pos 0) params.page_size then some (go.itoa params.page_size) else none))
      × (query (codes "sort")
          ≡ or_else (lookup (codes "sort") params.filters)
              (if is_empty params.sort then none else some params.sort))
      × (query (codes "sort_dir")
          ≡ or_else (lookup (codes "sort_dir") params.filters)
              (if is_empty params.sort_dir then none else some params.sort_dir))
      × (query (codes "q")
          ≡ or_else (lookup (codes "q") params.filters)
              (if is_empty params.query then none else some params.query))

module _ (go : Go) where
  positive : (n : ℕ) → pos (suc n) ≢ pos 0
  positive n h = absurd (cc)

  is_zero_iff : (z : ℤ) → (is_zero go z ≡ true) ↔ (z ≡ pos 0)
  is_zero_iff (pos zero) = (λ h. refl, λ h. refl)
  is_zero_iff (pos (suc n)) = (λ h. absurd (ground (arith, h)), λ h. absurd (positive n h))
  is_zero_iff (negsuc n) = (λ h. absurd (ground (arith, h)), λ h. absurd (ground (arith, h)))

  -- The total is the count at the total path, where the mapping has one and the count is not 0, and
  -- the number of the rows otherwise.
  abbrev pub Totals : Map Value → ResponseMappingDefinition → DataPayload → Type 0
  Totals body mapping payload =
      ((mapping.total_path ≢ [])
        × (count_of go (extract_path body mapping.total_path) ≢ pos 0)
        × (payload.total_count ≡ count_of go (extract_path body mapping.total_path)))
      ⊎ (((mapping.total_path ≡ []) ⊎ (count_of go (extract_path body mapping.total_path) ≡ pos 0))
          × (payload.total_count ≡ pos (length payload.items)))

  -- The rows are the maps of the array at the items path, as they are or with their fields renamed.
  abbrev pub HasRows : Map Value → ResponseMappingDefinition → List (Map Value) → Type 0
  HasRows body mapping rows =
      ((mapping.field_map ≡ []) × (rows ≡ to_rows (as_list (extract_path body mapping.items_path))))
      ⊎ ((mapping.field_map ≢ [])
          × RenamedEach mapping.field_map (to_rows (as_list (extract_path body mapping.items_path)))
              rows)

  abbrev pub Counts : Option (Map Value) → ResponseMappingDefinition → DataPayload → Type 0
  Counts none mapping payload = (payload.items ≡ []) × (payload.total_count ≡ pos 0)
  Counts (some body) mapping payload =
      Totals body mapping payload × HasRows body mapping payload.items

  total_lem :
      (body : Map Value) (mapping : ResponseMappingDefinition) (params : DataParams)
      → Totals body mapping (payload_of go (some body) mapping params)
  total_lem body mapping params = elim (Bool-cases (is_empty mapping.total_path)) [
    | inl unset ↦ rw unset (inr (inl (is_empty_nil _ unset), refl))
    | inr set ↦
        elim (Bool-cases (is_zero go (count_of go (extract_path body mapping.total_path)))) [
          | inl zero' ↦ rw (set, zero') (inr (inr ((is_zero_iff _).0 zero'), refl))
          | inr other ↦
              rw (set, other)
                (inl ((is_empty_iff _).0 set, λ h. clash ((is_zero_iff _).1 h) other, refl))
        ]
  ]
    where
      clash : {b : Bool} → b ≡ true → ¬ (b ≡ false)
      clash h k = cc

  rows_lem :
      (body : Map Value) (mapping : ResponseMappingDefinition)
      → HasRows body mapping (rows_of go body mapping)
  rows_lem body mapping = elim (Bool-cases (is_empty mapping.field_map)) [
    | inl none' ↦ rw none' (inl (is_empty_nil _ none', refl))
    | inr some' ↦
        rw some' (inr ((is_empty_iff _).0 some', apply_field_map-RenamedEach mapping.field_map _))
  ]

  payload_of-Counts :
      (body : Option (Map Value)) (mapping : ResponseMappingDefinition) (params : DataParams)
      → Counts body mapping (payload_of go body mapping params)
        × ((payload_of go body mapping params).page ≡ params.page)
        × ((payload_of go body mapping params).page_size ≡ params.page_size)
  payload_of-Counts none mapping params = ((refl, refl), refl, refl)
  payload_of-Counts (some body) mapping params =
      ((total_lem body mapping params, rows_lem body mapping), refl, refl)

  -- A response whose body is a map gives as rows the maps of the array at the items path. With a
  -- field map a row has no values but those of its item, each under the name that the map gives its
  -- field, or under the field's own name where it gives none, and it has a value under each of these
  -- names. The total is the count at the total path, where the mapping has one and the count is not
  -- 0, and the number of the rows otherwise. Another body gives no rows and the total 0. The page and
  -- the page size are those asked for.
  pub apply_response_mapping-Counts :
      (result : InvocationResult) (mapping : ResponseMappingDefinition) (params : DataParams)
      → Counts (as_map result.body) mapping (apply_response_mapping go result mapping params).data'
        × ((apply_response_mapping go result mapping params).data'.page ≡ params.page)
        × ((apply_response_mapping go result mapping params).data'.page_size ≡ params.page_size)
  unfolding apply_response_mapping
  apply_response_mapping-Counts result mapping params =
      payload_of-Counts (as_map result.body) mapping params
