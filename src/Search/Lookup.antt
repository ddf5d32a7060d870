-- ===== src/Search/Lookup.antt =====
-- internal/search/lookup.go: the options of a lookup, from its cache or from the backend.
pub mod Laws
use thesa.Prelude.{
  Bool, true, false, not, ◌&&◌, ◌||◌, Option, none, some, List, [], ◌∷◌, ◌++◌, length, keep,
  is_empty, if◌then◌else◌,
}
use thesa.Prelude.Int.{ℤ, pos, ◌+ℤ◌, leb_ℤ, ltb_ℤ, wrap64}
use thesa.Prelude.Text.{Text, codes, text_eq, has_prefix}
use thesa.Prelude.Strings.{contains}
use thesa.Prelude.Maps.{Map, lookup, insert, delete_if}
use thesa.Errors.{Result, ok, err, plain, error_text, new_not_found}
use thesa.Value.{Value, null, as_map, as_list}
use thesa.Definition.{LookupDefinition, CacheConfig}
use thesa.Context.{Go, RequestContext, InvocationInput, InvocationResult, OperationInvoker, Exec}
use thesa.Registry.{Snapshot, get_lookup}
use thesa.Invoker.{invoke}
use thesa.Search.Items.{to_map_slice, get_string}

pub record OptionDescriptor : Type 0 where
  pub label : Text
  pub value : Text

pub record CacheEntry : Type 0 where
  pub options : List OptionDescriptor
  pub expires_at : ℤ

-- The configuration; the cache is the state that the operations pass on.
pub record LookupProvider : Type 0 where
  pub default_ttl : ℤ
  pub max_entries : ℤ

pub record LookupResponse : Type 0 where
  pub options : List OptionDescriptor
  pub cached : Bool

-- Five minutes, and 1000 entries.
unfoldable pub new_lookup_provider : ℤ → ℤ → LookupProvider
new_lookup_provider default_ttl max_entries = record {
  default_ttl = if leb_ℤ default_ttl (pos 0) then pos 300000000000 else default_ttl;
  max_entries = if leb_ℤ max_entries (pos 0) then pos 1000 else max_entries;
}

abbrev pub scope_of : Option CacheConfig → Text
scope_of none = codes "global"
scope_of (some c) = if is_empty c.scope then codes "global" else c.scope

unfoldable pub build_cache_key : LookupDefinition → RequestContext → Text
build_cache_key def rctx =
    if text_eq (scope_of def.cache) (codes "tenant")
    then codes "lookup:" ++ (def.id ++ (codes ":" ++ rctx.tenant_id))
    else if text_eq (scope_of def.cache) (codes "partition")
    then codes "lookup:"
      ++ (def.id ++ (codes ":" ++ (rctx.tenant_id ++ (codes ":" ++ rctx.partition_id))))
    else codes "lookup:" ++ def.id

-- `!time.Now().After(expiresAt)`
abbrev pub unless_expired : ℤ → Option CacheEntry → Option (List OptionDescriptor)
unless_expired now none = none
unless_expired now (some entry) = if ltb_ℤ entry.expires_at now then none else some entry.options

unfoldable pub get_from_cache : ℤ → Text → Map CacheEntry → Option (List OptionDescriptor)
get_from_cache now key cache = unless_expired now (lookup key cache)

unfoldable pub evict_expired : ℤ → Map CacheEntry → Map CacheEntry
evict_expired now [] = []
evict_expired now ((k, v) ∷ m) =
    let rest = evict_expired now m in if ltb_ℤ v.expires_at now then rest else (k, v) ∷ rest

unfoldable pub put_in_cache :
    LookupProvider → ℤ → Text → List OptionDescriptor → ℤ → Map CacheEntry → Map CacheEntry
put_in_cache lp now key options ttl cache =
    let kept =
      if leb_ℤ lp.max_entries (pos (length cache)) then evict_expired now cache else cache in
    insert key (record { options = options; expires_at = wrap64 (now +ℤ ttl) }) kept

abbrev pub matches : Text → Text → Text → Bool
matches lookup_id tenant_id k =
    has_prefix k (codes "lookup:" ++ lookup_id) && (is_empty tenant_id || contains k tenant_id)

unfoldable pub invalidate : Text → Text → Map CacheEntry → Map CacheEntry
invalidate lookup_id tenant_id cache = delete_if (matches lookup_id tenant_id) cache

abbrev pub items_at : Text → Map Value → Option (List Value)
items_at key m = elim (lookup key m) [ none ↦ none | some v ↦ as_list v ]

-- An array, or the array under "data", or the one under "items"; `none` is nil.
unfoldable pub extract_lookup_items : Value → Option (List (Map Value))
unfolding to_map_slice
extract_lookup_items body = elim (as_list body) [
  | some vs ↦ some (to_map_slice vs)
  | none ↦ elim (as_map body) [
    | none ↦ none
    | some m ↦ elim (items_at (codes "data") m) [
      | some vs ↦ some (to_map_slice vs)
      | none ↦ elim (items_at (codes "items") m) [ some vs ↦ some (to_map_slice vs) | none ↦ none ]
    ]
  ]
]

module _ (go : Go) where
  unfoldable pub to_options : LookupDefinition → List (Map Value) → List OptionDescriptor
  to_options def [] = []
  to_options def (item ∷ items) =
      let rest = to_options def items in
      let label = get_string go item def.label_field in
      let value = get_string go item def.value_field in
      if is_empty label && is_empty value
      then rest
      else record { label = label; value = value } ∷ rest

  unfoldable pub map_lookup_results : Value → LookupDefinition → List OptionDescriptor
  map_lookup_results body def = elim (extract_lookup_items body) [
    | none ↦ []
    | some items ↦ to_options def items
  ]

  unfoldable pub filter_options : List OptionDescriptor → Text → List OptionDescriptor
  filter_options options query =
      if is_empty query
      then options
      else keep (λ o. contains (go.to_lower o.label) (go.to_lower query)) options

  abbrev pub empty_input : InvocationInput
  empty_input = record { path_params = []; query_params = []; headers = []; body = null }

  abbrev pub quoted : LookupDefinition → Text
  quoted def = codes "lookup " ++ go.quote def.id

  abbrev pub fetched : LookupDefinition → Result InvocationResult → Result (List OptionDescriptor)
  fetched def (err e) = err (plain (quoted def ++ (codes ": " ++ error_text e)))
  fetched def (ok result) =
      if ltb_ℤ result.status_code (pos 200) || leb_ℤ (pos 300) result.status_code
      then err
          (plain (quoted def ++ (codes ": backend returned status " ++ go.itoa result.status_code)))
      else ok (map_lookup_results result.body def)

  module _ {W : Type 0} (invokers : List (OperationInvoker W)) where
    unfoldable pub fetch_from_backend :
        RequestContext → LookupDefinition → Exec W (List OptionDescriptor)
    fetch_from_backend rctx def w =
        let (r, w') = invoke go invokers rctx def.operation empty_input w in (fetched def r, w')

    -- `now` reads the clock, `parse_duration` is time.ParseDuration.
    module _ (now : W → ℤ) (parse_duration : Text → Option ℤ) (lp : LookupProvider) where
      abbrev pub ttl_of : Option CacheConfig → ℤ
      ttl_of none = lp.default_ttl
      ttl_of (some c) =
          if is_empty c.ttl
          then lp.default_ttl
          else elim (parse_duration c.ttl) [ none ↦ lp.default_ttl | some t ↦ t ]

      -- A state is the cache and the world.
      abbrev pub Outcome : Type 0
      Outcome = Result LookupResponse × Map CacheEntry × W

      unfoldable pub complete :
          LookupDefinition
          → Text
          → Text
          → Result (List OptionDescriptor)
          → Map CacheEntry
          → W
          → Outcome
      complete def key query (err e) cache w = (err e, cache, w)
      complete def key query (ok options) cache w = (
        ok (record { options = filter_options options query; cached = false }),
        put_in_cache lp (now w) key options (ttl_of def.cache) cache,
        w,
      )

      unfoldable pub resolve_lookup :
          RequestContext → Text → LookupDefinition → Map CacheEntry → W → Outcome
      resolve_lookup rctx query def cache w =
          let key = build_cache_key def rctx in
          elim (get_from_cache (now w) key cache) [
            | some options ↦
                (ok (record { options = filter_options options query; cached = true }), cache, w)
            | none ↦
                let (r, w') = fetch_from_backend rctx def w in complete def key query r cache w'
          ]

      unfoldable pub get_lookup_options :
          Snapshot → RequestContext → Text → Text → Map CacheEntry → W → Outcome
      get_lookup_options registry rctx lookup_id query cache w =
          elim (get_lookup registry lookup_id) [
            | none ↦ (
              err (new_not_found (codes "lookup " ++ (go.quote lookup_id ++ codes " not found"))),
              cache,
              w,
            )
            | some def ↦ resolve_lookup rctx query def cache w
          ]
