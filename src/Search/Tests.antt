-- ===== src/Search/Tests.antt =====
-- The search and lookup theorems at small inputs.
use thesa.Prelude.{ℕ, true, false, none, [], ◌∷◌, ◌≡◌, refl, ◌⊎◌, inl, arith, In, All}
use thesa.Prelude.Int.{ℤ, pos, ◌+ℤ◌, ◌-ℤ◌, ◌*ℤ◌, wrap64}
use thesa.Prelude.Text.{Text, codes, text_eq, has_prefix, has_suffix}
use thesa.Prelude.Strings.{replace_all}
use thesa.Prelude.Maps.{Map, lookup, insert}
use thesa.Errors.{ok}
use thesa.Definition.{SearchDefinition}
use thesa.Context.{Pagination}
use thesa.Capability.{has, has_all, allowed, match_wildcard}
use thesa.Registry.{all_searches, get_lookup, replace, load, index}
use thesa.Invoker.{invoke}
use thesa.Command.Path.{value_at}
use thesa.Search.Items.{
  SearchResult, extract_items, get_string, map_results, map_result, position_score, resolve_route,
  to_map_slice,
}
use thesa.Search.Dedup.{deduplicate, dedup_loop, result_key}
use thesa.Search.Dedup.Best.{IsGreater, DistinctResults, Beaten, deduplicate_lem}
use thesa.Search.Paging.{normalize, page_slice}
use thesa.Search.Paging.Overflow.{page_slice-overflow}
use thesa.Search.Provider.{
  SearchProvider, SearchResponse, ok_status, new_search_provider, is_eligible, execute_provider,
  run_providers, assemble, search,
}
use thesa.Search.Provider.Sources.{AnsweredBy}
use thesa.Search.Provider.Laws.{search-IsSound}
use thesa.Search.Lookup.{
  OptionDescriptor, CacheEntry, LookupProvider, get_from_cache, fetch_from_backend,
  map_lookup_results, extract_lookup_items, to_options, filter_options, get_lookup_options,
}
use thesa.Search.Lookup.Laws.{get_lookup_options_again}
use thesa.Samples.{go, floats, caller, caps, registry, states, invokers}

abbrev page : Pagination
page = record { page = pos 1; page_size = pos 10; domain = codes "orders" }

page_slice-overflow_example : page_slice {A = ℕ} (1 ∷ []) (pos 184467440737095518) (pos 50) ≡ none
page_slice-overflow_example =
    page_slice-overflow (1 ∷ []) 184467440737095517 50 (omega arith) (omega arith) (omega arith)

abbrev result : Text → ℕ → SearchResult
result id score = record {
  id = id;
  title = codes "seven";
  subtitle = [];
  category = codes "orders";
  icon = [];
  route = codes "/o";
  score = score;
}

-- The order of numbers.
floats-IsGreater : IsGreater floats.gt
floats-IsGreater = record { irrefl = λ a. ground arith; trans = λ a b c h k. ground arith }

deduplicate_lem_example :
    All
      (λ x. In x (result (codes "7") 1 ∷ result (codes "7") 2 ∷ []))
      (deduplicate floats.gt (result (codes "7") 1 ∷ result (codes "7") 2 ∷ []))
    × DistinctResults (deduplicate floats.gt (result (codes "7") 1 ∷ result (codes "7") 2 ∷ []))
    × All
        (λ r.
          Beaten floats.gt r
            (deduplicate floats.gt (result (codes "7") 1 ∷ result (codes "7") 2 ∷ [])))
        (result (codes "7") 1 ∷ result (codes "7") 2 ∷ [])
deduplicate_lem_example =
    deduplicate_lem floats.gt (result (codes "7") 1 ∷ result (codes "7") 2 ∷ []) floats-IsGreater

abbrev provider : SearchProvider
provider = new_search_provider (pos 0) (pos 0)

abbrev order_result : SearchResult
order_result = record {
  id = codes "7";
  title = codes "seven";
  subtitle = [];
  category = codes "orders";
  icon = [];
  route = codes "/o/7";
  score = 1;
}

abbrev response : SearchResponse
response = record {
  results = order_result ∷ [];
  total_count = 1;
  query = codes "seven";
  providers = (codes "find", ok_status) ∷ [];
}

search-IsSound_example :
    (def : SearchDefinition) × In def (all_searches registry)
    × AnsweredBy go floats
        (λ w. false)
        (λ ds. ds)
        (λ xs. xs)
        invokers
        provider
        caller
        (codes "seven")
        def
        order_result
    × All (λ c. has caps c ≡ true) def.capabilities
    × ((page.domain ≡ []) ⊎ (def.domain ≡ page.domain))
unfolding search assemble page_slice deduplicate run_providers all_searches replace load index
    insert is_eligible normalize text_eq allowed has_all has lookup match_wildcard value_at invoke
    wrap64 ◌*ℤ◌ ◌+ℤ◌ ◌-ℤ◌ replace_all has_prefix has_suffix dedup_loop result_key extract_items
    get_string map_results map_result position_score resolve_route to_map_slice execute_provider
search-IsSound_example =
    search-IsSound go floats (λ w. false) (λ ds. ds) (λ xs. xs) invokers provider (λ ds d i. i)
      (λ xs x i. i) floats-IsGreater registry caller caps (codes "seven") page 0 response refl
      order_result (inl refl)

abbrev clock : ℕ → ℤ
clock w = pos w

abbrev lookups : LookupProvider
lookups = record { default_ttl = pos 10; max_entries = pos 100 }

abbrev seven : OptionDescriptor
seven = record { label = codes "seven"; value = codes "7" }

get_lookup_options_again_example :
    (cache' : Map CacheEntry) × (get_lookup_options go invokers clock
        (λ t. none)
        lookups
        registry
        caller
        (codes "states")
        []
        []
        3
      ≡ (ok (record { options = filter_options go (seven ∷ []) []; cached = false }), cache', 4))
    × (get_lookup_options go invokers clock
          (λ t. none)
          lookups
          registry
          caller
          (codes "states")
          (codes "x")
          cache'
          9
        ≡ (
          ok (record { options = filter_options go (seven ∷ []) (codes "x"); cached = true }),
          cache',
          9,
        ))
unfolding get_lookup lookup replace load index insert text_eq get_from_cache fetch_from_backend
    invoke map_lookup_results extract_lookup_items to_options get_string value_at wrap64 ◌+ℤ◌
get_lookup_options_again_example =
    get_lookup_options_again go invokers clock (λ t. none) lookups registry caller caller
      (codes "states") [] (codes "x") [] 3 4 9 states (seven ∷ []) refl refl refl refl refl
