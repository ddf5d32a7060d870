-- ===== src/Search/Provider.antt =====
-- internal/search/provider.go: the search over all providers that the caller may use.
pub mod Sources
pub mod Laws
use thesa.Prelude.{
  ℕ, Bool, not, ◌&&◌, ◌||◌, Option, none, some, List, [], ◌∷◌, ◌++◌, ltb, length, keep, is_empty,
  if◌then◌else◌,
}
use thesa.Prelude.Int.{ℤ, pos, leb_ℤ, ltb_ℤ}
use thesa.Prelude.Text.{Text, codes, text_eq}
use thesa.Prelude.Maps.{Map, insert}
use thesa.Errors.{Result, ok, err, new_bad_request}
use thesa.Value.{null}
use thesa.Definition.{SearchDefinition}
use thesa.Context.{
  Go, RequestContext, InvocationInput, InvocationResult, OperationInvoker, Pagination, Exec,
}
use thesa.Capability.{CapabilitySet, allowed}
use thesa.Registry.{Snapshot, all_searches}
use thesa.Invoker.{invoke}
use thesa.Search.Items.{Floats, SearchResult, extract_items, map_results}
use thesa.Search.Dedup.{deduplicate}
use thesa.Search.Paging.{normalize, page_slice}

pub record SearchProvider : Type 0 where
  pub timeout_per_provider : ℤ
  pub max_results_default : ℤ

-- Three seconds, and 50 results.
unfoldable pub new_search_provider : ℤ → ℤ → SearchProvider
new_search_provider timeout max_results = record {
  timeout_per_provider = if leb_ℤ timeout (pos 0) then pos 3000000000 else timeout;
  max_results_default = if leb_ℤ max_results (pos 0) then pos 50 else max_results;
}

pub data Status : Type 0 where
  ok_status timeout_status error_status : Status

pub record ProviderResult : Type 0 where
  pub provider_id : Text
  pub results : List SearchResult
  pub status : Status

-- The payload and the statuses; the measured query time is left out.
pub record SearchResponse : Type 0 where
  pub results : List SearchResult
  pub total_count : ℕ
  pub query : Text
  pub providers : Map Status

unfoldable pub is_eligible : CapabilitySet → Text → SearchDefinition → Bool
is_eligible caps domain def =
    not (not (is_empty domain) && not (text_eq def.domain domain)) && allowed caps def.capabilities

abbrev pub search_input : Text → InvocationInput
search_input query = record {
  path_params = [];
  query_params = (codes "q", query) ∷ [];
  headers = [];
  body = null;
}

abbrev pub failed : SearchDefinition → Status → ProviderResult
failed def s = record { provider_id = def.id; results = []; status = s }

abbrev pub merge : List ProviderResult → List SearchResult
merge [] = []
merge (r ∷ rs) = r.results ++ merge rs

abbrev pub statuses : List ProviderResult → Map Status → Map Status
statuses [] m = m
statuses (r ∷ rs) m = statuses rs (insert r.provider_id r.status m)

-- `timed_out` reads ctx.Err() after a call; `arrive` is the order in which the goroutines' results
-- come out of the channel; `sort` is sort.Slice by falling score. The providers are asked one after
-- the other in that order, and none of them panics.
module _ {W : Type 0} (go : Go) (floats : Floats) (timed_out : W → Bool)
    (arrive : List SearchDefinition → List SearchDefinition)
    (sort : List SearchResult → List SearchResult) (invokers : List (OperationInvoker W))
    (sp : SearchProvider) where
  abbrev pub max_results_of : SearchDefinition → ℤ
  max_results_of def =
      if leb_ℤ def.max_results (pos 0) then sp.max_results_default else def.max_results

  abbrev pub provider_result : SearchDefinition → Bool → Result InvocationResult → ProviderResult
  provider_result def late (err e) = failed def (if late then timeout_status else error_status)
  provider_result def late (ok result) =
      if ltb_ℤ result.status_code (pos 200) || leb_ℤ (pos 300) result.status_code
      then failed def error_status
      else record {
        provider_id = def.id;
        results =
            map_results go floats (extract_items result.body def.result_mapping.items_path) def
              (max_results_of def);
        status = ok_status;
      }

  unfoldable pub execute_provider :
      RequestContext → Text → SearchDefinition → W → ProviderResult × W
  execute_provider rctx query def w =
      let (r, w') = invoke go invokers rctx def.operation (search_input query) w in
      (provider_result def (timed_out w') r, w')

  unfoldable pub run_providers :
      RequestContext → Text → List SearchDefinition → W → List ProviderResult × W
  run_providers rctx query [] w = ([], w)
  run_providers rctx query (def ∷ defs) w =
      let (r, w') = execute_provider rctx query def w in
      let (rs, w'') = run_providers rctx query defs w' in (r ∷ rs, w'')

  -- Steps 5 to 8; `none` is a panic.
  unfoldable pub assemble : Text → Pagination → List ProviderResult → Option SearchResponse
  assemble query p results =
      let sorted = sort (deduplicate floats.gt (merge results)) in
      elim (page_slice sorted p.page p.page_size) [
        | none ↦ none
        | some page ↦ some (record {
          results = page;
          total_count = length sorted;
          query = query;
          providers = statuses results [];
        })
      ]

  unfoldable pub search :
      Snapshot → RequestContext → CapabilitySet → Text → Pagination → Exec W (Option SearchResponse)
  search registry rctx caps query pagination w =
      if ltb (length query) 2
      then (err (new_bad_request (codes "Search query must be at least 2 characters")), w)
      else (let p = normalize pagination in
          let eligible = keep (is_eligible caps p.domain) (all_searches registry) in
          let (results, w') = run_providers rctx query (arrive eligible) w in
          (ok (assemble query p results), w'))
