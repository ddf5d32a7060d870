-- ===== src/Search/Provider/Sources.antt =====
-- Where the results of a search come from.
use mathlib.Core.Path.{subst}
use thesa.Prelude.{
  All-In, ℕ, ◌+◌, length, take, Bool-cases, Bool, true, ◌||◌, some, List, [], ◌∷◌, ◌≡◌, ◌⊎◌, inl,
  inr, refl, sym, arith, All, In, In-append, Option-cases,
}
use thesa.Prelude.Int.{ℤ, pos, leb_ℤ, ltb_ℤ, pos_part, ◌≤ℤ◌, ◌<ℤ◌}
use thesa.Prelude.Text.{Text, text_eq_iff}
use thesa.Prelude.Maps.{Map}
use thesa.Errors.{Result, ok, err}
use thesa.Value.{Value}
use thesa.Definition.{SearchDefinition}
use thesa.Context.{Go, RequestContext, InvocationResult, OperationInvoker, Pagination}
use thesa.Capability.{CapabilitySet, has}
use thesa.Capability.Grants.{allowed_iff}
use thesa.Invoker.{invoke}
use thesa.Search.Items.{
  Floats, SearchResult, map_from, map_result, map_results, get_string, resolve_route, extract_items,
}
use thesa.Search.Dedup.{deduplicate}
use thesa.Search.Dedup.Best.{IsGreater, deduplicate_lem}
use thesa.Search.Paging.{page_slice}
use thesa.Search.Paging.Laws.{In-take, In-page_slice}
use thesa.Search.Provider.{
  SearchProvider, ProviderResult, SearchResponse, is_eligible, provider_result, search_input,
  execute_provider, run_providers, merge, assemble,
}

pub is_eligible_sound :
    (caps : CapabilitySet) (domain : Text) (def : SearchDefinition)
    → is_eligible caps domain def ≡ true
    → All (λ c. has caps c ≡ true) def.capabilities × ((domain ≡ []) ⊎ (def.domain ≡ domain))
unfolding is_eligible
is_eligible_sound caps domain def h =
    ((allowed_iff caps def.capabilities).0 (ground arith), in_domain domain def h)
  where
    in_domain :
        (d : Text) (def : SearchDefinition)
        → is_eligible caps d def ≡ true
        → (d ≡ []) ⊎ (def.domain ≡ d)
    in_domain [] def h = inl refl
    in_domain (c ∷ d) def h = inr ((text_eq_iff def.domain (c ∷ d)).0 (ground (arith, h)))

module _ {W : Type 0} (go : Go) (floats : Floats) (timed_out : W → Bool)
    (arrive : List SearchDefinition → List SearchDefinition)
    (sort : List SearchResult → List SearchResult) (invokers : List (OperationInvoker W))
    (sp : SearchProvider) where
  -- The texts of an item, the domain of the definition, and its route with the id.
  abbrev pub Copies : SearchDefinition → Map Value → SearchResult → Type 0
  Copies def item x =
      (x.id ≡ get_string go item def.result_mapping.id_field)
      × (x.title ≡ get_string go item def.result_mapping.title_field)
      × (x.subtitle ≡ get_string go item def.result_mapping.subtitle_field)
      × (x.icon ≡ get_string go item def.result_mapping.icon_field)
      × (x.route ≡ resolve_route def.result_mapping.route x.id)
      × (x.category ≡ def.domain)

  abbrev pub MadeOf : SearchDefinition → List (Map Value) → SearchResult → Type 0
  MadeOf def items x = (item : Map Value) × Copies def item x × In item items

  -- The backend of the definition answered the query by 2xx, with an item that the result is made of.
  abbrev pub AnsweredBy : RequestContext → Text → SearchDefinition → SearchResult → Type 0
  AnsweredBy rctx query def x =
      (before : W) × (result : InvocationResult) × ((invoke go invokers rctx def.operation
          (search_input query) before).0
        ≡ ok result)
      × (pos 200 ≤ℤ result.status_code)
      × (result.status_code <ℤ pos 300)
      × MadeOf def (extract_items result.body def.result_mapping.items_path) x

  map_from-MadeOf :
      (def : SearchDefinition) (weight : ℤ) (total i : ℕ) (items : List (Map Value))
      (x : SearchResult)
      → In x (map_from go floats def weight total i items)
      → MadeOf def items x
  unfolding map_from map_result
  map_from-MadeOf def weight total i [] x h = absurd h
  map_from-MadeOf def weight total i (item ∷ items) x (inl e) =
      (item, rw e (refl, refl, refl, refl, refl, refl), inl refl)
  map_from-MadeOf def weight total i (item ∷ items) x (inr h) =
      let (it, same, k) = map_from-MadeOf def weight total (i + 1) items x h in (it, same, inr k)

  map_results-MadeOf :
      (def : SearchDefinition) (max_results : ℤ) (items : List (Map Value)) (x : SearchResult)
      → In x (map_results go floats items def max_results)
      → MadeOf def items x
  unfolding map_results
  map_results-MadeOf def max_results items x h =
      elim (Bool-cases (ltb_ℤ max_results (pos (length items)))) [
        | inl cut ↦
            let (it, same, k) =
              map_from-MadeOf def _ _ 0 (take (pos_part max_results) items) x (rw cut at h) in
            (it, same, In-take it (pos_part max_results) items k)
        | inr whole ↦ map_from-MadeOf def _ _ 0 items x (rw whole at h)
      ]

  result_AnsweredBy :
      (rctx : RequestContext) (query : Text) (def : SearchDefinition) (w : W) (late : Bool)
      (r : Result InvocationResult) (x : SearchResult)
      → (invoke go invokers rctx def.operation (search_input query) w).0 ≡ r
      → In x (provider_result go floats timed_out arrive sort invokers sp def late r).results
      → AnsweredBy rctx query def x
  result_AnsweredBy rctx query def w late (err e) x given h = absurd h
  result_AnsweredBy rctx query def w late (ok result) x given h =
      elim (Bool-cases (ltb_ℤ result.status_code (pos 200) || leb_ℤ (pos 300) result.status_code)) [
        | inl bad ↦ absurd (rw bad at h)
        | inr good ↦ (
          w,
          result,
          given,
          ground (arith, good),
          ground (arith, good),
          map_results-MadeOf def _ _ x (rw good at h),
        )
      ]

  provider-AnsweredBy :
      (rctx : RequestContext) (query : Text) (def : SearchDefinition) (w : W) (x : SearchResult)
      → In x
          (execute_provider go floats timed_out arrive sort invokers sp rctx query def w).0.results
      → AnsweredBy rctx query def x
  unfolding execute_provider
  provider-AnsweredBy rctx query def w x h = result_AnsweredBy rctx query def w _ _ x refl h

  abbrev pub ran : RequestContext → Text → List SearchDefinition → W → List ProviderResult × W
  ran rctx query defs w =
      run_providers go floats timed_out arrive sort invokers sp rctx query defs w

  -- Each merged result comes from one of the providers that ran.
  pub In-merge :
      (rctx : RequestContext) (query : Text) (defs : List SearchDefinition) (w : W)
      (x : SearchResult)
      → In x (merge (ran rctx query defs w).0)
      → (def : SearchDefinition) × In def defs × AnsweredBy rctx query def x
  unfolding run_providers
  In-merge rctx query [] w x h = absurd h
  In-merge rctx query (def ∷ defs) w x h =
      let one = execute_provider go floats timed_out arrive sort invokers sp rctx query def w in
      elim (In-append x one.0.results (merge (ran rctx query defs one.1).0) h) [
        | inl mine ↦ (def, inl refl, provider-AnsweredBy rctx query def w x mine)
        | inr later ↦ let (d, i, e) = In-merge rctx query defs one.1 x later in (d, inr i, e)
      ]

  -- The response's page holds merged results only.
  pub In-assemble :
      ((xs : List SearchResult) (x : SearchResult) → In x (sort xs) → In x xs)
      → IsGreater floats.gt
      → (query : Text) (p : Pagination) (results : List ProviderResult) (resp : SearchResponse)
      → assemble go floats timed_out arrive sort invokers sp query p results ≡ some resp
      → (x : SearchResult) → In x resp.results
      → In x (merge results)
  unfolding assemble
  In-assemble sorts g query p results resp e x h =
      let kept = deduplicate floats.gt (merge results) in
      elim (Option-cases (page_slice (sort kept) p.page p.page_size)) [
        | inl panic ↦ absurd (ground (arith, e, panic))
        | inr (page, cut) ↦
            let same : page ≡ resp.results = ground (arith, e, cut) in
            let on_page : In x page = subst (λ (l : List SearchResult). In x l) (sym same) h in
            let merged =
              sorts kept x (In-page_slice x (sort kept) page p.page p.page_size cut on_page) in
            All-In (λ y. In y (merge results)) kept x
              (deduplicate_lem floats.gt (merge results) g).0 merged
      ]
