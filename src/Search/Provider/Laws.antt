-- ===== src/Search/Provider/Laws.antt =====
-- What a search may return, and when it reaches a backend.
use thesa.Prelude.{
  In-keep, ◌<◌, Bool, true, false, Option, some, List, [], ◌≡◌, ◌⊎◌, ◌↔◌, inl, inr, refl, sym, ap,
  ◌∙◌, arith, All, In, keep, length, ltb, ltb→lt, Bool-cases,
}
use thesa.Prelude.Text.{Text, codes}
use thesa.Errors.{bad_request, Error, Result, ok, err, new_bad_request, code_of}
use thesa.Definition.{SearchDefinition}
use thesa.Context.{Go, RequestContext, OperationInvoker, Pagination}
use thesa.Capability.{CapabilitySet, has}
use thesa.Registry.{Snapshot, all_searches}
use thesa.Search.Items.{Floats, SearchResult}
use thesa.Search.Dedup.Best.{IsGreater}
use thesa.Search.Paging.{normalize}
use thesa.Search.Provider.{SearchProvider, SearchResponse, is_eligible, assemble, search}
use thesa.Search.Provider.Sources.{is_eligible_sound, ran, AnsweredBy, In-merge, In-assemble}

abbrev too_short : Error
too_short = new_bad_request (codes "Search query must be at least 2 characters")

served_ne_refused : {A : Type 0} (a : A) (e : Error) → ¬ (ok a ≡ err e)
served_ne_refused a e h = cc

module _ {W : Type 0} (go : Go) (floats : Floats) (timed_out : W → Bool)
    (arrive : List SearchDefinition → List SearchDefinition)
    (sort : List SearchResult → List SearchResult) (invokers : List (OperationInvoker W))
    (sp : SearchProvider) where
  abbrev searched :
      Snapshot
      → RequestContext
      → CapabilitySet
      → Text
      → Pagination
      → W
      → Result (Option SearchResponse) × W
  searched registry rctx caps query p w =
      search go floats timed_out arrive sort invokers sp registry rctx caps query p w

  long_search :
      (registry : Snapshot) (rctx : RequestContext) (caps : CapabilitySet) (query : Text)
      (p : Pagination) (w : W)
      → ltb (length query) 2 ≡ false
      → searched registry rctx caps query p w ≡ (
        ok (
            assemble go floats timed_out arrive sort invokers sp query
              (normalize p)
              (ran go floats timed_out arrive sort invokers sp rctx query
                (arrive (keep (is_eligible caps (normalize p).domain) (all_searches registry)))
                w).0),
        (ran go floats timed_out arrive sort invokers sp rctx query
            (arrive (keep (is_eligible caps (normalize p).domain) (all_searches registry)))
            w).1,
      )
  unfolding search
  long_search registry rctx caps query p w long = rw long refl

  -- A search is refused, with BAD_REQUEST, exactly when the query has less than two bytes, and then
  -- no backend is called.
  pub search_refused_iff :
      (registry : Snapshot) (rctx : RequestContext) (caps : CapabilitySet) (query : Text)
      (p : Pagination) (w : W)
      → (length query < 2) ↔ (
          (e : Error) × ((searched registry rctx caps query p w).0 ≡ err e)
          × (code_of e ≡ some bad_request)
          × ((searched registry rctx caps query p w).1 ≡ w))
  unfolding search
  search_refused_iff registry rctx caps query p w = elim (Bool-cases (ltb (length query) 2)) [
    | inl short ↦
        let refused : searched registry rctx caps query p w ≡ (err too_short, w) = rw short refl in
        (
          λ h. (
            too_short,
            ap (λ (o : Result (Option SearchResponse) × W). o.0) refused,
            refl,
            ap (λ (o : Result (Option SearchResponse) × W). o.1) refused,
          ),
          λ h. ltb→lt (length query) 2 short,
        )
    | inr long ↦
        let served =
          ap (λ (o : Result (Option SearchResponse) × W). o.0)
            (long_search registry rctx caps query p w long) in
        (
          λ h. absurd (ground (arith, long)),
          λ h. absurd (served_ne_refused _ h.0 (sym served ∙ h.1)),
        )
  ]

  -- If the order of arrival and the sort add nothing to their lists and scores are compared by a
  -- strict order, a result on the page is made of an item that the
  -- backend of a search definition answered to the query with a status 2xx; the definition is one of
  -- the registry, lies in the domain asked for, and the caller holds all its capabilities.
  pub search-IsSound :
      ((defs : List SearchDefinition) (d : SearchDefinition) → In d (arrive defs) → In d defs)
      → ((xs : List SearchResult) (x : SearchResult) → In x (sort xs) → In x xs)
      → IsGreater floats.gt
      → (registry : Snapshot) (rctx : RequestContext) (caps : CapabilitySet) (query : Text)
        (p : Pagination) (w : W) (resp : SearchResponse)
      → (searched registry rctx caps query p w).0 ≡ ok (some resp)
      → (x : SearchResult) → In x resp.results
      → (def : SearchDefinition) × In def (all_searches registry)
        × AnsweredBy go floats timed_out arrive sort invokers sp rctx query def x
        × All (λ c. has caps c ≡ true) def.capabilities
        × ((p.domain ≡ []) ⊎ (def.domain ≡ p.domain))
  unfolding search normalize
  search-IsSound arrives sorts g registry rctx caps query p w resp e x h =
      elim (Bool-cases (ltb (length query) 2)) [
        | inl short ↦ absurd (ground (arith, e, short))
        | inr long ↦
            let p' = normalize p in
            let eligible = keep (is_eligible caps p'.domain) (all_searches registry) in
            let e' : assemble go floats timed_out arrive sort invokers sp query p'
                  (ran go floats timed_out arrive sort invokers sp rctx query (arrive eligible) w).0
                ≡ some resp =
              ground (arith, e, long) in
            let merged =
              In-assemble go floats timed_out arrive sort invokers sp sorts g query p'
                (ran go floats timed_out arrive sort invokers sp rctx query (arrive eligible) w).0
                resp e' x h in
            let (def, i, made) =
              In-merge go floats timed_out arrive sort invokers sp rctx query (arrive eligible) w x
                merged in
            let (known, may) =
              In-keep (is_eligible caps p'.domain) def (all_searches registry)
                (arrives eligible def i) in
            let (all_held, in_domain) = is_eligible_sound caps p.domain def may in
            (def, known, made, all_held, in_domain)
      ]
