-- ===== src/Search/Lookup/Laws.antt =====
-- The lookup cache: what an insertion, an eviction and an invalidation leave, and the second call.
use mathlib.Core.List.{append_assoc}
use mathlib.Core.Path.{subst}
use thesa.Prelude.{
  true, false, Option, none, some, List, [], ◌∷◌, ◌++◌, ◌≡◌, refl, arith, inl, inr, length,
  Bool-cases, if◌then◌else◌,
}
use thesa.Prelude.Int.{ℤ, pos, ◌+ℤ◌, ltb_ℤ, leb_ℤ, wrap64}
use thesa.Prelude.Text.{
  Text, codes, text_eq, text_eq_iff, text_eq_refl, has_prefix, has_prefix-append,
}
use thesa.Prelude.Maps.{Map, lookup, insert, lookup-insert, lookup-delete_if, DistinctKeys}
use thesa.Definition.{LookupDefinition}
use thesa.Context.{Go, RequestContext, OperationInvoker}
use thesa.Registry.{Snapshot, get_lookup}
use thesa.Errors.{ok}
use thesa.Search.Lookup.{
  OptionDescriptor, CacheEntry, LookupProvider, scope_of, build_cache_key, get_from_cache,
  evict_expired, put_in_cache, matches, invalidate, filter_options, fetch_from_backend, ttl_of,
  complete, resolve_lookup, get_lookup_options,
}

lookup-evict_none :
    (now : ℤ) (k : Text) (cache : Map CacheEntry)
    → lookup k cache ≡ none
    → lookup k (evict_expired now cache) ≡ none
unfolding lookup evict_expired
lookup-evict_none now k [] h = refl
lookup-evict_none now k ((j, v) ∷ m) h = elim (Bool-cases (text_eq j k)) [
  | inl same ↦ absurd (ground (arith, h, same))
  | inr other ↦
      let rest : lookup k m ≡ none = ground (arith, h, other) in
      ground (arith, other, lookup-evict_none now k m rest)
]

-- An eviction is never seen by a reader at the same time.
get_from_cache-evict_expired :
    (now : ℤ) (k : Text) (cache : Map CacheEntry)
    → DistinctKeys cache
    → get_from_cache now k (evict_expired now cache) ≡ get_from_cache now k cache
unfolding get_from_cache lookup evict_expired
get_from_cache-evict_expired now k [] d = refl
get_from_cache-evict_expired now k ((j, v) ∷ m) d =
    let rest = get_from_cache-evict_expired now k m d.1 in
    elim (Bool-cases (text_eq j k)) [
      | inl same ↦
          let absent : lookup k m ≡ none =
            subst (λ (t : Text). lookup t m ≡ none) ((text_eq_iff j k).0 same) d.0 in
          ground (arith, same, lookup-evict_none now k m absent)
      | inr other ↦ ground (arith, rest, other)
    ]

read-insert :
    (now : ℤ) (key k : Text) (entry : CacheEntry) (m : Map CacheEntry)
    → get_from_cache now k (insert key entry m) ≡ (
        if text_eq key k
        then (if ltb_ℤ entry.expires_at now then none else some entry.options)
        else get_from_cache now k m)
unfolding get_from_cache
read-insert now key k entry m = rw (lookup-insert key k entry m) (ground arith)

-- In a cache with distinct keys: after an insertion its key has the new options while their time to live is not over, and every
-- other key reads as before: the eviction that makes room is never seen.
pub get_from_cache-put_in_cache :
    (lp : LookupProvider) (now ttl : ℤ) (key k : Text) (options : List OptionDescriptor)
    (cache : Map CacheEntry)
    → DistinctKeys cache
    → get_from_cache now k (put_in_cache lp now key options ttl cache) ≡ (
        if text_eq key k
        then (if ltb_ℤ (wrap64 (now +ℤ ttl)) now then none else some options)
        else get_from_cache now k cache)
unfolding put_in_cache
get_from_cache-put_in_cache lp now ttl key k options cache d =
    elim (Bool-cases (leb_ℤ lp.max_entries (pos (length cache)))) [
      | inl full ↦
          rw
            (
              full,
              read-insert now key k _ (evict_expired now cache),
              get_from_cache-evict_expired now k cache d,
            )
            refl
      | inr room ↦ rw (room, read-insert now key k _ cache) refl
    ]

has_prefix_refl : (p : Text) → has_prefix p p ≡ true
unfolding has_prefix
has_prefix_refl [] = refl
has_prefix_refl (c ∷ p) = ground (arith, has_prefix_refl p)

has_prefix-more : (a b c : Text) → has_prefix (a ++ (b ++ c)) (a ++ b) ≡ true
has_prefix-more a b c = rw (← append_assoc a b c) (has_prefix-append (a ++ b) c)

build_cache_key-prefix :
    (def : LookupDefinition) (rctx : RequestContext)
    → has_prefix (build_cache_key def rctx) (codes "lookup:" ++ def.id) ≡ true
unfolding build_cache_key
build_cache_key-prefix def rctx =
    let p = has_prefix-more (codes "lookup:") def.id in
    let whole : has_prefix (codes "lookup:" ++ def.id) (codes "lookup:" ++ def.id) ≡ true =
      has_prefix_refl (codes "lookup:" ++ def.id) in
    elim (Bool-cases (text_eq (scope_of def.cache) (codes "tenant"))) [
      | inl t ↦ rw t (p (codes ":" ++ rctx.tenant_id))
      | inr nt ↦ elim (Bool-cases (text_eq (scope_of def.cache) (codes "partition"))) [
        | inl q ↦ rw (nt, q) (p (codes ":" ++ (rctx.tenant_id ++ (codes ":" ++ rctx.partition_id))))
        | inr nq ↦ rw (nt, nq) whole
      ]
    ]

-- Invalidating a lookup for all tenants drops its entry under every scope; of the other keys it
-- drops those that begin with the lookup's name, and reads the rest as before.
pub get_from_cache-invalidate :
    (now : ℤ) (def : LookupDefinition) (rctx : RequestContext) (cache : Map CacheEntry)
    → (get_from_cache now (build_cache_key def rctx) (invalidate def.id [] cache) ≡ none)
      × ((k : Text)
          → get_from_cache now k (invalidate def.id [] cache) ≡ (
              if has_prefix k (codes "lookup:" ++ def.id)
              then none
              else get_from_cache now k cache))
unfolding get_from_cache invalidate
get_from_cache-invalidate now def rctx cache = (
  rw (lookup-delete_if (matches def.id []) (build_cache_key def rctx) cache)
      (ground (arith, build_cache_key-prefix def rctx)),
  λ k. rw (lookup-delete_if (matches def.id []) k cache) (ground arith),
)

-- The inserted entry is read at any time up to its expiry.
read_inserted :
    (lp : LookupProvider) (now later ttl : ℤ) (key : Text) (options : List OptionDescriptor)
    (cache : Map CacheEntry)
    → ltb_ℤ (wrap64 (now +ℤ ttl)) later ≡ false
    → get_from_cache later key (put_in_cache lp now key options ttl cache) ≡ some options
unfolding put_in_cache
read_inserted lp now later ttl key options cache live =
    rw
      (
        read-insert later key key (record { options = options; expires_at = wrap64 (now +ℤ ttl) })
            (if leb_ℤ lp.max_entries (pos (length cache)) then evict_expired now cache else cache),
        text_eq_refl key,
        live,
      )
      refl

module _ (go : Go) {W : Type 0} (invokers : List (OperationInvoker W)) (now : W → ℤ)
    (parse_duration : Text → Option ℤ) (lp : LookupProvider) where
  -- When a call misses the cache and its backend answers, the response holds the options that match
  -- the query; a later call of a caller with the same key, whatever its query, is served those
  -- options from the cache until they expire, with no call to a backend.
  pub get_lookup_options_again :
      (registry : Snapshot) (rctx rctx' : RequestContext) (lookup_id query query' : Text)
      (cache : Map CacheEntry) (w w' later : W) (def : LookupDefinition)
      (options : List OptionDescriptor)
      → get_lookup registry lookup_id ≡ some def
      → get_from_cache (now w) (build_cache_key def rctx) cache ≡ none
      → fetch_from_backend go invokers rctx def w ≡ (ok options, w')
      → build_cache_key def rctx' ≡ build_cache_key def rctx
      → ltb_ℤ (wrap64 (now w' +ℤ ttl_of go invokers now parse_duration lp def.cache)) (now later)
        ≡ false
      → (cache' : Map CacheEntry) × (get_lookup_options go invokers now parse_duration lp registry
            rctx lookup_id query cache w
          ≡ (ok (record { options = filter_options go options query; cached = false }), cache', w'))
        × (get_lookup_options go invokers now parse_duration lp registry rctx' lookup_id query'
              cache' later
            ≡ (
              ok (record { options = filter_options go options query'; cached = true }),
              cache',
              later,
            ))
  unfolding get_lookup_options complete resolve_lookup
  get_lookup_options_again registry rctx rctx' lookup_id query query' cache w w' later def options
        found miss fetched same live =
      let ttl = ttl_of go invokers now parse_duration lp def.cache in
      let key = build_cache_key def rctx in
      let cache' = put_in_cache lp (now w') key options ttl cache in
      (
        cache',
        rw (found, get_lookup_options) (rw (miss, resolve_lookup) (rw fetched refl)),
        rw (found, get_lookup_options)
            (rw
              (
                same,
                read_inserted lp (now w') (now later) ttl key options cache live,
                resolve_lookup,
              )
              refl),
      )
