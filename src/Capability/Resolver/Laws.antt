-- ===== src/Capability/Resolver/Laws.antt =====
-- What callers of the resolver may rely on: answers are reused, dropped and never made up.
use mathlib.Core.List.{append_assoc}
use mathlib.Core.Path.{subst}
use thesa.Prelude.{
  true, Option, none, some, ◌++◌, ◌≡◌, refl, sym, ap, ◌∙◌, inl, inr, arith, Bool-cases,
  Option-cases,
}
use thesa.Prelude.Int.{ℤ, ◌+ℤ◌, ◌<ℤ◌, ltb_ℤ}
use thesa.Prelude.Text.{Text, text_eq, text_eq_iff, text_eq_refl, has_prefix, has_prefix-append}
use thesa.Prelude.Maps.{lookup, lookup-insert, lookup-delete_if}
use thesa.Errors.{Result, ok, err}
use thesa.Context.{RequestContext, Exec}
use thesa.Capability.{CapabilitySet}
use thesa.Capability.Resolver.{
  CacheEntry, Resolver, cache_key, fresh, store, resolve, user_prefix, invalidate,
}

module _ {W : Type 0} (now : W → ℤ) (evaluate : RequestContext → Exec W CapabilitySet) where
  resolve_hit :
      (r : Resolver) (rctx : RequestContext) (w : W) (caps : CapabilitySet)
      → fresh (lookup (cache_key rctx) r.cache) (now w) ≡ some caps
      → resolve now evaluate r rctx w ≡ (ok caps, r, w)
  unfolding resolve
  resolve_hit r rctx w caps e = rw (e, resolve)

  resolve_miss :
      (r : Resolver) (rctx : RequestContext) (w : W)
      → fresh (lookup (cache_key rctx) r.cache) (now w) ≡ none
      → resolve now evaluate r rctx w ≡ (
        (evaluate rctx w).0,
        store now evaluate r rctx (evaluate rctx w).0 (now (evaluate rctx w).1),
        (evaluate rctx w).1,
      )
  unfolding resolve
  resolve_miss r rctx w e = rw (e, resolve)

  stored_is_fresh :
      (r : Resolver) (a : RequestContext) (k : Text) (caps : CapabilitySet) (t u : ℤ)
      → k ≡ cache_key a
      → u <ℤ t +ℤ r.ttl
      → fresh (lookup k (store now evaluate r a (ok caps) t).cache) u ≡ some caps
  unfolding fresh
  stored_is_fresh r a k caps t u same before =
      let open' : ltb_ℤ u (t +ℤ r.ttl) ≡ true = ground arith in
      rw (same, lookup-insert (cache_key a) (cache_key a), text_eq_refl, open')

  -- An answer that was fetched is served to every request with the same key, without asking the
  -- evaluator again, as long as the clock stands before the end of its time to live.
  pub resolve_again :
      (r : Resolver) (a b : RequestContext) (w w' v : W) (caps : CapabilitySet)
      → fresh (lookup (cache_key a) r.cache) (now w) ≡ none
      → evaluate a w ≡ (ok caps, w')
      → cache_key b ≡ cache_key a
      → now v <ℤ now w' +ℤ r.ttl
      → resolve now evaluate (resolve now evaluate r a w).1 b v
        ≡ (ok caps, (resolve now evaluate r a w).1, v)
  resolve_again r a b w w' v caps miss answer same before =
      let first : (resolve now evaluate r a w).1 ≡ store now evaluate r a (ok caps) (now w') =
        rw (resolve_miss r a w miss, answer) in
      rw first (
        resolve_hit _ b v caps
          (stored_is_fresh r a (cache_key b) caps (now w') (now v) same before))

  user_prefix-cache_key :
      (rctx : RequestContext)
      → has_prefix (cache_key rctx) (user_prefix rctx.subject_id rctx.tenant_id) ≡ true
  unfolding cache_key
  user_prefix-cache_key rctx =
      let e : cache_key rctx ≡ user_prefix rctx.subject_id rctx.tenant_id ++ rctx.partition_id =
        simp append_assoc in
      rw e (has_prefix-append (user_prefix rctx.subject_id rctx.tenant_id) rctx.partition_id)

  -- After an invalidation every request of that subject and tenant, in whatever partition, is
  -- answered by the evaluator, which sees the world as it is.
  pub resolve-invalidate :
      (r : Resolver) (rctx : RequestContext) (w : W)
      → ((resolve now evaluate (invalidate r rctx.subject_id rctx.tenant_id) rctx w).0
          ≡ (evaluate rctx w).0)
        × ((resolve now evaluate (invalidate r rctx.subject_id rctx.tenant_id) rctx w).2
            ≡ (evaluate rctx w).1)
  unfolding invalidate
  resolve-invalidate r rctx w =
      let inv = invalidate r rctx.subject_id rctx.tenant_id in
      let gone : fresh (lookup (cache_key rctx) inv.cache) (now w) ≡ none =
        rw (lookup-delete_if _ (cache_key rctx) r.cache, user_prefix-cache_key rctx)
          (unfold fresh in refl) in
      let e = resolve_miss inv rctx w gone in (ap (λ x. x.0) e, ap (λ x. x.2) e)

-- Every cached set, and every answer, is one that the evaluator gave for a request with that key.
module _ {W : Type 0} (now : W → ℤ) (evaluate : RequestContext → Exec W CapabilitySet) where
  pub record Answered (key : Text) (caps : CapabilitySet) : Type 0 where
    pub request : RequestContext
    pub before : W
    pub same_key : cache_key request ≡ key
    pub gave : (evaluate request before).0 ≡ ok caps

  pub record IsSound (r : Resolver) : Type 0 where
    pub entries : (key : Text) (e : CacheEntry) → lookup key r.cache ≡ some e → Answered key e.caps

  store-IsSound :
      (r : Resolver) (rctx : RequestContext) (w : W) (answer : Result CapabilitySet) (t : ℤ)
      → (evaluate rctx w).0 ≡ answer
      → IsSound r
      → IsSound (store now evaluate r rctx answer t)
  store-IsSound r rctx w (err e) t given s = s
  store-IsSound r rctx w (ok caps) t given s = record {
    entries = λ key e found. elim (Bool-cases (text_eq (cache_key rctx) key)) [
      | inl same ↦
          let caps' : caps ≡ e.caps = ground (
            arith,
            lookup-insert (cache_key rctx) key (record { caps = caps; expires = t +ℤ r.ttl })
                r.cache,
          ) in
          record {
            request = rctx;
            before = w;
            same_key = (text_eq_iff _ _).0 same;
            gave = given ∙ ap ok caps';
          }
      | inr other ↦ s.entries key e (
          ground (
            arith,
            lookup-insert (cache_key rctx) key (record { caps = caps; expires = t +ℤ r.ttl })
                r.cache,
          ))
    ];
  }

  hit-Answered :
      (r : Resolver) (rctx : RequestContext) (o : Option CacheEntry) (t : ℤ) (caps : CapabilitySet)
      → IsSound r
      → lookup (cache_key rctx) r.cache ≡ o
      → fresh o t ≡ some caps
      → Answered (cache_key rctx) caps
  unfolding fresh
  hit-Answered r rctx none t caps s found e = cc
  hit-Answered r rctx (some entry) t caps s found e =
      let same : entry.caps ≡ caps = ground arith in
      subst (Answered (cache_key rctx)) same (s.entries (cache_key rctx) entry found)

  resolve_step :
      (r : Resolver) (rctx : RequestContext) (w : W)
      → IsSound r
      → IsSound (resolve now evaluate r rctx w).1
        × ((caps : CapabilitySet)
            → (resolve now evaluate r rctx w).0 ≡ ok caps
            → Answered (cache_key rctx) caps)
  resolve_step r rctx w s = elim (Option-cases (fresh (lookup (cache_key rctx) r.cache) (now w))) [
    | inl miss ↦
        let e = resolve_miss now evaluate r rctx w miss in
        (
          rw e (store-IsSound r rctx w (evaluate rctx w).0 _ refl s),
          λ caps given. record {
            request = rctx;
            before = w;
            same_key = refl;
            gave = ap (λ x. x.0) (sym e) ∙ given;
          },
        )
    | inr (held, hit) ↦
        let e = resolve_hit now evaluate r rctx w held hit in
        (
          rw e s,
          λ caps given.
              let same : held ≡ caps = ground (arith, e) in
              subst (Answered (cache_key rctx)) same
                (hit-Answered r rctx _ (now w) held s refl hit),
        )
  ]

  -- A call keeps the cache sound.
  pub resolve-IsSound :
      (r : Resolver) (rctx : RequestContext) (w : W)
      → IsSound r
      → IsSound (resolve now evaluate r rctx w).1
  resolve-IsSound r rctx w s = (resolve_step r rctx w s).0

  -- From a sound cache, a set that a call gives is one that the evaluator gave, now or before, for
  -- a request with the same key.
  pub resolve-Answered :
      (r : Resolver) (rctx : RequestContext) (w : W) (caps : CapabilitySet)
      → IsSound r
      → (resolve now evaluate r rctx w).0 ≡ ok caps
      → Answered (cache_key rctx) caps
  resolve-Answered r rctx w caps s = (resolve_step r rctx w s).1 caps

  -- An invalidation keeps the cache sound.
  pub invalidate-IsSound :
      (r : Resolver) (subject_id tenant_id : Text)
      → IsSound r
      → IsSound (invalidate r subject_id tenant_id)
  unfolding invalidate
  invalidate-IsSound r subject_id tenant_id s = record {
    entries = λ key e found. s.entries key e (
        ground (
          arith,
          lookup-delete_if (λ k. has_prefix k (user_prefix subject_id tenant_id)) key r.cache,
        ));
  }
