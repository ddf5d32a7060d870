-- ===== src/Search/Dedup/Reference.antt =====
-- The loop with its table of places is the plain fold that looks every key up in the output.
use thesa.Prelude.{
  ℕ, zero, suc, Bool, Option, none, some, List, [], ◌∷◌, ◌++◌, ◌≡◌, refl, sym, ap, ◌∙◌, arith, inl,
  inr, length, if◌then◌else◌, Option-cases,
}
use thesa.Prelude.Text.{Text, text_eq, text_eq_iff}
use thesa.Prelude.Maps.{Map, lookup, insert, lookup-insert}
use thesa.Search.Items.{SearchResult}
use thesa.Search.Dedup.{result_key, get_elem?, improve, dedup_loop, deduplicate}

module _ (gt : ℕ → ℕ → Bool) where
  -- A result replaces a held one of its key if its score is higher, and is new at the end.
  abbrev pub put_best : SearchResult → List SearchResult → List SearchResult
  put_best r [] = r ∷ []
  put_best r (x ∷ xs) =
      if text_eq (result_key x) (result_key r)
      then (if gt r.score x.score then r else x) ∷ xs
      else x ∷ put_best r xs

  abbrev pub best : List SearchResult → List SearchResult → List SearchResult
  best [] out = out
  best (r ∷ rs) out = best rs (put_best r out)

abbrev next_place : Option ℕ → Option ℕ
next_place none = none
next_place (some i) = some (suc i)

index_of : Text → List SearchResult → Option ℕ
index_of k [] = none
index_of k (x ∷ xs) = if text_eq (result_key x) k then some 0 else next_place (index_of k xs)

Indexed : Map ℕ → List SearchResult → Type 0
Indexed seen out = (k : Text) → lookup k seen ≡ index_of k out

module _ (gt : ℕ → ℕ → Bool) where
  put_best_new :
      (r : SearchResult) (out : List SearchResult)
      → index_of (result_key r) out ≡ none
      → put_best gt r out ≡ out ++ r ∷ []
  unfolding index_of
  put_best_new r [] h = refl
  put_best_new r (x ∷ out) h = ground (arith, put_best_new r out)

  put_best_held :
      (r : SearchResult) (out : List SearchResult) (i : ℕ)
      → index_of (result_key r) out ≡ some i
      → improve gt out i r (get_elem? out i) ≡ put_best gt r out
  unfolding index_of
  put_best_held r [] i h = cc
  put_best_held r (x ∷ out) zero h = ground (arith, Option-cases (index_of (result_key r) out))
  put_best_held r (x ∷ out) (suc i) h =
      ground (arith, put_best_held r out i, Option-cases (index_of (result_key r) out))

  index_of-put_best_held :
      (k : Text) (r : SearchResult) (out : List SearchResult) (i : ℕ)
      → index_of (result_key r) out ≡ some i
      → index_of k (put_best gt r out) ≡ index_of k out
  unfolding index_of
  index_of-put_best_held k r [] i h = cc
  index_of-put_best_held k r (x ∷ out) zero h =
      ground (
        arith,
        Option-cases (index_of (result_key r) out),
        text_eq_iff (result_key x) (result_key r),
      )
  index_of-put_best_held k r (x ∷ out) (suc i) h = ground (
    arith,
    index_of-put_best_held k r out i,
    Option-cases (index_of (result_key r) out),
    text_eq_iff (result_key x) (result_key r),
  )

  index_of-append :
      (k : Text) (r : SearchResult) (out : List SearchResult)
      → index_of (result_key r) out ≡ none
      → index_of k (out ++ r ∷ [])
        ≡ (if text_eq (result_key r) k then some (length out) else index_of k out)
  unfolding index_of
  index_of-append k r [] h = refl
  index_of-append k r (x ∷ out) h = ground (
    arith,
    index_of-append k r out,
    Option-cases (index_of (result_key r) out),
    text_eq_iff (result_key x) k,
    text_eq_iff (result_key r) k,
    text_eq_iff (result_key x) (result_key r),
  )

  dedup_loop_new :
      (r : SearchResult) (rs : List SearchResult) (seen : Map ℕ) (out : List SearchResult)
      → lookup (result_key r) seen ≡ none
      → dedup_loop gt (r ∷ rs) seen out
        ≡ dedup_loop gt rs (insert (result_key r) (length out) seen) (out ++ r ∷ [])
  unfolding dedup_loop
  dedup_loop_new r rs seen out e = rw (e, dedup_loop)

  dedup_loop_held :
      (r : SearchResult) (rs : List SearchResult) (seen : Map ℕ) (out : List SearchResult) (i : ℕ)
      → lookup (result_key r) seen ≡ some i
      → dedup_loop gt (r ∷ rs) seen out
        ≡ dedup_loop gt rs seen (improve gt out i r (get_elem? out i))
  unfolding dedup_loop
  dedup_loop_held r rs seen out i e = rw (e, dedup_loop)

  dedup_loop-best :
      (rs : List SearchResult) (seen : Map ℕ) (out : List SearchResult)
      → Indexed seen out
      → dedup_loop gt rs seen out ≡ best gt rs out
  unfolding Indexed
  dedup_loop-best [] seen out h = unfold dedup_loop in refl
  dedup_loop-best (r ∷ rs) seen out h = elim (Option-cases (lookup (result_key r) seen)) [
    | inl new ↦
        let absent : index_of (result_key r) out ≡ none = sym (h (result_key r)) ∙ new in
        dedup_loop_new r rs seen out new
        ∙ dedup_loop-best rs (insert (result_key r) (length out) seen) (out ++ r ∷ []) (λ k.
          lookup-insert (result_key r) k (length out) seen
          ∙ ap (λ (o : Option ℕ). if text_eq (result_key r) k then some (length out) else o) (h k)
          ∙ sym (index_of-append k r out absent))
        ∙ ap (λ (o : List SearchResult). best gt rs o) (sym (put_best_new r out absent))
    | inr (i, held) ↦
        let place : index_of (result_key r) out ≡ some i = sym (h (result_key r)) ∙ held in
        dedup_loop_held r rs seen out i held
        ∙ ap (λ (o : List SearchResult). dedup_loop gt rs seen o) (put_best_held r out i place)
        ∙ dedup_loop-best rs seen (put_best gt r out)
            (λ k. h k ∙ sym (index_of-put_best_held k r out i place))
  ]

-- The result of the loop is that of the fold, for whatever comparison of scores.
pub deduplicate-best :
    (gt : ℕ → ℕ → Bool) (results : List SearchResult) → deduplicate gt results ≡ best gt results []
unfolding deduplicate Indexed
deduplicate-best gt results = dedup_loop-best gt results [] [] (λ k. unfold lookup index_of in refl)
