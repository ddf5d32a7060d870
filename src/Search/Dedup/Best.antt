-- ===== src/Search/Dedup/Best.antt =====
-- What deduplication keeps.
use thesa.Prelude.{
  All-of_In, ℕ, Bool, true, false, List, [], ◌∷◌, ◌≡◌, ◌≢◌, ◌⊎◌, refl, sym, ap, ◌∙◌, arith, inl,
  inr, Bool-cases, In, All,
}
use mathlib.Core.Path.{subst}
use thesa.Prelude.Text.{Text, text_eq, text_eq_iff}
use thesa.Search.Items.{SearchResult}
use thesa.Search.Dedup.{result_key, deduplicate}
use thesa.Search.Dedup.Reference.{put_best, best, deduplicate-best}

-- What `>` on float64 satisfies, NaN included.
pub record IsGreater (gt : ℕ → ℕ → Bool) : Type 0 where
  pub irrefl : (a : ℕ) → gt a a ≡ false
  pub trans : (a b c : ℕ) → gt a b ≡ false → gt c b ≡ true → gt a c ≡ false

-- No two results share a key.
abbrev pub DistinctResults : List SearchResult → Type 0
DistinctResults [] = Unit
DistinctResults (x ∷ xs) = All (λ y. result_key y ≢ result_key x) xs × DistinctResults xs

-- A result of the same key stands in the list, and r's score is not higher.
abbrev pub Beaten : (ℕ → ℕ → Bool) → SearchResult → List SearchResult → Type 0
Beaten gt r out =
    (x : SearchResult) × In x out × (result_key x ≡ result_key r) × (gt r.score x.score ≡ false)

module _ (gt : ℕ → ℕ → Bool) where
  In-put_best :
      (x r : SearchResult) (out : List SearchResult) → In x (put_best gt r out) → (x ≡ r) ⊎ In x out
  In-put_best x r [] (inl e) = inl e
  In-put_best x r [] (inr h) = absurd h
  In-put_best x r (y ∷ out) h = elim (Bool-cases (text_eq (result_key y) (result_key r))) [
    | inl same ↦ elim (Bool-cases (gt r.score y.score)) [
      | inl more ↦ elim (rw (same, more) at h) [ inl e ↦ inl e | inr i ↦ inr (inr i) ]
      | inr less ↦ elim (rw (same, less) at h) [ inl e ↦ inr (inl e) | inr i ↦ inr (inr i) ]
    ]
    | inr other ↦ elim (rw other at h) [
      | inl e ↦ inr (inl e)
      | inr i ↦ elim (In-put_best x r out i) [ inl e ↦ inl e | inr j ↦ inr (inr j) ]
    ]
  ]

  All-keys-put_best :
      (k : Text) (r : SearchResult) (out : List SearchResult)
      → result_key r ≢ k
      → All (λ y. result_key y ≢ k) out
      → All (λ y. result_key y ≢ k) (put_best gt r out)
  All-keys-put_best k r [] h a = (h, tt)
  All-keys-put_best k r (y ∷ out) h a = elim (Bool-cases (text_eq (result_key y) (result_key r))) [
    | inl same ↦ elim (Bool-cases (gt r.score y.score)) [
      | inl more ↦ rw (same, more) (h, a.1)
      | inr less ↦ rw (same, less) a
    ]
    | inr other ↦ rw other (a.0, All-keys-put_best k r out h a.1)
  ]

  put_best-Distinct :
      (r : SearchResult) (out : List SearchResult)
      → DistinctResults out
      → DistinctResults (put_best gt r out)
  put_best-Distinct r [] d = (tt, tt)
  put_best-Distinct r (y ∷ out) d = elim (Bool-cases (text_eq (result_key y) (result_key r))) [
    | inl same ↦ elim (Bool-cases (gt r.score y.score)) [
      | inl more ↦
          let e : result_key y ≡ result_key r = (text_eq_iff _ _).0 same in
          rw (same, more) (subst (λ (k : Text). All (λ z. result_key z ≢ k) out) e d.0, d.1)
      | inr less ↦ rw (same, less) d
    ]
    | inr other ↦
        let ne : result_key r ≢ result_key y =
          λ e. absurd (ground (arith, text_eq_iff (result_key y) (result_key r))) in
        rw other (All-keys-put_best (result_key y) r out ne d.0, put_best-Distinct r out d.1)
  ]

  put_best-Beaten :
      IsGreater gt
      → (s r : SearchResult) (out : List SearchResult) → Beaten gt s out
      → Beaten gt s (put_best gt r out)
  put_best-Beaten g s r [] b = absurd b.1
  put_best-Beaten g s r (y ∷ out) (x, i, same_key, le) =
      elim (Bool-cases (text_eq (result_key y) (result_key r))) [
        | inl same ↦ elim (Bool-cases (gt r.score y.score)) [
          | inl more ↦
              rw (same, more)
                (elim i [
                  | inl e ↦ (
                    r,
                    inl refl,
                    sym ((text_eq_iff _ _).0 same) ∙ ap result_key (sym e) ∙ same_key,
                    g.trans s.score y.score r.score
                        (subst (λ (z : SearchResult). gt s.score z.score ≡ false) e le) more,
                  )
                  | inr j ↦ (x, inr j, same_key, le)
                ])
          | inr less ↦ rw (same, less) (x, i, same_key, le)
        ]
        | inr other ↦ rw other (elim i [
          | inl e ↦ (x, inl e, same_key, le)
          | inr j ↦
              let (z, k, f, l) = put_best-Beaten g s r out (x, j, same_key, le) in (z, inr k, f, l)
        ])
      ]

  put_best_self :
      IsGreater gt → (r : SearchResult) (out : List SearchResult) → Beaten gt r (put_best gt r out)
  put_best_self g r [] = (r, inl refl, refl, g.irrefl r.score)
  put_best_self g r (y ∷ out) = elim (Bool-cases (text_eq (result_key y) (result_key r))) [
    | inl same ↦ elim (Bool-cases (gt r.score y.score)) [
      | inl more ↦ rw (same, more) (r, inl refl, refl, g.irrefl r.score)
      | inr less ↦ rw (same, less) (y, inl refl, (text_eq_iff _ _).0 same, less)
    ]
    | inr other ↦ let (z, k, f, l) = put_best_self g r out in rw other (z, inr k, f, l)
  ]

  best-In :
      (rs out : List SearchResult) (x : SearchResult) → In x (best gt rs out) → In x rs ⊎ In x out
  best-In [] out x h = inr h
  best-In (r ∷ rs) out x h = elim (best-In rs (put_best gt r out) x h) [
    | inl i ↦ inl (inr i)
    | inr j ↦ elim (In-put_best x r out j) [ inl e ↦ inl (inl e) | inr k ↦ inr k ]
  ]

  best-Distinct :
      (rs out : List SearchResult) → DistinctResults out → DistinctResults (best gt rs out)
  best-Distinct [] out d = d
  best-Distinct (r ∷ rs) out d = best-Distinct rs (put_best gt r out) (put_best-Distinct r out d)

  best-Beaten_held :
      IsGreater gt
      → (rs out : List SearchResult) (s : SearchResult) → Beaten gt s out
      → Beaten gt s (best gt rs out)
  best-Beaten_held g [] out s b = b
  best-Beaten_held g (r ∷ rs) out s b =
      best-Beaten_held g rs (put_best gt r out) s (put_best-Beaten g s r out b)

  best-Beaten :
      IsGreater gt
      → (rs out : List SearchResult) (s : SearchResult) → In s rs
      → Beaten gt s (best gt rs out)
  best-Beaten g [] out s i = absurd i
  best-Beaten g (r ∷ rs) out s (inl e) =
      subst (λ (x : SearchResult). Beaten gt x (best gt rs (put_best gt r out))) (sym e)
        (best-Beaten_held g rs (put_best gt r out) r (put_best_self g r out))
  best-Beaten g (r ∷ rs) out s (inr i) = best-Beaten g rs (put_best gt r out) s i

-- If scores are compared by a strict order, deduplication makes no result up, keeps one for each key, and no result has a higher score than
-- the one that is kept for its key.
pub deduplicate_lem :
    (gt : ℕ → ℕ → Bool) (results : List SearchResult)
    → IsGreater gt
    → All (λ x. In x results) (deduplicate gt results)
      × DistinctResults (deduplicate gt results)
      × All (λ r. Beaten gt r (deduplicate gt results)) results
deduplicate_lem gt results g = rw (deduplicate-best gt results) (
  All-of_In (λ x. In x results) (best gt results [])
      (λ x h. elim (best-In gt results [] x h) [ inl i ↦ i | inr n ↦ absurd n ]),
  best-Distinct gt results [] tt,
  All-of_In (λ r. Beaten gt r (best gt results [])) results
      (λ r i. best-Beaten gt g results [] r i),
)
