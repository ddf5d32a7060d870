-- ===== src/Search/Dedup.antt =====
-- internal/search/provider.go: deduplicate keeps one result for each route and id.
pub mod Reference
pub mod Best
use thesa.Prelude.{
  ℕ, zero, suc, Bool, Option, none, some, List, [], ◌∷◌, ◌++◌, length, if◌then◌else◌,
}
use thesa.Prelude.Text.{Text, codes}
use thesa.Prelude.Maps.{Map, lookup, insert}
use thesa.Search.Items.{SearchResult}

unfoldable pub result_key : SearchResult → Text
result_key r = r.route ++ (codes "|" ++ r.id)

abbrev pub get_elem? : List SearchResult → ℕ → Option SearchResult
get_elem? [] i = none
get_elem? (x ∷ xs) zero = some x
get_elem? (x ∷ xs) (suc i) = get_elem? xs i

abbrev pub set : List SearchResult → ℕ → SearchResult → List SearchResult
set [] i v = []
set (x ∷ xs) zero v = v ∷ xs
set (x ∷ xs) (suc i) v = x ∷ set xs i v

module _ (gt : ℕ → ℕ → Bool) where
  -- `if r.Score > output[idx].Score { output[idx] = r }`; the index is always in range.
  abbrev pub improve :
      List SearchResult → ℕ → SearchResult → Option SearchResult → List SearchResult
  improve output idx r none = output
  improve output idx r (some held) = if gt r.score held.score then set output idx r else output

  -- The loop: `seen` holds the place of each key in the output.
  unfoldable pub dedup_loop : List SearchResult → Map ℕ → List SearchResult → List SearchResult
  dedup_loop [] seen output = output
  dedup_loop (r ∷ rs) seen output = elim (lookup (result_key r) seen) [
    | some idx ↦ dedup_loop rs seen (improve output idx r (get_elem? output idx))
    | none ↦ dedup_loop rs (insert (result_key r) (length output) seen) (output ++ r ∷ [])
  ]

  unfoldable pub deduplicate : List SearchResult → List SearchResult
  unfolding dedup_loop
  deduplicate results = dedup_loop results [] []
