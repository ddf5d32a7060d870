-- ===== src/Prelude/Strings.antt =====
-- Functions of package strings: search, split, join, replace and trim.
use Prim.Native.Nat.{ℕ, zero, suc, ◌-◌}
use mathlib.Core.Path.{◌≡◌, refl, sym, ap, ◌∙◌}
use mathlib.Core.Bool.{Bool, true, false, ◌||◌}
use mathlib.Core.Option.{Option, none, some}
use mathlib.Core.List.{List, [], ◌∷◌, ◌++◌, reverse, reverse_aux, reverse-reverse, append-nil}
use native.Mathlib.Omega.{arith}
use thesa.Prelude.Tests.{◌==◌}
use thesa.Prelude.Lists.{length, All}
use thesa.Prelude.Text.{Text, codes, has_prefix, Lacks}

-- strings.Contains(s, sub)
unfoldable pub contains : Text → Text → Bool
contains [] sub = has_prefix [] sub
contains (c ∷ s) sub = has_prefix (c ∷ s) sub || contains s sub

-- strings.IndexByte(s, c) < 0, as `none`; else what stands before and after the first c.
unfoldable pub cut_byte : ℕ → Text → Option (Text × Text)
cut_byte b [] = none
cut_byte b (c ∷ s) = elim (c == b) [
  | true ↦ some ([], s)
  | false ↦ elim (cut_byte b s) [ none ↦ none | some (p, q) ↦ some (c ∷ p, q) ]
]

-- strings.Split(s, sep) for a separator of one byte: never empty.
unfoldable pub split_rev : ℕ → Text → Text → List Text
split_rev b [] cur = reverse cur ∷ []
split_rev b (c ∷ s) cur = elim (c == b) [
  | true ↦ reverse cur ∷ split_rev b s []
  | false ↦ split_rev b s (c ∷ cur)
]

unfoldable pub split : Text → ℕ → List Text
unfolding split_rev
split s b = split_rev b s []

-- strings.Join(parts, sep)
unfoldable pub join : List Text → Text → Text
join [] sep = []
join (p ∷ []) sep = p
join (p ∷ q ∷ ps) sep = p ++ (sep ++ join (q ∷ ps) sep)

-- strings.ReplaceAll(s, old, new) for an `old` that is not empty: `skip` bytes of a match are left.
unfoldable pub replace_from : ℕ → Text → Text → Text → Text
replace_from skip [] old new = []
replace_from (suc k) (c ∷ s) old new = replace_from k s old new
replace_from zero (c ∷ s) old new = elim (has_prefix (c ∷ s) old) [
  | true ↦ new ++ replace_from (length old - 1) s old new
  | false ↦ c ∷ replace_from zero s old new
]

unfoldable pub replace_all : Text → Text → Text → Text
unfolding replace_from
replace_all s old new = replace_from zero s old new

replace_all_runs : replace_all (codes "/o/{id}/{id}x") (codes "{id}") (codes "7") ≡ codes "/o/7/7x"
unfolding replace_all has_prefix
replace_all_runs = refl

split_runs : split (codes "a..b") b'.' ≡ codes "a" ∷ [] ∷ codes "b" ∷ []
unfolding split
split_runs = refl

split_rev-append :
    (b : ℕ) (p rest cur : Text)
    → Lacks b p
    → split_rev b (p ++ rest) cur ≡ split_rev b rest (reverse_aux p cur)
unfolding split_rev
split_rev-append b [] rest cur h = refl
split_rev-append b (c ∷ p) rest cur h = ground (arith, split_rev-append b p rest (c ∷ cur) h.1, h.0)

split_rev_last : (b : ℕ) (p : Text) → Lacks b p → split_rev b p [] ≡ p ∷ []
split_rev_last b p h =
    ap (λ (t : Text). split_rev b t []) (sym (append-nil p))
    ∙ split_rev-append b p [] [] h
    ∙ (unfold split_rev in ap (λ (t : Text). t ∷ []) (reverse-reverse p))

split_rev_sep :
    (b : ℕ) (p rest : Text) → Lacks b p → split_rev b (p ++ (b ∷ rest)) [] ≡ p ∷ split_rev b rest []
split_rev_sep b p rest h =
    let head : split_rev b (b ∷ rest) (reverse_aux p [])
        ≡ reverse (reverse p) ∷ split_rev b rest [] =
      unfold split_rev in ground arith in
    split_rev-append b p (b ∷ rest) [] h
    ∙ head
    ∙ ap (λ (t : Text). t ∷ split_rev b rest []) (reverse-reverse p)

-- Splitting a join gives the parts back, if there is one and none holds the separator.
pub split-join :
    (b : ℕ) (p : Text) (ps : List Text)
    → All (Lacks b) (p ∷ ps)
    → split (join (p ∷ ps) (b ∷ [])) b ≡ p ∷ ps
unfolding split join
split-join b p [] h = split_rev_last b p h.0
split-join b p (q ∷ ps) h =
    split_rev_sep b p (join (q ∷ ps) (b ∷ [])) h.0
    ∙ ap (λ (ts : List Text). p ∷ ts) (split-join b q ps h.1)
