-- ===== src/Prelude/Sort.antt =====
-- sort.Strings: the sorted list of texts, byte by byte. The order is total, so that the result does
-- not depend on the algorithm.
use thesa.Prelude.Tests.{◌==◌, ltb, if◌then◌else◌}
use thesa.Prelude.Text.{Text}
use mathlib.Core.Path.{◌≡◌, refl, ◌∙◌}
use mathlib.Core.Logic.{∥∥₁_elim}
use mathlib.Core.Bool.{Bool, true, false, ◌&&◌, ◌||◌}
use mathlib.Core.List.{List, [], ◌∷◌, Perm, Permᴰ}
use native.Mathlib.Omega.{arith}

-- s <= t
unfoldable pub text_leb : Text → Text → Bool
text_leb [] t = true
text_leb (c ∷ s) [] = false
text_leb (c ∷ s) (d ∷ t) = ltb c d || (c == d && text_leb s t)

text_leb_total : (s t : Text) → text_leb s t ≡ false → text_leb t s ≡ true
unfolding text_leb
text_leb_total [] t h = cc
text_leb_total (c ∷ s) [] h = refl
text_leb_total (c ∷ s) (d ∷ t) h = ground (arith, text_leb_total s t)

text_leb_antisym : (s t : Text) → text_leb s t ≡ true → text_leb t s ≡ true → s ≡ t
unfolding text_leb
text_leb_antisym [] [] h k = refl
text_leb_antisym [] (d ∷ t) h k = cc
text_leb_antisym (c ∷ s) [] h k = cc
text_leb_antisym (c ∷ s) (d ∷ t) h k = ground (arith, text_leb_antisym s t)

text_leb_trans : (s t u : Text) → text_leb s t ≡ true → text_leb t u ≡ true → text_leb s u ≡ true
unfolding text_leb
text_leb_trans [] t u h k = refl
text_leb_trans (c ∷ s) [] u h k = cc
text_leb_trans (c ∷ s) (d ∷ t) [] h k = cc
text_leb_trans (c ∷ s) (d ∷ t) (e ∷ u) h k = ground (arith, text_leb_trans s t u)

insert_sorted : Text → List Text → List Text
insert_sorted x [] = x ∷ []
insert_sorted x (y ∷ ys) =
    let rest = insert_sorted x ys in if text_leb x y then x ∷ y ∷ ys else y ∷ rest

unfoldable pub sort_texts : List Text → List Text
unfolding insert_sorted text_leb
sort_texts [] = []
sort_texts (x ∷ xs) = insert_sorted x (sort_texts xs)

insert_sorted_comm :
    (x y : Text) (l : List Text)
    → insert_sorted x (insert_sorted y l) ≡ insert_sorted y (insert_sorted x l)
unfolding insert_sorted
insert_sorted_comm x y [] =
    ground (arith, text_leb_total x y, text_leb_total y x, text_leb_antisym x y)
insert_sorted_comm x y (z ∷ l) = ground (
  arith,
  insert_sorted_comm x y l,
  text_leb_total x y,
  text_leb_total y x,
  text_leb_antisym x y,
  text_leb_trans x y z,
  text_leb_trans y x z,
  text_leb_total x z,
  text_leb_total y z,
  text_leb_trans x z y,
  text_leb_trans y z x,
)

sort_texts-perm_data : {xs ys : List Text} → Permᴰ xs ys → sort_texts xs ≡ sort_texts ys
unfolding sort_texts
sort_texts-perm_data Permᴰ.nil = refl
sort_texts-perm_data (Permᴰ.cons {a = x} {b = y} {l₁ = xs} {l₂ = ys} e p) =
    λ i. insert_sorted (e i) (sort_texts-perm_data p i)
sort_texts-perm_data (Permᴰ.swap {a = x} {b = y} {l = l} e f) =
    insert_sorted_comm x y (sort_texts l) ∙ λ i.
    insert_sorted (f i) (insert_sorted (e i) (sort_texts l))
sort_texts-perm_data (Permᴰ.trans p q) = sort_texts-perm_data p ∙ sort_texts-perm_data q

Texts_set : IsSet (List Text)
Texts_set = hlevel

-- The order of the texts before the sort does not show after it.
pub sort_texts-perm : {xs ys : List Text} → Perm xs ys → sort_texts xs ≡ sort_texts ys
sort_texts-perm {xs} {ys} p =
    ∥∥₁_elim p (Texts_set (sort_texts xs) (sort_texts ys)) sort_texts-perm_data
