-- ===== src/Metadata/Menu/Order.antt =====
-- sort.Slice of Go's standard library, by what its documentation says: the slice is rearranged, and
-- ordered where the test compares keys. Equal keys may come in any order.
use mathlib.Core.List.{Permᴰ}
use thesa.Prelude.{Bool, List, [], ◌∷◌, inl, inr, ap, map, ◌∙◌, In, All}
use thesa.Prelude.Int.{ℤ, ◌≤ℤ◌, ltb_ℤ}

abbrev pub IsOrdered : {A : Type 0} → (A → ℤ) → List A → Type 0
IsOrdered key [] = Unit
IsOrdered key (x ∷ xs) = All (λ y. key x ≤ℤ key y) xs × IsOrdered key xs

pub record Sorting : Type 1 where
  pub sort_slice : {A : Type 0} → (A → A → Bool) → List A → List A
  pub sort_slice-perm :
      {A : Type 0} (less : A → A → Bool) (xs : List A) → Permᴰ (sort_slice less xs) xs
  pub sort_slice-IsOrdered :
      {A : Type 0} (key : A → ℤ) (xs : List A)
      → IsOrdered key (sort_slice (λ a b. ltb_ℤ (key a) (key b)) xs)

-- A rearrangement has the same members.
pub In-perm : {A : Type 0} (a : A) {xs ys : List A} → Permᴰ xs ys → In a xs → In a ys
In-perm a Permᴰ.nil h = h
In-perm a (Permᴰ.cons e p) (inl h) = inl (h ∙ e)
In-perm a (Permᴰ.cons e p) (inr h) = inr (In-perm a p h)
In-perm a (Permᴰ.swap e f) (inl h) = inr (inl (h ∙ e))
In-perm a (Permᴰ.swap e f) (inr (inl h)) = inl (h ∙ f)
In-perm a (Permᴰ.swap e f) (inr (inr h)) = inr (inr h)
In-perm a (Permᴰ.trans p q) h = In-perm a q (In-perm a p h)

pub map-perm :
    {A B : Type 0} (f : A → B) {xs ys : List A} → Permᴰ xs ys → Permᴰ (map f xs) (map f ys)
map-perm f Permᴰ.nil = Permᴰ.nil
map-perm f (Permᴰ.cons e p) = Permᴰ.cons (ap f e) (map-perm f p)
map-perm f (Permᴰ.swap e g) = Permᴰ.swap (ap f e) (ap f g)
map-perm f (Permᴰ.trans p q) = Permᴰ.trans (map-perm f p) (map-perm f q)
