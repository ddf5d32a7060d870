-- ===== src/Metadata/Menu/Insertion.antt =====
-- Insertion sort does what sort.Slice promises.
use mathlib.Core.List.{Permᴰ}
use mathlib.Core.List.Permᴰ
use thesa.Prelude.{
  Bool, true, false, List, [], ◌∷◌, ◌≡◌, refl, arith, inl, inr, All, Bool-cases, if◌then◌else◌,
}
use thesa.Prelude.Int.{ℤ, ◌≤ℤ◌, ltb_ℤ}
use thesa.Metadata.Menu.Order.{IsOrdered, Sorting}

abbrev insert_by : {A : Type 0} → (A → A → Bool) → A → List A → List A
insert_by less x [] = x ∷ []
insert_by less x (y ∷ ys) =
    let rest = insert_by less x ys in if less y x then y ∷ rest else x ∷ y ∷ ys

abbrev sort_by : {A : Type 0} → (A → A → Bool) → List A → List A
sort_by less [] = []
sort_by less (x ∷ xs) = insert_by less x (sort_by less xs)

insert_by-perm :
    {A : Type 0} (less : A → A → Bool) (x : A) (ys : List A) → Permᴰ (insert_by less x ys) (x ∷ ys)
insert_by-perm less x [] = Permᴰ.refl _
insert_by-perm less x (y ∷ ys) = elim (Bool-cases (less y x)) [
  | inl lower ↦
      rw lower (Permᴰ.trans (Permᴰ.cons refl (insert_by-perm less x ys)) (Permᴰ.swap refl refl))
  | inr other ↦ rw other (Permᴰ.refl _)
]

pub sort_by-perm : {A : Type 0} (less : A → A → Bool) (xs : List A) → Permᴰ (sort_by less xs) xs
sort_by-perm less [] = Permᴰ.nil
sort_by-perm less (x ∷ xs) =
    Permᴰ.trans (insert_by-perm less x (sort_by less xs)) (Permᴰ.cons refl (sort_by-perm less xs))

le_trans : (a b c : ℤ) → a ≤ℤ b → b ≤ℤ c → a ≤ℤ c
le_trans a b c h k = omega (arith, h, k)

of_ltb : (a b : ℤ) → ltb_ℤ a b ≡ true → a ≤ℤ b
of_ltb a b h = ground (arith, h)

of_not_ltb : (a b : ℤ) → ltb_ℤ a b ≡ false → b ≤ℤ a
of_not_ltb a b h = ground (arith, h)

module _ {A : Type 0} (key : A → ℤ) where
  abbrev less : A → A → Bool
  less a b = ltb_ℤ (key a) (key b)

  above_insert :
      (z x : A) (ys : List A)
      → key z ≤ℤ key x
      → All (λ y. key z ≤ℤ key y) ys
      → All (λ y. key z ≤ℤ key y) (insert_by less x ys)
  above_insert z x [] h a = (h, tt)
  above_insert z x (y ∷ ys) h a = elim (Bool-cases (less y x)) [
    | inl lower ↦ rw lower (a.0, above_insert z x ys h a.1)
    | inr other ↦ rw other (h, a)
  ]

  above-All :
      (z x : A) (ys : List A)
      → key z ≤ℤ key x
      → All (λ y. key x ≤ℤ key y) ys
      → All (λ y. key z ≤ℤ key y) ys
  above-All z x [] h a = tt
  above-All z x (y ∷ ys) h a = (le_trans (key z) (key x) (key y) h a.0, above-All z x ys h a.1)

  insert_by-IsOrdered :
      (x : A) (ys : List A) → IsOrdered key ys → IsOrdered key (insert_by less x ys)
  insert_by-IsOrdered x [] o = (tt, tt)
  insert_by-IsOrdered x (y ∷ ys) o = elim (Bool-cases (less y x)) [
    | inl lower ↦
        rw lower
          (above_insert y x ys (of_ltb (key y) (key x) lower) o.0, insert_by-IsOrdered x ys o.1)
    | inr other ↦
        let low = of_not_ltb (key y) (key x) other in rw other ((low, above-All x y ys low o.0), o)
  ]

  pub sort_by-IsOrdered : (xs : List A) → IsOrdered key (sort_by less xs)
  sort_by-IsOrdered [] = tt
  sort_by-IsOrdered (x ∷ xs) = insert_by-IsOrdered x (sort_by less xs) (sort_by-IsOrdered xs)

abbrev pub insertion : Sorting
insertion = record {
  sort_slice = sort_by;
  sort_slice-perm = sort_by-perm;
  sort_slice-IsOrdered = λ key xs. sort_by-IsOrdered key xs;
}
