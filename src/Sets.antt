-- ===== src/Sets.antt =====
-- Go's map[string]bool as a set of names: those of the validator's references and a form's fields.
use thesa.Prelude.{
  Bool, true, List, [], ◌∷◌, ◌≡◌, ◌⊎◌, ◌↔◌, inl, inr, refl, sym, ◌∙◌, arith, In, map, Bool-cases,
}
use thesa.Prelude.Text.{Text, text_eq, text_eq_iff}
use thesa.Prelude.Maps.{Map, lookup, insert, lookup-insert}
use thesa.Capability.{is_set}

-- map[string]bool with the ids of a list.
unfoldable pub id_set {ℓ} : {A : Type ℓ} → (A → Text) → List A → Map Bool → Map Bool
id_set id [] m = m
id_set id (x ∷ xs) m = id_set id xs (insert (id x) true m)

abbrev pub in_set : Map Bool → Text → Bool
in_set m k = is_set (lookup k m)

module _ {A : Type 0} (id : A → Text) where
  pub in_set-id_set :
      (k : Text) (xs : List A) (m : Map Bool)
      → (in_set (id_set id xs m) k ≡ true) ↔ (In k (map id xs) ⊎ (in_set m k ≡ true))
  unfolding id_set
  in_set-id_set k [] m = (λ h. inr h, λ h. elim h [ inl i ↦ absurd i | inr t ↦ t ])
  in_set-id_set k (x ∷ xs) m =
      let rest = in_set-id_set k xs (insert (id x) true m) in
      let found = lookup-insert (id x) k true m in
      elim (Bool-cases (text_eq (id x) k)) [
        | inl same ↦ (
          λ h. inl (inl (sym ((text_eq_iff (id x) k).0 same))),
          λ h. rest.1 (inr (rw (found, same) refl)),
        )
        | inr other ↦
            let before : in_set (insert (id x) true m) k ≡ in_set m k = rw (found, other) refl in
            (
              λ h. elim (rest.0 h) [ inl i ↦ inl (inr i) | inr t ↦ inr (sym before ∙ t) ],
              λ h. elim h [
                | inl (inl e) ↦ absurd (ground (arith, other, (text_eq_iff (id x) k).1 (sym e)))
                | inl (inr i) ↦ rest.1 (inl i)
                | inr t ↦ rest.1 (inr (before ∙ t))
              ],
            )
      ]

  -- The set that starts empty.
  pub declared_iff :
      (k : Text) (xs : List A) → (in_set (id_set id xs []) k ≡ true) ↔ In k (map id xs)
  unfolding lookup
  declared_iff k xs = (
    λ h. elim ((in_set-id_set k xs []).0 h) [ inl i ↦ i | inr t ↦ absurd (cc) ],
    λ i. (in_set-id_set k xs []).1 (inl i),
  )
