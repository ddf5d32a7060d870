-- ===== src/Search/Paging/Laws.antt =====
-- The page of a search: its normalised numbers, and what the slice returns.
use thesa.Prelude.{
  ℕ, zero, suc, ◌+◌, ◌-◌, ◌*◌, ◌^◌, ◌≤◌, ◌<◌, ◌≡◌, refl, sym, ap, ◌∙◌, arith, Bool, true, false,
  ◌&&◌, some, List, [], ◌∷◌, leb, ltb, In, length, take, drop, length-drop, Bool-cases, inl, inr,
  if◌then◌else◌,
}
use mathlib.Core.Path.{subst}
use thesa.Prelude.Int.{ℤ, pos, negsuc, ◌+ℤ◌, ◌-ℤ◌, ◌*ℤ◌, ◌≤ℤ◌, leb_ℤ, wrap64, wrap64_of_IsInt64}
use thesa.Context.{Pagination}
use thesa.Search.Paging.{normalize, slice, offset_of, end_of, page_slice}

-- Whatever the caller asks for, the page is at least 1 and its size lies between 1 and 50.
pub normalize_bounds :
    (p : Pagination)
    → (pos 1 ≤ℤ (normalize p).page)
      × (pos 1 ≤ℤ (normalize p).page_size)
      × ((normalize p).page_size ≤ℤ pos 50)
unfolding normalize
normalize_bounds p = ground arith

offset_lem :
    (q size : ℕ)
    → q * size + size < 2 ^ 63
    → suc q < 2 ^ 63
    → offset_of (pos (suc q)) (pos size) ≡ pos (q * size)
unfolding ◌-ℤ◌ ◌*ℤ◌
offset_lem q size small page_small =
    let first : pos (suc q) -ℤ pos 1 ≡ pos q = ground arith in
    let wrapped : wrap64 (pos (suc q) -ℤ pos 1) ≡ pos q =
      ap wrap64 first ∙ wrap64_of_IsInt64 (pos q) (ground arith) in
    let product : pos q *ℤ pos size ≡ pos (q * size) = ground arith in
    ap (λ (z : ℤ). wrap64 (z *ℤ pos size)) wrapped
    ∙ ap wrap64 product
    ∙ wrap64_of_IsInt64 (pos (q * size)) (ground arith)

end_lem :
    (n offset size : ℕ)
    → offset + size < 2 ^ 63
    → end_of n (pos offset) (pos size)
      ≡ (if ltb n (offset + size) then pos n else pos (offset + size))
unfolding ◌+ℤ◌
end_lem n offset size small =
    let sum : pos offset +ℤ pos size ≡ pos (offset + size) = ground arith in
    let wrapped : wrap64 (pos offset +ℤ pos size) ≡ pos (offset + size) =
      ap wrap64 sum ∙ wrap64_of_IsInt64 (pos (offset + size)) (ground arith) in
    rw wrapped (ground arith)

module _ {A : Type 0} where
  take_nil : (n : ℕ) → take {A = A} n [] ≡ []
  take_nil zero = refl
  take_nil (suc n) = refl

  pub take_all : (n : ℕ) (xs : List A) → length xs ≤ n → take n xs ≡ xs
  take_all n [] h = take_nil n
  take_all zero (x ∷ xs) h = ground arith
  take_all (suc n) (x ∷ xs) h = ap (λ (t : List A). x ∷ t) (take_all n xs (omega arith))

  pub drop_all : (n : ℕ) (xs : List A) → length xs ≤ n → drop n xs ≡ []
  drop_all zero [] h = refl
  drop_all zero (x ∷ xs) h = absurd (omega arith)
  drop_all (suc n) [] h = refl
  drop_all (suc n) (x ∷ xs) h = drop_all n xs (omega arith)

  cut :
      (xs : List A) (offset size : ℕ)
      → offset + size < 2 ^ 63
      → (if leb_ℤ (pos (length xs)) (pos offset)
          then some []
          else slice xs (pos offset) (end_of (length xs) (pos offset) (pos size)))
        ≡ some (take size (drop offset xs))
  cut xs offset size small = elim (Bool-cases (leb (length xs) offset)) [
    | inl past ↦
        let e : drop offset xs ≡ [] = drop_all offset xs (ground arith) in
        ground (arith, past, ap (take size) e ∙ take_nil size)
    | inr inside ↦
        let e = end_lem (length xs) offset size small in
        elim (Bool-cases (ltb (length xs) (offset + size))) [
          | inl short ↦
              let all_of : take (length xs - offset) (drop offset xs) ≡ drop offset xs =
                take_all (length xs - offset) (drop offset xs)
                  (omega (arith, length-drop offset xs)) in
              let all_of' : take size (drop offset xs) ≡ drop offset xs =
                take_all size (drop offset xs) (ground (arith, length-drop offset xs)) in
              ground (arith, e, short, all_of ∙ sym all_of', inside)
          | inr long ↦
              let e' : offset + size - offset ≡ size = omega arith in
              ground (arith, e, e', long, inside)
        ]
  ]

  -- When the numbers of the page stay inside int, the slice does not panic: page q + 1 is what
  -- follows the first q pages, cut to the page's size.
  pub page_slice-exact :
      (xs : List A) (q size : ℕ)
      → q * size + size < 2 ^ 63
      → suc q < 2 ^ 63
      → page_slice xs (pos (suc q)) (pos size) ≡ some (take size (drop (q * size) xs))
  unfolding page_slice
  page_slice-exact xs q size small page_small =
      rw (offset_lem q size small page_small) (cut xs (q * size) size small)

  pub In-take : (x : A) (n : ℕ) (xs : List A) → In x (take n xs) → In x xs
  In-take x zero xs h = absurd h
  In-take x (suc n) [] h = absurd h
  In-take x (suc n) (y ∷ ys) (inl e) = inl e
  In-take x (suc n) (y ∷ ys) (inr h) = inr (In-take x n ys h)

  In-drop : (x : A) (n : ℕ) (xs : List A) → In x (drop n xs) → In x xs
  In-drop x zero xs h = h
  In-drop x (suc n) [] h = absurd h
  In-drop x (suc n) (y ∷ ys) h = inr (In-drop x n ys h)

  In-slice :
      (x : A) (xs page : List A) (low high : ℤ)
      → slice xs low high ≡ some page
      → In x page
      → In x xs
  In-slice x xs page (pos low) (pos high) e h =
      elim (Bool-cases (leb low high && leb high (length xs))) [
        | inl fits ↦
            let f : take (high - low) (drop low xs) ≡ page = ground (arith, e, fits) in
            In-drop x low xs
              (In-take x (high - low) (drop low xs) (subst (λ (p : List A). In x p) (sym f) h))
        | inr out ↦ absurd (ground (arith, e, out))
      ]
  In-slice x xs page (pos low) (negsuc high) e h = absurd (ground (arith, e))
  In-slice x xs page (negsuc low) (pos high) e h = absurd (ground (arith, e))
  In-slice x xs page (negsuc low) (negsuc high) e h = absurd (ground (arith, e))

  In-cut :
      (x : A) (xs page : List A) (b : Bool) (low high : ℤ)
      → (if b then some [] else slice xs low high) ≡ some page
      → In x page
      → In x xs
  In-cut x xs page true low high e h =
      let f : [] ≡ page = ground (arith, e) in absurd (subst (λ (p : List A). In x p) (sym f) h)
  In-cut x xs page false low high e h = In-slice x xs page low high e h

  -- What is on a page is among the merged results.
  pub In-page_slice :
      (x : A) (xs page : List A) (n size : ℤ)
      → page_slice xs n size ≡ some page
      → In x page
      → In x xs
  unfolding page_slice
  In-page_slice x xs page n size =
      In-cut x xs page (leb_ℤ (pos (length xs)) (offset_of n size)) (offset_of n size)
        (end_of (length xs) (offset_of n size) size)
