-- ===== src/Search/Paging/Overflow.antt =====
-- The offset of a page beyond the range of int.
use thesa.Prelude.{
  ℕ, suc, ◌-◌, ◌*◌, ◌^◌, ◌≤◌, ◌<◌, ◌≡◌, ap, ◌∙◌, arith, none, some, List, [], length, if◌then◌else◌,
}
use thesa.Prelude.Int.{ℤ, pos, negsuc, ◌-ℤ◌, ◌*ℤ◌, leb_ℤ, wrap64, wrap64_of_IsInt64}
use thesa.Search.Paging.{slice, offset_of, end_of, page_slice}

product_lem : (q size : ℕ) → pos q *ℤ pos size ≡ pos (q * size)
unfolding ◌*ℤ◌
product_lem q size = ground arith

minus_one : (q : ℕ) → q < 2 ^ 63 → wrap64 (pos (suc q) -ℤ pos 1) ≡ pos q
unfolding ◌-ℤ◌
minus_one q h =
    let e : pos (suc q) -ℤ pos 1 ≡ pos q = ground arith in
    ap wrap64 e ∙ wrap64_of_IsInt64 (pos q) (ground arith)

wrap_high : (n : ℕ) → 2 ^ 63 ≤ n → n < 2 ^ 64 → wrap64 (pos n) ≡ negsuc (2 ^ 64 - 1 - n)
unfolding wrap64
wrap_high n low high = ground arith

module _ {A : Type 0} where
  negative :
      (xs : List A) (k : ℕ) (high : ℤ)
      → (if leb_ℤ (pos (length xs)) (negsuc k) then some [] else slice xs (negsuc k) high) ≡ none
  negative xs k high = ground arith

  -- When the offset of the page needs the 64th bit, the multiplication wraps around to a negative
  -- offset, and the slice panics whatever the results are.
  pub page_slice-overflow :
      (xs : List A) (q size : ℕ)
      → q < 2 ^ 63
      → 2 ^ 63 ≤ q * size
      → q * size < 2 ^ 64
      → page_slice xs (pos (suc q)) (pos size) ≡ none
  unfolding page_slice
  page_slice-overflow xs q size page_small low high =
      let e : offset_of (pos (suc q)) (pos size) ≡ negsuc (2 ^ 64 - 1 - q * size) =
        ap (λ (z : ℤ). wrap64 (z *ℤ pos size)) (minus_one q page_small)
        ∙ ap wrap64 (product_lem q size)
        ∙ wrap_high (q * size) low high in
      rw e (
        negative xs (2 ^ 64 - 1 - q * size)
          (end_of (length xs) (negsuc (2 ^ 64 - 1 - q * size)) (pos size)))
