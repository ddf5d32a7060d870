-- ===== src/Search/Paging.antt =====
-- internal/search/provider.go: the page of the merged results, in int arithmetic.
pub mod Laws
pub mod Overflow
use thesa.Prelude.{
  ℕ, ◌-◌, ◌&&◌, Option, none, some, List, [], leb, length, take, drop, if◌then◌else◌,
}
use thesa.Prelude.Int.{ℤ, pos, ◌+ℤ◌, ◌-ℤ◌, ◌*ℤ◌, leb_ℤ, ltb_ℤ, wrap64}
use thesa.Context.{Pagination}

abbrev pub normal_page_size : ℤ → ℤ
normal_page_size n =
    let m = if leb_ℤ n (pos 0) then pos 20 else n in if ltb_ℤ (pos 50) m then pos 50 else m

abbrev pub normal_page : ℤ → ℤ
normal_page n = if leb_ℤ n (pos 0) then pos 1 else n

unfoldable pub normalize : Pagination → Pagination
normalize p = record p { page_size = normal_page_size p.page_size; page = normal_page p.page }

-- xs[low:high]; `none` is the panic of bounds out of range.
abbrev pub slice {ℓ} : {A : Type ℓ} → List A → ℤ → ℤ → Option (List A)
slice xs (pos low) (pos high) =
    if leb low high && leb high (length xs) then some (take (high - low) (drop low xs)) else none
slice xs low high = none

abbrev pub offset_of : ℤ → ℤ → ℤ
offset_of page page_size = wrap64 (wrap64 (page -ℤ pos 1) *ℤ page_size)

abbrev pub end_of : ℕ → ℤ → ℤ → ℤ
end_of n offset page_size =
    let end' = wrap64 (offset +ℤ page_size) in if ltb_ℤ (pos n) end' then pos n else end'

unfoldable pub page_slice {ℓ} : {A : Type ℓ} → List A → ℤ → ℤ → Option (List A)
page_slice merged page page_size =
    let offset = offset_of page page_size in
    if leb_ℤ (pos (length merged)) offset
    then some []
    else slice merged offset (end_of (length merged) offset page_size)
