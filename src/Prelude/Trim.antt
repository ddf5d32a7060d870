-- ===== src/Prelude/Trim.antt =====
-- strings.TrimSpace.
use Prim.Native.Nat.{ℕ, zero, suc}
use mathlib.Core.Path.{◌≡◌, refl, sym, ap, ◌∙◌}
use mathlib.Core.List.{List, [], ◌∷◌, ◌++◌, reverse, reverse-append, reverse-reverse}
use thesa.Prelude.Tests.{if◌then◌else◌}
use thesa.Prelude.Lists.{length}
use thesa.Prelude.Text.{Text, codes, has_prefix}

-- The UTF-8 encodings of unicode.IsSpace.
abbrev spaces : List Text
spaces =
    (9 ∷ [])
    ∷ (10 ∷ [])
    ∷ (11 ∷ [])
    ∷ (12 ∷ [])
    ∷ (13 ∷ [])
    ∷ (32 ∷ [])
    ∷ (0xc2 ∷ 0x85 ∷ [])
    ∷ (0xc2 ∷ 0xa0 ∷ [])
    ∷ (0xe1 ∷ 0x9a ∷ 0x80 ∷ [])
    ∷ (0xe2 ∷ 0x80 ∷ 0x80 ∷ [])
    ∷ (0xe2 ∷ 0x80 ∷ 0x81 ∷ [])
    ∷ (0xe2 ∷ 0x80 ∷ 0x82 ∷ [])
    ∷ (0xe2 ∷ 0x80 ∷ 0x83 ∷ [])
    ∷ (0xe2 ∷ 0x80 ∷ 0x84 ∷ [])
    ∷ (0xe2 ∷ 0x80 ∷ 0x85 ∷ [])
    ∷ (0xe2 ∷ 0x80 ∷ 0x86 ∷ [])
    ∷ (0xe2 ∷ 0x80 ∷ 0x87 ∷ [])
    ∷ (0xe2 ∷ 0x80 ∷ 0x88 ∷ [])
    ∷ (0xe2 ∷ 0x80 ∷ 0x89 ∷ [])
    ∷ (0xe2 ∷ 0x80 ∷ 0x8a ∷ [])
    ∷ (0xe2 ∷ 0x80 ∷ 0xa8 ∷ [])
    ∷ (0xe2 ∷ 0x80 ∷ 0xa9 ∷ [])
    ∷ (0xe2 ∷ 0x80 ∷ 0xaf ∷ [])
    ∷ (0xe2 ∷ 0x81 ∷ 0x9f ∷ [])
    ∷ (0xe3 ∷ 0x80 ∷ 0x80 ∷ [])
    ∷ []

-- The length of the space that the text begins with, 0 if it begins with none.
space_at : List Text → Text → ℕ
space_at [] s = 0
space_at (p ∷ ps) s = if has_prefix s p then length p else space_at ps s

trim_with : List Text → ℕ → Text → Text
trim_with ps k [] = []
trim_with ps (suc k) (c ∷ s) = trim_with ps k s
trim_with ps zero (c ∷ s) = elim (space_at ps (c ∷ s)) [ zero ↦ c ∷ s | suc n ↦ trim_with ps n s ]

reverse_each : List Text → List Text
reverse_each [] = []
reverse_each (p ∷ ps) = reverse p ∷ reverse_each ps

-- strings.TrimSpace(s): from the left, then on the reversed bytes from the right.
unfoldable pub trim_space : Text → Text
unfolding space_at trim_with reverse_each has_prefix
trim_space s = reverse (trim_with (reverse_each spaces) 0 (reverse (trim_with spaces 0 s)))

trim_space_runs : trim_space (codes "  a b ") ≡ codes "a b"
unfolding trim_space
trim_space_runs = refl

trim_with_stop :
    (ps : List Text) (c : ℕ) (s : Text) → space_at ps (c ∷ s) ≡ 0 → trim_with ps 0 (c ∷ s) ≡ c ∷ s
unfolding trim_with
trim_with_stop ps c s h = rw (h, trim_with)

abbrev quoted : Text → Text
quoted s = b'\'' ∷ (s ++ b'\'' ∷ [])

-- A text between quotes has no space at its ends.
pub trim_space-quoted : (s : Text) → trim_space (quoted s) ≡ quoted s
unfolding trim_space
trim_space-quoted s =
    let q : ℕ = b'\'' in
    let front : trim_with spaces 0 (quoted s) ≡ quoted s =
      trim_with_stop spaces q (s ++ q ∷ []) (unfold space_at has_prefix in refl) in
    let turned : reverse (quoted s) ≡ q ∷ reverse (q ∷ s) = reverse-append (q ∷ s) (q ∷ []) in
    let back : trim_with (reverse_each spaces) 0 (q ∷ reverse (q ∷ s)) ≡ q ∷ reverse (q ∷ s) =
      trim_with_stop (reverse_each spaces) q (reverse (q ∷ s))
        (unfold space_at has_prefix reverse_each in refl) in
    ap (λ (t : Text). reverse (trim_with (reverse_each spaces) 0 (reverse t))) front
    ∙ ap (λ (t : Text). reverse (trim_with (reverse_each spaces) 0 t)) turned
    ∙ ap reverse (back ∙ sym turned)
    ∙ reverse-reverse (quoted s)
