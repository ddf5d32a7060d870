-- ===== src/Prelude/Text.antt =====
-- Go strings: sequences of bytes, with the functions of package strings that the program calls.
use Prim.Native.Nat.{ℕ}
use Prim.Native.Char.{code}
use Prim.Native.String.{String}
use mathlib.Core.Path.{◌≡◌, refl, ap}
use mathlib.Core.Logic.{◌≢◌, ◌↔◌, inl, inr}
use mathlib.Core.Bool.{Bool, true, false, ◌&&◌, ◌||◌}
use mathlib.Core.List.{List, [], ◌∷◌, ◌++◌}
use native.Mathlib.Omega.{arith}
use thesa.Prelude.Lists.{All}
use thesa.Prelude.Tests.{◌==◌, Bool-cases}

abbrev pub Text : Type 0
Text = List ℕ

-- The bytes of a literal, all of which are ASCII in the program.
abbrev pub codes : String → Text
codes String.[] = []
codes (String.◌∷◌ c s) = code c ∷ codes s

-- s == t
unfoldable pub text_eq : Text → Text → Bool
text_eq [] [] = true
text_eq [] (d ∷ t) = false
text_eq (c ∷ s) [] = false
text_eq (c ∷ s) (d ∷ t) = c == d && text_eq s t

pub text_eq_refl : (s : Text) → text_eq s s ≡ true
unfolding text_eq
text_eq_refl [] = refl
text_eq_refl (c ∷ s) = ground (arith, text_eq_refl s)

text_eq_sound : (s t : Text) → text_eq s t ≡ true → s ≡ t
unfolding text_eq
text_eq_sound [] [] h = refl
text_eq_sound [] (d ∷ t) h = cc
text_eq_sound (c ∷ s) [] h = cc
text_eq_sound (c ∷ s) (d ∷ t) h = ground (arith, text_eq_sound s t)

pub text_eq_iff : (s t : Text) → (text_eq s t ≡ true) ↔ (s ≡ t)
text_eq_iff s t = (text_eq_sound s t, λ e. rw e (text_eq_refl t))

-- strings.HasPrefix(s, prefix)
unfoldable pub has_prefix : Text → Text → Bool
has_prefix s [] = true
has_prefix [] (d ∷ p) = false
has_prefix (c ∷ s) (d ∷ p) = c == d && has_prefix s p

pub has_prefix-append : (p s : Text) → has_prefix (p ++ s) p ≡ true
unfolding has_prefix
has_prefix-append [] s = refl
has_prefix-append (c ∷ p) s = ground (arith, has_prefix-append p s)

pub has_prefix_sound : (s p : Text) → has_prefix s p ≡ true → (t : Text) × (s ≡ p ++ t)
unfolding has_prefix
has_prefix_sound s [] h = (s, refl)
has_prefix_sound [] (d ∷ p) h = cc
has_prefix_sound (c ∷ s) (d ∷ p) h =
    let (t, e) = has_prefix_sound s p (ground arith) in (t, ground arith)

-- strings.HasSuffix(s, suffix)
unfoldable pub has_suffix : Text → Text → Bool
has_suffix [] p = text_eq [] p
has_suffix (c ∷ s) p = text_eq (c ∷ s) p || has_suffix s p

pub has_suffix_sound : (s p : Text) → has_suffix s p ≡ true → (t : Text) × (s ≡ t ++ p)
unfolding has_suffix
has_suffix_sound [] p h = ([], (text_eq_iff [] p).0 h)
has_suffix_sound (c ∷ s) p h = elim (Bool-cases (text_eq (c ∷ s) p)) [
  | inl same ↦ ([], (text_eq_iff (c ∷ s) p).0 same)
  | inr other ↦
      let (t, e) = has_suffix_sound s p (ground arith) in (c ∷ t, ap (λ (u : Text). c ∷ u) e)
]

pub has_suffix-append : (s p : Text) → has_suffix (s ++ p) p ≡ true
unfolding has_suffix
has_suffix-append [] [] = text_eq_refl []
has_suffix-append [] (c ∷ p) = ground (arith, text_eq_refl (c ∷ p))
has_suffix-append (c ∷ s) p = ground (arith, has_suffix-append s p)

abbrev pub Lacks : ℕ → Text → Type 0
Lacks b = All (λ c. c ≢ b)

-- A text that lacks the separator is what stands before the first one.
pub append_sep_injective :
    (b : ℕ) (s t u v : Text)
    → Lacks b s
    → Lacks b t
    → s ++ (b ∷ u) ≡ t ++ (b ∷ v)
    → (s ≡ t) × (u ≡ v)
append_sep_injective b [] [] u v hs ht e = (refl, cc)
append_sep_injective b [] (d ∷ t) u v hs ht e = absurd (ht.0 (cc))
append_sep_injective b (c ∷ s) [] u v hs ht e = absurd (hs.0 (cc))
append_sep_injective b (c ∷ s) (d ∷ t) u v hs ht e =
    let (p, q) = append_sep_injective b s t u v hs.1 ht.1 (cc) in (cc, q)
