-- ===== src/Command/Number/Laws.antt =====
-- Which literals are numbers, and what they are worth.
use mathlib.Core.Path.{subst}
use mathlib.Core.Bool.{false≢true}
use thesa.Prelude.{
  ℕ, zero, suc, ◌+◌, ◌-◌, ◌*◌, ◌^◌, ◌≤◌, Bool, true, false, none, some, [], ◌∷◌, ◌≡◌, ◌⊎◌, inl, inr,
  refl, sym, arith, any, ltb, ◌==◌, Bool-cases, if◌then◌else◌,
}
use thesa.Prelude.Int.{ℤ, pos, negsuc, IsInt64}
use thesa.Prelude.Text.{Text}
use thesa.Errors.{ok}
use thesa.Value.{int}
use thesa.Context.{Go}
use thesa.Command.Number.{
  is_sign, scan, is_numeric_literal, read_digits, unsigned, positive, negative, parse_int,
  bad_number, parse_numeric,
}

-- The number that decimal digits stand for, behind the digits of n.
abbrev pub decimal : ℕ → Text → ℕ
decimal n [] = n
decimal n (c ∷ s) = decimal (n * 10 + (c - b'0')) s

-- The bytes behind the sign, if there is one.
abbrev pub digits_of : Text → Text
digits_of [] = []
digits_of (c ∷ s) = if is_sign c then s else c ∷ s

abbrev no_dot : Text → Bool
no_dot s = any (λ c. c == b'.') s

read_digits-decimal :
    (n : ℕ) (s : Text)
    → scan false s ≡ true
    → no_dot s ≡ false
    → read_digits n s ≡ some (decimal n s)
unfolding scan read_digits
read_digits-decimal n [] h k = refl
read_digits-decimal n (c ∷ s) h k = ground (arith, read_digits-decimal (n * 10 + (c - b'0')) s)

unsigned-decimal :
    (c : ℕ) (s : Text)
    → scan false (c ∷ s) ≡ true
    → no_dot (c ∷ s) ≡ false
    → unsigned (c ∷ s) ≡ some (decimal 0 (c ∷ s))
unsigned-decimal c s h k = read_digits-decimal 0 (c ∷ s) h k

positive_cases :
    (m : ℕ)
    → ((z : ℤ) × (positive (some m) ≡ some z) × IsInt64 z)
      ⊎ ((positive (some m) ≡ none) × (2 ^ 63 ≤ m))
positive_cases m = elim (Bool-cases (ltb m (2 ^ 63))) [
  | inl small ↦ inl (pos m, rw small, ground arith)
  | inr large ↦ inr (rw large, ground arith)
]

negative_cases :
    (m : ℕ)
    → ((z : ℤ) × (negative (some m) ≡ some z) × IsInt64 z)
      ⊎ ((negative (some m) ≡ none) × (2 ^ 63 ≤ m))
negative_cases zero = inl (pos 0, refl, omega arith)
negative_cases (suc m) = elim (Bool-cases (ltb m (2 ^ 63))) [
  | inl small ↦ inl (negsuc m, rw small, ground arith)
  | inr large ↦ inr (rw large, ground arith)
]

Parsed : Text → Type 0
Parsed s =
    ((z : ℤ) × (parse_int s ≡ some z) × IsInt64 z)
    ⊎ ((parse_int s ≡ none) × (2 ^ 63 ≤ decimal 0 (digits_of s)))

plus_cases :
    (s : Text)
    → is_numeric_literal (b'+' ∷ s) ≡ true
    → no_dot (b'+' ∷ s) ≡ false
    → Parsed (b'+' ∷ s)
unfolding is_numeric_literal parse_int Parsed
plus_cases [] h k = absurd (false≢true h)
plus_cases (d ∷ s) h k = rw (unsigned-decimal d s h k) (positive_cases (decimal 0 (d ∷ s)))

minus_cases :
    (s : Text)
    → is_numeric_literal (b'-' ∷ s) ≡ true
    → no_dot (b'-' ∷ s) ≡ false
    → Parsed (b'-' ∷ s)
unfolding is_numeric_literal parse_int Parsed
minus_cases [] h k = absurd (false≢true h)
minus_cases (d ∷ s) h k = rw (unsigned-decimal d s h k) (negative_cases (decimal 0 (d ∷ s)))

parse_int_cases : (s : Text) → is_numeric_literal s ≡ true → no_dot s ≡ false → Parsed s
unfolding is_numeric_literal
parse_int_cases [] h k = absurd (false≢true h)
parse_int_cases (c ∷ s) h k = elim (Bool-cases (c == b'+')) [
  | inl plus ↦
      let e : c ≡ b'+' = ground arith in
      subst (λ (x : ℕ). Parsed (x ∷ s)) (sym e)
        (plus_cases s (subst (λ (x : ℕ). is_numeric_literal (x ∷ s) ≡ true) e h)
          (subst (λ (x : ℕ). no_dot (x ∷ s) ≡ false) e k))
  | inr not_plus ↦ elim (Bool-cases (c == b'-')) [
    | inl minus ↦
        let e : c ≡ b'-' = ground arith in
        subst (λ (x : ℕ). Parsed (x ∷ s)) (sym e)
          (minus_cases s (subst (λ (x : ℕ). is_numeric_literal (x ∷ s) ≡ true) e h)
            (subst (λ (x : ℕ). no_dot (x ∷ s) ≡ false) e k))
    | inr not_minus ↦
        let digits : scan false (c ∷ s) ≡ true = ground arith in
        unfold Parsed parse_int in
        rw (not_plus, not_minus, unsigned-decimal c s digits k) (positive_cases (decimal 0 (c ∷ s)))
  ]
]

-- A numeric literal without a dot is an integer in the range of int64, unless its digits stand for
-- 2^63 or more: then it is an error.
pub parse_numeric_cases :
    (go : Go) (s : Text)
    → is_numeric_literal s ≡ true
    → any (λ c. c == b'.') s ≡ false
    → ((z : ℤ) × (parse_numeric go s ≡ ok (int z)) × IsInt64 z)
      ⊎ ((parse_numeric go s ≡ bad_number go s) × (2 ^ 63 ≤ decimal 0 (digits_of s)))
unfolding parse_numeric Parsed
parse_numeric_cases go s h k = elim (parse_int_cases s h k) [
  | inl (z, e, r) ↦ inl (z, rw (k, e), r)
  | inr (e, large) ↦ inr (rw (k, e), large)
]
