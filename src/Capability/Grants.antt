-- ===== src/Capability/Grants.antt =====
-- What a capability set grants, described without the code's string surgery.
use mathlib.Core.List.{append_assoc}
use mathlib.Core.Path.{subst}
use thesa.Prelude.{
  ◌-◌, Bool, true, List, [], ◌∷◌, ◌++◌, ◌≡◌, refl, ap, ◌∙◌, ◌⊎◌, ◌↔◌, inl, inr, arith, any, all,
  length, length-append, take, In, All, Bool-cases,
}
use thesa.Prelude.Text.{
  Text, codes, text_eq, text_eq_iff, text_eq_refl, has_prefix, has_prefix-append, has_prefix_sound,
  has_suffix, has_suffix_sound, has_suffix-append,
}
use thesa.Prelude.Maps.{lookup, insert, lookup-insert}
use thesa.Capability.{CapabilitySet, is_set, match_wildcard, has, has_all, allowed}

-- `*` grants everything; `scope:*` grants every capability that begins with `scope:`.
pub data Grants (pattern cap : Text) : Type 0 where
  everything : pattern ≡ codes "*" → Grants pattern cap
  below :
      (scope rest : Text)
      → pattern ≡ scope ++ codes ":*"
      → cap ≡ scope ++ (codes ":" ++ rest)
      → Grants pattern cap

-- Dropping the last byte of `scope:*` leaves `scope:`.
take-append : (s t : Text) → take (length s) (s ++ t) ≡ s
take-append [] t = refl
take-append (c ∷ s) t = ap (λ (u : Text). c ∷ u) (take-append s t)

without_star :
    (scope : Text)
    → take (length (scope ++ codes ":*") - 1) (scope ++ codes ":*") ≡ scope ++ codes ":"
without_star scope =
    let e : length (scope ++ codes ":*") - 1 ≡ length (scope ++ codes ":") =
      omega (arith, length-append scope (codes ":*"), length-append scope (codes ":")) in
    rw (e, ← append_assoc scope (codes ":") (codes "*"))
      (take-append (scope ++ codes ":") (codes "*"))

match_wildcard_sound : (pattern cap : Text) → match_wildcard pattern cap ≡ true → Grants pattern cap
unfolding match_wildcard
match_wildcard_sound pattern cap h = elim (Bool-cases (text_eq pattern (codes "*"))) [
  | inl star ↦ everything ((text_eq_iff _ _).0 star)
  | inr other ↦ elim (Bool-cases (has_suffix pattern (codes ":*"))) [
    | inl scoped ↦
        let (scope, e) = has_suffix_sound pattern (codes ":*") scoped in
        let p : has_prefix cap (take (length pattern - 1) pattern) ≡ true = ground arith in
        let q : has_prefix cap (scope ++ codes ":") ≡ true = rw (e, without_star scope) at p in
        let (rest, f) = has_prefix_sound cap (scope ++ codes ":") q in
        below scope rest e (f ∙ append_assoc scope (codes ":") rest)
    | inr plain ↦ ground arith
  ]
]

match_wildcard_below :
    (scope rest : Text) → match_wildcard (scope ++ codes ":*") (scope ++ (codes ":" ++ rest)) ≡ true
unfolding match_wildcard
match_wildcard_below scope rest =
    let p : has_prefix (scope ++ (codes ":" ++ rest)) (scope ++ codes ":") ≡ true =
      rw (← append_assoc scope (codes ":") rest) (has_prefix-append (scope ++ codes ":") rest) in
    rw (has_suffix-append scope (codes ":*"), without_star scope) (ground (arith, p))

match_wildcard_complete :
    (pattern cap : Text) → Grants pattern cap → match_wildcard pattern cap ≡ true
match_wildcard_complete pattern cap (everything e) =
    rw e (unfold match_wildcard in ground (arith, text_eq_refl (codes "*")))
match_wildcard_complete pattern cap (below scope rest e f) =
    rw (e, f) (match_wildcard_below scope rest)

-- The wildcard test accepts exactly the capabilities that the pattern grants: `*` grants
-- everything, `scope:*` what begins with `scope:`, and any other pattern nothing.
pub match_wildcard_iff :
    (pattern cap : Text) → (match_wildcard pattern cap ≡ true) ↔ Grants pattern cap
match_wildcard_iff pattern cap =
    (match_wildcard_sound pattern cap, match_wildcard_complete pattern cap)

any_match_sound :
    (cs : CapabilitySet) (cap : Text)
    → any (λ entry. match_wildcard entry.0 cap) cs ≡ true
    → (e : Text × Bool) × In e cs × Grants e.0 cap
any_match_sound [] cap h = cc
any_match_sound ((k, v) ∷ cs) cap h = elim (Bool-cases (match_wildcard k cap)) [
  | inl granted ↦ ((k, v), inl refl, match_wildcard_sound k cap granted)
  | inr refused ↦ let (e, i, g) = any_match_sound cs cap (ground arith) in (e, inr i, g)
]

any_match_complete :
    (cs : CapabilitySet) (cap : Text) (e : Text × Bool)
    → In e cs
    → Grants e.0 cap
    → any (λ entry. match_wildcard entry.0 cap) cs ≡ true
any_match_complete [] cap e i g = absurd i
any_match_complete ((k, v) ∷ cs) cap e (inl same) g =
    let p : match_wildcard e.0 cap ≡ true = match_wildcard_complete e.0 cap g in
    let q : match_wildcard k cap ≡ true =
      subst (λ (x : Text × Bool). match_wildcard x.0 cap ≡ true) same p in
    ground arith
any_match_complete ((k, v) ∷ cs) cap e (inr i) g = ground (arith, any_match_complete cs cap e i g)

-- A set has a capability exactly when it holds it with the value true, or holds a key, with
-- whatever value, that grants it as a wildcard.
pub has_iff :
    (cs : CapabilitySet) (cap : Text)
    → (has cs cap ≡ true)
      ↔ ((is_set (lookup cap cs) ≡ true) ⊎ ((e : Text × Bool) × In e cs × Grants e.0 cap))
unfolding has
has_iff cs cap = (
  λ h. elim (Bool-cases (is_set (lookup cap cs))) [
    | inl exact ↦ inl exact
    | inr absent ↦ inr (any_match_sound cs cap (ground arith))
  ],
  λ d. elim d [
    | inl exact ↦ ground arith
    | inr (e, i, g) ↦ ground (arith, any_match_complete cs cap e i g)
  ],
)

all_iff : (f : Text → Bool) (caps : List Text) → (all f caps ≡ true) ↔ All (λ c. f c ≡ true) caps
all_iff f [] = (λ h. tt, λ h. refl)
all_iff f (c ∷ caps) = (
  λ h. (ground arith, (all_iff f caps).0 (ground arith)),
  λ h. ground (arith, (all_iff f caps).1 h.1),
)

-- The providers let a caller through exactly when each required capability is granted; an empty
-- list of requirements lets everybody through.
pub allowed_iff :
    (cs : CapabilitySet) (required : List Text)
    → (allowed cs required ≡ true) ↔ All (λ c. has cs c ≡ true) required
unfolding allowed has_all
allowed_iff cs [] = (λ h. tt, λ h. refl)
allowed_iff cs (c ∷ required) = (
  λ h. (all_iff (has cs) (c ∷ required)).0 (ground arith),
  λ h. ground (arith, (all_iff (has cs) (c ∷ required)).1 h),
)

any_match-insert :
    (cs : CapabilitySet) (k cap : Text)
    → any (λ entry. match_wildcard entry.0 cap) cs ≡ true
    → any (λ entry. match_wildcard entry.0 cap) (insert k true cs) ≡ true
unfolding insert
any_match-insert [] k cap h = cc
any_match-insert ((j, v) ∷ cs) k cap h = ground (arith, any_match-insert cs k cap, text_eq_iff j k)

-- Granting one more capability takes none away.
pub has-insert :
    (cs : CapabilitySet) (k cap : Text) → has cs cap ≡ true → has (insert k true cs) cap ≡ true
unfolding has
has-insert cs k cap h = ground (arith, lookup-insert k cap true cs, any_match-insert cs k cap)
