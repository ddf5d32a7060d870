-- ===== src/Transport/Query/Laws.antt =====
-- What the filters of a query are.
use thesa.Prelude.{
  ℕ, ◌+◌, ◌-◌, ◌≤◌, ◌<◌, true, false, Option, none, some, List, [], ◌∷◌, ◌++◌, ◌≡◌, refl, sym, ap,
  ◌∙◌, arith, inl, inr, lt→ltb, ltb→lt, length, take, drop, length-append, Bool-cases,
  if◌then◌else◌,
}
use thesa.Prelude.Text.{
  Text, codes, text_eq, text_eq_iff, text_eq_refl, has_prefix, has_prefix-append, has_prefix_sound,
  has_suffix, has_suffix_sound, has_suffix-append,
}
use thesa.Prelude.Maps.{Map, lookup, lookup-cons, lookup-insert, or_else, DistinctKeys}
use thesa.Transport.Query.{is_bracketed, bracketed, put_first, query_map}

-- filter[status]
abbrev pub bracket : Text → Text → Text
bracket prefix field = ((prefix ++ codes "[") ++ field) ++ codes "]"

drop-append : (xs ys : Text) → drop (length xs) (xs ++ ys) ≡ ys
drop-append [] ys = refl
drop-append (x ∷ xs) ys = drop-append xs ys

take-append : (xs ys : Text) → take (length xs) (xs ++ ys) ≡ xs
take-append [] [] = refl
take-append [] (y ∷ ys) = refl
take-append (x ∷ xs) ys = λ i. x ∷ take-append xs ys i

length-open : (prefix : Text) → length (prefix ++ codes "[") ≡ length prefix + 1
length-open prefix = length-append prefix (codes "[")

bracketed-bracket : (prefix field : Text) → bracketed prefix (bracket prefix field) ≡ field
bracketed-bracket prefix field =
    let start = prefix ++ codes "[" in
    let cut : length (bracket prefix field) - 1 ≡ length (start ++ field) =
      omega (arith, length-append (start ++ field) (codes "]")) in
    ap (λ (n : ℕ). drop (length prefix + 1) (take n (bracket prefix field))) cut
    ∙ ap (λ (t : Text). drop (length prefix + 1) t) (take-append (start ++ field) (codes "]"))
    ∙ ap (λ (n : ℕ). drop n (start ++ field)) (sym (length-open prefix))
    ∙ drop-append start field

append_assoc' : (a b c : Text) → (a ++ b) ++ c ≡ a ++ (b ++ c)
append_assoc' [] b c = refl
append_assoc' (x ∷ a) b c = λ i. x ∷ append_assoc' a b c i

bracket-is_bracketed :
    (prefix : Text) (c : ℕ) (field : Text) → is_bracketed prefix (bracket prefix (c ∷ field)) ≡ true
bracket-is_bracketed prefix c field =
    let start = prefix ++ codes "[" in
    let begins : has_prefix (bracket prefix (c ∷ field)) start ≡ true =
      ap (λ (t : Text). has_prefix t start) (append_assoc' start (c ∷ field) (codes "]"))
      ∙ has_prefix-append start ((c ∷ field) ++ codes "]") in
    let ends : has_suffix (bracket prefix (c ∷ field)) (codes "]") ≡ true =
      has_suffix-append (start ++ (c ∷ field)) (codes "]") in
    let long : length prefix + 2 < length (bracket prefix (c ∷ field)) = omega (
      arith,
      length-append (start ++ (c ∷ field)) (codes "]"),
      length-append start (c ∷ field),
      length-open prefix,
    ) in
    ground (arith, begins, ends, lt→ltb _ _ long)

split_lem : (p t u v : Text) → p ++ t ≡ u ++ v → length p ≤ length u → u ≡ p ++ drop (length p) u
split_lem [] t u v e h = refl
split_lem (x ∷ p) t [] v e h = absurd (omega (arith, h))
split_lem (x ∷ p) t (y ∷ u) v e h =
    let head : y ≡ x = cc in
    let tail : p ++ t ≡ u ++ v = cc in λ i. head i ∷ split_lem p t u v tail (omega (arith, h)) i

bracket-bracketed :
    (prefix key : Text)
    → is_bracketed prefix key ≡ true
    → key ≡ bracket prefix (bracketed prefix key)
bracket-bracketed prefix key h =
    let start = prefix ++ codes "[" in
    let begins : has_prefix key start ≡ true = ground (arith, h) in
    let ends : has_suffix key (codes "]") ≡ true = ground (arith, h) in
    let long : length prefix + 2 < length key = ltb→lt _ _ (ground (arith, h)) in
    let (t, starts) = has_prefix_sound key start begins in
    let (u, stops) = has_suffix_sound key (codes "]") ends in
    let sizes : length key ≡ length u + 1 =
      ap (λ (x : Text). length x) stops ∙ length-append u (codes "]") in
    let room : length start ≤ length u = omega (arith, sizes, long, length-open prefix) in
    let cut : u ≡ start ++ drop (length start) u =
      split_lem start t u (codes "]") (sym starts ∙ stops) room in
    let kept : take (length key - 1) key ≡ u =
      ap (λ (x : Text). take (length key - 1) x) stops
      ∙ ap (λ (n : ℕ). take n (u ++ codes "]")) (omega (arith, sizes))
      ∙ take-append u (codes "]") in
    let same : drop (length start) u ≡ bracketed prefix key =
      ap (λ (n : ℕ). drop n u) (length-open prefix)
      ∙ ap (λ (x : Text). drop (length prefix + 1) x) (sym kept) in
    stops ∙ ap (λ (x : Text). x ++ codes "]") (cut ∙ ap (λ (x : Text). start ++ x) same)

-- The first of the values of a key.
abbrev pub first_of : Option (List Text) → Option Text
first_of none = none
first_of (some []) = none
first_of (some (v ∷ vs)) = some v

put_first-lookup :
    (field : Text) (values : List Text) (result : Map Text)
    → lookup field (put_first field values result)
      ≡ or_else (first_of (some values)) (lookup field result)
put_first-lookup field [] result = refl
put_first-lookup field (v ∷ vs) result =
    lookup-insert field field v result ∙ rw (text_eq_refl field) refl

put_first-other :
    (field other : Text) (values : List Text) (result : Map Text)
    → text_eq other field ≡ false
    → lookup field (put_first other values result) ≡ lookup field result
put_first-other field other [] result h = refl
put_first-other field other (v ∷ vs) result h = lookup-insert other field v result ∙ rw h refl

-- One turn of the loop.
abbrev step : Text → Text → List Text → Map Text → Map Text
step prefix key values result =
    if is_bracketed prefix key then put_first (bracketed prefix key) values result else result

step_same :
    (prefix : Text) (c : ℕ) (cs key : Text) (values : List Text) (result : Map Text)
    → key ≡ bracket prefix (c ∷ cs)
    → lookup (c ∷ cs) (step prefix key values result)
      ≡ or_else (first_of (some values)) (lookup (c ∷ cs) result)
step_same prefix c cs key values result e =
    ap (λ (k : Text). lookup (c ∷ cs) (step prefix k values result)) e
    ∙ rw (bracket-is_bracketed prefix c cs, bracketed-bracket prefix (c ∷ cs))
        (put_first-lookup (c ∷ cs) values result)

step_other :
    (prefix field key : Text) (values : List Text) (result : Map Text)
    → text_eq key (bracket prefix field) ≡ false
    → lookup field (step prefix key values result) ≡ lookup field result
step_other prefix field key values result h = elim (Bool-cases (is_bracketed prefix key)) [
  | inr plain' ↦ rw plain' refl
  | inl bracketed' ↦
      let differs : text_eq (bracketed prefix key) field ≡ false =
        elim (Bool-cases (text_eq (bracketed prefix key) field)) [
          | inr other ↦ other
          | inl same ↦
              let e : key ≡ bracket prefix field =
                bracket-bracketed prefix key bracketed'
                ∙ ap (λ (f : Text). bracket prefix f)
                    ((text_eq_iff (bracketed prefix key) field).0 same) in
              absurd (ground (arith, h, (text_eq_iff key (bracket prefix field)).1 e))
        ] in
      rw bracketed' (put_first-other field (bracketed prefix key) values result differs)
]

query_map-lookup_from :
    (prefix : Text) (c : ℕ) (cs : Text) (query : Map (List Text)) (result : Map Text)
    → DistinctKeys query
    → lookup (c ∷ cs) (query_map query prefix result)
      ≡ or_else (first_of (lookup (bracket prefix (c ∷ cs)) query)) (lookup (c ∷ cs) result)
unfolding query_map
query_map-lookup_from prefix c cs [] result d = unfold lookup in refl
query_map-lookup_from prefix c cs ((key, values) ∷ query) result d =
    let field = c ∷ cs in
    let rest = query_map-lookup_from prefix c cs query _ d.1 in
    elim (Bool-cases (text_eq key (bracket prefix field))) [
      | inl same ↦
          let e = (text_eq_iff key (bracket prefix field)).0 same in
          let gone : lookup (bracket prefix field) query ≡ none =
            ap (λ (k : Text). lookup k query) (sym e) ∙ d.0 in
          rest
          ∙ rw (gone, lookup-cons (bracket prefix field) key values query, same)
              (step_same prefix c cs key values result e)
      | inr other ↦
          rest
          ∙ rw
              (
                step_other prefix field key values result other,
                lookup-cons (bracket prefix field) key values query,
                other,
              )
              refl
    ]

or_else_none : (o : Option Text) → or_else o (lookup {V = Text} [] []) ≡ o
unfolding lookup
or_else_none none = refl
or_else_none (some t) = refl

-- The filters of a query are its parameters with a name in brackets behind the prefix: for each
-- name that is not empty the first value of that parameter, and nothing without it.
pub query_map-lookup :
    (prefix : Text) (c : ℕ) (cs : Text) (query : Map (List Text))
    → DistinctKeys query
    → lookup (c ∷ cs) (query_map query prefix [])
      ≡ first_of (lookup (bracket prefix (c ∷ cs)) query)
unfolding lookup
query_map-lookup prefix c cs query d =
    query_map-lookup_from prefix c cs query [] d
    ∙ or_else_none (first_of (lookup (bracket prefix (c ∷ cs)) query))
