-- ===== src/Capability/Keto/Checks.antt =====
-- Which capabilities the evaluator grants, by batch and by single checks.
use thesa.Prelude.{
  Bool, suc, true, false, length, some, List, [], ◌∷◌, ◌≡◌, ◌⊎◌, ◌↔◌, inl, inr, refl, sym, ap, ◌∙◌,
  arith, map, Bool-cases, if◌then◌else◌,
}
use thesa.Prelude.Text.{Text, text_eq, text_eq_iff}
use thesa.Prelude.Maps.{lookup, insert, lookup-insert}
use thesa.Errors.{Result, ok, err}
use thesa.Context.{RequestContext}
use thesa.Capability.{CapabilitySet}
use thesa.Capability.Keto.{
  CapabilityCheck, CheckRequest, Authorizer, request, grant_results, allows,
  fallback_individual_checks, from_batch, resolve_capabilities,
}

length-map : {A B : Type 0} (f : A → B) (xs : List A) → length (map f xs) ≡ length xs
length-map f [] = refl
length-map f (x ∷ xs) = ap suc (length-map f xs)

module _ {W : Type 0} (profile : Text) (authorizer : Authorizer W) (rctx : RequestContext) where
  -- A batch gives one result for each request.
  pub record IsComplete : Type 0 where
    pub batch :
        (qs : List CheckRequest) (w : W) (rs : List Bool)
        → (authorizer.batch_check qs w).0 ≡ ok rs
        → length rs ≡ length qs

  -- One of the checks for a capability has the result true at its place in the batch.
  abbrev pub BatchAllows : List CapabilityCheck → List Bool → Text → Type 0
  BatchAllows [] rs c = ⊥
  BatchAllows (chk ∷ checks) [] c = ⊥
  BatchAllows (chk ∷ checks) (r ∷ rs) c =
      ((c ≡ chk.capability) × (r ≡ true)) ⊎ BatchAllows checks rs c

  -- The checks are asked one after the other, and one for the capability is answered by true, without
  -- an error.
  abbrev pub SingleAllows : List CapabilityCheck → W → Text → Type 0
  SingleAllows [] w c = ⊥
  SingleAllows (chk ∷ checks) w c =
      ((c ≡ chk.capability)
        × ((authorizer.check (request profile authorizer rctx chk) w).0 ≡ ok true))
      ⊎ SingleAllows checks (authorizer.check (request profile authorizer rctx chk) w).1 c

  granted_iff :
      (b : Bool) (k : Text) (caps : CapabilitySet) (c : Text)
      → (lookup c (if b then insert k true caps else caps) ≡ some true)
        ↔ (((c ≡ k) × (b ≡ true)) ⊎ (lookup c caps ≡ some true))
  granted_iff false k caps c = (λ h. inr h, λ d. elim d [ inl (e, h) ↦ absurd (cc) | inr h ↦ h ])
  granted_iff true k caps c =
      let step = lookup-insert k c true caps in
      let same = text_eq_iff k c in
      (
        λ h. elim (Bool-cases (text_eq k c)) [
          | inl eq ↦ inl (sym (same.0 eq), refl)
          | inr ne ↦ inr (ground (arith, step))
        ],
        λ d. elim d [ inl (e, h) ↦ ground (arith, step, same) | inr h ↦ ground (arith, step) ],
      )

  -- A step in front of the rest of the checks.
  after :
      {Final Rest Step Before Start : Type 0}
      → (Final ↔ (Rest ⊎ Before))
      → (Before ↔ (Step ⊎ Start))
      → Final ↔ ((Step ⊎ Rest) ⊎ Start)
  after f g = (
    λ h. elim (f.0 h) [
      | inl r ↦ inl (inr r)
      | inr b ↦ elim (g.0 b) [ inl s ↦ inl (inl s) | inr t ↦ inr t ]
    ],
    λ h. elim h [
      | inl d ↦ elim d [ inl s ↦ f.1 (inr (g.1 (inl s))) | inr r ↦ f.1 (inl r) ]
      | inr t ↦ f.1 (inr (g.1 (inr t)))
    ],
  )

  nothing : {A : Type 0} → A ↔ (⊥ ⊎ A)
  nothing = (λ h. inr h, λ d. elim d [ inl e ↦ absurd e | inr h ↦ h ])

  grant_results_lem :
      (checks : List CapabilityCheck) (rs : List Bool) (caps : CapabilitySet)
      → length rs ≡ length checks
      → (done : CapabilitySet) × (grant_results profile authorizer rs checks caps ≡ some done)
        × ((c : Text)
            → (lookup c done ≡ some true) ↔ (BatchAllows checks rs c ⊎ (lookup c caps ≡ some true)))
  unfolding grant_results
  grant_results_lem [] [] caps h = (caps, refl, λ c. nothing)
  grant_results_lem [] (r ∷ rs) caps h = absurd (omega (arith, h))
  grant_results_lem (chk ∷ checks) [] caps h = absurd (omega (arith, h))
  grant_results_lem (chk ∷ checks) (true ∷ rs) caps h =
      let (done, e, all) =
        grant_results_lem checks rs (insert chk.capability true caps) (omega (arith, h)) in
      (done, e, λ c. after (all c) (granted_iff true chk.capability caps c))
  grant_results_lem (chk ∷ checks) (false ∷ rs) caps h =
      let (done, e, all) = grant_results_lem checks rs caps (omega (arith, h)) in
      (done, e, λ c. after (all c) (granted_iff false chk.capability caps c))

  allows_iff : (a : Result Bool) → (allows profile authorizer a ≡ true) ↔ (a ≡ ok true)
  unfolding allows
  allows_iff (ok b) = (λ h. ap ok h, λ h. cc)
  allows_iff (err e) = (λ h. absurd (cc), λ h. absurd (cc))

  answered_iff :
      (a : Result Bool) (k : Text) (caps : CapabilitySet) (c : Text)
      → (lookup c (if allows profile authorizer a then insert k true caps else caps) ≡ some true)
        ↔ (((c ≡ k) × (a ≡ ok true)) ⊎ (lookup c caps ≡ some true))
  answered_iff a k caps c =
      let step = granted_iff (allows profile authorizer a) k caps c in
      (
        λ h. elim (step.0 h) [ inl (e, p) ↦ inl (e, (allows_iff a).0 p) | inr p ↦ inr p ],
        λ d. elim d [ inl (e, p) ↦ step.1 (inl (e, (allows_iff a).1 p)) | inr p ↦ step.1 (inr p) ],
      )

  fallback_lem :
      (checks : List CapabilityCheck) (caps : CapabilitySet) (w : W) (c : Text)
      → (lookup c (fallback_individual_checks profile authorizer rctx checks caps w).0 ≡ some true)
        ↔ (SingleAllows checks w c ⊎ (lookup c caps ≡ some true))
  unfolding fallback_individual_checks
  fallback_lem [] caps w c = nothing
  fallback_lem (chk ∷ checks) caps w c =
      let (a, w') = authorizer.check (request profile authorizer rctx chk) w in
      after (fallback_lem checks _ w' c) (answered_iff a chk.capability caps c)

  only : {A B C : Type 0} → (A ↔ (B ⊎ C)) → ¬ C → A ↔ B
  only f never = (λ a. elim (f.0 a) [ inl b ↦ b | inr c ↦ absurd (never c) ], λ b. f.1 (inl b))

  not_held : (c : Text) → ¬ (lookup c [] ≡ some true)
  unfolding lookup
  not_held c h = cc

  -- What comes back for the answer of the batch: the set of exactly the capabilities that the batch
  -- allows, or, where the batch fails, that the single checks allow from the world it leaves.
  abbrev pub Resolved : List CapabilityCheck → Result (List Bool) → W → CapabilitySet → Type 0
  Resolved checks (ok rs) w' caps =
      (c : Text) → (lookup c caps ≡ some true) ↔ BatchAllows checks rs c
  Resolved checks (err e) w' caps =
      (c : Text) → (lookup c caps ≡ some true) ↔ SingleAllows checks w' c

  from_batch_lem :
      (checks : List CapabilityCheck) (answer : Result (List Bool)) (w' : W)
      → ((rs : List Bool) → answer ≡ ok rs → length rs ≡ length checks)
      → (caps : CapabilitySet) × ((from_batch profile authorizer rctx checks answer w').0
          ≡ some caps)
        × Resolved checks answer w' caps
  unfolding from_batch
  from_batch_lem checks (ok rs) w' complete =
      let (done, e, all) = grant_results_lem checks rs [] (complete rs refl) in
      (done, e, λ c. only (all c) (not_held c))
  from_batch_lem checks (err e) w' complete =
      (_, refl, λ c. only (fallback_lem checks [] w' c) (not_held c))

  -- If a batch gives one result for each request, the evaluator returns a capability set for one
  -- check or more. Where the batch succeeds, a capability is granted exactly if the batch has the result
  -- true for one of its checks; where the batch fails, exactly if one of its checks, asked alone in
  -- its turn, is answered by true, so that a check which fails grants nothing.
  pub resolve_capabilities_cases :
      IsComplete
      → (chk : CapabilityCheck) (checks : List CapabilityCheck) (w : W)
      → (caps : CapabilitySet) × ((resolve_capabilities profile authorizer rctx (chk ∷ checks) w).0
          ≡ some caps)
        × Resolved
            (chk ∷ checks)
            (authorizer.batch_check (map (request profile authorizer rctx) (chk ∷ checks)) w).0
            (authorizer.batch_check (map (request profile authorizer rctx) (chk ∷ checks)) w).1
            caps
  unfolding resolve_capabilities
  resolve_capabilities_cases complete chk checks w =
      let qs = map (request profile authorizer rctx) (chk ∷ checks) in
      from_batch_lem (chk ∷ checks) (authorizer.batch_check qs w).0 (authorizer.batch_check qs w).1
        (λ rs e.
          complete.batch qs w rs e ∙ length-map (request profile authorizer rctx) (chk ∷ checks))
