-- ===== src/Command/Executor/Laws.antt =====
-- When a command reaches its backend, and what the caller sees otherwise.
use thesa.Prelude.{
  Bool, true, false, Option, none, some, List, [], ◌∷◌, ◌≡◌, ◌⊎◌, inl, inr, refl, sym, ap, ◌∙◌, ◌≢◌,
  All, Bool-cases, cons-ne-nil,
}
use thesa.Prelude.Int.{pos, ◌≤ℤ◌, ◌<ℤ◌}
use thesa.Prelude.Text.{Text}
use thesa.Errors.{
  not_found, forbidden, bad_request, validation_error, Error, Result, ok, err, code_of,
}
use thesa.Definition.{CommandDefinition}
use thesa.Context.{
  Go, RequestContext, InvocationInput, InvocationResult, CommandInput, OperationInvoker,
}
use thesa.Capability.{CapabilitySet, has, allowed}
use thesa.Capability.Grants.{allowed_iff}
use thesa.Registry.{Snapshot, get_command}
use thesa.OpenApi.{Index, ValidationError}
use thesa.Invoker.{invoke}
use thesa.Command.Mapper.{map_input}
use thesa.Command.Response.{handle_response}
use thesa.Command.Response.Laws.{handle_response_success_iff}
use thesa.Command.Executor.{
  Outcome, schema_errors, answer, check_and_invoke, run_mapped, run_definition, execute,
}

-- The command is known, the caller holds every capability that it requires, its input mapping
-- gives the call `inv`, and the call's body passes the check against the schema.
pub record Admitted (go : Go) (registry : Snapshot) (index : Option Index) (rctx : RequestContext)
    (caps : CapabilitySet) (command_id : Text) (input : CommandInput) : Type 0 where
  pub cmd : CommandDefinition
  pub inv : InvocationInput
  pub found : get_command registry command_id ≡ some cmd
  pub granted : All (λ c. has caps c ≡ true) cmd.capabilities
  pub mapped : map_input go cmd.input input (some rctx) none ≡ ok inv
  pub valid : schema_errors index cmd inv ≡ []

-- Why a command is not admitted, and the error that says so: it is unknown, the caller lacks one of
-- its capabilities, its input mapping fails, or the body of its call fails the check.
abbrev pub Refused :
    Go
    → Snapshot
    → Option Index
    → RequestContext
    → CapabilitySet
    → Text
    → CommandInput
    → Error
    → Type 0
Refused go registry index rctx caps command_id input e =
    ((code_of e ≡ some not_found) × (get_command registry command_id ≡ none))
    ⊎ ((cmd : CommandDefinition) × (get_command registry command_id ≡ some cmd)
        × (((code_of e ≡ some forbidden) × ¬ (All (λ c. has caps c ≡ true) cmd.capabilities))
            ⊎ ((code_of e ≡ some bad_request)
                × ((why : Error) × (map_input go cmd.input input (some rctx) none ≡ err why)))
            ⊎ ((code_of e ≡ some validation_error)
                × ((inv : InvocationInput) × (map_input go cmd.input input (some rctx) none
                      ≡ ok inv)
                    × (schema_errors index cmd inv ≢ [])))))

pub Refused-ne-Admitted :
    (go : Go) (registry : Snapshot) (index : Option Index) (rctx : RequestContext)
    (caps : CapabilitySet) (command_id : Text) (input : CommandInput) (e : Error)
    → Refused go registry index rctx caps command_id input e
    → ¬ (Admitted go registry index rctx caps command_id input)
Refused-ne-Admitted go registry index rctx caps command_id input e (inl (code, unknown)) a =
    let found = a.found in absurd (cc)
Refused-ne-Admitted go registry index rctx caps command_id input e (inr (cmd, found, why)) a =
    let same : a.cmd ≡ cmd = let f = a.found in cc in
    elim why [
      | inl (code, lacks) ↦ lacks (rw (← same) a.granted)
      | inr (inl (code, (failure, unmapped))) ↦
          let m : map_input go cmd.input input (some rctx) none ≡ ok a.inv = rw (← same) a.mapped in
          absurd (cc)
      | inr (inr (code, (inv, mapped, invalid))) ↦
          let m : map_input go cmd.input input (some rctx) none ≡ ok a.inv = rw (← same) a.mapped in
          let here : a.inv ≡ inv = cc in invalid (rw (← same, ← here) a.valid)
    ]

module _ {W : Type 0} (go : Go) (registry : Snapshot) (invokers : List (OperationInvoker W))
    (index : Option Index) (rctx : RequestContext) (caps : CapabilitySet) (command_id : Text)
    (input : CommandInput) (w : W) where
  abbrev Run : Outcome × W → Type 0
  Run out =
      ((a : Admitted go registry index rctx caps command_id input) × (out ≡ (
        answer go registry invokers index a.cmd (invoke go invokers rctx a.cmd.operation a.inv w).0,
        (invoke go invokers rctx a.cmd.operation a.inv w).1,
      )))
      ⊎ ((e : Error) × (out.0.1 ≡ some e)
          × Refused go registry index rctx caps command_id input e
          × (out.1 ≡ w))

  check_cases :
      (cmd : CommandDefinition) (inv : InvocationInput) (errs : List ValidationError)
      → get_command registry command_id ≡ some cmd
      → All (λ c. has caps c ≡ true) cmd.capabilities
      → map_input go cmd.input input (some rctx) none ≡ ok inv
      → schema_errors index cmd inv ≡ errs
      → Run (check_and_invoke go registry invokers index rctx cmd inv errs w)
  check_cases cmd inv [] found granted mapped valid = inl (
    record {
      cmd = cmd;
      inv = inv;
      found = found;
      granted = granted;
      mapped = mapped;
      valid = valid;
    },
    refl,
  )
  check_cases cmd inv (e ∷ es) found granted mapped valid = inr (
    _,
    refl,
    inr (cmd, found, inr (inr (refl, (inv, mapped, λ h. cons-ne-nil e es (sym valid ∙ h))))),
    refl,
  )

  mapped_cases :
      (cmd : CommandDefinition) (r : Result InvocationInput)
      → get_command registry command_id ≡ some cmd
      → All (λ c. has caps c ≡ true) cmd.capabilities
      → map_input go cmd.input input (some rctx) none ≡ r
      → Run (run_mapped go registry invokers index rctx cmd r w)
  mapped_cases cmd (err e) found granted mapped =
      inr (_, refl, inr (cmd, found, inr (inl (refl, (e, mapped)))), refl)
  mapped_cases cmd (ok inv) found granted mapped =
      check_cases cmd inv (schema_errors index cmd inv) found granted mapped refl

  definition_cases :
      (o : Option CommandDefinition)
      → get_command registry command_id ≡ o
      → Run (run_definition go registry invokers index rctx caps command_id input o w)
  definition_cases none found = inr (_, refl, inl (refl, found), refl)
  definition_cases (some cmd) found = elim (Bool-cases (allowed caps cmd.capabilities)) [
    | inl may ↦ rw may (
        mapped_cases cmd (map_input go cmd.input input (some rctx) none) found
          ((allowed_iff caps cmd.capabilities).0 may) refl)
    | inr may_not ↦ rw may_not (
        inr (
          _,
          refl,
          inr (
            cmd,
            found,
            inl (refl, λ all. lost ((allowed_iff caps cmd.capabilities).1 all) may_not),
          ),
          refl,
        ))
  ]
    where
      lost : {b : Bool} → b ≡ true → ¬ (b ≡ false)
      lost h k = cc

  -- Either the command is admitted, and then the backend is invoked once, with the mapped call, and
  -- its answer decides the outcome; or it is not admitted, the world is untouched, and the caller gets
  -- NOT_FOUND where the command is unknown, FORBIDDEN where the caller lacks one of its capabilities,
  -- BAD_REQUEST where the mapping fails, and VALIDATION_ERROR where the body fails the check.
  pub execute_cases :
      ((a : Admitted go registry index rctx caps command_id input) × (execute go registry invokers
            index rctx caps command_id input w
          ≡ (
            answer go registry invokers index a.cmd
                (invoke go invokers rctx a.cmd.operation a.inv w).0,
            (invoke go invokers rctx a.cmd.operation a.inv w).1,
          )))
      ⊎ ((e : Error) × ((execute go registry invokers index rctx caps command_id input w).0.1
            ≡ some e)
          × Refused go registry index rctx caps command_id input e
          × ((execute go registry invokers index rctx caps command_id input w).1 ≡ w))
  unfolding execute
  execute_cases = definition_cases (get_command registry command_id) refl

  answer_success :
      (cmd : CommandDefinition) (r : Result InvocationResult)
      → (answer go registry invokers index cmd r).1 ≡ none
      → (result : InvocationResult) × (r ≡ ok result)
        × (pos 200 ≤ℤ result.status_code)
        × (result.status_code <ℤ pos 300)
        × ((answer go registry invokers index cmd r).0 ≡ handle_response go result cmd)
  answer_success cmd (err e) h = cc
  answer_success cmd (ok result) h = elim (Bool-cases (handle_response go result cmd).success) [
    | inl good ↦
        let (low, high) = (handle_response_success_iff go result cmd).0 good in
        (result, refl, low, high, rw good)
    | inr bad ↦ absurd (some-ne-none (rw bad at h))
  ]
    where
      some-ne-none : {e : Error} → ¬ (some e ≡ none)
      some-ne-none h = cc

  -- No error comes back only if the command was admitted and the backend answered a status from
  -- 200 to 299; the response is then made from that answer and says success.
  pub execute_success :
      (execute go registry invokers index rctx caps command_id input w).0.1 ≡ none
      → (a : Admitted go registry index rctx caps command_id input) × (result : InvocationResult)
        × ((invoke go invokers rctx a.cmd.operation a.inv w).0 ≡ ok result)
        × (pos 200 ≤ℤ result.status_code)
        × (result.status_code <ℤ pos 300)
        × ((execute go registry invokers index rctx caps command_id input w).0.0
            ≡ handle_response go result a.cmd)
  execute_success h = elim execute_cases [
    | inl (a, e) ↦
        let (result, given, low, high, same) =
          answer_success a.cmd (invoke go invokers rctx a.cmd.operation a.inv w).0
            (ap (λ (x : Outcome × W). x.0.1) (sym e) ∙ h) in
        (a, result, given, low, high, ap (λ (x : Outcome × W). x.0.0) e ∙ same)
    | inr (e, failed, refusal, same) ↦ absurd (none-ne-some (sym h ∙ failed))
  ]
    where
      none-ne-some : {e : Error} → ¬ (none ≡ some e)
      none-ne-some h = cc
