-- ===== src/Command/Executor/DryRun.antt =====
-- The dry run against the run.
use thesa.Prelude.{
  ◌≢◌, ◌⊎◌, true, Option, none, some, List, [], ◌∷◌, ◌≡◌, ◌↔◌, inl, inr, refl, All, Bool-cases,
}
use thesa.Prelude.Text.{Text}
use thesa.Errors.{Error, Result, ok, err}
use thesa.Definition.{CommandDefinition}
use thesa.Context.{Go, RequestContext, InvocationInput, CommandInput, OperationInvoker}
use thesa.Capability.{CapabilitySet, has, allowed}
use thesa.Capability.Grants.{allowed_iff}
use thesa.Registry.{Snapshot, get_command}
use thesa.OpenApi.{Index, ValidationError}
use thesa.Command.Mapper.{map_input}
use thesa.Command.Response.{translate_validation_errors}
use thesa.Invoker.{invoke}
use thesa.Command.Executor.{
  answer, execute, schema_errors, reported, validate_mapped, validate_definition, validate,
}
use thesa.Command.Executor.Laws.{Admitted, Refused, Refused-ne-Admitted, execute_cases}

module _ (go : Go) (registry : Snapshot) (index : Option Index) (rctx : RequestContext)
    (caps : CapabilitySet) (command_id : Text) (input : CommandInput) where
  no_reports :
      (cmd : CommandDefinition) (errs : List ValidationError) → reported cmd errs ≡ [] → errs ≡ []
  unfolding translate_validation_errors
  no_reports cmd [] h = refl
  no_reports cmd (e ∷ es) h = cc

  mapped_clean :
      (cmd : CommandDefinition) (r : Result InvocationInput)
      → get_command registry command_id ≡ some cmd
      → All (λ c. has caps c ≡ true) cmd.capabilities
      → map_input go cmd.input input (some rctx) none ≡ r
      → validate_mapped go registry index cmd r ≡ []
      → Admitted go registry index rctx caps command_id input
  mapped_clean cmd (err e) found granted mapped h = absurd (cc)
  mapped_clean cmd (ok inv) found granted mapped h = record {
    cmd = cmd;
    inv = inv;
    found = found;
    granted = granted;
    mapped = mapped;
    valid = no_reports cmd (schema_errors index cmd inv) h;
  }

  definition_clean :
      (o : Option CommandDefinition)
      → get_command registry command_id ≡ o
      → validate_definition go registry index rctx caps command_id input o ≡ []
      → Admitted go registry index rctx caps command_id input
  definition_clean none found h = absurd (cc)
  definition_clean (some cmd) found h = elim (Bool-cases (allowed caps cmd.capabilities)) [
    | inl may ↦
        mapped_clean cmd (map_input go cmd.input input (some rctx) none) found
          ((allowed_iff caps cmd.capabilities).0 may) refl (rw may at h)
    | inr may_not ↦ absurd (one-ne-nil (rw may_not at h))
  ]
    where
      one-ne-nil : {A : Type 0} {x : A} {xs : List A} → ¬ (x ∷ xs ≡ [])
      one-ne-nil h = cc

  validate_iff :
      (validate go registry index rctx caps command_id input ≡ [])
      ↔ Admitted go registry index rctx caps command_id input
  unfolding validate
  validate_iff = (
    definition_clean (get_command registry command_id) refl,
    λ a.
        rw (a.found, (allowed_iff caps a.cmd.capabilities).1 a.granted, a.mapped, a.valid)
          (unfold translate_validation_errors in refl),
  )

  -- Either a clean dry run and a call, or a report and a refusal.
  abbrev pub Agrees : {W : Type 0} → List (OperationInvoker W) → W → Type 0
  Agrees invokers w =
      ((validate go registry index rctx caps command_id input ≡ [])
        × ((a : Admitted go registry index rctx caps command_id input) × (execute go registry
                invokers index rctx caps command_id input w
              ≡ (
                answer go registry invokers index a.cmd
                    (invoke go invokers rctx a.cmd.operation a.inv w).0,
                (invoke go invokers rctx a.cmd.operation a.inv w).1,
              ))))
      ⊎ ((validate go registry index rctx caps command_id input ≢ [])
          × ((e : Error) × ((execute go registry invokers index rctx caps command_id input w).0.1
                ≡ some e)
              × Refused go registry index rctx caps command_id input e
              × ((execute go registry invokers index rctx caps command_id input w).1 ≡ w)))

  -- The dry run and the run agree: where Validate reports nothing, Execute invokes the backend once,
  -- with the mapped call, and its answer decides the outcome; where it reports something, Execute
  -- leaves the world untouched and comes back with the error of the reason for the refusal.
  pub validate-execute :
      {W : Type 0} (invokers : List (OperationInvoker W)) (w : W) → Agrees invokers w
  validate-execute invokers w =
      elim (execute_cases go registry invokers index rctx caps command_id input w) [
        | inl (a, run) ↦ inl (validate_iff.1 a, (a, run))
        | inr (e, failure, refused, same) ↦ inr (
          λ clean.
              Refused-ne-Admitted go registry index rctx caps command_id input e refused
                (validate_iff.0 clean),
          (e, failure, refused, same),
        )
      ]
