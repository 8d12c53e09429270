-- ===== src/Run/Steps.antt =====
-- The integrity chain of a run: `appendSyntheticStepLocked` and the append that `AdvanceRun` makes.
use mathlib.Core.List.{◌++◌ as append}
use agent_infra_system.Base.{String, Option, none, some, List, [], ◌∷◌}
use agent_infra_system.Base.Int.{ℤ}
use agent_infra_system.Base.Dict.{lookup, insert}
use agent_infra_system.Base.Text.{trim_space, to_lower}
use agent_infra_system.Base.Time.{Time}
use agent_infra_system.Platform.{Platform, Value, Json, checked_hash}
use agent_infra_system.Run.States.{StepType}
use agent_infra_system.Run.Types.{
  Kernel, KernelError, Result, ok, err, kernel_err, RunInstance, RunView, StepIntegrity,
}
use agent_infra_system.Run.Outbox.{emit}

-- `k.stepIntegrity[runID]`; a missing key is an empty slice
unfoldable pub step_integrities : String → Kernel → List StepIntegrity
step_integrities run_id k = elim (lookup run_id k.step_integrity) [ none ↦ [] | some l ↦ l ]

unfoldable pub append_step : String → StepIntegrity → Kernel → Kernel
unfolding step_integrities
append_step run_id s k = record k {
  step_integrity = insert run_id (append (step_integrities run_id k) (s ∷ [])) k.step_integrity;
}

unfoldable pub synthetic_step :
    RunView → String → ℤ → String → String → String → String → Time → StepIntegrity
synthetic_step v step_id seq synthetic_type input_hash output_hash step_hash now = record {
  run_id = v.run_id;
  step_id = step_id;
  step_seq_id = seq;
  step_type = StepType.synthetic;
  synthetic_type = to_lower (trim_space synthetic_type);
  integrity_chain_version = v.integrity_chain_version;
  previous_step_hash = v.last_step_hash;
  decision_hash = "";
  input_hash = input_hash;
  output_hash = output_hash;
  step_hash = step_hash;
  created_at = now;
}

abbrev pub hash_generation_failed : String → KernelError
hash_generation_failed msg =
    kernel_err 500 "RUN_HASH_GENERATION_FAILED" msg ("hash_generation_failed" ∷ [])

-- `if err != nil { … }` after a call that answers a step hash, and the code that follows
abbrev pub on_step {ℓ} :
    {B : Type ℓ} → Kernel × Result String → (KernelError → Kernel → B) → (String → Kernel → B) → B
on_step (k, err e) failed done = failed e k
on_step (k, ok step_hash) failed done = done step_hash k

module _ ⦃platform : Platform⦄ where
  unfoldable pub synthetic_hash : String → String → String → String → Option String
  synthetic_hash prev synthetic_type input_hash output_hash = checked_hash (
      Json.object (
        ("previous_step_hash", Value.text prev)
        ∷ ("synthetic_type", Value.text synthetic_type)
        ∷ ("input_hash", Value.text input_hash)
        ∷ ("output_hash", Value.text output_hash)
        ∷ []))

  -- The run itself is not changed: the callers move its head to the hash that comes back.
  unfoldable pub append_synthetic_step :
      RunInstance → String → ℤ → String → String → String → Time → Kernel → Kernel × Result String
  unfolding synthetic_step synthetic_hash append_step
  append_synthetic_step r step_id seq synthetic_type input_hash output_hash now k =
      elim (synthetic_hash r.view.last_step_hash synthetic_type input_hash output_hash) [
        | none ↦ (
          emit "run_hash_generation_failed" r.view.run_id step_id
              (("target", Value.text "synthetic_step_hash") ∷ []) now k,
          err (hash_generation_failed "failed to hash synthetic step"),
        )
        | some step_hash ↦ (
          append_step r.view.run_id
              (synthetic_step r.view step_id seq synthetic_type input_hash output_hash step_hash
                now)
              k,
          ok step_hash,
        )
      ]
