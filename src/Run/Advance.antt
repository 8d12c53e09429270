-- ===== src/Run/Advance.antt =====
-- `AdvanceRun` of internal/run/kernel.go, in the order of its checks. A refusal answers an error and
-- changes nothing; a fault also emits an event and puts the run on safeguard hold.
pub mod Gate
pub mod Commit
pub mod Authorised
pub mod Effect
pub mod Success
pub mod Replay
pub mod Refusal
use Gate.{pass, refuse, fault, decision_gate}
use Commit.{idempotency_key, advance_step}
use agent_infra_system.Base.{String, Bool, not, ◌||◌, Option, none, some, [], ◌∷◌, if◌then◌else◌}
use agent_infra_system.Base.Int.{leb_ℤ, eq_ℤ}
use agent_infra_system.Base.Dict.{lookup, insert}
use agent_infra_system.Base.Time.{Time}
use agent_infra_system.Platform.{Platform}
use agent_infra_system.Run.States.{State, is_terminal_state, is_waiting_state}
use agent_infra_system.Run.Types.{
  Kernel, KernelError, Result, ok, err, kernel_err, RunInstance, DecisionReference,
  AdvanceRunRequest, AdvanceRunResponse, IdempotencyEntry,
}
use agent_infra_system.Run.Roots.{hold}
use agent_infra_system.Run.Outbox.{emit, emit_progress_monotonicity_violation}
use agent_infra_system.Run.Obligations.{enforce_decision_obligations}
use agent_infra_system.Run.Setup.{with_run, put_run}
use agent_infra_system.Run.Park.{terminal_state, state_version_conflict, monotonicity_violation}
use agent_infra_system.Base.Text.{is_blank}

-- The checks before the idempotency cache is read.
unfoldable pub precheck_advance : State → AdvanceRunRequest → Option KernelError
precheck_advance state req =
    if is_terminal_state state
    then some terminal_state
    else if is_waiting_state state
    then some (
        kernel_err 409 "RUN_STATE_CONFLICT" "run must resume before advance"
          ("state_conflict" ∷ []))
    else if is_blank req.step_id || is_blank req.step_version || is_blank req.idempotency_key
    then some (
        kernel_err 422 "RUN_INPUT_INVALID" "step_id/step_version/idempotency_key required"
          ("input_invalid" ∷ []))
    else none

module _ ⦃platform : Platform⦄ where
  -- After the gate: the obligations, whose tags and events stay also where a later check refuses.
  unfoldable pub advance_gated :
      String
      → AdvanceRunRequest
      → DecisionReference
      → Time
      → RunInstance
      → Kernel
      → Kernel × Result AdvanceRunResponse
  advance_gated run_id req ref now r k =
      let (k1, tags, failure) =
        enforce_decision_obligations r.view.run_id req ref now k r.view.attached_tags in
      let r1 : RunInstance = record r { view = record r.view { attached_tags = tags } } in
      elim failure [
        | some e ↦ (put_run run_id (hold now r1) k1, err e)
        | none ↦ advance_step run_id req ref now r1 (put_run run_id r1 k1)
      ]

  -- After the idempotency cache.
  unfoldable pub advance_fresh :
      String → AdvanceRunRequest → Time → RunInstance → Kernel → Kernel × Result AdvanceRunResponse
  advance_fresh run_id req now r k =
      if not (eq_ℤ req.expected_state_version r.view.state_version)
      then (k, err state_version_conflict)
      else if leb_ℤ req.incoming_step_seq_id r.view.current_step_seq_id
      then (
        emit_progress_monotonicity_violation run_id req.step_id req.incoming_step_seq_id
            r.view.current_step_seq_id now (put_run run_id (hold now r) k),
        err monotonicity_violation,
      )
      else elim (decision_gate k.decision_port run_id r.view.tenant_id req) [
        | refuse e ↦ (k, err e)
        | fault event payload e ↦
            (emit event run_id req.step_id payload now (put_run run_id (hold now r) k), err e)
        | pass ref ↦ advance_gated run_id req ref now r k
      ]

  unfoldable pub advance_found :
      String → AdvanceRunRequest → Time → RunInstance → Kernel → Kernel × Result AdvanceRunResponse
  advance_found run_id req now r k = elim (precheck_advance r.view.state req) [
    | some e ↦ (k, err e)
    | none ↦ elim (lookup (idempotency_key run_id req) k.idempotency) [
      | some cached ↦ (
        record k {
          idempotency =
              insert (idempotency_key run_id req) (record cached { last_access_at = now })
                k.idempotency;
        },
        ok cached.response,
      )
      | none ↦ advance_fresh run_id req now r k
    ]
  ]

  unfoldable pub advance_run :
      String → AdvanceRunRequest → Time → Kernel → Kernel × Result AdvanceRunResponse
  advance_run run_id req now k = with_run run_id k λ r. advance_found run_id req now r k
