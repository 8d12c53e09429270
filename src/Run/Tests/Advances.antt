-- ===== src/Run/Tests/Advances.antt =====
-- The theorems on `AdvanceRun` and the outbox at one advance.
use Prim.Native.Nat.{min}
use agent_infra_system.Base.{
  ℕ, ◌+◌, ◌*◌, ◌≤◌, String, true, false, ◌≡◌, ◌≢◌, ◌⊎◌, ◌↔◌, refl, Option, none, some, List, [],
  ◌∷◌, ◌++◌, arith, eq_iff, length, drop, All,
}
use agent_infra_system.Base.Dict.{lookup, insert}
use agent_infra_system.Base.Int.{pos, int64_succ}
use agent_infra_system.Base.Text.{is_blank, trim_space, to_lower, to_upper}
use agent_infra_system.Platform.{checked_hash, hash_json_with_status, is_error_hash}
use agent_infra_system.Run.States.{State, RootType}
use agent_infra_system.Run.Types.{Kernel, ok, DecisionPort, DecisionObligation, AdvanceRunResponse}
use agent_infra_system.Run.Outbox.{emit, cleanup_outbox, event_of, trim_outbox, drain_outbox}
use agent_infra_system.Run.Advance.{
  advance_run, precheck_advance, advance_found, advance_fresh, advance_gated,
}
use agent_infra_system.Run.Advance.Success.{
  IsAuthorised, advance_run-IsAuthorised, Moves, advance_run-Moves,
}
use agent_infra_system.Run.Advance.Replay.{advance_run_replays}
use agent_infra_system.Run.Obligations.{enforce_decision_obligations}
use agent_infra_system.Run.Roots.{anchor_root}
use agent_infra_system.Run.Caches.{cleanup_run_scoped_caches}
use agent_infra_system.Run.Advance.Gate.{pass, decision_gate}
use agent_infra_system.Run.Advance.Authorised.{IsBacked, IsBound, decision_gate_iff}
use agent_infra_system.Run.Obligations.Enforce.{deny_execution_blocks}
use agent_infra_system.Run.Obligations.Accepted.{Accepts, obligations_met}
use agent_infra_system.Run.Outbox.Laws.{drain_outbox_splits}
use agent_infra_system.Run.Types.{AdvanceRunRequest, RunInstance, err}
use agent_infra_system.Run.Park.{monotonicity_violation}
use agent_infra_system.Run.Spec.{Edit}
use agent_infra_system.Run.Advance.Refusal.{advance_run-Refuses}
use agent_infra_system.Base.{◌⊎◌}
use agent_infra_system.Run.Tests.Fixtures.{
  toy, holding, allowing, open_port, fresh_run, advance_to, noon,
}

abbrev advanced : AdvanceRunResponse
advanced = record {
  new_state = State.running;
  next_action = "continue";
  state_version = pos 2;
  step_hash = "abcdef01previous_step_hash=;decision_hash=dh;input_hash=in;output_hash=out;";
  run_integrity_root =
      "abcdef01previous_step_hash=;decision_hash=dh;input_hash=in;output_hash=out;";
  run_integrity_root_version = pos 1;
  integrity_root_type = some RootType.partial;
  current_step_seq_id = pos 1;
}

kernel_advanced : Kernel
kernel_advanced = (advance_run "r1" (advance_to "running") noon (holding fresh_run)).0

advance_done :
    advance_run "r1" (advance_to "running") noon (holding fresh_run)
    ≡ (kernel_advanced, ok advanced)
unfolding kernel_advanced toy lookup insert is_blank trim_space to_lower to_upper checked_hash
    hash_json_with_status is_error_hash emit cleanup_outbox event_of trim_outbox
    agent_infra_system.Run.Outbox.count_expired agent_infra_system.Run.Outbox.overflow
    agent_infra_system.Run.Outbox.run_event_evidence_policy agent_infra_system.Base.Dict.erase_if
    agent_infra_system.Base.Text.show_decimal int64_succ agent_infra_system.Run.Roots.anchor_root
    agent_infra_system.Run.Steps.append_step agent_infra_system.Run.Steps.step_integrities
    agent_infra_system.Run.States.show_state agent_infra_system.Run.Caches.cleanup_run_scoped_caches
    advance_run precheck_advance advance_found advance_fresh advance_gated
    agent_infra_system.Run.Advance.Gate.decision_gate
    agent_infra_system.Run.Advance.Gate.resolve_decision
    agent_infra_system.Run.Advance.Gate.check_reference
    agent_infra_system.Run.Advance.Gate.check_receipt
    agent_infra_system.Run.Obligations.enforce_decision_obligations
    agent_infra_system.Run.Advance.Commit.advance_step
    agent_infra_system.Run.Advance.Commit.validate_next_state
    agent_infra_system.Run.States.parse_next_state agent_infra_system.Run.States.parse_state
    agent_infra_system.Run.States.normalize_state
    agent_infra_system.Run.States.is_allowed_transition
    agent_infra_system.Run.Advance.Commit.step_hash_of
    agent_infra_system.Run.Advance.Commit.advance_commit
    agent_infra_system.Run.Advance.Commit.advance_response
    agent_infra_system.Run.Advance.Commit.advanced_instance
    agent_infra_system.Run.Advance.Commit.idempotency_key
    agent_infra_system.Run.Advance.Commit.normal_step
    agent_infra_system.Run.Advance.Gate.is_executable_decision
    agent_infra_system.Run.Advance.Gate.normalize_kind agent_infra_system.Run.Roots.anchor_by_state
    agent_infra_system.Run.States.next_action_by_state
advance_done = refl

advance_run-IsAuthorised_example :
    IsAuthorised "r1" (advance_to "running") (holding fresh_run) fresh_run State.running
unfolding lookup
advance_run-IsAuthorised_example =
    advance_run-IsAuthorised "r1" (advance_to "running") noon fresh_run (holding fresh_run)
      kernel_advanced advanced refl refl advance_done

advance_run-Moves_example :
    Moves "r1"
      (advance_to "running")
      (holding fresh_run)
      kernel_advanced
      fresh_run
      State.running
      advanced
unfolding lookup
advance_run-Moves_example =
    advance_run-Moves "r1" (advance_to "running") noon fresh_run (holding fresh_run) kernel_advanced
      advanced refl refl advance_done

advance_run_replays_example :
    let (k2, answer) = advance_run "r1" (advance_to "running") (noon + 7) kernel_advanced in
    (answer ≡ ok advanced)
    × (k2.runs ≡ kernel_advanced.runs)
    × (k2.step_integrity ≡ kernel_advanced.step_integrity)
    × (k2.outbox ≡ kernel_advanced.outbox)
unfolding lookup
advance_run_replays_example =
    advance_run_replays "r1" (advance_to "running") noon fresh_run (holding fresh_run)
      kernel_advanced advanced refl refl advance_done refl refl (noon + 7)

drain_outbox_splits_example :
    let (k', drained) = drain_outbox (pos 1) kernel_advanced in
    (drained ++ k'.outbox ≡ kernel_advanced.outbox)
    × (length drained ≡ min 1 (length kernel_advanced.outbox))
drain_outbox_splits_example = drain_outbox_splits (pos 1) kernel_advanced

abbrev denial : DecisionObligation
denial = record {
  type = " Deny_Execution";
  target = "";
  value = "";
  phase = "";
  strictness = pos 0;
}

deny_execution_blocks_example :
    (enforce_decision_obligations "r1"
      (advance_to "running")
      (allowing (denial ∷ []))
      noon
      (holding fresh_run)
      []).2
    ≢ none
unfolding to_lower trim_space
deny_execution_blocks_example =
    deny_execution_blocks "r1" (advance_to "running") (allowing (denial ∷ [])) noon
      (holding fresh_run) [] [] [] denial refl refl

decision_gate_iff_example :
    (decision_gate (some (open_port [])) "r1" "t1" (advance_to "running") ≡ pass (allowing [])) ↔ (
      (p : DecisionPort) × (some (open_port []) ≡ some p)
      × IsBacked p "r1" "t1" (advance_to "running") (allowing [])
      × IsBound "r1" (advance_to "running") (allowing []))
decision_gate_iff_example =
    decision_gate_iff (some (open_port [])) "r1" "t1" (advance_to "running") (allowing [])

obligations_met_example :
    ((enforce_decision_obligations "r1"
        (advance_to "running")
        (allowing (denial ∷ []))
        noon
        (holding fresh_run)
        []).2
      ≡ none)
    ↔ All (Accepts (advance_to "running") (allowing (denial ∷ []))) (denial ∷ [])
obligations_met_example =
    obligations_met "r1" (advance_to "running") (allowing (denial ∷ [])) noon (holding fresh_run) []

abbrev repeated : AdvanceRunRequest
repeated = record (advance_to "running") { incoming_step_seq_id = pos 0 }

kernel_refused : Kernel
kernel_refused = (advance_run "r1" repeated noon (holding fresh_run)).0

refusal_done :
    advance_run "r1" repeated noon (holding fresh_run)
    ≡ (kernel_refused, err monotonicity_violation)
unfolding kernel_refused toy lookup insert is_blank trim_space to_lower to_upper checked_hash
    hash_json_with_status is_error_hash emit cleanup_outbox event_of trim_outbox
    agent_infra_system.Run.Outbox.count_expired agent_infra_system.Run.Outbox.overflow
    agent_infra_system.Run.Outbox.run_event_evidence_policy agent_infra_system.Base.Dict.erase_if
    agent_infra_system.Base.Text.show_decimal int64_succ agent_infra_system.Run.Roots.anchor_root
    agent_infra_system.Run.Steps.append_step agent_infra_system.Run.Steps.step_integrities
    agent_infra_system.Run.States.show_state agent_infra_system.Run.Caches.cleanup_run_scoped_caches
    advance_run precheck_advance advance_found advance_fresh advance_gated
    agent_infra_system.Run.Advance.Gate.decision_gate
    agent_infra_system.Run.Advance.Gate.resolve_decision
    agent_infra_system.Run.Advance.Gate.check_reference
    agent_infra_system.Run.Advance.Gate.check_receipt
    agent_infra_system.Run.Obligations.enforce_decision_obligations
    agent_infra_system.Run.Advance.Commit.advance_step
    agent_infra_system.Run.Advance.Commit.validate_next_state
    agent_infra_system.Run.States.parse_next_state agent_infra_system.Run.States.parse_state
    agent_infra_system.Run.States.normalize_state
    agent_infra_system.Run.States.is_allowed_transition
    agent_infra_system.Run.Advance.Commit.step_hash_of
    agent_infra_system.Run.Advance.Commit.advance_commit
    agent_infra_system.Run.Advance.Commit.advance_response
    agent_infra_system.Run.Advance.Commit.advanced_instance
    agent_infra_system.Run.Advance.Commit.idempotency_key
    agent_infra_system.Run.Advance.Commit.normal_step
    agent_infra_system.Run.Advance.Gate.is_executable_decision
    agent_infra_system.Run.Advance.Gate.normalize_kind agent_infra_system.Run.Roots.anchor_by_state
    agent_infra_system.Run.States.next_action_by_state agent_infra_system.Run.Roots.hold
    agent_infra_system.Run.Outbox.emit_progress_monotonicity_violation
refusal_done = refl

advance_run-Refuses_example :
    (kernel_refused.step_integrity ≡ [])
    × ((kernel_refused.runs ≡ (holding fresh_run).runs)
        ⊎ ((r' : RunInstance) × (kernel_refused.runs ≡ insert "r1" r' (holding fresh_run).runs)
            × Edit fresh_run r'))
unfolding lookup
advance_run-Refuses_example =
    advance_run-Refuses "r1" repeated noon fresh_run (holding fresh_run) kernel_refused
      monotonicity_violation refl refusal_done
