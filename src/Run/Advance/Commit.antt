-- ===== src/Run/Advance/Commit.antt =====
-- The end of `AdvanceRun`: the next state, the step hash, the commit.
use Prim.Native.String.{◌++◌}
use agent_infra_system.Base.{String, not, ◌||◌, Option, none, some, List, [], ◌∷◌, if◌then◌else◌}
use agent_infra_system.Base.Int.{int64_succ}
use agent_infra_system.Base.Dict.{insert}
use agent_infra_system.Base.Text.{is_blank}
use agent_infra_system.Base.Time.{Time}
use agent_infra_system.Platform.{Platform, Value, Json, checked_hash}
use agent_infra_system.Run.States.{
  State, StepType, is_terminal_state, is_allowed_transition, parse_next_state, next_action_by_state,
  show_state,
}
use agent_infra_system.Run.Types.{
  Kernel, Result, ok, err, kernel_err, RunInstance, RunView, StepIntegrity, DecisionReference,
  AdvanceRunRequest, AdvanceRunResponse,
}
use agent_infra_system.Run.Roots.{anchor_by_state, hold}
use agent_infra_system.Run.Outbox.{emit}
use agent_infra_system.Run.Steps.{append_step, hash_generation_failed}
use agent_infra_system.Run.Setup.{put_run}
use agent_infra_system.Run.Caches.{cleanup_run_scoped_caches}
use agent_infra_system.Run.Park.{transition_forbidden}

-- The state to go to: valid, allowed from the current one, and with both hashes given.
unfoldable pub validate_next_state : State → AdvanceRunRequest → Result State
validate_next_state state req = elim (parse_next_state req.next_state) [
  | none ↦ err (kernel_err 422 "RUN_INPUT_INVALID" "invalid next_state" ("invalid_next_state" ∷ []))
  | some next ↦
      if not (is_allowed_transition state next)
      then err transition_forbidden
      else if is_blank req.input_hash || is_blank req.output_hash
      then err (
          kernel_err 422 "RUN_INPUT_INVALID" "input_hash/output_hash required"
            ("hash_input_missing" ∷ []))
      else ok next
]

unfoldable pub normal_step : RunView → String → AdvanceRunRequest → String → Time → StepIntegrity
normal_step v run_id req step_hash now = record {
  run_id = run_id;
  step_id = req.step_id;
  step_seq_id = req.incoming_step_seq_id;
  step_type = StepType.normal;
  synthetic_type = "";
  integrity_chain_version = v.integrity_chain_version;
  previous_step_hash = v.last_step_hash;
  decision_hash = req.decision_ref.decision_hash;
  input_hash = req.input_hash;
  output_hash = req.output_hash;
  step_hash = step_hash;
  created_at = now;
}

-- The run after an advance to `state`, whose chain now ends in `step_hash`.
unfoldable pub advanced_instance :
    State → AdvanceRunRequest → String → Time → RunInstance → RunInstance
advanced_instance state req step_hash now r =
    let v : RunView = anchor_by_state state step_hash (record r.view {
      state = state;
      active_step_id = req.step_id;
      state_version = int64_succ r.view.state_version;
      current_step_seq_id = req.incoming_step_seq_id;
      last_step_hash = step_hash;
      updated_at = now;
      last_progress_at = now;
      terminal_reason = "";
      terminal_source = "";
    }) in
    record r {
      view =
          if is_terminal_state state
          then record v { terminal_reason = "advance_terminal_state"; terminal_source = "advance" }
          else v;
      no_progress_scans = 0;
    }

unfoldable pub advance_response : RunView → String → AdvanceRunResponse
advance_response v step_hash = record {
  new_state = v.state;
  next_action = next_action_by_state v.state;
  state_version = v.state_version;
  step_hash = step_hash;
  run_integrity_root = v.run_integrity_root;
  run_integrity_root_version = v.run_integrity_root_version;
  integrity_root_type = v.integrity_root_type;
  current_step_seq_id = v.current_step_seq_id;
}

advanced_payload :
    State → AdvanceRunRequest → DecisionReference → String → RunView → List (String × Value)
advanced_payload state req ref step_hash v =
    ("new_state", Value.text (show_state state))
    ∷ ("state_version", Value.int v.state_version)
    ∷ ("step_seq_id", Value.int req.incoming_step_seq_id)
    ∷ ("step_hash", Value.text step_hash)
    ∷ ("decision_id", Value.text req.decision_ref.decision_id)
    ∷ ("decision_hash", Value.text req.decision_ref.decision_hash)
    ∷ ("decision_hash_kind", Value.text ref.hash_kind)
    ∷ []

unfoldable pub idempotency_key : String → AdvanceRunRequest → String
idempotency_key run_id req =
    run_id ++ "|" ++ req.step_id ++ "|" ++ req.step_version ++ "|" ++ req.idempotency_key

module _ ⦃platform : Platform⦄ where
  unfoldable pub step_hash_of : String → AdvanceRunRequest → Option String
  step_hash_of prev req = checked_hash (
      Json.object (
        ("previous_step_hash", Value.text prev)
        ∷ ("decision_hash", Value.text req.decision_ref.decision_hash)
        ∷ ("input_hash", Value.text req.input_hash)
        ∷ ("output_hash", Value.text req.output_hash)
        ∷ []))

  unfoldable pub advance_commit :
      String
      → AdvanceRunRequest
      → DecisionReference
      → Time
      → RunInstance
      → State
      → String
      → Kernel
      → Kernel × Result AdvanceRunResponse
  unfolding advanced_payload
  advance_commit run_id req ref now r next step_hash k =
      let r' = advanced_instance next req step_hash now r in
      let k1 =
        emit "run.advanced" run_id req.step_id (advanced_payload next req ref step_hash r'.view) now
          (put_run run_id r'
            (append_step run_id (normal_step r.view run_id req step_hash now) k)) in
      let resp = advance_response r'.view step_hash in
      let k2 : Kernel = record k1 {
        idempotency =
            insert (idempotency_key run_id req)
              (record { run_id = run_id; response = resp; created_at = now; last_access_at = now })
              k1.idempotency;
      } in
      (if is_terminal_state next then cleanup_run_scoped_caches run_id k2 else k2, ok resp)

  unfoldable pub advance_step :
      String
      → AdvanceRunRequest
      → DecisionReference
      → Time
      → RunInstance
      → Kernel
      → Kernel × Result AdvanceRunResponse
  advance_step run_id req ref now r k = elim (validate_next_state r.view.state req) [
    | err e ↦ (k, err e)
    | ok next ↦ elim (step_hash_of r.view.last_step_hash req) [
      | none ↦ (
        emit "run_hash_generation_failed" run_id req.step_id
            (("target", Value.text "step_hash") ∷ []) now (put_run run_id (hold now r) k),
        err (hash_generation_failed "failed to hash step integrity"),
      )
      | some step_hash ↦ advance_commit run_id req ref now r next step_hash k
    ]
  ]
