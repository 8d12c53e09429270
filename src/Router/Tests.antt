-- ===== src/Router/Tests.antt =====
-- The theorems on the two kernels together, at concrete ones.
use agent_infra_system.Base.{true, ◌≡◌, refl, some, [], ◌∷◌}
use agent_infra_system.Base.Dict.{lookup, insert, erase_if}
use agent_infra_system.Base.Int.{pos, int64_succ}
use agent_infra_system.Base.Text.{is_blank, trim_space, to_lower, to_upper, show_decimal, show_int}
use agent_infra_system.Platform.{checked_hash, hash_json_with_status, is_error_hash}
use agent_infra_system.Run.States.{
  State, TokenType, RootType, show_state, show_token_type, parse_next_state, parse_state,
  normalize_state, is_allowed_transition, next_action_by_state,
}
use agent_infra_system.Run.Types.{Kernel, ok, RunInstance, AdvanceRunRequest, AdvanceRunResponse}
use agent_infra_system.Run.Outbox.{
  emit, cleanup_outbox, event_of, trim_outbox, count_expired, overflow, run_event_evidence_policy,
}
use agent_infra_system.Run.Roots.{anchor_root, anchor_by_state}
use agent_infra_system.Run.Steps.{
  append_step, step_integrities, append_synthetic_step, synthetic_step, synthetic_hash,
}
use agent_infra_system.Run.Caches.{cleanup_run_scoped_caches}
use agent_infra_system.Run.Advance.{
  advance_run, precheck_advance, advance_found, advance_fresh, advance_gated,
}
use agent_infra_system.Run.Advance.Gate.{
  decision_gate, resolve_decision, check_reference, check_receipt, is_executable_decision,
  normalize_kind,
}
use agent_infra_system.Run.Advance.Commit.{
  advance_step, validate_next_state, step_hash_of, advance_commit, advance_response,
  advanced_instance, idempotency_key, normal_step,
}
use agent_infra_system.Run.Obligations.{enforce_decision_obligations}
use agent_infra_system.Run.Setup.{find_active_continuation, is_candidate, get_run}
use agent_infra_system.Run.Resume.{
  resume_run, resume_found, resume_token, resume_commit, refuse_resume, is_consumed,
  resumed_instance,
}
use agent_infra_system.Run.Tests.Fixtures.{
  toy, holding, fresh_run, waiting_run, ticket, advance_to, noon,
}
use agent_infra_system.Decision.Types.{Service, ApprovalRunUnlockSignal, Dispatch}
use agent_infra_system.Decision.Pending.{
  is_decision_confirmed_with_owner, is_confirmed_for, build_pending_owner_key,
}
use agent_infra_system.Decision.Receipts.{
  validate_execution_receipt_for_run, extract_ticket_id_from_execution_receipt_ref,
  validate_execution_receipt, receipt_of, amount, quota_exceeded, refuse_receipt,
}
use agent_infra_system.Decision.Gate.{
  classified_ref, hash_ref_of, extract_string_field_from_map, scalar_text,
}
use agent_infra_system.Decision.Reference.{
  get_decision_reference, reference_of, decision_value, extract_obligations_from_map,
}
use agent_infra_system.Decision.Tests.Fixtures.{serving, confirmed, dispatch_ticket}
use agent_infra_system.Router.Ports.{
  decision_run_port, run_reference, run_reference_from, dispatch_run_unlock, unlock_found,
  unlock_request,
}
use agent_infra_system.Router.Crossing.{IsConfirmedBehind, advance_run-IsConfirmedBehind}
use agent_infra_system.Router.Unlock.{IsResumed, unlock-IsResumed}

-- A decision kernel that has the decision confirmed, with a ticket for the tenant of the run.
abbrev behind : Service
behind = record (serving (("d1", confirmed) ∷ []) []) {
  tickets = ("t1", record dispatch_ticket { tenant_id = "t1" }) ∷ [];
}

abbrev in_front : Kernel
in_front = record (holding fresh_run) {
  decision_port = some (decision_run_port (some behind) noon);
}

abbrev moving : AdvanceRunRequest
moving = record (advance_to "running") {
  execution_receipt_ref = "ticket://t1";
  execution_used_resources = ("tokens", 0x3ff0000000000000) ∷ [];  -- 1
  execution_receipt_at = noon;
}

abbrev moved_on : AdvanceRunResponse
moved_on = record {
  new_state = State.running;
  next_action = "continue";
  state_version = pos 2;
  step_hash = "abcdef01previous_step_hash=;decision_hash=dh;input_hash=in;output_hash=out;";
  run_integrity_root =
      "abcdef01previous_step_hash=;decision_hash=dh;input_hash=in;output_hash=out;";
  run_integrity_root_version = pos 1;
  integrity_root_type = some RootType.partial;
  current_step_seq_id = pos 1;
}

moved_kernel : Kernel
moved_kernel = (advance_run "r1" moving noon in_front).0

moving_done : advance_run "r1" moving noon in_front ≡ (moved_kernel, ok moved_on)
unfolding moved_kernel toy lookup insert is_blank trim_space to_lower to_upper checked_hash
    hash_json_with_status is_error_hash emit cleanup_outbox event_of trim_outbox count_expired
    overflow run_event_evidence_policy erase_if show_decimal int64_succ anchor_root append_step
    step_integrities show_state cleanup_run_scoped_caches advance_run precheck_advance advance_found
    advance_fresh advance_gated decision_gate resolve_decision check_reference check_receipt
    enforce_decision_obligations advance_step validate_next_state parse_next_state parse_state
    normalize_state is_allowed_transition step_hash_of advance_commit advance_response
    advanced_instance idempotency_key normal_step is_executable_decision normalize_kind
    anchor_by_state next_action_by_state decision_run_port run_reference run_reference_from
    get_decision_reference reference_of decision_value extract_obligations_from_map classified_ref
    hash_ref_of extract_string_field_from_map scalar_text is_decision_confirmed_with_owner
    is_confirmed_for build_pending_owner_key show_int validate_execution_receipt_for_run
    extract_ticket_id_from_execution_receipt_ref validate_execution_receipt receipt_of amount
    quota_exceeded refuse_receipt
moving_done = refl

advance_run-IsConfirmedBehind_example : IsConfirmedBehind "r1" "t1" moving noon behind
unfolding lookup
advance_run-IsConfirmedBehind_example =
    advance_run-IsConfirmedBehind "r1" moving noon noon fresh_run in_front moved_kernel moved_on
      behind refl refl refl moving_done

abbrev approval : ApprovalRunUnlockSignal
approval = record {
  case_id = "c1";
  run_id = "r1";
  step_id = "s1";
  decision_id = "d1";
  risk_tier = "low";
  outcome = "approved";
  pending_status = "decision_confirmed";
  attempt_index = pos 2;
  phase = "PRE_TOOL";
  owner_key = "";
  requested_at = noon;
  resolved_at = noon;
}

abbrev awaiting_run : RunInstance
awaiting_run = record waiting_run {
  view = record waiting_run.view { state = State.awaiting_approval };
}

abbrev waiting_kernel : Kernel
waiting_kernel = record (holding awaiting_run) {
  continuations = ("ct", record ticket { token_type = TokenType.approval }) ∷ [];
}

unlocked_kernel : Kernel
unlocked_kernel =
    (unlock_found approval (record ticket { token_type = TokenType.approval }) awaiting_run.view
      noon waiting_kernel).0

unlock_done : dispatch_run_unlock approval noon (some waiting_kernel) ≡ (
  some unlocked_kernel,
  Dispatch.answered (record {
    dispatch_status = "dispatched";
    business_action_unblocked = true;
    business_action_unblocked_at = noon;
    reason_codes = [];
  }),
)
unfolding unlocked_kernel toy lookup insert is_blank trim_space to_lower to_upper checked_hash
    hash_json_with_status is_error_hash emit cleanup_outbox event_of trim_outbox count_expired
    overflow run_event_evidence_policy erase_if show_decimal int64_succ anchor_root append_step
    step_integrities show_state cleanup_run_scoped_caches resume_run resume_found resume_token
    resume_commit refuse_resume is_consumed resumed_instance append_synthetic_step synthetic_step
    synthetic_hash dispatch_run_unlock unlock_found unlock_request find_active_continuation
    is_candidate agent_infra_system.Run.Setup.choose_from agent_infra_system.Run.Setup.choose
    get_run show_token_type
unlock_done = refl

unlock-IsResumed_example : IsResumed approval noon awaiting_run waiting_kernel unlocked_kernel
unfolding lookup trim_space to_lower
unlock-IsResumed_example =
    unlock-IsResumed approval noon awaiting_run waiting_kernel unlocked_kernel _ refl refl
      unlock_done
