-- ===== src/Decision/Tests/Fixtures.antt =====
-- Services, pending decisions and requests of the tests.
use agent_infra_system.Base.{◌+◌, true, false, some, [], ◌∷◌}
use agent_infra_system.Base.Dict.{Dict}
use agent_infra_system.Base.Int.{pos}
use agent_infra_system.Decision.Statuses.{PendingStatus, ApprovalStatus}
use agent_infra_system.Decision.Types.{
  Service, ServiceConfig, PendingDecision, PendingOwnerMeta, ApprovalCase, ConfirmRunAdvanceRequest,
  DispatchTicket, StoredDecision, SideEffectGateRequest, Field, Scalar, Dispatch,
}
use agent_infra_system.Run.Tests.Fixtures.{noon}

abbrev pub small_config : ServiceConfig
small_config = record {
  pending_decision_ttl = pos 100;
  pending_repair_worker_id = "w";
  ticket_ttl = pos 1000;
  approval_hard_timeout_by_risk = [];
  outbox_max_events = pos 10;
  outbox_retention = pos 1000000;
  cleanup_time_source = "wall_clock";
  ticket_retention = pos 1000;
  pending_retention = pos 1000;
  approval_retention = pos 1000;
  decision_retention = pos 1000;
  decision_max_history_versions = pos 2;
}

-- A decision that is pending for run r1, step s1.
abbrev pub waiting : PendingDecision
waiting = record {
  decision_id = "d1";
  run_id = "r1";
  step_id = "s1";
  risk_tier = "low";
  attempt_index = pos 2;
  phase = "PRE_TOOL";
  owner_key = "r1|s1|2|pre_tool";
  created_at = noon;
  last_updated_at = noon;
  repair_attempts = 0;
  status = PendingStatus.pending;
}

abbrev pub confirmed : PendingDecision
confirmed = record waiting { status = PendingStatus.confirmed }

abbrev pub review : ApprovalCase
review = record {
  case_id = "c1";
  run_id = "r1";
  step_id = "s1";
  decision_id = "d1";
  decision_requested_at = 0;
  risk_tier = "low";
  status = ApprovalStatus.awaiting_approval;
  created_at = noon;
  approval_hard_timeout = noon + 50;
  mode = "single";
  resolved_at = 0;
  terminal_reason = "";
}

abbrev pub dispatch_ticket : DispatchTicket
dispatch_ticket = record {
  ticket_id = "t1";
  run_id = "r1";
  step_id = "s1";
  tenant_id = "n1";
  allowed_resources = ("tokens", 0x4004000000000000) ∷ [];  -- 2.5
  priority_class = "";
  expires_at = noon + 1000;
  decision_hash = "dh";
  decision_hash_kind = "stable";
  preemptable = false;
}

abbrev pub stored : StoredDecision
stored = record {
  decision_id = "d1";
  decision_type = "runtime";
  decision_key = "k";
  version = pos 1;
  decision_hash = "dh";
  decision_hash_is_fallback = false;
  decision_hash_ref = record { value = "dh"; valid = true; kind = "stable" };
  run_id = "r1";
  step_id = "s1";
  attempt_index = pos 2;
  phase = "PRE_TOOL";
  created_at = noon;
  request = [];
  response = ("decision", Field.scalar (Scalar.text "allow")) ∷ [];
  request_raw = "";
  response_raw = "";
}

abbrev pub serving : Dict PendingDecision → Dict ApprovalCase → Service
serving pending approvals = record {
  cfg = small_config;
  approval_run_unlock_port = some (λ signal. Dispatch.answered (record {
    dispatch_status = "";
    business_action_unblocked = true;
    business_action_unblocked_at = noon;
    reason_codes = [];
  }));
  run_state_port = some (λ run_id.
      some
        (record { run_id = run_id; state = "running"; state_version = pos 1; updated_at = noon }));
  decisions = ("d1", stored) ∷ [];
  decision_history = ("d1", stored ∷ []) ∷ [];
  pending = pending;
  tickets = ("t1", dispatch_ticket) ∷ [];
  approvals = approvals;
  outbox = [];
  max_observed_event_ts = 0;
  soft_failures = [];
  event_seq = 0;
  id_seq = 0;
  outbox_trimmed_total = 0;
}

abbrev pub confirming : ConfirmRunAdvanceRequest
confirming = record {
  decision_id = "d1";
  run_id = "r1";
  step_id = "s1";
  attempt_index = pos 2;
  phase = "pre_tool";
  owner_key = "";
  success = true;
}

abbrev pub owner_meta : PendingOwnerMeta
owner_meta = record { attempt_index = pos 2; phase = "pre_tool" }

abbrev pub gate_request : SideEffectGateRequest
gate_request = record {
  decision_id = "d1";
  run_id = "r1";
  step_id = "s1";
  tenant_id = "n1";
  execution_receipt_ref = "ticket://t1";
  execution_used_resources = ("tokens", 0x3ff0000000000000) ∷ [];  -- 1
  execution_receipt_at = noon;
}
