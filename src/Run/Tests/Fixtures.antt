-- ===== src/Run/Tests/Fixtures.antt =====
-- A platform, a decision port and requests that run: the parameters of the model as concrete
-- functions. The toy digest is the text itself behind a prefix of eight characters.
use Prim.Native.String.{◌++◌}
use agent_infra_system.Base.{
  ◌+◌, String, true, false, Option, none, some, List, [], ◌∷◌, if◌then◌else◌, ◌==◌,
}
use agent_infra_system.Base.Int.{pos}
use agent_infra_system.Base.Time.{Time}
use agent_infra_system.Platform.{Platform, Value, Json}
use agent_infra_system.Run.States.{State, Risk, TokenType, ContinuationStatus}
use agent_infra_system.Run.Types.{
  Kernel, Config, DecisionPort, DecisionReference, CreateRunRequest, AdvanceRunRequest,
  ParkRunRequest, ResumeRunRequest, DecisionObligation, RunInstance, Continuation,
}
use agent_infra_system.Run.Setup.{new_kernel}

value_text : Value → String
value_text (Value.text s) = s
value_text _ = "?"

object_text : List (String × Value) → String
unfolding value_text
object_text [] = ""
object_text ((k, v) ∷ rest) = k ++ "=" ++ value_text v ++ ";" ++ object_text rest

toy_marshal : Json → Option String
unfolding object_text value_text
toy_marshal (Json.scalar v) = some (value_text v)
toy_marshal (Json.object l) = some (object_text l)

instance unfoldable pub toy : Platform
unfolding toy_marshal
toy = record {
  marshal = toy_marshal;
  marshal_error = λ _. "error";
  sha256_hex = λ s. "abcdef01" ++ s;
  parse_url = λ s. none;
}

abbrev pub zero_config : Config
zero_config = record {
  continuation_ttl = pos 0;
  continuation_retention = pos 0;
  idempotency_ttl = pos 0;
  run_retention = pos 0;
  create_request_retention = pos 0;
  outbox_max_events = pos 0;
  outbox_retention = pos 0;
  run_max_lifetime = [];
  zombie_no_progress_window = pos 0;
  sweep_batch_limit = pos 0;
}

abbrev pub allowing : List DecisionObligation → DecisionReference
allowing obligations = record {
  decision_id = "d1";
  run_id = "";
  step_id = "";
  attempt_index = pos 0;
  phase = "";
  decision = "allow";
  obligations = obligations;
  decision_hash = "dh";
  hash_valid = true;
  hash_kind = "stable";
}

-- Knows the decision `d1`, confirms everything and accepts every receipt.
abbrev pub open_port : List DecisionObligation → DecisionPort
open_port obligations = record {
  is_decision_confirmed_with_owner = λ d r s a p. true;
  get_decision_reference = λ d. if d == "d1" then some (allowing obligations) else none;
  validate_execution_receipt_for_run = λ r s t ref used at. (true, []);
}

abbrev pub creation : CreateRunRequest
creation = record {
  request_id = "r1";
  tenant_id = "t1";
  workflow_id = "w1";
  workflow_version = "v1";
  risk_tier = " Low ";
  input_payload_ref = "";
  snapshot = record {
    policy_bundle_id = "p";
    model_profile_id = "m";
    dependency_bundle_id = "d";
    skill_bundle_set_hash = "s";
    context_policy_space_hash = "c";
  };
}

abbrev pub advance_to : String → AdvanceRunRequest
advance_to next = record {
  expected_state_version = pos 1;
  step_id = "s1";
  step_version = "v1";
  idempotency_key = "i1";
  decision_ref = record { decision_id = "d1"; decision_hash = "dh"; decision_hash_kind = "" };
  execution_receipt_ref = "";
  execution_used_resources = [];
  execution_receipt_at = 0;
  incoming_step_seq_id = pos 1;
  input_hash = "in";
  output_hash = "out";
  next_state = next;
}

abbrev pub parking : ParkRunRequest
parking = record {
  expected_state_version = pos 1;
  step_id = "s1";
  incoming_step_seq_id = pos 1;
  token_type = "approval";
  park_reason = "wait";
  ttl_seconds = pos 0;
}

abbrev pub resuming : String → ResumeRunRequest
resuming token = record {
  continuation_token = token;
  resume_reason = "done";
  receipt_ref = "";
  incoming_step_seq_id = pos 2;
  expected_snapshot_hash = "";
}

-- A time in the year 2026.
abbrev pub noon : Time
noon = 63900000000000000000

unfoldable pub empty_kernel : List DecisionObligation → Kernel
unfolding new_kernel
empty_kernel obligations = new_kernel zero_config (some (open_port obligations))

-- A running run at version 1, and kernels that hold it.
abbrev pub fresh_run : RunInstance
fresh_run = record {
  view = record {
    run_id = "r1";
    tenant_id = "t1";
    workflow_id = "w1";
    workflow_version = "v1";
    state = State.running;
    active_step_id = "";
    state_version = pos 1;
    risk_tier = Risk.low;
    integrity_chain_version = "v1";
    last_step_hash = "";
    run_integrity_root = "";
    run_integrity_root_version = pos 0;
    integrity_root_type = none;
    terminal_reason = "";
    terminal_source = "";
    attached_tags = [];
    current_step_seq_id = pos 0;
    created_at = noon;
    updated_at = noon;
    last_progress_at = noon;
    snapshot = record {
      policy_bundle_id = "p";
      model_profile_id = "m";
      dependency_bundle_id = "d";
      skill_bundle_set_hash = "s";
      context_policy_space_hash = "c";
      snapshot_hash = "sh";
      created_at = noon;
    };
    root_anchors = record {
      completed_root = "";
      partial_root = "";
      reconciled_root = "";
      review_hold_root = "";
      aborted_root = "";
    };
  };
  max_lifetime = pos 3600000000000;
  security_risk = false;
  resource_risk = false;
  no_progress_scans = 0;
}

abbrev pub waiting_run : RunInstance
waiting_run = record fresh_run {
  view = record fresh_run.view { state = State.parked; current_step_seq_id = pos 1 };
}

abbrev pub ended_run : RunInstance
ended_run = record fresh_run { view = record fresh_run.view { state = State.completed } }

abbrev pub ticket : Continuation
ticket = record {
  continuation_id = "ct";
  run_id = "r1";
  step_id = "s1";
  step_seq_id = pos 1;
  token_type = TokenType.park;
  token_hash = "th";
  expires_at = noon + 1000;
  status = ContinuationStatus.active;
  created_at = noon;
  consumed_at = none;
}

abbrev pub holding : RunInstance → Kernel
holding r = record {
  cfg = record zero_config { outbox_max_events = pos 10; continuation_ttl = pos 1000 };
  decision_port = some (open_port []);
  runs = ("r1", r) ∷ [];
  continuations = ("ct", ticket) ∷ [];
  idempotency = [];
  create_runs = [];
  step_integrity = [];
  outbox = [];
  event_seq = 0;
  run_seq = 0;
  outbox_trimmed = 0;
  create_run_conflict_total = 0;
  create_run_reuse_total = 0;
}
