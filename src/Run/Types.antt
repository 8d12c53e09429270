-- ===== src/Run/Types.antt =====
-- The records of internal/run/types.go, and the kernel's own of internal/run/kernel.go.
use agent_infra_system.Base.{ℕ, String, Bool, Option, List}
use agent_infra_system.Base.Int.{ℤ}
use agent_infra_system.Base.Dict.{Dict}
use agent_infra_system.Base.Time.{Time, Duration}
use agent_infra_system.Platform.{Json}
use agent_infra_system.Run.States.{State, TokenType, RootType, StepType, Risk, ContinuationStatus}

pub record KernelError : Type 0 where
  pub status_code : ℕ
  pub code : String
  pub message : String
  pub reason_codes : List String

-- What a Go function answers that returns a value and an error.
pub data Result {ℓ} (A : Type ℓ) : Type ℓ where
  ok : A → Result A
  err : KernelError → Result A

abbrev pub kernel_err : ℕ → String → String → List String → KernelError
kernel_err status code msg reasons = record {
  status_code = status;
  code = code;
  message = msg;
  reason_codes = reasons;
}

pub record DecisionObligation : Type 0 where
  pub type : String
  pub target : String
  pub value : String
  pub phase : String
  pub strictness : ℤ

pub record DecisionReference : Type 0 where
  pub decision_id : String
  pub run_id : String
  pub step_id : String
  pub attempt_index : ℤ
  pub phase : String
  pub decision : String
  pub obligations : List DecisionObligation
  pub decision_hash : String
  pub hash_valid : Bool
  pub hash_kind : String

-- The answers of the decision kernel during one call. Resources are keyed float64 bit patterns.
pub record DecisionPort : Type 0 where
  pub is_decision_confirmed_with_owner : String → String → String → ℤ → String → Bool
  pub get_decision_reference : String → Option DecisionReference
  pub validate_execution_receipt_for_run :
      String → String → String → String → List (String × ℕ) → Time → Bool × List String

pub record Config : Type 0 where
  pub continuation_ttl : Duration
  pub continuation_retention : Duration
  pub idempotency_ttl : Duration
  pub run_retention : Duration
  pub create_request_retention : Duration
  pub outbox_max_events : ℤ
  pub outbox_retention : Duration
  pub run_max_lifetime : Dict Duration
  pub zombie_no_progress_window : Duration
  pub sweep_batch_limit : ℤ

pub record SnapshotInput : Type 0 where
  pub policy_bundle_id : String
  pub model_profile_id : String
  pub dependency_bundle_id : String
  pub skill_bundle_set_hash : String
  pub context_policy_space_hash : String

pub record CreateRunRequest : Type 0 where
  pub request_id : String
  pub tenant_id : String
  pub workflow_id : String
  pub workflow_version : String
  pub risk_tier : String
  pub input_payload_ref : String
  pub snapshot : SnapshotInput

pub record CreateRunResponse : Type 0 where
  pub run_id : String
  pub snapshot_hash : String
  pub context_policy_space_hash : String
  pub initial_state : State
  pub created_at : Time

pub record DecisionRef : Type 0 where
  pub decision_id : String
  pub decision_hash : String
  pub decision_hash_kind : String

pub record AdvanceRunRequest : Type 0 where
  pub expected_state_version : ℤ
  pub step_id : String
  pub step_version : String
  pub idempotency_key : String
  pub decision_ref : DecisionRef
  pub execution_receipt_ref : String
  pub execution_used_resources : List (String × ℕ)
  pub execution_receipt_at : Time
  pub incoming_step_seq_id : ℤ
  pub input_hash : String
  pub output_hash : String
  pub next_state : String

pub record AdvanceRunResponse : Type 0 where
  pub new_state : State
  pub next_action : String
  pub state_version : ℤ
  pub step_hash : String
  pub run_integrity_root : String
  pub run_integrity_root_version : ℤ
  pub integrity_root_type : Option RootType
  pub current_step_seq_id : ℤ

pub record ParkRunRequest : Type 0 where
  pub expected_state_version : ℤ
  pub step_id : String
  pub incoming_step_seq_id : ℤ
  pub token_type : String
  pub park_reason : String
  pub ttl_seconds : ℤ

pub record ParkRunResponse : Type 0 where
  pub run_id : String
  pub new_state : State
  pub state_version : ℤ
  pub continuation_token : String
  pub continuation_type : TokenType
  pub expires_at : Time
  pub partial_integrity_root : String

pub record ResumeRunRequest : Type 0 where
  pub continuation_token : String
  pub resume_reason : String
  pub receipt_ref : String
  pub incoming_step_seq_id : ℤ
  pub expected_snapshot_hash : String

pub record ResumeRunResponse : Type 0 where
  pub resume_status : String
  pub new_state : State
  pub state_version : ℤ

pub record RunSnapshot : Type 0 where
  pub policy_bundle_id : String
  pub model_profile_id : String
  pub dependency_bundle_id : String
  pub skill_bundle_set_hash : String
  pub context_policy_space_hash : String
  pub snapshot_hash : String
  pub created_at : Time

pub record RootAnchors : Type 0 where
  pub completed_root : String
  pub partial_root : String
  pub reconciled_root : String
  pub review_hold_root : String
  pub aborted_root : String

pub record RunView : Type 0 where
  pub run_id : String
  pub tenant_id : String
  pub workflow_id : String
  pub workflow_version : String
  pub state : State
  pub active_step_id : String
  pub state_version : ℤ
  pub risk_tier : Risk
  pub integrity_chain_version : String
  pub last_step_hash : String
  pub run_integrity_root : String
  pub run_integrity_root_version : ℤ
  pub integrity_root_type : Option RootType
  pub terminal_reason : String
  pub terminal_source : String
  pub attached_tags : Dict String
  pub current_step_seq_id : ℤ
  pub created_at : Time
  pub updated_at : Time
  pub last_progress_at : Time
  pub snapshot : RunSnapshot
  pub root_anchors : RootAnchors

pub record StepIntegrity : Type 0 where
  pub run_id : String
  pub step_id : String
  pub step_seq_id : ℤ
  pub step_type : StepType
  pub synthetic_type : String
  pub integrity_chain_version : String
  pub previous_step_hash : String
  pub decision_hash : String
  pub input_hash : String
  pub output_hash : String
  pub step_hash : String
  pub created_at : Time

pub record Continuation : Type 0 where
  pub continuation_id : String
  pub run_id : String
  pub step_id : String
  pub step_seq_id : ℤ
  pub token_type : TokenType
  pub token_hash : String
  pub expires_at : Time
  pub status : ContinuationStatus
  pub created_at : Time
  pub consumed_at : Option Time

pub record KernelEvent : Type 0 where
  pub event_id : String
  pub event_type : String
  pub schema_version : ℕ
  pub source_component : String
  pub evidence_grade : String
  pub payload_integrity_required : Bool
  pub run_id : String
  pub step_id : String
  pub event_ts : Time
  pub payload_ref : String
  pub payload_hash : String
  pub payload_hash_valid : Bool
  pub payload : Json

pub record SweepResult : Type 0 where
  pub scanned : ℕ
  pub force_abort_count : ℕ
  pub force_review_required_count : ℕ
  pub zombie_terminated_count : ℕ
  pub skipped_integrity_errors : ℕ
  pub deleted_continuations : ℕ
  pub deleted_idempotency : ℕ
  pub deleted_runs : ℕ
  pub deleted_create_requests : ℕ
  pub outbox_trimmed : ℕ

pub record RunInstance : Type 0 where
  pub view : RunView
  pub max_lifetime : Duration
  pub security_risk : Bool
  pub resource_risk : Bool
  pub no_progress_scans : ℕ

pub record IdempotencyEntry : Type 0 where
  pub run_id : String
  pub response : AdvanceRunResponse
  pub created_at : Time
  pub last_access_at : Time

pub record CreateRunEntry : Type 0 where
  pub run_id : String
  pub request_hash : String
  pub response : CreateRunResponse
  pub created_at : Time
  pub last_access_at : Time

-- `mu` is the lock: each operation is one step of the model. Counters are uint64.
pub record Kernel : Type 0 where
  pub cfg : Config
  pub decision_port : Option DecisionPort
  pub runs : Dict RunInstance
  pub continuations : Dict Continuation
  pub idempotency : Dict IdempotencyEntry
  pub create_runs : Dict CreateRunEntry
  pub step_integrity : Dict (List StepIntegrity)
  pub outbox : List KernelEvent
  pub event_seq : ℕ
  pub run_seq : ℕ
  pub outbox_trimmed : ℕ
  pub create_run_conflict_total : ℕ
  pub create_run_reuse_total : ℕ
