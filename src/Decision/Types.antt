-- ===== src/Decision/Types.antt =====
-- The records of internal/decision/types.go, and the kernel's own of internal/decision/service.go.
use agent_infra_system.Base.{ℕ, String, Bool, Option, List}
use agent_infra_system.Base.Int.{ℤ}
use agent_infra_system.Base.Dict.{Dict}
use agent_infra_system.Base.Time.{Time, Duration}
use agent_infra_system.Platform.{Json}
use agent_infra_system.Decision.Statuses.{PendingStatus, ApprovalStatus}

pub record DecisionHashRef : Type 0 where
  pub value : String
  pub valid : Bool
  pub kind : String

pub record DispatchTicket : Type 0 where
  pub ticket_id : String
  pub run_id : String
  pub step_id : String
  pub tenant_id : String
  pub allowed_resources : Dict ℕ  -- float64, as bit patterns
  pub priority_class : String
  pub expires_at : Time
  pub decision_hash : String
  pub decision_hash_kind : String
  pub preemptable : Bool

pub record ExecutionReceipt : Type 0 where
  pub ticket_id : String
  pub run_id : String
  pub step_id : String
  pub tenant_id : String
  pub used_resources : Dict ℕ
  pub received_at : Time

pub record ExecutionReceiptResult : Type 0 where
  pub accepted : Bool
  pub reason_codes : List String

pub record ApprovalCase : Type 0 where
  pub case_id : String
  pub run_id : String
  pub step_id : String
  pub decision_id : String
  pub decision_requested_at : Time
  pub risk_tier : String
  pub status : ApprovalStatus
  pub created_at : Time
  pub approval_hard_timeout : Time
  pub mode : String
  pub resolved_at : Time
  pub terminal_reason : String

pub record ApprovalCreateRequest : Type 0 where
  pub run_id : String
  pub step_id : String
  pub decision_id : String
  pub risk_tier : String
  pub mode : String

pub record ApprovalDecisionRequest : Type 0 where
  pub decision : String

pub record ApprovalDecisionResponse : Type 0 where
  pub case_id : String
  pub status : String
  pub pending_status : String
  pub run_unlock_status : String
  pub approval_effective_latency_ms : ℤ
  pub reason_codes : List String

pub record ApprovalRunUnlockSignal : Type 0 where
  pub case_id : String
  pub run_id : String
  pub step_id : String
  pub decision_id : String
  pub risk_tier : String
  pub outcome : String
  pub pending_status : String
  pub attempt_index : ℤ
  pub phase : String
  pub owner_key : String
  pub requested_at : Time
  pub resolved_at : Time

pub record ApprovalRunUnlockDispatchResult : Type 0 where
  pub dispatch_status : String
  pub business_action_unblocked : Bool
  pub business_action_unblocked_at : Time
  pub reason_codes : List String

-- What the port answers: a result, or the text of its error.
pub data Dispatch : Type 0 where
  answered : ApprovalRunUnlockDispatchResult → Dispatch
  failed : String → Dispatch

abbrev pub ApprovalRunUnlockPort : Type 0
ApprovalRunUnlockPort = ApprovalRunUnlockSignal → Dispatch

pub record RunStateReference : Type 0 where
  pub run_id : String
  pub state : String
  pub state_version : ℤ
  pub updated_at : Time

abbrev pub RunStatePort : Type 0
RunStatePort = String → Option RunStateReference

pub record PendingDecision : Type 0 where
  pub decision_id : String
  pub run_id : String
  pub step_id : String
  pub risk_tier : String
  pub attempt_index : ℤ
  pub phase : String
  pub owner_key : String
  pub created_at : Time
  pub last_updated_at : Time
  pub repair_attempts : ℕ
  pub status : PendingStatus

pub record PendingOwnerMeta : Type 0 where
  pub attempt_index : ℤ
  pub phase : String

pub record ConfirmRunAdvanceRequest : Type 0 where
  pub decision_id : String
  pub run_id : String
  pub step_id : String
  pub attempt_index : ℤ
  pub phase : String
  pub owner_key : String
  pub success : Bool

pub record ConfirmRunAdvanceResponse : Type 0 where
  pub status : String
  pub reason_codes : List String

pub record PendingRepairResult : Type 0 where
  pub scanned : ℕ
  pub repaired : ℕ
  pub safeguard_hold : ℕ
  pub escalated : ℕ
  pub reason_codes : List String

pub record SideEffectGateRequest : Type 0 where
  pub decision_id : String
  pub run_id : String
  pub step_id : String
  pub tenant_id : String
  pub execution_receipt_ref : String
  pub execution_used_resources : Dict ℕ
  pub execution_receipt_at : Time

pub record Event : Type 0 where
  pub event_id : String
  pub event_type : String
  pub schema_version : ℕ
  pub source_component : String
  pub evidence_grade : String
  pub payload_integrity_required : Bool
  pub decision_id : String
  pub run_id : String
  pub step_id : String
  pub event_ts : Time
  pub payload_ref : String
  pub payload_hash : String
  pub payload_hash_valid : Bool
  pub payload : Json

-- A value of a decoded JSON object: a string; a `json.Number` by its text and the int that its `Int64`
-- gives, else its `Float64`, else 0; a null; another value by the text that `%v` prints of it.
pub data Scalar : Type 0 where
  text : String → Scalar
  number : String → ℤ → Scalar
  null : Scalar
  other : String → Scalar

-- A list is given by the text that `%v` prints of it and by the objects among its elements.
pub data Field : Type 0 where
  scalar : Scalar → Field
  items : String → List (Dict Scalar) → Field

pub record Obligation : Type 0 where
  pub type : String
  pub target : String
  pub value : String
  pub phase : String
  pub strictness : ℤ

-- `DecisionReference` of internal/decision
pub record StoredReference : Type 0 where
  pub decision_id : String
  pub run_id : String
  pub step_id : String
  pub attempt_index : ℤ
  pub phase : String
  pub decision : String
  pub obligations : List Obligation
  pub decision_hash_ref : DecisionHashRef

pub record StoredDecision : Type 0 where
  pub decision_id : String
  pub decision_type : String
  pub decision_key : String
  pub version : ℤ
  pub decision_hash : String
  pub decision_hash_is_fallback : Bool
  pub decision_hash_ref : DecisionHashRef
  pub run_id : String
  pub step_id : String
  pub attempt_index : ℤ
  pub phase : String
  pub created_at : Time
  pub request : Dict Field
  pub response : Dict Field
  pub request_raw : String
  pub response_raw : String

pub record TerminalizePendingDecisionRequest : Type 0 where
  pub decision_id : String
  pub status : String
  pub reason : String
  pub actor : String

pub record TerminalizePendingDecisionResponse : Type 0 where
  pub status : String
  pub reason_codes : List String

pub record SoftFailureState : Type 0 where
  pub retry_count : ℤ
  pub last_evidence : String
  pub first_reason : String
  pub last_reason : String
  pub last_attempt_index : ℤ
  pub last_updated_at : Time

pub record CleanupResult : Type 0 where
  pub deleted_tickets : ℕ
  pub deleted_pending : ℕ
  pub deleted_approvals : ℕ
  pub deleted_decisions : ℕ
  pub deleted_soft_fails : ℕ
  pub outbox_trimmed : ℕ

-- `Config`, in the fields that the modelled operations read.
pub record ServiceConfig : Type 0 where
  pub pending_decision_ttl : Duration
  pub pending_repair_worker_id : String
  pub ticket_ttl : Duration
  pub approval_hard_timeout_by_risk : Dict Duration
  pub outbox_max_events : ℤ
  pub outbox_retention : Duration
  pub cleanup_time_source : String
  pub ticket_retention : Duration
  pub pending_retention : Duration
  pub approval_retention : Duration
  pub decision_retention : Duration
  pub decision_max_history_versions : ℤ

-- `Service`, without the feature, contract and metric maps of the control plane.
pub record Service : Type 0 where
  pub cfg : ServiceConfig
  pub approval_run_unlock_port : Option ApprovalRunUnlockPort
  pub run_state_port : Option RunStatePort
  pub decisions : Dict StoredDecision
  pub decision_history : Dict (List StoredDecision)
  pub pending : Dict PendingDecision
  pub tickets : Dict DispatchTicket
  pub approvals : Dict ApprovalCase
  pub outbox : List Event
  pub max_observed_event_ts : Time
  pub soft_failures : Dict SoftFailureState
  pub event_seq : ℕ
  pub id_seq : ℕ
  pub outbox_trimmed_total : ℕ
