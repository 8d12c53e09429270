-- ===== src/Decision/Statuses.antt =====
-- The statuses of pending decisions and of approval cases in internal/decision/service.go, which the
-- code keeps as texts and sets to these constants only.
use agent_infra_system.Base.{String, Bool, true, false, Option, none, some, ◌==◌, if◌then◌else◌}

pub data PendingStatus : Type 0 where
  pending : PendingStatus
  confirmed : PendingStatus
  safeguard_hold : PendingStatus
  escalated_oncall : PendingStatus
  manually_closed : PendingStatus

abbrev pub show_pending : PendingStatus → String
show_pending PendingStatus.pending = "pending_decision"
show_pending PendingStatus.confirmed = "decision_confirmed"
show_pending PendingStatus.safeguard_hold = "safeguard_hold"
show_pending PendingStatus.escalated_oncall = "escalated_oncall"
show_pending PendingStatus.manually_closed = "manually_closed"

abbrev pub is_pending : PendingStatus → Bool
is_pending PendingStatus.pending = true
is_pending _ = false

abbrev pub is_confirmed : PendingStatus → Bool
is_confirmed PendingStatus.confirmed = true
is_confirmed _ = false

-- The target that `TerminalizePendingDecision` accepts.
unfoldable pub parse_terminal_status : String → Option PendingStatus
parse_terminal_status s =
    if s == "safeguard_hold"
    then some PendingStatus.safeguard_hold
    else if s == "escalated_oncall"
    then some PendingStatus.escalated_oncall
    else if s == "manually_closed"
    then some PendingStatus.manually_closed
    else none

-- `==` on statuses
abbrev pub same_status : PendingStatus → PendingStatus → Bool
same_status a b = show_pending a == show_pending b

pub data ApprovalStatus : Type 0 where
  awaiting_approval : ApprovalStatus
  approved : ApprovalStatus
  denied : ApprovalStatus
  auto_deny : ApprovalStatus
  force_review_queue : ApprovalStatus
  fail_closed : ApprovalStatus

abbrev pub show_approval : ApprovalStatus → String
show_approval ApprovalStatus.awaiting_approval = "awaiting_approval"
show_approval ApprovalStatus.approved = "approved"
show_approval ApprovalStatus.denied = "denied"
show_approval ApprovalStatus.auto_deny = "auto_deny"
show_approval ApprovalStatus.force_review_queue = "force_review_queue"
show_approval ApprovalStatus.fail_closed = "fail_closed"

abbrev pub approval_case_mutable : ApprovalStatus → Bool
approval_case_mutable ApprovalStatus.awaiting_approval = true
approval_case_mutable _ = false

abbrev pub is_approved : ApprovalStatus → Bool
is_approved ApprovalStatus.approved = true
is_approved _ = false

abbrev pub approval_outcome_to_pending_status : ApprovalStatus → Option PendingStatus
approval_outcome_to_pending_status ApprovalStatus.awaiting_approval = none
approval_outcome_to_pending_status ApprovalStatus.approved = some PendingStatus.confirmed
approval_outcome_to_pending_status ApprovalStatus.force_review_queue =
    some PendingStatus.safeguard_hold
approval_outcome_to_pending_status ApprovalStatus.denied = some PendingStatus.manually_closed
approval_outcome_to_pending_status ApprovalStatus.auto_deny = some PendingStatus.manually_closed
approval_outcome_to_pending_status ApprovalStatus.fail_closed = some PendingStatus.manually_closed

abbrev pub approval_outcome_requires_run_unlock_signal : ApprovalStatus → Bool
approval_outcome_requires_run_unlock_signal ApprovalStatus.awaiting_approval = false
approval_outcome_requires_run_unlock_signal _ = true

-- The status that the hard timeout of a case of this risk imposes.
unfoldable pub timeout_status : String → ApprovalStatus
timeout_status risk =
    if risk == "low"
    then ApprovalStatus.auto_deny
    else if risk == "medium"
    then ApprovalStatus.force_review_queue
    else ApprovalStatus.fail_closed

-- The status that a manual decision asks for.
unfoldable pub parse_approval_decision : String → Option ApprovalStatus
parse_approval_decision d =
    if d == "approve"
    then some ApprovalStatus.approved
    else if d == "deny"
    then some ApprovalStatus.denied
    else none
