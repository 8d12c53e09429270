-- ===== src/Decision/Approvals.antt =====
-- The approval cases of internal/decision/service.go: how one is made. Its child modules say how it is
-- resolved, what its outcome does to the pending decision, and how the run is told.
pub mod Outcome
pub mod Decide
pub mod Told
pub mod Swept
use Prim.Native.String.{◌++◌, slice}
use mathlib.Core.List.{◌++◌ as append}
use agent_infra_system.Base.{
  ℕ, ◌+◌, String, Bool, true, false, not, ◌&&◌, ◌||◌, Option, none, some, List, [], ◌∷◌, ◌==◌,
  if◌then◌else◌,
}
use agent_infra_system.Base.Int.{ℤ, pos, leb_ℤ, u64}
use agent_infra_system.Base.Dict.{Dict, lookup, insert}
use agent_infra_system.Base.Text.{trim_space, to_lower, is_blank, translate_all, show_decimal}
use agent_infra_system.Base.Time.{Time, Duration, add, sub, is_zero, minutes, milliseconds}
use agent_infra_system.Platform.{Platform, Value}
use agent_infra_system.Decision.Statuses.{
  PendingStatus, show_pending, is_pending, is_confirmed, ApprovalStatus, show_approval, is_approved,
  approval_case_mutable, approval_outcome_to_pending_status,
  approval_outcome_requires_run_unlock_signal, parse_approval_decision,
}
use agent_infra_system.Decision.Types.{
  Service, PendingDecision, ApprovalCase, ApprovalCreateRequest, ApprovalDecisionRequest,
  ApprovalDecisionResponse, ApprovalRunUnlockSignal, ApprovalRunUnlockDispatchResult, Dispatch,
}
use agent_infra_system.Decision.Events.{emit_event}
use agent_infra_system.Decision.Pending.{put_pending}

-- One part of a fallback id; the texts are ASCII.
fallback_part : String → String
fallback_part text =
    let p = to_lower (trim_space text) in
    slice (translate_all " :/" "___" (if p == "" then "na" else p)) 0 16

join_parts : List String → String
join_parts [] = ""
join_parts (p ∷ []) = p
join_parts (p ∷ q ∷ ps) = p ++ "_" ++ join_parts (q ∷ ps)

unfoldable pub fallback_id_from_strings : List String → String
unfolding fallback_part join_parts
fallback_id_from_strings parts =
    let joined = join_parts (mathlib.Core.List.map fallback_part parts) in
    if joined == "" then "na" else slice joined 0 32

-- The configured hard timeout of a risk, or 30 minutes.
unfoldable pub hard_timeout : String → Dict Duration → Duration
hard_timeout risk configured = elim (lookup risk configured) [
  | none ↦ minutes 30
  | some d ↦ if leb_ℤ d (pos 0) then minutes 30 else d
]

unfoldable pub new_case :
    String → Time → Time → Dict Duration → ApprovalCreateRequest → ApprovalCase
new_case case_id now requested_at configured req =
    let risk = to_lower (trim_space req.risk_tier) in
    record {
      case_id = case_id;
      run_id = req.run_id;
      step_id = req.step_id;
      decision_id = req.decision_id;
      decision_requested_at = requested_at;
      risk_tier = risk;
      status = ApprovalStatus.awaiting_approval;
      created_at = now;
      approval_hard_timeout = add now (hard_timeout risk configured);
      mode = req.mode;
      resolved_at = 0;
      terminal_reason = "";
    }

-- When the decision was stored; the zero time where it is not.
unfoldable pub decision_requested_at : String → Service → Time
decision_requested_at decision_id s = elim (lookup decision_id s.decisions) [
  | none ↦ 0
  | some d ↦ d.created_at
]

-- The id of the next case: what it is about, and a number from the sequence.
unfoldable pub next_case_id : ApprovalCreateRequest → ℕ → String
unfolding fallback_id_from_strings
next_case_id req seq =
    "apc_"
    ++ fallback_id_from_strings (req.run_id ∷ req.step_id ∷ req.decision_id ∷ req.mode ∷ [])
    ++ "_"
    ++ show_decimal seq

-- `approvalEffectiveLatencyBase`
unfoldable pub approval_effective_latency_base : ApprovalCase → Time
approval_effective_latency_base c =
    if not (is_zero c.decision_requested_at) then c.decision_requested_at else c.created_at

-- A case is resolved: `c.Status = ...; c.ResolvedAt = now; c.TerminalReason = ...`
unfoldable pub resolved : ApprovalStatus → String → Time → ApprovalCase → ApprovalCase
resolved status reason now c = record c {
  status = status;
  resolved_at = now;
  terminal_reason = reason;
}

unfoldable pub put_case : String → ApprovalCase → Service → Service
put_case id c s = record s { approvals = insert id c s.approvals }

module _ ⦃platform : Platform⦄ where
  -- The locked part of `CreateApprovalCase`, after the time of the decision has been read.
  unfoldable pub store_approval_case :
      ApprovalCreateRequest → Time → Time → Service → Service × ApprovalCase
  store_approval_case req requested_at now s =
      let seq = u64 (s.id_seq + 1) in
      let c =
        new_case (next_case_id req seq) now requested_at s.cfg.approval_hard_timeout_by_risk req in
      (
        emit_event "approval.case.created" req.decision_id req.run_id req.step_id
            (("case_id", Value.text c.case_id)
              ∷ ("risk", Value.text c.risk_tier)
              ∷ ("mode", Value.text req.mode)
              ∷ [])
            now (put_case c.case_id c (record s { id_seq = seq })),
        c,
      )

  -- The time of the decision is read under a lock of its own; `store_approval_case` follows.
  unfoldable pub create_approval_case :
      ApprovalCreateRequest → Time → Service → Service × ApprovalCase
  create_approval_case req now s =
      store_approval_case req (decision_requested_at req.decision_id s) now s
