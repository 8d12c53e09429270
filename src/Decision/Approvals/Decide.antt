-- ===== src/Decision/Approvals/Decide.antt =====
-- `DecideApprovalCase` and `SweepApprovalHardTimeouts` of internal/decision/service.go. Each resolves
-- cases under the lock of the approvals, and settles them after it.
use agent_infra_system.Base.{
  ℕ, String, Bool, not, ◌&&◌, none, some, List, [], ◌∷◌, if◌then◌else◌, length, ltb,
}
use agent_infra_system.Base.Int.{pos}
use agent_infra_system.Base.Dict.{Dict, lookup}
use agent_infra_system.Base.Text.{trim_space, to_lower}
use agent_infra_system.Base.Time.{Time}
use agent_infra_system.Platform.{Platform, Value}
use agent_infra_system.Decision.Statuses.{
  show_approval, approval_case_mutable, parse_approval_decision, timeout_status,
}
use agent_infra_system.Decision.Types.{
  Service, ApprovalCase, ApprovalDecisionRequest, ApprovalDecisionResponse,
}
use agent_infra_system.Decision.Events.{emit_event}
use agent_infra_system.Decision.Approvals.{resolved, put_case}
use agent_infra_system.Decision.Approvals.Outcome.{Settled, settle_case}

module _ ⦃platform : Platform⦄ where
  unfoldable pub emit_decided : String → ApprovalCase → Settled → Time → Service → Service
  emit_decided case_id c settled now s =
      emit_event "approval.case.decided" c.decision_id c.run_id c.step_id
        (("case_id", Value.text case_id)
          ∷ ("status", Value.text (show_approval c.status))
          ∷ ("pending_status", Value.text settled.pending_status)
          ∷ ("run_unlock_status", Value.text settled.run_unlock_status)
          ∷ ("approval_effective_latency_ms", Value.int settled.effective_latency_ms)
          ∷ ("business_action_unblocked_ts", Value.time settled.unblocked_at)
          ∷ [])
        now s

  unfoldable pub decide_resolved :
      String → ApprovalCase → Time → Service → Service × ApprovalDecisionResponse
  decide_resolved case_id c now s =
      let (s1, settled) = settle_case c now s in
      (
        emit_decided case_id c settled now s1,
        record {
          case_id = case_id;
          status = show_approval c.status;
          pending_status = settled.pending_status;
          run_unlock_status = settled.run_unlock_status;
          approval_effective_latency_ms = settled.effective_latency_ms;
          reason_codes = settled.reason_codes;
        },
      )

  decision_answer : String → String → String → ApprovalDecisionResponse
  decision_answer case_id status reason = record {
    case_id = case_id;
    status = status;
    pending_status = "";
    run_unlock_status = "";
    approval_effective_latency_ms = pos 0;
    reason_codes = reason ∷ [];
  }

  unfoldable pub decide_approval_case :
      String → ApprovalDecisionRequest → Time → Service → Service × ApprovalDecisionResponse
  unfolding decision_answer
  decide_approval_case case_id req now s =
      elim (parse_approval_decision (to_lower (trim_space req.decision))) [
        | none ↦ (s, decision_answer case_id "" "invalid_approval_decision")
        | some status ↦ elim (lookup case_id s.approvals) [
          | none ↦ (s, decision_answer case_id "not_found" "approval_case_not_found")
          | some c ↦
              if not (approval_case_mutable c.status)
              then (
                s,
                decision_answer case_id (show_approval c.status) "approval_case_terminal_immutable",
              )
              else let c1 = resolved status "manual_decision" now c in
                decide_resolved case_id c1 now (put_case case_id c1 s)
        ]
      ]

-- A case that waits and has reached its hard timeout.
unfoldable pub is_overdue : Time → ApprovalCase → Bool
is_overdue now c = approval_case_mutable c.status && not (ltb now c.approval_hard_timeout)

unfoldable pub timed_out : Time → ApprovalCase → ApprovalCase
timed_out now c = resolved (timeout_status c.risk_tier) "hard_timeout" now c

-- The loop under the lock: the map with the overdue cases resolved, and those cases.
unfoldable pub time_out_cases : Time → Dict ApprovalCase → Dict ApprovalCase × List ApprovalCase
time_out_cases now [] = ([], [])
time_out_cases now ((id, c) ∷ rest) =
    let (kept, due) = time_out_cases now rest in
    if is_overdue now c
    then ((id, timed_out now c) ∷ kept, timed_out now c ∷ due)
    else ((id, c) ∷ kept, due)

module _ ⦃platform : Platform⦄ where
  unfoldable pub emit_timeout : ApprovalCase → Settled → Time → Service → Service
  emit_timeout c settled now s =
      emit_event "approval_hard_timeout_event" c.decision_id c.run_id c.step_id
        (("case_id", Value.text c.case_id)
          ∷ ("new_status", Value.text (show_approval c.status))
          ∷ ("risk_tier", Value.text c.risk_tier)
          ∷ ("pending_status", Value.text settled.pending_status)
          ∷ ("run_unlock_status", Value.text settled.run_unlock_status)
          ∷ ("reason_codes", Value.texts settled.reason_codes)
          ∷ ("approval_effective_latency_ms", Value.int settled.effective_latency_ms)
          ∷ ("business_action_unblocked_ts", Value.time settled.unblocked_at)
          ∷ [])
        now s

  unfoldable pub settle_timeout : Time → ApprovalCase → Service → Service
  settle_timeout now c s = let (s1, settled) = settle_case c now s in emit_timeout c settled now s1

  -- The loop after the lock.
  unfoldable pub settle_timeouts : Time → List ApprovalCase → Service → Service
  settle_timeouts now [] s = s
  settle_timeouts now (c ∷ cs) s = settle_timeouts now cs (settle_timeout now c s)

  unfoldable pub sweep_approval_hard_timeouts : Time → Service → Service × ℕ
  sweep_approval_hard_timeouts now s =
      let (kept, due) = time_out_cases now s.approvals in
      (settle_timeouts now due (record s { approvals = kept }), length due)
