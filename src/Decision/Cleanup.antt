-- ===== src/Decision/Cleanup.antt =====
-- `CleanupExpired` of internal/decision/service.go: what it deletes, and by which clock. Its four
-- phases are locked regions of their own.
use agent_infra_system.Base.{String, Bool, not, ◌&&◌, ◌||◌, ◌==◌, [], ◌∷◌, List, if◌then◌else◌}
use agent_infra_system.Base.Dict.{Dict, erase, erase_if, count_if}
use agent_infra_system.Base.Text.{trim_space, to_lower}
use agent_infra_system.Base.Time.{Time, Duration, add, after, is_zero}
use agent_infra_system.Decision.Statuses.{is_pending, approval_case_mutable}
use agent_infra_system.Decision.Types.{
  Service, PendingDecision, SoftFailureState, StoredDecision, DispatchTicket, ApprovalCase,
  CleanupResult,
}
use agent_infra_system.Decision.Events.{trim_outbox_locked}

unfoldable pub resolve_cleanup_now : Time → Service → Time
resolve_cleanup_now now s =
    if not (to_lower (trim_space s.cfg.cleanup_time_source) == "event_time")
      || is_zero s.max_observed_event_ts
    then now
    else s.max_observed_event_ts

unfoldable pub is_expired_pending : Time → Duration → String → PendingDecision → Bool
is_expired_pending now retention id p =
    not (is_pending p.status) && after now (add p.last_updated_at retention)

unfoldable pub is_expired_soft_failure : Time → Duration → String → SoftFailureState → Bool
is_expired_soft_failure now retention key st =
    is_zero st.last_updated_at || after now (add st.last_updated_at retention)

unfoldable pub is_expired_decision : Time → Duration → String → StoredDecision → Bool
is_expired_decision now retention id d = after now (add d.created_at retention)

unfoldable pub is_expired_ticket : Time → Duration → String → DispatchTicket → Bool
is_expired_ticket now retention id t = after now (add t.expires_at retention)

unfoldable pub is_expired_approval : Time → Duration → String → ApprovalCase → Bool
is_expired_approval now retention id c =
    not (approval_case_mutable c.status) && after now (add c.approval_hard_timeout retention)

-- The history goes with the decision.
unfoldable pub erase_histories :
    Time → Duration → Dict StoredDecision → Dict (List StoredDecision) → Dict (List StoredDecision)
erase_histories now retention [] histories = histories
erase_histories now retention ((id, d) ∷ rest) histories =
    erase_histories now retention rest
      (if is_expired_decision now retention id d then erase id histories else histories)

unfoldable pub cleanup_runtime : Time → Service → Service
cleanup_runtime now s = record s {
  pending = erase_if (is_expired_pending now s.cfg.pending_retention) s.pending;
  soft_failures = erase_if (is_expired_soft_failure now s.cfg.pending_retention) s.soft_failures;
  decisions = erase_if (is_expired_decision now s.cfg.decision_retention) s.decisions;
  decision_history = erase_histories now s.cfg.decision_retention s.decisions s.decision_history;
}

unfoldable pub cleanup_tickets : Time → Service → Service
cleanup_tickets now s = record s {
  tickets = erase_if (is_expired_ticket now s.cfg.ticket_retention) s.tickets;
}

unfoldable pub cleanup_approvals : Time → Service → Service
cleanup_approvals now s = record s {
  approvals = erase_if (is_expired_approval now s.cfg.approval_retention) s.approvals;
}

unfoldable pub cleanup_expired : Time → Service → Service × CleanupResult
cleanup_expired now s =
    let at = resolve_cleanup_now now s in
    let kept = cleanup_approvals at (cleanup_tickets at (cleanup_runtime at s)) in
    let (s1, outbox_trimmed) = trim_outbox_locked at kept in
    (
      s1,
      record {
        deleted_tickets = count_if (is_expired_ticket at s.cfg.ticket_retention) s.tickets;
        deleted_pending = count_if (is_expired_pending at s.cfg.pending_retention) s.pending;
        deleted_approvals = count_if (is_expired_approval at s.cfg.approval_retention) s.approvals;
        deleted_decisions = count_if (is_expired_decision at s.cfg.decision_retention) s.decisions;
        deleted_soft_fails =
            count_if (is_expired_soft_failure at s.cfg.pending_retention) s.soft_failures;
        outbox_trimmed = outbox_trimmed;
      },
    )
