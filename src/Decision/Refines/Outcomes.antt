-- ===== src/Decision/Refines/Outcomes.antt =====
-- The outcome of an approval case refines the abstract view: its application to the pending decision,
-- and the guard where the run was not told. So does a repair.
use agent_infra_system.Base.{
  String, true, not, ◌&&◌, ◌||◌, ◌≡◌, refl, Option, none, some, List, arith, ◌==◌, if_induction,
  option_induction,
}
use agent_infra_system.Base.Dict.{lookup}
use agent_infra_system.Base.Time.{Time}
use agent_infra_system.Platform.{Platform}
use agent_infra_system.Decision.Statuses.{
  PendingStatus, is_pending, is_confirmed, approval_outcome_to_pending_status, is_approved,
}
use agent_infra_system.Decision.Types.{
  Service, PendingDecision, ApprovalCase, ApprovalRunUnlockSignal, Dispatch,
}
use agent_infra_system.Decision.Events.{emit_event}
use agent_infra_system.Decision.Pending.{put_pending}
use agent_infra_system.Decision.Approvals.Outcome.{
  Applied, Dispatched, emit_outcome, apply_found, apply_approval_outcome_to_pending, emit_dispatch,
  dispatch_answered, dispatch_replied, dispatch_approval_run_unlock, dispatch_signal, guard_found,
  enforce_approval_unlock_failure_guard, guard_unlock,
}
use agent_infra_system.Decision.Spec.{
  Follows, PendingTransition-moved, Follows-moved, may_become-confirmed,
}
use agent_infra_system.Decision.Refines.Requests.{Moves, Moves-same, leaves_pending}

confirmed_to_hold :
    (p : PendingDecision) (now : Time)
    → is_confirmed p.status ≡ true
    → Follows p (record p { status = PendingStatus.safeguard_hold; last_updated_at = now })
confirmed_to_hold p now h =
    Follows-moved p (record p { status = PendingStatus.safeguard_hold; last_updated_at = now }) refl
      refl refl refl refl (may_become-confirmed p.status h) (λ b e. absurd (ground arith))

module _ ⦃platform : Platform⦄ where
  -- No event touches the pending decisions.
  pub emit_outcome-pending :
      (c : ApprovalCase) (status : PendingStatus) (now : Time) (s : Service)
      → (emit_outcome c status now s).pending ≡ s.pending
  unfolding emit_outcome emit_event
  emit_outcome-pending c status now s = ground arith

  pub apply-Moves :
      (c : ApprovalCase) (now : Time) (s : Service)
      → Moves Applied s (apply_approval_outcome_to_pending c now s)
  unfolding apply_approval_outcome_to_pending apply_found put_pending
  apply-Moves c now s =
      option_induction (Moves Applied s) (approval_outcome_to_pending_status c.status)
        (λ unmapped. Moves-same Applied s _)
        (λ target mapped.
          option_induction (Moves Applied s) (lookup c.decision_id s.pending)
            (λ free. Moves-same Applied s _)
            (λ p found.
              if_induction (Moves Applied s)
                (not (p.run_id == c.run_id) || not (p.step_id == c.step_id))
                (λ foreign. Moves-same Applied s _)
                (λ own.
                  if_induction (Moves Applied s) (not (is_pending p.status))
                    (λ settled. Moves-same Applied s _)
                    (λ waiting. record {
                      moves_to =
                          PendingTransition-moved c.decision_id s.pending _ p
                            (record p { status = target; last_updated_at = now }) found
                            (emit_outcome-pending c target now (
                              put_pending c.decision_id
                                (record p { status = target; last_updated_at = now }) s))
                            (leaves_pending p target now (ground arith));
                    }))))

  pub guard-Moves :
      (c : ApprovalCase) (run_unlock_status : String) (now : Time) (s : Service)
      → Moves
          (String × List String)
          s
          (enforce_approval_unlock_failure_guard c run_unlock_status now s)
  unfolding enforce_approval_unlock_failure_guard guard_found put_pending emit_event
  guard-Moves c run_unlock_status now s =
      let A = String × List String in
      option_induction (Moves A s) (lookup c.decision_id s.pending) (λ free. Moves-same A s _)
        (λ p found.
          if_induction (Moves A s) (not (p.run_id == c.run_id) || not (p.step_id == c.step_id))
            (λ foreign. Moves-same A s _)
            (λ own.
              if_induction (Moves A s) (not (is_confirmed p.status))
                (λ unconfirmed. Moves-same A s _)
                (λ confirmed. record {
                  moves_to =
                      PendingTransition-moved c.decision_id s.pending _ p _ found refl
                        (confirmed_to_hold p now (ground arith));
                })))

  dispatch_replied-pending :
      (signal : ApprovalRunUnlockSignal) (reply : Dispatch) (now : Time) (s : Service)
      → (dispatch_replied signal reply now s).0.pending ≡ s.pending
  unfolding dispatch_replied dispatch_answered emit_dispatch emit_event
  dispatch_replied-pending signal (Dispatch.failed e) now s = refl
  dispatch_replied-pending signal (Dispatch.answered r) now s = refl

  pub dispatch_signal-pending :
      (signal : Option ApprovalRunUnlockSignal) (now : Time) (s : Service)
      → (dispatch_signal signal now s).0.pending ≡ s.pending
  unfolding dispatch_signal dispatch_approval_run_unlock emit_dispatch emit_event
  dispatch_signal-pending none now s = refl
  dispatch_signal-pending (some signal) now s =
      option_induction (λ (m : Service × Dispatched). m.0.pending ≡ s.pending)
        s.approval_run_unlock_port (λ unset. refl)
        (λ port set. dispatch_replied-pending signal (port signal) now s)

  pub guard_unlock-Moves :
      (c : ApprovalCase) (applied : Applied) (run_unlock_status : String) (now : Time) (s : Service)
      → Moves (String × List String) s (guard_unlock c applied run_unlock_status now s)
  unfolding guard_unlock
  guard_unlock-Moves c applied run_unlock_status now s =
      if_induction (Moves (String × List String) s)
        (is_approved c.status && not (run_unlock_status == "dispatched"))
        (λ untold. guard-Moves c run_unlock_status now s)
        (λ told. Moves-same (String × List String) s _)
