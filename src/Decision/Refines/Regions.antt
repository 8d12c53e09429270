-- ===== src/Decision/Refines/Regions.antt =====
-- The locked regions of the decision kernel that concern pending decisions and approval cases, as a
-- step relation, and what any interleaving of them can lead to.
use agent_infra_system.Base.{
  String, true, false, ◌≡◌, refl, ◌∙◌, sym, inl, inr, Option, List, arith, Option-cases, Bool-cases,
}
use agent_infra_system.Base.Dict.{Dict, lookup, erase_if}
use agent_infra_system.Base.Dict.Unique.{
  Unique, lookup-erase_if-none, lookup-erase_if-some, erase_if-Unique,
}
use agent_infra_system.Base.Int.{ℤ}
use agent_infra_system.Base.Time.{Time, Duration}
use agent_infra_system.Platform.{Platform, Value}
use agent_infra_system.Decision.Statuses.{is_pending}
use agent_infra_system.Decision.Types.{
  Service, PendingDecision, PendingOwnerMeta, ConfirmRunAdvanceRequest,
  TerminalizePendingDecisionRequest, ApprovalCase, ApprovalCreateRequest, ApprovalRunUnlockSignal,
}
use agent_infra_system.Decision.Events.{emit_event, trim_outbox_locked, drain_events}
use agent_infra_system.Decision.Pending.{
  create_pending_decision, confirm_run_advance, terminalize_pending_decision,
}
use agent_infra_system.Decision.Repair.{repair_pending_decisions}
use agent_infra_system.Decision.Approvals.{store_approval_case, put_case}
use agent_infra_system.Decision.Approvals.Outcome.{
  apply_approval_outcome_to_pending, dispatch_signal, enforce_approval_unlock_failure_guard,
}
use agent_infra_system.Decision.Approvals.Decide.{time_out_cases}
use agent_infra_system.Decision.Cleanup.{
  is_expired_pending, cleanup_runtime, cleanup_tickets, cleanup_approvals,
}
use agent_infra_system.Decision.Spec.{
  kept, removed, PendingTransition, PendingTransition-same, Carries-PendingTransition,
}
use agent_infra_system.Decision.Refines.Requests.{
  confirm_run_advance-Moves, terminalize-Moves, create_pending_decision-Transition,
}
use agent_infra_system.Decision.Refines.Outcomes.{apply-Moves, guard-Moves, dispatch_signal-pending}
use agent_infra_system.Decision.Refines.Repairs.{repair-Carries}

is_expired_pending-settled :
    (now : Time) (retention : Duration) (id : String) (p : PendingDecision)
    → is_expired_pending now retention id p ≡ true
    → is_pending p.status ≡ false
unfolding is_expired_pending
is_expired_pending-settled now retention id p h = ground arith

-- The cleanup removes settled decisions only.
erase_expired-Transition :
    (now : Time) (retention : Duration) (m : Dict PendingDecision)
    → Unique m
    → PendingTransition m (erase_if (is_expired_pending now retention) m)
erase_expired-Transition now retention m u =
    let p = is_expired_pending now retention in
    record {
      changes = λ id. elim (Option-cases (lookup id m)) [
        | inl free ↦ kept (lookup-erase_if-none p id m free ∙ sym free)
        | inr (d, found) ↦
            let after = lookup-erase_if-some p id m d u found in
            elim (Bool-cases (is_expired_pending now retention id d)) [
              | inl old ↦
                  removed d found (is_expired_pending-settled now retention id d old) (ground arith)
              | inr young ↦ kept (ground arith)
            ]
      ];
      unique = erase_if-Unique p m;
    }

module _ ⦃platform : Platform⦄ where
  -- One locked region, whatever its arguments are.
  pub data Region (s : Service) : Service → Type 0 where
    evaluate :
        (decision_id run_id step_id risk_tier : String) (now : Time) (meta : PendingOwnerMeta)
        → Region s (create_pending_decision decision_id run_id step_id risk_tier now meta s)
    confirm :
        (req : ConfirmRunAdvanceRequest) (now : Time) → Region s (confirm_run_advance req now s).0
    terminalize :
        (req : TerminalizePendingDecisionRequest) (now : Time)
        → Region s (terminalize_pending_decision req now s).0
    repair : (now : Time) → Region s (repair_pending_decisions now s).0
    open_case :
        (req : ApprovalCreateRequest) (requested_at now : Time)
        → Region s (store_approval_case req requested_at now s).0
    resolve_case : (case_id : String) (c : ApprovalCase) → Region s (put_case case_id c s)
    time_out : (now : Time) → Region s (record s { approvals = (time_out_cases now s.approvals).0 })
    apply : (c : ApprovalCase) (now : Time) → Region s (apply_approval_outcome_to_pending c now s).0
    tell :
        (signal : Option ApprovalRunUnlockSignal) (now : Time)
        → Region s (dispatch_signal signal now s).0
    guard :
        (c : ApprovalCase) (run_unlock_status : String) (now : Time)
        → Region s (enforce_approval_unlock_failure_guard c run_unlock_status now s).0
    announce :
        (event decision_id run_id step_id : String) (payload : List (String × Value)) (now : Time)
        → Region s (emit_event event decision_id run_id step_id payload now s)
    drain : (limit : ℤ) → Region s (drain_events limit s).0
    clean_runtime : (now : Time) → Region s (cleanup_runtime now s)
    clean_tickets : (now : Time) → Region s (cleanup_tickets now s)
    clean_approvals : (now : Time) → Region s (cleanup_approvals now s)
    trim : (now : Time) → Region s (trim_outbox_locked now s).0

  -- Regions one after another: an interleaving of any number of calls.
  pub data Trace (s : Service) : Service → Type 0 where
    start : Trace s s
    next : {t u : Service} → Trace s t → Region t u → Trace s u

  drain-pending : (limit : ℤ) (s : Service) → (drain_events limit s).0.pending ≡ s.pending
  unfolding drain_events
  drain-pending limit s = ground arith

  -- Every locked region is a transition of the abstract view: it keeps each pending decision, moves it
  -- along the status machine with its id, its creation time and its bindings kept, opens one, or
  -- removes a settled one.
  pub Region-PendingTransition :
      {s s' : Service} → Unique s.pending → Region s s' → PendingTransition s.pending s'.pending
  unfolding store_approval_case put_case emit_event cleanup_runtime cleanup_tickets
      cleanup_approvals trim_outbox_locked
  Region-PendingTransition {s} u (evaluate decision_id run_id step_id risk_tier now meta) =
      create_pending_decision-Transition decision_id run_id step_id risk_tier now meta s
  Region-PendingTransition {s} u (confirm req now) = (confirm_run_advance-Moves req now s).moves_to
  Region-PendingTransition {s} u (terminalize req now) = (terminalize-Moves req now s).moves_to
  Region-PendingTransition {s} u (repair now) = Carries-PendingTransition (repair-Carries now s u)
  Region-PendingTransition {s} u (open_case req requested_at now) =
      PendingTransition-same s.pending _ refl
  Region-PendingTransition {s} u (resolve_case case_id c) = PendingTransition-same s.pending _ refl
  Region-PendingTransition {s} u (time_out now) = PendingTransition-same s.pending _ refl
  Region-PendingTransition {s} u (apply c now) = (apply-Moves c now s).moves_to
  Region-PendingTransition {s} u (tell signal now) =
      PendingTransition-same s.pending _ (dispatch_signal-pending signal now s)
  Region-PendingTransition {s} u (guard c status now) = (guard-Moves c status now s).moves_to
  Region-PendingTransition {s} u (announce event decision_id run_id step_id payload now) =
      PendingTransition-same s.pending _ refl
  Region-PendingTransition {s} u (drain limit) =
      PendingTransition-same s.pending _ (drain-pending limit s)
  Region-PendingTransition {s} u (clean_runtime now) =
      erase_expired-Transition now s.cfg.pending_retention s.pending u
  Region-PendingTransition {s} u (clean_tickets now) = PendingTransition-same s.pending _ refl
  Region-PendingTransition {s} u (clean_approvals now) = PendingTransition-same s.pending _ refl
  Region-PendingTransition {s} u (trim now) = PendingTransition-same s.pending _ refl
