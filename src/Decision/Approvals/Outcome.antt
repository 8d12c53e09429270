-- ===== src/Decision/Approvals/Outcome.antt =====
-- What the outcome of an approval case does: to the pending decision, to the run through the unlock
-- port, and to the pending decision again where the run could not be told. Each function up to
-- `guard_unlock` is one locked region of the code; `settle_case` runs them one after another.
use mathlib.Core.List.{◌++◌ as append}
use agent_infra_system.Base.{
  String, false, not, ◌&&◌, ◌||◌, Option, none, some, List, [], ◌∷◌, ◌==◌, if◌then◌else◌,
}
use agent_infra_system.Base.Int.{ℤ, pos}
use agent_infra_system.Base.Dict.{lookup}
use agent_infra_system.Base.Text.{is_blank}
use agent_infra_system.Base.Time.{Time, sub, is_zero, milliseconds}
use agent_infra_system.Platform.{Platform, Value}
use agent_infra_system.Decision.Statuses.{
  PendingStatus, show_pending, is_pending, is_confirmed, show_approval, is_approved,
  approval_outcome_to_pending_status, approval_outcome_requires_run_unlock_signal,
}
use agent_infra_system.Decision.Types.{
  Service, PendingDecision, ApprovalCase, ApprovalRunUnlockSignal, ApprovalRunUnlockDispatchResult,
  Dispatch,
}
use agent_infra_system.Decision.Events.{emit_event}
use agent_infra_system.Decision.Pending.{put_pending}
use agent_infra_system.Decision.Approvals.{approval_effective_latency_base}

-- What `applyApprovalOutcomeToPending` returns.
pub record Applied : Type 0 where
  pub pending_status : String
  pub reason_codes : List String
  pub signal : Option ApprovalRunUnlockSignal

-- What `dispatchApprovalRunUnlock` returns.
pub record Dispatched : Type 0 where
  pub status : String
  pub reason_codes : List String
  pub result : ApprovalRunUnlockDispatchResult

-- What is known of a resolved case once its run has been told.
pub record Settled : Type 0 where
  pub pending_status : String
  pub run_unlock_status : String
  pub reason_codes : List String
  pub effective_latency_ms : ℤ
  pub unblocked_at : Time

unfoldable pub unlock_signal :
    ApprovalCase → PendingStatus → PendingDecision → ApprovalRunUnlockSignal
unlock_signal c status p = record {
  case_id = c.case_id;
  run_id = c.run_id;
  step_id = c.step_id;
  decision_id = c.decision_id;
  risk_tier = c.risk_tier;
  outcome = show_approval c.status;
  pending_status = show_pending status;
  attempt_index = p.attempt_index;
  phase = p.phase;
  owner_key = p.owner_key;
  requested_at = c.created_at;
  resolved_at = c.resolved_at;
}

-- The result that stands for no answer of the port.
no_result : String → ApprovalRunUnlockDispatchResult
no_result status = record {
  dispatch_status = status;
  business_action_unblocked = false;
  business_action_unblocked_at = 0;
  reason_codes = [];
}

refused : String → String → Applied
refused status reason = record {
  pending_status = status;
  reason_codes = reason ∷ [];
  signal = none;
}

-- When the business action was unblocked; the zero time where it was not.
unfoldable pub unblocked_time : ApprovalRunUnlockDispatchResult → Time
unblocked_time r =
    if r.business_action_unblocked && not (is_zero r.business_action_unblocked_at)
    then r.business_action_unblocked_at
    else 0

unfoldable pub effective_latency : ApprovalCase → Time → ℤ
effective_latency c unblocked_at =
    if not (is_zero unblocked_at)
    then milliseconds (sub unblocked_at (approval_effective_latency_base c))
    else pos 0

module _ ⦃platform : Platform⦄ where
  -- The event of an outcome that has moved the pending decision.
  unfoldable pub emit_outcome : ApprovalCase → PendingStatus → Time → Service → Service
  emit_outcome c status now s =
      let payload =
        ("approval_case_id", Value.text c.case_id)
        ∷ ("approval_outcome", Value.text (show_approval c.status))
        ∷ [] in
      if is_confirmed status
      then emit_event "decision_confirmed" c.decision_id c.run_id c.step_id payload now s
      else emit_event "approval.pending.updated" c.decision_id c.run_id c.step_id
          (append payload (("pending_status", Value.text (show_pending status)) ∷ [])) now s

  unfoldable pub apply_found :
      ApprovalCase → PendingStatus → Time → PendingDecision → Service → Service × Applied
  unfolding refused
  apply_found c target now p s =
      if not (p.run_id == c.run_id) || not (p.step_id == c.step_id)
      then (s, refused (show_pending p.status) "pending_decision_mismatch")
      else if not (is_pending p.status)
      then (s, refused (show_pending p.status) "pending_decision_terminal_state_immutable")
      else (
        emit_outcome c target now
            (put_pending c.decision_id (record p { status = target; last_updated_at = now }) s),
        record {
          pending_status = show_pending target;
          reason_codes = [];
          signal =
              if approval_outcome_requires_run_unlock_signal c.status
              then some (unlock_signal c target p)
              else none;
        },
      )

  unfoldable pub apply_approval_outcome_to_pending :
      ApprovalCase → Time → Service → Service × Applied
  unfolding refused
  apply_approval_outcome_to_pending c now s = elim (approval_outcome_to_pending_status c.status) [
    | none ↦ (s, refused "" "approval_outcome_not_mapped")
    | some target ↦ elim (lookup c.decision_id s.pending) [
      | none ↦ (s, refused "" "pending_decision_not_found")
      | some p ↦ apply_found c target now p s
    ]
  ]

  -- The event of a dispatch; `more` follows its status.
  unfoldable pub emit_dispatch :
      ApprovalRunUnlockSignal → String → List (String × Value) → Time → Service → Service
  emit_dispatch signal status more now s =
      emit_event "approval.run_unlock.dispatch" signal.decision_id signal.run_id signal.step_id
        (("case_id", Value.text signal.case_id)
          ∷ ("outcome", Value.text signal.outcome)
          ∷ ("pending_status", Value.text signal.pending_status)
          ∷ ("dispatch_status", Value.text status)
          ∷ more)
        now s

  unfoldable pub dispatch_answered :
      ApprovalRunUnlockSignal
      → ApprovalRunUnlockDispatchResult
      → Time
      → Service
      → Service × Dispatched
  dispatch_answered signal res now s =
      let status = if is_blank res.dispatch_status then "dispatched" else res.dispatch_status in
      (
        emit_dispatch signal status
            (("unblocked", Value.bool res.business_action_unblocked)
              ∷ ("unblocked_at", Value.time res.business_action_unblocked_at)
              ∷ ("reason_codes", Value.texts res.reason_codes)
              ∷ [])
            now s,
        record {
          status = status;
          reason_codes = [];
          result = record res { dispatch_status = status };
        },
      )

  unfoldable pub dispatch_replied :
      ApprovalRunUnlockSignal → Dispatch → Time → Service → Service × Dispatched
  unfolding no_result
  dispatch_replied signal (Dispatch.failed e) now s = (
    emit_dispatch signal "dispatch_failed" (("error", Value.text e) ∷ []) now s,
    record {
      status = "dispatch_failed";
      reason_codes = "approval_run_unlock_dispatch_failed" ∷ [];
      result = no_result "dispatch_failed";
    },
  )
  dispatch_replied signal (Dispatch.answered res) now s = dispatch_answered signal res now s

  unfoldable pub dispatch_approval_run_unlock :
      ApprovalRunUnlockSignal → Time → Service → Service × Dispatched
  unfolding no_result
  dispatch_approval_run_unlock signal now s = elim s.approval_run_unlock_port [
    | none ↦ (
      emit_dispatch signal "not_configured" [] now s,
      record {
        status = "not_configured";
        reason_codes = "approval_run_unlock_not_configured" ∷ [];
        result = no_result "not_configured";
      },
    )
    | some port ↦ dispatch_replied signal (port signal) now s
  ]

  unfoldable pub guard_found :
      ApprovalCase → String → Time → PendingDecision → Service → Service × (String × List String)
  guard_found c run_unlock_status now p s =
      if not (p.run_id == c.run_id) || not (p.step_id == c.step_id)
      then (s, (show_pending p.status, "approval_unlock_failed_pending_mismatch" ∷ []))
      else if not (is_confirmed p.status)
      then (s, (show_pending p.status, "approval_unlock_failed_pending_not_confirmed" ∷ []))
      else (
        emit_event "approval.pending.updated" c.decision_id c.run_id c.step_id
            (("approval_case_id", Value.text c.case_id)
              ∷ ("approval_outcome", Value.text (show_approval c.status))
              ∷ ("pending_status", Value.text "safeguard_hold")
              ∷ ("reason", Value.text "approval_run_unlock_dispatch_failed")
              ∷ ("run_unlock_status", Value.text run_unlock_status)
              ∷ [])
            now
            (put_pending c.decision_id
              (record p { status = PendingStatus.safeguard_hold; last_updated_at = now }) s),
        (
          show_pending PendingStatus.safeguard_hold,
          "approval_unlock_failed_enter_safeguard_hold" ∷ [],
        ),
      )

  unfoldable pub enforce_approval_unlock_failure_guard :
      ApprovalCase → String → Time → Service → Service × (String × List String)
  enforce_approval_unlock_failure_guard c run_unlock_status now s =
      elim (lookup c.decision_id s.pending) [
        | none ↦ (s, ("", "approval_unlock_failed_pending_not_found" ∷ []))
        | some p ↦ guard_found c run_unlock_status now p s
      ]

  -- The signal is dispatched, if there is one; else no unlock was required.
  unfoldable pub dispatch_signal :
      Option ApprovalRunUnlockSignal → Time → Service → Service × Dispatched
  unfolding no_result
  dispatch_signal none now s =
      (s, record { status = "not_required"; reason_codes = []; result = no_result "" })
  dispatch_signal (some signal) now s = dispatch_approval_run_unlock signal now s

  -- The guard on an approved case whose run was not told; else the pending status stays as it was.
  unfoldable pub guard_unlock :
      ApprovalCase → Applied → String → Time → Service → Service × (String × List String)
  guard_unlock c applied run_unlock_status now s =
      if is_approved c.status && not (run_unlock_status == "dispatched")
      then enforce_approval_unlock_failure_guard c run_unlock_status now s
      else (s, (applied.pending_status, []))

  -- What both operations do with a case that they have resolved.
  unfoldable pub settle_case : ApprovalCase → Time → Service → Service × Settled
  settle_case c now s =
      let (s1, applied) = apply_approval_outcome_to_pending c now s in
      let (s2, sent) = dispatch_signal applied.signal now s1 in
      let (s3, guarded) = guard_unlock c applied sent.status now s2 in
      let unblocked_at = unblocked_time sent.result in
      (
        s3,
        record {
          pending_status = guarded.0;
          run_unlock_status = sent.status;
          reason_codes =
              append applied.reason_codes
                (append sent.reason_codes (append sent.result.reason_codes guarded.1));
          effective_latency_ms = effective_latency c unblocked_at;
          unblocked_at = unblocked_at;
        },
      )
