-- ===== src/Decision/Tests/Cases.antt =====
-- The theorems on approval cases at concrete services.
use agent_infra_system.Base.{◌+◌, ◌≡◌, refl, some, [], ◌∷◌}
use agent_infra_system.Base.Dict.{lookup, insert}
use agent_infra_system.Base.Text.{trim_space, to_lower, is_blank}
use agent_infra_system.Run.Tests.Fixtures.{toy, noon}
use agent_infra_system.Decision.Statuses.{PendingStatus, ApprovalStatus}
use agent_infra_system.Decision.Types.{ApprovalCase, ApprovalDecisionRequest}
use agent_infra_system.Decision.Approvals.Outcome.{
  settle_case, guard_unlock, dispatch_signal, apply_approval_outcome_to_pending, apply_found,
  dispatch_approval_run_unlock, emit_outcome, dispatch_replied, dispatch_answered, emit_dispatch,
}
use agent_infra_system.Decision.Events.{emit_event}
use agent_infra_system.Decision.Pending.{put_pending}
use agent_infra_system.Decision.Approvals.Decide.{
  decide_approval_case, sweep_approval_hard_timeouts,
}
use agent_infra_system.Decision.Approvals.Told.{settle_case-told, approve_takes_back}
use agent_infra_system.Decision.Approvals.Swept.{DueCount, Swept, sweep_resolves}
use agent_infra_system.Decision.Tests.Fixtures.{waiting, confirmed, review, serving}

approving : ApprovalDecisionRequest
approving = record { decision = " Approve" }

abbrev approved_review : ApprovalCase
approved_review = record review { status = ApprovalStatus.approved; resolved_at = noon }

settle_case-told_example :
    (settle_case approved_review noon (serving (("d1", waiting) ∷ []) [])).1.run_unlock_status
    ≡ "dispatched"
unfolding lookup settle_case guard_unlock dispatch_signal apply_approval_outcome_to_pending
    apply_found dispatch_approval_run_unlock emit_outcome emit_event put_pending dispatch_replied
    dispatch_answered is_blank trim_space emit_dispatch insert
settle_case-told_example =
    settle_case-told approved_review noon (serving (("d1", waiting) ∷ []) [])
      (record waiting { status = PendingStatus.confirmed; last_updated_at = noon }) refl refl refl
      refl refl

approve_takes_back_example :
    let s = serving (("d1", confirmed) ∷ []) (("c1", review) ∷ []) in
    let (s', response) = decide_approval_case "c1" approving noon s in
    (lookup "d1" s'.pending
      ≡ some (record confirmed { status = PendingStatus.safeguard_hold; last_updated_at = noon }))
    × (response.run_unlock_status ≡ "not_required")
unfolding lookup approving trim_space to_lower
approve_takes_back_example =
    approve_takes_back "c1" approving noon (serving (("d1", confirmed) ∷ []) (("c1", review) ∷ []))
      review confirmed refl refl refl refl refl refl refl

sweep_resolves_example :
    let s = serving [] (("c1", review) ∷ []) in
    let (s', changed) = sweep_approval_hard_timeouts (noon + 60) s in
    DueCount (noon + 60) s.approvals changed
    × (after : ApprovalCase) × (lookup "c1" s'.approvals ≡ some after)
    × Swept (noon + 60) review after
unfolding lookup
sweep_resolves_example =
    sweep_resolves (noon + 60) (serving [] (("c1", review) ∷ [])) "c1" review refl
