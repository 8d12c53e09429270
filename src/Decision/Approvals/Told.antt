-- ===== src/Decision/Approvals/Told.antt =====
-- An approval confirms its decision only where the run was told, and takes back what was confirmed
-- before it.
use agent_infra_system.Base.{
  String, true, false, not, ◌||◌, ◌≡◌, refl, ◌∙◌, ap, inl, inr, none, some, List, [], ◌∷◌, arith,
  eq_iff, ◌==◌, Bool-cases, if_induction, option_induction,
}
use agent_infra_system.Base.Dict.{lookup, insert}
use agent_infra_system.Base.Text.{trim_space, to_lower}
use agent_infra_system.Base.Time.{Time}
use agent_infra_system.Platform.{Platform}
use agent_infra_system.Run.Frames.{lookup-insert_self}
use agent_infra_system.Decision.Statuses.{
  PendingStatus, ApprovalStatus, is_confirmed, is_approved, parse_approval_decision,
}
use agent_infra_system.Decision.Types.{
  Service, PendingDecision, ApprovalCase, ApprovalDecisionRequest,
}
use agent_infra_system.Decision.Events.{emit_event}
use agent_infra_system.Decision.Pending.{put_pending}
use agent_infra_system.Decision.Approvals.{resolved, put_case}
use agent_infra_system.Decision.Approvals.Outcome.{
  Applied, apply_found, apply_approval_outcome_to_pending, dispatch_signal, guard_found,
  enforce_approval_unlock_failure_guard, guard_unlock, settle_case,
}
use agent_infra_system.Decision.Approvals.Decide.{
  decide_approval_case, decide_resolved, emit_decided,
}

-- The pending decision of the case, if it is bound as the case is, is not confirmed.
pub record Unconfirms {ℓ} (c : ApprovalCase) (A : Type ℓ) (x : Service × A) : Type 0 where
  pub unconfirmed :
      (p : PendingDecision)
      → lookup c.decision_id x.0.pending ≡ some p
      → p.run_id ≡ c.run_id
      → p.step_id ≡ c.step_id
      → is_confirmed p.status ≡ false

parse_approve :
    (d : String) → d ≡ "approve" → parse_approval_decision d ≡ some ApprovalStatus.approved
unfolding parse_approval_decision
parse_approve d e = ground (arith, eq_iff d "approve")

module _ ⦃platform : Platform⦄ where
  guard-Unconfirms :
      (c : ApprovalCase) (status : String) (now : Time) (s : Service)
      → Unconfirms c (String × List String) (enforce_approval_unlock_failure_guard c status now s)
  unfolding enforce_approval_unlock_failure_guard guard_found put_pending emit_event
  guard-Unconfirms c status now s =
      let P = Unconfirms c (String × List String) in
      option_induction P (lookup c.decision_id s.pending)
        (λ free. record { unconfirmed = λ p there run step. absurd (ground arith) })
        (λ q found.
          if_induction P (not (q.run_id == c.run_id) || not (q.step_id == c.step_id))
            (λ foreign. record {
              unconfirmed = λ p there run step.
                  ground (arith, eq_iff q.run_id c.run_id, eq_iff q.step_id c.step_id);
            })
            (λ own.
              if_induction P (not (is_confirmed q.status))
                (λ unconfirmed. record { unconfirmed = λ p there run step. ground arith })
                (λ confirmed. record {
                  unconfirmed = λ p there run step.
                      let held =
                        lookup-insert_self c.decision_id
                          (record q {
                            status = PendingStatus.safeguard_hold;
                            last_updated_at = now;
                          })
                          s.pending in
                      ground arith;
                })))

  guard_unlock-told :
      (c : ApprovalCase) (applied : Applied) (status : String) (now : Time) (s : Service)
      (p : PendingDecision)
      → is_approved c.status ≡ true
      → lookup c.decision_id (guard_unlock c applied status now s).0.pending ≡ some p
      → p.run_id ≡ c.run_id
      → p.step_id ≡ c.step_id
      → is_confirmed p.status ≡ true
      → status ≡ "dispatched"
  unfolding guard_unlock
  guard_unlock-told c applied status now s p approved there run step confirmed =
      let g = guard-Unconfirms c status now s in
      elim (Bool-cases (status == "dispatched")) [
        | inl told ↦ (eq_iff status "dispatched").0 told
        | inr untold ↦
            let guarded : lookup c.decision_id
                  (enforce_approval_unlock_failure_guard c status now s).0.pending
                ≡ some p =
              ground arith in
            let never = g.unconfirmed p guarded run step in absurd (ground arith)
      ]

  -- Once an approved case is settled, its decision, if bound as the case is, is confirmed only where
  -- the dispatch to the run was answered as dispatched.
  pub settle_case-told :
      (c : ApprovalCase) (now : Time) (s : Service) (p : PendingDecision)
      → is_approved c.status ≡ true
      → let (s', settled) = settle_case c now s in
        lookup c.decision_id s'.pending ≡ some p
        → p.run_id ≡ c.run_id
        → p.step_id ≡ c.step_id
        → is_confirmed p.status ≡ true
        → settled.run_unlock_status ≡ "dispatched"
  unfolding settle_case
  settle_case-told c now s p approved =
      let a = apply_approval_outcome_to_pending c now s in
      let d = dispatch_signal a.1.signal now a.0 in
      guard_unlock-told c a.1 d.1.status now d.0 p approved

  apply-settled :
      (c : ApprovalCase) (now : Time) (s : Service) (p : PendingDecision)
      → c.status ≡ ApprovalStatus.approved
      → lookup c.decision_id s.pending ≡ some p
      → p.run_id ≡ c.run_id
      → p.step_id ≡ c.step_id
      → p.status ≡ PendingStatus.confirmed
      → apply_approval_outcome_to_pending c now s ≡ (
        s,
        record {
          pending_status = "decision_confirmed";
          reason_codes = "pending_decision_terminal_state_immutable" ∷ [];
          signal = none;
        },
      )
  unfolding apply_approval_outcome_to_pending apply_found
  apply-settled c now s p approved found run step confirmed =
      ground (arith, eq_iff p.run_id c.run_id, eq_iff p.step_id c.step_id)

  guard-holds :
      (c : ApprovalCase) (status : String) (now : Time) (s : Service) (p : PendingDecision)
      → lookup c.decision_id s.pending ≡ some p
      → p.run_id ≡ c.run_id
      → p.step_id ≡ c.step_id
      → p.status ≡ PendingStatus.confirmed
      → (enforce_approval_unlock_failure_guard c status now s).0.pending
        ≡ insert c.decision_id
            (record p { status = PendingStatus.safeguard_hold; last_updated_at = now })
            s.pending
  unfolding enforce_approval_unlock_failure_guard guard_found put_pending emit_event
  guard-holds c status now s p found run step confirmed =
      ground (arith, eq_iff p.run_id c.run_id, eq_iff p.step_id c.step_id)

  guard_unlock-untold :
      (c : ApprovalCase) (applied : Applied) (now : Time) (s : Service)
      → c.status ≡ ApprovalStatus.approved
      → guard_unlock c applied "not_required" now s
        ≡ enforce_approval_unlock_failure_guard c "not_required" now s
  unfolding guard_unlock
  guard_unlock-untold c applied now s approved = ground arith

  settle_case-taken :
      (c : ApprovalCase) (now : Time) (s : Service) (p : PendingDecision)
      → c.status ≡ ApprovalStatus.approved
      → lookup c.decision_id s.pending ≡ some p
      → p.run_id ≡ c.run_id
      → p.step_id ≡ c.step_id
      → p.status ≡ PendingStatus.confirmed
      → let (s', settled) = settle_case c now s in
        (s'.pending
          ≡ insert c.decision_id
              (record p { status = PendingStatus.safeguard_hold; last_updated_at = now })
              s.pending)
        × (settled.run_unlock_status ≡ "not_required")
  unfolding settle_case dispatch_signal guard_unlock
  settle_case-taken c now s p approved found run step confirmed =
      let applied : Applied = record {
        pending_status = "decision_confirmed";
        reason_codes = "pending_decision_terminal_state_immutable" ∷ [];
        signal = none;
      } in
      let guarded = guard_unlock-untold c applied now s approved in
      rw (apply-settled c now s p approved found run step confirmed) (
        ap (λ (x : Service × (String × List String)). x.0.pending) guarded
            ∙ guard-holds c "not_required" now s p found run step confirmed,
        refl,
      )

  decide-opens :
      (case_id : String) (req : ApprovalDecisionRequest) (now : Time) (s : Service)
      (c : ApprovalCase)
      → to_lower (trim_space req.decision) ≡ "approve"
      → lookup case_id s.approvals ≡ some c
      → c.status ≡ ApprovalStatus.awaiting_approval
      → let c1 = resolved ApprovalStatus.approved "manual_decision" now c in
        decide_approval_case case_id req now s
        ≡ decide_resolved case_id c1 now (put_case case_id c1 s)
  unfolding decide_approval_case
  decide-opens case_id req now s c asked there waiting =
      let parsed = parse_approve (to_lower (trim_space req.decision)) asked in ground arith

  -- An approval of a waiting case whose decision has already been confirmed, as by the advance of its
  -- run, asks nothing of the run and puts the confirmed decision on safeguard hold.
  pub approve_takes_back :
      (case_id : String) (req : ApprovalDecisionRequest) (now : Time) (s : Service)
      (c : ApprovalCase) (p : PendingDecision)
      → to_lower (trim_space req.decision) ≡ "approve"
      → lookup case_id s.approvals ≡ some c
      → c.status ≡ ApprovalStatus.awaiting_approval
      → lookup c.decision_id s.pending ≡ some p
      → p.run_id ≡ c.run_id
      → p.step_id ≡ c.step_id
      → p.status ≡ PendingStatus.confirmed
      → let (s', response) = decide_approval_case case_id req now s in
        (lookup c.decision_id s'.pending
          ≡ some (record p { status = PendingStatus.safeguard_hold; last_updated_at = now }))
        × (response.run_unlock_status ≡ "not_required")
  unfolding decide_approval_case decide_resolved emit_decided emit_event put_case resolved
      parse_approval_decision
  approve_takes_back case_id req now s c p asked there waiting found run step confirmed =
      let c1 = resolved ApprovalStatus.approved "manual_decision" now c in
      let taken =
        settle_case-taken c1 now (put_case case_id c1 s) p refl found run step confirmed in
      let held = record p { status = PendingStatus.safeguard_hold; last_updated_at = now } in
      rw (decide-opens case_id req now s c asked there waiting) (
        ap (λ m. lookup c.decision_id m) taken.0 ∙ lookup-insert_self c.decision_id held s.pending,
        taken.1,
      )
