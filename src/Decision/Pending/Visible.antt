-- ===== src/Decision/Pending/Visible.antt =====
-- What a confirmation promises to the run kernel, which asks `IsDecisionConfirmedWithOwner`.
use agent_infra_system.Base.{
  true, not, ◌≡◌, refl, none, some, [], arith, eq_iff, if_induction, option_induction,
}
use agent_infra_system.Base.Dict.{lookup}
use agent_infra_system.Base.Text.{trim_space, to_lower, to_upper}
use agent_infra_system.Base.Time.{Time}
use agent_infra_system.Platform.{Platform}
use agent_infra_system.Run.Frames.{lookup-insert_self}
use agent_infra_system.Decision.Statuses.{PendingStatus, is_pending, is_confirmed}
use agent_infra_system.Decision.Types.{
  Service, PendingDecision, ConfirmRunAdvanceRequest, ConfirmRunAdvanceResponse,
}
use agent_infra_system.Decision.Events.{emit_event}
use agent_infra_system.Decision.Pending.{
  put_pending, build_pending_owner_key, confirm_owner, refuse_confirm, confirm_found,
  confirm_run_advance, is_confirmed_for, is_decision_confirmed_with_owner,
}

passed-confirmed_for :
    (req : ConfirmRunAdvanceRequest) (p : PendingDecision)
    → to_lower (trim_space req.owner_key) ≡ ""
    → refuse_confirm req p ≡ none
    → is_confirmed p.status ≡ true
    → is_confirmed_for req.run_id req.step_id req.attempt_index req.phase p ≡ true
unfolding refuse_confirm confirm_owner is_confirmed_for
passed-confirmed_for req p blank passed confirmed = ground (
  arith,
  eq_iff (to_lower (trim_space req.owner_key)) "",
  eq_iff p.owner_key (
      build_pending_owner_key req.run_id req.step_id req.attempt_index
        (to_upper (trim_space req.phase))),
  eq_iff
      (build_pending_owner_key req.run_id req.step_id req.attempt_index
        (to_upper (trim_space req.phase)))
      p.owner_key,
  eq_iff p.owner_key "",
)

-- An answer without a reason means that the run kernel finds the decision confirmed.
record ShowsConfirmed (req : ConfirmRunAdvanceRequest) (x : Service × ConfirmRunAdvanceResponse)
    : Type 0 where
  shows :
      x.1.reason_codes ≡ []
      → is_decision_confirmed_with_owner req.decision_id req.run_id req.step_id req.attempt_index
          req.phase x.0
        ≡ true

stored_shows :
    (req : ConfirmRunAdvanceRequest) (p : PendingDecision) (s : Service)
    → lookup req.decision_id s.pending ≡ some p
    → is_confirmed_for req.run_id req.step_id req.attempt_index req.phase p ≡ true
    → is_decision_confirmed_with_owner req.decision_id req.run_id req.step_id req.attempt_index
        req.phase s
      ≡ true
unfolding is_decision_confirmed_with_owner
stored_shows req p s found h = rw (found, is_decision_confirmed_with_owner) h

-- The checks do not read the status or the time.
same_refusal :
    (req : ConfirmRunAdvanceRequest) (p : PendingDecision) (now : Time)
    → refuse_confirm req p ≡ none
    → refuse_confirm req (record p { status = PendingStatus.confirmed; last_updated_at = now })
      ≡ none
unfolding refuse_confirm
same_refusal req p now h = h

module _ ⦃platform : Platform⦄ where
  confirm_found-Shows :
      (req : ConfirmRunAdvanceRequest) (now : Time) (p : PendingDecision) (s : Service)
      → to_lower (trim_space req.owner_key) ≡ ""
      → lookup req.decision_id s.pending ≡ some p
      → ShowsConfirmed req (confirm_found req now p s)
  unfolding confirm_found put_pending emit_event
  confirm_found-Shows req now p s blank found =
      let P = ShowsConfirmed req in
      option_induction P (refuse_confirm req p)
        (λ passed.
          if_induction P (not (is_pending p.status))
            (λ settled. record {
              shows = λ none_given.
                  let confirmed : is_confirmed p.status ≡ true = ground arith in
                  stored_shows req p s found (passed-confirmed_for req p blank passed confirmed);
            })
            (λ waiting.
              if_induction P req.success
                (λ success. record {
                  shows = λ none_given.
                      let q = record p {
                        status = PendingStatus.confirmed;
                        last_updated_at = now;
                      } in
                      stored_shows req q _ (lookup-insert_self req.decision_id q s.pending)
                        (passed-confirmed_for req q blank (same_refusal req p now passed) refl);
                })
                (λ failure. record { shows = λ none_given. absurd (ground arith) })))
        (λ reason failed. record { shows = λ none_given. absurd (ground arith) })

  confirm_run_advance-Shows :
      (req : ConfirmRunAdvanceRequest) (now : Time) (s : Service)
      → to_lower (trim_space req.owner_key) ≡ ""
      → ShowsConfirmed req (confirm_run_advance req now s)
  unfolding confirm_run_advance
  confirm_run_advance-Shows req now s blank =
      option_induction (ShowsConfirmed req) (lookup req.decision_id s.pending)
        (λ free. record { shows = λ none_given. absurd (ground arith) })
        (λ p found. confirm_found-Shows req now p s blank found)

  -- A confirmation that names no owner key and is answered without a reason leaves a state in which the
  -- run kernel, asking with the same run, step, attempt and phase, finds the decision confirmed.
  pub confirm_is_visible :
      (req : ConfirmRunAdvanceRequest) (now : Time) (s : Service)
      → to_lower (trim_space req.owner_key) ≡ ""
      → let (s', response) = confirm_run_advance req now s in
        response.reason_codes ≡ []
        → is_decision_confirmed_with_owner req.decision_id req.run_id req.step_id req.attempt_index
            req.phase s'
          ≡ true
  confirm_is_visible req now s blank = (confirm_run_advance-Shows req now s blank).shows
