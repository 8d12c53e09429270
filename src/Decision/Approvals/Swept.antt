-- ===== src/Decision/Approvals/Swept.antt =====
-- What settling a case leaves alone, and what a sweep does to each approval case.
use agent_infra_system.Base.{
  ℕ, suc, true, ◌≢◌, ◌↔◌, ◌≤◌, sym, subst, String, not, ◌&&◌, ◌||◌, ◌≡◌, refl, ◌∙◌, ap, Option,
  none, some, List, [], ◌∷◌, arith, eq_iff, ◌==◌, if◌then◌else◌, if_induction, option_induction,
  length,
}
use agent_infra_system.Base.Dict.{Dict, lookup}
use agent_infra_system.Base.Time.{Time}
use agent_infra_system.Platform.{Platform}
use agent_infra_system.Decision.Statuses.{
  is_pending, is_confirmed, is_approved, approval_outcome_to_pending_status, timeout_status,
  ApprovalStatus,
}
use agent_infra_system.Decision.Types.{Service, ApprovalCase, ApprovalRunUnlockSignal, Dispatch}
use agent_infra_system.Decision.Events.{emit_event}
use agent_infra_system.Decision.Pending.{put_pending}
use agent_infra_system.Decision.Approvals.{resolved}
use agent_infra_system.Decision.Approvals.Outcome.{
  Applied, Dispatched, emit_outcome, apply_found, apply_approval_outcome_to_pending, emit_dispatch,
  dispatch_answered, dispatch_replied, dispatch_approval_run_unlock, dispatch_signal, guard_found,
  enforce_approval_unlock_failure_guard, guard_unlock, settle_case,
}
use agent_infra_system.Decision.Approvals.Decide.{
  is_overdue, timed_out as timed_out_case, time_out_cases, emit_timeout, settle_timeout,
  settle_timeouts, sweep_approval_hard_timeouts,
}

-- The approval cases are those of the list.
record HasCases {ℓ} (cases : Dict ApprovalCase) (A : Type ℓ) (x : Service × A) : Type 0 where
  cases_are : x.0.approvals ≡ cases

module _ ⦃platform : Platform⦄ where
  apply-HasCases :
      (c : ApprovalCase) (now : Time) (s : Service)
      → HasCases s.approvals Applied (apply_approval_outcome_to_pending c now s)
  unfolding apply_approval_outcome_to_pending apply_found put_pending emit_outcome emit_event
  apply-HasCases c now s =
      let P = HasCases s.approvals Applied in
      option_induction P (approval_outcome_to_pending_status c.status)
        (λ unmapped. record { cases_are = refl })
        (λ target mapped.
          option_induction P (lookup c.decision_id s.pending) (λ free. record { cases_are = refl })
            (λ p found.
              if_induction P (not (p.run_id == c.run_id) || not (p.step_id == c.step_id))
                (λ foreign. record { cases_are = refl })
                (λ own.
                  if_induction P (not (is_pending p.status))
                    (λ settled. record { cases_are = refl })
                    (λ waiting. record { cases_are = ground arith }))))

  dispatch_replied-approvals :
      (signal : ApprovalRunUnlockSignal) (reply : Dispatch) (now : Time) (s : Service)
      → (dispatch_replied signal reply now s).0.approvals ≡ s.approvals
  unfolding dispatch_replied dispatch_answered emit_dispatch emit_event
  dispatch_replied-approvals signal (Dispatch.failed e) now s = refl
  dispatch_replied-approvals signal (Dispatch.answered r) now s = refl

  dispatch_signal-approvals :
      (signal : Option ApprovalRunUnlockSignal) (now : Time) (s : Service)
      → (dispatch_signal signal now s).0.approvals ≡ s.approvals
  unfolding dispatch_signal dispatch_approval_run_unlock emit_dispatch emit_event
  dispatch_signal-approvals none now s = refl
  dispatch_signal-approvals (some signal) now s =
      option_induction (λ (m : Service × Dispatched). m.0.approvals ≡ s.approvals)
        s.approval_run_unlock_port (λ unset. refl)
        (λ port set. dispatch_replied-approvals signal (port signal) now s)

  guard_unlock-HasCases :
      (c : ApprovalCase) (applied : Applied) (status : String) (now : Time) (s : Service)
      → HasCases s.approvals (String × List String) (guard_unlock c applied status now s)
  unfolding guard_unlock enforce_approval_unlock_failure_guard guard_found put_pending emit_event
  guard_unlock-HasCases c applied status now s =
      let P = HasCases s.approvals (String × List String) in
      if_induction P (is_approved c.status && not (status == "dispatched"))
        (λ untold.
          option_induction P (lookup c.decision_id s.pending) (λ free. record { cases_are = refl })
            (λ p found.
              if_induction P (not (p.run_id == c.run_id) || not (p.step_id == c.step_id))
                (λ foreign. record { cases_are = refl })
                (λ own.
                  if_induction P (not (is_confirmed p.status))
                    (λ unconfirmed. record { cases_are = refl })
                    (λ confirmed. record { cases_are = refl }))))
        (λ told. record { cases_are = refl })

  pub settle_case-approvals :
      (c : ApprovalCase) (now : Time) (s : Service)
      → (settle_case c now s).0.approvals ≡ s.approvals
  unfolding settle_case
  settle_case-approvals c now s =
      let a = apply_approval_outcome_to_pending c now s in
      let d = dispatch_signal a.1.signal now a.0 in
      (guard_unlock-HasCases c a.1 d.1.status now d.0).cases_are
      ∙ dispatch_signal-approvals a.1.signal now a.0
      ∙ (apply-HasCases c now s).cases_are

  settle_timeouts-approvals :
      (now : Time) (cs : List ApprovalCase) (s : Service)
      → (settle_timeouts now cs s).approvals ≡ s.approvals
  unfolding settle_timeouts settle_timeout emit_timeout emit_event
  settle_timeouts-approvals now [] s = refl
  settle_timeouts-approvals now (c ∷ cs) s =
      settle_timeouts-approvals now cs (settle_timeout now c s) ∙ settle_case-approvals c now s

time_out_cases-at :
    (now : Time) (cases : Dict ApprovalCase) (id : String) (c : ApprovalCase)
    → lookup id cases ≡ some c
    → lookup id (time_out_cases now cases).0
      ≡ some (if is_overdue now c then timed_out_case now c else c)
unfolding time_out_cases lookup
time_out_cases-at now [] id c found = absurd (ground arith)
time_out_cases-at now ((key, d) ∷ rest) id c found =
    ground (arith, eq_iff key id, time_out_cases-at now rest id c)

-- What a hard timeout makes of a case with this risk.
pub data TimesOut : String → ApprovalStatus → Type 0 where
  denied : TimesOut "low" ApprovalStatus.auto_deny
  reviewed : TimesOut "medium" ApprovalStatus.force_review_queue
  closed :
      {risk : String} → risk ≢ "low" → risk ≢ "medium" → TimesOut risk ApprovalStatus.fail_closed

timeout_status-TimesOut : (risk : String) → TimesOut risk (timeout_status risk)
unfolding timeout_status
timeout_status-TimesOut risk =
    if_induction (TimesOut risk) (risk == "low")
      (λ low.
        subst (λ r. TimesOut r ApprovalStatus.auto_deny) (sym ((eq_iff risk "low").0 low)) denied)
      (λ other.
        if_induction (TimesOut risk) (risk == "medium")
          (λ medium.
            subst (λ r. TimesOut r ApprovalStatus.force_review_queue)
              (sym ((eq_iff risk "medium").0 medium)) reviewed)
          (λ high.
            closed (λ e. absurd (ground (arith, eq_iff risk "low")))
              (λ e. absurd (ground (arith, eq_iff risk "medium")))))

-- The case waits and its hard timeout is reached.
abbrev pub IsDue : Time → ApprovalCase → Type 0
IsDue now c = (c.status ≡ ApprovalStatus.awaiting_approval) × (c.approval_hard_timeout ≤ now)

-- What a sweep makes of one case.
pub data Swept (now : Time) (c : ApprovalCase) : ApprovalCase → Type 0 where
  timed_out :
      (status : ApprovalStatus)
      → IsDue now c
      → TimesOut c.risk_tier status
      → Swept now c
          (record c { status = status; resolved_at = now; terminal_reason = "hard_timeout" })
  left : ¬ IsDue now c → Swept now c c

is_overdue_iff : (now : Time) (c : ApprovalCase) → (is_overdue now c ≡ true) ↔ IsDue now c
unfolding is_overdue
is_overdue_iff now c = ground arith

swept_as :
    (now : Time) (c : ApprovalCase)
    → Swept now c (if is_overdue now c then timed_out_case now c else c)
unfolding timed_out_case resolved
swept_as now c =
    if_induction (Swept now c) (is_overdue now c)
      (λ due.
        Swept.timed_out (timeout_status c.risk_tier) ((is_overdue_iff now c).0 due)
          (timeout_status-TimesOut c.risk_tier))
      (λ early. left (λ due. let d = (is_overdue_iff now c).1 due in absurd (ground arith)))

-- How many cases are due.
pub data DueCount (now : Time) : Dict ApprovalCase → ℕ → Type 0 where
  nothing : DueCount now [] 0
  counted :
      {n : ℕ} {id : String} {c : ApprovalCase} {m : Dict ApprovalCase}
      → IsDue now c
      → DueCount now m n
      → DueCount now ((id, c) ∷ m) (suc n)
  skipped :
      {n : ℕ} {id : String} {c : ApprovalCase} {m : Dict ApprovalCase}
      → ¬ IsDue now c
      → DueCount now m n
      → DueCount now ((id, c) ∷ m) n

count-DueCount :
    (now : Time) (m : Dict ApprovalCase) → DueCount now m (length (time_out_cases now m).1)
unfolding time_out_cases
count-DueCount now [] = nothing
count-DueCount now ((id, c) ∷ m) =
    if_induction
      (λ (x : Dict ApprovalCase × List ApprovalCase). DueCount now ((id, c) ∷ m) (length x.1))
      (is_overdue now c) (λ late. counted ((is_overdue_iff now c).0 late) (count-DueCount now m))
      (λ early.
        skipped (λ d. let x = (is_overdue_iff now c).1 d in absurd (ground arith))
          (count-DueCount now m))

module _ ⦃platform : Platform⦄ where
  -- A sweep resolves each stored case that waits and has reached its hard timeout: by denial where its
  -- risk is low, by forced review where it is medium, and by failing closed otherwise, with the time and
  -- the reason. It leaves every other stored case as it was, and answers how many cases were due.
  pub sweep_resolves :
      (now : Time) (s : Service) (id : String) (c : ApprovalCase)
      → lookup id s.approvals ≡ some c
      → let (s', changed) = sweep_approval_hard_timeouts now s in
        DueCount now s.approvals changed
        × (after : ApprovalCase) × (lookup id s'.approvals ≡ some after)
        × Swept now c after
  unfolding sweep_approval_hard_timeouts
  sweep_resolves now s id c found =
      let (kept, due) = time_out_cases now s.approvals in
      (
        count-DueCount now s.approvals,
        (if is_overdue now c then timed_out_case now c else c),
        ap (λ m. lookup id m) (settle_timeouts-approvals now due (record s { approvals = kept }))
            ∙ time_out_cases-at now s.approvals id c found,
        swept_as now c,
      )
