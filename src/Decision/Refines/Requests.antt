-- ===== src/Decision/Refines/Requests.antt =====
-- Evaluation, confirmation and terminalization refine the abstract view.
use agent_infra_system.Base.{
  String, true, not, ◌&&◌, ◌≡◌, refl, arith, ◌==◌, if_induction, option_induction,
}
use agent_infra_system.Base.Dict.{lookup}
use agent_infra_system.Base.Text.{trim_space, to_lower}
use agent_infra_system.Base.Time.{Time}
use agent_infra_system.Platform.{Platform}
use agent_infra_system.Decision.Statuses.{
  PendingStatus, is_pending, same_status, parse_terminal_status,
}
use agent_infra_system.Decision.Types.{
  Service, PendingDecision, PendingOwnerMeta, ConfirmRunAdvanceRequest, ConfirmRunAdvanceResponse,
  TerminalizePendingDecisionResponse, TerminalizePendingDecisionRequest,
}
use agent_infra_system.Decision.Events.{emit_event}
use agent_infra_system.Decision.Pending.{
  put_pending, opened_pending, refreshed, fill, build_pending_owner_key, duplicate_evaluate,
  create_pending_decision, refuse_confirm, confirm_found, confirm_run_advance, terminalize_found,
  terminalize_pending_decision,
}
use agent_infra_system.Decision.Spec.{
  IsKept, Follows, PendingTransition, PendingTransition-same, PendingTransition-moved,
  PendingTransition-opened, Follows-moved, may_become-pending, may_become_refl,
}

-- What an operation does to the pending decisions, with its answer left out.
pub record Moves {ℓ} (A : Type ℓ) (s : Service) (m : Service × A) : Type 0 where
  pub moves_to : PendingTransition s.pending m.0.pending

pub Moves-same {ℓ} : (A : Type ℓ) (s : Service) (a : A) → Moves A s (s, a)
Moves-same A s a = record { moves_to = PendingTransition-same s.pending s.pending refl }

pub leaves_pending :
    (p : PendingDecision) (target : PendingStatus) (now : Time)
    → is_pending p.status ≡ true
    → Follows p (record p { status = target; last_updated_at = now })
leaves_pending p target now h =
    Follows-moved p (record p { status = target; last_updated_at = now }) refl refl refl refl refl
      (may_become-pending p.status target h) (λ b e. b h)

-- A decision that is only touched.
touched : (p : PendingDecision) (now : Time) → Follows p (record p { last_updated_at = now })
touched p now =
    Follows-moved p (record p { last_updated_at = now }) refl refl refl refl refl
      (may_become_refl p.status) (λ b. b)

fill-IsKept : (held given : String) → IsKept held (fill held given)
unfolding fill
fill-IsKept held given h = ground arith

refreshed-Follows :
    (run_id step_id risk_tier owner_key : String) (now : Time) (meta : PendingOwnerMeta)
    (p : PendingDecision)
    → Follows p (refreshed run_id step_id risk_tier owner_key now meta p)
unfolding refreshed
refreshed-Follows run_id step_id risk_tier owner_key now meta p = record {
  id_same = refl;
  created_same = refl;
  run_kept = fill-IsKept p.run_id run_id;
  step_kept = fill-IsKept p.step_id step_id;
  owner_kept = fill-IsKept p.owner_key owner_key;
  moves = may_become_refl p.status;
  budget_kept = λ b. b;
}

module _ ⦃platform : Platform⦄ where
  pub confirm_run_advance-Moves :
      (req : ConfirmRunAdvanceRequest) (now : Time) (s : Service)
      → Moves ConfirmRunAdvanceResponse s (confirm_run_advance req now s)
  unfolding confirm_run_advance confirm_found put_pending emit_event
  confirm_run_advance-Moves req now s =
      option_induction (Moves ConfirmRunAdvanceResponse s) (lookup req.decision_id s.pending)
        (λ free. Moves-same ConfirmRunAdvanceResponse s _)
        (λ p found.
          option_induction (Moves ConfirmRunAdvanceResponse s) (refuse_confirm req p)
            (λ passed.
              if_induction (Moves ConfirmRunAdvanceResponse s) (not (is_pending p.status))
                (λ settled. Moves-same ConfirmRunAdvanceResponse s _)
                (λ waiting.
                  if_induction (Moves ConfirmRunAdvanceResponse s) req.success
                    (λ success. record {
                      moves_to =
                          PendingTransition-moved req.decision_id s.pending _ p _ found refl
                            (leaves_pending p PendingStatus.confirmed now (ground arith));
                    })
                    (λ failure. record {
                      moves_to =
                          PendingTransition-moved req.decision_id s.pending _ p _ found refl
                            (touched p now);
                    })))
            (λ reason failed. Moves-same ConfirmRunAdvanceResponse s _))

  pub terminalize-Moves :
      (req : TerminalizePendingDecisionRequest) (now : Time) (s : Service)
      → Moves TerminalizePendingDecisionResponse s (terminalize_pending_decision req now s)
  unfolding terminalize_pending_decision terminalize_found put_pending emit_event
  terminalize-Moves req now s =
      let M = Moves TerminalizePendingDecisionResponse s in
      option_induction M (lookup req.decision_id s.pending)
        (λ free. Moves-same TerminalizePendingDecisionResponse s _)
        (λ p found.
          option_induction M (parse_terminal_status (to_lower (trim_space req.status)))
            (λ invalid. Moves-same TerminalizePendingDecisionResponse s _)
            (λ target valid.
              if_induction M (same_status p.status target)
                (λ same. Moves-same TerminalizePendingDecisionResponse s _)
                (λ other.
                  if_induction M (not (is_pending p.status))
                    (λ settled. Moves-same TerminalizePendingDecisionResponse s _)
                    (λ waiting. record {
                      moves_to =
                          PendingTransition-moved req.decision_id s.pending _ p _ found refl
                            (leaves_pending p target now (ground arith));
                    }))))

  pub create_pending_decision-Transition :
      (decision_id run_id step_id risk_tier : String) (now : Time) (meta : PendingOwnerMeta)
      (s : Service)
      → PendingTransition s.pending
          (create_pending_decision decision_id run_id step_id risk_tier now meta s).pending
  unfolding create_pending_decision duplicate_evaluate put_pending emit_event opened_pending
  create_pending_decision-Transition decision_id run_id step_id risk_tier now meta s =
      let owner_key = build_pending_owner_key run_id step_id meta.attempt_index meta.phase in
      let M = λ (s' : Service). PendingTransition s.pending s'.pending in
      option_induction M (lookup decision_id s.pending)
        (λ free.
          PendingTransition-opened decision_id s.pending _ _ free refl
            (record { under_id = refl; starts_pending = refl; unrepaired = refl }))
        (λ p found.
          if_induction M
            (not (p.owner_key == "") && not (owner_key == "") && not (p.owner_key == owner_key))
            (λ foreign. PendingTransition-same s.pending _ refl)
            (λ own.
              if_induction M (is_pending p.status)
                (λ waiting.
                  PendingTransition-moved decision_id s.pending _ p _ found refl
                    (refreshed-Follows run_id step_id risk_tier owner_key now meta p))
                (λ settled. PendingTransition-same s.pending _ refl)))
