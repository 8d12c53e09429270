-- ===== src/Router/Crossing.antt =====
-- What a successful advance of a run says of the decision kernel behind its port.
use agent_infra_system.Base.{
  ℕ, String, true, ◌≡◌, ◌∙◌, ap, sym, subst, inl, inr, Option, none, some, List, arith, eq_iff,
  Option-cases,
}
use agent_infra_system.Base.Int.{ℤ}
use agent_infra_system.Base.Dict.{lookup}
use agent_infra_system.Base.Time.{Time}
use agent_infra_system.Platform.{Platform}
use agent_infra_system.Run.Types.{
  Kernel, ok, RunInstance, DecisionPort, DecisionReference, AdvanceRunRequest, AdvanceRunResponse,
}
use agent_infra_system.Run.Advance.{advance_run}
use agent_infra_system.Run.Advance.Authorised.{IsBacked}
use agent_infra_system.Run.Advance.Success.{advance_run-IsAuthorised}
use agent_infra_system.Run.Advance.Commit.{idempotency_key}
use agent_infra_system.Decision.Statuses.{is_confirmed}
use agent_infra_system.Decision.Types.{Service, PendingDecision, StoredDecision}
use agent_infra_system.Decision.Pending.{is_confirmed_for, is_decision_confirmed_with_owner}
use agent_infra_system.Decision.Receipts.{
  extract_ticket_id_from_execution_receipt_ref, receipt_of, validate_execution_receipt_for_run,
}
use agent_infra_system.Decision.Gate.{classified_ref}
use agent_infra_system.Decision.Gate.Sound.{IsCovered, validate_execution_receipt-IsCovered}
use agent_infra_system.Decision.Reference.{reference_of, get_decision_reference}
use agent_infra_system.Router.Ports.{decision_run_port, run_reference, run_reference_from}

-- The decision is stored under the hash that the request names, it is pending for this run and step and
-- confirmed, and a ticket covers the resources that the request says were used.
pub record IsConfirmedBehind (run_id tenant_id : String) (req : AdvanceRunRequest) (at : Time)
    (s : Service) : Type 0 where
  pub decision : StoredDecision
  pub decision_found : lookup req.decision_ref.decision_id s.decisions ≡ some decision
  pub hash_matches : decision.decision_hash ≡ req.decision_ref.decision_hash
  pub pending : PendingDecision
  pub pending_found : lookup req.decision_ref.decision_id s.pending ≡ some pending
  pub confirmed : is_confirmed pending.status ≡ true
  pub same_run : pending.run_id ≡ run_id
  pub same_step : pending.step_id ≡ req.step_id
  pub covered :
      IsCovered
        (receipt_of
          (extract_ticket_id_from_execution_receipt_ref req.execution_receipt_ref)
          run_id
          req.step_id
          tenant_id
          req.execution_used_resources
          req.execution_receipt_at
          at)
        s

-- The decision of a reference, and its hash.
reference_from :
    (s : Service) (id : String) (ref : DecisionReference)
    → run_reference_from s id ≡ some ref
    → (d : StoredDecision) × (lookup id s.decisions ≡ some d)
      × (ref.decision_hash ≡ (classified_ref d).value)
unfolding run_reference_from get_decision_reference run_reference reference_of
reference_from s id ref h = elim (Option-cases (lookup id s.decisions)) [
  | inl unknown ↦ absurd (ground arith)
  | inr (d, found) ↦ (d, found, ground arith)
]

classified_ref-value : (d : StoredDecision) → (classified_ref d).value ≡ d.decision_hash
unfolding classified_ref agent_infra_system.Decision.Gate.hash_ref_of
classified_ref-value d = ground arith

confirmed_for-parts :
    (run_id step_id : String) (attempt : ℤ) (phase : String) (p : PendingDecision)
    → is_confirmed_for run_id step_id attempt phase p ≡ true
    → (is_confirmed p.status ≡ true) × (p.run_id ≡ run_id) × (p.step_id ≡ step_id)
unfolding is_confirmed_for
confirmed_for-parts run_id step_id attempt phase p h =
    ground (arith, eq_iff p.run_id run_id, eq_iff p.step_id step_id)

confirmed_with_owner-parts :
    (id run_id step_id : String) (attempt : ℤ) (phase : String) (s : Service)
    → is_decision_confirmed_with_owner id run_id step_id attempt phase s ≡ true
    → (p : PendingDecision) × (lookup id s.pending ≡ some p)
      × (is_confirmed p.status ≡ true)
      × (p.run_id ≡ run_id)
      × (p.step_id ≡ step_id)
unfolding is_decision_confirmed_with_owner
confirmed_with_owner-parts id run_id step_id attempt phase s h =
    elim (Option-cases (lookup id s.pending)) [
      | inl free ↦ absurd (ground arith)
      | inr (p, found) ↦
          let (confirmed, run, step) =
            confirmed_for-parts run_id step_id attempt phase p (ground arith) in
          (p, found, confirmed, run, step)
    ]

receipt_for_run-IsCovered :
    (run_id step_id tenant_id receipt_ref : String) (used : List (String × ℕ))
    (received_at at : Time) (s : Service)
    → (validate_execution_receipt_for_run run_id step_id tenant_id receipt_ref used received_at at
        s).0
      ≡ true
    → IsCovered
        (receipt_of
          (extract_ticket_id_from_execution_receipt_ref receipt_ref)
          run_id
          step_id
          tenant_id
          used
          received_at
          at)
        s
unfolding validate_execution_receipt_for_run
receipt_for_run-IsCovered run_id step_id tenant_id receipt_ref used received_at at s h =
    validate_execution_receipt-IsCovered
      (receipt_of (extract_ticket_id_from_execution_receipt_ref receipt_ref) run_id step_id
        tenant_id used received_at at)
      s (ground arith)

backed-IsConfirmedBehind :
    (run_id tenant_id : String) (req : AdvanceRunRequest) (at : Time) (s : Service)
    (ref : DecisionReference)
    → IsBacked (decision_run_port (some s) at) run_id tenant_id req ref
    → ref.decision_hash ≡ req.decision_ref.decision_hash
    → IsConfirmedBehind run_id tenant_id req at s
unfolding decision_run_port
backed-IsConfirmedBehind run_id tenant_id req at s ref backed same_hash =
    let (d, found, hash) = reference_from s req.decision_ref.decision_id ref backed.known in
    let (p, pending_found, confirmed, same_run, same_step) =
      confirmed_with_owner-parts req.decision_ref.decision_id run_id req.step_id ref.attempt_index
        ref.phase s backed.confirmed in
    record {
      decision = d;
      decision_found = found;
      hash_matches = sym (hash ∙ classified_ref-value d) ∙ same_hash;
      pending = p;
      pending_found = pending_found;
      confirmed = confirmed;
      same_run = same_run;
      same_step = same_step;
      covered =
          receipt_for_run-IsCovered run_id req.step_id tenant_id req.execution_receipt_ref
            req.execution_used_resources req.execution_receipt_at at s backed.receipt;
    }

-- An advance of a stored run that answers, not from the idempotency cache, by a run kernel whose port
-- is the decision kernel: that kernel has the decision stored under the hash of the request, and
-- confirmed for this run and step, and a ticket of the run's tenant covers the resources used.
pub advance_run-IsConfirmedBehind :
    ⦃platform : Platform⦄ (run_id : String) (req : AdvanceRunRequest) (now at : Time)
    (r : RunInstance) (k k' : Kernel) (resp : AdvanceRunResponse) (s : Service)
    → k.decision_port ≡ some (decision_run_port (some s) at)
    → lookup run_id k.runs ≡ some r
    → lookup (idempotency_key run_id req) k.idempotency ≡ none
    → advance_run run_id req now k ≡ (k', ok resp)
    → IsConfirmedBehind run_id r.view.tenant_id req at s
advance_run-IsConfirmedBehind run_id req now at r k k' resp s port found uncached done =
    let a = advance_run-IsAuthorised run_id req now r k k' resp found uncached done in
    let e = sym a.port_set ∙ port in
    let same = ap (λ (o : Option DecisionPort). elim o [ none ↦ a.port | some p ↦ p ]) e in
    let backed = subst (λ p. IsBacked p run_id r.view.tenant_id req a.ref) same a.backed in
    backed-IsConfirmedBehind run_id r.view.tenant_id req at s a.ref backed a.bound.hash_matches
