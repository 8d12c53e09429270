-- ===== src/Run/Advance/Authorised.antt =====
-- What the decision gate of `AdvanceRun` lets through.
use agent_infra_system.Base.{
  String, true, false, ◌≡◌, refl, ◌⊎◌, ◌↔◌, Option, none, some, arith, eq_iff,
}
use agent_infra_system.Base.Text.{is_blank}
use agent_infra_system.Run.Types.{DecisionPort, DecisionReference, AdvanceRunRequest}
use agent_infra_system.Run.Advance.Gate.{
  Gate, pass, refuse, fault, is_executable_decision, normalize_kind, resolve_decision,
  check_reference, check_receipt, decision_gate,
}

-- The request names a decision and its hash; the port knows it under `ref`, has it confirmed for
-- this run and step, and accepts the receipt.
pub record IsBacked (p : DecisionPort) (run_id tenant_id : String) (req : AdvanceRunRequest)
    (ref : DecisionReference) : Type 0 where
  pub named : is_blank req.decision_ref.decision_id ≡ false
  pub hashed : is_blank req.decision_ref.decision_hash ≡ false
  pub known : p.get_decision_reference req.decision_ref.decision_id ≡ some ref
  pub confirmed :
      p.is_decision_confirmed_with_owner req.decision_ref.decision_id run_id req.step_id
        ref.attempt_index ref.phase
      ≡ true
  pub receipt :
      (p.validate_execution_receipt_for_run run_id req.step_id tenant_id req.execution_receipt_ref
        req.execution_used_resources req.execution_receipt_at).0
      ≡ true

-- The reference has a stable, valid hash, which is the request's; it is bound to this run and step
-- or to none; it allows to execute.
pub record IsBound (run_id : String) (req : AdvanceRunRequest) (ref : DecisionReference)
    : Type 0 where
  pub hash_valid : ref.hash_valid ≡ true
  pub hash_stable : normalize_kind ref.hash_kind ≡ "stable"
  pub run_bound : (is_blank ref.run_id ≡ true) ⊎ (ref.run_id ≡ run_id)
  pub step_bound : (is_blank ref.step_id ≡ true) ⊎ (ref.step_id ≡ req.step_id)
  pub kind_matches :
      (req.decision_ref.decision_hash_kind ≡ "")
      ⊎ (normalize_kind req.decision_ref.decision_hash_kind ≡ normalize_kind ref.hash_kind)
  pub hash_matches : ref.decision_hash ≡ req.decision_ref.decision_hash
  pub executable : is_executable_decision ref.decision ≡ true

check_reference-IsBound :
    (run_id : String) (req : AdvanceRunRequest) (ref : DecisionReference)
    → check_reference run_id req ref ≡ pass tt
    → IsBound run_id req ref
unfolding check_reference
check_reference-IsBound run_id req ref h = ground (
  arith,
  eq_iff (normalize_kind ref.hash_kind) "stable",
  eq_iff ref.run_id run_id,
  eq_iff ref.step_id req.step_id,
  eq_iff req.decision_ref.decision_hash_kind "",
  eq_iff (normalize_kind req.decision_ref.decision_hash_kind) (normalize_kind ref.hash_kind),
  eq_iff ref.decision_hash req.decision_ref.decision_hash,
)

IsBound-check_reference :
    (run_id : String) (req : AdvanceRunRequest) (ref : DecisionReference)
    → IsBound run_id req ref
    → check_reference run_id req ref ≡ pass tt
unfolding check_reference
IsBound-check_reference run_id req ref h = ground (
  arith,
  eq_iff (normalize_kind ref.hash_kind) "stable",
  eq_iff ref.run_id run_id,
  eq_iff ref.step_id req.step_id,
  eq_iff req.decision_ref.decision_hash_kind "",
  eq_iff (normalize_kind req.decision_ref.decision_hash_kind) (normalize_kind ref.hash_kind),
  eq_iff ref.decision_hash req.decision_ref.decision_hash,
)

module _ (p : DecisionPort) (run_id tenant_id : String) (req : AdvanceRunRequest) where
  resolve-check_receipt-IsBacked :
      (ref : DecisionReference)
      → resolve_decision (some p) run_id req ≡ pass (p, ref)
      → check_receipt p run_id tenant_id req ≡ pass tt
      → IsBacked p run_id tenant_id req ref
  unfolding resolve_decision check_receipt
  resolve-check_receipt-IsBacked ref h k = ground arith

  IsBacked-resolve_decision :
      (ref : DecisionReference)
      → IsBacked p run_id tenant_id req ref
      → resolve_decision (some p) run_id req ≡ pass (p, ref)
  unfolding resolve_decision
  IsBacked-resolve_decision ref h = ground arith

  IsBacked-check_receipt :
      (ref : DecisionReference)
      → IsBacked p run_id tenant_id req ref
      → check_receipt p run_id tenant_id req ≡ pass tt
  unfolding check_receipt
  IsBacked-check_receipt ref h = ground arith

  resolve_port :
      (q : DecisionPort) (ref : DecisionReference)
      → resolve_decision (some p) run_id req ≡ pass (q, ref)
      → q ≡ p
  unfolding resolve_decision
  resolve_port q ref h = ground arith

  gate_parts :
      (resolved : Gate (DecisionPort × DecisionReference)) (ref : DecisionReference)
      → resolve_decision (some p) run_id req ≡ resolved
      → decision_gate (some p) run_id tenant_id req ≡ pass ref
      → (resolve_decision (some p) run_id req ≡ pass (p, ref))
        × (check_reference run_id req ref ≡ pass tt)
        × (check_receipt p run_id tenant_id req ≡ pass tt)
  unfolding decision_gate
  gate_parts (pass (q, r)) ref e h = grind (arith, resolve_port q r)
  gate_parts (refuse x) ref e h = ground arith
  gate_parts (fault x y z) ref e h = ground arith

no_port :
    (run_id tenant_id : String) (req : AdvanceRunRequest) (ref : DecisionReference)
    → ¬ (decision_gate none run_id tenant_id req ≡ pass ref)
unfolding decision_gate resolve_decision
no_port run_id tenant_id req ref h = ground arith

module _ (p : DecisionPort) (run_id tenant_id : String) (req : AdvanceRunRequest) where
  gate-IsBacked :
      (ref : DecisionReference)
      → decision_gate (some p) run_id tenant_id req ≡ pass ref
      → IsBacked p run_id tenant_id req ref × IsBound run_id req ref
  gate-IsBacked ref h =
      let (resolved, checked, accepted) =
        gate_parts p run_id tenant_id req (resolve_decision (some p) run_id req) ref refl h in
      (
        resolve-check_receipt-IsBacked p run_id tenant_id req ref resolved accepted,
        check_reference-IsBound run_id req ref checked,
      )

  IsBacked-gate :
      (ref : DecisionReference)
      → IsBacked p run_id tenant_id req ref
      → IsBound run_id req ref
      → decision_gate (some p) run_id tenant_id req ≡ pass ref
  unfolding decision_gate
  IsBacked-gate ref backed bound = rw (
    IsBacked-resolve_decision p run_id tenant_id req ref backed,
    IsBound-check_reference run_id req ref bound,
    IsBacked-check_receipt p run_id tenant_id req ref backed,
  )

-- The gate passes a reference exactly when there is a decision port, the request and the receipt are
-- backed by it, and the reference is bound to the run and step with a stable, matching hash.
pub decision_gate_iff :
    (port : Option DecisionPort) (run_id tenant_id : String) (req : AdvanceRunRequest)
    (ref : DecisionReference)
    → (decision_gate port run_id tenant_id req ≡ pass ref) ↔ (
        (p : DecisionPort) × (port ≡ some p)
        × IsBacked p run_id tenant_id req ref
        × IsBound run_id req ref)
decision_gate_iff none run_id tenant_id req ref =
    (λ h. absurd (no_port run_id tenant_id req ref h), λ h. cc (h.1))
decision_gate_iff (some q) run_id tenant_id req ref = (
  λ h. let (backed, bound) = gate-IsBacked q run_id tenant_id req ref h in (q, refl, backed, bound),
  λ (p, e, backed, bound). rw e (IsBacked-gate p run_id tenant_id req ref backed bound),
)
