-- ===== src/Run/Advance/Gate.antt =====
-- The decision gate of `AdvanceRun`: from the decision reference to the execution receipt.
use agent_infra_system.Base.{
  String, Bool, true, false, not, ◌||◌, ◌&&◌, Option, none, some, List, [], ◌∷◌, ◌==◌,
}
use agent_infra_system.Base.Text.{trim_space, to_lower, is_blank}
use agent_infra_system.Platform.{Value}
use agent_infra_system.Run.Types.{
  KernelError, kernel_err, DecisionPort, DecisionReference, AdvanceRunRequest,
}

-- `refuse` answers the error only; `fault` names the event that goes with the safeguard hold.
pub data Gate {ℓ} (A : Type ℓ) : Type ℓ where
  pass : A → Gate A
  refuse : KernelError → Gate A
  fault : String → List (String × Value) → KernelError → Gate A

infixl 5 ◌>>=◌ ◌>>◌
abbrev pub ◌>>=◌ {ℓ κ} : {A : Type ℓ} {B : Type κ} → Gate A → (A → Gate B) → Gate B
pass a >>= f = f a
refuse e >>= f = refuse e
fault event payload e >>= f = fault event payload e

abbrev pub ◌>>◌ {ℓ} : {B : Type ℓ} → Gate (Unit {0}) → Gate B → Gate B
m >> k = m >>= λ _. k

abbrev refuse_if : Bool → KernelError → Gate (Unit {0})
refuse_if true e = refuse e
refuse_if false e = pass tt

abbrev fault_if : Bool → String → List (String × Value) → KernelError → Gate (Unit {0})
fault_if true event payload e = fault event payload e
fault_if false event payload e = pass tt

abbrev or_fault {ℓ} :
    {A : Type ℓ} → Option A → String → List (String × Value) → KernelError → Gate A
or_fault none event payload e = fault event payload e
or_fault (some a) event payload e = pass a

unfoldable pub is_executable_decision : String → Bool
is_executable_decision decision =
    let d = to_lower (trim_space decision) in d == "" || d == "allow" || d == "require_approval"

-- `strings.ToLower(strings.TrimSpace(kind))`
unfoldable pub normalize_kind : String → String
normalize_kind s = to_lower (trim_space s)

decision_payload : AdvanceRunRequest → List (String × Value)
decision_payload req = ("decision_id", Value.text req.decision_ref.decision_id) ∷ []

abbrev pending_mismatch : String → KernelError
pending_mismatch msg =
    kernel_err 409 "RUN_PENDING_DECISION_MISMATCH" msg ("pending_decision_mismatch" ∷ [])

abbrev binding_mismatch : KernelError
binding_mismatch =
    kernel_err 409 "RUN_DECISION_BINDING_MISMATCH" "decision binding mismatch"
      ("decision_binding_mismatch" ∷ [])

binding_payload : String → AdvanceRunRequest → DecisionReference → List (String × Value)
binding_payload run_id req ref =
    ("decision_id", Value.text req.decision_ref.decision_id)
    ∷ ("decision_run_id", Value.text ref.run_id)
    ∷ ("incoming_run_id", Value.text run_id)
    ∷ ("decision_step_id", Value.text ref.step_id)
    ∷ ("incoming_step_id", Value.text req.step_id)
    ∷ []

-- The reference that the port knows under the request's decision id, confirmed for this step.
unfoldable pub resolve_decision :
    Option DecisionPort → String → AdvanceRunRequest → Gate (DecisionPort × DecisionReference)
unfolding decision_payload
resolve_decision port run_id req = do
  refuse_if (is_blank req.decision_ref.decision_id || is_blank req.decision_ref.decision_hash)
      (kernel_err 422 "RUN_INPUT_INVALID" "decision_ref required" ("decision_ref_missing" ∷ []))
  p ←
      or_fault port "run_pending_decision_mismatch" (decision_payload req)
        (pending_mismatch "decision reference missing")
  ref ←
      or_fault (p.get_decision_reference req.decision_ref.decision_id)
        "run_pending_decision_mismatch" (decision_payload req)
        (pending_mismatch "decision reference missing")
  fault_if
      (not (
        p.is_decision_confirmed_with_owner req.decision_ref.decision_id run_id req.step_id
          ref.attempt_index ref.phase))
      "run_pending_decision_mismatch"
      (("decision_id", Value.text req.decision_ref.decision_id)
        ∷ ("attempt_index", Value.int ref.attempt_index)
        ∷ ("phase", Value.text ref.phase)
        ∷ [])
      (pending_mismatch "decision is not confirmed for run/step")
  pass (p, ref)

-- The hash and the binding of the reference, and that it allows to execute.
unfoldable pub check_reference : String → AdvanceRunRequest → DecisionReference → Gate (Unit {0})
unfolding normalize_kind binding_payload decision_payload is_executable_decision
check_reference run_id req ref = do
  fault_if (not ref.hash_valid || not (normalize_kind ref.hash_kind == "stable"))
      "run_decision_hash_invalid"
      (("decision_id", Value.text req.decision_ref.decision_id)
        ∷ ("hash_kind", Value.text ref.hash_kind)
        ∷ ("hash_valid", Value.bool ref.hash_valid)
        ∷ [])
      (kernel_err 409 "RUN_DECISION_HASH_INVALID" "decision hash is not stable/valid"
        ("decision_hash_invalid" ∷ []))
  fault_if (not (is_blank ref.run_id) && not (ref.run_id == run_id)) "run_decision_binding_mismatch"
      (binding_payload run_id req ref) binding_mismatch
  fault_if (not (is_blank ref.step_id) && not (ref.step_id == req.step_id))
      "run_decision_binding_mismatch" (binding_payload run_id req ref) binding_mismatch
  fault_if
      (not (req.decision_ref.decision_hash_kind == "")
        && not (normalize_kind req.decision_ref.decision_hash_kind == normalize_kind ref.hash_kind))
      "run_decision_hash_kind_mismatch"
      (("decision_id", Value.text req.decision_ref.decision_id)
        ∷ ("expected_kind", Value.text req.decision_ref.decision_hash_kind)
        ∷ ("actual_kind", Value.text ref.hash_kind)
        ∷ [])
      (kernel_err 409 "RUN_DECISION_HASH_KIND_MISMATCH" "decision hash kind mismatch"
        ("decision_hash_kind_mismatch" ∷ []))
  fault_if (not (ref.decision_hash == req.decision_ref.decision_hash)) "run_decision_hash_mismatch"
      (decision_payload req)
      (kernel_err 409 "RUN_DECISION_HASH_MISMATCH" "decision hash mismatch"
        ("decision_hash_mismatch" ∷ []))
  fault_if (not (is_executable_decision ref.decision)) "run_decision_not_executable"
      (("decision_id", Value.text req.decision_ref.decision_id)
        ∷ ("decision_value", Value.text ref.decision)
        ∷ [])
      (kernel_err 409 "RUN_DECISION_NOT_EXECUTABLE" "decision is not executable for run advance"
        ("decision_not_executable" ∷ []))

abbrev or_default_reason : List String → List String
or_default_reason [] = "execution_receipt_ticket_invalid" ∷ []
or_default_reason (r ∷ rs) = r ∷ rs

-- The execution receipt, which the port validates for the run's tenant.
unfoldable pub check_receipt : DecisionPort → String → String → AdvanceRunRequest → Gate (Unit {0})
check_receipt p run_id tenant_id req =
    let (valid, reasons) =
      p.validate_execution_receipt_for_run run_id req.step_id tenant_id req.execution_receipt_ref
        req.execution_used_resources req.execution_receipt_at in
    fault_if (not valid) "run_execution_receipt_rejected"
      (("decision_id", Value.text req.decision_ref.decision_id)
        ∷ ("execution_receipt_ref", Value.text req.execution_receipt_ref)
        ∷ ("execution_used_resources", Value.floats req.execution_used_resources)
        ∷ ("ticket_validation_pass", Value.bool false)
        ∷ ("reason_codes", Value.texts reasons)
        ∷ [])
      (kernel_err 409 "RUN_EXECUTION_RECEIPT_REJECTED" "execution receipt/ticket validation failed"
        (or_default_reason reasons))

unfoldable pub decision_gate :
    Option DecisionPort → String → String → AdvanceRunRequest → Gate DecisionReference
decision_gate port run_id tenant_id req = do
  resolved ← resolve_decision port run_id req
  check_reference run_id req resolved.1
  check_receipt resolved.0 run_id tenant_id req
  pass resolved.1
