-- ===== src/Run/Obligations.antt =====
-- `enforceDecisionObligationsLocked` of internal/run/kernel.go. `judge` is the body of the loop up to
-- what it does to the kernel; `apply_verdict` does that; the loop stops at the first refusal.
pub mod Limits
pub mod Templates
pub mod Enforce
pub mod Accepted
use Prim.Native.String.{◌++◌}
use agent_infra_system.Base.{
  ℕ, suc, String, Bool, true, false, not, ◌||◌, ◌&&◌, Option, none, some, List, [], ◌∷◌, is_empty,
  if◌then◌else◌, ◌==◌,
}
use agent_infra_system.Base.Int.{pos}
use agent_infra_system.Base.Dict.{Dict, insert}
use agent_infra_system.Base.Text.{trim_space, to_lower, to_upper, show_decimal}
use agent_infra_system.Base.Time.{Time}
use agent_infra_system.Platform.{Platform, Value}
use agent_infra_system.Run.Types.{
  Kernel, KernelError, kernel_err, DecisionObligation, DecisionReference, AdvanceRunRequest,
}
use agent_infra_system.Run.Outbox.{emit}
use Limits.{enforce_limit_param_obligation}
use Templates.{receipt_ref_has_template_evidence, sorted_template_evidence_ids}

abbrev pub Payload : Type 0
Payload = List (String × Value)

-- What one obligation asks for: nothing, a tag, an audit event, or to stop the advance.
pub data Verdict : Type 0 where
  pass : Verdict
  tag : String → String → Payload → Verdict
  audit : Payload → Verdict
  refuse : String → Payload → KernelError → Verdict

-- The run's phase: PRE_TOOL where the decision names none.
unfoldable pub run_phase : DecisionReference → String
run_phase ref =
    let phase = to_upper (trim_space ref.phase) in if phase == "" then "PRE_TOOL" else phase

unfoldable pub is_obligation_phase_allowed : String → String → Bool
is_obligation_phase_allowed run_phase obligation_phase =
    let rp = to_upper (trim_space run_phase) in
    let op = to_upper (trim_space obligation_phase) in
    if rp == "PRE_CONTEXT"
    then op == "PRE_CONTEXT"
    else if rp == "PRE_TOOL"
    then op == "PRE_CONTEXT" || op == "PRE_TOOL"
    else false

abbrev pub obligation_type : DecisionObligation → String
obligation_type ob = to_lower (trim_space ob.type)

unfoldable pub obligation_phase : String → DecisionObligation → String
obligation_phase phase ob =
    let own = to_upper (trim_space ob.phase) in if own == "" then phase else own

-- The payload of the events that quote the whole obligation.
obligation_payload : DecisionReference → DecisionObligation → ℕ → Payload
obligation_payload ref ob idx =
    ("decision_id", Value.text ref.decision_id)
    ∷ ("obligation_type", Value.text (obligation_type ob))
    ∷ ("obligation_target", Value.text ob.target)
    ∷ ("obligation_value", Value.text ob.value)
    ∷ ("index", Value.int (pos idx))
    ∷ []

phase_mismatch : DecisionReference → DecisionObligation → ℕ → String → Verdict
unfolding obligation_phase
phase_mismatch ref ob idx phase =
    refuse "run_obligation_phase_mismatch"
      (("decision_id", Value.text ref.decision_id)
        ∷ ("obligation_type", Value.text (obligation_type ob))
        ∷ ("obligation_phase", Value.text (obligation_phase phase ob))
        ∷ ("run_phase", Value.text phase)
        ∷ ("index", Value.int (pos idx))
        ∷ [])
      (kernel_err 409 "RUN_OBLIGATION_PHASE_MISMATCH" "obligation phase not allowed for advance"
        ("obligation_phase_mismatch" ∷ []))

deny_execution : DecisionReference → DecisionObligation → ℕ → Verdict
unfolding obligation_payload
deny_execution ref ob idx = refuse "run_obligation_deny_execution" (obligation_payload ref ob idx) (
    kernel_err 409 "RUN_OBLIGATION_DENY_EXECUTION" "deny_execution obligation blocks run advance"
      ("obligation_deny_execution" ∷ []))

limit_param : AdvanceRunRequest → DecisionReference → DecisionObligation → ℕ → Verdict
limit_param req ref ob idx = elim (enforce_limit_param_obligation req ob) [
  | none ↦ pass
  | some e ↦
      refuse "run_obligation_limit_violation"
        (("decision_id", Value.text ref.decision_id)
          ∷ ("obligation_type", Value.text (obligation_type ob))
          ∷ ("obligation_target", Value.text ob.target)
          ∷ ("obligation_value", Value.text ob.value)
          ∷ ("index", Value.int (pos idx))
          ∷ ("error", Value.text e)
          ∷ [])
        (kernel_err 409 "RUN_OBLIGATION_LIMIT_PARAM_VIOLATION" "limit_param obligation violated"
          ("obligation_limit_param_violation" ∷ []))
]

unfoldable pub tag_key : DecisionObligation → ℕ → String
tag_key ob idx =
    let key = trim_space ob.target in
    if key == "" then "obligation_tag_" ++ show_decimal idx else key

attach_tag : DecisionReference → DecisionObligation → ℕ → Verdict
unfolding tag_key
attach_tag ref ob idx = tag (tag_key ob idx) (trim_space ob.value) (
    ("decision_id", Value.text ref.decision_id)
    ∷ ("tag", Value.text (tag_key ob idx))
    ∷ ("value", Value.text ob.value)
    ∷ ("index", Value.int (pos idx))
    ∷ [])

-- The template that is asked for: the value, or the target where that is blank.
unfoldable pub template_id : DecisionObligation → String
template_id ob = let id = trim_space ob.value in if id == "" then trim_space ob.target else id

module _ ⦃platform : Platform⦄ where
  require_template : AdvanceRunRequest → DecisionReference → DecisionObligation → ℕ → Verdict
  unfolding template_id
  require_template req ref ob idx =
      let id = template_id ob in
      if not (id == "") && not (receipt_ref_has_template_evidence req.execution_receipt_ref id)
      then refuse "run_obligation_template_missing"
          (("decision_id", Value.text ref.decision_id)
            ∷ ("template_id", Value.text id)
            ∷ ("receipt_ref", Value.text req.execution_receipt_ref)
            ∷ (
              "resolved_templates",
              Value.texts (sorted_template_evidence_ids req.execution_receipt_ref),
            )
            ∷ ("proof_match_required", Value.bool true)
            ∷ ("index", Value.int (pos idx))
            ∷ [])
          (kernel_err 409 "RUN_OBLIGATION_TEMPLATE_REQUIRED"
            "required template evidence missing in execution_receipt_ref"
            ("obligation_template_required" ∷ []))
      else pass

  unsupported : DecisionReference → DecisionObligation → ℕ → Verdict
  unsupported ref ob idx =
      refuse "run_obligation_unsupported"
        (("decision_id", Value.text ref.decision_id)
          ∷ ("obligation_type", Value.text (obligation_type ob))
          ∷ ("index", Value.int (pos idx))
          ∷ [])
        (kernel_err 409 "RUN_OBLIGATION_UNSUPPORTED_TYPE" "unsupported obligation type"
          ("obligation_unsupported" ∷ []))

  -- `switch obType`
  by_type : AdvanceRunRequest → DecisionReference → ℕ → DecisionObligation → Verdict
  unfolding deny_execution limit_param attach_tag require_template unsupported obligation_payload
  by_type req ref idx ob =
      let t = obligation_type ob in
      if t == "deny_execution"
      then deny_execution ref ob idx
      else if t == "limit_param"
      then limit_param req ref ob idx
      else if t == "attach_tag"
      then attach_tag ref ob idx
      else if t == "require_template"
      then require_template req ref ob idx
      else if t == "emit_audit"
      then audit (obligation_payload ref ob idx)
      else unsupported ref ob idx

  unfoldable pub judge : AdvanceRunRequest → DecisionReference → ℕ → DecisionObligation → Verdict
  unfolding phase_mismatch by_type
  judge req ref idx ob =
      if obligation_type ob == ""
      then pass
      else if not
          (is_obligation_phase_allowed (run_phase ref) (obligation_phase (run_phase ref) ob))
      then phase_mismatch ref ob idx (run_phase ref)
      else by_type req ref idx ob

  -- What a verdict does to the kernel and the run's tags, and the error if it stops the advance.
  apply_verdict :
      String
      → String
      → Time
      → Verdict
      → Kernel
      → Dict String
      → Kernel × Dict String × Option KernelError
  apply_verdict run_id step_id now pass k tags = (k, tags, none)
  apply_verdict run_id step_id now (tag key value payload) k tags =
      (emit "run_obligation_tag_attached" run_id step_id payload now k, insert key value tags, none)
  apply_verdict run_id step_id now (audit payload) k tags =
      (emit "run_obligation_audit_event" run_id step_id payload now k, tags, none)
  apply_verdict run_id step_id now (refuse event payload e) k tags =
      (emit event run_id step_id payload now k, tags, some e)

  enforce_from :
      String
      → AdvanceRunRequest
      → DecisionReference
      → Time
      → ℕ
      → List DecisionObligation
      → Kernel
      → Dict String
      → Kernel × Dict String × Option KernelError
  unfolding apply_verdict
  enforce_from run_id req ref now idx [] k tags = (k, tags, none)
  enforce_from run_id req ref now idx (ob ∷ obs) k tags =
      let (k', tags', e) = apply_verdict run_id req.step_id now (judge req ref idx ob) k tags in
      elim e [
        | none ↦ enforce_from run_id req ref now (suc idx) obs k' tags'
        | some failure ↦ (k', tags', some failure)
      ]

  unfoldable pub enforce_decision_obligations :
      String
      → AdvanceRunRequest
      → DecisionReference
      → Time
      → Kernel
      → Dict String
      → Kernel × Dict String × Option KernelError
  unfolding enforce_from
  enforce_decision_obligations run_id req ref now k tags =
      enforce_from run_id req ref now 0 ref.obligations k tags
