-- ===== src/Decision/Gate.antt =====
-- The gates of internal/decision/service.go on stored decisions: the hash of a decision, and the two
-- checks before a side effect.
pub mod Sound
use agent_infra_system.Base.{
  String, Bool, true, false, not, ◌&&◌, ◌||◌, Option, none, some, List, [], ◌∷◌, ◌==◌,
  if◌then◌else◌,
}
use agent_infra_system.Base.Dict.{Dict, lookup}
use agent_infra_system.Base.Text.{trim_space, to_lower, to_upper, is_blank}
use agent_infra_system.Base.Time.{Time}
use agent_infra_system.Platform.{is_error_hash}
use agent_infra_system.Decision.Statuses.{is_confirmed}
use agent_infra_system.Decision.Types.{
  Service, StoredDecision, DecisionHashRef, SideEffectGateRequest, Field, Scalar, RunStatePort,
  RunStateReference,
}
use agent_infra_system.Decision.Receipts.{validate_execution_receipt_for_run}

unfoldable pub scalar_text : Scalar → String
scalar_text (Scalar.text t) = trim_space t
scalar_text (Scalar.number t n) = trim_space t
scalar_text Scalar.null = ""
scalar_text (Scalar.other t) = trim_space t

-- `extractStringFieldFromMap`, on an object of scalars and on a decoded object
unfoldable pub extract_string : Dict Scalar → String → String
extract_string m key = elim (lookup key m) [ none ↦ "" | some v ↦ scalar_text v ]

unfoldable pub extract_string_field_from_map : Dict Field → String → String
extract_string_field_from_map m key = elim (lookup key m) [
  | none ↦ ""
  | some v ↦ elim v [ Field.scalar v ↦ scalar_text v | Field.items t objects ↦ trim_space t ]
]

-- The reference of a stored decision, with its value and its fallback flag written in.
unfoldable pub hash_ref_of : StoredDecision → DecisionHashRef
hash_ref_of d =
    let ref = record d.decision_hash_ref { value = d.decision_hash } in
    if d.decision_hash_is_fallback then record ref { kind = "fallback"; valid = false } else ref

-- The same, with a kind where that is blank.
unfoldable pub classified_ref : StoredDecision → DecisionHashRef
classified_ref d =
    let ref = hash_ref_of d in
    if not (is_blank ref.kind)
    then ref
    else if d.decision_hash_is_fallback
    then record ref { kind = "fallback"; valid = false }
    else if not (is_blank ref.value) && not (is_error_hash ref.value)
    then record ref { kind = "stable"; valid = true }
    else record ref { kind = "error"; valid = false }

-- A hash that can be relied on.
unfoldable pub is_stable : DecisionHashRef → Bool
is_stable ref =
    ref.valid && ref.kind == "stable" && not (is_blank ref.value) && not (is_error_hash ref.value)

unfoldable pub get_decision_hash : String → Service → Option String
get_decision_hash decision_id s = elim (lookup decision_id s.decisions) [
  | none ↦ none
  | some d ↦ if is_stable (classified_ref d) then some (classified_ref d).value else none
]

unfoldable pub is_executable_response : StoredDecision → Bool
is_executable_response d =
    let decision = to_lower (trim_space (extract_string_field_from_map d.response "decision")) in
    decision == "allow" || decision == "require_approval"

unfoldable pub can_execute_side_effect : String → Service → Bool
can_execute_side_effect decision_id s = elim (lookup decision_id s.pending) [
  | none ↦ false
  | some p ↦ if not (is_confirmed p.status) then false else elim (lookup decision_id s.decisions) [
    | none ↦ false
    | some d ↦ is_stable (hash_ref_of d) && is_executable_response d
  ]
]

-- What the final gate asks of the run's state: the reason of the first check that fails.
unfoldable pub refuse_run_state : Option RunStatePort → String → Option String
refuse_run_state none run_id = some "run_state_port_not_configured"
refuse_run_state (some port) run_id = elim (port run_id) [
  | none ↦ some "run_not_found"
  | some ref ↦
      if to_upper (trim_space ref.state) == "RUNNING" then none else some "run_state_not_running"
]

unfoldable pub can_execute_side_effect_final :
    SideEffectGateRequest → Time → Service → Bool × List String
can_execute_side_effect_final req now s =
    if not (can_execute_side_effect req.decision_id s)
    then (false, "decision_not_confirmed_or_not_executable" ∷ [])
    else elim (refuse_run_state s.run_state_port req.run_id) [
      | some reason ↦ (false, reason ∷ [])
      | none ↦
          let (accepted, reasons) =
            validate_execution_receipt_for_run req.run_id req.step_id req.tenant_id
              req.execution_receipt_ref req.execution_used_resources req.execution_receipt_at now
              s in
          if not accepted then (false, reasons) else (true, [])
    ]
