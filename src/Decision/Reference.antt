-- ===== src/Decision/Reference.antt =====
-- `GetDecisionReference` of internal/decision/service.go: what the run kernel is told of a decision.
use agent_infra_system.Base.{String, ◌||◌, Option, none, some, List, [], ◌∷◌, ◌==◌, if◌then◌else◌}
use agent_infra_system.Base.Int.{ℤ, pos}
use agent_infra_system.Base.Dict.{Dict, lookup}
use agent_infra_system.Base.Text.{trim_space, to_upper, atoi}
use agent_infra_system.Decision.Types.{
  Service, StoredDecision, StoredReference, Obligation, Field, Scalar,
}
use agent_infra_system.Decision.Gate.{classified_ref, extract_string, extract_string_field_from_map}

-- `strconv.Atoi(strings.TrimSpace(t))`, or 0
atoi_or_zero : String → ℤ
atoi_or_zero t = elim (atoi (trim_space t)) [ none ↦ pos 0 | some n ↦ n ]

unfoldable pub extract_int_field_from_map : Dict Scalar → String → ℤ
unfolding atoi_or_zero
extract_int_field_from_map m key = elim (lookup key m) [
  | none ↦ pos 0
  | some v ↦ elim v [
    | Scalar.text t ↦ atoi_or_zero t
    | Scalar.number t n ↦ n
    | Scalar.null ↦ pos 0
    | Scalar.other t ↦ pos 0
  ]
]

unfoldable pub obligation_of : Dict Scalar → Obligation
obligation_of m = record {
  type = extract_string m "type";
  target = extract_string m "target";
  value = extract_string m "value";
  phase = to_upper (extract_string m "phase");
  strictness = extract_int_field_from_map m "strictness";
}

-- The loop over the list: an obligation without a type or a value is left out.
unfoldable pub obligations_of : List (Dict Scalar) → List Obligation
obligations_of [] = []
obligations_of (m ∷ rest) =
    let later = obligations_of rest in
    let ob = obligation_of m in if ob.type == "" || ob.value == "" then later else ob ∷ later

unfoldable pub extract_obligations_from_map : Dict Field → List Obligation
extract_obligations_from_map m = elim (lookup "obligations" m) [
  | none ↦ []
  | some v ↦ elim v [ Field.scalar s ↦ [] | Field.items t objects ↦ obligations_of objects ]
]

-- The decision that a response gives, or its final one.
unfoldable pub decision_value : Dict Field → String
decision_value response =
    let decision = extract_string_field_from_map response "decision" in
    if decision == "" then extract_string_field_from_map response "final_decision" else decision

unfoldable pub reference_of : StoredDecision → StoredReference
reference_of d = record {
  decision_id = d.decision_id;
  run_id = d.run_id;
  step_id = d.step_id;
  attempt_index = d.attempt_index;
  phase = d.phase;
  decision = decision_value d.response;
  obligations = extract_obligations_from_map d.response;
  decision_hash_ref = classified_ref d;
}

unfoldable pub get_decision_reference : String → Service → Option StoredReference
get_decision_reference decision_id s = elim (lookup decision_id s.decisions) [
  | none ↦ none
  | some d ↦ some (reference_of d)
]
