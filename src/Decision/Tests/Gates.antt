-- ===== src/Decision/Tests/Gates.antt =====
-- The theorems on the gates and on stored decisions at concrete services.
use agent_infra_system.Base.{String, ◌≡◌, inr, refl, Option, some, [], ◌∷◌, arith}
use agent_infra_system.Base.Int.{ℤ}
use agent_infra_system.Base.Dict.{Dict, lookup}
use agent_infra_system.Base.Text.{trim_space, to_lower, to_upper, is_blank}
use agent_infra_system.Run.Tests.Fixtures.{noon}
use agent_infra_system.Platform.{is_error_hash}
use agent_infra_system.Decision.Types.{Field}
use agent_infra_system.Decision.Gate.{
  can_execute_side_effect_final, can_execute_side_effect, is_stable, hash_ref_of,
  is_executable_response, extract_string_field_from_map, scalar_text, refuse_run_state,
}
use agent_infra_system.Decision.Receipts.{
  validate_execution_receipt_for_run, extract_ticket_id_from_execution_receipt_ref,
  validate_execution_receipt, receipt_of, amount, quota_exceeded, refuse_receipt,
}
use agent_infra_system.Decision.Gate.Sound.{MayExecute, gate-MayExecute}
use agent_infra_system.Decision.History.{
  record_decision_locked, get_decision, get_decision_by_version,
}
use agent_infra_system.Decision.History.Current.{IsCurrent, record_reads_back}
use agent_infra_system.Decision.Tests.Fixtures.{confirmed, stored, serving, gate_request}

gate-MayExecute_example : MayExecute gate_request noon (serving (("d1", confirmed) ∷ []) [])
unfolding can_execute_side_effect_final can_execute_side_effect lookup is_stable hash_ref_of
    is_blank trim_space is_error_hash is_executable_response to_lower extract_string_field_from_map
    scalar_text refuse_run_state to_upper validate_execution_receipt_for_run
    extract_ticket_id_from_execution_receipt_ref validate_execution_receipt receipt_of amount
    quota_exceeded refuse_receipt
gate-MayExecute_example =
    gate-MayExecute gate_request noon (serving (("d1", confirmed) ∷ []) []) refl

-- An encoder that shows the keys of an object.
show_keys : Dict Field → Option String
show_keys [] = some ""
show_keys ((k, v) ∷ m) = some k

stored-IsCurrent : IsCurrent "d1" stored (serving [] [])
unfolding lookup
stored-IsCurrent = record { stored = refl; older = []; history_is = refl; below = tt }

record_reads_back_example :
    let next = record stored { decision_type = "release" } in
    let s' = record_decision_locked show_keys "d1" next (serving [] []) in
    (version : ℤ) × (get_decision "d1" s' ≡ some (record next { version = version }))
    × (get_decision_by_version "d1" version s' ≡ some (record next { version = version }))
record_reads_back_example =
    record_reads_back show_keys "d1" (record stored { decision_type = "release" }) (serving [] []) 2
      refl (omega arith) (inr (stored, stored-IsCurrent, omega arith))
