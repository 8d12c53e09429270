-- ===== src/Router/Ports.antt =====
-- The ports that internal/httpapi/router.go makes of one kernel for the other: `decisionRunPort`,
-- `decisionRunStatePort` and `decisionApprovalRunUnlockPort`. A kernel may be missing (`nil`).
use Prim.Native.String.{◌++◌}
use agent_infra_system.Base.{
  String, true, false, not, Option, none, some, [], ◌∷◌, ◌==◌, map, if◌then◌else◌,
}
use agent_infra_system.Base.Int.{int64_succ}
use agent_infra_system.Base.Text.{trim_space, to_lower}
use agent_infra_system.Base.Time.{Time, is_zero}
use agent_infra_system.Platform.{Platform}
use agent_infra_system.Run.States.{show_state}
use agent_infra_system.Run.Types.{
  Kernel, ok, err, RunView, Continuation, DecisionPort, DecisionReference, DecisionObligation,
  ResumeRunRequest,
}
use agent_infra_system.Run.Setup.{get_run, find_active_continuation}
use agent_infra_system.Run.Resume.{resume_run}
use agent_infra_system.Decision.Types.{
  Service, StoredReference, Obligation, RunStatePort, ApprovalRunUnlockSignal, Dispatch,
}
use agent_infra_system.Decision.Pending.{is_decision_confirmed_with_owner}
use agent_infra_system.Decision.Receipts.{validate_execution_receipt_for_run}
use agent_infra_system.Decision.Reference.{get_decision_reference}

unfoldable pub run_obligation : Obligation → DecisionObligation
run_obligation ob = record {
  type = ob.type;
  target = ob.target;
  value = ob.value;
  phase = ob.phase;
  strictness = ob.strictness;
}

unfoldable pub run_reference : StoredReference → DecisionReference
run_reference ref = record {
  decision_id = ref.decision_id;
  run_id = ref.run_id;
  step_id = ref.step_id;
  attempt_index = ref.attempt_index;
  phase = ref.phase;
  decision = ref.decision;
  obligations = map run_obligation ref.obligations;
  decision_hash = ref.decision_hash_ref.value;
  hash_valid = ref.decision_hash_ref.valid;
  hash_kind = ref.decision_hash_ref.kind;
}

unfoldable pub run_reference_from : Service → String → Option DecisionReference
run_reference_from s decision_id = elim (get_decision_reference decision_id s) [
  | none ↦ none
  | some ref ↦ some (run_reference ref)
]

-- What the run kernel asks of the decision kernel; `now` is the clock of the latter.
unfoldable pub decision_run_port : Option Service → Time → DecisionPort
decision_run_port none now = record {
  is_decision_confirmed_with_owner = λ decision_id run_id step_id attempt_index phase. false;
  get_decision_reference = λ decision_id. none;
  validate_execution_receipt_for_run = λ run_id step_id tenant_id receipt_ref used received_at.
      (false, "decision_kernel_unavailable" ∷ []);
}
decision_run_port (some s) now = record {
  is_decision_confirmed_with_owner = λ decision_id run_id step_id attempt_index phase.
      is_decision_confirmed_with_owner decision_id run_id step_id attempt_index phase s;
  get_decision_reference = run_reference_from s;
  validate_execution_receipt_for_run = λ run_id step_id tenant_id receipt_ref used received_at.
      validate_execution_receipt_for_run run_id step_id tenant_id receipt_ref used received_at now
        s;
}

-- What the decision kernel asks of the run kernel.
unfoldable pub decision_run_state_port : Option Kernel → RunStatePort
decision_run_state_port none run_id = none
decision_run_state_port (some k) run_id = elim (get_run run_id k) [
  | err e ↦ none
  | ok view ↦ some (record {
    run_id = view.run_id;
    state = show_state view.state;
    state_version = view.state_version;
    updated_at = view.updated_at;
  })
]

-- `if t.IsZero() { t = time.Now() }`
or_now : Time → Time → Time
or_now now t = if is_zero t then now else t

unlocked : String → Time → Dispatch
unlocked status at = Dispatch.answered (record {
  dispatch_status = status;
  business_action_unblocked = true;
  business_action_unblocked_at = at;
  reason_codes = [];
})

unfoldable pub unlock_request : ApprovalRunUnlockSignal → Continuation → RunView → ResumeRunRequest
unlock_request signal cont view = record {
  continuation_token = cont.continuation_id;
  resume_reason = "approval_approved";
  receipt_ref = "decision://approval_unlock/" ++ signal.case_id;
  incoming_step_seq_id = int64_succ view.current_step_seq_id;
  expected_snapshot_hash = view.snapshot.snapshot_hash;
}

module _ ⦃platform : Platform⦄ where
  -- From the continuation and the view on: the run is resumed, and read again.
  unfoldable pub unlock_found :
      ApprovalRunUnlockSignal → Continuation → RunView → Time → Kernel → Kernel × Dispatch
  unfolding unlocked or_now
  unlock_found signal cont view now k =
      let (k', answer) = resume_run signal.run_id (unlock_request signal cont view) now k in
      elim answer [
        | err e ↦ (k', Dispatch.failed e.message)
        | ok resumed ↦ elim (get_run signal.run_id k') [
          | err e ↦ (k', Dispatch.failed e.message)
          | ok updated ↦ (k', unlocked "dispatched" (or_now now updated.updated_at))
        ]
      ]

  -- What the run kernel does when it is told of an approval; `now` is the clock of both.
  unfoldable pub dispatch_run_unlock :
      ApprovalRunUnlockSignal → Time → Option Kernel → Option Kernel × Dispatch
  unfolding unlocked or_now
  dispatch_run_unlock signal now none = (none, Dispatch.failed "run kernel unavailable")
  dispatch_run_unlock signal now (some k) =
      if not (to_lower (trim_space signal.outcome) == "approved")
      then (some k, unlocked "not_required" (or_now now signal.resolved_at))
      else elim (find_active_continuation signal.run_id signal.step_id "approval" now k) [
        | none ↦ (
          some k,
          Dispatch.failed (
              "approval continuation not found for run=" ++ signal.run_id ++ " step="
              ++ signal.step_id),
        )
        | some cont ↦ elim (get_run signal.run_id k) [
          | err e ↦ (some k, Dispatch.failed e.message)
          | ok view ↦ let (k', reply) = unlock_found signal cont view now k in (some k', reply)
        ]
      ]
