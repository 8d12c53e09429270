-- ===== src/Decision/Pending.antt =====
-- The pending decisions of internal/decision/service.go: how one is opened by an evaluation, confirmed
-- by the advance of its run, closed by an operator, and how the run kernel asks for it.
pub mod Visible
use Prim.Native.String.{◌++◌}
use agent_infra_system.Base.{
  ℕ, String, Bool, true, false, not, ◌&&◌, ◌||◌, Option, none, some, List, [], ◌∷◌, ◌==◌,
  if◌then◌else◌,
}
use agent_infra_system.Base.Int.{ℤ, pos, leb_ℤ, ltb_ℤ, eq_ℤ}
use agent_infra_system.Base.Dict.{lookup, insert}
use agent_infra_system.Base.Text.{trim_space, to_lower, to_upper, show_int}
use agent_infra_system.Base.Time.{Time}
use agent_infra_system.Platform.{Platform, Value}
use agent_infra_system.Decision.Statuses.{
  PendingStatus, show_pending, is_pending, is_confirmed, same_status, parse_terminal_status,
}
use agent_infra_system.Decision.Types.{
  Service, PendingDecision, PendingOwnerMeta, ConfirmRunAdvanceRequest, ConfirmRunAdvanceResponse,
  TerminalizePendingDecisionRequest, TerminalizePendingDecisionResponse,
}
use agent_infra_system.Decision.Events.{emit_event}

-- `run|step|attempt|PHASE`, in lower case
unfoldable pub build_pending_owner_key : String → String → ℤ → String → String
build_pending_owner_key run_id step_id attempt phase = to_lower (
    trim_space
      (run_id ++ "|" ++ step_id ++ "|" ++ show_int attempt ++ "|" ++ to_upper (trim_space phase)))

-- A write through the pointer that the map holds.
unfoldable pub put_pending : String → PendingDecision → Service → Service
put_pending id p s = record s { pending = insert id p s.pending }

unfoldable pub opened_pending :
    String → String → String → String → Time → PendingOwnerMeta → PendingDecision
opened_pending decision_id run_id step_id risk_tier now meta = record {
  decision_id = decision_id;
  run_id = run_id;
  step_id = step_id;
  risk_tier = risk_tier;
  attempt_index = meta.attempt_index;
  phase = to_upper (trim_space meta.phase);
  owner_key = build_pending_owner_key run_id step_id meta.attempt_index meta.phase;
  created_at = now;
  last_updated_at = now;
  repair_attempts = 0;
  status = PendingStatus.pending;
}

-- `if held == "" { held = given }`
unfoldable pub fill : String → String → String
fill held given = if held == "" then given else held

-- An evaluation that is repeated while the decision is pending fills in what was blank.
unfoldable pub refreshed :
    String → String → String → String → Time → PendingOwnerMeta → PendingDecision → PendingDecision
unfolding fill
refreshed run_id step_id risk_tier owner_key now meta p = record p {
  last_updated_at = now;
  run_id = fill p.run_id run_id;
  step_id = fill p.step_id step_id;
  risk_tier = fill p.risk_tier risk_tier;
  attempt_index = if eq_ℤ p.attempt_index (pos 0) then meta.attempt_index else p.attempt_index;
  phase = fill p.phase (to_upper (trim_space meta.phase));
  owner_key = fill p.owner_key owner_key;
}

-- The key that a confirmation stands for: the one it names, or the one made of its parts.
unfoldable pub confirm_owner : ConfirmRunAdvanceRequest → String
confirm_owner req =
    let owner = to_lower (trim_space req.owner_key) in
    let phase = to_upper (trim_space req.phase) in
    if owner == "" && (ltb_ℤ (pos 0) req.attempt_index || not (phase == ""))
    then build_pending_owner_key req.run_id req.step_id req.attempt_index phase
    else owner

-- The checks of a confirmation before the status is read: the reason of the first that fails.
unfoldable pub refuse_confirm : ConfirmRunAdvanceRequest → PendingDecision → Option String
refuse_confirm req p =
    let phase = to_upper (trim_space req.phase) in
    let owner = confirm_owner req in
    if not (p.run_id == req.run_id) || not (p.step_id == req.step_id)
    then some "pending_decision_mismatch"
    else if not (p.owner_key == "") && owner == ""
    then some "pending_owner_required"
    else if not (p.owner_key == "") && not (owner == p.owner_key)
    then some "pending_owner_mismatch"
    else if ltb_ℤ (pos 0) p.attempt_index
        && ltb_ℤ (pos 0) req.attempt_index
        && not (eq_ℤ p.attempt_index req.attempt_index)
    then some "pending_attempt_mismatch"
    else if not (p.phase == "") && not (phase == "") && not (p.phase == phase)
    then some "pending_phase_mismatch"
    else none

confirm_answer : PendingStatus → List String → ConfirmRunAdvanceResponse
confirm_answer status reasons = record { status = show_pending status; reason_codes = reasons }

close_answer : PendingStatus → List String → TerminalizePendingDecisionResponse
close_answer status reasons = record { status = show_pending status; reason_codes = reasons }

module _ ⦃platform : Platform⦄ where
  unfoldable pub duplicate_evaluate :
      String → PendingStatus → Time → PendingDecision → Service → Service
  duplicate_evaluate decision_id status now p s =
      emit_event "pending_duplicate_evaluate" decision_id p.run_id p.step_id
        (("existing_status", Value.text (show_pending status)) ∷ []) now s

  unfoldable pub create_pending_decision :
      String → String → String → String → Time → PendingOwnerMeta → Service → Service
  create_pending_decision decision_id run_id step_id risk_tier now meta s =
      let owner_key = build_pending_owner_key run_id step_id meta.attempt_index meta.phase in
      elim (lookup decision_id s.pending) [
        | none ↦
            put_pending decision_id (opened_pending decision_id run_id step_id risk_tier now meta) s
        | some p ↦
            if not (p.owner_key == "") && not (owner_key == "") && not (p.owner_key == owner_key)
            then emit_event "pending_owner_mismatch" decision_id run_id step_id
                (("existing_owner_key", Value.text p.owner_key)
                  ∷ ("incoming_owner_key", Value.text owner_key)
                  ∷ ("existing_status", Value.text (show_pending p.status))
                  ∷ [])
                now s
            else let q = refreshed run_id step_id risk_tier owner_key now meta p in
              if is_pending p.status
              then duplicate_evaluate decision_id p.status now q (put_pending decision_id q s)
              else duplicate_evaluate decision_id p.status now p s
      ]

  unfoldable pub confirm_found :
      ConfirmRunAdvanceRequest
      → Time
      → PendingDecision
      → Service
      → Service × ConfirmRunAdvanceResponse
  unfolding confirm_answer
  confirm_found req now p s = elim (refuse_confirm req p) [
    | some reason ↦ (s, confirm_answer p.status (reason ∷ []))
    | none ↦
        if not (is_pending p.status)
        then (
          s,
          if req.success && is_confirmed p.status
              then confirm_answer p.status []
              else confirm_answer p.status ("pending_decision_terminal_state_immutable" ∷ []),
        )
        else if req.success
        then (
          emit_event "decision_confirmed" req.decision_id req.run_id req.step_id [] now (
              put_pending req.decision_id
                (record p { status = PendingStatus.confirmed; last_updated_at = now }) s),
          confirm_answer PendingStatus.confirmed [],
        )
        else (
          emit_event "pending_decision_still_pending" req.decision_id req.run_id req.step_id [] now
              (put_pending req.decision_id (record p { last_updated_at = now }) s),
          confirm_answer p.status ("run_advance_failed" ∷ []),
        )
  ]

  unfoldable pub confirm_run_advance :
      ConfirmRunAdvanceRequest → Time → Service → Service × ConfirmRunAdvanceResponse
  confirm_run_advance req now s = elim (lookup req.decision_id s.pending) [
    | none ↦ (s, record { status = "not_found"; reason_codes = "pending_decision_not_found" ∷ [] })
    | some p ↦ confirm_found req now p s
  ]

  unfoldable pub terminalize_found :
      TerminalizePendingDecisionRequest
      → Time
      → PendingDecision
      → Service
      → Service × TerminalizePendingDecisionResponse
  unfolding close_answer
  terminalize_found req now p s = elim (parse_terminal_status (to_lower (trim_space req.status))) [
    | none ↦ (s, close_answer p.status ("invalid_terminal_status" ∷ []))
    | some target ↦
        if same_status p.status target
        then (s, close_answer p.status [])
        else if not (is_pending p.status)
        then (s, close_answer p.status ("pending_decision_already_terminal" ∷ []))
        else (
          emit_event "pending_decision_terminalized" p.decision_id p.run_id p.step_id
              (("target_status", Value.text (show_pending target))
                ∷ ("reason", Value.text req.reason)
                ∷ ("actor", Value.text req.actor)
                ∷ [])
              now
              (put_pending req.decision_id (record p { status = target; last_updated_at = now }) s),
          close_answer target [],
        )
  ]

  unfoldable pub terminalize_pending_decision :
      TerminalizePendingDecisionRequest
      → Time
      → Service
      → Service × TerminalizePendingDecisionResponse
  terminalize_pending_decision req now s = elim (lookup req.decision_id s.pending) [
    | none ↦ (s, record { status = "not_found"; reason_codes = "pending_decision_not_found" ∷ [] })
    | some p ↦ terminalize_found req now p s
  ]

-- What `IsDecisionConfirmedWithOwner` tests of the pending decision it finds.
unfoldable pub is_confirmed_for : String → String → ℤ → String → PendingDecision → Bool
is_confirmed_for run_id step_id attempt_index phase p =
    let normalized = to_upper (trim_space phase) in
    p.run_id == run_id
    && p.step_id == step_id
    && is_confirmed p.status
    && not (
        ltb_ℤ (pos 0) p.attempt_index
        && ltb_ℤ (pos 0) attempt_index
        && not (eq_ℤ p.attempt_index attempt_index))
    && not (not (p.phase == "") && not (normalized == "") && not (p.phase == normalized))
    && (p.owner_key == ""
        || (not (leb_ℤ attempt_index (pos 0) && normalized == "")
            && build_pending_owner_key run_id step_id attempt_index normalized == p.owner_key))

unfoldable pub is_decision_confirmed_with_owner :
    String → String → String → ℤ → String → Service → Bool
is_decision_confirmed_with_owner decision_id run_id step_id attempt_index phase s =
    elim (lookup decision_id s.pending) [
      | none ↦ false
      | some p ↦ is_confirmed_for run_id step_id attempt_index phase p
    ]

unfoldable pub is_decision_confirmed : String → String → String → Service → Bool
is_decision_confirmed decision_id run_id step_id s =
    is_decision_confirmed_with_owner decision_id run_id step_id (pos 0) "" s
