-- ===== src/Decision/Tests/Pendings.antt =====
-- The theorems on pending decisions at concrete services.
use agent_infra_system.Base.{
  ℕ, ◌+◌, ◌≤◌, true, ◌≡◌, ◌⊎◌, refl, none, some, [], ◌∷◌, ◌++◌, arith, eq_iff, length, drop,
}
use agent_infra_system.Base.Dict.{lookup}
use agent_infra_system.Base.Int.{pos}
use agent_infra_system.Base.Text.{trim_space, to_lower, to_upper, show_int}
use agent_infra_system.Run.Tests.Fixtures.{toy, noon}
use agent_infra_system.Decision.Statuses.{PendingStatus}
use agent_infra_system.Decision.Types.{Service, PendingDecision}
use agent_infra_system.Decision.Events.{emit_event, decision_event}
use agent_infra_system.Decision.Events.Laws.{emit_event_outbox}
use agent_infra_system.Decision.Pending.{
  create_pending_decision, confirm_run_advance, confirm_found, refuse_confirm, confirm_owner,
  build_pending_owner_key, is_decision_confirmed_with_owner,
}
use agent_infra_system.Decision.Pending.Visible.{confirm_is_visible}
use agent_infra_system.Decision.Repair.{repair_pending_decisions, is_stuck}
use agent_infra_system.Decision.Repair.Rounds.{repair_never_escalates}
use agent_infra_system.Decision.Repair.Ending.{repairs_end}
use agent_infra_system.Decision.Approvals.Outcome.{enforce_approval_unlock_failure_guard}
use agent_infra_system.Decision.Setup.{new_service}
use agent_infra_system.Decision.Spec.{PendingTransition}
use agent_infra_system.Decision.Refines.Regions.{
  Region, Trace, start, next, Region-PendingTransition,
}
use agent_infra_system.Decision.Refines.Fate.{
  Vanishes, Successor, Trace-Successor, IsSound, Trace-IsSound,
}
use agent_infra_system.Decision.Tests.Fixtures.{
  small_config, waiting, review, serving, confirming, owner_meta,
}

serving_one : PendingDecision → Service
serving_one p = serving (("d1", p) ∷ []) []

Region-PendingTransition_example :
    PendingTransition
      (("d1", waiting) ∷ [])
      (confirm_run_advance confirming noon (serving_one waiting)).0.pending
unfolding serving_one lookup
Region-PendingTransition_example =
    Region-PendingTransition {s = serving_one waiting}
      {s' = (confirm_run_advance confirming noon (serving_one waiting)).0} (refl, tt)
      (Region.confirm confirming noon)

-- The advance confirms the decision; then the guard of an approval puts it on hold.
held_after_confirm : Service
unfolding serving_one
held_after_confirm =
    (enforce_approval_unlock_failure_guard review "not_required" noon
      (confirm_run_advance confirming noon (serving_one waiting)).0).0

confirm_then_guard : Trace (serving_one waiting) held_after_confirm
unfolding held_after_confirm
confirm_then_guard =
    next (next start (Region.confirm confirming noon)) (Region.guard review "not_required" noon)

Trace-Successor_example :
    Vanishes "d1" confirm_then_guard ⊎ Successor "d1" waiting held_after_confirm.pending
unfolding serving_one lookup
Trace-Successor_example =
    Trace-Successor {s = serving_one waiting} {s' = held_after_confirm} "d1" waiting (refl, tt) refl
      confirm_then_guard

Trace-IsSound_example :
    IsSound
      (create_pending_decision "d1" "r1" "s1" "low" noon owner_meta
        (new_service small_config none none)).pending
unfolding new_service
Trace-IsSound_example =
    Trace-IsSound {s = new_service small_config none none}
      {s' = create_pending_decision "d1" "r1" "s1" "low" noon owner_meta
        (new_service small_config none none)}
      refl (next start (Region.evaluate "d1" "r1" "s1" "low" noon owner_meta))

serving_one-IsSound : IsSound (("d1", waiting) ∷ [])
unfolding lookup
serving_one-IsSound = record {
  unique = (refl, tt);
  keyed = λ id p e. ground (arith, eq_iff "d1" id);
  in_budget = λ id p e h. ground (arith, eq_iff "d1" id);
}

repair_never_escalates_example :
    (repair_pending_decisions (noon + 200) (serving_one waiting)).1.escalated ≡ 0
unfolding serving_one
repair_never_escalates_example =
    repair_never_escalates (noon + 200) (serving_one waiting) serving_one-IsSound

repairs_end_example :
    lookup "d1"
      (repair_pending_decisions
        (noon + 600)
        (repair_pending_decisions
          (noon + 400)
          (repair_pending_decisions (noon + 200) (serving_one waiting)).0).0).0.pending
    ≡ some (record waiting {
      repair_attempts = 3;
      last_updated_at = noon + 600;
      status = PendingStatus.safeguard_hold;
    })
unfolding serving_one is_stuck lookup
repairs_end_example =
    repairs_end (noon + 200) (noon + 400) (noon + 600) "d1" waiting (serving_one waiting) (refl, tt)
      refl refl refl refl refl

confirm_is_visible_example :
    is_decision_confirmed_with_owner "d1" "r1" "s1"
      (pos 2)
      "pre_tool"
      (confirm_run_advance confirming noon (serving_one waiting)).0
    ≡ true
unfolding serving_one to_lower trim_space confirm_run_advance lookup confirm_found refuse_confirm
    confirm_owner build_pending_owner_key show_int to_upper
confirm_is_visible_example = confirm_is_visible confirming noon (serving_one waiting) refl refl

emit_event_outbox_example :
    let s' = emit_event "decision_confirmed" "d1" "r1" "s1" [] noon (serving_one waiting) in
    let e = decision_event s'.event_seq "decision_confirmed" "d1" "r1" "s1" [] noon in
    (length s'.outbox ≤ 10)
    × ((lost : ℕ) × (s'.outbox ≡ drop lost [] ++ e ∷ []))
    × (0 ≤ s'.max_observed_event_ts)
    × (noon ≤ s'.max_observed_event_ts)
unfolding serving_one
emit_event_outbox_example =
    emit_event_outbox "decision_confirmed" "d1" "r1" "s1" [] noon (serving_one waiting) 10 refl
      (omega arith)
