-- ===== src/Decision/Repair.antt =====
-- `RepairPendingDecisions` of internal/decision/service.go: what happens to a decision that stays
-- pending for longer than its time to live.
pub mod Rounds
pub mod Ending
use agent_infra_system.Base.{
  ℕ, suc, ◌+◌, String, Bool, not, ◌||◌, Option, none, some, List, [], ◌∷◌, if◌then◌else◌, nat_eq,
}
use agent_infra_system.Base.Int.{pos, leb_ℤ}
use agent_infra_system.Base.Dict.{Dict}
use agent_infra_system.Base.Time.{Time, Duration, sub}
use agent_infra_system.Platform.{Platform, Value}
use agent_infra_system.Decision.Statuses.{PendingStatus, is_pending}
use agent_infra_system.Decision.Types.{Service, PendingDecision, PendingRepairResult}
use agent_infra_system.Decision.Events.{emit_event}
use agent_infra_system.Decision.Pending.{put_pending}

-- Pending, and idle for longer than the time to live.
unfoldable pub is_stuck : Time → Duration → PendingDecision → Bool
is_stuck now ttl p =
    if not (is_pending p.status) then Bool.false else not (leb_ℤ (sub now p.last_updated_at) ttl)

-- What the n-th attempt does: the status after it and the event.
unfoldable pub repair_status : ℕ → PendingStatus
repair_status n =
    if nat_eq n 1 || nat_eq n 2
    then PendingStatus.pending
    else if nat_eq n 3
    then PendingStatus.safeguard_hold
    else PendingStatus.escalated_oncall

unfoldable pub repair_event : ℕ → String
repair_event n =
    if nat_eq n 1
    then "pending_decision_retry_confirm"
    else if nat_eq n 2
    then "pending_decision_compare_run_state"
    else if nat_eq n 3
    then "pending_decision_enter_safeguard_hold"
    else "pending_decision_escalate_oncall"

unfoldable pub repaired_decision : Time → PendingDecision → PendingDecision
repaired_decision now p = record p {
  repair_attempts = suc p.repair_attempts;
  last_updated_at = now;
  status = repair_status (suc p.repair_attempts);
}

unfoldable pub count_repair : ℕ → PendingRepairResult → PendingRepairResult
count_repair n r =
    if nat_eq n 1 || nat_eq n 2
    then record r { scanned = r.scanned + 1; repaired = r.repaired + 1 }
    else if nat_eq n 3
    then record r { scanned = r.scanned + 1; safeguard_hold = r.safeguard_hold + 1 }
    else record r { scanned = r.scanned + 1; escalated = r.escalated + 1 }

module _ ⦃platform : Platform⦄ where
  -- One round of the loop, on a stuck decision.
  unfoldable pub repair_one : Time → String → PendingDecision → Service → Service
  repair_one now id p s =
      let n = suc p.repair_attempts in
      emit_event (repair_event n) p.decision_id p.run_id p.step_id
        (("repair_attempts", Value.int (pos n))
          ∷ ("worker_id", Value.text s.cfg.pending_repair_worker_id)
          ∷ [])
        now (put_pending id (repaired_decision now p) s)

  -- The loop over the entries that the map had at its start.
  unfoldable pub repair_all :
      Time → Dict PendingDecision → Service × PendingRepairResult → Service × PendingRepairResult
  repair_all now [] m = m
  repair_all now ((id, p) ∷ rest) (s, r) =
      let next =
        if is_stuck now s.cfg.pending_decision_ttl p
        then (repair_one now id p s, count_repair (suc p.repair_attempts) r)
        else (s, r) in
      repair_all now rest next

  unfoldable pub repair_pending_decisions : Time → Service → Service × PendingRepairResult
  repair_pending_decisions now s = repair_all now s.pending (
    s,
    record { scanned = 0; repaired = 0; safeguard_hold = 0; escalated = 0; reason_codes = [] },
  )
