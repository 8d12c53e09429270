-- ===== src/Decision/Events.antt =====
-- The outbox of internal/decision/service.go: emitting, draining and trimming its events.
pub mod Laws
use Prim.Native.String.{◌++◌}
use mathlib.Core.List.{◌++◌ as append}
use agent_infra_system.Base.{
  ℕ, suc, ◌+◌, ◌-◌, String, Bool, true, false, none, some, List, [], ◌∷◌, length, take, drop,
  is_empty, ◌||◌, if◌then◌else◌, ◌==◌,
}
use agent_infra_system.Base.Int.{ℤ, pos, negsuc, pos_part, leb_ℤ, ltb_ℤ, u64}
use agent_infra_system.Base.Text.{trim_space, show_decimal}
use agent_infra_system.Base.Time.{Time, Duration, sub, after}
use agent_infra_system.Platform.{Platform, Value, Json, checked_hash}
use agent_infra_system.Decision.Types.{Service, Event}

is_audited : String → Bool
is_audited t =
    t == "decision_dcu_exceeded_event"
    || t == "decision_retry_exhausted_event"
    || t == "decision_confirmed"
    || t == "approval_hard_timeout_event"
    || t == "approval.case.decided"
    || t == "approval.pending.updated"
    || t == "approval.run_unlock.dispatch"
    || t == "pending_decision_escalate_oncall"
    || t == "pending_owner_mismatch"

unfoldable pub decision_event_evidence_policy : String → String × Bool
unfolding is_audited
decision_event_evidence_policy event_type =
    if is_audited (trim_space event_type) then ("audit", true) else ("operational", false)

-- How many events at the front the loop of `trimOutboxLocked` cuts.
unfoldable pub count_outdated : Time → Duration → List Event → ℕ
count_outdated now retention [] = 0
count_outdated now retention (e ∷ es) =
    let rest = count_outdated now retention es in
    if leb_ℤ (sub now e.event_ts) retention then 0 else suc rest

-- `len(s.outbox) - s.cfg.OutboxMaxEvents`, where that is positive
unfoldable pub excess : List Event → ℤ → ℕ
excess es (pos n) = length es - n
excess es (negsuc n) = length es + suc n

-- The outbox without its outdated events and its excess, and how many those were.
unfoldable pub trimmed : Time → Duration → ℤ → List Event → List Event × ℕ
unfolding count_outdated excess
trimmed now retention max es =
    let cut = if ltb_ℤ (pos 0) retention then count_outdated now retention es else 0 in
    let kept = drop cut es in (drop (excess kept max) kept, cut + excess kept max)

unfoldable pub trim_outbox_locked : Time → Service → Service × ℕ
unfolding trimmed
trim_outbox_locked now s =
    let (kept, count) = trimmed now s.cfg.outbox_retention s.cfg.outbox_max_events s.outbox in
    (record s { outbox = kept; outbox_trimmed_total = u64 (s.outbox_trimmed_total + count) }, count)

module _ ⦃platform : Platform⦄ where
  -- `safeHash` of a payload
  payload_hash_of : Json → String × Bool
  payload_hash_of payload = elim (checked_hash payload) [
    | none ↦ ("", false)
    | some hash ↦ (hash, true)
  ]

  unfoldable pub decision_event :
      ℕ → String → String → String → String → List (String × Value) → Time → Event
  unfolding payload_hash_of decision_event_evidence_policy
  decision_event seq event_type decision_id run_id step_id payload at = record {
    event_id = "evt_dec_seq_" ++ show_decimal seq;
    event_type = event_type;
    schema_version = 1;
    source_component = "decision_kernel";
    evidence_grade = (decision_event_evidence_policy event_type).0;
    payload_integrity_required = (decision_event_evidence_policy event_type).1;
    decision_id = decision_id;
    run_id = run_id;
    step_id = step_id;
    event_ts = at;
    payload_ref = "inline://decision_outbox/" ++ show_decimal seq;
    payload_hash = (payload_hash_of (Json.object payload)).0;
    payload_hash_valid = (payload_hash_of (Json.object payload)).1;
    payload = Json.object payload;
  }

  unfoldable pub emit_event :
      String → String → String → String → List (String × Value) → Time → Service → Service
  unfolding decision_event trim_outbox_locked
  emit_event event_type decision_id run_id step_id payload at s =
      let seq = u64 (s.event_seq + 1) in
      (trim_outbox_locked at (record s {
        event_seq = seq;
        outbox =
            append s.outbox
              (decision_event seq event_type decision_id run_id step_id payload at ∷ []);
        max_observed_event_ts =
            if after at s.max_observed_event_ts then at else s.max_observed_event_ts;
      })).0

-- `Outbox`: a copy of the events
unfoldable pub outbox_copy : Service → List Event
outbox_copy s = s.outbox

-- `DrainOutbox`: the oldest `limit` events leave the outbox.
unfoldable pub drain_events : ℤ → Service → Service × List Event
drain_events limit s =
    if leb_ℤ limit (pos 0) || is_empty s.outbox
    then (s, [])
    else (record s { outbox = drop (pos_part limit) s.outbox }, take (pos_part limit) s.outbox)
