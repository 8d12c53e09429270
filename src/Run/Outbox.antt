-- ===== src/Run/Outbox.antt =====
-- The outbox of internal/run/kernel.go: `emit`, `cleanupOutboxLocked`, `Outbox`, `DrainOutbox`.
pub mod Laws
use Prim.Native.String.{◌++◌}
use mathlib.Core.List.{◌++◌ as append}
use agent_infra_system.Base.{
  ℕ, suc, ◌+◌, ◌-◌, String, Bool, true, false, none, some, List, [], ◌∷◌, length, take, drop,
  is_empty, ◌||◌, if◌then◌else◌, ◌==◌,
}
use agent_infra_system.Base.Int.{ℤ, pos, negsuc, pos_part, leb_ℤ, ltb_ℤ, u64}
use agent_infra_system.Base.Text.{trim_space, show_decimal}
use agent_infra_system.Base.Time.{Time, Duration, sub}
use agent_infra_system.Platform.{Platform, Value, Json, checked_hash}
use agent_infra_system.Run.Types.{Kernel, KernelEvent}

-- The grades of the events that are audit evidence, with their payload's integrity required.
is_audit_event : String → Bool
is_audit_event t =
    t == "irreversible_progress_violation_event"
    || t == "run_decision_hash_invalid"
    || t == "run_decision_binding_mismatch"
    || t == "run_decision_hash_kind_mismatch"
    || t == "run_decision_hash_mismatch"
    || t == "run_decision_not_executable"
    || t == "run_execution_receipt_rejected"
    || t == "run_hash_generation_failed"
    || t == "run_obligation_limit_violation"
    || t == "run_obligation_template_missing"
    || t == "run_obligation_unsupported"
    || t == "run_obligation_phase_mismatch"
    || t == "run_obligation_deny_execution"
    || t == "run_obligation_audit_event"

unfoldable pub run_event_evidence_policy : String → String × Bool
unfolding is_audit_event
run_event_evidence_policy event_type =
    if is_audit_event (trim_space event_type) then ("audit", true) else ("operational", false)

-- The first loop: how many events at the front are older than the retention.
unfoldable pub count_expired : Time → Duration → List KernelEvent → ℕ
count_expired now retention [] = 0
count_expired now retention (e ∷ es) =
    let rest = count_expired now retention es in
    if leb_ℤ (sub now e.event_ts) retention then 0 else suc rest

-- `len(k.outbox) - k.cfg.OutboxMaxEvents`, where that is positive
unfoldable pub overflow : List KernelEvent → ℤ → ℕ
overflow es (pos n) = length es - n
overflow es (negsuc n) = length es + suc n

-- The outbox without its expired events and its overflow, and how many those were.
unfoldable pub trim_outbox : Time → Duration → ℤ → List KernelEvent → List KernelEvent × ℕ
unfolding count_expired overflow
trim_outbox now retention max es =
    let cut = if ltb_ℤ (pos 0) retention then count_expired now retention es else 0 in
    let kept = drop cut es in (drop (overflow kept max) kept, cut + overflow kept max)

unfoldable pub cleanup_outbox : Time → Kernel → Kernel × ℕ
unfolding trim_outbox
cleanup_outbox now k =
    let (kept, trimmed) = trim_outbox now k.cfg.outbox_retention k.cfg.outbox_max_events k.outbox in
    (record k { outbox = kept; outbox_trimmed = u64 (k.outbox_trimmed + trimmed) }, trimmed)

module _ ⦃platform : Platform⦄ where
  -- An error hash is recorded as an empty one that is not valid.
  hash_payload : Json → String × Bool
  hash_payload payload = elim (checked_hash payload) [
    | none ↦ ("", false)
    | some hash ↦ (hash, true)
  ]

  unfoldable pub event_of :
      ℕ → String → String → String → List (String × Value) → Time → KernelEvent
  unfolding hash_payload run_event_evidence_policy
  event_of seq event_type run_id step_id payload now = record {
    event_id = "evt_run_seq_" ++ show_decimal seq;
    event_type = event_type;
    schema_version = 1;
    source_component = "run_kernel";
    evidence_grade = (run_event_evidence_policy event_type).0;
    payload_integrity_required = (run_event_evidence_policy event_type).1;
    run_id = run_id;
    step_id = step_id;
    event_ts = now;
    payload_ref = "inline://run_outbox/" ++ show_decimal seq;
    payload_hash = (hash_payload (Json.object payload)).0;
    payload_hash_valid = (hash_payload (Json.object payload)).1;
    payload = Json.object payload;
  }

  unfoldable pub emit : String → String → String → List (String × Value) → Time → Kernel → Kernel
  unfolding event_of cleanup_outbox
  emit event_type run_id step_id payload now k =
      let seq = u64 (k.event_seq + 1) in
      (cleanup_outbox now (record k {
        event_seq = seq;
        outbox = append k.outbox (event_of seq event_type run_id step_id payload now ∷ []);
      })).0

  unfoldable pub emit_progress_monotonicity_violation :
      String → String → ℤ → ℤ → Time → Kernel → Kernel
  emit_progress_monotonicity_violation run_id step_id incoming current now k =
      let payload =
        ("incoming_step_seq_id", Value.int incoming)
        ∷ ("current_step_seq_id", Value.int current)
        ∷ ("severity", Value.text "P1")
        ∷ [] in
      emit "irreversible_progress_violation_event" run_id step_id payload now
        (emit "progress_monotonicity_violation" run_id step_id payload now k)

-- A copy of the events.
unfoldable pub outbox_events : Kernel → List KernelEvent
outbox_events k = k.outbox

-- The oldest `limit` events leave the outbox.
unfoldable pub drain_outbox : ℤ → Kernel → Kernel × List KernelEvent
drain_outbox limit k =
    if leb_ℤ limit (pos 0) || is_empty k.outbox
    then (k, [])
    else (record k { outbox = drop (pos_part limit) k.outbox }, take (pos_part limit) k.outbox)
