-- ===== src/Decision/Setup.antt =====
-- `NewKernel` of internal/decision/service.go: the defaults of the settings that the modelled operations
-- read, and the state that a kernel starts in.
use agent_infra_system.Base.{String, ◌||◌, Option, [], ◌∷◌, ◌==◌, is_empty, if◌then◌else◌}
use agent_infra_system.Base.Int.{ℤ, pos, leb_ℤ}
use agent_infra_system.Base.Dict.{Dict}
use agent_infra_system.Base.Text.{trim_space, to_lower}
use agent_infra_system.Base.Time.{Duration, minutes, hours}
use agent_infra_system.Decision.Types.{Service, ServiceConfig, ApprovalRunUnlockPort, RunStatePort}

-- `if held <= 0 { held = default }`
abbrev pub or_default : ℤ → ℤ → ℤ
or_default default held = if leb_ℤ held (pos 0) then default else held

abbrev pub default_hard_timeouts : Dict Duration
default_hard_timeouts =
    ("low", minutes 30)
    ∷ ("medium", minutes 45)
    ∷ ("high", minutes 60)
    ∷ ("critical", minutes 90)
    ∷ []

-- A cleanup time source that is neither of the two is the wall clock.
unfoldable pub time_source : String → String
time_source given =
    let source = to_lower (trim_space given) in
    if source == "wall_clock" || source == "event_time" then source else "wall_clock"

unfoldable pub with_service_defaults : ServiceConfig → ServiceConfig
with_service_defaults c = record {
  pending_decision_ttl = or_default (minutes 10) c.pending_decision_ttl;
  pending_repair_worker_id =
      if c.pending_repair_worker_id == ""
      then "repair-worker-default"
      else c.pending_repair_worker_id;
  ticket_ttl = or_default (minutes 5) c.ticket_ttl;
  approval_hard_timeout_by_risk =
      if is_empty c.approval_hard_timeout_by_risk
      then default_hard_timeouts
      else c.approval_hard_timeout_by_risk;
  outbox_max_events = or_default (pos 10000) c.outbox_max_events;
  outbox_retention = or_default (hours 24) c.outbox_retention;
  cleanup_time_source = time_source c.cleanup_time_source;
  ticket_retention = or_default (hours 1) c.ticket_retention;
  pending_retention = or_default (hours 24) c.pending_retention;
  approval_retention = or_default (hours 72) c.approval_retention;
  decision_retention = or_default (hours 72) c.decision_retention;
  decision_max_history_versions = or_default (pos 128) c.decision_max_history_versions;
}

unfoldable pub new_service :
    ServiceConfig → Option ApprovalRunUnlockPort → Option RunStatePort → Service
new_service c unlock_port state_port = record {
  cfg = with_service_defaults c;
  approval_run_unlock_port = unlock_port;
  run_state_port = state_port;
  decisions = [];
  decision_history = [];
  pending = [];
  tickets = [];
  approvals = [];
  outbox = [];
  max_observed_event_ts = 0;
  soft_failures = [];
  event_seq = 0;
  id_seq = 0;
  outbox_trimmed_total = 0;
}
