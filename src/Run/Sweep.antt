-- ===== src/Run/Sweep.antt =====
-- `SweepTTL`, `SweepZombie` and `MaintenanceSweep` of internal/run/kernel.go.
pub mod Rounds
pub mod Limit
use agent_infra_system.Base.{
  suc, String, Bool, not, ◌||◌, ◌&&◌, none, some, List, [], ◌∷◌, ltb, if◌then◌else◌,
}
use agent_infra_system.Base.Int.{pos, leb_ℤ, int64_succ}
use agent_infra_system.Base.Dict.{lookup, keys}
use agent_infra_system.Base.Time.{Time, sub}
use agent_infra_system.Platform.{Platform, Value}
use agent_infra_system.Run.States.{State, RootType, is_terminal_state, show_risk, show_state}
use agent_infra_system.Run.Types.{Kernel, Config, RunInstance, SweepResult}
use agent_infra_system.Run.Roots.{anchor_root}
use agent_infra_system.Run.Outbox.{emit}
use agent_infra_system.Run.Steps.{append_synthetic_step, on_step}
use agent_infra_system.Run.Obligations.Templates.{sort_strings}
use agent_infra_system.Run.Setup.{put_run}
use agent_infra_system.Run.Caches.{cleanup_run_scoped_caches, apply_maintenance}

abbrev pub no_result : SweepResult
no_result = record {
  scanned = 0;
  force_abort_count = 0;
  force_review_required_count = 0;
  zombie_terminated_count = 0;
  skipped_integrity_errors = 0;
  deleted_continuations = 0;
  deleted_idempotency = 0;
  deleted_runs = 0;
  deleted_create_requests = 0;
  outbox_trimmed = 0;
}

-- A run that a sweep ends or hands to review, whose chain now ends in `step_hash`.
unfoldable pub swept_instance :
    State → RootType → String → String → String → Time → RunInstance → RunInstance
swept_instance state root_type reason source step_hash now r = record r {
  view = anchor_root root_type step_hash (record r.view {
    state = state;
    state_version = int64_succ r.view.state_version;
    current_step_seq_id = int64_succ r.view.current_step_seq_id;
    last_step_hash = step_hash;
    updated_at = now;
    terminal_reason = reason;
    terminal_source = source;
  });
}

abbrev pub is_risky : RunInstance → Bool
is_risky r = r.security_risk || r.resource_risk

-- The `continue`s of the TTL sweep, in their order.
unfoldable pub is_ttl_breach : Config → Time → RunInstance → Bool
is_ttl_breach c now r =
    not (is_terminal_state r.view.state)
    && not (leb_ℤ r.max_lifetime (pos 0))
    && not (leb_ℤ (sub now r.view.created_at) r.max_lifetime)
    && not (leb_ℤ (sub now r.view.last_progress_at) c.zombie_no_progress_window && not (is_risky r))

-- `r.noProgressScans < 2` after the increment
abbrev pub is_early_scan : RunInstance → Bool
is_early_scan r = ltb (suc r.no_progress_scans) 2

abbrev pub zombie_state : RunInstance → State
zombie_state r = if is_risky r then State.force_abort else State.force_review_required

abbrev pub zombie_root : RunInstance → RootType
zombie_root r = if is_risky r then RootType.aborted else RootType.review_hold

abbrev pub count_zombie : RunInstance → SweepResult → SweepResult
count_zombie r result =
    if is_risky r
    then record result { force_abort_count = suc result.force_abort_count }
    else record result { force_review_required_count = suc result.force_review_required_count }

abbrev count_skipped : SweepResult → SweepResult
count_skipped result = record result {
  skipped_integrity_errors = suc result.skipped_integrity_errors;
}

unfoldable pub sweep_one :
    (String → RunInstance → Kernel → SweepResult → Kernel × SweepResult)
    → String
    → Kernel
    → SweepResult
    → Kernel × SweepResult
sweep_one round key k result = elim (lookup key k.runs) [
  | none ↦ (k, result)
  | some r ↦ round key r k (record result { scanned = suc result.scanned })
]

-- The loop over the sorted runs, up to the batch limit.
unfoldable pub sweep_runs :
    (String → RunInstance → Kernel → SweepResult → Kernel × SweepResult)
    → List String
    → Kernel
    → SweepResult
    → Kernel × SweepResult
unfolding sweep_one
sweep_runs round [] k result = (k, result)
sweep_runs round (key ∷ rest) k result =
    let (k1, result1) = sweep_one round key k result in
    let more = sweep_runs round rest k1 result1 in
    if leb_ℤ k.cfg.sweep_batch_limit (pos result.scanned) then (k, result) else more

module _ ⦃platform : Platform⦄ where
  unfoldable pub ttl_force_abort :
      String → Time → RunInstance → Kernel → SweepResult → Kernel × SweepResult
  ttl_force_abort key now r k result =
      on_step
        (append_synthetic_step r r.view.active_step_id (int64_succ r.view.current_step_seq_id)
          "ttl_force_abort" "ttl_breach_risk" "" now k)
        (λ e k1. (k1, count_skipped result))
        λ step_hash k1. (
          emit "run_ttl_force_abort" r.view.run_id r.view.active_step_id
              (("risk_tier", Value.text (show_risk r.view.risk_tier)) ∷ []) now
              (cleanup_run_scoped_caches r.view.run_id (
                put_run key
                  (swept_instance State.force_abort RootType.aborted "ttl_breach_risk" "ttl_sweeper"
                    step_hash now r)
                  k1)),
          record result { force_abort_count = suc result.force_abort_count },
        )

  unfoldable pub ttl_force_review :
      String → Time → RunInstance → Kernel → SweepResult → Kernel × SweepResult
  ttl_force_review key now r k result =
      on_step
        (append_synthetic_step r r.view.active_step_id (int64_succ r.view.current_step_seq_id)
          "ttl_force_review" "ttl_breach" "" now k)
        (λ e k1. (k1, count_skipped result))
        λ step_hash k1. (
          emit "run_ttl_force_review_required" r.view.run_id r.view.active_step_id
              (("risk_tier", Value.text (show_risk r.view.risk_tier)) ∷ []) now
              (put_run key
                (swept_instance State.force_review_required RootType.review_hold "ttl_breach"
                  "ttl_sweeper" step_hash now r)
                k1),
          record result { force_review_required_count = suc result.force_review_required_count },
        )

  -- One round of the TTL sweep, after `Scanned` is counted.
  unfoldable pub ttl_round :
      String → Time → RunInstance → Kernel → SweepResult → Kernel × SweepResult
  ttl_round key now r k result =
      if not (is_ttl_breach k.cfg now r)
      then (k, result)
      else if is_risky r
      then ttl_force_abort key now r k result
      else ttl_force_review key now r k result

  unfoldable pub zombie_terminate :
      String → Time → RunInstance → Kernel → SweepResult → Kernel × SweepResult
  zombie_terminate key now r k result =
      on_step
        (append_synthetic_step r r.view.active_step_id (int64_succ r.view.current_step_seq_id)
          "zombie_sweep" "no_progress" "" now k)
        (λ e k1. (k1, count_skipped result))
        λ step_hash k1.
          let k2 =
            put_run key
              (swept_instance (zombie_state r) (zombie_root r) "no_progress" "zombie_sweeper"
                step_hash now r)
              k1 in
          (
            emit "run_zombie_terminated" r.view.run_id r.view.active_step_id
                (("new_state", Value.text (show_state (zombie_state r))) ∷ []) now
                (if is_risky r then cleanup_run_scoped_caches r.view.run_id k2 else k2),
            record result { zombie_terminated_count = suc result.zombie_terminated_count },
          )

  -- One round of the zombie sweep. The scan counter is written before the step can fail.
  unfoldable pub zombie_round :
      String → Time → RunInstance → Kernel → SweepResult → Kernel × SweepResult
  zombie_round key now r k result =
      let r1 : RunInstance = record r { no_progress_scans = suc r.no_progress_scans } in
      let k1 = put_run key r1 k in
      if is_terminal_state r.view.state
      then (k, result)
      else if leb_ℤ (sub now r.view.last_progress_at) k.cfg.zombie_no_progress_window
      then (put_run key (record r { no_progress_scans = 0 }) k, result)
      else if is_early_scan r
      then (k1, result)
      else zombie_terminate key now r1 k1 (count_zombie r result)

  unfoldable pub sweep_ttl : Time → Kernel → Kernel × SweepResult
  sweep_ttl now k =
      let (k1, result) =
        sweep_runs (λ key r. ttl_round key now r) (sort_strings (keys k.runs)) k no_result in
      apply_maintenance now k1 result

  unfoldable pub sweep_zombie : Time → Kernel → Kernel × SweepResult
  sweep_zombie now k =
      let (k1, result) =
        sweep_runs (λ key r. zombie_round key now r) (sort_strings (keys k.runs)) k no_result in
      apply_maintenance now k1 result

-- `MaintenanceSweep`
unfoldable pub maintenance_sweep : Time → Kernel → Kernel × SweepResult
maintenance_sweep now k = apply_maintenance now k no_result
