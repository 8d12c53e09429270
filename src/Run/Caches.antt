-- ===== src/Run/Caches.antt =====
-- The cleanups of internal/run/kernel.go: what a terminal run leaves behind at once, and what
-- `applyMaintenanceLocked` deletes by age.
use agent_infra_system.Base.{
  ℕ, suc, ◌+◌, String, Bool, false, ◌&&◌, Option, none, some, [], ◌∷◌, if◌then◌else◌, ◌==◌,
}
use agent_infra_system.Base.Int.{pos, leb_ℤ, ltb_ℤ}
use agent_infra_system.Base.Dict.{Dict, erase, erase_if, count_if}
use agent_infra_system.Base.Time.{Time, Duration, add, after, is_zero}
use agent_infra_system.Run.States.{ContinuationStatus, is_terminal_state}
use agent_infra_system.Run.Types.{
  Kernel, Continuation, IdempotencyEntry, CreateRunEntry, RunInstance, SweepResult,
}
use agent_infra_system.Run.Outbox.{cleanup_outbox}

-- `cleanupCreateRunsForRunIDLocked` and the two loops before its call
unfoldable pub cleanup_run_scoped_caches : String → Kernel → Kernel
cleanup_run_scoped_caches run_id k = record k {
  idempotency = erase_if (λ key e. e.run_id == run_id) k.idempotency;
  continuations = erase_if (λ token c. c.run_id == run_id) k.continuations;
  create_runs = erase_if (λ key e. e.run_id == run_id) k.create_runs;
}

-- An active continuation that is past its time is expired.
expire : Time → Continuation → Continuation
expire now c = elim c.status [
  | ContinuationStatus.active ↦
      if after now c.expires_at then record c { status = ContinuationStatus.expired } else c
  | _ ↦ c
]

past_retention : Time → Duration → Option Time → Bool
past_retention now retention none = false
past_retention now retention (some t) = after now (add t retention)

-- The switch on the status, after `expire`.
is_stale : Time → Duration → Continuation → Bool
unfolding past_retention
is_stale now retention c = elim c.status [
  | ContinuationStatus.consumed ↦ past_retention now retention c.consumed_at
  | ContinuationStatus.expired ↦ after now (add c.expires_at retention)
  | ContinuationStatus.active ↦ after now (add c.expires_at retention)
]

-- The continuations that stay, and how many were deleted.
unfoldable pub retire : Time → Duration → Dict Continuation → Dict Continuation × ℕ
unfolding expire is_stale
retire now retention [] = ([], 0)
retire now retention ((token, c) ∷ rest) =
    let (kept, deleted) = retire now retention rest in
    if is_stale now retention (expire now c)
    then (kept, suc deleted)
    else ((token, expire now c) ∷ kept, deleted)

unfoldable pub cleanup_continuations : Time → Kernel → Kernel × ℕ
unfolding retire
cleanup_continuations now k =
    let (kept, deleted) = retire now k.cfg.continuation_retention k.continuations in
    (record k { continuations = kept }, deleted)

-- `anchor := LastAccessAt`, or `CreatedAt` where that is zero
unfoldable pub access_anchor : Time → Time → Time
access_anchor last_access created = if is_zero last_access then created else last_access

unfoldable pub is_stale_entry : Time → Duration → Time → Time → Bool
unfolding access_anchor
is_stale_entry now ttl last_access created =
    ltb_ℤ (pos 0) ttl && after now (add (access_anchor last_access created) ttl)

unfoldable pub cleanup_idempotency : Time → Kernel → Kernel × ℕ
unfolding is_stale_entry
cleanup_idempotency now k =
    let stale = λ (key : String) (e : IdempotencyEntry).
      is_stale_entry now k.cfg.idempotency_ttl e.last_access_at e.created_at in
    (record k { idempotency = erase_if stale k.idempotency }, count_if stale k.idempotency)

unfoldable pub cleanup_create_runs : Time → Kernel → Kernel × ℕ
unfolding is_stale_entry
cleanup_create_runs now k =
    let stale = λ (key : String) (e : CreateRunEntry).
      is_stale_entry now k.cfg.create_request_retention e.last_access_at e.created_at in
    (record k { create_runs = erase_if stale k.create_runs }, count_if stale k.create_runs)

unfoldable pub is_retired_run : Time → Duration → RunInstance → Bool
is_retired_run now retention r =
    is_terminal_state r.view.state && after now (add r.view.updated_at retention)

unfoldable pub delete_run : String → Kernel → Kernel
unfolding cleanup_run_scoped_caches
delete_run run_id k =
    cleanup_run_scoped_caches run_id
      (record k { runs = erase run_id k.runs; step_integrity = erase run_id k.step_integrity })

unfoldable pub delete_runs : (RunInstance → Bool) → Dict RunInstance → Kernel → Kernel × ℕ
unfolding delete_run
delete_runs p [] k = (k, 0)
delete_runs p ((run_id, r) ∷ rest) k =
    let (k', deleted) = delete_runs p rest (if p r then delete_run run_id k else k) in
    (k', if p r then suc deleted else deleted)

unfoldable pub cleanup_terminal_runs : Time → Kernel → Kernel × ℕ
unfolding delete_runs is_retired_run
cleanup_terminal_runs now k =
    if leb_ℤ k.cfg.run_retention (pos 0)
    then (k, 0)
    else delete_runs (is_retired_run now k.cfg.run_retention) k.runs k

unfoldable pub apply_maintenance : Time → Kernel → SweepResult → Kernel × SweepResult
unfolding cleanup_continuations cleanup_idempotency cleanup_terminal_runs cleanup_create_runs
    cleanup_outbox
apply_maintenance now k result =
    let (k1, deleted_cont) = cleanup_continuations now k in
    let (k2, deleted_idem) = cleanup_idempotency now k1 in
    let (k3, deleted_run) = cleanup_terminal_runs now k2 in
    let (k4, deleted_create) = cleanup_create_runs now k3 in
    let (k5, trimmed) = cleanup_outbox now k4 in
    (
      k5,
      record result {
        deleted_continuations = result.deleted_continuations + deleted_cont;
        deleted_idempotency = result.deleted_idempotency + deleted_idem;
        deleted_runs = result.deleted_runs + deleted_run;
        deleted_create_requests = result.deleted_create_requests + deleted_create;
        outbox_trimmed = result.outbox_trimmed + trimmed;
      },
    )
