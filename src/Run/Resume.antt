-- ===== src/Run/Resume.antt =====
-- `ResumeRun` and `AbortRun` of internal/run/kernel.go.
pub mod Once
pub mod Abort
use agent_infra_system.Base.{
  String, Bool, not, ◌&&◌, Option, none, some, [], ◌∷◌, if◌then◌else◌, ◌==◌,
}
use agent_infra_system.Base.Int.{leb_ℤ, eq_ℤ, int64_succ}
use agent_infra_system.Base.Dict.{lookup, insert}
use agent_infra_system.Base.Text.{trim_space, is_blank}
use agent_infra_system.Base.Time.{Time, after}
use agent_infra_system.Platform.{Platform, Value}
use agent_infra_system.Run.States.{
  State, RootType, ContinuationStatus, is_terminal_state, is_waiting_state,
  token_type_matches_run_state,
}
use agent_infra_system.Run.Types.{
  Kernel, KernelError, Result, ok, err, kernel_err, RunInstance, RunView, Continuation,
  ResumeRunRequest, ResumeRunResponse,
}
use agent_infra_system.Run.Roots.{anchor_root}
use agent_infra_system.Run.Outbox.{emit, emit_progress_monotonicity_violation}
use agent_infra_system.Run.Steps.{append_synthetic_step, on_step}
use agent_infra_system.Run.Setup.{with_run, put_run}
use agent_infra_system.Run.Caches.{cleanup_run_scoped_caches}
use agent_infra_system.Run.Park.{monotonicity_violation}

unfoldable pub is_consumed : ContinuationStatus → Bool
is_consumed ContinuationStatus.consumed = Bool.true
is_consumed _ = Bool.false

-- The checks on the run and the continuation after the sequence number, in their order.
unfoldable pub refuse_resume : RunView → Continuation → Option KernelError
refuse_resume v c =
    if not (eq_ℤ c.step_seq_id v.current_step_seq_id)
    then some (
        kernel_err 409 "RUN_CONTINUATION_SEQ_MISMATCH" "continuation step_seq mismatch"
          ("continuation_seq_mismatch" ∷ []))
    else if not (is_waiting_state v.state)
    then some
        (kernel_err 409 "RUN_STATE_CONFLICT" "run is not resumable state" ("state_conflict" ∷ []))
    else if not (token_type_matches_run_state c.token_type v.state)
    then some (
        kernel_err 409 "RUN_CONTINUATION_TYPE_STATE_MISMATCH"
          "continuation token type does not match run state"
          ("continuation_type_state_mismatch" ∷ []))
    else none

-- The run after a resume, whose chain now ends in `step_hash`.
unfoldable pub resumed_instance :
    Continuation → ResumeRunRequest → String → Time → RunInstance → RunInstance
resumed_instance c req step_hash now r = record r {
  view = anchor_root RootType.partial step_hash (record r.view {
    state = State.running;
    active_step_id = c.step_id;
    state_version = int64_succ r.view.state_version;
    current_step_seq_id = req.incoming_step_seq_id;
    updated_at = now;
    last_progress_at = now;
    last_step_hash = step_hash;
    terminal_reason = "";
    terminal_source = "";
  });
  no_progress_scans = 0;
}

-- `c.Status = …` through the pointer that the map holds
abbrev pub put_continuation : String → Continuation → Kernel → Kernel
put_continuation token c k = record k { continuations = insert token c k.continuations }

-- The reason of an abort that gives none.
unfoldable pub abort_reason : String → String
abort_reason reason = let t = trim_space reason in if t == "" then "manual_abort" else t

-- The run after an abort, whose chain now ends in `step_hash`.
unfoldable pub aborted_instance : String → String → Time → RunInstance → RunInstance
unfolding abort_reason
aborted_instance reason step_hash now r = record r {
  view = anchor_root RootType.aborted step_hash (record r.view {
    state = State.aborted;
    state_version = int64_succ r.view.state_version;
    current_step_seq_id = int64_succ r.view.current_step_seq_id;
    last_step_hash = step_hash;
    updated_at = now;
    last_progress_at = now;
    terminal_reason = abort_reason reason;
    terminal_source = "abort_api";
  });
}

module _ ⦃platform : Platform⦄ where
  -- The synthetic step, the run, the consumed continuation, the event.
  unfoldable pub resume_commit :
      String
      → ResumeRunRequest
      → Time
      → RunInstance
      → Continuation
      → Kernel
      → Kernel × Result ResumeRunResponse
  resume_commit run_id req now r c k =
      on_step
        (append_synthetic_step r c.step_id req.incoming_step_seq_id "resume" req.resume_reason
          req.receipt_ref now k)
        (λ e k1. (k1, err e))
        λ step_hash k1.
          let r' = resumed_instance c req step_hash now r in
          (
            emit "run.resumed" run_id c.step_id
                (("continuation_id", Value.text c.continuation_id)
                  ∷ ("resume_reason", Value.text req.resume_reason)
                  ∷ ("step_seq_id", Value.int req.incoming_step_seq_id)
                  ∷ [])
                now
                (put_continuation req.continuation_token
                  (record c { status = ContinuationStatus.consumed; consumed_at = some now })
                  (put_run run_id r' k1)),
            ok (record {
              resume_status = "resumed";
              new_state = r'.view.state;
              state_version = r'.view.state_version;
            }),
          )

  -- From the continuation on. An expired one is marked so, and the rest is left alone.
  unfoldable pub resume_token :
      String
      → ResumeRunRequest
      → Time
      → RunInstance
      → Continuation
      → Kernel
      → Kernel × Result ResumeRunResponse
  resume_token run_id req now r c k =
      if not (c.run_id == run_id)
      then (
        k,
        err (
            kernel_err 409 "RUN_CONTINUATION_RUN_MISMATCH" "continuation run mismatch"
              ("continuation_run_mismatch" ∷ [])),
      )
      else if is_consumed c.status
      then (
        k,
        err (
            kernel_err 409 "RUN_CONTINUATION_CONSUMED" "continuation already consumed"
              ("continuation_consumed" ∷ [])),
      )
      else if after now c.expires_at
      then (
        put_continuation req.continuation_token (record c { status = ContinuationStatus.expired })
            k,
        err (
            kernel_err 410 "RUN_CONTINUATION_EXPIRED" "continuation expired"
              ("continuation_expired" ∷ [])),
      )
      else if not (is_blank req.expected_snapshot_hash)
          && not (req.expected_snapshot_hash == r.view.snapshot.snapshot_hash)
      then (
        k,
        err (
            kernel_err 412 "RUN_SNAPSHOT_MISMATCH" "snapshot mismatch on resume"
              ("snapshot_mismatch" ∷ [])),
      )
      else if leb_ℤ req.incoming_step_seq_id r.view.current_step_seq_id
      then (
        emit_progress_monotonicity_violation run_id c.step_id req.incoming_step_seq_id
            r.view.current_step_seq_id now k,
        err monotonicity_violation,
      )
      else elim (refuse_resume r.view c) [
        | some e ↦ (k, err e)
        | none ↦ resume_commit run_id req now r c k
      ]

  unfoldable pub resume_found :
      String → ResumeRunRequest → Time → RunInstance → Kernel → Kernel × Result ResumeRunResponse
  resume_found run_id req now r k =
      if is_blank req.continuation_token
      then (
        k,
        err (
            kernel_err 422 "RUN_INPUT_INVALID" "continuation_token required"
              ("continuation_token_missing" ∷ [])),
      )
      else elim (lookup req.continuation_token k.continuations) [
        | none ↦ (
          k,
          err (
              kernel_err 410 "RUN_CONTINUATION_EXPIRED_OR_MISSING" "continuation not found"
                ("continuation_missing" ∷ [])),
        )
        | some c ↦ resume_token run_id req now r c k
      ]

  unfoldable pub resume_run :
      String → ResumeRunRequest → Time → Kernel → Kernel × Result ResumeRunResponse
  resume_run run_id req now k = with_run run_id k λ r. resume_found run_id req now r k

  unfoldable pub abort_found :
      String → String → Time → RunInstance → Kernel → Kernel × Result RunView
  abort_found run_id reason now r k =
      if is_terminal_state r.view.state
      then (k, ok r.view)
      else on_step
          (append_synthetic_step r r.view.active_step_id (int64_succ r.view.current_step_seq_id)
            "abort" reason "aborted" now k)
          (λ e k1. (k1, err e))
          λ step_hash k1.
            let r' = aborted_instance reason step_hash now r in
            (
              emit "run.aborted" run_id r'.view.active_step_id (("reason", Value.text reason) ∷ [])
                  now (cleanup_run_scoped_caches run_id (put_run run_id r' k1)),
              ok r'.view,
            )

  unfoldable pub abort_run : String → String → Time → Kernel → Kernel × Result RunView
  abort_run run_id reason now k = with_run run_id k λ r. abort_found run_id reason now r k
