-- ===== src/Run/Resume/Once.antt =====
-- A resume: what a successful one proves of its continuation, and that it is the only one.
use agent_infra_system.Base.{
  String, true, false, ◌≡◌, ◌≢◌, ◌∙◌, ap, sym, ◌⊎◌, inl, inr, some, [], ◌∷◌, arith, eq_iff,
  Option-cases,
}
use agent_infra_system.Base.Int.{◌<ℤ◌, eq_ℤ_iff, int64_succ}
use agent_infra_system.Base.Dict.{lookup}
use agent_infra_system.Base.Text.{is_blank}
use agent_infra_system.Base.Time.{Time, after}
use agent_infra_system.Platform.{Platform, Value}
use agent_infra_system.Run.States.{
  State, RootType, ContinuationStatus, is_waiting_state, token_type_matches_run_state,
}
use agent_infra_system.Run.Types.{
  Kernel, Result, ok, err, kernel_err, RunInstance, Continuation, ResumeRunRequest,
  ResumeRunResponse,
}
use agent_infra_system.Run.Roots.Laws.{anchor_root-SameProgress}
use agent_infra_system.Run.Outbox.{emit}
use agent_infra_system.Run.Steps.{append_synthetic_step}
use agent_infra_system.Run.Resume.{
  put_continuation, is_consumed, refuse_resume, resumed_instance, resume_commit, resume_token,
  resume_found, resume_run,
}
use agent_infra_system.Run.Setup.{put_run}
use agent_infra_system.Run.Frames.{lookup-insert_self}
use agent_infra_system.Run.Refines.Synthetic.{on_step_induction}

-- What has to hold of a stored continuation before it resumes the run.
pub record IsResumable (run_id : String) (req : ResumeRunRequest) (now : Time) (r : RunInstance)
    (c : Continuation) : Type 0 where
  pub of_the_run : c.run_id ≡ run_id
  pub unconsumed : c.status ≢ ContinuationStatus.consumed
  pub in_time : after now c.expires_at ≡ false
  pub snapshot_matches :
      (is_blank req.expected_snapshot_hash ≡ true)
      ⊎ (req.expected_snapshot_hash ≡ r.view.snapshot.snapshot_hash)
  pub step_is_new : r.view.current_step_seq_id <ℤ req.incoming_step_seq_id
  pub at_its_step : c.step_seq_id ≡ r.view.current_step_seq_id
  pub waiting : is_waiting_state r.view.state ≡ true
  pub type_matches : token_type_matches_run_state c.token_type r.view.state ≡ true

-- The continuation is consumed, the run is running again under a new version and sequence number.
pub record Resumes (run_id : String) (req : ResumeRunRequest) (now : Time) (c : Continuation)
    (r : RunInstance) (k' : Kernel) (resp : ResumeRunResponse) : Type 0 where
  pub consumed :
      lookup req.continuation_token k'.continuations
      ≡ some (record c { status = ContinuationStatus.consumed; consumed_at = some now })
  pub after : RunInstance
  pub stored : lookup run_id k'.runs ≡ some after
  pub running : after.view.state ≡ State.running
  pub version_bumped : after.view.state_version ≡ int64_succ r.view.state_version
  pub seq_taken : after.view.current_step_seq_id ≡ req.incoming_step_seq_id
  pub version_reported : resp.state_version ≡ after.view.state_version

module _ ⦃platform : Platform⦄ (run_id : String) (req : ResumeRunRequest) (now : Time)
    (r : RunInstance) (k k' : Kernel) (resp : ResumeRunResponse) where
  resume_token-ok :
      (c : Continuation)
      → resume_token run_id req now r c k ≡ (k', ok resp)
      → IsResumable run_id req now r c × (resume_commit run_id req now r c k ≡ (k', ok resp))
  unfolding resume_token refuse_resume is_consumed
  resume_token-ok c e = (
    record {
      of_the_run = ground (arith, eq_iff c.run_id run_id);
      unconsumed = ground arith;
      in_time = ground arith;
      snapshot_matches =
          ground (arith, eq_iff req.expected_snapshot_hash r.view.snapshot.snapshot_hash);
      step_is_new = ground arith;
      at_its_step = ground (arith, eq_ℤ_iff c.step_seq_id r.view.current_step_seq_id);
      waiting = ground arith;
      type_matches = ground arith;
    },
    ground arith,
  )

  resume_commit-writes :
      (c : Continuation)
      → resume_commit run_id req now r c k ≡ (k', ok resp)
      → Resumes run_id req now c r k' resp
  unfolding resume_commit emit resumed_instance
  resume_commit-writes c =
      on_step_induction
        (λ (x : Kernel × Result ResumeRunResponse).
          x ≡ (k', ok resp) → Resumes run_id req now c r k' resp)
        (append_synthetic_step r c.step_id req.incoming_step_seq_id "resume" req.resume_reason
          req.receipt_ref now k)
        (λ e k1. (k1, err e))
        (λ h k1. (
          emit "run.resumed" run_id c.step_id
              (("continuation_id", Value.text c.continuation_id)
                ∷ ("resume_reason", Value.text req.resume_reason)
                ∷ ("step_seq_id", Value.int req.incoming_step_seq_id)
                ∷ [])
              now
              (put_continuation req.continuation_token
                (record c { status = ContinuationStatus.consumed; consumed_at = some now })
                (put_run run_id (resumed_instance c req h now r) k1)),
          ok (record {
            resume_status = "resumed";
            new_state = (resumed_instance c req h now r).view.state;
            state_version = (resumed_instance c req h now r).view.state_version;
          }),
        ))
        (λ e failed same. absurd (ground arith))
        (λ h done same.
          let kernel = ap (λ (x : Kernel × Result ResumeRunResponse). x.0) same in
          let answer = ap (λ (x : Kernel × Result ResumeRunResponse). x.1) same in
          let view = anchor_root-SameProgress RootType.partial h (record r.view {
            state = State.running;
            active_step_id = c.step_id;
            state_version = int64_succ r.view.state_version;
            current_step_seq_id = req.incoming_step_seq_id;
            updated_at = now;
            last_progress_at = now;
            last_step_hash = h;
            terminal_reason = "";
            terminal_source = "";
          }) in
          record {
            consumed =
                ap (λ (x : Kernel). lookup req.continuation_token x.continuations) (sym kernel)
                ∙ lookup-insert_self req.continuation_token _ _;
            after = resumed_instance c req h now r;
            stored =
                ap (λ (x : Kernel). lookup run_id x.runs) (sym kernel)
                ∙ lookup-insert_self run_id (resumed_instance c req h now r) _;
            running = view.state_same;
            version_bumped = view.version_same;
            seq_taken = view.seq_same;
            version_reported = ground arith;
          })

  resume_found-ok :
      resume_found run_id req now r k ≡ (k', ok resp)
      → (c : Continuation) × (lookup req.continuation_token k.continuations ≡ some c)
        × (is_blank req.continuation_token ≡ false)
        × (resume_token run_id req now r c k ≡ (k', ok resp))
  unfolding resume_found
  resume_found-ok e = elim (Option-cases (lookup req.continuation_token k.continuations)) [
    | inl missing ↦ absurd (ground arith)
    | inr (c, stored) ↦ (c, stored, ground arith, ground arith)
  ]

-- A resume of a stored run that answers was given the token of a continuation of that run that is
-- unconsumed, in time, at the run's step, and of a type that fits its waiting state, with a new step
-- and a matching snapshot; the continuation is stored as consumed, and the run as running.
pub resume_run-IsResumable :
    ⦃platform : Platform⦄ (run_id : String) (req : ResumeRunRequest) (now : Time) (r : RunInstance)
    (k k' : Kernel) (resp : ResumeRunResponse)
    → lookup run_id k.runs ≡ some r
    → resume_run run_id req now k ≡ (k', ok resp)
    → (c : Continuation) × (lookup req.continuation_token k.continuations ≡ some c)
      × IsResumable run_id req now r c
      × Resumes run_id req now c r k' resp
unfolding resume_run
resume_run-IsResumable run_id req now r k k' resp found done =
    let opened : resume_found run_id req now r k ≡ (k', ok resp) = ground arith in
    let (c, stored, given, e1) = resume_found-ok run_id req now r k k' resp opened in
    let (resumable, e2) = resume_token-ok run_id req now r k k' resp c e1 in
    (c, stored, resumable, resume_commit-writes run_id req now r k k' resp c e2)

-- A continuation that has been consumed.
abbrev pub consume : Time → Continuation → Continuation
consume now c = record c { status = ContinuationStatus.consumed; consumed_at = some now }

resume_token_consumed :
    ⦃platform : Platform⦄ (run_id : String) (req : ResumeRunRequest) (now : Time) (r : RunInstance)
    (k : Kernel) (before : Time) (c : Continuation)
    → c.run_id ≡ run_id
    → resume_token run_id req now r (consume before c) k ≡ (
      k,
      err (
          kernel_err 409 "RUN_CONTINUATION_CONSUMED" "continuation already consumed"
            ("continuation_consumed" ∷ [])),
    )
unfolding resume_token is_consumed
resume_token_consumed run_id req now r k before c e = ground (arith, eq_iff c.run_id run_id)

-- In the state that a resume of a stored run leaves when it answers, every resume of that run with the
-- same token, at any time, is refused as consumed and changes nothing.
pub resume_run_once :
    ⦃platform : Platform⦄ (run_id : String) (req : ResumeRunRequest) (now : Time) (r : RunInstance)
    (k k' : Kernel) (resp : ResumeRunResponse)
    → lookup run_id k.runs ≡ some r
    → resume_run run_id req now k ≡ (k', ok resp)
    → (again : ResumeRunRequest) (later : Time) → again.continuation_token ≡ req.continuation_token
    → resume_run run_id again later k' ≡ (
      k',
      err (
          kernel_err 409 "RUN_CONTINUATION_CONSUMED" "continuation already consumed"
            ("continuation_consumed" ∷ [])),
    )
unfolding resume_run resume_found
resume_run_once run_id req now r k k' resp found done again later same =
    let opened : resume_found run_id req now r k ≡ (k', ok resp) = ground arith in
    let (_, _, given, _) = resume_found-ok run_id req now r k k' resp opened in
    let (c, stored, resumable, resumed) =
      resume_run-IsResumable run_id req now r k k' resp found done in
    let refused =
      resume_token_consumed run_id again later resumed.after k' now c resumable.of_the_run in
    let blank : is_blank again.continuation_token ≡ false = ap is_blank same ∙ given in
    let consumed : lookup again.continuation_token k'.continuations ≡ some (consume now c) =
      ap (λ t. lookup t k'.continuations) same ∙ resumed.consumed in
    ground (arith, resumed.stored, blank, consumed, refused)
