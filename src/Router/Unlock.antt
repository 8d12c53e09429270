-- ===== src/Router/Unlock.antt =====
-- What the run kernel has done when it answers that an approval was dispatched.
use agent_infra_system.Base.{◌≡◌, inl, inr, some, arith, eq_iff, Option-cases}
use agent_infra_system.Base.Dict.{lookup}
use agent_infra_system.Base.Text.{trim_space, to_lower}
use agent_infra_system.Base.Time.{Time}
use agent_infra_system.Platform.{Platform}
use agent_infra_system.Run.Types.{Kernel, ok, RunInstance, RunView, Continuation, ResumeRunResponse}
use agent_infra_system.Run.Setup.{get_run, find_active_continuation}
use agent_infra_system.Run.Resume.{resume_run}
use agent_infra_system.Run.Resume.Once.{IsResumable, Resumes, resume_run-IsResumable}
use agent_infra_system.Run.Advance.Effect.{Result-cases}
use agent_infra_system.Decision.Types.{
  ApprovalRunUnlockSignal, ApprovalRunUnlockDispatchResult, Dispatch,
}
use agent_infra_system.Router.Ports.{unlock_request, unlock_found, dispatch_run_unlock}

-- The run of the signal was resumed with the token of an active continuation of its step.
pub record IsResumed (signal : ApprovalRunUnlockSignal) (now : Time) (r : RunInstance)
    (k k' : Kernel) : Type 0 where
  pub active : Continuation
  pub active_found :
      find_active_continuation signal.run_id signal.step_id "approval" now k ≡ some active
  pub consumed : Continuation
  pub token_found : lookup active.continuation_id k.continuations ≡ some consumed
  pub resumable : IsResumable signal.run_id (unlock_request signal active r.view) now r consumed
  pub answer : ResumeRunResponse
  pub resumes : Resumes signal.run_id (unlock_request signal active r.view) now consumed r k' answer

module _ ⦃platform : Platform⦄ (signal : ApprovalRunUnlockSignal) (now : Time) where
  unlock_found-ok :
      (cont : Continuation) (view : RunView) (k k' : Kernel) (res : ApprovalRunUnlockDispatchResult)
      → unlock_found signal cont view now k ≡ (k', Dispatch.answered res)
      → (answer : ResumeRunResponse) × (resume_run signal.run_id
            (unlock_request signal cont view)
            now
            k
          ≡ (k', ok answer))
  unfolding unlock_found
  unlock_found-ok cont view k k' res h =
      let m = resume_run signal.run_id (unlock_request signal cont view) now k in
      elim (Result-cases m.1) [
        | inr (e, failed) ↦ absurd (ground arith)
        | inl (answer, resumed) ↦ elim (Result-cases (get_run signal.run_id m.0)) [
          | inr (e, failed) ↦ absurd (ground arith)
          | inl (updated, read) ↦ (answer, ground arith)
        ]
      ]

  unlock-opens :
      (r : RunInstance) (k k' : Kernel) (res : ApprovalRunUnlockDispatchResult)
      → to_lower (trim_space signal.outcome) ≡ "approved"
      → lookup signal.run_id k.runs ≡ some r
      → dispatch_run_unlock signal now (some k) ≡ (some k', Dispatch.answered res)
      → (cont : Continuation) × (find_active_continuation signal.run_id signal.step_id "approval"
            now k
          ≡ some cont)
        × (unlock_found signal cont r.view now k ≡ (k', Dispatch.answered res))
  unfolding dispatch_run_unlock get_run
  unlock-opens r k k' res approved found h =
      elim (Option-cases (find_active_continuation signal.run_id signal.step_id "approval" now k)) [
        | inl missing ↦
            absurd (ground (arith, eq_iff (to_lower (trim_space signal.outcome)) "approved"))
        | inr (cont, active) ↦
            (cont, active, ground (arith, eq_iff (to_lower (trim_space signal.outcome)) "approved"))
      ]

  -- Where the run kernel is told that an approval of a stored run has the outcome approved, and answers
  -- without an error, it has resumed that run with the token of an active approval continuation of its
  -- step: the continuation fitted the run and is consumed, and the run is running.
  pub unlock-IsResumed :
      (r : RunInstance) (k k' : Kernel) (res : ApprovalRunUnlockDispatchResult)
      → to_lower (trim_space signal.outcome) ≡ "approved"
      → lookup signal.run_id k.runs ≡ some r
      → dispatch_run_unlock signal now (some k) ≡ (some k', Dispatch.answered res)
      → IsResumed signal now r k k'
  unfolding unlock_request
  unlock-IsResumed r k k' res approved found h =
      let (active, active_found, opened) = unlock-opens r k k' res approved found h in
      let (answer, done) = unlock_found-ok active r.view k k' res opened in
      let (c, token_found, resumable, resumes) =
        resume_run-IsResumable signal.run_id (unlock_request signal active r.view) now r k k' answer
          found done in
      record {
        active = active;
        active_found = active_found;
        consumed = c;
        token_found = token_found;
        resumable = resumable;
        answer = answer;
        resumes = resumes;
      }
