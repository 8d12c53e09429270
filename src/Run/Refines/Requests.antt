-- ===== src/Run/Refines/Requests.antt =====
-- `AbortRun`, `ParkRun` and `ResumeRun` refine the abstract view.
use agent_infra_system.Base.{
  String, true, false, not, ◌≡◌, refl, ◌∙◌, ap, ◌⊎◌, inl, inr, none, some, arith, if_induction,
  option_induction, ◌&&◌, ◌==◌,
}
use agent_infra_system.Base.Int.{ℤ, int64_succ, leb_ℤ, eq_ℤ}
use agent_infra_system.Base.Dict.{lookup, insert}
use agent_infra_system.Base.Text.{is_blank}
use agent_infra_system.Base.Time.{Time, after}
use agent_infra_system.Platform.{Platform}
use agent_infra_system.Run.States.{
  State, TokenType, RootType, is_terminal_state, is_allowed_transition, is_waiting_state,
}
use agent_infra_system.Run.Types.{
  Kernel, KernelError, Result, ok, err, RunInstance, RunView, Continuation, ParkRunRequest,
  ResumeRunRequest,
}
use agent_infra_system.Run.Roots.{anchor_root}
use agent_infra_system.Run.Roots.Laws.{anchor_root-SameProgress}
use agent_infra_system.Run.Outbox.{emit}
use agent_infra_system.Run.Steps.{append_synthetic_step, on_step}
use agent_infra_system.Run.Setup.{with_run}
use agent_infra_system.Run.Caches.{cleanup_run_scoped_caches}
use agent_infra_system.Run.Park.{
  parked_state, parked_instance, validate_park, park_token, park_commit, park_checked, park_found,
}
use agent_infra_system.Run.Resume.{
  aborted_instance, abort_found, resumed_instance, is_consumed, refuse_resume, resume_commit,
  resume_token, resume_found,
}
use agent_infra_system.Run.Frames.{emit_progress_monotonicity_violation-SameState}
use agent_infra_system.Run.Spec.{Transition-same, is_imposed}
use agent_infra_system.Run.Advance.Effect.{result_induction}
use agent_infra_system.Run.Refines.Synthetic.{
  on_step_induction, Stepped, synthetic_failed-Transition, synthetic_done-Transition, Leads,
  Leads-unchanged, Leads-same,
}

-- A stored run, under its own id.
pub Stored : String → RunInstance → Kernel → Type 0
Stored run_id r k = (lookup run_id k.runs ≡ some r) × (r.view.run_id ≡ run_id)

-- Anchoring a root in the view keeps what a step needs.
pub Stepped-anchored :
    (seq : ℤ) (h : String) (r r' : RunInstance) (t : RootType) (root : String) (w : RunView)
    → r'.view ≡ anchor_root t root w
    → w.run_id ≡ r.view.run_id
    → is_terminal_state r.view.state ≡ false
    → w.state_version ≡ int64_succ r.view.state_version
    → w.current_step_seq_id ≡ seq
    → w.last_step_hash ≡ h
    → (is_allowed_transition r.view.state w.state ≡ true) ⊎ (is_imposed w.state ≡ true)
    → Stepped seq h r r'
Stepped-anchored seq h r r' t root w e id live version seq_eq head transition =
    let same = anchor_root-SameProgress t root w in
    rec_of (ap (λ (v : RunView). v.run_id) e ∙ same.id_same ∙ id)
      (ap (λ (v : RunView). v.state) e ∙ same.state_same)
      (ap (λ (v : RunView). v.state_version) e ∙ same.version_same ∙ version)
      (ap (λ (v : RunView). v.current_step_seq_id) e ∙ same.seq_same ∙ seq_eq)
      (ap (λ (v : RunView). v.last_step_hash) e ∙ same.head_same ∙ head)
  where
    rec_of :
        r'.view.run_id ≡ r.view.run_id
        → r'.view.state ≡ w.state
        → r'.view.state_version ≡ int64_succ r.view.state_version
        → r'.view.current_step_seq_id ≡ seq
        → r'.view.last_step_hash ≡ h
        → Stepped seq h r r'
    rec_of a b c d f = record {
      id_same = a;
      was_live = live;
      version_bumped = c;
      seq_taken = d;
      head_taken = f;
      transition = rw b transition;
    }

aborted_instance-Stepped :
    (reason h : String) (now : Time) (r : RunInstance)
    → is_terminal_state r.view.state ≡ false
    → Stepped (int64_succ r.view.current_step_seq_id) h r (aborted_instance reason h now r)
unfolding aborted_instance
aborted_instance-Stepped reason h now r live =
    Stepped-anchored _ h r (aborted_instance reason h now r) RootType.aborted h _ refl refl live
      refl refl refl (inr refl)

validate_park-allowed :
    (state : State) (req : ParkRunRequest) (t : TokenType)
    → validate_park state req ≡ ok t
    → is_allowed_transition state (parked_state t) ≡ true
unfolding validate_park
validate_park-allowed state req t e = ground arith

parked_instance-Stepped :
    (state : State) (req : ParkRunRequest) (h : String) (now : Time) (r : RunInstance)
    → is_terminal_state r.view.state ≡ false
    → is_allowed_transition r.view.state state ≡ true
    → Stepped req.incoming_step_seq_id h r (parked_instance state req h now r)
unfolding parked_instance
parked_instance-Stepped state req h now r live allowed =
    Stepped-anchored _ h r (parked_instance state req h now r) RootType.partial h _ refl refl live
      refl refl refl (inl allowed)

waiting_resumes :
    (s : State)
    → is_waiting_state s ≡ true
    → (is_terminal_state s ≡ false) × (is_allowed_transition s State.running ≡ true)
unfolding is_allowed_transition
waiting_resumes s waiting = ground arith

resumed_instance-Stepped :
    (c : Continuation) (req : ResumeRunRequest) (h : String) (now : Time) (r : RunInstance)
    → is_waiting_state r.view.state ≡ true
    → Stepped req.incoming_step_seq_id h r (resumed_instance c req h now r)
unfolding resumed_instance
resumed_instance-Stepped c req h now r waiting =
    let (live, allowed) = waiting_resumes r.view.state waiting in
    Stepped-anchored _ h r (resumed_instance c req h now r) RootType.partial h _ refl refl live refl
      refl refl (inl allowed)

module _ ⦃platform : Platform⦄ (run_id : String) (now : Time) (r : RunInstance) (k : Kernel)
    (keyed : r.view.run_id ≡ run_id) (found : lookup run_id k.runs ≡ some r) where
  -- What the three requests share: a synthetic step, and on it the run and what a caller writes
  -- beside the runs and the chains.
  pub on_step-Leads {ℓ} :
      {A : Type ℓ} (step_id : String) (seq : ℤ) (t i o : String) (failed : KernelError → A)
      (written : String → RunInstance) (after : String → Kernel → Kernel)
      (answer : String → Kernel → A)
      → ((h : String) (k1 : Kernel) → (after h k1).runs ≡ insert run_id (written h) k1.runs)
      → ((h : String) (k1 : Kernel) → (after h k1).step_integrity ≡ k1.step_integrity)
      → ((h : String) → Stepped seq h r (written h))
      → Leads k (
          on_step
            (append_synthetic_step r step_id seq t i o now k)
            (λ e k1. (k1, failed e))
            λ h k1. (after h k1, answer h k1))
  on_step-Leads step_id seq t i o failed written after answer runs_eq chain_eq s =
      on_step_induction (Leads k) (append_synthetic_step r step_id seq t i o now k)
        (λ e k1. (k1, failed e)) (λ h k1. (after h k1, answer h k1))
        (λ e f. record {
          leads_to = synthetic_failed-Transition run_id r step_id seq t i o now k keyed found e f;
        })
        (λ h d. record {
          leads_to =
              synthetic_done-Transition run_id r step_id seq t i o now k keyed found h (written h) _
                d (runs_eq h _) (chain_eq h _) (s h);
        })

  -- An abort moves a live run, and leaves a terminal one as it is.
  pub abort_found-Leads : (reason : String) → Leads k (abort_found run_id reason now r k)
  unfolding abort_found emit cleanup_run_scoped_caches
  abort_found-Leads reason =
      if_induction (Leads k) (is_terminal_state r.view.state)
        (λ ended. Leads-unchanged k (ok r.view))
        (λ live.
          on_step-Leads _ _ _ _ _ _ (λ h. aborted_instance reason h now r) _ _ (λ h k1. refl)
            (λ h k1. refl) (λ h. aborted_instance-Stepped reason h now r live))

  park_checked-Leads :
      (req : ParkRunRequest) (t : TokenType)
      → is_terminal_state r.view.state ≡ false
      → is_allowed_transition r.view.state (parked_state t) ≡ true
      → Leads k (park_checked run_id req t now r k)
  unfolding park_checked park_commit emit
  park_checked-Leads req t live allowed =
      result_induction (Leads k) (park_token run_id req t now)
        (λ e failed. Leads-unchanged k (err e))
        (λ token made.
          on_step-Leads _ _ _ _ _ _ (λ h. parked_instance (parked_state t) req h now r) _ _
            (λ h k1. refl) (λ h k1. refl)
            (λ h. parked_instance-Stepped (parked_state t) req h now r live allowed))

  -- A park moves a live run along an allowed transition, or leaves it.
  pub park_found-Leads : (req : ParkRunRequest) → Leads k (park_found run_id req now r k)
  unfolding park_found
  park_found-Leads req =
      if_induction (Leads k) (is_terminal_state r.view.state) (λ ended. Leads-unchanged k _)
        λ live.
          if_induction (Leads k) (not (eq_ℤ req.expected_state_version r.view.state_version))
            (λ stale. Leads-unchanged k _)
            λ seen.
              if_induction (Leads k) (leb_ℤ req.incoming_step_seq_id r.view.current_step_seq_id)
                (λ old. Leads-same k _ _ (
                  emit_progress_monotonicity_violation-SameState run_id req.step_id
                    req.incoming_step_seq_id r.view.current_step_seq_id now k))
                λ new.
                  result_induction (Leads k) (validate_park r.view.state req)
                    (λ e refused. Leads-unchanged k _)
                    λ t valid.
                      park_checked-Leads req t live (validate_park-allowed r.view.state req t valid)

  refuse_resume-waiting :
      (c : Continuation) → refuse_resume r.view c ≡ none → is_waiting_state r.view.state ≡ true
  unfolding refuse_resume
  refuse_resume-waiting c e = ground arith

  resume_commit-Leads :
      (req : ResumeRunRequest) (c : Continuation)
      → is_waiting_state r.view.state ≡ true
      → Leads k (resume_commit run_id req now r c k)
  unfolding resume_commit emit
  resume_commit-Leads req c waiting =
      on_step-Leads _ _ _ _ _ _ (λ h. resumed_instance c req h now r) _ _ (λ h k1. refl)
        (λ h k1. refl) (λ h. resumed_instance-Stepped c req h now r waiting)

  resume_token-Leads :
      (req : ResumeRunRequest) (c : Continuation) → Leads k (resume_token run_id req now r c k)
  unfolding resume_token
  resume_token-Leads req c =
      if_induction (Leads k) (not (c.run_id == run_id)) (λ other. Leads-unchanged k _)
        λ bound.
          if_induction (Leads k) (is_consumed c.status) (λ used. Leads-unchanged k _)
            λ unused.
              if_induction (Leads k) (after now c.expires_at)
                (λ late. record { leads_to = Transition-same k _ refl refl })
                λ fresh.
                  if_induction (Leads k)
                    (not (is_blank req.expected_snapshot_hash)
                      && not (req.expected_snapshot_hash == r.view.snapshot.snapshot_hash))
                    (λ stale. Leads-unchanged k _)
                    λ snapshot.
                      if_induction (Leads k)
                        (leb_ℤ req.incoming_step_seq_id r.view.current_step_seq_id)
                        (λ old. Leads-same k _ _ (
                          emit_progress_monotonicity_violation-SameState run_id c.step_id
                            req.incoming_step_seq_id r.view.current_step_seq_id now k))
                        λ new.
                          option_induction (Leads k) (refuse_resume r.view c)
                            (λ passed. resume_commit-Leads req c (refuse_resume-waiting c passed))
                            λ e refused. Leads-unchanged k _

  -- A resume moves a waiting run, or leaves it.
  pub resume_found-Leads : (req : ResumeRunRequest) → Leads k (resume_found run_id req now r k)
  unfolding resume_found
  resume_found-Leads req =
      if_induction (Leads k) (is_blank req.continuation_token) (λ blank. Leads-unchanged k _)
        λ given.
          option_induction (Leads k) (lookup req.continuation_token k.continuations)
            (λ missing. Leads-unchanged k _) λ c stored. resume_token-Leads req c

-- A request for a run that is not stored changes nothing.
pub with_run-Leads {ℓ} :
    {A : Type ℓ} (run_id : String) (k : Kernel) (f : RunInstance → Kernel × Result A)
    → ((r : RunInstance) → lookup run_id k.runs ≡ some r → Leads k (f r))
    → Leads k (with_run run_id k f)
with_run-Leads run_id k f each =
    option_induction (Leads k) (lookup run_id k.runs) (λ missing. Leads-unchanged k _) each
