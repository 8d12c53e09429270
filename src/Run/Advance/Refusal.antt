-- ===== src/Run/Advance/Refusal.antt =====
-- What an advance that answers an error leaves.
use agent_infra_system.Base.{
  String, false, not, ◌≡◌, refl, subst, ◌∙◌, ap, sym, inl, inr, some, if_induction,
  option_induction, arith, ◌⊎◌,
}
use agent_infra_system.Base.Int.{leb_ℤ, eq_ℤ}
use agent_infra_system.Base.Dict.{Dict, lookup, insert}
use agent_infra_system.Base.Dict.Unique.{insert-insert}
use agent_infra_system.Base.Time.{Time}
use agent_infra_system.Platform.{Platform}
use agent_infra_system.Run.States.{State, is_terminal_state}
use agent_infra_system.Run.Types.{
  Kernel, KernelError, err, RunInstance, DecisionReference, AdvanceRunRequest, Result,
  AdvanceRunResponse,
}
use agent_infra_system.Run.Roots.{hold}
use agent_infra_system.Run.Outbox.{emit, emit_progress_monotonicity_violation}
use agent_infra_system.Run.Setup.{put_run}
use agent_infra_system.Run.Obligations.{enforce_decision_obligations}
use agent_infra_system.Run.Obligations.Enforce.{enforce_decision_obligations-SameState}
use agent_infra_system.Run.Advance.{precheck_advance, advance_gated, advance_fresh, advance_found}
use agent_infra_system.Run.Advance.Gate.{decision_gate}
use agent_infra_system.Run.Advance.Commit.{
  validate_next_state, idempotency_key, step_hash_of, advance_commit, advance_step,
}
use agent_infra_system.Run.Advance.Effect.{result_induction, with_tags, precheck-live}
use agent_infra_system.Run.Frames.{SameState, SameState-refl}
use agent_infra_system.Run.Spec.{Edit}
use agent_infra_system.Run.Refines.Advance.{hold-Edit, with_tags-Edit, gate_induction}
use agent_infra_system.Run.Advance.{advance_run}

-- What an advance of the run `r` leaves where it answers an error: no chain changes, and the runs
-- are the same but for an edit of this one, which keeps its progress.
pub record Refuses {ℓ} {A : Type ℓ} (run_id : String) (r : RunInstance) (k : Kernel)
    (x : Kernel × Result A) : Type ℓ where
  pub chains_same : (e : KernelError) → x.1 ≡ err e → x.0.step_integrity ≡ k.step_integrity
  pub runs_edited :
      (e : KernelError)
      → x.1 ≡ err e
      → (x.0.runs ≡ k.runs)
        ⊎ ((r' : RunInstance) × (x.0.runs ≡ insert run_id r' k.runs) × Edit r r')

module _ ⦃platform : Platform⦄ (run_id : String) (req : AdvanceRunRequest) (now : Time)
    (r : RunInstance) (k : Kernel) where
  unchanged-Refuses {ℓ} : {A : Type ℓ} (a : Result A) → Refuses run_id r k (k, a)
  unchanged-Refuses a = record { chains_same = λ e h. refl; runs_edited = λ e h. inl refl }

  edited-Refuses {ℓ} :
      {A : Type ℓ} (r' : RunInstance) (k1 k' : Kernel) (a : Result A)
      → SameState k k1
      → k'.runs ≡ insert run_id r' k1.runs
      → k'.step_integrity ≡ k1.step_integrity
      → Edit r r'
      → Refuses run_id r k (k', a)
  edited-Refuses r' k1 k' a same written chain e = record {
    chains_same = λ x h. chain ∙ same.step_integrity_same;
    runs_edited = λ x h. inr (r', written ∙ ap (insert run_id r') same.runs_same, e);
  }

  -- A commit answers no error.
  commit-Refuses :
      (ref : DecisionReference) (w : RunInstance) (next : State) (h : String) (k1 : Kernel)
      → Refuses run_id r k (advance_commit run_id req ref now w next h k1)
  unfolding advance_commit
  commit-Refuses ref w next h k1 = record {
    chains_same = λ e no. absurd (ground arith);
    runs_edited = λ e no. absurd (ground arith);
  }

  step-Refuses :
      (ref : DecisionReference) (tags : Dict String) (k1 : Kernel)
      → is_terminal_state r.view.state ≡ false
      → SameState k k1
      → Refuses run_id r k (
          advance_step run_id req ref now (with_tags tags r) (put_run run_id (with_tags tags r) k1))
  unfolding advance_step emit
  step-Refuses ref tags k1 live same =
      let w = with_tags tags r in
      result_induction (Refuses run_id r k) (validate_next_state r.view.state req)
        (λ e refused. edited-Refuses w k1 _ (err e) same refl refl (with_tags-Edit tags r))
        λ next valid.
          option_induction (Refuses run_id r k) (step_hash_of r.view.last_step_hash req)
            (λ failed.
              edited-Refuses (hold now w) k1 _ _ same (insert-insert run_id (hold now w) w k1.runs)
                refl (hold-Edit now tags r live))
            λ h hashed. commit-Refuses ref w next h _

  gated-Refuses :
      (ref : DecisionReference)
      → is_terminal_state r.view.state ≡ false
      → Refuses run_id r k (advance_gated run_id req ref now r k)
  unfolding advance_gated
  gated-Refuses ref live =
      let (k1, tags, failure) =
        enforce_decision_obligations r.view.run_id req ref now k r.view.attached_tags in
      let same =
        enforce_decision_obligations-SameState r.view.run_id req ref now k r.view.attached_tags in
      option_induction (Refuses run_id r k) failure (λ accepted. step-Refuses ref tags k1 live same)
        (λ e rejected.
          edited-Refuses (hold now (with_tags tags r)) k1 _ (err e) same refl refl
            (hold-Edit now tags r live))

  fresh-Refuses :
      is_terminal_state r.view.state ≡ false → Refuses run_id r k (advance_fresh run_id req now r k)
  unfolding advance_fresh emit emit_progress_monotonicity_violation
  fresh-Refuses live =
      let held = hold-Edit now r.view.attached_tags r live in
      if_induction (Refuses run_id r k) (not (eq_ℤ req.expected_state_version r.view.state_version))
        (λ stale. unchanged-Refuses _)
        λ seen.
          if_induction (Refuses run_id r k)
            (leb_ℤ req.incoming_step_seq_id r.view.current_step_seq_id)
            (λ old. edited-Refuses (hold now r) k _ _ (SameState-refl k) refl refl held)
            λ new.
              gate_induction (Refuses run_id r k)
                (decision_gate k.decision_port run_id r.view.tenant_id req)
                (λ e. unchanged-Refuses (err e))
                (λ event payload e.
                  edited-Refuses (hold now r) k _ _ (SameState-refl k) refl refl held)
                (λ ref. gated-Refuses ref live)

  found-Refuses : Refuses run_id r k (advance_found run_id req now r k)
  unfolding advance_found
  found-Refuses =
      option_induction (Refuses run_id r k) (precheck_advance r.view.state req)
        (λ passed.
          option_induction (Refuses run_id r k) (lookup (idempotency_key run_id req) k.idempotency)
            (λ uncached. fresh-Refuses (precheck-live run_id req now r.view.state passed).0)
            (λ cached hit. record { chains_same = λ e h. refl; runs_edited = λ e h. inl refl }))
        (λ e refused. unchanged-Refuses (err e))

-- An advance of a stored run that answers an error leaves every chain as it was, and every run but
-- this one; this one keeps its version, sequence number and head, and its state, unless it was live
-- and is now on safeguard hold.
pub advance_run-Refuses :
    ⦃platform : Platform⦄ (run_id : String) (req : AdvanceRunRequest) (now : Time) (r : RunInstance)
    (k k' : Kernel) (e : KernelError)
    → lookup run_id k.runs ≡ some r
    → advance_run run_id req now k ≡ (k', err e)
    → (k'.step_integrity ≡ k.step_integrity)
      × ((k'.runs ≡ k.runs)
          ⊎ ((r' : RunInstance) × (k'.runs ≡ insert run_id r' k.runs) × Edit r r'))
unfolding advance_run
advance_run-Refuses run_id req now r k k' e found done =
    let opened : advance_found run_id req now r k ≡ (k', err e) = ground arith in
    let refusal = found-Refuses run_id req now r k in
    let kernel = ap (λ (x : Kernel × Result AdvanceRunResponse). x.0) opened in
    let answer = ap (λ (x : Kernel × Result AdvanceRunResponse). x.1) opened in
    (
      ap (λ (x : Kernel). x.step_integrity) (sym kernel) ∙ refusal.chains_same e answer,
      subst
          (λ (x : Kernel).
            (x.runs ≡ k.runs)
            ⊎ ((r' : RunInstance) × (x.runs ≡ insert run_id r' k.runs) × Edit r r'))
          kernel (refusal.runs_edited e answer),
    )
