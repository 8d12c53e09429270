-- ===== src/Run/Refines/Advance.antt =====
-- `AdvanceRun` refines the abstract view: it moves the run, puts it on hold, or leaves its progress.
use agent_infra_system.Base.{
  String, true, false, not, ◌≡◌, refl, ◌∙◌, ap, sym, inl, inr, some, List, Bool-cases, if_induction,
  option_induction,
}
use agent_infra_system.Base.Int.{leb_ℤ, eq_ℤ}
use agent_infra_system.Base.Dict.{Dict, lookup, insert}
use agent_infra_system.Base.Dict.Unique.{insert-insert}
use agent_infra_system.Base.Time.{Time}
use agent_infra_system.Platform.{Platform, Value}
use agent_infra_system.Run.States.{State, RootType, is_terminal_state, is_allowed_transition}
use agent_infra_system.Run.Types.{
  Kernel, KernelError, err, RunInstance, DecisionReference, AdvanceRunRequest, StepIntegrity,
}
use agent_infra_system.Run.Roots.{hold}
use agent_infra_system.Run.Roots.Laws.{anchor_root-SameProgress}
use agent_infra_system.Run.Outbox.{emit, emit_progress_monotonicity_violation}
use agent_infra_system.Run.Steps.{append_step, step_integrities}
use agent_infra_system.Run.Setup.{put_run}
use agent_infra_system.Run.Caches.{cleanup_run_scoped_caches}
use agent_infra_system.Run.Obligations.{enforce_decision_obligations}
use agent_infra_system.Run.Obligations.Enforce.{enforce_decision_obligations-SameState}
use agent_infra_system.Run.Advance.{precheck_advance, advance_gated, advance_fresh, advance_found}
use agent_infra_system.Run.Advance.Gate.{Gate, pass, refuse, fault, decision_gate}
use agent_infra_system.Run.Advance.Commit.{
  validate_next_state, idempotency_key, step_hash_of, advanced_instance, normal_step,
  advance_commit, advance_step,
}
use agent_infra_system.Run.Advance.Effect.{
  result_induction, with_tags, precheck-live, validate_next_state-ok, advanced_instance-progress,
}
use agent_infra_system.Run.Frames.{SameState, SameState-refl}
use agent_infra_system.Run.Spec.{Edit, Transition-same, Transition-edited, Transition-moved}
use agent_infra_system.Run.Refines.Synthetic.{Leads, Leads-unchanged}

-- A live run on hold keeps its progress.
pub hold-Edit :
    (now : Time) (tags : Dict String) (r : RunInstance)
    → is_terminal_state r.view.state ≡ false
    → Edit r (hold now (with_tags tags r))
unfolding hold
hold-Edit now tags r live =
    let same =
      anchor_root-SameProgress RootType.partial r.view.last_step_hash
        (record r.view { state = State.safeguard_hold; updated_at = now; attached_tags = tags }) in
    record {
      id_same = same.id_same;
      version_same = same.version_same;
      seq_same = same.seq_same;
      head_same = same.head_same;
      state_kept = inr (same.state_same, live);
    }

pub with_tags-Edit : (tags : Dict String) (r : RunInstance) → Edit r (with_tags tags r)
with_tags-Edit tags r = record {
  id_same = refl;
  version_same = refl;
  seq_same = refl;
  head_same = refl;
  state_kept = inl refl;
}

pub gate_induction {ℓ κ μ} :
    {A : Type ℓ} {B : Type κ} (P : B → Type μ) (g : Gate A) {f : A → B} {x : KernelError → B}
    {y : String → List (String × Value) → KernelError → B}
    → ((e : KernelError) → P (x e))
    → ((event : String) (payload : List (String × Value)) (e : KernelError) → P (y event payload e))
    → ((a : A) → P (f a))
    → P (elim g [ refuse e ↦ x e | fault event payload e ↦ y event payload e | pass a ↦ f a ])
gate_induction P (pass a) on_refuse on_fault on_pass = on_pass a
gate_induction P (refuse e) on_refuse on_fault on_pass = on_refuse e
gate_induction P (fault event payload e) on_refuse on_fault on_pass = on_fault event payload e

append-same :
    (id : String) (s : StepIntegrity) (k k' : Kernel)
    → k'.step_integrity ≡ k.step_integrity
    → (append_step id s k').step_integrity ≡ (append_step id s k).step_integrity
unfolding append_step step_integrities
append-same id s k k' e = rw e refl

module _ ⦃platform : Platform⦄ (run_id : String) (req : AdvanceRunRequest) (now : Time)
    (r : RunInstance) (k : Kernel) (found : lookup run_id k.runs ≡ some r)
    (live : is_terminal_state r.view.state ≡ false) where
  -- An event changes neither the runs nor the chains, so an edit may be followed by one.
  edited-Leads {ℓ} :
      {A : Type ℓ} (r' : RunInstance) (k1 k' : Kernel) (a : A)
      → SameState k k1
      → k'.runs ≡ insert run_id r' k1.runs
      → k'.step_integrity ≡ k1.step_integrity
      → Edit r r'
      → Leads k (k', a)
  edited-Leads r' k1 k' a same written chain e = record {
    leads_to =
        Transition-edited run_id k k' r r' found (written ∙ ap (insert run_id r') same.runs_same)
          (chain ∙ same.step_integrity_same) e;
  }

  commit-runs :
      (ref : DecisionReference) (w : RunInstance) (next : State) (h : String) (k2 : Kernel)
      → let k' = (advance_commit run_id req ref now w next h k2).0 in
        (k'.runs ≡ insert run_id (advanced_instance next req h now w) k2.runs)
        × (k'.step_integrity
            ≡ (append_step run_id (normal_step w.view run_id req h now) k2).step_integrity)
  unfolding advance_commit emit append_step cleanup_run_scoped_caches
  commit-runs ref w next h k2 = elim (Bool-cases (is_terminal_state next)) [
    | inl ended ↦ rw ended (refl, refl)
    | inr goes_on ↦ rw goes_on (refl, refl)
  ]

  -- The run is written twice: with its tags, and at the commit.
  advance_commit-Leads :
      (ref : DecisionReference) (tags : Dict String) (k1 : Kernel) (next : State) (h : String)
      → SameState k k1
      → is_allowed_transition r.view.state next ≡ true
      → Leads k (
          advance_commit run_id req ref now
            (with_tags tags r)
            next
            h
            (put_run run_id (with_tags tags r) k1))
  unfolding normal_step append_step
  advance_commit-Leads ref tags k1 next h same allowed =
      let w = with_tags tags r in
      let r' = advanced_instance next req h now w in
      let (runs_eq, chain_eq) = commit-runs ref w next h (put_run run_id w k1) in
      let (s, v, q, l, i) = advanced_instance-progress next req h now w in
      let step = normal_step w.view run_id req h now in
      record {
        leads_to =
            Transition-moved run_id k _ r r' found
              (runs_eq ∙ insert-insert run_id r' w k1.runs ∙ ap (insert run_id r') same.runs_same)
              step (chain_eq ∙ append-same run_id step k k1 same.step_integrity_same)
              (record {
                id_same = i;
                was_live = live;
                version_bumped = v;
                seq_taken = q;
                linked = refl;
                heads = sym l;
                transition = inl (ap (is_allowed_transition r.view.state) s ∙ allowed);
              });
      }

  advance_step-Leads :
      (ref : DecisionReference) (tags : Dict String) (k1 : Kernel)
      → SameState k k1
      → Leads k (
          advance_step run_id req ref now (with_tags tags r) (put_run run_id (with_tags tags r) k1))
  unfolding advance_step emit
  advance_step-Leads ref tags k1 same =
      let w = with_tags tags r in
      result_induction (Leads k) (validate_next_state r.view.state req)
        (λ e refused. edited-Leads w k1 _ (err e) same refl refl (with_tags-Edit tags r))
        λ next valid.
          option_induction (Leads k) (step_hash_of r.view.last_step_hash req)
            (λ failed.
              edited-Leads (hold now w) k1 _ _ same (insert-insert run_id (hold now w) w k1.runs)
                refl (hold-Edit now tags r live))
            λ h hashed.
              advance_commit-Leads ref tags k1 next h same
                (validate_next_state-ok run_id req now r.view.state next valid).1

  advance_gated-Leads : (ref : DecisionReference) → Leads k (advance_gated run_id req ref now r k)
  unfolding advance_gated
  advance_gated-Leads ref =
      let (k1, tags, failure) =
        enforce_decision_obligations r.view.run_id req ref now k r.view.attached_tags in
      let same =
        enforce_decision_obligations-SameState r.view.run_id req ref now k r.view.attached_tags in
      option_induction (Leads k) failure (λ accepted. advance_step-Leads ref tags k1 same)
        (λ e rejected.
          edited-Leads (hold now (with_tags tags r)) k1 _ (err e) same refl refl
            (hold-Edit now tags r live))

  advance_fresh-Leads : Leads k (advance_fresh run_id req now r k)
  unfolding advance_fresh emit emit_progress_monotonicity_violation
  advance_fresh-Leads =
      let held = hold-Edit now r.view.attached_tags r live in
      if_induction (Leads k) (not (eq_ℤ req.expected_state_version r.view.state_version))
        (λ stale. Leads-unchanged k _)
        λ seen.
          if_induction (Leads k) (leb_ℤ req.incoming_step_seq_id r.view.current_step_seq_id)
            (λ old. edited-Leads (hold now r) k _ _ (SameState-refl k) refl refl held)
            λ new.
              gate_induction (Leads k) (decision_gate k.decision_port run_id r.view.tenant_id req)
                (λ e. Leads-unchanged k (err e))
                (λ event payload e.
                  edited-Leads (hold now r) k _ _ (SameState-refl k) refl refl held)
                (λ ref. advance_gated-Leads ref)

-- An advance moves the run, puts it on hold, or leaves its progress as it is.
pub advance_found-Leads :
    ⦃platform : Platform⦄ (run_id : String) (req : AdvanceRunRequest) (now : Time) (r : RunInstance)
    (k : Kernel)
    → lookup run_id k.runs ≡ some r
    → Leads k (advance_found run_id req now r k)
unfolding advance_found
advance_found-Leads run_id req now r k found =
    option_induction (Leads k) (precheck_advance r.view.state req)
      (λ passed.
        option_induction (Leads k) (lookup (idempotency_key run_id req) k.idempotency)
          (λ uncached.
            advance_fresh-Leads run_id req now r k found
              (precheck-live run_id req now r.view.state passed).0)
          (λ cached hit. record { leads_to = Transition-same k _ refl refl }))
      (λ e refused. Leads-unchanged k (err e))
