-- ===== src/Run/Advance/Effect.antt =====
-- A successful advance, taken apart: the checks that it passed, and what it wrote.
use agent_infra_system.Base.{
  String, true, false, ◌≡◌, refl, ◌∙◌, ap, sym, none, some, List, [], ◌∷◌, ◌++◌, arith, ◌⊎◌, inl,
  inr, Option-cases, Bool-cases,
}
use agent_infra_system.Base.Int.{◌<ℤ◌, int64_succ, eq_ℤ_iff}
use agent_infra_system.Base.Dict.{Dict, lookup}
use agent_infra_system.Base.Text.{is_blank}
use agent_infra_system.Base.Time.{Time}
use agent_infra_system.Platform.{Platform, Value}
use agent_infra_system.Run.States.{
  State, is_terminal_state, is_waiting_state, is_allowed_transition, parse_next_state,
}
use agent_infra_system.Run.Types.{
  Kernel, Result, ok, err, KernelError, RunInstance, DecisionReference, AdvanceRunRequest,
  AdvanceRunResponse,
}
use agent_infra_system.Run.Roots.Laws.{anchor_by_state-SameProgress}
use agent_infra_system.Run.Steps.{step_integrities, append_step}
use agent_infra_system.Run.Setup.{put_run}
use agent_infra_system.Run.Caches.{cleanup_run_scoped_caches}
use agent_infra_system.Run.Obligations.{enforce_decision_obligations}
use agent_infra_system.Run.Advance.{precheck_advance, advance_gated, advance_fresh, advance_found}
use agent_infra_system.Run.Advance.Gate.{Gate, pass, refuse, fault, decision_gate}
use agent_infra_system.Run.Advance.Commit.{
  validate_next_state, idempotency_key, step_hash_of, advanced_instance, advance_response,
  normal_step, advance_commit, advance_step,
}
use agent_infra_system.Run.Frames.{lookup-insert_self, step_integrities-append_step_self}
use agent_infra_system.Run.Outbox.{emit}

pub Result-cases {ℓ} :
    {A : Type ℓ} (r : Result A) → ((a : A) × (r ≡ ok a)) ⊎ ((e : KernelError) × (r ≡ err e))
Result-cases (ok a) = inl (a, refl)
Result-cases (err e) = inr (e, refl)

pub result_induction {ℓ κ μ} :
    {A : Type ℓ} {B : Type κ} (P : B → Type μ) (o : Result A) {f : A → B} {g : KernelError → B}
    → ((e : KernelError) → o ≡ err e → P (g e))
    → ((a : A) → o ≡ ok a → P (f a))
    → P (elim o [ err e ↦ g e | ok a ↦ f a ])
result_induction P (ok a) on_err on_ok = on_ok a refl
result_induction P (err e) on_err on_ok = on_err e refl

pub Gate-cases {ℓ} :
    {A : Type ℓ} (g : Gate A)
    → ((a : A) × (g ≡ pass a))
      ⊎ (((e : KernelError) × (g ≡ refuse e))
          ⊎ ((event : String) × (payload : List (String × Value)) × (e : KernelError) × (g
                ≡ fault event payload e)))
Gate-cases (pass a) = inl (a, refl)
Gate-cases (refuse e) = inr (inl (e, refl))
Gate-cases (fault event payload e) = inr (inr (event, payload, e, refl))

-- The view after an advance, with its new progress.
pub advanced_instance-progress :
    (next : State) (req : AdvanceRunRequest) (h : String) (now : Time) (r : RunInstance)
    → let v = (advanced_instance next req h now r).view in
      (v.state ≡ next)
      × (v.state_version ≡ int64_succ r.view.state_version)
      × (v.current_step_seq_id ≡ req.incoming_step_seq_id)
      × (v.last_step_hash ≡ h)
      × (v.run_id ≡ r.view.run_id)
unfolding advanced_instance
advanced_instance-progress next req h now r = ground (
  arith,
  anchor_by_state-SameProgress next h (record r.view {
    state = next;
    active_step_id = req.step_id;
    state_version = int64_succ r.view.state_version;
    current_step_seq_id = req.incoming_step_seq_id;
    last_step_hash = h;
    updated_at = now;
    last_progress_at = now;
    terminal_reason = "";
    terminal_source = "";
  }),
)

-- The run with the tags that the obligations attached.
abbrev pub with_tags : Dict String → RunInstance → RunInstance
with_tags tags r = record r { view = record r.view { attached_tags = tags } }

module _ ⦃platform : Platform⦄ (run_id : String) (req : AdvanceRunRequest) (now : Time) where
  pub advance_step-ok :
      (ref : DecisionReference) (r : RunInstance) (k k' : Kernel) (resp : AdvanceRunResponse)
      → advance_step run_id req ref now r k ≡ (k', ok resp)
      → (next : State) × (h : String) × (validate_next_state r.view.state req ≡ ok next)
        × (step_hash_of r.view.last_step_hash req ≡ some h)
        × (advance_commit run_id req ref now r next h k ≡ (k', ok resp))
  unfolding advance_step
  advance_step-ok ref r k k' resp e = elim (Result-cases (validate_next_state r.view.state req)) [
    | inr (x, ex) ↦ ground arith
    | inl (next, en) ↦ elim (Option-cases (step_hash_of r.view.last_step_hash req)) [
      | inl eh ↦ ground arith
      | inr (h, eh) ↦ (next, h, en, eh, ground arith)
    ]
  ]

  pub advance_gated-ok :
      (ref : DecisionReference) (r : RunInstance) (k k' : Kernel) (resp : AdvanceRunResponse)
      → advance_gated run_id req ref now r k ≡ (k', ok resp)
      → let (k1, tags, failure) =
          enforce_decision_obligations r.view.run_id req ref now k r.view.attached_tags in
        (failure ≡ none)
        × (advance_step run_id req ref now (with_tags tags r) (put_run run_id (with_tags tags r) k1)
            ≡ (k', ok resp))
  unfolding advance_gated
  advance_gated-ok ref r k k' resp e = ground arith

  pub advance_fresh-ok :
      (r : RunInstance) (k k' : Kernel) (resp : AdvanceRunResponse)
      → advance_fresh run_id req now r k ≡ (k', ok resp)
      → (ref : DecisionReference) × (req.expected_state_version ≡ r.view.state_version)
        × (r.view.current_step_seq_id <ℤ req.incoming_step_seq_id)
        × (decision_gate k.decision_port run_id r.view.tenant_id req ≡ pass ref)
        × (advance_gated run_id req ref now r k ≡ (k', ok resp))
  unfolding advance_fresh
  advance_fresh-ok r k k' resp e =
      elim (Gate-cases (decision_gate k.decision_port run_id r.view.tenant_id req)) [
        | inl (ref, g) ↦ (
          ref,
          ground (arith, eq_ℤ_iff req.expected_state_version r.view.state_version),
          ground arith,
          g,
          ground arith,
        )
        | inr stopped ↦ absurd (ground arith)
      ]

  pub advance_found-ok :
      (r : RunInstance) (k k' : Kernel) (resp : AdvanceRunResponse)
      → lookup (idempotency_key run_id req) k.idempotency ≡ none
      → advance_found run_id req now r k ≡ (k', ok resp)
      → (precheck_advance r.view.state req ≡ none)
        × (advance_fresh run_id req now r k ≡ (k', ok resp))
  unfolding advance_found
  advance_found-ok r k k' resp fresh e = ground arith

  pub precheck-live :
      (state : State)
      → precheck_advance state req ≡ none
      → (is_terminal_state state ≡ false) × (is_waiting_state state ≡ false)
  unfolding precheck_advance
  precheck-live state e = ground arith

  pub validate_next_state-ok :
      (state next : State)
      → validate_next_state state req ≡ ok next
      → (parse_next_state req.next_state ≡ some next)
        × (is_allowed_transition state next ≡ true)
        × (is_blank req.input_hash ≡ false)
        × (is_blank req.output_hash ≡ false)
  unfolding validate_next_state
  validate_next_state-ok state next e = ground arith

  -- What a commit writes: the run, its chain, the answer.
  commit-writes_at :
      (ref : DecisionReference) (r : RunInstance) (next : State) (h : String) (k : Kernel)
      → let done = advance_commit run_id req ref now r next h k in
        (lookup run_id done.0.runs ≡ some (advanced_instance next req h now r))
        × (step_integrities run_id done.0
            ≡ step_integrities run_id k ++ normal_step r.view run_id req h now ∷ [])
        × (done.1 ≡ ok (advance_response (advanced_instance next req h now r).view h))
  unfolding advance_commit cleanup_run_scoped_caches step_integrities emit append_step
  commit-writes_at ref r next h k = elim (Bool-cases (is_terminal_state next)) [
    | inl ended ↦ rw ended (
      lookup-insert_self run_id (advanced_instance next req h now r) k.runs,
      step_integrities-append_step_self run_id (normal_step r.view run_id req h now) k,
      refl,
    )
    | inr live ↦ rw live (
      lookup-insert_self run_id (advanced_instance next req h now r) k.runs,
      step_integrities-append_step_self run_id (normal_step r.view run_id req h now) k,
      refl,
    )
  ]

  pub commit-writes :
      (ref : DecisionReference) (r : RunInstance) (next : State) (h : String) (k k' : Kernel)
      (resp : AdvanceRunResponse)
      → advance_commit run_id req ref now r next h k ≡ (k', ok resp)
      → (lookup run_id k'.runs ≡ some (advanced_instance next req h now r))
        × (step_integrities run_id k'
            ≡ step_integrities run_id k ++ normal_step r.view run_id req h now ∷ [])
        × (resp ≡ advance_response (advanced_instance next req h now r).view h)
  commit-writes ref r next h k k' resp e =
      let (stored, grown, answer) = commit-writes_at ref r next h k in
      let runs_eq = ap (λ (p : Kernel × Result AdvanceRunResponse). lookup run_id p.0.runs) e in
      let chain_eq =
        ap (λ (p : Kernel × Result AdvanceRunResponse). step_integrities run_id p.0) e in
      let answer_eq = ap (λ (p : Kernel × Result AdvanceRunResponse). p.1) e in
      (sym runs_eq ∙ stored, sym chain_eq ∙ grown, cc)
