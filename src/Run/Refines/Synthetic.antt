-- ===== src/Run/Refines/Synthetic.antt =====
-- The synthetic steps that parks, resumes, aborts and sweeps make.
use agent_infra_system.Base.{
  String, true, false, ◌≡◌, refl, ◌∙◌, ap, sym, ◌⊎◌, inl, inr, some, arith, Option-cases,
}
use agent_infra_system.Base.Int.{ℤ, int64_succ}
use agent_infra_system.Base.Dict.{lookup, insert}
use agent_infra_system.Base.Time.{Time}
use agent_infra_system.Platform.{Platform}
use agent_infra_system.Run.States.{is_terminal_state, is_allowed_transition}
use agent_infra_system.Run.Types.{Kernel, KernelError, Result, ok, err, RunInstance, StepIntegrity}
use agent_infra_system.Run.Steps.{
  append_synthetic_step, append_step, on_step, synthetic_hash, synthetic_step,
}
use agent_infra_system.Run.Frames.{SameState, emit-SameState}
use agent_infra_system.Run.Spec.{is_imposed, Transition, Transition-same, Transition-moved}

pub on_step_induction {ℓ κ} :
    {B : Type ℓ} (P : B → Type κ) (m : Kernel × Result String) (failed : KernelError → Kernel → B)
    (done : String → Kernel → B)
    → ((e : KernelError) → m.1 ≡ err e → P (failed e m.0))
    → ((h : String) → m.1 ≡ ok h → P (done h m.0))
    → P (on_step m failed done)
on_step_induction P (k, err e) failed done on_err on_ok = on_err e refl
on_step_induction P (k, ok h) failed done on_err on_ok = on_ok h refl

-- A failed step has only emitted an event.
pub synthetic_failed :
    ⦃platform : Platform⦄ (r : RunInstance) (step_id : String) (seq : ℤ)
    (synthetic_type input_hash output_hash : String) (now : Time) (k : Kernel) (e : KernelError)
    → (append_synthetic_step r step_id seq synthetic_type input_hash output_hash now k).1 ≡ err e
    → SameState k
        (append_synthetic_step r step_id seq synthetic_type input_hash output_hash now k).0
unfolding append_synthetic_step
synthetic_failed r step_id seq t i o now k e h =
    elim (Option-cases (synthetic_hash r.view.last_step_hash t i o)) [
      | inl failed ↦
          rw (failed, append_synthetic_step) (emit-SameState _ r.view.run_id step_id _ now k)
      | inr (x, hashed) ↦ absurd (ground arith)
    ]

-- The step that was appended follows the head of the run and is the answer.
pub record Appended (r : RunInstance) (seq : ℤ) (h : String) (k k1 : Kernel) : Type 0 where
  pub step : StepIntegrity
  pub runs_same : k1.runs ≡ k.runs
  pub grown : k1.step_integrity ≡ (append_step r.view.run_id step k).step_integrity
  pub linked : step.previous_step_hash ≡ r.view.last_step_hash
  pub heads : step.step_hash ≡ h
  pub numbered : step.step_seq_id ≡ seq

pub synthetic_done :
    ⦃platform : Platform⦄ (r : RunInstance) (step_id : String) (seq : ℤ)
    (synthetic_type input_hash output_hash : String) (now : Time) (k : Kernel) (h : String)
    → (append_synthetic_step r step_id seq synthetic_type input_hash output_hash now k).1 ≡ ok h
    → Appended r seq h k
        (append_synthetic_step r step_id seq synthetic_type input_hash output_hash now k).0
unfolding append_synthetic_step synthetic_step append_step
synthetic_done r step_id seq t i o now k h e =
    elim (Option-cases (synthetic_hash r.view.last_step_hash t i o)) [
      | inl failed ↦ absurd (ground arith)
      | inr (x, hashed) ↦
          let heads : x ≡ h = ground arith in
          rw (hashed, append_synthetic_step)
            (record {
              step = synthetic_step r.view step_id seq t i o x now;
              runs_same = refl;
              grown = refl;
              linked = refl;
              heads = heads;
              numbered = refl;
            })
    ]

-- What a caller writes into a run whose step got the number `seq` and the hash `h`.
pub record Stepped (seq : ℤ) (h : String) (r r' : RunInstance) : Type 0 where
  pub id_same : r'.view.run_id ≡ r.view.run_id
  pub was_live : is_terminal_state r.view.state ≡ false
  pub version_bumped : r'.view.state_version ≡ int64_succ r.view.state_version
  pub seq_taken : r'.view.current_step_seq_id ≡ seq
  pub head_taken : r'.view.last_step_hash ≡ h
  pub transition :
      (is_allowed_transition r.view.state r'.view.state ≡ true) ⊎ (is_imposed r'.view.state ≡ true)

module _ ⦃platform : Platform⦄ (run_id : String) (r : RunInstance) (step_id : String) (seq : ℤ)
    (synthetic_type input_hash output_hash : String) (now : Time) (k : Kernel)
    (keyed : r.view.run_id ≡ run_id) (found : lookup run_id k.runs ≡ some r) where
  -- The kernel after the step, or with the event of its failure.
  abbrev stepped : Kernel
  stepped = (append_synthetic_step r step_id seq synthetic_type input_hash output_hash now k).0

  pub synthetic_failed-Transition :
      (e : KernelError)
      → (append_synthetic_step r step_id seq synthetic_type input_hash output_hash now k).1 ≡ err e
      → Transition k stepped
  synthetic_failed-Transition e h =
      let same = synthetic_failed r step_id seq synthetic_type input_hash output_hash now k e h in
      Transition-same k stepped same.runs_same same.step_integrity_same

  -- A caller that writes the run with its new head makes a transition.
  pub synthetic_done-Transition :
      (h : String) (r' : RunInstance) (k' : Kernel)
      → (append_synthetic_step r step_id seq synthetic_type input_hash output_hash now k).1 ≡ ok h
      → k'.runs ≡ insert run_id r' stepped.runs
      → k'.step_integrity ≡ stepped.step_integrity
      → Stepped seq h r r'
      → Transition k k'
  synthetic_done-Transition h r' k' e written chain s =
      let a = synthetic_done r step_id seq synthetic_type input_hash output_hash now k h e in
      Transition-moved run_id k k' r r' found (written ∙ ap (insert run_id r') a.runs_same) a.step
        (chain ∙ a.grown ∙ ap (λ id. (append_step id a.step k).step_integrity) keyed)
        (record {
          id_same = s.id_same;
          was_live = s.was_live;
          version_bumped = s.version_bumped;
          seq_taken = s.seq_taken ∙ sym a.numbered;
          linked = a.linked;
          heads = a.heads ∙ sym s.head_taken;
          transition = s.transition;
        })

-- The kernel that an operation answers with is one transition away.
pub record Leads {ℓ} {A : Type ℓ} (k : Kernel) (x : Kernel × A) : Type 0 where
  pub leads_to : Transition k x.0

pub Leads-unchanged {ℓ} : {A : Type ℓ} (k : Kernel) (a : A) → Leads k (k, a)
Leads-unchanged k a = record { leads_to = Transition-same k k refl refl }

pub Leads-same {ℓ} : {A : Type ℓ} (k k' : Kernel) (a : A) → SameState k k' → Leads k (k', a)
Leads-same k k' a same = record {
  leads_to = Transition-same k k' same.runs_same same.step_integrity_same;
}
