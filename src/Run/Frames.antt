-- ===== src/Run/Frames.antt =====
-- What the operations leave alone: emitting an event changes the outbox and its counters only.
use agent_infra_system.Base.{
  String, ◌≡◌, refl, ◌∙◌, List, [], ◌∷◌, ◌++◌, some, ◌==◌, eq_refl, arith, if◌then◌else◌,
}
use agent_infra_system.Base.Dict.{Dict, lookup, insert, lookup-insert}
use agent_infra_system.Base.Int.{ℤ}
use agent_infra_system.Base.Time.{Time}
use agent_infra_system.Platform.{Platform, Value}
use agent_infra_system.Run.Types.{Kernel, StepIntegrity}
use agent_infra_system.Run.Steps.{step_integrities, append_step}
use agent_infra_system.Run.Outbox.{emit, emit_progress_monotonicity_violation}

-- `k'` is `k` but for the outbox, the event counter and the count of trimmed events.
pub record SameState (k k' : Kernel) : Type 0 where
  pub cfg_same : k'.cfg ≡ k.cfg
  pub runs_same : k'.runs ≡ k.runs
  pub continuations_same : k'.continuations ≡ k.continuations
  pub idempotency_same : k'.idempotency ≡ k.idempotency
  pub create_runs_same : k'.create_runs ≡ k.create_runs
  pub step_integrity_same : k'.step_integrity ≡ k.step_integrity
  pub run_seq_same : k'.run_seq ≡ k.run_seq

pub SameState-refl : (k : Kernel) → SameState k k
SameState-refl k = record {
  cfg_same = refl;
  runs_same = refl;
  continuations_same = refl;
  idempotency_same = refl;
  create_runs_same = refl;
  step_integrity_same = refl;
  run_seq_same = refl;
}

pub SameState-trans : {k l m : Kernel} → SameState k l → SameState l m → SameState k m
SameState-trans p q = record {
  cfg_same = q.cfg_same ∙ p.cfg_same;
  runs_same = q.runs_same ∙ p.runs_same;
  continuations_same = q.continuations_same ∙ p.continuations_same;
  idempotency_same = q.idempotency_same ∙ p.idempotency_same;
  create_runs_same = q.create_runs_same ∙ p.create_runs_same;
  step_integrity_same = q.step_integrity_same ∙ p.step_integrity_same;
  run_seq_same = q.run_seq_same ∙ p.run_seq_same;
}

module _ ⦃platform : Platform⦄ where
  pub emit-SameState :
      (event run_id step_id : String) (payload : List (String × Value)) (now : Time) (k : Kernel)
      → SameState k (emit event run_id step_id payload now k)
  unfolding emit
  emit-SameState event run_id step_id payload now k = record {
    cfg_same = refl;
    runs_same = refl;
    continuations_same = refl;
    idempotency_same = refl;
    create_runs_same = refl;
    step_integrity_same = refl;
    run_seq_same = refl;
  }

  pub emit_progress_monotonicity_violation-SameState :
      (run_id step_id : String) (incoming current : ℤ) (now : Time) (k : Kernel)
      → SameState k (emit_progress_monotonicity_violation run_id step_id incoming current now k)
  unfolding emit_progress_monotonicity_violation
  emit_progress_monotonicity_violation-SameState run_id step_id incoming current now k =
      SameState-trans (emit-SameState _ run_id step_id _ now k)
        (emit-SameState _ run_id step_id _ now _)

pub lookup-insert_self {ℓ} :
    {V : Type ℓ} (k : String) (v : V) (m : Dict V) → lookup k (insert k v m) ≡ some v
lookup-insert_self k v m = simp (lookup-insert, eq_refl)

-- The chain of a run, as one function of the map that holds it.
pub step_integrities-same :
    (id : String) (k k' : Kernel)
    → k'.step_integrity ≡ k.step_integrity
    → step_integrities id k' ≡ step_integrities id k
unfolding step_integrities
step_integrities-same id k k' e = ground arith

pub step_integrities-append_step :
    (id j : String) (s : StepIntegrity) (k : Kernel)
    → step_integrities j (append_step id s k)
      ≡ (if id == j then step_integrities id k ++ s ∷ [] else step_integrities j k)
unfolding step_integrities append_step
step_integrities-append_step id j s k =
    ground (arith, lookup-insert id j (step_integrities id k ++ s ∷ []) k.step_integrity)

pub step_integrities-append_step_self :
    (id : String) (s : StepIntegrity) (k : Kernel)
    → step_integrities id (append_step id s k) ≡ step_integrities id k ++ s ∷ []
step_integrities-append_step_self id s k = simp (step_integrities-append_step, eq_refl)
