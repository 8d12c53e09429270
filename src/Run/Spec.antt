-- ===== src/Run/Spec.antt =====
-- The abstract view of the run kernel: what any of its operations may do to any one run. An operation
-- refines it if it is a `Transition`; invariants are proved of transitions, once for all operations.
pub mod Invariant
use agent_infra_system.Base.{
  String, Bool, true, false, ◌≡◌, refl, ◌∙◌, ap, sym, subst, ◌⊎◌, inl, inr, Option, none, some,
  List, [], ◌∷◌, ◌++◌, arith, eq_iff, ◌==◌, if◌then◌else◌, Bool-cases,
}
use agent_infra_system.Base.Int.{ℤ, pos, int64_succ}
use agent_infra_system.Base.Dict.{Dict, lookup, insert, lookup-insert}
use agent_infra_system.Base.Dict.Unique.{Unique, insert-Unique}
use agent_infra_system.Run.States.{State, is_terminal_state, is_allowed_transition}
use agent_infra_system.Run.Types.{Kernel, RunInstance, RunView, StepIntegrity}
use agent_infra_system.Run.Steps.{step_integrities, append_step}
use agent_infra_system.Run.Frames.{
  SameState, step_integrities-same, step_integrities-append_step, lookup-insert_self,
}

-- The states that an abort or a sweep imposes on a run, whatever its state.
abbrev pub is_imposed : State → Bool
is_imposed State.aborted = true
is_imposed State.force_abort = true
is_imposed State.force_review_required = true
is_imposed _ = false

-- The run's progress stays; its state stays, or a live run is put on safeguard hold.
pub record Edit (r r' : RunInstance) : Type 0 where
  pub id_same : r'.view.run_id ≡ r.view.run_id
  pub version_same : r'.view.state_version ≡ r.view.state_version
  pub seq_same : r'.view.current_step_seq_id ≡ r.view.current_step_seq_id
  pub head_same : r'.view.last_step_hash ≡ r.view.last_step_hash
  pub state_kept :
      (r'.view.state ≡ r.view.state)
      ⊎ ((r'.view.state ≡ State.safeguard_hold) × (is_terminal_state r.view.state ≡ false))

-- A live run makes the step `s`: its version counts up, the step follows the old head of its chain
-- and is the new one, and its state goes along an allowed transition or to an imposed state.
pub record Move (r r' : RunInstance) (s : StepIntegrity) : Type 0 where
  pub id_same : r'.view.run_id ≡ r.view.run_id
  pub was_live : is_terminal_state r.view.state ≡ false
  pub version_bumped : r'.view.state_version ≡ int64_succ r.view.state_version
  pub seq_taken : r'.view.current_step_seq_id ≡ s.step_seq_id
  pub linked : s.previous_step_hash ≡ r.view.last_step_hash
  pub heads : s.step_hash ≡ r'.view.last_step_hash
  pub transition :
      (is_allowed_transition r.view.state r'.view.state ≡ true) ⊎ (is_imposed r'.view.state ≡ true)

-- A new run starts under its own id, running, at version 1 and sequence number 0, with no head.
pub record Start (id : String) (r : RunInstance) : Type 0 where
  pub under_id : r.view.run_id ≡ id
  pub starts_running : r.view.state ≡ State.running
  pub first_version : r.view.state_version ≡ pos 1
  pub no_step : r.view.current_step_seq_id ≡ pos 0
  pub no_head : r.view.last_step_hash ≡ ""

-- What one operation may do to the run stored under `id`, if any.
pub data Change (id : String) (k k' : Kernel) : Type 0 where
  kept :
      lookup id k'.runs ≡ lookup id k.runs
      → step_integrities id k' ≡ step_integrities id k
      → Change id k k'
  edited :
      (r r' : RunInstance)
      → lookup id k.runs ≡ some r
      → lookup id k'.runs ≡ some r'
      → Edit r r'
      → step_integrities id k' ≡ step_integrities id k
      → Change id k k'
  moved :
      (r r' : RunInstance) (s : StepIntegrity)
      → lookup id k.runs ≡ some r
      → lookup id k'.runs ≡ some r'
      → Move r r' s
      → step_integrities id k' ≡ step_integrities id k ++ s ∷ []
      → Change id k k'
  removed :
      (r : RunInstance)
      → lookup id k.runs ≡ some r
      → is_terminal_state r.view.state ≡ true
      → lookup id k'.runs ≡ none
      → step_integrities id k' ≡ []
      → Change id k k'
  created :
      (r : RunInstance)
      → lookup id k.runs ≡ none
      → lookup id k'.runs ≡ some r
      → Start id r
      → step_integrities id k' ≡ step_integrities id k
      → Change id k k'

pub record Transition (k k' : Kernel) : Type 0 where
  pub changes : (id : String) → Change id k k'
  pub unique : Unique k.runs → Unique k'.runs

-- Transitions one after another.
pub data Steps (k : Kernel) : Kernel → Type 0 where
  stay : Steps k k
  next : {l m : Kernel} → Steps k l → Transition l m → Steps k m

-- Nothing that the abstract view shows has changed.
pub Transition-same :
    (k k' : Kernel) → k'.runs ≡ k.runs → k'.step_integrity ≡ k.step_integrity → Transition k k'
Transition-same k k' runs_eq steps_eq = record {
  changes = λ id. kept (ap (lookup id) runs_eq) (step_integrities-same id k k' steps_eq);
  unique = λ u. rw runs_eq u;
}

module _ (run_id : String) (k k' : Kernel) (r r' : RunInstance)
    (found : lookup run_id k.runs ≡ some r) (written : k'.runs ≡ insert run_id r' k.runs) where
  written_at :
      (id : String) → lookup id k'.runs ≡ (if run_id == id then some r' else lookup id k.runs)
  written_at id = rw written (lookup-insert run_id id r' k.runs)

  found_at : (id : String) → (run_id == id) ≡ true → lookup id k.runs ≡ some r
  found_at id e = rw (sym ((eq_iff run_id id).0 e)) found

  -- One run is edited, and all else stays.
  pub Transition-edited : k'.step_integrity ≡ k.step_integrity → Edit r r' → Transition k k'
  Transition-edited steps_eq e = record {
    changes = λ id. elim (Bool-cases (run_id == id)) [
      | inl here ↦
          edited r r' (found_at id here) (ground (arith, written_at id)) e
            (step_integrities-same id k k' steps_eq)
      | inr elsewhere ↦
          kept (ground (arith, written_at id)) (step_integrities-same id k k' steps_eq)
    ];
    unique = λ u. rw written (insert-Unique run_id r' k.runs u);
  }

  -- One run makes a step, and all else stays.
  pub Transition-moved :
      (s : StepIntegrity)
      → k'.step_integrity ≡ (append_step run_id s k).step_integrity
      → Move r r' s
      → Transition k k'
  Transition-moved s steps_eq m =
      let grown = λ (id : String).
        step_integrities-same id (append_step run_id s k) k' steps_eq
        ∙ step_integrities-append_step run_id id s k in
      record {
        changes = λ id. elim (Bool-cases (run_id == id)) [
          | inl here ↦
              moved r r' s (found_at id here) (ground (arith, written_at id)) m (
                ground
                  (arith, grown id, ap (λ i. step_integrities i k) ((eq_iff run_id id).0 here)))
          | inr elsewhere ↦ kept (ground (arith, written_at id)) (ground (arith, grown id))
        ];
        unique = λ u. rw written (insert-Unique run_id r' k.runs u);
      }

-- A run is stored under an id that was free.
pub Transition-created :
    (run_id : String) (k k' : Kernel) (r : RunInstance)
    → lookup run_id k.runs ≡ none
    → k'.runs ≡ insert run_id r k.runs
    → k'.step_integrity ≡ k.step_integrity
    → Start run_id r
    → Transition k k'
Transition-created run_id k k' r free written steps_eq start = record {
  changes = λ id. elim (Bool-cases (run_id == id)) [
    | inl here ↦
        let same = (eq_iff run_id id).0 here in
        created r (rw (sym same) free)
          (rw written (ground (arith, lookup-insert run_id id r k.runs)))
          (subst (λ i. Start i r) same start) (step_integrities-same id k k' steps_eq)
    | inr elsewhere ↦
        kept (rw written (ground (arith, lookup-insert run_id id r k.runs)))
          (step_integrities-same id k k' steps_eq)
  ];
  unique = λ u. rw written (insert-Unique run_id r k.runs u);
}
