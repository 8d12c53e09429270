-- ===== src/Run/Refines/History.antt =====
-- What a call keeps of one run, unless it deletes it.
use mathlib.Core.List.{append-nil, append_assoc}
use agent_infra_system.Base.{
  String, true, ◌≡◌, refl, ◌∙◌, ap, sym, ◌⊎◌, inl, inr, none, some, List, [], ◌∷◌, ◌++◌, arith,
}
use agent_infra_system.Base.Dict.{lookup}
use agent_infra_system.Platform.{Platform}
use agent_infra_system.Run.States.{is_terminal_state}
use agent_infra_system.Run.Types.{Kernel, RunInstance, StepIntegrity}
use agent_infra_system.Run.Steps.{step_integrities}
use agent_infra_system.Run.Spec.{Change, kept, edited, moved, removed, created, Transition}
use agent_infra_system.Run.Spec.Invariant.{Inv, terminal_frozen}
use agent_infra_system.Run.Refines.Calls.{Call, Passage, once, walked, Call-Passage}
use agent_infra_system.Run.Refines.Sweep.{Walk, halt, onward}

-- What a terminal run keeps.
pub record Frozen (id : String) (r : RunInstance) (k k' : Kernel) : Type 0 where
  pub now_stored : RunInstance
  pub stored : lookup id k'.runs ≡ some now_stored
  pub state_same : now_stored.view.state ≡ r.view.state
  pub version_same : now_stored.view.state_version ≡ r.view.state_version
  pub seq_same : now_stored.view.current_step_seq_id ≡ r.view.current_step_seq_id
  pub head_same : now_stored.view.last_step_hash ≡ r.view.last_step_hash
  pub chain_same : step_integrities id k' ≡ step_integrities id k

module _ (id : String) (r : RunInstance) (k : Kernel) (found : lookup id k.runs ≡ some r) where
  Frozen-self : Frozen id r k k
  Frozen-self = record {
    now_stored = r;
    stored = found;
    state_same = refl;
    version_same = refl;
    seq_same = refl;
    head_same = refl;
    chain_same = refl;
  }

  module _ (ended : is_terminal_state r.view.state ≡ true) where
    Frozen-next :
        {l m : Kernel}
        → Frozen id r k l
        → Transition l m
        → (lookup id m.runs ≡ none) ⊎ Frozen id r k m
    Frozen-next {l} {m} f t =
        elim (terminal_frozen l m id f.now_stored t f.stored
          (ap is_terminal_state f.state_same ∙ ended)) [
            | inl gone ↦ inl gone
            | inr (x, stored, s, v, q, h, c) ↦ inr (record {
              now_stored = x;
              stored = stored;
              state_same = s ∙ f.state_same;
              version_same = v ∙ f.version_same;
              seq_same = q ∙ f.seq_same;
              head_same = h ∙ f.head_same;
              chain_same = c ∙ f.chain_same;
            })
          ]

    Walk-Frozen : {m : Kernel} → Walk k m → (lookup id m.runs ≡ none) ⊎ Frozen id r k m
    Walk-Frozen halt = inr Frozen-self
    Walk-Frozen (onward before t none_new) = elim (Walk-Frozen before) [
      | inl gone ↦ inl (none_new id gone)
      | inr f ↦ Frozen-next f t
    ]

    Passage-Frozen : {m : Kernel} → Passage k m → (lookup id m.runs ≡ none) ⊎ Frozen id r k m
    Passage-Frozen (once t) = Frozen-next Frozen-self t
    Passage-Frozen (walked w) = Walk-Frozen w

-- On a kernel with the invariant, a call leaves the state, the version, the sequence number, the head
-- and the chain of a terminal run as they are, or it deletes the run.
pub Call-Frozen :
    ⦃platform : Platform⦄ (id : String) (r : RunInstance) (k k' : Kernel)
    → Inv k
    → lookup id k.runs ≡ some r
    → is_terminal_state r.view.state ≡ true
    → Call k k'
    → (lookup id k'.runs ≡ none) ⊎ Frozen id r k k'
Call-Frozen id r k k' inv found ended c = Passage-Frozen id r k found ended (Call-Passage inv c)

-- The run is still stored, and its chain has the old steps in front.
pub record Grown (id : String) (k k' : Kernel) : Type 0 where
  pub now_stored : RunInstance
  pub stored : lookup id k'.runs ≡ some now_stored
  pub added : List StepIntegrity
  pub appended : step_integrities id k' ≡ step_integrities id k ++ added

change_grows :
    (id : String) (r : RunInstance) (k k' : Kernel)
    → lookup id k.runs ≡ some r
    → Change id k k'
    → (lookup id k'.runs ≡ none) ⊎ Grown id k k'
change_grows id r k k' found (kept a b) = inr (record {
  now_stored = r;
  stored = a ∙ found;
  added = [];
  appended = b ∙ sym (append-nil (step_integrities id k));
})
change_grows id r k k' found (edited q q' a b c d) = inr (record {
  now_stored = q';
  stored = b;
  added = [];
  appended = d ∙ sym (append-nil (step_integrities id k));
})
change_grows id r k k' found (moved q q' s a b c d) =
    inr (record { now_stored = q'; stored = b; added = s ∷ []; appended = d })
change_grows id r k k' found (removed q a b c d) = inl c
change_grows id r k k' found (created q a b c d) = absurd (ground arith)

Grown-self : (id : String) (r : RunInstance) (k : Kernel) → lookup id k.runs ≡ some r → Grown id k k
Grown-self id r k found = record {
  now_stored = r;
  stored = found;
  added = [];
  appended = sym (append-nil (step_integrities id k));
}

Walk-Grown :
    (id : String) (r : RunInstance) (k k' : Kernel)
    → lookup id k.runs ≡ some r
    → Walk k k'
    → (lookup id k'.runs ≡ none) ⊎ Grown id k k'
Walk-Grown id r k k' found halt = inr (Grown-self id r k found)
Walk-Grown id r k k' found (onward {l = l} before t none_new) =
    elim (Walk-Grown id r k l found before) [
      | inl gone ↦ inl (none_new id gone)
      | inr g ↦ elim (change_grows id g.now_stored l k' g.stored (t.changes id)) [
        | inl gone ↦ inl gone
        | inr m ↦ inr (record {
          now_stored = m.now_stored;
          stored = m.stored;
          added = g.added ++ m.added;
          appended =
              m.appended
              ∙ ap (λ x. x ++ m.added) g.appended
              ∙ append_assoc (step_integrities id k) g.added m.added;
        })
      ]
    ]

Passage-Grown :
    (id : String) (r : RunInstance) (k k' : Kernel)
    → lookup id k.runs ≡ some r
    → Passage k k'
    → (lookup id k'.runs ≡ none) ⊎ Grown id k k'
Passage-Grown id r k k' found (once t) = change_grows id r k k' found (t.changes id)
Passage-Grown id r k k' found (walked w) = Walk-Grown id r k k' found w

-- On a kernel with the invariant, a call keeps a stored run and only appends to its chain, or it
-- deletes the run.
pub Call-Grown :
    ⦃platform : Platform⦄ (id : String) (r : RunInstance) (k k' : Kernel)
    → Inv k
    → lookup id k.runs ≡ some r
    → Call k k'
    → (lookup id k'.runs ≡ none) ⊎ Grown id k k'
Call-Grown id r k k' inv found c = Passage-Grown id r k k' found (Call-Passage inv c)
