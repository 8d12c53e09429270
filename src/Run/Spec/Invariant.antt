-- ===== src/Run/Spec/Invariant.antt =====
-- What every transition keeps: the integrity chains, and the fate of live and of terminal runs.
use agent_infra_system.Base.{
  String, true, false, ◌≡◌, refl, ◌∙◌, sym, ◌⊎◌, inl, inr, none, some, List, [], ◌∷◌, ◌++◌, arith,
}
use agent_infra_system.Base.Int.{int64_succ}
use agent_infra_system.Base.Dict.{lookup}
use agent_infra_system.Base.Dict.Unique.{Unique}
use agent_infra_system.Run.States.{is_terminal_state}
use agent_infra_system.Run.Types.{Kernel, RunInstance, StepIntegrity}
use agent_infra_system.Run.Steps.{step_integrities}
use agent_infra_system.Run.Spec.{
  Change, kept, edited, moved, removed, created, Transition, Steps, stay, next,
}

-- The steps lead from `from` to `head`, each one following the hash of the one before.
abbrev pub Linked : String → List StepIntegrity → String → Type 0
Linked from [] head = from ≡ head
Linked from (s ∷ rest) head = (s.previous_step_hash ≡ from) × Linked s.step_hash rest head

Linked-snoc :
    (from head : String) (steps : List StepIntegrity) (s : StepIntegrity)
    → Linked from steps head
    → s.previous_step_hash ≡ head
    → Linked from (steps ++ s ∷ []) s.step_hash
Linked-snoc from head [] s h e = (e ∙ sym h, refl)
Linked-snoc from head (x ∷ steps) s h e = (h.0, Linked-snoc x.step_hash head steps s h.1 e)

-- Each run is stored once, under its own id; its steps form a chain from the empty hash to its head;
-- an id with no run has no steps.
pub record Inv (k : Kernel) : Type 0 where
  pub unique : Unique k.runs
  pub keyed : (id : String) (r : RunInstance) → lookup id k.runs ≡ some r → r.view.run_id ≡ id
  pub chained :
      (id : String) (r : RunInstance)
      → lookup id k.runs ≡ some r
      → Linked "" (step_integrities id k) r.view.last_step_hash
  pub no_orphans : (id : String) → lookup id k.runs ≡ none → step_integrities id k ≡ []

module _ {k k' : Kernel} (inv : Inv k) where
  keyed_after :
      (id : String) (x : RunInstance)
      → Change id k k'
      → lookup id k'.runs ≡ some x
      → x.view.run_id ≡ id
  keyed_after id x (kept a b) e = inv.keyed id x (sym a ∙ e)
  keyed_after id x (edited r r' a b c d) e = ground (arith, inv.keyed id r a)
  keyed_after id x (moved r r' s a b c d) e = ground (arith, inv.keyed id r a)
  keyed_after id x (removed r a b c d) e = cc
  keyed_after id x (created r a b c d) e = ground arith

  chained_after :
      (id : String) (x : RunInstance)
      → Change id k k'
      → lookup id k'.runs ≡ some x
      → Linked "" (step_integrities id k') x.view.last_step_hash
  chained_after id x (kept a b) e = rw b (inv.chained id x (sym a ∙ e))
  chained_after id x (edited r r' a b c d) e =
      let head : x.view.last_step_hash ≡ r.view.last_step_hash = ground arith in
      rw (d, head) (inv.chained id r a)
  chained_after id x (moved r r' s a b c d) e =
      let head : x.view.last_step_hash ≡ s.step_hash = ground arith in
      rw (d, head)
        (Linked-snoc "" r.view.last_step_hash (step_integrities id k) s (inv.chained id r a)
          c.linked)
  chained_after id x (removed r a b c d) e = cc
  chained_after id x (created r a b c d) e =
      let head : x.view.last_step_hash ≡ "" = ground arith in rw (d, inv.no_orphans id a, head) refl

  orphans_after :
      (id : String) → Change id k k' → lookup id k'.runs ≡ none → step_integrities id k' ≡ []
  orphans_after id (kept a b) e = b ∙ inv.no_orphans id (sym a ∙ e)
  orphans_after id (edited r r' a b c d) e = cc
  orphans_after id (moved r r' s a b c d) e = cc
  orphans_after id (removed r a b c d) e = d
  orphans_after id (created r a b c d) e = cc

  -- Every transition keeps the invariant.
  pub Transition-Inv : Transition k k' → Inv k'
  Transition-Inv t = record {
    unique = t.unique inv.unique;
    keyed = λ id x e. keyed_after id x (t.changes id) e;
    chained = λ id x e. chained_after id x (t.changes id) e;
    no_orphans = λ id e. orphans_after id (t.changes id) e;
  }

pub Steps-Inv : {k k' : Kernel} → Inv k → Steps k k' → Inv k'
Steps-Inv inv stay = inv
Steps-Inv inv (next before t) = Transition-Inv (Steps-Inv inv before) t

-- A terminal run is frozen: a transition deletes it, or leaves its state, version, sequence number,
-- head and chain as they were.
pub terminal_frozen :
    (k k' : Kernel) (id : String) (r : RunInstance)
    → Transition k k'
    → lookup id k.runs ≡ some r
    → is_terminal_state r.view.state ≡ true
    → (lookup id k'.runs ≡ none)
      ⊎ ((x : RunInstance) × (lookup id k'.runs ≡ some x)
          × (x.view.state ≡ r.view.state)
          × (x.view.state_version ≡ r.view.state_version)
          × (x.view.current_step_seq_id ≡ r.view.current_step_seq_id)
          × (x.view.last_step_hash ≡ r.view.last_step_hash)
          × (step_integrities id k' ≡ step_integrities id k))
terminal_frozen k k' id r t found ended = go (t.changes id)
  where
    go :
        Change id k k'
        → (lookup id k'.runs ≡ none)
          ⊎ ((x : RunInstance) × (lookup id k'.runs ≡ some x)
              × (x.view.state ≡ r.view.state)
              × (x.view.state_version ≡ r.view.state_version)
              × (x.view.current_step_seq_id ≡ r.view.current_step_seq_id)
              × (x.view.last_step_hash ≡ r.view.last_step_hash)
              × (step_integrities id k' ≡ step_integrities id k))
    go (kept a b) = inr (r, a ∙ found, refl, refl, refl, refl, b)
    go (edited q q' a b c d) =
        inr (q', b, ground arith, ground arith, ground arith, ground arith, d)
    go (moved q q' s a b c d) = ground arith
    go (removed q a b c d) = inl c
    go (created q a b c d) = cc

-- A live run is never lost: after a transition it is still stored, under the same id, and its
-- version is the same or one more.
pub live_kept :
    (k k' : Kernel) (id : String) (r : RunInstance)
    → Transition k k'
    → lookup id k.runs ≡ some r
    → is_terminal_state r.view.state ≡ false
    → (x : RunInstance) × (lookup id k'.runs ≡ some x)
      × (x.view.run_id ≡ r.view.run_id)
      × ((x.view.state_version ≡ r.view.state_version)
          ⊎ (x.view.state_version ≡ int64_succ r.view.state_version))
live_kept k k' id r t found live = go (t.changes id)
  where
    go :
        Change id k k'
        → (x : RunInstance) × (lookup id k'.runs ≡ some x)
          × (x.view.run_id ≡ r.view.run_id)
          × ((x.view.state_version ≡ r.view.state_version)
              ⊎ (x.view.state_version ≡ int64_succ r.view.state_version))
    go (kept a b) = (r, a ∙ found, refl, inl refl)
    go (edited q q' a b c d) = (q', b, ground arith, ground arith)
    go (moved q q' s a b c d) = (q', b, ground arith, ground arith)
    go (removed q a b c d) = absurd (ground arith)
    go (created q a b c d) = cc
