-- ===== src/Run/Resume/Abort.antt =====
-- An abort: its effect on a live run, and what it clears.
use agent_infra_system.Base.{
  String, Bool, false, ◌≡◌, ◌≢◌, ◌∙◌, ap, inl, inr, some, [], ◌∷◌, arith, eq_iff, ◌==◌,
}
use agent_infra_system.Base.Int.{int64_succ}
use agent_infra_system.Base.Dict.{Dict, lookup, erase_if}
use agent_infra_system.Base.Time.{Time}
use agent_infra_system.Platform.{Platform, Value}
use agent_infra_system.Run.States.{State, RootType, is_terminal_state}
use agent_infra_system.Run.Types.{
  Kernel, ok, RunInstance, RunView, Continuation, IdempotencyEntry, CreateRunEntry,
}
use agent_infra_system.Run.Roots.Laws.{anchor_root-SameProgress}
use agent_infra_system.Run.Outbox.{emit}
use agent_infra_system.Run.Steps.{append_synthetic_step}
use agent_infra_system.Run.Frames.{lookup-insert_self}
use agent_infra_system.Run.Advance.Effect.{Result-cases}
use agent_infra_system.Run.Setup.{put_run}
use agent_infra_system.Run.Caches.{cleanup_run_scoped_caches}
use agent_infra_system.Run.Resume.{abort_run, abort_reason, abort_found, aborted_instance}

-- What a map keeps of the entries that a test deletes: none of them.
pub lookup-erase_if {ℓ} :
    {V : Type ℓ} (p : String → V → Bool) (m : Dict V) (key : String) (v : V)
    → lookup key (erase_if p m) ≡ some v
    → p key v ≡ false
unfolding lookup erase_if
lookup-erase_if p [] key v e = absurd (ground arith)
lookup-erase_if p ((j, w) ∷ m) key v e =
    ground
      (arith, eq_iff j key, lookup-erase_if p m key v, λ (same : j ≡ key). ap (λ i. p i v) same)

-- No entry of the run is left in the caches and among the continuations.
pub record IsCleared (run_id : String) (k : Kernel) : Type 0 where
  pub no_continuation :
      (token : String) (c : Continuation)
      → lookup token k.continuations ≡ some c
      → c.run_id ≢ run_id
  pub no_idempotency :
      (key : String) (e : IdempotencyEntry) → lookup key k.idempotency ≡ some e → e.run_id ≢ run_id
  pub no_create_run :
      (key : String) (e : CreateRunEntry) → lookup key k.create_runs ≡ some e → e.run_id ≢ run_id

-- After the run-scoped cleanup, no continuation, idempotency entry or creation entry is of the run.
pub cleanup-IsCleared :
    (run_id : String) (k : Kernel) → IsCleared run_id (cleanup_run_scoped_caches run_id k)
unfolding cleanup_run_scoped_caches
cleanup-IsCleared run_id k = record {
  no_continuation = λ token c e.
      let kept =
        lookup-erase_if (λ t (c : Continuation). c.run_id == run_id) k.continuations token c e in
      ground (arith, eq_iff c.run_id run_id);
  no_idempotency = λ key x e.
      let kept =
        lookup-erase_if (λ t (c : IdempotencyEntry). c.run_id == run_id) k.idempotency key x e in
      ground (arith, eq_iff x.run_id run_id);
  no_create_run = λ key x e.
      let kept =
        lookup-erase_if (λ t (c : CreateRunEntry). c.run_id == run_id) k.create_runs key x e in
      ground (arith, eq_iff x.run_id run_id);
}

-- The run is aborted, and the answer is its view.
pub record Aborts (run_id : String) (r : RunInstance) (k' : Kernel) (v : RunView) : Type 0 where
  pub after : RunInstance
  pub stored : lookup run_id k'.runs ≡ some after
  pub answered : v ≡ after.view
  pub aborted : after.view.state ≡ State.aborted
  pub version_bumped : after.view.state_version ≡ int64_succ r.view.state_version
  pub cleared : IsCleared run_id k'

module _ ⦃platform : Platform⦄ (run_id reason : String) (now : Time) (r : RunInstance)
    (k k' : Kernel) (v : RunView) where
  abort_found-ok :
      is_terminal_state r.view.state ≡ false
      → abort_found run_id reason now r k ≡ (k', ok v)
      → (h : String) × (k1 : Kernel) × (k'
          ≡ emit "run.aborted" run_id
              (aborted_instance reason h now r).view.active_step_id
              (("reason", Value.text reason) ∷ [])
              now
              (cleanup_run_scoped_caches run_id
                (put_run run_id (aborted_instance reason h now r) k1)))
        × (v ≡ (aborted_instance reason h now r).view)
  unfolding abort_found
  abort_found-ok live e =
      let m =
        append_synthetic_step r r.view.active_step_id (int64_succ r.view.current_step_seq_id)
          "abort" reason "aborted" now k in
      elim (Result-cases m.1) [
        | inr (x, failed) ↦ absurd (ground arith)
        | inl (h, hashed) ↦ (h, m.0, ground arith, ground arith)
      ]

  abort_effect :
      is_terminal_state r.view.state ≡ false
      → abort_found run_id reason now r k ≡ (k', ok v)
      → Aborts run_id r k' v
  unfolding emit cleanup_run_scoped_caches aborted_instance
  abort_effect live e =
      let (h, k1, written, answer) = abort_found-ok live e in
      let cleared =
        cleanup-IsCleared run_id (put_run run_id (aborted_instance reason h now r) k1) in
      let view = anchor_root-SameProgress RootType.aborted h (record r.view {
        state = State.aborted;
        state_version = int64_succ r.view.state_version;
        current_step_seq_id = int64_succ r.view.current_step_seq_id;
        last_step_hash = h;
        updated_at = now;
        last_progress_at = now;
        terminal_reason = abort_reason reason;
        terminal_source = "abort_api";
      }) in
      record {
        after = aborted_instance reason h now r;
        stored =
            ap (λ (x : Kernel). lookup run_id x.runs) written
            ∙ lookup-insert_self run_id (aborted_instance reason h now r) k1.runs;
        answered = answer;
        aborted = view.state_same;
        version_bumped = view.version_same;
        cleared = rw written (record {
          no_continuation = cleared.no_continuation;
          no_idempotency = cleared.no_idempotency;
          no_create_run = cleared.no_create_run;
        });
      }

-- An abort of a stored live run that answers has stored it as aborted under the next version, answers
-- its view, and leaves none of its continuations, idempotency entries and creation entries.
pub abort_run-Aborts :
    ⦃platform : Platform⦄ (run_id reason : String) (now : Time) (r : RunInstance) (k k' : Kernel)
    (v : RunView)
    → lookup run_id k.runs ≡ some r
    → is_terminal_state r.view.state ≡ false
    → abort_run run_id reason now k ≡ (k', ok v)
    → Aborts run_id r k' v
unfolding abort_run
abort_run-Aborts run_id reason now r k k' v found live done =
    let opened : abort_found run_id reason now r k ≡ (k', ok v) = ground arith in
    abort_effect run_id reason now r k k' v live opened
