-- ===== src/Run/Refines/Maintenance.antt =====
-- `applyMaintenanceLocked` refines the abstract view: it deletes terminal runs only.
use agent_infra_system.Base.{
  String, Bool, true, ◌≡◌, refl, sym, inl, inr, none, some, [], ◌∷◌, arith, eq_iff, Bool-cases,
  if_induction, if◌then◌else◌, ◌==◌,
}
use agent_infra_system.Base.Int.{pos, leb_ℤ}
use agent_infra_system.Base.Dict.{Dict, lookup, lookup-erase}
use agent_infra_system.Base.Dict.Unique.{Unique, erase-Unique, Agrees, Agrees-erase, Agrees-refl}
use agent_infra_system.Base.Time.{Time}
use agent_infra_system.Run.States.{is_terminal_state}
use agent_infra_system.Run.Types.{Kernel, RunInstance, SweepResult}
use agent_infra_system.Run.Outbox.{cleanup_outbox}
use agent_infra_system.Run.Steps.{step_integrities}
use agent_infra_system.Run.Caches.{
  cleanup_run_scoped_caches, cleanup_continuations, cleanup_idempotency, cleanup_create_runs,
  is_retired_run, delete_run, delete_runs, cleanup_terminal_runs, apply_maintenance,
}
use agent_infra_system.Run.Spec.{kept, removed, Transition, Transition-same}
use agent_infra_system.Run.Spec.Invariant.{Inv}
use agent_infra_system.Run.Refines.Sweep.{NoNew, halt, onward, Walk-join, Walks, Walks-unchanged}

step_integrities-delete_run :
    (id j : String) (k : Kernel)
    → step_integrities j (delete_run id k) ≡ (if id == j then [] else step_integrities j k)
unfolding step_integrities delete_run cleanup_run_scoped_caches
step_integrities-delete_run id j k = ground (arith, lookup-erase id j k.step_integrity)

-- A terminal run is removed, and all else stays.
delete_run-Transition :
    (id : String) (r : RunInstance) (k : Kernel)
    → lookup id k.runs ≡ some r
    → is_terminal_state r.view.state ≡ true
    → Transition k (delete_run id k)
unfolding delete_run cleanup_run_scoped_caches
delete_run-Transition id r k found ended = record {
  changes = λ j. elim (Bool-cases (id == j)) [
    | inl here ↦
        removed r (rw (sym ((eq_iff id j).0 here)) found) ended
          (ground (arith, lookup-erase id j k.runs))
          (ground (arith, step_integrities-delete_run id j k))
    | inr elsewhere ↦
        kept (ground (arith, lookup-erase id j k.runs))
          (ground (arith, step_integrities-delete_run id j k))
  ];
  unique = λ u. erase-Unique id k.runs u;
}

delete_run-Agrees :
    (id : String) (rest : Dict RunInstance) (k : Kernel)
    → lookup id rest ≡ none
    → Agrees rest k.runs
    → Agrees rest (delete_run id k).runs
unfolding delete_run cleanup_run_scoped_caches
delete_run-Agrees id rest k n a = Agrees-erase id rest k.runs n a

delete_run-NoNew : (id : String) (k : Kernel) → NoNew k (delete_run id k)
unfolding delete_run cleanup_run_scoped_caches
delete_run-NoNew id k j free = ground (arith, lookup-erase id j k.runs)

delete_runs-Walks :
    (p : RunInstance → Bool)
    → ((r : RunInstance) → p r ≡ true → is_terminal_state r.view.state ≡ true)
    → (todo : Dict RunInstance) (k : Kernel) → Unique todo
    → Agrees todo k.runs
    → Walks k (delete_runs p todo k)
unfolding delete_runs
delete_runs-Walks p terminal [] k u a = Walks-unchanged k 0
delete_runs-Walks p terminal ((id, r) ∷ rest) k u a = elim (Bool-cases (p r)) [
  | inl old ↦
      let deleted = delete_run-Transition id r k a.0 (terminal r old) in
      let more =
        delete_runs-Walks p terminal rest (delete_run id k) u.1
          (delete_run-Agrees id rest k u.0 a.1) in
      rw old (record {
        walks_to = Walk-join (onward halt deleted (delete_run-NoNew id k)) more.walks_to;
      })
  | inr young ↦
      let more = delete_runs-Walks p terminal rest k u.1 a.1 in
      rw young (record { walks_to = more.walks_to })
]

is_retired_run-terminal :
    (now : Time) (k : Kernel) (r : RunInstance)
    → is_retired_run now k.cfg.run_retention r ≡ true
    → is_terminal_state r.view.state ≡ true
unfolding is_retired_run
is_retired_run-terminal now k r h = ground arith

cleanup_terminal_runs-Walks :
    (now : Time) (k : Kernel) → Unique k.runs → Walks k (cleanup_terminal_runs now k)
unfolding cleanup_terminal_runs
cleanup_terminal_runs-Walks now k u =
    if_induction (Walks k) (leb_ℤ k.cfg.run_retention (pos 0)) (λ off. Walks-unchanged k 0)
      (λ on.
        delete_runs-Walks (is_retired_run now k.cfg.run_retention)
          (λ r. is_retired_run-terminal now k r) k.runs k u (Agrees-refl k.runs u))

-- Maintenance removes terminal runs, with their chains, and changes no other run.
pub apply_maintenance-Walks :
    (now : Time) (k : Kernel) (result : SweepResult)
    → Inv k
    → Walks k (apply_maintenance now k result)
unfolding apply_maintenance cleanup_continuations cleanup_idempotency cleanup_create_runs
    cleanup_outbox
apply_maintenance-Walks now k result inv =
    let k2 = (cleanup_idempotency now (cleanup_continuations now k).0).0 in
    let deleted = cleanup_terminal_runs-Walks now k2 inv.unique in
    record {
      walks_to =
          onward
            (Walk-join (onward halt (Transition-same k k2 refl refl) (λ id free. free))
              deleted.walks_to)
            (Transition-same (cleanup_terminal_runs now k2).0 _ refl refl) (λ id free. free);
    }
