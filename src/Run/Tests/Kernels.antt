-- ===== src/Run/Tests/Kernels.antt =====
-- The theorems on whole kernels at concrete ones.
use agent_infra_system.Base.{
  String, List, ℕ, ◌+◌, ◌≤◌, ◌≡◌, ◌≢◌, ◌⊎◌, refl, none, some, [], ◌∷◌, ◌++◌, arith, eq_iff, length,
  drop,
}
use agent_infra_system.Base.Dict.{lookup}
use agent_infra_system.Base.Int.{pos, int64_succ}
use agent_infra_system.Base.Text.{trim_space}
use agent_infra_system.Run.States.{RootType}
use agent_infra_system.Run.Types.{RunInstance}
use agent_infra_system.Run.Outbox.{emit, event_of}
use agent_infra_system.Run.Setup.{new_kernel}
use agent_infra_system.Run.Roots.{anchor_root}
use agent_infra_system.Run.Roots.Laws.{anchor_root_versions}
use agent_infra_system.Run.Caches.{cleanup_run_scoped_caches}
use agent_infra_system.Run.Create.{create_run}
use agent_infra_system.Run.Resume.{resume_run}
use agent_infra_system.Run.Resume.Abort.{IsCleared, cleanup-IsCleared}
use agent_infra_system.Run.Sweep.{sweep_ttl, sweep_zombie}
use agent_infra_system.Run.Sweep.Limit.{IsIn, sweep_ttl_visits}
use agent_infra_system.Run.Spec.{Steps}
use agent_infra_system.Run.Spec.Invariant.{Inv}
use agent_infra_system.Run.Refines.Calls.{Call, Call-Steps, Reachable, Reachable-Inv}
use agent_infra_system.Run.Refines.History.{Frozen, Call-Frozen, Grown, Call-Grown}
use agent_infra_system.Run.Outbox.Laws.{emit_outbox}
use agent_infra_system.Run.Tests.Fixtures.{
  toy, holding, creation, zero_config, fresh_run, waiting_run, ended_run, resuming, noon,
}

-- The kernels that hold one run are well-formed.
holding-Inv :
    (r : RunInstance) → r.view.run_id ≡ "r1" → r.view.last_step_hash ≡ "" → Inv (holding r)
unfolding lookup agent_infra_system.Run.Steps.step_integrities
holding-Inv r keyed head = record {
  unique = (refl, tt);
  keyed = λ id x e. ground (arith, eq_iff "r1" id);
  chained = λ id x e. ground arith;
  no_orphans = λ id e. refl;
}

Call-Frozen_example :
    (lookup "r1" (sweep_ttl (noon + 10) (holding ended_run)).0.runs ≡ none)
    ⊎ Frozen "r1" ended_run (holding ended_run) (sweep_ttl (noon + 10) (holding ended_run)).0
unfolding lookup
Call-Frozen_example =
    Call-Frozen "r1" ended_run (holding ended_run) (sweep_ttl (noon + 10) (holding ended_run)).0
      (holding-Inv ended_run refl refl) refl refl (Call.ttl (noon + 10))

Call-Grown_example :
    (lookup "r1" (resume_run "r1" (resuming "ct") noon (holding waiting_run)).0.runs ≡ none)
    ⊎ Grown "r1"
        (holding waiting_run)
        (resume_run "r1" (resuming "ct") noon (holding waiting_run)).0
unfolding lookup
Call-Grown_example =
    Call-Grown "r1" waiting_run (holding waiting_run)
      (resume_run "r1" (resuming "ct") noon (holding waiting_run)).0
      (holding-Inv waiting_run refl refl) refl (Call.resume "r1" (resuming "ct") noon)

Reachable-Inv_example : Inv (create_run creation noon (new_kernel zero_config none)).0
unfolding lookup new_kernel
Reachable-Inv_example =
    Reachable-Inv {c = zero_config} {port = none}
      {k = (create_run creation noon (new_kernel zero_config none)).0}
      (Reachable.call Reachable.start (Call.create creation noon λ fingerprint. refl))

Call-Steps_example : Steps (holding fresh_run) (sweep_zombie noon (holding fresh_run)).0
Call-Steps_example =
    Call-Steps {k = holding fresh_run} (holding-Inv fresh_run refl refl)
      {k' = (sweep_zombie noon (holding fresh_run)).0} (Call.zombie noon)

emit_outbox_example :
    let k' = emit "run.created" "r1" "" [] noon (holding fresh_run) in
    (length k'.outbox ≤ 10)
    × ((lost : ℕ) × (k'.outbox
          ≡ drop lost [] ++ event_of k'.event_seq "run.created" "r1" "" [] noon ∷ []))
emit_outbox_example =
    emit_outbox "run.created" "r1" "" [] noon (holding fresh_run) 10 refl (omega arith)

anchor_root_versions_example :
    let v = fresh_run.view in
    let w = anchor_root RootType.partial " h1 " v in
    (trim_space " h1 " ≡ "" → w ≡ v)
    × (trim_space " h1 " ≢ ""
        → (w.run_integrity_root ≡ trim_space " h1 ")
          × (w.integrity_root_type ≡ some RootType.partial))
    × (w.run_integrity_root ≡ v.run_integrity_root
        → w.run_integrity_root_version ≡ v.run_integrity_root_version)
    × (w.run_integrity_root ≢ v.run_integrity_root
        → w.run_integrity_root_version ≡ int64_succ v.run_integrity_root_version)
anchor_root_versions_example = anchor_root_versions RootType.partial " h1 " fresh_run.view

cleanup-IsCleared_example : IsCleared "r1" (cleanup_run_scoped_caches "r1" (holding ended_run))
cleanup-IsCleared_example = cleanup-IsCleared "r1" (holding ended_run)

sweep_ttl_visits_example :
    let k = record (holding fresh_run) { cfg = record zero_config { sweep_batch_limit = pos 1 } } in
    let (k', result) = sweep_ttl noon k in
    (visited : List String) × (result.scanned ≡ length visited)
    × (length visited ≤ 1)
    × ((id : String)
        → ¬ IsIn id visited
        → (lookup id k'.runs ≡ lookup id k.runs) ⊎ (lookup id k'.runs ≡ none))
sweep_ttl_visits_example =
    sweep_ttl_visits noon
      (record (holding fresh_run) { cfg = record zero_config { sweep_batch_limit = pos 1 } }) 1 refl
