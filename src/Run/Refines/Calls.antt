-- ===== src/Run/Refines/Calls.antt =====
-- The calls of the run kernel, as a step relation on its state, and what holds in every state that
-- calls can reach.
use agent_infra_system.Base.{
  String, Bool, ◌≡◌, refl, inl, inr, Option, some, Bool-cases, arith, ◌||◌, is_empty,
}
use agent_infra_system.Base.Int.{ℤ, pos, leb_ℤ}
use agent_infra_system.Base.Dict.{lookup, keys}
use agent_infra_system.Base.Time.{Time}
use agent_infra_system.Platform.{Platform}
use agent_infra_system.Run.Types.{
  Kernel, Result, Config, DecisionPort, RunInstance, CreateRunRequest, AdvanceRunRequest,
  ParkRunRequest, ResumeRunRequest,
}
use agent_infra_system.Run.Outbox.{drain_outbox}
use agent_infra_system.Run.Steps.{step_integrities}
use agent_infra_system.Run.Obligations.Templates.{sort_strings}
use agent_infra_system.Run.Setup.{with_run, new_kernel, flag_run_risk}
use agent_infra_system.Run.Create.{create_run}
use agent_infra_system.Run.Advance.{advance_run}
use agent_infra_system.Run.Park.{park_run}
use agent_infra_system.Run.Resume.{resume_run, abort_run}
use agent_infra_system.Run.Sweep.{
  no_result, ttl_round, zombie_round, sweep_ttl, sweep_zombie, maintenance_sweep,
}
use agent_infra_system.Run.Spec.{Transition, Transition-same, Transition-edited, Steps, stay, next}
use agent_infra_system.Run.Spec.Invariant.{Inv, Steps-Inv}
use agent_infra_system.Run.Sweep.Rounds.{ttl_round-Scans}
use agent_infra_system.Run.Refines.Synthetic.{Leads}
use agent_infra_system.Run.Refines.Requests.{
  abort_found-Leads, park_found-Leads, resume_found-Leads, with_run-Leads,
}
use agent_infra_system.Run.Refines.Advance.{advance_found-Leads}
use agent_infra_system.Run.Refines.Sweep.{
  Walk, halt, onward, Walk-Steps, Walk-join, Walks, Spares-NoNew, ttl_round-Leads,
  zombie_round-Walks, sweep_runs-Walks,
}
use agent_infra_system.Run.Refines.Maintenance.{apply_maintenance-Walks}
use agent_infra_system.Run.Refines.Create.{IsFresh, create_run-Leads}

-- One call of the kernel that changes its state. A creation needs a free id, see `IsFresh`.
pub data Call ⦃platform : Platform⦄ (k : Kernel) : Kernel → Type 0 where
  create : (req : CreateRunRequest) (now : Time) → IsFresh k → Call k (create_run req now k).0
  advance :
      (run_id : String) (req : AdvanceRunRequest) (now : Time)
      → Call k (advance_run run_id req now k).0
  park :
      (run_id : String) (req : ParkRunRequest) (now : Time) → Call k (park_run run_id req now k).0
  resume :
      (run_id : String) (req : ResumeRunRequest) (now : Time)
      → Call k (resume_run run_id req now k).0
  abort : (run_id reason : String) (now : Time) → Call k (abort_run run_id reason now k).0
  flag :
      (run_id : String) (security resource : Bool)
      → Call k (flag_run_risk run_id security resource k).0
  drain : (limit : ℤ) → Call k (drain_outbox limit k).0
  ttl : (now : Time) → Call k (sweep_ttl now k).0
  zombie : (now : Time) → Call k (sweep_zombie now k).0
  maintain : (now : Time) → Call k (maintenance_sweep now k).0

-- What a call does: one transition, or a walk that stores no new run.
pub data Passage (k k' : Kernel) : Type 0 where
  once : Transition k k' → Passage k k'
  walked : Walk k k' → Passage k k'

Passage-Steps : {k k' : Kernel} → Passage k k' → Steps k k'
Passage-Steps (once t) = next stay t
Passage-Steps (walked w) = Walk-Steps w

module _ ⦃platform : Platform⦄ {k : Kernel} (inv : Inv k) where
  sweep_ttl-Walks : (now : Time) → Walks k (sweep_ttl now k)
  unfolding sweep_ttl
  sweep_ttl-Walks now =
      let swept =
        sweep_runs-Walks (λ key r. ttl_round key now r)
          (λ key r l result keyed found.
            let led = ttl_round-Leads key now r l result keyed found in
            let scans = ttl_round-Scans key now r l result in
            record {
              walks_to =
                  onward halt led.leads_to
                    (Spares-NoNew key r l (ttl_round key now r l result).0 found scans.spares);
            })
          (sort_strings (keys k.runs)) k no_result inv in
      let cleaned = apply_maintenance-Walks now _ _ (Steps-Inv inv (Walk-Steps swept.walks_to)) in
      record { walks_to = Walk-join swept.walks_to cleaned.walks_to }

  sweep_zombie-Walks : (now : Time) → Walks k (sweep_zombie now k)
  unfolding sweep_zombie
  sweep_zombie-Walks now =
      let swept =
        sweep_runs-Walks (λ key r. zombie_round key now r)
          (λ key r l result keyed found. zombie_round-Walks key now r l result keyed found)
          (sort_strings (keys k.runs)) k no_result inv in
      let cleaned = apply_maintenance-Walks now _ _ (Steps-Inv inv (Walk-Steps swept.walks_to)) in
      record { walks_to = Walk-join swept.walks_to cleaned.walks_to }

  maintenance_sweep-Walks : (now : Time) → Walks k (maintenance_sweep now k)
  unfolding maintenance_sweep
  maintenance_sweep-Walks now = apply_maintenance-Walks now k no_result inv

  drain_outbox-Passage : (limit : ℤ) → Passage k (drain_outbox limit k).0
  unfolding drain_outbox
  drain_outbox-Passage limit = elim (Bool-cases (leb_ℤ limit (pos 0) || is_empty k.outbox)) [
    | inl none_drained ↦ rw none_drained (walked halt)
    | inr drained ↦ rw drained (once (Transition-same k _ refl refl))
  ]

  -- The call that leaves the progress of every run alone.
  flag_run_risk-Leads :
      (run_id : String) (security resource : Bool)
      → Leads k (flag_run_risk run_id security resource k)
  unfolding flag_run_risk
  flag_run_risk-Leads run_id security resource = with_run-Leads run_id k _ λ r found. record {
    leads_to =
        Transition-edited run_id k _ r
          (record r { security_risk = security; resource_risk = resource }) found refl refl
          (record {
            id_same = refl;
            version_same = refl;
            seq_same = refl;
            head_same = refl;
            state_kept = inl refl;
          });
  }

  -- A request for a stored run, as the lookup and the step that the run's own key makes.
  request_induction {ℓ} :
      {A : Type ℓ} (run_id : String) (f : RunInstance → Kernel × Result A)
      → ((r : RunInstance) → r.view.run_id ≡ run_id → lookup run_id k.runs ≡ some r → Leads k (f r))
      → Passage k (with_run run_id k f).0
  request_induction run_id f each =
      let answered = with_run-Leads run_id k f λ r found. each r (inv.keyed run_id r found) found in
      once answered.leads_to

  -- What each call does.
  pub Call-Passage : {k' : Kernel} → Call k k' → Passage k k'
  unfolding advance_run park_run resume_run abort_run drain_outbox
  Call-Passage (create req now fresh) =
      let created = create_run-Leads req now k fresh in once created.leads_to
  Call-Passage (advance run_id req now) =
      request_induction run_id _ λ r keyed found. advance_found-Leads run_id req now r k found
  Call-Passage (park run_id req now) =
      request_induction run_id _ λ r keyed found. park_found-Leads run_id now r k keyed found req
  Call-Passage (resume run_id req now) =
      request_induction run_id _ λ r keyed found. resume_found-Leads run_id now r k keyed found req
  Call-Passage (abort run_id reason now) =
      request_induction run_id _
        λ r keyed found. abort_found-Leads run_id now r k keyed found reason
  Call-Passage (flag run_id security resource) =
      let flagged = flag_run_risk-Leads run_id security resource in once flagged.leads_to
  Call-Passage (drain limit) = drain_outbox-Passage limit
  Call-Passage (ttl now) = let swept = sweep_ttl-Walks now in walked swept.walks_to
  Call-Passage (zombie now) = let swept = sweep_zombie-Walks now in walked swept.walks_to
  Call-Passage (maintain now) = let swept = maintenance_sweep-Walks now in walked swept.walks_to

  -- On a kernel with the invariant, every call is a sequence of transitions of the abstract view,
  -- each of which creates, edits, moves or removes runs only as `Change` allows.
  pub Call-Steps : {k' : Kernel} → Call k k' → Steps k k'
  Call-Steps c = Passage-Steps (Call-Passage c)

-- The states that calls can reach from a new kernel.
pub data Reachable ⦃platform : Platform⦄ (c : Config) (port : Option DecisionPort)
    : Kernel → Type 0 where
  start : Reachable c port (new_kernel c port)
  call : {k k' : Kernel} → Reachable c port k → Call k k' → Reachable c port k'

-- In every state that calls can reach from a new kernel, each run is stored once and under its own
-- id, its steps form a chain from the empty hash to its last step hash, and an id with no run has no
-- steps.
pub Reachable-Inv :
    ⦃platform : Platform⦄ {c : Config} {port : Option DecisionPort} {k : Kernel}
    → Reachable c port k
    → Inv k
unfolding new_kernel lookup step_integrities
Reachable-Inv start = record {
  unique = tt;
  keyed = λ id r found. absurd (ground arith);
  chained = λ id r found. absurd (ground arith);
  no_orphans = λ id free. refl;
}
Reachable-Inv (call before c) = let inv = Reachable-Inv before in Steps-Inv inv (Call-Steps inv c)
