-- ===== src/Run/Refines/Create.antt =====
-- `CreateRun` refines the abstract view.
use agent_infra_system.Base.{
  String, not, ◌≡◌, refl, ap, none, ◌+◌, if_induction, option_induction, ◌==◌,
}
use agent_infra_system.Base.Int.{u64}
use agent_infra_system.Base.Dict.{lookup, insert, erase}
use agent_infra_system.Base.Time.{Time}
use agent_infra_system.Platform.{Platform, checked_hash}
use agent_infra_system.Run.States.{Risk}
use agent_infra_system.Run.Types.{Kernel, err, CreateRunRequest, CreateRunEntry}
use agent_infra_system.Run.Outbox.{emit}
use agent_infra_system.Run.Create.{
  validate_create, create_fingerprint, create_key, run_id_of, snapshot_input, new_view, store_run,
  create_fresh, create_cached, create_run,
}
use agent_infra_system.Run.Advance.Effect.{result_induction}
use agent_infra_system.Run.Spec.{Transition-same, Transition-created}
use agent_infra_system.Run.Refines.Synthetic.{Leads, Leads-unchanged}

-- No run is stored under an id that the next sequence number can make. The code does not test this:
-- it relies on the counter, which an id carries.
abbrev pub IsFresh : Kernel → Type 0
IsFresh k =
    (fingerprint : String) → lookup (run_id_of fingerprint (u64 (k.run_seq + 1))) k.runs ≡ none

module _ ⦃platform : Platform⦄ (req : CreateRunRequest) (now : Time) (k : Kernel)
    (fresh : IsFresh k) where
  store_run-Leads :
      (risk : Risk) (fingerprint hash : String) (k1 : Kernel)
      → k1.runs ≡ k.runs
      → k1.step_integrity ≡ k.step_integrity
      → k1.run_seq ≡ k.run_seq
      → Leads k (
          store_run req risk fingerprint
            (run_id_of fingerprint (u64 (k1.run_seq + 1)))
            hash
            now
            (record k1 { run_seq = u64 (k1.run_seq + 1) }))
  unfolding store_run emit new_view
  store_run-Leads risk fingerprint hash k1 runs_eq chain_eq seq_eq =
      let id = run_id_of fingerprint (u64 (k1.run_seq + 1)) in
      let free : lookup id k.runs ≡ none = rw seq_eq (fresh fingerprint) in
      record {
        leads_to = Transition-created id k _ _ free (ap (insert id _) runs_eq) chain_eq (record {
          under_id = refl;
          starts_running = refl;
          first_version = refl;
          no_step = refl;
          no_head = refl;
        });
      }

  create_fresh-Leads :
      (risk : Risk) (fingerprint : String) (k1 : Kernel)
      → k1.runs ≡ k.runs
      → k1.step_integrity ≡ k.step_integrity
      → k1.run_seq ≡ k.run_seq
      → Leads k (create_fresh req risk fingerprint now k1)
  unfolding create_fresh
  create_fresh-Leads risk fingerprint k1 runs_eq chain_eq seq_eq =
      option_induction (Leads k) (checked_hash (snapshot_input req.snapshot now))
        (λ failed. record { leads_to = Transition-same k _ runs_eq chain_eq })
        λ hash hashed. store_run-Leads risk fingerprint hash k1 runs_eq chain_eq seq_eq

  create_cached-Leads :
      (risk : Risk) (fingerprint : String) (existing : CreateRunEntry)
      → Leads k (create_cached req risk fingerprint now existing k)
  unfolding create_cached emit
  create_cached-Leads risk fingerprint existing =
      if_induction (Leads k) (not (existing.request_hash == fingerprint))
        (λ other. record { leads_to = Transition-same k _ refl refl })
        λ same.
          option_induction (Leads k) (lookup existing.run_id k.runs)
            (λ gone.
              create_fresh-Leads risk fingerprint
                (record k { create_runs = erase (create_key req) k.create_runs }) refl refl refl)
            λ r found. record { leads_to = Transition-same k _ refl refl }

  -- A creation stores a run under a free id, or answers what is stored, or an error.
  pub create_run-Leads : Leads k (create_run req now k)
  unfolding create_run
  create_run-Leads =
      result_induction (Leads k) (validate_create req) (λ e refused. Leads-unchanged k (err e))
        λ risk valid.
          option_induction (Leads k) (create_fingerprint req risk) (λ failed. Leads-unchanged k _)
            λ fingerprint hashed.
              option_induction (Leads k) (lookup (create_key req) k.create_runs)
                (λ uncached. create_fresh-Leads risk fingerprint k refl refl refl)
                λ existing cached. create_cached-Leads risk fingerprint existing
