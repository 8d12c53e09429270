-- ===== src/Run/Create/Reuse.antt =====
-- The creation cache: a repeated request is answered with the run that is there.
use agent_infra_system.Base.{
  String, ◌≡◌, refl, ◌∙◌, ap, sym, inl, inr, none, some, arith, Option-cases, eq_iff, ◌≢◌, ◌+◌,
}
use agent_infra_system.Base.Dict.{lookup}
use agent_infra_system.Base.Int.{u64}
use agent_infra_system.Base.Time.{Time}
use agent_infra_system.Platform.{Platform, checked_hash}
use agent_infra_system.Run.States.{Risk}
use agent_infra_system.Run.Types.{
  Kernel, Result, ok, CreateRunRequest, CreateRunResponse, CreateRunEntry,
}
use agent_infra_system.Run.Outbox.{emit}
use agent_infra_system.Run.Create.{
  validate_create, create_fingerprint, create_key, run_id_of, snapshot_input, store_run,
  create_fresh, create_cached, create_run,
}
use agent_infra_system.Run.Frames.{lookup-insert_self}
use agent_infra_system.Run.Advance.Effect.{Result-cases}

module _ ⦃platform : Platform⦄ (req : CreateRunRequest) (now : Time) (k k' : Kernel)
    (resp : CreateRunResponse) where
  -- What a creation leaves: the entry of its request, and the run that the entry names.
  record Created : Type 0 where
    pub risk : Risk
    pub fingerprint : String
    pub entry : CreateRunEntry
    pub valid : validate_create req ≡ ok risk
    pub hashed : create_fingerprint req risk ≡ some fingerprint
    pub cached : lookup (create_key req) k'.create_runs ≡ some entry
    pub same_request : entry.request_hash ≡ fingerprint
    pub same_answer : entry.response ≡ resp
    pub run_stored : lookup entry.run_id k'.runs ≢ none

  store_run-Created :
      (risk : Risk) (fingerprint id hash : String) (k1 : Kernel)
      → validate_create req ≡ ok risk
      → create_fingerprint req risk ≡ some fingerprint
      → store_run req risk fingerprint id hash now k1 ≡ (k', ok resp)
      → Created
  unfolding store_run emit
  store_run-Created risk fingerprint id hash k1 valid hashed e =
      let entry : CreateRunEntry = record {
        run_id = id;
        request_hash = fingerprint;
        response = resp;
        created_at = now;
        last_access_at = now;
      } in
      let stored =
        ap (λ (x : Kernel × Result CreateRunResponse). lookup id x.0.runs) (sym e)
        ∙ lookup-insert_self id _ k1.runs in
      record {
        risk = risk;
        fingerprint = fingerprint;
        entry = entry;
        valid = valid;
        hashed = hashed;
        cached = ground (arith, lookup-insert_self (create_key req) entry k1.create_runs);
        same_request = refl;
        same_answer = refl;
        run_stored = λ gone. cc stored;
      }

  created :
      lookup (create_key req) k.create_runs ≡ none → create_run req now k ≡ (k', ok resp) → Created
  unfolding create_run create_fresh
  created uncached e = elim (Result-cases (validate_create req)) [
    | inr (x, refused) ↦ absurd (ground arith)
    | inl (risk, valid) ↦ elim (Option-cases (create_fingerprint req risk)) [
      | inl failed ↦ absurd (ground arith)
      | inr (fingerprint, hashed) ↦
          elim (Option-cases (checked_hash (snapshot_input req.snapshot now))) [
            | inl failed ↦ absurd (ground arith)
            | inr (hash, frozen) ↦
                store_run-Created risk fingerprint (run_id_of fingerprint (u64 (k.run_seq + 1)))
                  hash (record k { run_seq = u64 (k.run_seq + 1) }) valid hashed (ground arith)
          ]
    ]
  ]

-- After a creation that answers, not from the cache, the same request at any time has the same
-- answer, and changes neither the runs, nor the chains, nor the count of runs.
pub create_run_reuses :
    ⦃platform : Platform⦄ (req : CreateRunRequest) (now : Time) (k k' : Kernel)
    (resp : CreateRunResponse)
    → lookup (create_key req) k.create_runs ≡ none
    → create_run req now k ≡ (k', ok resp)
    → (later : Time)
    → let (k2, answer) = create_run req later k' in
      (answer ≡ ok resp)
      × (k2.runs ≡ k'.runs)
      × (k2.step_integrity ≡ k'.step_integrity)
      × (k2.run_seq ≡ k'.run_seq)
unfolding create_run create_cached emit
create_run_reuses req now k k' resp uncached done later =
    let c = created req now k k' resp uncached done in
    elim (Option-cases (lookup c.entry.run_id k'.runs)) [
      | inl gone ↦ absurd (c.run_stored gone)
      | inr (r, found) ↦ ground (
        arith,
        c.valid,
        c.hashed,
        c.cached,
        c.same_request,
        c.same_answer,
        eq_iff c.entry.request_hash c.fingerprint,
      )
    ]
