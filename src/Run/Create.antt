-- ===== src/Run/Create.antt =====
-- `CreateRun` of internal/run/kernel.go.
pub mod Reuse
use Prim.Native.String.{◌++◌, slice}
use agent_infra_system.Base.{
  ℕ, ◌+◌, String, Bool, true, ◌||◌, Option, none, some, [], ◌∷◌, if◌then◌else◌, ◌==◌, not,
}
use agent_infra_system.Base.Int.{pos, u64}
use agent_infra_system.Base.Dict.{lookup, insert, erase}
use agent_infra_system.Base.Text.{is_blank, show_hex8}
use agent_infra_system.Base.Time.{Time}
use agent_infra_system.Platform.{Platform, Value, Json, checked_hash}
use agent_infra_system.Run.States.{State, Risk, parse_risk, show_risk}
use agent_infra_system.Run.Types.{
  Kernel, KernelError, Result, ok, err, kernel_err, CreateRunRequest, CreateRunResponse,
  CreateRunEntry, SnapshotInput, RunSnapshot, RunView, RunInstance,
}
use agent_infra_system.Run.Outbox.{emit}
use agent_infra_system.Run.Setup.{max_lifetime_for_risk}

-- The tests before the request is hashed, and the tier that the rest works with.
unfoldable pub validate_create : CreateRunRequest → Result Risk
validate_create req =
    if is_blank req.request_id
      || is_blank req.tenant_id
      || is_blank req.workflow_id
      || is_blank req.workflow_version
    then err (
        kernel_err 422 "RUN_INPUT_INVALID" "request_id/tenant/workflow/version required"
          ("input_invalid" ∷ []))
    else elim (parse_risk req.risk_tier) [
      | none ↦
          err (kernel_err 422 "RUN_INPUT_INVALID" "invalid risk_tier" ("input_invalid_risk" ∷ []))
      | some risk ↦
          if is_blank req.snapshot.context_policy_space_hash
          then err (
              kernel_err 409 "RUN_SNAPSHOT_FREEZE_FAILED" "context policy space hash required"
                ("snapshot_freeze_failed" ∷ []))
          else ok risk
    ]

fingerprint_input : CreateRunRequest → Risk → Json
fingerprint_input req risk = Json.object (
    ("request_id", Value.text req.request_id)
    ∷ ("tenant_id", Value.text req.tenant_id)
    ∷ ("workflow", Value.text req.workflow_id)
    ∷ ("version", Value.text req.workflow_version)
    ∷ ("risk", Value.text (show_risk risk))
    ∷ ("input_ref", Value.text req.input_payload_ref)
    ∷ (
      "snapshot",
      Value.fields (
          ("policy_bundle_id", req.snapshot.policy_bundle_id)
          ∷ ("model_profile_id", req.snapshot.model_profile_id)
          ∷ ("dependency_bundle_id", req.snapshot.dependency_bundle_id)
          ∷ ("skill_bundle_set_hash", req.snapshot.skill_bundle_set_hash)
          ∷ ("context_policy_space_hash", req.snapshot.context_policy_space_hash)
          ∷ []),
    )
    ∷ [])

-- The snapshot as it is hashed, with an empty `snapshot_hash`.
unfoldable pub snapshot_input : SnapshotInput → Time → Json
snapshot_input s now = Json.object (
    ("policy_bundle_id", Value.text s.policy_bundle_id)
    ∷ ("model_profile_id", Value.text s.model_profile_id)
    ∷ ("dependency_bundle_id", Value.text s.dependency_bundle_id)
    ∷ ("skill_bundle_set_hash", Value.text s.skill_bundle_set_hash)
    ∷ ("context_policy_space_hash", Value.text s.context_policy_space_hash)
    ∷ ("snapshot_hash", Value.text "")
    ∷ ("created_at", Value.time now)
    ∷ [])

unfoldable pub create_key : CreateRunRequest → String
create_key req = req.tenant_id ++ "|" ++ req.request_id

unfoldable pub run_id_of : String → ℕ → String
run_id_of fingerprint seq = "run_" ++ slice fingerprint 0 8 ++ "_" ++ show_hex8 seq

new_snapshot : SnapshotInput → String → Time → RunSnapshot
new_snapshot s hash now = record {
  policy_bundle_id = s.policy_bundle_id;
  model_profile_id = s.model_profile_id;
  dependency_bundle_id = s.dependency_bundle_id;
  skill_bundle_set_hash = s.skill_bundle_set_hash;
  context_policy_space_hash = s.context_policy_space_hash;
  snapshot_hash = hash;
  created_at = now;
}

unfoldable pub new_view : CreateRunRequest → Risk → String → String → Time → RunView
unfolding new_snapshot
new_view req risk run_id snapshot_hash now = record {
  run_id = run_id;
  tenant_id = req.tenant_id;
  workflow_id = req.workflow_id;
  workflow_version = req.workflow_version;
  state = State.running;
  active_step_id = "";
  state_version = pos 1;
  risk_tier = risk;
  integrity_chain_version = "v1";
  last_step_hash = "";
  run_integrity_root = "";
  run_integrity_root_version = pos 0;
  integrity_root_type = none;
  terminal_reason = "";
  terminal_source = "";
  attached_tags = [];
  current_step_seq_id = pos 0;
  created_at = now;
  updated_at = now;
  last_progress_at = now;
  snapshot = new_snapshot req.snapshot snapshot_hash now;
  root_anchors = record {
    completed_root = "";
    partial_root = "";
    reconciled_root = "";
    review_hold_root = "";
    aborted_root = "";
  };
}

abbrev pub create_hash_failed : String → KernelError
create_hash_failed msg =
    kernel_err 500 "RUN_HASH_GENERATION_FAILED" msg ("hash_generation_failed" ∷ [])

new_response : CreateRunRequest → String → String → Time → CreateRunResponse
new_response req run_id snapshot_hash now = record {
  run_id = run_id;
  snapshot_hash = snapshot_hash;
  context_policy_space_hash = req.snapshot.context_policy_space_hash;
  initial_state = State.running;
  created_at = now;
}

module _ ⦃platform : Platform⦄ where
  unfoldable pub create_fingerprint : CreateRunRequest → Risk → Option String
  unfolding fingerprint_input
  create_fingerprint req risk = checked_hash (fingerprint_input req risk)

  -- The new run and its cache entry, after the snapshot is hashed.
  unfoldable pub store_run :
      CreateRunRequest
      → Risk
      → String
      → String
      → String
      → Time
      → Kernel
      → Kernel × Result CreateRunResponse
  unfolding new_view new_response
  store_run req risk fingerprint run_id snapshot_hash now k =
      let instance_of_run : RunInstance = record {
        view = new_view req risk run_id snapshot_hash now;
        max_lifetime = max_lifetime_for_risk k.cfg risk;
        security_risk = Bool.false;
        resource_risk = Bool.false;
        no_progress_scans = 0;
      } in
      let k1 =
        emit "run.created" run_id ""
          (("snapshot_hash", Value.text snapshot_hash)
            ∷ ("risk_tier", Value.text (show_risk risk))
            ∷ [])
          now (record k { runs = insert run_id instance_of_run k.runs }) in
      let resp = new_response req run_id snapshot_hash now in
      (
        record k1 {
          create_runs =
              insert (create_key req)
                (record {
                  run_id = run_id;
                  request_hash = fingerprint;
                  response = resp;
                  created_at = now;
                  last_access_at = now;
                })
                k1.create_runs;
        },
        ok resp,
      )

  -- From the next sequence number on; the number is used up also where the hash fails.
  unfoldable pub create_fresh :
      CreateRunRequest → Risk → String → Time → Kernel → Kernel × Result CreateRunResponse
  unfolding snapshot_input run_id_of
  create_fresh req risk fingerprint now k =
      let seq = u64 (k.run_seq + 1) in
      let k1 = record k { run_seq = seq } in
      elim (checked_hash (snapshot_input req.snapshot now)) [
        | none ↦ (k1, err (create_hash_failed "failed to hash run snapshot"))
        | some hash ↦ store_run req risk fingerprint (run_id_of fingerprint seq) hash now k1
      ]

  -- A cached entry: a conflict, a reuse, or an entry of a run that is gone.
  unfoldable pub create_cached :
      CreateRunRequest
      → Risk
      → String
      → Time
      → CreateRunEntry
      → Kernel
      → Kernel × Result CreateRunResponse
  create_cached req risk fingerprint now existing k =
      if not (existing.request_hash == fingerprint)
      then (
        emit "run_create_request_conflict" existing.run_id ""
            (("tenant_id", Value.text req.tenant_id)
              ∷ ("request_id", Value.text req.request_id)
              ∷ ("create_key", Value.text (create_key req))
              ∷ ("conflict", Value.bool true)
              ∷ [])
            now (record k { create_run_conflict_total = u64 (k.create_run_conflict_total + 1) }),
        err (
            kernel_err 409 "RUN_CREATE_REQUEST_CONFLICT" "request_id reused with different payload"
              ("create_request_conflict" ∷ [])),
      )
      else elim (lookup existing.run_id k.runs) [
        | some r ↦ (
          emit "run_create_reused" existing.run_id ""
              (("tenant_id", Value.text req.tenant_id)
                ∷ ("request_id", Value.text req.request_id)
                ∷ ("create_key", Value.text (create_key req))
                ∷ [])
              now
              (record k {
                create_runs =
                    insert (create_key req) (record existing { last_access_at = now })
                      k.create_runs;
                create_run_reuse_total = u64 (k.create_run_reuse_total + 1);
              }),
          ok existing.response,
        )
        | none ↦
            create_fresh req risk fingerprint now
              (record k { create_runs = erase (create_key req) k.create_runs })
      ]

  unfoldable pub create_run : CreateRunRequest → Time → Kernel → Kernel × Result CreateRunResponse
  create_run req now k = elim (validate_create req) [
    | err e ↦ (k, err e)
    | ok risk ↦ elim (create_fingerprint req risk) [
      | none ↦ (k, err (create_hash_failed "failed to hash create request"))
      | some fingerprint ↦ elim (lookup (create_key req) k.create_runs) [
        | none ↦ create_fresh req risk fingerprint now k
        | some existing ↦ create_cached req risk fingerprint now existing k
      ]
    ]
  ]
