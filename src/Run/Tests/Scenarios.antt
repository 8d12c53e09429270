-- ===== src/Run/Tests/Scenarios.antt =====
-- A run that is created from an empty kernel.
use agent_infra_system.Base.{String, ◌≡◌, refl, Option, none, some, []}
use agent_infra_system.Base.Dict.{lookup, insert}
use agent_infra_system.Run.Types.{Kernel}
use agent_infra_system.Base.Text.{is_blank, trim_space, to_lower, show_hex8}
use agent_infra_system.Platform.{checked_hash, hash_json_with_status, is_error_hash}
use agent_infra_system.Run.States.{State, parse_risk, show_risk}
use agent_infra_system.Run.Setup.{new_kernel, with_defaults}
use agent_infra_system.Run.Outbox.{emit, cleanup_outbox, event_of, trim_outbox}
use agent_infra_system.Run.Create.{
  create_run, validate_create, create_fingerprint, create_fresh, store_run, run_id_of,
  snapshot_input, new_view,
}
use agent_infra_system.Run.Tests.Fixtures.{toy, empty_kernel, creation, noon}

abbrev pub created_id : String
created_id = "run_abcdef01_00000001"

abbrev state_in : String → Kernel → Option State
state_in run_id k = elim (lookup run_id k.runs) [ none ↦ none | some r ↦ some r.view.state ]

unfoldable pub created : Kernel
created = (create_run creation noon (empty_kernel [])).0

created_runs : state_in created_id created ≡ some State.running
unfolding toy created empty_kernel new_kernel with_defaults create_run validate_create
    create_fingerprint checked_hash hash_json_with_status is_error_hash create_fresh store_run emit
    run_id_of snapshot_input new_view is_blank trim_space to_lower parse_risk lookup insert
    show_hex8 cleanup_outbox event_of trim_outbox show_risk
created_runs = refl
