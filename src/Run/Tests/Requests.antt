-- ===== src/Run/Tests/Requests.antt =====
-- The theorems on creating, parking, resuming and aborting at concrete requests.
use agent_infra_system.Base.{
  ◌≢◌, ◌==◌, false, eq_iff, ℕ, ◌+◌, ◌*◌, ◌≤◌, String, true, false, ◌≡◌, ◌≢◌, ◌⊎◌, ◌↔◌, refl, Option,
  none, some, List, [], ◌∷◌, ◌++◌, arith, eq_iff, length, drop, All,
}
use agent_infra_system.Base.Time.{add, after, second}
use agent_infra_system.Base.Dict.{lookup, insert}
use agent_infra_system.Base.Int.{pos, int64_succ}
use agent_infra_system.Base.Text.{is_blank, trim_space, to_lower, to_upper}
use agent_infra_system.Platform.{checked_hash, hash_json_with_status, is_error_hash}
use agent_infra_system.Run.States.{State, RootType}
use agent_infra_system.Run.Types.{
  Kernel, Result, ok, err, kernel_err, CreateRunResponse, Continuation, RunView, ResumeRunResponse,
}
use agent_infra_system.Run.Outbox.{emit, cleanup_outbox, event_of, trim_outbox, drain_outbox}
use agent_infra_system.Run.Setup.{new_kernel, is_candidate, is_newer, find_active_continuation}
use agent_infra_system.Run.Setup.Newest.{Answers, Fits, find_active_continuation_newest}
use agent_infra_system.Run.Create.Reuse.{create_run_reuses}
use agent_infra_system.Run.Roots.{anchor_root}
use agent_infra_system.Run.Caches.{cleanup_run_scoped_caches}
use agent_infra_system.Run.Create.{create_run}
use agent_infra_system.Run.Resume.{resume_run, abort_run}
use agent_infra_system.Run.Resume.Once.{
  IsResumable, Resumes, resume_run-IsResumable, resume_run_once,
}
use agent_infra_system.Run.Resume.Abort.{Aborts, abort_run-Aborts}
use agent_infra_system.Run.Park.{park_ttl}
use agent_infra_system.Run.Park.Ttl.{park_ttl_exact, park_ttl_wraps}
use agent_infra_system.Run.Tests.Fixtures.{
  toy, empty_kernel, ticket, holding, creation, zero_config, parking, waiting_run, resuming, noon,
}

abbrev resumed : ResumeRunResponse
resumed = record { resume_status = "resumed"; new_state = State.running; state_version = pos 2 }

kernel_resumed : Kernel
kernel_resumed = (resume_run "r1" (resuming "ct") noon (holding waiting_run)).0

resume_done :
    resume_run "r1" (resuming "ct") noon (holding waiting_run) ≡ (kernel_resumed, ok resumed)
unfolding kernel_resumed toy lookup insert is_blank trim_space to_lower to_upper checked_hash
    hash_json_with_status is_error_hash emit cleanup_outbox event_of trim_outbox
    agent_infra_system.Run.Outbox.count_expired agent_infra_system.Run.Outbox.overflow
    agent_infra_system.Run.Outbox.run_event_evidence_policy agent_infra_system.Base.Dict.erase_if
    agent_infra_system.Base.Text.show_decimal int64_succ agent_infra_system.Run.Roots.anchor_root
    agent_infra_system.Run.Steps.append_step agent_infra_system.Run.Steps.step_integrities
    agent_infra_system.Run.States.show_state agent_infra_system.Run.Caches.cleanup_run_scoped_caches
    resume_run agent_infra_system.Run.Resume.resume_found agent_infra_system.Run.Resume.resume_token
    agent_infra_system.Run.Resume.resume_commit agent_infra_system.Run.Resume.refuse_resume
    agent_infra_system.Run.Resume.is_consumed agent_infra_system.Run.Resume.resumed_instance
    agent_infra_system.Run.Steps.append_synthetic_step agent_infra_system.Run.Steps.synthetic_step
    agent_infra_system.Run.Steps.synthetic_hash
resume_done = refl

resume_run-IsResumable_example :
    (c : Continuation) × (lookup "ct" (holding waiting_run).continuations ≡ some c)
    × IsResumable "r1" (resuming "ct") noon waiting_run c
    × Resumes "r1" (resuming "ct") noon c waiting_run kernel_resumed resumed
unfolding lookup
resume_run-IsResumable_example =
    resume_run-IsResumable "r1" (resuming "ct") noon waiting_run (holding waiting_run)
      kernel_resumed resumed refl resume_done

resume_run_once_example :
    resume_run "r1"
      (record (resuming "ct") { incoming_step_seq_id = pos 9 })
      (noon + 1)
      kernel_resumed
    ≡ (
      kernel_resumed,
      err (
          kernel_err 409 "RUN_CONTINUATION_CONSUMED" "continuation already consumed"
            ("continuation_consumed" ∷ [])),
    )
unfolding lookup
resume_run_once_example =
    resume_run_once "r1" (resuming "ct") noon waiting_run (holding waiting_run) kernel_resumed
      resumed refl resume_done (record (resuming "ct") { incoming_step_seq_id = pos 9 }) (noon + 1)
      refl

kernel_aborted : Kernel × Result RunView
kernel_aborted = abort_run "r1" " stop " noon (holding waiting_run)

view_aborted : RunView
unfolding kernel_aborted
view_aborted = elim kernel_aborted.1 [ ok v ↦ v | err e ↦ waiting_run.view ]

abort_done :
    abort_run "r1" " stop " noon (holding waiting_run) ≡ (kernel_aborted.0, ok view_aborted)
unfolding kernel_aborted view_aborted toy lookup insert is_blank trim_space to_lower to_upper
    checked_hash hash_json_with_status is_error_hash emit cleanup_outbox event_of trim_outbox
    agent_infra_system.Run.Outbox.count_expired agent_infra_system.Run.Outbox.overflow
    agent_infra_system.Run.Outbox.run_event_evidence_policy agent_infra_system.Base.Dict.erase_if
    agent_infra_system.Base.Text.show_decimal int64_succ agent_infra_system.Run.Roots.anchor_root
    agent_infra_system.Run.Steps.append_step agent_infra_system.Run.Steps.step_integrities
    agent_infra_system.Run.States.show_state agent_infra_system.Run.Caches.cleanup_run_scoped_caches
    abort_run agent_infra_system.Run.Resume.abort_found
    agent_infra_system.Run.Resume.aborted_instance agent_infra_system.Run.Resume.abort_reason
    agent_infra_system.Run.Steps.append_synthetic_step agent_infra_system.Run.Steps.synthetic_step
    agent_infra_system.Run.Steps.synthetic_hash
abort_done = refl

abort_run-Aborts_example : Aborts "r1" waiting_run kernel_aborted.0 view_aborted
unfolding lookup
abort_run-Aborts_example =
    abort_run-Aborts "r1" " stop " noon waiting_run (holding waiting_run) kernel_aborted.0
      view_aborted refl refl abort_done

park_ttl_exact_example :
    park_ttl zero_config (record parking { ttl_seconds = pos 60 }) ≡ pos (60 * second)
park_ttl_exact_example =
    park_ttl_exact zero_config (record parking { ttl_seconds = pos 60 }) 60 refl (omega arith)
      (omega arith)

park_ttl_wraps_example :
    after noon (add noon (park_ttl zero_config (record parking { ttl_seconds = pos 9223372037 })))
    ≡ true
park_ttl_wraps_example =
    park_ttl_wraps zero_config (record parking { ttl_seconds = pos 9223372037 }) 9223372037 noon
      refl (omega arith) (omega arith) (omega arith)

kernel_created : Kernel × Result CreateRunResponse
kernel_created = create_run creation noon (empty_kernel [])

abbrev no_creation : CreateRunResponse
no_creation = record {
  run_id = "";
  snapshot_hash = "";
  context_policy_space_hash = "";
  initial_state = State.failed;
  created_at = 0;
}

response_created : CreateRunResponse
unfolding kernel_created
response_created = elim kernel_created.1 [ ok a ↦ a | err e ↦ no_creation ]

create_done : create_run creation noon (empty_kernel []) ≡ (kernel_created.0, ok response_created)
unfolding kernel_created response_created toy lookup insert is_blank trim_space to_lower to_upper
    checked_hash hash_json_with_status is_error_hash emit cleanup_outbox event_of trim_outbox
    agent_infra_system.Run.Outbox.count_expired agent_infra_system.Run.Outbox.overflow
    agent_infra_system.Run.Outbox.run_event_evidence_policy agent_infra_system.Base.Dict.erase_if
    agent_infra_system.Base.Text.show_decimal int64_succ agent_infra_system.Run.Roots.anchor_root
    agent_infra_system.Run.Steps.append_step agent_infra_system.Run.Steps.step_integrities
    agent_infra_system.Run.States.show_state agent_infra_system.Run.Caches.cleanup_run_scoped_caches
    create_run empty_kernel new_kernel agent_infra_system.Run.Create.validate_create
    agent_infra_system.Run.Create.create_fingerprint agent_infra_system.Run.Create.create_fresh
    agent_infra_system.Run.Create.store_run agent_infra_system.Run.Create.run_id_of
    agent_infra_system.Run.Create.snapshot_input agent_infra_system.Run.Create.new_view
    agent_infra_system.Run.Create.create_key agent_infra_system.Run.Setup.with_defaults
    agent_infra_system.Run.Setup.max_lifetime_for_risk agent_infra_system.Run.States.parse_risk
    agent_infra_system.Run.States.show_risk agent_infra_system.Base.Text.show_hex8
create_done = refl

create_run_reuses_example :
    let (k2, answer) = create_run creation (noon + 3) kernel_created.0 in
    (answer ≡ ok response_created)
    × (k2.runs ≡ kernel_created.0.runs)
    × (k2.step_integrity ≡ kernel_created.0.step_integrity)
    × (k2.run_seq ≡ kernel_created.0.run_seq)
unfolding lookup empty_kernel new_kernel
create_run_reuses_example =
    create_run_reuses creation noon (empty_kernel []) kernel_created.0 response_created refl
      create_done (noon + 3)

found_ticket : find_active_continuation " r1" "" "" noon (holding waiting_run) ≡ some ticket
unfolding find_active_continuation is_candidate trim_space to_lower
    agent_infra_system.Run.Setup.choose_from agent_infra_system.Run.Setup.choose
found_ticket = refl

named : trim_space " r1" ≢ ""
unfolding trim_space
named e = let differs : ("r1" == "") ≡ false = refl in absurd (ground (arith, eq_iff "r1" ""))

find_active_continuation_newest_example :
    Answers
      (Fits " r1" "" "" noon)
      (holding waiting_run).continuations
      (find_active_continuation " r1" "" "" noon (holding waiting_run))
unfolding trim_space
find_active_continuation_newest_example =
    find_active_continuation_newest " r1" "" "" noon (holding waiting_run) named
