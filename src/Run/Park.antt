-- ===== src/Run/Park.antt =====
-- `ParkRun` of internal/run/kernel.go: the checks, the continuation token, the commit.
pub mod Ttl
use Prim.Native.String.{◌++◌, slice}
use agent_infra_system.Base.{String, not, none, some, [], ◌∷◌, if◌then◌else◌}
use agent_infra_system.Base.Int.{pos, pos_part, leb_ℤ, ltb_ℤ, eq_ℤ, int64_succ}
use agent_infra_system.Base.Dict.{insert}
use agent_infra_system.Base.Text.{is_blank}
use agent_infra_system.Base.Time.{Time, Duration, add, seconds}
use agent_infra_system.Platform.{Platform, Value, Json, checked_hash}
use agent_infra_system.Run.States.{
  State, TokenType, RootType, ContinuationStatus, is_terminal_state, is_allowed_transition,
  parse_token_type, show_token_type, show_state,
}
use agent_infra_system.Run.Types.{
  Kernel, Config, KernelError, Result, ok, err, kernel_err, RunInstance, RunView, Continuation,
  ParkRunRequest, ParkRunResponse,
}
use agent_infra_system.Run.Roots.{anchor_root}
use agent_infra_system.Run.Outbox.{emit, emit_progress_monotonicity_violation}
use agent_infra_system.Run.Steps.{append_synthetic_step, on_step, hash_generation_failed}
use agent_infra_system.Run.Setup.{with_run, put_run}

abbrev pub terminal_state : KernelError
terminal_state = kernel_err 409 "RUN_TERMINAL_STATE" "run is terminal" ("terminal_state" ∷ [])

abbrev pub state_version_conflict : KernelError
state_version_conflict =
    kernel_err 409 "RUN_STATE_VERSION_CONFLICT" "expected_state_version mismatch"
      ("state_version_conflict" ∷ [])

abbrev pub monotonicity_violation : KernelError
monotonicity_violation =
    kernel_err 409 "RUN_PROGRESS_MONOTONICITY_VIOLATION"
      "incoming_step_seq_id must be strictly increasing" ("progress_monotonicity_violation" ∷ [])

abbrev pub transition_forbidden : KernelError
transition_forbidden =
    kernel_err 409 "RUN_STATE_TRANSITION_FORBIDDEN" "transition not allowed"
      ("state_transition_forbidden" ∷ [])

unfoldable pub parked_state : TokenType → State
parked_state TokenType.approval = State.awaiting_approval
parked_state TokenType.park = State.parked
parked_state TokenType.callback = State.parked

-- The checks after the sequence number, in their order, and the token's type.
unfoldable pub validate_park : State → ParkRunRequest → Result TokenType
validate_park state req = elim (parse_token_type req.token_type) [
  | none ↦ err (kernel_err 422 "RUN_INPUT_INVALID" "invalid token_type" ("invalid_token_type" ∷ []))
  | some token_type ↦
      if is_blank req.step_id
      then err (kernel_err 422 "RUN_INPUT_INVALID" "step_id required" ("step_id_missing" ∷ []))
      else if not (is_allowed_transition state (parked_state token_type))
      then err transition_forbidden
      else ok token_type
]

-- A positive `ttl_seconds` replaces the configured time to live; the product is an int64.
unfoldable pub park_ttl : Config → ParkRunRequest → Duration
park_ttl c req =
    if ltb_ℤ (pos 0) req.ttl_seconds then seconds (pos_part req.ttl_seconds) else c.continuation_ttl

token_input : String → ParkRunRequest → TokenType → Time → Json
token_input run_id req token_type now = Json.object (
    ("run_id", Value.text run_id)
    ∷ ("step_id", Value.text req.step_id)
    ∷ ("step_seq_id", Value.int req.incoming_step_seq_id)
    ∷ ("token_type", Value.text (show_token_type token_type))
    ∷ ("request_ts", Value.time now)
    ∷ [])

new_continuation :
    String → ParkRunRequest → TokenType → String → String → Time → Time → Continuation
new_continuation run_id req token_type token token_hash expires_at now = record {
  continuation_id = token;
  run_id = run_id;
  step_id = req.step_id;
  step_seq_id = req.incoming_step_seq_id;
  token_type = token_type;
  token_hash = token_hash;
  expires_at = expires_at;
  status = ContinuationStatus.active;
  created_at = now;
  consumed_at = none;
}

-- The run after a park to `state`, whose chain now ends in `step_hash`.
unfoldable pub parked_instance : State → ParkRunRequest → String → Time → RunInstance → RunInstance
parked_instance state req step_hash now r = record r {
  view = anchor_root RootType.partial step_hash (record r.view {
    state = state;
    active_step_id = req.step_id;
    state_version = int64_succ r.view.state_version;
    current_step_seq_id = req.incoming_step_seq_id;
    last_step_hash = step_hash;
    updated_at = now;
    last_progress_at = now;
    terminal_reason = "";
    terminal_source = "";
  });
  no_progress_scans = 0;
}

park_event : State → String
park_event State.awaiting_approval = "run.awaiting_approval"
park_event _ = "run.parked"

park_response : String → TokenType → String → Time → RunView → ParkRunResponse
park_response run_id token_type token expires_at v = record {
  run_id = run_id;
  new_state = v.state;
  state_version = v.state_version;
  continuation_token = token;
  continuation_type = token_type;
  expires_at = expires_at;
  partial_integrity_root = v.root_anchors.partial_root;
}

module _ ⦃platform : Platform⦄ where
  -- The token and its hash.
  unfoldable pub park_token : String → ParkRunRequest → TokenType → Time → Result (String × String)
  unfolding token_input
  park_token run_id req token_type now =
      elim (checked_hash (token_input run_id req token_type now)) [
        | none ↦ err (hash_generation_failed "failed to hash continuation token")
        | some h ↦
            let token = "ct_" ++ slice h 0 20 in
            elim (checked_hash (Json.scalar (Value.text token))) [
              | none ↦ err (hash_generation_failed "failed to hash continuation token ref")
              | some token_hash ↦ ok (token, token_hash)
            ]
      ]

  -- After the synthetic step: the continuation, the run, the event.
  unfoldable pub park_commit :
      String
      → ParkRunRequest
      → TokenType
      → String
      → String
      → Time
      → RunInstance
      → String
      → Kernel
      → Kernel × Result ParkRunResponse
  unfolding new_continuation park_event park_response
  park_commit run_id req token_type token token_hash now r step_hash k =
      let expires_at = add now (park_ttl k.cfg req) in
      let state = parked_state token_type in
      let r' = parked_instance state req step_hash now r in
      let k1 = put_run run_id r' (record k {
        continuations =
            insert token (new_continuation run_id req token_type token token_hash expires_at now)
              k.continuations;
      }) in
      (
        emit (park_event state) run_id req.step_id
            (("continuation_id", Value.text token)
              ∷ ("token_type", Value.text (show_token_type token_type))
              ∷ ("expires_at", Value.time expires_at)
              ∷ ("step_seq_id", Value.int req.incoming_step_seq_id)
              ∷ ("new_state", Value.text (show_state state))
              ∷ [])
            now k1,
        ok (park_response run_id token_type token expires_at r'.view),
      )

  -- From the token on.
  unfoldable pub park_checked :
      String
      → ParkRunRequest
      → TokenType
      → Time
      → RunInstance
      → Kernel
      → Kernel × Result ParkRunResponse
  park_checked run_id req token_type now r k = elim (park_token run_id req token_type now) [
    | err e ↦ (k, err e)
    | ok (token, token_hash) ↦
        on_step
          (append_synthetic_step r req.step_id req.incoming_step_seq_id "park" req.park_reason
            ("parked:" ++ show_token_type token_type) now k)
          (λ e k1. (k1, err e))
          (λ step_hash k1. park_commit run_id req token_type token token_hash now r step_hash k1)
  ]

  unfoldable pub park_found :
      String → ParkRunRequest → Time → RunInstance → Kernel → Kernel × Result ParkRunResponse
  park_found run_id req now r k =
      if is_terminal_state r.view.state
      then (k, err terminal_state)
      else if not (eq_ℤ req.expected_state_version r.view.state_version)
      then (k, err state_version_conflict)
      else if leb_ℤ req.incoming_step_seq_id r.view.current_step_seq_id
      then (
        emit_progress_monotonicity_violation run_id req.step_id req.incoming_step_seq_id
            r.view.current_step_seq_id now k,
        err monotonicity_violation,
      )
      else elim (validate_park r.view.state req) [
        | err e ↦ (k, err e)
        | ok token_type ↦ park_checked run_id req token_type now r k
      ]

  unfoldable pub park_run :
      String → ParkRunRequest → Time → Kernel → Kernel × Result ParkRunResponse
  park_run run_id req now k = with_run run_id k λ r. park_found run_id req now r k
