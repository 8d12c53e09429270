-- ===== src/Run/Setup.antt =====
-- `NewKernel`, `maxLifetimeForRisk`, and the reads of internal/run/kernel.go: `GetRun`,
-- `FindActiveContinuation`; `FlagRunRisk`.
pub mod Chosen
pub mod Newest
use agent_infra_system.Base.{
  String, Bool, true, false, not, ◌||◌, ◌&&◌, Option, none, some, [], ◌∷◌, is_empty, if◌then◌else◌,
  ◌==◌,
}
use agent_infra_system.Base.Int.{ℤ, pos, leb_ℤ, ltb_ℤ, eq_ℤ}
use agent_infra_system.Base.Dict.{Dict, lookup, insert}
use agent_infra_system.Base.Text.{trim_space, to_lower}
use agent_infra_system.Base.Time.{Time, Duration, minutes, hours, after}
use agent_infra_system.Run.States.{Risk, ContinuationStatus, show_risk, show_token_type}
use agent_infra_system.Run.Types.{
  Kernel, Config, DecisionPort, KernelError, Result, ok, err, kernel_err, RunInstance, RunView,
  Continuation,
}

abbrev default : ℤ → ℤ → ℤ
default given otherwise = if leb_ℤ given (pos 0) then otherwise else given

-- The configuration with the default of each entry that is not positive.
unfoldable pub with_defaults : Config → Config
with_defaults c =
    let retention = default c.run_retention (hours 72) in
    record {
      continuation_ttl = default c.continuation_ttl (minutes 30);
      continuation_retention = default c.continuation_retention (hours 24);
      idempotency_ttl = default c.idempotency_ttl (hours 24);
      run_retention = retention;
      create_request_retention = default c.create_request_retention retention;
      outbox_max_events = default c.outbox_max_events (pos 10000);
      outbox_retention = default c.outbox_retention (hours 24);
      run_max_lifetime =
          if is_empty c.run_max_lifetime
          then ("low", hours 1)
            ∷ ("medium", hours 6)
            ∷ ("high", hours 24)
            ∷ ("critical", hours 24)
            ∷ []
          else c.run_max_lifetime;
      zombie_no_progress_window = default c.zombie_no_progress_window (minutes 10);
      sweep_batch_limit = default c.sweep_batch_limit (pos 2000);
    }

unfoldable pub new_kernel : Config → Option DecisionPort → Kernel
unfolding with_defaults
new_kernel c port = record {
  cfg = with_defaults c;
  decision_port = port;
  runs = [];
  continuations = [];
  idempotency = [];
  create_runs = [];
  step_integrity = [];
  outbox = [];
  event_seq = 0;
  run_seq = 0;
  outbox_trimmed = 0;
  create_run_conflict_total = 0;
  create_run_reuse_total = 0;
}

-- The tier's lifetime, or that of `medium`; a missing key reads as 0.
unfoldable pub max_lifetime_for_risk : Config → Risk → Duration
max_lifetime_for_risk c risk = elim (lookup (show_risk risk) c.run_max_lifetime) [
  | some d ↦ d
  | none ↦ elim (lookup "medium" c.run_max_lifetime) [ some d ↦ d | none ↦ pos 0 ]
]

abbrev pub run_not_found : KernelError
run_not_found = kernel_err 404 "RUN_NOT_FOUND" "run not found" ("run_not_found" ∷ [])

-- `getRunLocked`, with what the caller does with the run
abbrev pub with_run {ℓ} :
    {A : Type ℓ} → String → Kernel → (RunInstance → Kernel × Result A) → Kernel × Result A
with_run run_id k f = elim (lookup run_id k.runs) [ none ↦ (k, err run_not_found) | some r ↦ f r ]

-- What is written through the pointer that `getRunLocked` returns.
abbrev pub put_run : String → RunInstance → Kernel → Kernel
put_run run_id r k = record k { runs = insert run_id r k.runs }

unfoldable pub get_run : String → Kernel → Result RunView
get_run run_id k = elim (lookup run_id k.runs) [ none ↦ err run_not_found | some r ↦ ok r.view ]

unfoldable pub flag_run_risk : String → Bool → Bool → Kernel → Kernel × Result (Unit {0})
flag_run_risk run_id security resource k =
    with_run run_id k λ r.
      (put_run run_id (record r { security_risk = security; resource_risk = resource }) k, ok tt)

is_active : ContinuationStatus → Bool
is_active ContinuationStatus.active = true
is_active _ = false

-- The tests that skip an entry in the loop of `FindActiveContinuation`.
unfoldable pub is_candidate : String → String → String → Time → Continuation → Bool
unfolding is_active
is_candidate run_id step_id token_type now c =
    c.run_id == run_id
    && (step_id == "" || c.step_id == step_id)
    && (token_type == "" || show_token_type c.token_type == token_type)
    && is_active c.status
    && not (after now c.expires_at)

unfoldable pub is_newer : Continuation → Continuation → Bool
is_newer c chosen =
    ltb_ℤ chosen.step_seq_id c.step_seq_id
    || (eq_ℤ c.step_seq_id chosen.step_seq_id && after c.created_at chosen.created_at)

unfoldable pub choose : Continuation → Option Continuation → Continuation
unfolding is_newer
choose c none = c
choose c (some chosen) = if is_newer c chosen then c else chosen

unfoldable pub choose_from :
    (Continuation → Bool) → Option Continuation → Dict Continuation → Option Continuation
unfolding choose
choose_from p chosen [] = chosen
choose_from p chosen ((token, c) ∷ rest) =
    choose_from p (if p c then some (choose c chosen) else chosen) rest

unfoldable pub find_active_continuation :
    String → String → String → Time → Kernel → Option Continuation
unfolding choose_from is_candidate
find_active_continuation run_id step_id token_type now k =
    let id = trim_space run_id in
    if id == ""
    then none
    else choose_from (is_candidate id (trim_space step_id) (to_lower (trim_space token_type)) now)
        none k.continuations
