-- ===== src/Run/States.antt =====
-- The string constants of internal/run/types.go as enums, and the tests on them in
-- internal/run/kernel.go. A text from a request is read by `parse_…`, which normalises it as the
-- code does; inside the kernel only the constants occur.
use agent_infra_system.Base.{String, Bool, true, false, Option, none, some, if◌then◌else◌, ◌==◌}
use agent_infra_system.Base.Text.{trim_space, to_upper, to_lower}

pub data State : Type 0 where
  running parked awaiting_approval reconciling completed failed : State
  safeguard_hold force_review_required force_abort aborted : State

pub data TokenType : Type 0 where
  park approval callback : TokenType

pub data RootType : Type 0 where
  completed partial reconciled review_hold aborted : RootType

pub data StepType : Type 0 where
  normal synthetic : StepType

pub data Risk : Type 0 where
  low medium high critical : Risk

pub data ContinuationStatus : Type 0 where
  active consumed expired : ContinuationStatus

unfoldable pub normalize_risk : String → String
normalize_risk s = to_lower (trim_space s)

unfoldable pub normalize_state : String → String
normalize_state s = to_upper (trim_space s)

state_of : String → Option State
state_of s =
    if s == "RUNNING"
    then some State.running
    else if s == "PARKED"
    then some State.parked
    else if s == "AWAITING_APPROVAL"
    then some State.awaiting_approval
    else if s == "RECONCILING"
    then some State.reconciling
    else if s == "COMPLETED"
    then some State.completed
    else if s == "FAILED"
    then some State.failed
    else if s == "SAFEGUARD_HOLD"
    then some State.safeguard_hold
    else if s == "FORCE_REVIEW_REQUIRED"
    then some State.force_review_required
    else if s == "FORCE_ABORT"
    then some State.force_abort
    else if s == "ABORTED"
    then some State.aborted
    else none

-- `isValidState`, with the state that the text names
unfoldable pub parse_state : String → Option State
unfolding state_of normalize_state
parse_state s = state_of (normalize_state s)

-- the `next_state` of an advance: empty stands for RUNNING
unfoldable pub parse_next_state : String → Option State
unfolding parse_state
parse_next_state s = if normalize_state s == "" then some State.running else parse_state s

unfoldable pub show_state : State → String
show_state State.running = "RUNNING"
show_state State.parked = "PARKED"
show_state State.awaiting_approval = "AWAITING_APPROVAL"
show_state State.reconciling = "RECONCILING"
show_state State.completed = "COMPLETED"
show_state State.failed = "FAILED"
show_state State.safeguard_hold = "SAFEGUARD_HOLD"
show_state State.force_review_required = "FORCE_REVIEW_REQUIRED"
show_state State.force_abort = "FORCE_ABORT"
show_state State.aborted = "ABORTED"

-- `isValidRisk`, with the tier that the text names
unfoldable pub parse_risk : String → Option Risk
unfolding normalize_risk
parse_risk s =
    let r = normalize_risk s in
    if r == "low"
    then some Risk.low
    else if r == "medium"
    then some Risk.medium
    else if r == "high"
    then some Risk.high
    else if r == "critical"
    then some Risk.critical
    else none

unfoldable pub show_risk : Risk → String
show_risk Risk.low = "low"
show_risk Risk.medium = "medium"
show_risk Risk.high = "high"
show_risk Risk.critical = "critical"

-- `isValidTokenType`, with the type that the text names; an empty one is `park`, as in `ParkRun`
unfoldable pub parse_token_type : String → Option TokenType
parse_token_type s =
    let t = to_lower (trim_space s) in
    if t == ""
    then some TokenType.park
    else if t == "park"
    then some TokenType.park
    else if t == "approval"
    then some TokenType.approval
    else if t == "callback"
    then some TokenType.callback
    else none

unfoldable pub show_token_type : TokenType → String
show_token_type TokenType.park = "park"
show_token_type TokenType.approval = "approval"
show_token_type TokenType.callback = "callback"

abbrev pub token_type_matches_run_state : TokenType → State → Bool
token_type_matches_run_state TokenType.approval State.awaiting_approval = true
token_type_matches_run_state TokenType.park State.parked = true
token_type_matches_run_state TokenType.callback State.parked = true
token_type_matches_run_state _ _ = false

abbrev pub is_terminal_state : State → Bool
is_terminal_state State.completed = true
is_terminal_state State.failed = true
is_terminal_state State.force_abort = true
is_terminal_state State.aborted = true
is_terminal_state _ = false

-- the two states that an advance must resume from first
abbrev pub is_waiting_state : State → Bool
is_waiting_state State.parked = true
is_waiting_state State.awaiting_approval = true
is_waiting_state _ = false

-- The switch of `isAllowedTransition`, one clause for each source state, and `f == t` for the rest.
unfoldable pub is_allowed_transition : State → State → Bool
is_allowed_transition State.running _ = true
is_allowed_transition State.reconciling State.reconciling = true
is_allowed_transition State.reconciling State.running = true
is_allowed_transition State.reconciling State.completed = true
is_allowed_transition State.reconciling State.failed = true
is_allowed_transition State.reconciling State.force_review_required = true
is_allowed_transition State.reconciling State.force_abort = true
is_allowed_transition State.parked State.parked = true
is_allowed_transition State.parked State.running = true
is_allowed_transition State.parked State.force_review_required = true
is_allowed_transition State.parked State.force_abort = true
is_allowed_transition State.awaiting_approval State.awaiting_approval = true
is_allowed_transition State.awaiting_approval State.running = true
is_allowed_transition State.awaiting_approval State.force_review_required = true
is_allowed_transition State.awaiting_approval State.force_abort = true
is_allowed_transition State.safeguard_hold State.safeguard_hold = true
is_allowed_transition State.safeguard_hold State.force_review_required = true
is_allowed_transition State.safeguard_hold State.force_abort = true
is_allowed_transition State.safeguard_hold State.aborted = true
is_allowed_transition State.completed State.completed = true
is_allowed_transition State.failed State.failed = true
is_allowed_transition State.force_review_required State.force_review_required = true
is_allowed_transition State.force_abort State.force_abort = true
is_allowed_transition State.aborted State.aborted = true
is_allowed_transition _ _ = false

unfoldable pub next_action_by_state : State → String
next_action_by_state State.running = "continue"
next_action_by_state State.parked = "wait_resume"
next_action_by_state State.awaiting_approval = "wait_approval"
next_action_by_state State.reconciling = "reconcile"
next_action_by_state State.completed = "done"
next_action_by_state State.force_review_required = "manual_review"
next_action_by_state State.force_abort = "stop"
next_action_by_state State.aborted = "stop"
next_action_by_state State.failed = "halt"
next_action_by_state State.safeguard_hold = "halt"
