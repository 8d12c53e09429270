-- ===== src/Run/Obligations/Limits.antt =====
-- `enforceLimitParamObligation` and `parseLimitValue` of internal/run/kernel.go.
use Prim.Native.String.{len}
use agent_infra_system.Base.{ℕ, String, Option, none, some, ltb, if◌then◌else◌, ◌==◌}
use agent_infra_system.Base.Int.{ℤ, pos, negsuc, ltb_ℤ}
use agent_infra_system.Base.Text.{trim_space, to_lower, atoi}
use agent_infra_system.Base.Split.{split_on, last_part}
use agent_infra_system.Run.Types.{AdvanceRunRequest, DecisionObligation}

nonnegative : Option ℤ → Option ℕ
nonnegative none = none
nonnegative (some (pos n)) = some n
nonnegative (some (negsuc n)) = none

-- The last part of a text without a `:` is the whole text, so one expression does for both cases.
unfoldable pub parse_limit_value : String → Option ℕ
unfolding nonnegative
parse_limit_value v =
    let t = trim_space v in
    if t == "" then none else nonnegative (atoi (trim_space (last_part (split_on b':' t))))

unfoldable pub check_limit : AdvanceRunRequest → String → ℕ → Option String
check_limit req target n =
    if target == "max_input_hash_len"
    then (if ltb n (len req.input_hash) then some "input_hash exceeds limit" else none)
    else if target == "max_output_hash_len"
    then (if ltb n (len req.output_hash) then some "output_hash exceeds limit" else none)
    else if target == "max_step_seq_id"
    then (if ltb_ℤ (pos n) req.incoming_step_seq_id then some "step_seq_id exceeds limit" else none)
    else some "unsupported limit target"

-- The error's text, or `none` where the limit is kept.
unfoldable pub enforce_limit_param_obligation :
    AdvanceRunRequest → DecisionObligation → Option String
unfolding check_limit
enforce_limit_param_obligation req ob = elim (parse_limit_value (trim_space ob.value)) [
  | none ↦ some "invalid limit value"
  | some n ↦ check_limit req (to_lower (trim_space ob.target)) n
]
