-- ===== src/Run/Park/Ttl.antt =====
-- The time to live that a park asks for, as an int64 number of nanoseconds.
use agent_infra_system.Base.{ℕ, ◌*◌, ◌≤◌, true, ◌≡◌, arith}
use agent_infra_system.Base.Int.{pos, int64_mul}
use agent_infra_system.Base.Time.{Time, second, add, after}
use agent_infra_system.Run.Types.{Config, ParkRunRequest}
use agent_infra_system.Run.Park.{park_ttl}

-- A time to live of 1 to 9223372036 seconds that a park asks for is exact.
pub park_ttl_exact :
    (c : Config) (req : ParkRunRequest) (n : ℕ)
    → req.ttl_seconds ≡ pos n
    → 1 ≤ n
    → n ≤ 9223372036
    → park_ttl c req ≡ pos (n * second)
unfolding park_ttl int64_mul
park_ttl_exact c req n given h b = rw given (ground arith)

-- A time to live of 9223372037 to 18446744073 seconds wraps: at every time after the zero time, the
-- continuation has expired when it is made.
pub park_ttl_wraps :
    (c : Config) (req : ParkRunRequest) (n : ℕ) (now : Time)
    → req.ttl_seconds ≡ pos n
    → 9223372037 ≤ n
    → n ≤ 18446744073
    → 1 ≤ now
    → after now (add now (park_ttl c req)) ≡ true
unfolding park_ttl int64_mul
park_ttl_wraps c req n now given h b t = rw given (ground arith)
