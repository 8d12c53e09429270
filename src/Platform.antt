-- ===== src/Platform.antt =====
-- What the kernels take from outside the repository: JSON encoding (`var marshalJSON`, which the
-- code keeps replaceable), SHA-256 and URL parsing are parameters. The hashing helpers of
-- internal/run/kernel.go stand on them.
use agent_infra_system.Base.{
  ℕ, String, Bool, true, false, not, ◌||◌, Option, none, some, List, if◌then◌else◌,
}
use Prim.Native.String.{◌++◌}
use package.text.Mathlib.Text.{starts_with}
use agent_infra_system.Base.Int.{ℤ}
use agent_infra_system.Base.Text.{trim_space}
use agent_infra_system.Base.Time.{Time}

-- A value in an encoded struct or payload. A float64 is its bit pattern: it is passed on only.
pub data Value : Type 0 where
  text : String → Value
  int : ℤ → Value
  bool : Bool → Value
  time : Time → Value
  texts : List String → Value
  floats : List (String × ℕ) → Value
  fields : List (String × String) → Value

pub data Json : Type 0 where
  scalar : Value → Json
  object : List (String × Value) → Json

-- The parts of a `url.URL` that the code reads; `query` lists each key with its values.
pub record Url : Type 0 where
  pub scheme : String
  pub host : String
  pub path : String
  pub query : List (String × List String)

pub record Platform : Type 0 where
  pub marshal : Json → Option String  -- `json.Marshal`; `none` is an error
  pub marshal_error : Json → String  -- `%T:%v` of the value and the error
  pub sha256_hex : String → String  -- the digest in hexadecimal
  pub parse_url : String → Option Url  -- `url.Parse`; `none` is an error

module _ ⦃platform : Platform⦄ where
  unfoldable pub hash_json_with_status : Json → String × Bool
  hash_json_with_status v = elim (platform.marshal v) [
    | none ↦
        ("err_" ++ platform.sha256_hex ("json_marshal_error:" ++ platform.marshal_error v), false)
    | some raw ↦ (platform.sha256_hex raw, true)
  ]

-- `strings.HasPrefix(strings.TrimSpace(v), "err_")`
unfoldable pub is_error_hash : String → Bool
is_error_hash v = starts_with (trim_space v) "err_"

module _ ⦃platform : Platform⦄ where
  -- The hash, or `none` where the code tests `!ok || isErrorHash(hash)`.
  unfoldable pub checked_hash : Json → Option String
  unfolding hash_json_with_status
  checked_hash v =
      let (hash, ok) = hash_json_with_status v in
      if not ok || is_error_hash hash then none else some hash
