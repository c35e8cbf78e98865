-- ===== src/Config/Load.antt =====
-- config.go: `config`, `loadConfig`, `durationEnv`, `int64Env` and `boolEnv`. The environment is a
-- function, as `loadConfig` takes it. `time.ParseDuration` is a parameter of what reads durations:
-- its result is a number of nanoseconds, or its message.
use mcp_opa.Base.{
  ℕ, zero, suc, ◌*◌, ◌^◌, Bool, false, Bytes, is_empty, if◌then◌else◌, Result, ok, err, ◌>>=◌,
  String,
}
use mcp_opa.Config.Numbers.{ℤ, pos, negsuc, NumError, parse_int, parse_bool}

abbrev pub env_pdp_url : String
env_pdp_url = "AUTHZEN_PDP_URL"

abbrev pub env_pdp_token : String
env_pdp_token = "AUTHZEN_PDP_TOKEN"

abbrev pub env_pdp_timeout : String
env_pdp_timeout = "AUTHZEN_PDP_TIMEOUT"

abbrev pub env_pdp_max_bytes : String
env_pdp_max_bytes = "AUTHZEN_PDP_MAX_RESPONSE_BYTES"

abbrev pub env_rego_timeout : String
env_rego_timeout = "MCP_OPA_EVAL_TIMEOUT"

abbrev pub env_max_arg_bytes : String
env_max_arg_bytes = "MCP_MAX_ARG_BYTES"

abbrev pub env_allow_net_built : String
env_allow_net_built = "MCP_OPA_ALLOW_NETWORK_BUILTINS"

-- `time.Second` in nanoseconds.
abbrev pub second : ℕ
second = 10 ^ 9

abbrev pub default_pdp_timeout : ℕ
default_pdp_timeout = 10 * second

abbrev pub default_pdp_max_bytes : ℕ
default_pdp_max_bytes = 2 ^ 20

abbrev pub default_rego_timeout : ℕ
default_rego_timeout = 5 * second

abbrev pub default_max_arg_bytes : ℕ
default_max_arg_bytes = 2 ^ 20

-- The bounds are held as naturals: `loadConfig` refuses a value that is not positive. `int` has
-- the 64 bits of the platforms that the releases are built for, so `int(n)` keeps the value.
pub record Config : Type 0 where
  pub pdp_url : Bytes
  pub pdp_token : Bytes
  pub pdp_timeout : ℕ
  pub pdp_max_bytes : ℕ
  pub rego_timeout : ℕ
  pub max_arg_bytes : ℕ
  pub allow_network_builtins : Bool

-- Each error carries the variable's name and what stood there, as its message does.
pub data ConfigError : Type 0 where
  not_a_duration : String → Bytes → Bytes → ConfigError
  not_an_integer : String → Bytes → NumError → ConfigError
  not_a_boolean : String → Bytes → NumError → ConfigError
  not_positive : String → Bytes → ConfigError

abbrev pub Environment : Type 0
Environment = String → Bytes

-- `d <= 0` and `n <= 0`
abbrev pub positive : String → Bytes → ℤ → Result ConfigError ℕ
positive name raw (pos zero) = err (not_positive name raw)
positive name raw (pos (suc n)) = ok (suc n)
positive name raw (negsuc n) = err (not_positive name raw)

abbrev pub DurationParser : Type 0
DurationParser = Bytes → Result Bytes ℤ

unfoldable pub duration_env : DurationParser → Environment → String → ℕ → Result ConfigError ℕ
duration_env parse_duration getenv name def =
    if is_empty (getenv name) then ok def else elim (parse_duration (getenv name)) [
      | ok d ↦ positive name (getenv name) d
      | err e ↦ err (not_a_duration name (getenv name) e)
    ]

unfoldable pub int64_env : Environment → String → ℕ → Result ConfigError ℕ
int64_env getenv name def =
    if is_empty (getenv name) then ok def else elim (parse_int (getenv name)) [
      | ok n ↦ positive name (getenv name) n
      | err e ↦ err (not_an_integer name (getenv name) e)
    ]

unfoldable pub bool_env : Environment → String → Result ConfigError Bool
bool_env getenv name =
    if is_empty (getenv name) then ok false else elim (parse_bool (getenv name)) [
      | ok b ↦ ok b
      | err e ↦ err (not_a_boolean name (getenv name) e)
    ]

unfoldable pub load_config : DurationParser → Environment → Result ConfigError Config
load_config parse_duration getenv = do
  pdp_timeout ← duration_env parse_duration getenv env_pdp_timeout default_pdp_timeout
  rego_timeout ← duration_env parse_duration getenv env_rego_timeout default_rego_timeout
  max_bytes ← int64_env getenv env_pdp_max_bytes default_pdp_max_bytes
  max_arg ← int64_env getenv env_max_arg_bytes default_max_arg_bytes
  allow ← bool_env getenv env_allow_net_built
  ok (record {
    pdp_url = getenv env_pdp_url;
    pdp_token = getenv env_pdp_token;
    pdp_timeout = pdp_timeout;
    pdp_max_bytes = max_bytes;
    rego_timeout = rego_timeout;
    max_arg_bytes = max_arg;
    allow_network_builtins = allow;
  })
