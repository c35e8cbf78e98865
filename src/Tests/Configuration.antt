-- ===== src/Tests/Configuration.antt =====
-- Settings, numbers and arguments.
use mcp_opa.Base.{◌≡◌, refl, true, false, [], ◌∷◌, codes, if◌then◌else◌, str_eq, ok, err, equal}
use mcp_opa.Json.{Value, object, end, null, Decode}
use mcp_opa.Config.Numbers.{pos, negsuc, range, syntax, parse_int, parse_bool}
use mcp_opa.Config.Load.{
  Config, ConfigError, not_positive, Environment, DurationParser, load_config, duration_env,
  int64_env, bool_env,
}
use mcp_opa.Config.Laws.{Describes, load_config_iff}
use mcp_opa.Config.Errors.{IsMalformed, load_config-IsMalformed}
use mcp_opa.Config.Bounds.{IsBounded, load_config-IsBounded}
use mcp_opa.Args.Read.{Request, json_object_arg, as_json_object, object_or_fault}
use mcp_opa.Args.Laws.{AcceptsObject, json_object_arg_iff}

-- Durations in nanoseconds.
abbrev pub plain_duration : DurationParser
plain_duration raw = elim (parse_int raw) [ ok n ↦ ok n | err e ↦ err (codes "not a duration") ]

abbrev pub settings : Environment
settings name =
    if str_eq name "AUTHZEN_PDP_URL"
    then codes "http://h/access/v1/evaluation"
    else if str_eq name "AUTHZEN_PDP_TOKEN"
    then codes " secret "
    else if str_eq name "AUTHZEN_PDP_TIMEOUT"
    then codes "2500"
    else if str_eq name "MCP_OPA_ALLOW_NETWORK_BUILTINS"
    then codes "f"
    else []

abbrev pub settings_config : Config
settings_config = record {
  pdp_url = codes "http://h/access/v1/evaluation";
  pdp_token = codes " secret ";
  pdp_timeout = 2500;
  pdp_max_bytes = 1048576;
  rego_timeout = 5000000000;
  max_arg_bytes = 1048576;
  allow_network_builtins = false;
}

pub settings-load : load_config plain_duration settings ≡ ok settings_config
unfolding load_config duration_env int64_env bool_env parse_int parse_bool equal
settings-load = refl

abbrev zero_timeout : Environment
zero_timeout name = if str_eq name "MCP_OPA_EVAL_TIMEOUT" then codes "0" else []

abbrev zero_fault : ConfigError
zero_fault = not_positive "MCP_OPA_EVAL_TIMEOUT" (codes "0")

zero_timeout-load : load_config plain_duration zero_timeout ≡ err zero_fault
unfolding load_config duration_env int64_env bool_env parse_int parse_bool
zero_timeout-load = refl

numbers :
    (parse_int (codes "-12") ≡ ok (negsuc 11))
    × (parse_int (codes "+7") ≡ ok (pos 7))
    × (parse_int (codes "9223372036854775808") ≡ err range)
    × (parse_int (codes "1e3") ≡ err syntax)
unfolding parse_int
numbers = (refl, refl, refl, refl)

load_config_iff_example : Describes plain_duration settings settings_config
load_config_iff_example = (load_config_iff plain_duration settings settings_config).0 settings-load

load_config-IsMalformed_example : IsMalformed plain_duration zero_timeout zero_fault
load_config-IsMalformed_example =
    load_config-IsMalformed plain_duration zero_timeout zero_timeout-load

load_config-IsBounded_example : IsBounded settings_config
load_config-IsBounded_example =
    load_config-IsBounded plain_duration settings settings_config settings-load

-- A decoder for texts that begin with a brace.
abbrev braces : Decode Value
braces [] = err (codes "unexpected end")
braces (c ∷ s) = if equal (c ∷ []) (codes "{") then ok (object end) else ok null

abbrev subject_given : Request
subject_given = record {
  get_string = λ name missing. if str_eq name "subject" then codes "{}" else missing;
  get_bool = λ name missing. missing;
}

subject_given-read : json_object_arg braces subject_given "subject" 10 true ≡ ok (codes "{}")
unfolding json_object_arg as_json_object object_or_fault equal
subject_given-read = refl

json_object_arg_iff_example : AcceptsObject braces (codes "{}") 10 true (codes "{}")
json_object_arg_iff_example =
    (json_object_arg_iff braces subject_given "subject" 10 true (codes "{}")).0 subject_given-read
