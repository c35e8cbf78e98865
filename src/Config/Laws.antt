-- ===== src/Config/Laws.antt =====
-- What `loadConfig` promises: every setting is its variable's value or its default.
use mcp_opa.Base.{
  ℕ, ◌<◌, ◌≡◌, ◌≢◌, Bool, false, [], Bytes, ◌⊎◌, inl, inr, Result, ok, String, ◌↔◌, arith,
}
use mcp_opa.Config.Numbers.{ℤ, pos, parse_int, parse_bool}
use mcp_opa.Config.Load.{
  Config, Environment, DurationParser, duration_env, int64_env, bool_env, load_config,
  env_pdp_timeout, env_pdp_max_bytes, env_rego_timeout, env_max_arg_bytes, env_allow_net_built,
  default_pdp_timeout, default_pdp_max_bytes, default_rego_timeout, default_max_arg_bytes,
}

-- A variable that is unset or empty gives the default, and any other gives the positive number
-- that it spells.
abbrev pub Gives : {E : Type 0} → (Bytes → Result E ℤ) → Bytes → ℕ → ℕ → Type 0
Gives parse raw def n = ((raw ≡ []) × (n ≡ def)) ⊎ ((raw ≢ []) × (parse raw ≡ ok (pos n)) × (0 < n))

abbrev pub GivesFlag : Bytes → Bool → Type 0
GivesFlag raw b = ((raw ≡ []) × (b ≡ false)) ⊎ ((raw ≢ []) × (parse_bool raw ≡ ok b))

-- The configuration that an environment describes.
pub record Describes (parse_duration : DurationParser) (env : Environment) (c : Config)
    : Type 0 where
  pub url : c.pdp_url ≡ env "AUTHZEN_PDP_URL"
  pub token : c.pdp_token ≡ env "AUTHZEN_PDP_TOKEN"
  pub pdp_time : Gives parse_duration (env "AUTHZEN_PDP_TIMEOUT") 10000000000 c.pdp_timeout
  pub pdp_bytes : Gives parse_int (env "AUTHZEN_PDP_MAX_RESPONSE_BYTES") 1048576 c.pdp_max_bytes
  pub rego_time : Gives parse_duration (env "MCP_OPA_EVAL_TIMEOUT") 5000000000 c.rego_timeout
  pub arg_bytes : Gives parse_int (env "MCP_MAX_ARG_BYTES") 1048576 c.max_arg_bytes
  pub network : GivesFlag (env "MCP_OPA_ALLOW_NETWORK_BUILTINS") c.allow_network_builtins

module _ (parse : DurationParser) (env : Environment) (name : String) (def n : ℕ) where
  duration_env_sound : duration_env parse env name def ≡ ok n → Gives parse (env name) def n
  unfolding duration_env
  duration_env_sound h = ground arith

  duration_env_complete : Gives parse (env name) def n → duration_env parse env name def ≡ ok n
  unfolding duration_env
  duration_env_complete (inl (e, d)) = ground arith
  duration_env_complete (inr (ne, e, p)) = ground arith

module _ (env : Environment) (name : String) (def n : ℕ) where
  int64_env_sound : int64_env env name def ≡ ok n → Gives parse_int (env name) def n
  unfolding int64_env
  int64_env_sound h = ground arith

  int64_env_complete : Gives parse_int (env name) def n → int64_env env name def ≡ ok n
  unfolding int64_env
  int64_env_complete (inl (e, d)) = ground arith
  int64_env_complete (inr (ne, e, p)) = ground arith

module _ (env : Environment) (name : String) (b : Bool) where
  bool_env_sound : bool_env env name ≡ ok b → GivesFlag (env name) b
  unfolding bool_env
  bool_env_sound h = ground arith

  bool_env_complete : GivesFlag (env name) b → bool_env env name ≡ ok b
  unfolding bool_env
  bool_env_complete (inl (e, d)) = ground arith
  bool_env_complete (inr (ne, e)) = ground arith

module _ (parse : DurationParser) (env : Environment) (c : Config) where
  pub load_config-Describes : load_config parse env ≡ ok c → Describes parse env c
  unfolding load_config
  load_config-Describes h = record {
    url = ground arith;
    token = ground arith;
    pdp_time =
        duration_env_sound parse env env_pdp_timeout default_pdp_timeout c.pdp_timeout
          (ground arith);
    pdp_bytes =
        int64_env_sound env env_pdp_max_bytes default_pdp_max_bytes c.pdp_max_bytes (ground arith);
    rego_time =
        duration_env_sound parse env env_rego_timeout default_rego_timeout c.rego_timeout
          (ground arith);
    arg_bytes =
        int64_env_sound env env_max_arg_bytes default_max_arg_bytes c.max_arg_bytes (ground arith);
    network = bool_env_sound env env_allow_net_built c.allow_network_builtins (ground arith);
  }

  Describes-load_config : Describes parse env c → load_config parse env ≡ ok c
  unfolding load_config
  Describes-load_config d = ground (
    arith,
    d.url,
    d.token,
    duration_env_complete parse env env_pdp_timeout default_pdp_timeout c.pdp_timeout d.pdp_time,
    int64_env_complete env env_pdp_max_bytes default_pdp_max_bytes c.pdp_max_bytes d.pdp_bytes,
    duration_env_complete parse env env_rego_timeout default_rego_timeout c.rego_timeout
        d.rego_time,
    int64_env_complete env env_max_arg_bytes default_max_arg_bytes c.max_arg_bytes d.arg_bytes,
    bool_env_complete env env_allow_net_built c.allow_network_builtins d.network,
  )

-- The configuration is loaded exactly when it is the one that the environment describes: each
-- setting is the default where its variable is empty, and otherwise the positive number (for the
-- flag, the boolean) that the variable spells.
pub load_config_iff :
    (parse : DurationParser) (env : Environment) (c : Config)
    → (load_config parse env ≡ ok c) ↔ Describes parse env c
load_config_iff parse env c = (load_config-Describes parse env c, Describes-load_config parse env c)
