-- ===== src/Config/Messages.antt =====
-- config.go: the texts of the errors. `quote` is what the verb %q writes. Behind the source's own
-- words stands the text of the error that it wraps, of package time or strconv.
use mcp_opa.Base.{◌++◌, Bytes, codes, String}
use mcp_opa.Config.Numbers.{NumError, syntax, range}
use mcp_opa.Config.Load.{ConfigError, not_a_duration, not_an_integer, not_a_boolean, not_positive}

abbrev pub reason : NumError → Bytes
reason syntax = codes "invalid syntax"
reason range = codes "value out of range"

module _ (quote : Bytes → Bytes) where
  -- `(*strconv.NumError).Error`
  unfoldable pub num_error : String → Bytes → NumError → Bytes
  num_error function raw e =
      codes "strconv."
      ++ (codes function ++ (codes ": parsing " ++ (quote raw ++ (codes ": " ++ reason e))))

  unfoldable pub config_message : ConfigError → Bytes
  unfolding num_error
  config_message (not_a_duration name raw e) =
      codes name
      ++ (codes ": "
          ++ (quote raw ++ (codes " is not a duration (want e.g. \"10s\", \"1m\"): " ++ e)))
  config_message (not_an_integer name raw e) =
      codes name
      ++ (codes ": " ++ (quote raw ++ (codes " is not an integer: " ++ num_error "ParseInt" raw e)))
  config_message (not_a_boolean name raw e) =
      codes name
      ++ (codes ": "
          ++ (quote raw
              ++ (codes " is not a boolean (want \"true\" or \"false\"): "
                  ++ num_error "ParseBool" raw e)))
  config_message (not_positive name raw) =
      codes name ++ (codes ": must be positive, got " ++ quote raw)
