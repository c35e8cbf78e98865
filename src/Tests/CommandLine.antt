-- ===== src/Tests/CommandLine.antt =====
-- The command line on concrete arguments.
use mcp_opa.Base.{◌≡◌, refl, false, List, [], none, some, Bytes, codes, equal, ◌++◌}
use mcp_opa.Config.Load.{Config, load_config, duration_env, int64_env, bool_env}
use mcp_opa.Config.Numbers.{parse_int, parse_bool}
use mcp_opa.Cli.{Served, Ending, serves, broke, run, run_argument, ending_of, resolve_version}
use mcp_opa.Cli.Laws.{KeepsStreams, run-KeepsStreams}
use mcp_opa.Server.Registry.{new_server}
use mcp_opa.Server.Main.{main, IsServed, main-serves_iff}
use mcp_opa.Tests.Server.{named_tools, libs}
use mcp_opa.Tests.Configuration.{settings_config, settings, plain_duration}

-- What the verb %q writes, of a text without quotes.
abbrev quote : Bytes → Bytes
quote s = codes "\"" ++ (s ++ codes "\"")

-- The transport breaks off.
abbrev breaks : Config → Served
breaks cfg = broke (codes "broken pipe") false

abbrev no_arguments : List Bytes
no_arguments = []

-- The version that a build without a tag reports.
version_printed :
    (run_argument quote (codes "dev") (some (codes "v1.2.0")) (codes "-v")).stdout
    ≡ codes "mcp-opa-authz v1.2.0\n"
unfolding run_argument resolve_version equal
version_printed = refl

no_arguments_served :
    (next : Served → Ending) × (main named_tools libs quote
        (codes "dev")
        none
        plain_duration
        settings
        no_arguments
      ≡ serves (new_server named_tools libs settings_config (codes "dev") none) next)
unfolding main run load_config duration_env int64_env bool_env parse_int parse_bool equal
no_arguments_served = (ending_of, refl)

main-serves_iff_example :
    IsServed named_tools libs quote
      (codes "dev")
      none
      plain_duration
      settings
      no_arguments
      (new_server named_tools libs settings_config (codes "dev") none)
main-serves_iff_example =
    (main-serves_iff named_tools libs quote (codes "dev") none plain_duration settings no_arguments
        (new_server named_tools libs settings_config (codes "dev") none)).0
      no_arguments_served

run-KeepsStreams_example :
    KeepsStreams breaks
      (run quote (codes "dev") none plain_duration settings (λ cfg. cfg) no_arguments)
run-KeepsStreams_example =
    run-KeepsStreams quote (codes "dev") none plain_duration settings (λ cfg. cfg) breaks
      no_arguments
