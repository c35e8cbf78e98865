-- ===== src/Cli.antt =====
-- main.go: `run` and `resolveVersion`. What `newServer` builds from a configuration, and the transport
-- `server.ServeStdio` on it, are parameters here; Server.Main puts the real `newServer` in. So is what
-- the Go toolchain recorded of the build.
pub mod Laws
use mcp_opa.Base.{
  ℕ, Bool, true, false, ◌||◌, List, [], ◌∷◌, ◌++◌, Option, none, some, Bytes, codes, equal,
  is_empty, if◌then◌else◌, any, Result, ok, err,
}
use mcp_opa.Config.Load.{Config, ConfigError, Environment, DurationParser, load_config}
use mcp_opa.Config.Messages.{config_message}
use mcp_opa.Server.Texts.{usage}

-- How serving ends: in order, or with an error, and then whether that is a cancellation.
pub data Served : Type 0 where
  finished : Served
  broke : Bytes → Bool → Served

-- The exit code, and what `run` itself prints.
pub record Ending : Type 0 where
  pub code : ℕ
  pub stdout : Bytes
  pub stderr : Bytes

-- What `run` does: it ends, or it gives a server to the transport and goes on from how that ends.
pub data Program (Server : Type 0) : Type 0 where
  exits : Ending → Program Server
  serves : Server → (Served → Ending) → Program Server

-- How a run ends, with the transport.
abbrev pub outcome : {Server : Type 0} → (Server → Served) → Program Server → Ending
outcome serve_stdio (exits e) = e
outcome serve_stdio (serves s next) = next (serve_stdio s)

-- `debug.ReadBuildInfo`: the main module's version, where there is build information.
abbrev pub BuildInfo : Type 0
BuildInfo = Option Bytes

unfoldable pub resolve_version : Bytes → BuildInfo → Bytes
resolve_version version info =
    if equal version (codes "dev")
    then elim info [
      | none ↦ version
      | some v ↦ if is_empty v || equal v (codes "(devel)") then version else v
    ]
    else version

abbrev pub version_words : List Bytes
version_words = codes "--version" ∷ codes "-v" ∷ codes "version" ∷ []

abbrev pub help_words : List Bytes
help_words = codes "--help" ∷ codes "-h" ∷ codes "help" ∷ []

abbrev pub is_word : Bytes → List Bytes → Bool
is_word arg words = any (equal arg) words

abbrev pub complaint : Bytes → Bytes
complaint msg = codes "mcp-opa-authz: " ++ (msg ++ codes "\n")

-- What `run` makes of the end of serving.
unfoldable pub ending_of : Served → Ending
ending_of finished = record { code = 0; stdout = []; stderr = [] }
ending_of (broke e true) = record { code = 0; stdout = []; stderr = [] }
ending_of (broke e false) = record { code = 1; stdout = []; stderr = complaint e }

-- `quote` is what the verb %q writes.
module _ (quote : Bytes → Bytes) (version : Bytes) (info : BuildInfo) where
  -- The arguments: only the first is looked at.
  unfoldable pub run_argument : Bytes → Ending
  run_argument arg =
      if is_word arg version_words
      then record {
        code = 0;
        stdout = codes "mcp-opa-authz " ++ (resolve_version version info ++ codes "\n");
        stderr = [];
      }
      else if is_word arg help_words
      then record { code = 0; stdout = codes usage ++ codes "\n"; stderr = [] }
      else record {
        code = 2;
        stdout = [];
        stderr =
            complaint (codes "unknown argument " ++ (quote arg ++ (codes "\n\n" ++ codes usage)));
      }

  module _ (parse : DurationParser) (env : Environment) {Server : Type 0}
      (new_server : Config → Server) where
    unfoldable pub run : List Bytes → Program Server
    run [] = elim (load_config parse env) [
      | err e ↦
          exits (record { code = 1; stdout = []; stderr = complaint (config_message quote e) })
      | ok cfg ↦ serves (new_server cfg) ending_of
    ]
    run (arg ∷ rest) = exits (run_argument arg)
