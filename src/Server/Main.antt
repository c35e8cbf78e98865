-- ===== src/Server/Main.antt =====
-- main.go: `run` on the server that `newServer` builds.
use mcp_opa.Base.{Bytes, List, [], String, some, ◌≡◌, ◌↔◌, subst, sym, ap, ◌∙◌}
use mcp_opa.Config.Load.{Config, DurationParser, Environment}
use mcp_opa.Config.Laws.{Describes, load_config_iff}
use mcp_opa.Cli.{BuildInfo, Served, Ending, Program, serves, run}
use mcp_opa.Cli.Laws.{Serves-loads, loads-Serves}
use mcp_opa.Server.Calls.{Libraries, Handler, Tool, declaration, handler}
use mcp_opa.Server.Registry.{ToolServer, new_server, find-new_server_iff}

module _ (mcp : ToolServer) {Decl Rest Event : Type 0} (libs : Libraries Decl Rest Event) where
  open mcp use {Server, find}

  unfoldable pub main :
      (Bytes → Bytes)
      → Bytes
      → BuildInfo
      → DurationParser
      → Environment
      → List Bytes
      → Program Server
  main quote version info parse env =
      run quote version info parse env (λ cfg. new_server mcp libs cfg version info)

  -- A server on which a name reaches a handler exactly when one of the four tools is declared under
  -- it, and then that tool's under the configuration.
  abbrev pub ServesTools : Config → Server → Type 0
  ServesTools cfg s =
      (name : String) (h : Handler)
      → (find s name ≡ some h)
        ↔ ((t : Tool) × (name ≡ (declaration t).name) × (h ≡ handler libs cfg t))

  module _ (quote : Bytes → Bytes) (version : Bytes) (info : BuildInfo) (parse : DurationParser)
      (env : Environment) where
    -- What the transport is given, by the arguments and the environment.
    abbrev pub IsServed : List Bytes → Server → Type 0
    IsServed args s =
        (args ≡ [])
        × ((cfg : Config) × Describes parse env cfg
            × (s ≡ new_server mcp libs cfg version info)
            × ServesTools cfg s)

    main-IsServed :
        (args : List Bytes) (s : Server) (next : Served → Ending)
        → main quote version info parse env args ≡ serves s next
        → IsServed args s
    unfolding main
    main-IsServed args s next h =
        let (none_given, (cfg, loaded, same)) =
          Serves-loads quote version info parse env (λ cfg. new_server mcp libs cfg version info)
            args s (next, h) in
        (
          none_given,
          (
            cfg,
            (load_config_iff parse env cfg).0 loaded,
            same,
            subst (ServesTools cfg) (sym same) (find-new_server_iff mcp libs cfg version info),
          ),
        )

    IsServed-main :
        (args : List Bytes) (s : Server)
        → IsServed args s
        → (next : Served → Ending) × (main quote version info parse env args ≡ serves s next)
    unfolding main
    IsServed-main args s (none_given, (cfg, described, same, tools)) =
        let (next, served) =
          loads-Serves quote version info parse env (λ cfg. new_server mcp libs cfg version info)
            cfg ((load_config_iff parse env cfg).1 described) in
        (
          next,
          ap (main quote version info parse env) none_given
              ∙ served
              ∙ ap (λ s. serves s next) (sym same),
        )

    -- A server is given to the transport exactly when there are no arguments and it is the one that
    -- `newServer` builds of the configuration that the environment describes; on it a name reaches a
    -- handler exactly when one of the four tools is declared under it, and then that tool's under that
    -- configuration.
    pub main-serves_iff :
        (args : List Bytes) (s : Server)
        → ((next : Served → Ending) × (main quote version info parse env args ≡ serves s next))
          ↔ IsServed args s
    main-serves_iff args s = (λ (next, h). main-IsServed args s next h, IsServed-main args s)
