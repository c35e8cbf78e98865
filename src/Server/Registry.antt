-- ===== src/Server/Registry.antt =====
-- main.go: `newServer`, and `registerAuthZENTools` of tool_authzen.go. The server of mcp-go is an
-- interface: how one is made, how a tool is added, and which handler a call by name reaches.
use mcp_opa.Base.{
  ◌≡◌, ◌↔◌, refl, sym, ap, ◌∙◌, Bool, true, Bool-cases, inl, inr, false, Option, none, some, String,
  Bytes, str_eq, str_eq_iff, if◌then◌else◌, arith,
}
use mcp_opa.Config.Load.{Config}
use mcp_opa.Cli.{BuildInfo, resolve_version}
use mcp_opa.Server.Declaration.{Declaration}
use mcp_opa.Server.PolicyTool.{policy_tool}
use mcp_opa.Server.AuthzenTools.{evaluate_tool, batch_tool, discover_tool}
use mcp_opa.Server.Texts.{instructions}
use mcp_opa.Server.Calls.{
  Handler, Libraries, Tool, evaluate_policy_tool, authzen_evaluate_tool,
  authzen_evaluate_batch_tool, authzen_discover_tool, declaration, handler, handle_policy,
  handle_evaluate, handle_batch, handle_discover,
}

-- What `server.NewMCPServer` is given.
pub record ServerOptions : Type 0 where
  pub name : String
  pub version : Bytes
  pub list_changed : Bool
  pub recovery : Bool
  pub instructions : String

-- The documented behaviour of mcp-go: a call by name reaches the handler that was added last under
-- that name, and no other.
pub record ToolServer : Type 1 where
  pub Server : Type 0
  pub new : ServerOptions → Server
  pub add_tool : Server → Declaration → Handler → Server
  pub find : Server → String → Option Handler
  pub find-new : (o : ServerOptions) (name : String) → find (new o) name ≡ none
  pub find-add_tool :
      (s : Server) (d : Declaration) (h : Handler) (name : String)
      → find (add_tool s d h) name ≡ (if str_eq d.name name then some h else find s name)

module _ (mcp : ToolServer) {Decl Rest Event : Type 0} (libs : Libraries Decl Rest Event)
    (cfg : Config) where
  open mcp use {Server, new, add_tool, find, find-new, find-add_tool}

  unfoldable pub register_opa_tool : Server → Server
  register_opa_tool s = add_tool s policy_tool (handle_policy libs cfg)

  unfoldable pub register_evaluate_tool : Server → Server
  register_evaluate_tool s = add_tool s evaluate_tool (handle_evaluate libs cfg)

  unfoldable pub register_batch_tool : Server → Server
  register_batch_tool s = add_tool s batch_tool (handle_batch libs cfg)

  unfoldable pub register_discover_tool : Server → Server
  register_discover_tool s = add_tool s discover_tool (handle_discover libs cfg)

  unfoldable pub register_authzen_tools : Server → Server
  unfolding register_evaluate_tool register_batch_tool register_discover_tool
  register_authzen_tools s = register_discover_tool (register_batch_tool (register_evaluate_tool s))

  unfoldable pub new_server : Bytes → BuildInfo → Server
  unfolding register_opa_tool register_authzen_tools
  new_server version info = register_authzen_tools (
      register_opa_tool (
        new (record {
          name = "mcp-opa-authz";
          version = resolve_version version info;
          list_changed = false;
          recovery = true;
          instructions = instructions;
        })))

  -- The handler that a name reaches.
  abbrev pub tool_named : String → Option Handler
  tool_named name =
      if str_eq "authzen_discover" name
      then some (handle_discover libs cfg)
      else if str_eq "authzen_evaluate_batch" name
      then some (handle_batch libs cfg)
      else if str_eq "authzen_evaluate" name
      then some (handle_evaluate libs cfg)
      else if str_eq "evaluate_policy" name
      then some (handle_policy libs cfg)
      else none

  find-new_server :
      (version : Bytes) (info : BuildInfo) (name : String)
      → find (new_server version info) name ≡ tool_named name
  unfolding new_server
  find-new_server version info name = simp (find-add_tool, find-new)

  tool_named-Tool :
      (name : String) {h : Handler}
      → tool_named name ≡ some h
      → (t : Tool) × (name ≡ (declaration t).name) × (h ≡ handler libs cfg t)
  tool_named-Tool name {h} e = elim (Bool-cases (str_eq "authzen_discover" name)) [
    | inl here ↦ (authzen_discover_tool, named "authzen_discover" here, ground arith)
    | inr other ↦ elim (Bool-cases (str_eq "authzen_evaluate_batch" name)) [
      | inl here ↦ (authzen_evaluate_batch_tool, named "authzen_evaluate_batch" here, ground arith)
      | inr other' ↦ elim (Bool-cases (str_eq "authzen_evaluate" name)) [
        | inl here ↦ (authzen_evaluate_tool, named "authzen_evaluate" here, ground arith)
        | inr other'' ↦ elim (Bool-cases (str_eq "evaluate_policy" name)) [
          | inl here ↦ (evaluate_policy_tool, named "evaluate_policy" here, ground arith)
          | inr none_left ↦ absurd (ground arith)
        ]
      ]
    ]
  ]
    where
      named : (known : String) → str_eq known name ≡ true → name ≡ known
      named known h = sym ((str_eq_iff known name).0 h)

  tool_named-declaration : (t : Tool) → tool_named (declaration t).name ≡ some (handler libs cfg t)
  tool_named-declaration evaluate_policy_tool = refl
  tool_named-declaration authzen_evaluate_tool = refl
  tool_named-declaration authzen_evaluate_batch_tool = refl
  tool_named-declaration authzen_discover_tool = refl

  -- On the server that `newServer` builds a name reaches a handler exactly when one of the four tools
  -- is declared under it, and then that tool's handler: no registration hides another.
  pub find-new_server_iff :
      (version : Bytes) (info : BuildInfo) (name : String) (h : Handler)
      → (find (new_server version info) name ≡ some h)
        ↔ ((t : Tool) × (name ≡ (declaration t).name) × (h ≡ handler libs cfg t))
  find-new_server_iff version info name h = (
    (λ found. tool_named-Tool name (sym (find-new_server version info name) ∙ found)),
    λ (t, same, is).
        ap (find (new_server version info)) same
        ∙ find-new_server version info (declaration t).name
        ∙ tool_named-declaration t
        ∙ ap some (sym is),
  )
